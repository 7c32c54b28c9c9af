-- ===== src/Raft/Tests/OneEntry.antt =====
-- The leader that three new nodes elect starts a command, and a follower receives it.
use my_kv_storage_base_raft.Common.{◌≡◌, refl, inl, pos, some, true, [], ◌∷◌, arith}
use my_kv_storage_base_raft.OpCoder.{Op, encode_op}
use my_kv_storage_base_raft.Raft.Types.{
  ApplyMsg, ok, LogEntry, AppendEntriesArgs, AppendEntriesReply, PendingEntries,
}
use my_kv_storage_base_raft.Raft.State.{Raft}
use my_kv_storage_base_raft.Raft.Toy.{toy_archive}
use my_kv_storage_base_raft.Raft.Persister
use my_kv_storage_base_raft.Raft.Log.{
  get_slices_index_from_log_index, match_log, get_last_log_index, get_log_term_from_log_index,
}
use my_kv_storage_base_raft.Raft.Persist.{persist}
use my_kv_storage_base_raft.Raft.Vote.{adopt_term, become_leader, start_batch_sender_thread}
use my_kv_storage_base_raft.Raft.Append.{
  append_entries1, append_current, accept, merge_entries, merge_entry,
}
use my_kv_storage_base_raft.Raft.Batch.{
  start, add_to_pending_batch, add_to_each, new_entry, batch_sender_round, collect, batch_requests,
  batch_args, should_flush,
}
use my_kv_storage_base_raft.Raft.History.Steps.{starts, sends, appends}
use my_kv_storage_base_raft.Raft.Cluster.{
  Cluster, put, node_moves, node_stands, node_votes, node_counts,
}
use my_kv_storage_base_raft.Raft.Exchange.{Network, IsIdle, Runs, rests, acts}
use my_kv_storage_base_raft.Raft.Exchange.Starting.{replicate-Waits}
use my_kv_storage_base_raft.Raft.Exchange.OneEntry.{one_entry_per_index, IsAround}
use my_kv_storage_base_raft.Raft.Exchange.Terms.{AreTermed, Runs-AreTermed}
use my_kv_storage_base_raft.Raft.Log.Shape.{IsIndexed}
use my_kv_storage_base_raft.Raft.Apply.{apply_msg}
use my_kv_storage_base_raft.Raft.Exchange.Messages.{apply_msg-same}
use my_kv_storage_base_raft.Raft.Tests.OneLeader.{
  new_cluster, new_cluster-IsNew, elected_cluster, stood, voter, request, grant, one_stands,
  zero_votes, one_counts,
}

abbrev command : Op
command = record {
  operation = 80 ∷ [];
  key = 1 ∷ [];
  value = 2 ∷ [];
  client_id = 9 ∷ [];
  request_id = pos 4;
}

abbrev entry : LogEntry
entry = record { command = encode_op command; log_term = 1; log_index = 1 }

abbrev empty_buffer : PendingEntries
empty_buffer = record { entries = []; first_entry_time_ms = 7 }

-- The leader once the command stands in its log and its round has sent it.
abbrev written : Raft
written = (start toy_archive (become_leader toy_archive stood) command 7).0

abbrev batch : AppendEntriesArgs
batch = record {
  term = 1;
  leader_id = 1;
  prev_log_index = 0;
  prev_log_term = pos 0;
  entries = entry ∷ [];
  leader_commit = 0;
  batch_id = 1;
}

abbrev written_all : Raft
written_all = record written {
  pending_entries =
      empty_buffer ∷ record { entries = []; first_entry_time_ms = 0 } ∷ empty_buffer ∷ [];
}

one_sends : batch_sender_round written 20 ≡ some (written_all, (0, batch) ∷ (2, batch) ∷ [])
unfolding batch_sender_round collect batch_requests batch_args should_flush start
    add_to_pending_batch add_to_each new_entry become_leader start_batch_sender_thread persist
    get_last_log_index get_log_term_from_log_index
one_sends = refl

abbrev supplied : Raft
supplied = persist toy_archive (record voter { logs = entry ∷ []; last_reset_election_time = 25 })

abbrev accepted : AppendEntriesReply
accepted = record { term = 1; success = true; update_next_index = pos 0; app_state = 1 }

zero_appends : append_entries1 toy_archive voter batch 25 ≡ ok (supplied, accepted)
unfolding append_entries1 append_current accept merge_entries merge_entry match_log
    get_last_log_index persist adopt_term
zero_appends = refl

abbrev new_network : Network
new_network = record { cluster = new_cluster; sent = [] }

new_network-IsIdle : IsIdle 3 new_network
unfolding my_kv_storage_base_raft.Raft.Persister.init
new_network-IsIdle = record {
  new = new_cluster-IsNew;
  idle = λ i e _. replicate-Waits 3 0 e;
  sent = refl;
}

elected_cluster-Runs : Runs toy_archive 3 (record { cluster = elected_cluster; sent = [] })
unfolding put my_kv_storage_base_raft.Raft.Cluster.put2 my_kv_storage_base_raft.Raft.Cluster.mark
elected_cluster-Runs =
    acts
      (acts (acts (rests new_network-IsIdle) (node_stands 1 5 (omega arith) one_stands) tt)
        (node_votes 0 6 request (omega arith) (inl refl) (λ e. ground arith) zero_votes) tt)
      (node_counts (record { voter = 0; args = request; reply = grant }) (inl refl) refl one_counts)
      tt

abbrev supplied_network : Network
supplied_network = record {
  cluster = record elected_cluster {
    node = put (put (put elected_cluster.node 1 written) 1 written_all) 0 supplied;
  };
  sent = batch ∷ batch ∷ [];
}

supplied_network-Runs : Runs toy_archive 3 supplied_network
unfolding put
supplied_network-Runs =
    acts
      (acts (acts elected_cluster-Runs (node_moves 1 (omega arith) (starts command 7) tt) tt)
        (node_moves 1 (omega arith) (sends 20 ((0, batch) ∷ (2, batch) ∷ []) one_sends) tt) tt)
      (node_moves 0 (omega arith) (appends batch 25 accepted zero_appends) tt) (inl refl)

-- The entry of the leader's log.
leaders_entry : IsAround 3 supplied_network (new_entry (become_leader toy_archive stood) command)
unfolding put start add_to_pending_batch persist become_leader start_batch_sender_thread
leaders_entry = inl (1, omega arith, inl refl)

followers_entry : IsAround 3 supplied_network entry
unfolding put persist
followers_entry = inl (0, omega arith, inl refl)

one_entry_per_index_example : new_entry (become_leader toy_archive stood) command ≡ entry
unfolding new_entry become_leader start_batch_sender_thread persist get_last_log_index
one_entry_per_index_example =
    one_entry_per_index toy_archive 3 (new_entry (become_leader toy_archive stood) command) entry
      supplied_network-Runs leaders_entry followers_entry refl refl

Runs-AreTermed_example : AreTermed 3 supplied_network
Runs-AreTermed_example = Runs-AreTermed toy_archive 3 supplied_network-Runs

abbrev message : ApplyMsg
message = record { command_valid = true; index = 1; command = encode_op command }

-- The leader's message, made of its own entry.
abbrev leaders_message : ApplyMsg
leaders_message = record message {
  command = (new_entry (become_leader toy_archive stood) command).command;
}

leaders_log : IsIndexed (supplied_network.cluster.node 1)
unfolding put start add_to_pending_batch new_entry persist become_leader start_batch_sender_thread
    get_last_log_index
leaders_log = (refl, tt)

followers_log : IsIndexed (supplied_network.cluster.node 0)
unfolding put persist
followers_log = (refl, tt)

same_term :
    get_log_term_from_log_index (supplied_network.cluster.node 1) 1
    ≡ get_log_term_from_log_index (supplied_network.cluster.node 0) 1
unfolding put start add_to_pending_batch new_entry persist become_leader start_batch_sender_thread
    get_log_term_from_log_index get_slices_index_from_log_index
same_term = refl

leader_hands : apply_msg (supplied_network.cluster.node 1) 1 ≡ ok leaders_message
unfolding put start add_to_pending_batch persist become_leader start_batch_sender_thread apply_msg
    get_slices_index_from_log_index
leader_hands = refl

follower_hands : apply_msg (supplied_network.cluster.node 0) 1 ≡ ok message
unfolding put persist apply_msg get_slices_index_from_log_index
follower_hands = refl

apply_msg-same_example : leaders_message ≡ message
apply_msg-same_example =
    apply_msg-same toy_archive 3 1 0 1 supplied_network-Runs (omega arith) (omega arith) leaders_log
      followers_log same_term leader_hands follower_hands

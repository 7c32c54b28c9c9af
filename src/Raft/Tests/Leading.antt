-- ===== src/Raft/Tests/Leading.antt =====
-- The theorems on replication, snapshots, batches and the applier at concrete values.
use my_kv_storage_base_raft.Common.{
  ℕ, ◌≡◌, refl, ◌↔◌, ◌⊎◌, ◌≤◌, ◌<◌, true, pos, negsuc, some, List, [], ◌∷◌, ◌++◌, arith,
}
use my_kv_storage_base_raft.OpCoder.{Op}
use my_kv_storage_base_raft.OpCoder.RoundTrip.{IsCodable}
use my_kv_storage_base_raft.Raft.Types.{
  ok, AppendEntriesArgs, AppendEntriesReply, InstallSnapshotRequest, PendingEntries,
}
use my_kv_storage_base_raft.Raft.State.{Raft}
use my_kv_storage_base_raft.Raft.Toy.{toy_archive, follower_three, leader_three, entry}
use my_kv_storage_base_raft.Raft.Log.{get_last_log_index}
use my_kv_storage_base_raft.Raft.Log.Shape.{IsIndexed}
use my_kv_storage_base_raft.Raft.Replicate.{
  send_append_entries, handle_append_reply, handle_term_mismatch, update_peer_sync_state,
  try_update_commit_index, slide_pipeline_window,
}
use my_kv_storage_base_raft.Raft.Replicate.Quorum.{send_append_entries-large_cluster}
use my_kv_storage_base_raft.Raft.Snapshot.{install_snapshot1}
use my_kv_storage_base_raft.Raft.Snapshot.Install.{install_snapshot1-IsIndexed}
use my_kv_storage_base_raft.Raft.Apply.{applier_round, push_msgs}
use my_kv_storage_base_raft.Raft.Apply.InOrder.{IsApplicable, applier_round-in_order, message}
use my_kv_storage_base_raft.Raft.Batch.{start, collect}
use my_kv_storage_base_raft.Raft.Batch.Delivery.{
  Accepts, start-Accepts, collect-waiting, taken_for, waiting,
}

-- The leader of five, which sends its third entry to a peer that takes it.
abbrev leader_of_five : Raft
leader_of_five = record leader_three {
  peers = 5;
  next_index = 3 ∷ 3 ∷ 3 ∷ 3 ∷ 3 ∷ [];
  match_index = 0 ∷ 0 ∷ 0 ∷ 0 ∷ 0 ∷ [];
}

abbrev third : AppendEntriesArgs
third = record {
  term = 3;
  leader_id = 1;
  prev_log_index = 2;
  prev_log_term = pos 2;
  entries = entry 3 3 ∷ [];
  leader_commit = 1;
  batch_id = 3;
}

abbrev taken_reply : AppendEntriesReply
taken_reply = record { term = 3; success = true; update_next_index = pos 0; app_state = 1 }

abbrev answered : Raft
answered = record leader_of_five {
  next_index = 4 ∷ 3 ∷ 3 ∷ 3 ∷ 3 ∷ [];
  match_index = 3 ∷ 0 ∷ 0 ∷ 0 ∷ 0 ∷ [];
}

answer :
    send_append_entries toy_archive leader_of_five 0 third (some taken_reply) 1 ≡ ok (answered, 2)
unfolding send_append_entries handle_append_reply handle_term_mismatch update_peer_sync_state
    try_update_commit_index slide_pipeline_window get_last_log_index
answer = refl

send_append_entries-large_cluster_example : answered.commit_index ≡ leader_of_five.commit_index
send_append_entries-large_cluster_example =
    send_append_entries-large_cluster toy_archive leader_of_five answered 0 third (some taken_reply)
      2 (omega arith) answer

follower_three-IsIndexed : IsIndexed follower_three
follower_three-IsIndexed = (refl, (refl, (refl, tt)))

-- A snapshot up to the second entry, for a node that has both and a third.
abbrev newer : InstallSnapshotRequest
newer = record {
  leader_id = 0;
  term = 3;
  last_snapshot_include_index = 2;
  last_snapshot_include_term = 2;
  snapshot_data = 9 ∷ [];
}

install_snapshot1-IsIndexed_example :
    IsIndexed (install_snapshot1 toy_archive follower_three newer).0
    ↔ ((follower_three.logs ≡ []) ⊎ ((newer.term < follower_three.current_term) ⊎ (2 ≤ 0)))
install_snapshot1-IsIndexed_example =
    install_snapshot1-IsIndexed toy_archive follower_three newer follower_three-IsIndexed

-- Two entries are committed, and none is applied.
abbrev behind : Raft
behind = record follower_three { commit_index = 2; apply_chan = some [] }

behind-IsApplicable : IsApplicable behind
unfolding get_last_log_index
behind-IsApplicable = record {
  indexed = follower_three-IsIndexed;
  behind_snapshot = omega arith;
  in_log = omega arith;
  applied_in_log = omega arith;
}

applier_round-in_order_example :
    applier_round behind
    ≡ ok (record behind {
      last_applied = 2;
      apply_chan = push_msgs (some []) (message (entry 1 1) ∷ message (entry 2 2) ∷ []);
    })
applier_round-in_order_example = applier_round-in_order behind behind-IsApplicable

-- "Put", "k", "v" by client "c", request 1.
abbrev command : Op
command = record {
  operation = 80 ∷ 117 ∷ 116 ∷ [];
  key = 107 ∷ [];
  value = 118 ∷ [];
  client_id = 99 ∷ [];
  request_id = pos 1;
}

command-IsCodable : IsCodable command
command-IsCodable = record {
  operation = omega arith;
  key = omega arith;
  value = omega arith;
  client_id = omega arith;
  request_id = omega arith;
}

leader_three-IsIndexed : IsIndexed leader_three
leader_three-IsIndexed = (refl, (refl, (refl, tt)))

start-Accepts_example :
    (index : ℕ) × ((start toy_archive leader_three command 5).1 ≡ some index)
    × Accepts (negsuc 6) command leader_three (start toy_archive leader_three command 5).0 index
start-Accepts_example =
    start-Accepts toy_archive leader_three command (negsuc 6) 5 refl leader_three-IsIndexed
      command-IsCodable

-- The buffers of three peers: the first waits for 3 ms.
abbrev buffers : List PendingEntries
buffers =
    record { entries = entry 3 3 ∷ []; first_entry_time_ms = 7 }
    ∷ record { entries = []; first_entry_time_ms = 0 }
    ∷ record { entries = entry 3 3 ∷ []; first_entry_time_ms = 9 }
    ∷ []

collect-waiting_example :
    (taken_for 0 (collect 1 10 0 buffers).1 ++ waiting (collect 1 10 0 buffers).0 0
      ≡ entry 3 3 ∷ [])
    × ((taken_for 0 (collect 1 10 0 buffers).1 ≡ []) ⊎ (waiting (collect 1 10 0 buffers).0 0 ≡ []))
collect-waiting_example = collect-waiting 1 10 0 0 buffers

-- ===== src/Raft/Tests/Range.antt =====
-- A new node is sent an entry that is committed, and its applier takes it.
use my_kv_storage_base_raft.Common.{◌≡◌, refl, pos, true, none, [], ◌∷◌, max}
use my_kv_storage_base_raft.Raft.Types.{ok, AppendEntriesArgs, AppendEntriesReply}
use my_kv_storage_base_raft.Raft.State.{Raft}
use my_kv_storage_base_raft.Raft.Toy.{toy_archive}
use my_kv_storage_base_raft.Raft.Persister
use my_kv_storage_base_raft.Raft.Log.{match_log, get_last_log_index}
use my_kv_storage_base_raft.Raft.Persist.{persist, init, fresh, skip_snapshot, read_persist}
use my_kv_storage_base_raft.Raft.Vote.{adopt_term}
use my_kv_storage_base_raft.Raft.Append.{
  append_entries1, append_current, accept, merge_entries, merge_entry,
}
use my_kv_storage_base_raft.Raft.Apply.{applier_round}
use my_kv_storage_base_raft.Raft.History.Steps.{appends, done, then}
use my_kv_storage_base_raft.Raft.Range.Applier.{Steps-applier_round}

abbrev batch : AppendEntriesArgs
batch = record {
  term = 1;
  leader_id = 0;
  prev_log_index = 0;
  prev_log_term = pos 0;
  entries = record { command = 7 ∷ []; log_term = 1; log_index = 1 } ∷ [];
  leader_commit = 1;
  batch_id = 1;
}

abbrev new_node : Raft
new_node = fresh 3 1 (Persister.init none none) none 0

abbrev supplied : Raft
supplied = persist toy_archive (record new_node {
  current_term = 1;
  logs = batch.entries;
  commit_index = 1;
  last_reset_election_time = 25;
})

abbrev accepted : AppendEntriesReply
accepted = record { term = 1; success = true; update_next_index = pos 0; app_state = 1 }

one_starts : init toy_archive 3 1 (Persister.init none none) none 0 ≡ ok new_node
unfolding init skip_snapshot read_persist fresh Persister.init
one_starts = refl

one_appends : append_entries1 toy_archive new_node batch 25 ≡ ok (supplied, accepted)
unfolding append_entries1 append_current accept merge_entries merge_entry match_log
    get_last_log_index persist adopt_term fresh
one_appends = refl

Steps-applier_round_example :
    (u : Raft) × (applier_round supplied ≡ ok u)
    × (u.last_applied ≡ max supplied.last_applied supplied.commit_index)
Steps-applier_round_example =
    Steps-applier_round toy_archive 3 1 (Persister.init none none) none 0 one_starts
      (then (appends batch 25 accepted one_appends) done)

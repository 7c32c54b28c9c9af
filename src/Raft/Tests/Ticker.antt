-- ===== src/Raft/Tests/Ticker.antt =====
-- A new node hears of a leader, sleeps, and stands.
use my_kv_storage_base_raft.Common.{◌+◌, ◌<◌, ◌⊎◌, ◌≤◌, ◌≡◌, refl, pos, true, some, [], arith}
use my_kv_storage_base_raft.Raft.Types.{
  ok, AppendEntriesArgs, AppendEntriesReply, RequestVoteArgs, follower, candidate,
}
use my_kv_storage_base_raft.Raft.State.{Raft}
use my_kv_storage_base_raft.Raft.Toy.{toy_archive, started}
use my_kv_storage_base_raft.Raft.Log.{match_log, get_last_log_index, get_last_log_term}
use my_kv_storage_base_raft.Raft.Persist.{persist}
use my_kv_storage_base_raft.Raft.Vote.{adopt_term, do_election}
use my_kv_storage_base_raft.Raft.Append.{append_entries1, append_current, accept, merge_entries}
use my_kv_storage_base_raft.Raft.Ticker.{
  Clocked, waiting, asleep, Lives, lives, leaves_loop, falls_asleep, suitable_sleep_time, due,
  falls_due, timer_expired, min_randomized_election_time,
}
use my_kv_storage_base_raft.Raft.Ticker.Patience.{append_entries1-defers}

abbrev hear_beat : AppendEntriesArgs
hear_beat = record {
  term = 1;
  leader_id = 0;
  prev_log_index = 0;
  prev_log_term = pos 0;
  entries = [];
  leader_commit = 0;
  batch_id = 0;
}

abbrev settled : Raft
settled =
    persist toy_archive
      (record started { current_term = 1; status = follower; last_reset_election_time = 10 })

abbrev accepted : AppendEntriesReply
accepted = record { term = 1; success = true; update_next_index = pos 0; app_state = 1 }

one_hears : append_entries1 toy_archive started hear_beat 10 ≡ ok (settled, accepted)
unfolding append_entries1 append_current accept merge_entries match_log get_last_log_index persist
    adopt_term
one_hears = refl

abbrev new_node : Clocked
new_node = record { node = started; clock = 5; ticker = waiting }

abbrev heard_node : Clocked
heard_node = record { node = settled; clock = 10; ticker = waiting }

abbrev sleeping : Clocked
sleeping = record { node = settled; clock = 20; ticker = asleep 20 310 }

sleeping-Lives : Lives toy_archive heard_node sleeping
unfolding suitable_sleep_time persist
sleeping-Lives =
    falls_asleep 300 20 (leaves_loop lives refl (λ e. ground arith)) refl (omega arith)
      (omega arith) (omega arith)

abbrev expired : Clocked
expired = record { node = settled; clock = 320; ticker = due 320 }

expired-Lives : Lives toy_archive heard_node expired
unfolding timer_expired persist
expired-Lives = falls_due 20 310 320 sleeping-Lives refl (omega arith) (omega arith) refl

abbrev stood : Raft
stood =
    record (persist toy_archive
      (record settled { status = candidate; current_term = 2; voted_for = pos 1 })) {
        last_reset_election_time = 321;
      }

abbrev request : RequestVoteArgs
request = record { term = 2; candidate_id = 1; last_log_index = 0; last_log_term = 0 }

one_stands : do_election toy_archive expired.node 321 ≡ some (stood, request)
unfolding do_election persist get_last_log_index get_last_log_term
one_stands = refl

append_entries1-defers_example : (320 < 10) ⊎ (10 + min_randomized_election_time ≤ 320 + 1)
append_entries1-defers_example =
    append_entries1-defers toy_archive {x = new_node} {z = new_node} {y = expired} hear_beat 10 320
      refl (omega arith) lives (omega arith) refl one_hears expired-Lives refl

-- ===== src/Raft/Tests/Elections.antt =====
-- An election that is won, and a heartbeat, at concrete values.
use my_kv_storage_base_raft.Common.{◌≡◌, refl, pos, true, some, [], arith}
use my_kv_storage_base_raft.Raft.Types.{ok, candidate, RequestVoteReply, AppendEntriesArgs}
use my_kv_storage_base_raft.Raft.State.{Raft}
use my_kv_storage_base_raft.Raft.Toy.{toy_archive, follower_three}
use my_kv_storage_base_raft.Raft.Log.{get_last_log_index, get_log_term_from_log_index, match_log}
use my_kv_storage_base_raft.Raft.Persist.{persist}
use my_kv_storage_base_raft.Raft.Vote.{
  send_request_vote, count_vote, become_leader, start_batch_sender_thread,
}
use my_kv_storage_base_raft.Raft.Vote.Winning.{Won, send_request_vote-Won}
use my_kv_storage_base_raft.Raft.Append.{append_entries1, append_reply}
use my_kv_storage_base_raft.Raft.Append.Accept.{Fits, entered}
use my_kv_storage_base_raft.Raft.Append.Heartbeat.{append_entries1-heartbeat}

abbrev standing : Raft
standing = record follower_three { status = candidate; voted_for = pos 1 }

abbrev yes : RequestVoteReply
yes = record { term = 3; vote_granted = true; vote_state = 3 }

elected :
    send_request_vote toy_archive standing (some yes) 1 ≡ ok (become_leader toy_archive standing, 0)
unfolding send_request_vote count_vote
elected = refl

send_request_vote-Won_example :
    Won standing (some yes) 1
    × ((become_leader toy_archive standing).current_term ≡ standing.current_term)
unfolding become_leader start_batch_sender_thread persist
send_request_vote-Won_example =
    send_request_vote-Won toy_archive standing (become_leader toy_archive standing) (some yes) 1 0
      elected (λ e. ground arith) refl

-- The first entry was compared; the follower's second and third were not.
abbrev beat : AppendEntriesArgs
beat = record {
  term = 3;
  leader_id = 0;
  prev_log_index = 1;
  prev_log_term = pos 1;
  entries = [];
  leader_commit = 3;
  batch_id = 0;
}

beat-Fits : Fits follower_three beat
unfolding match_log get_last_log_index get_log_term_from_log_index
beat-Fits = record {
  above_snapshot = omega arith;
  inside = omega arith;
  matches = refl;
  indexed = (refl, (refl, (refl, tt)));
  contiguous = tt;
  agree = tt;
  committed = omega arith;
}

append_entries1-heartbeat_example :
    append_entries1 toy_archive follower_three beat 8
    ≡ ok (
      persist toy_archive (record (entered follower_three beat 8) { commit_index = 3 }),
      append_reply 3 true (pos 0),
    )
unfolding get_last_log_index
append_entries1-heartbeat_example =
    append_entries1-heartbeat toy_archive follower_three beat 8 (omega arith) beat-Fits refl
      (omega arith)

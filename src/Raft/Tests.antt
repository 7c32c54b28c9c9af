-- ===== src/Raft/Tests.antt =====
-- The theorems on a node at concrete states and messages.
mod Leading
mod Saving
mod Elections
mod OneLeader
mod OneEntry
mod Ticker
mod Range
mod AppendOnly
mod Pipeline
use my_kv_storage_base_raft.Common.{inl, ℕ, ◌≡◌, refl, ◌↔◌, true, false, pos, none, [], ◌∷◌, arith}
use my_kv_storage_base_raft.Raft.Types.{
  ok, Returns, RequestVoteArgs, RequestVoteReply, AppendEntriesArgs,
}
use my_kv_storage_base_raft.Raft.State.{Raft}
use my_kv_storage_base_raft.Raft.Toy.{toy_archive, follower_three, entry}
use my_kv_storage_base_raft.Raft.Persister
use my_kv_storage_base_raft.Raft.Persister.{save_state_and_wait}
use my_kv_storage_base_raft.Raft.Persister.Durable.{
  init-IsQuiet, IsQuiet, Wrote, save_state_and_wait-Wrote,
}
use my_kv_storage_base_raft.Raft.Log.{
  match_log, get_last_log_index, get_log_term_from_log_index, up_to_data,
}
use my_kv_storage_base_raft.Raft.Log.Shape.{IsIndexed}
use my_kv_storage_base_raft.Raft.Persist.{persist}
use my_kv_storage_base_raft.Raft.Persist.Durable.{IsDurable, persist-IsDurable}
use my_kv_storage_base_raft.Raft.Persist.Restart.{
  restart-Resumes, Resumes, restart, resumed, restart-eq-resumed,
}
use my_kv_storage_base_raft.Raft.Vote.{request_vote1, pre_request_vote1, cast_vote, adopt_term}
use my_kv_storage_base_raft.Raft.Vote.Decision.{
  HasVote, IsRecent, voted, request_vote1-eq-voted, request_vote1-granted,
  pre_request_vote1-granted,
}
use my_kv_storage_base_raft.Raft.Append.{append_entries1, append_reply}
use my_kv_storage_base_raft.Raft.Append.Accept.{Fits, entered, append_entries1-accepts}
use my_kv_storage_base_raft.Raft.Append.BackOff.{Proposes, append_entries1-mismatch}
use my_kv_storage_base_raft.Raft.History.Keeps.{Keeps}
use my_kv_storage_base_raft.Raft.History.Steps.{Steps, restarts, done, then, Steps-Keeps}
use my_kv_storage_base_raft.Raft.History.OneVote.{Casts, grants, one_vote_per_term}

-- Node 2 asks for the vote of term 5.
abbrev ask : RequestVoteArgs
ask = record { term = 5; candidate_id = 2; last_log_index = 3; last_log_term = 2 }

abbrev voter : Raft
voter = (voted toy_archive follower_three ask 7).0

abbrev reply_yes : RequestVoteReply
reply_yes = (voted toy_archive follower_three ask 7).1

abbrev woken : Raft
woken = resumed voter none 9

follower_three-IsQuiet : IsQuiet follower_three.persister
follower_three-IsQuiet = init-IsQuiet none none

abbrev saved : Raft
saved = persist toy_archive follower_three

saved-IsDurable : IsDurable toy_archive saved
saved-IsDurable = persist-IsDurable toy_archive follower_three follower_three-IsQuiet

saved-IsIndexed : IsIndexed saved
unfolding persist
saved-IsIndexed = (refl, (refl, (refl, tt)))

restart-Resumes_example : (t : Raft) × (restart toy_archive saved none 9 ≡ ok t) × Resumes saved t
restart-Resumes_example = restart-Resumes toy_archive saved none 9 saved-IsDurable saved-IsIndexed

request_vote1-granted_example :
    Returns
      (request_vote1 toy_archive follower_three ask 7)
      (λ r. (r.1.vote_granted ≡ true) ↔ (HasVote follower_three ask × IsRecent follower_three ask))
request_vote1-granted_example = request_vote1-granted toy_archive follower_three ask 7

-- The leader of term 4 replaces the third entry and sends a fourth.
abbrev fitting : AppendEntriesArgs
fitting = record {
  term = 4;
  leader_id = 0;
  prev_log_index = 2;
  prev_log_term = pos 2;
  entries = entry 3 4 ∷ entry 4 4 ∷ [];
  leader_commit = 3;
  batch_id = 3;
}

follower_three-Fits : Fits follower_three fitting
unfolding match_log get_last_log_index get_log_term_from_log_index
follower_three-Fits = record {
  above_snapshot = omega arith;
  inside = omega arith;
  matches = refl;
  indexed = (refl, (refl, (refl, tt)));
  contiguous = (refl, (refl, tt));
  agree = ((λ e. absurd (omega arith)), tt);
  committed = omega arith;
}

append_entries1-accepts_example :
    append_entries1 toy_archive follower_three fitting 8
    ≡ ok (
      persist toy_archive (record (entered follower_three fitting 8) {
        logs = entry 1 1 ∷ entry 2 2 ∷ entry 3 4 ∷ entry 4 4 ∷ [];
        commit_index = 3;
      }),
      append_reply 4 true (pos 0),
    )
append_entries1-accepts_example =
    append_entries1-accepts toy_archive follower_three fitting 8 (omega arith) follower_three-Fits

-- The leader of term 4 has an entry of term 4 where the follower's is of term 2.
abbrev clashing : AppendEntriesArgs
clashing = record fitting { prev_log_index = 3; prev_log_term = pos 4; entries = [] }

append_entries1-mismatch_example :
    (k : ℕ) × (append_entries1 toy_archive follower_three clashing 8
      ≡ ok (persist toy_archive (entered follower_three clashing 8), append_reply 4 false (pos k)))
    × Proposes follower_three 3 k
unfolding match_log get_last_log_index get_log_term_from_log_index
append_entries1-mismatch_example =
    append_entries1-mismatch toy_archive follower_three clashing 8 (omega arith) (omega arith)
      (omega arith) refl

voter-IsDurable : IsDurable toy_archive voter
unfolding cast_vote adopt_term up_to_data
voter-IsDurable = persist-IsDurable toy_archive _ follower_three-IsQuiet

voter-IsIndexed : IsIndexed voter
unfolding cast_vote adopt_term up_to_data persist
voter-IsIndexed = (refl, (refl, (refl, tt)))

sleeps : Steps toy_archive voter woken
sleeps =
    then
      (restarts none 9
        (restart-eq-resumed toy_archive voter none 9 voter-IsDurable voter-IsIndexed))
      done

Steps-Keeps_example : Keeps toy_archive voter woken
Steps-Keeps_example = Steps-Keeps toy_archive (inl voter-IsDurable) sleeps

first_vote : Casts toy_archive follower_three voter 5 2
unfolding cast_vote adopt_term up_to_data
first_vote =
    grants ask 7 reply_yes (request_vote1-eq-voted toy_archive follower_three ask 7) refl refl refl

-- After the restart the same candidate asks once more, with a longer log.
abbrev ask_again : RequestVoteArgs
ask_again = record ask { last_log_index = 4 }

abbrev second : Raft × RequestVoteReply
second = voted toy_archive woken ask_again 12

second_vote : Casts toy_archive woken second.0 5 2
unfolding cast_vote adopt_term up_to_data resumed persist
second_vote =
    grants ask_again 12 second.1 (request_vote1-eq-voted toy_archive woken ask_again 12) refl refl
      refl

one_vote_per_term_example : ask.candidate_id ≡ ask_again.candidate_id
one_vote_per_term_example =
    one_vote_per_term toy_archive follower_three-IsQuiet first_vote sleeps second_vote

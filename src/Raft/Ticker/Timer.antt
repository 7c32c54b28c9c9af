-- ===== src/Raft/Ticker/Timer.antt =====
-- The election timer of a node, step by step.
use my_kv_storage_base_raft.Common.{
  ℕ, ◌≡◌, sym, ap, ◌∙◌, ◌⊎◌, inl, inr, arith, Option, ltb, false, Bool-cases,
}
use my_kv_storage_base_raft.OpCoder.{Op}
use my_kv_storage_base_raft.Raft.Types.{
  ok, AppendEntriesArgs, AppendEntriesReply, RequestVoteArgs, RequestVoteReply,
  InstallSnapshotRequest,
}
use my_kv_storage_base_raft.Raft.State.{Raft, Archive}
use my_kv_storage_base_raft.Raft.Persist.{persist, persist_snapshot}
use my_kv_storage_base_raft.Raft.Vote.{step_down, become_leader, start_batch_sender_thread}
use my_kv_storage_base_raft.Raft.Vote.Decision.{request_vote1-eq-voted}
use my_kv_storage_base_raft.Raft.Vote.Winning.{
  Outcome, ignored, counted, won, send_request_vote-Outcome,
}
use my_kv_storage_base_raft.Raft.Append.{append_entries1}
use my_kv_storage_base_raft.Raft.Append.Accept.{entered}
use my_kv_storage_base_raft.Raft.Snapshot.{install_snapshot1, advance_snapshot}
use my_kv_storage_base_raft.Raft.Batch.{start, add_to_pending_batch}
use my_kv_storage_base_raft.Raft.History.Handlers.{
  ballot, voted-eq-persist, append_current-Saves, append_entries1-later, append_entries1-stale,
}
use my_kv_storage_base_raft.Raft.History.Settles.{
  Settles, send_append_entries-Settles, snapshot_response-Settles,
}
use my_kv_storage_base_raft.Raft.History.Quiet.{
  do_heart_beat-Same, batch_sender_round-Same, flush_pending_entries-Same, applier_round-Same,
  stop_batch_sender_thread-Same,
}
use my_kv_storage_base_raft.Raft.History.Steps.{
  Step, votes, appends, installs, elects, counts, hears, synced, starts, beats, sends, flushes,
  halts, applies, restarts,
}
use my_kv_storage_base_raft.Raft.Ticker.{Reads}

-- The timer stays, or is set to `now`.
abbrev pub IsTimed : ℕ → Raft → Raft → Type 0
IsTimed now s t =
    (t.last_reset_election_time ≡ s.last_reset_election_time) ⊎ (t.last_reset_election_time ≡ now)

Settles-timer :
    (ar : Archive) (s t : Raft)
    → Settles ar s t
    → t.last_reset_election_time ≡ s.last_reset_election_time
unfolding persist step_down
Settles-timer ar s t (inl same) = same.timer
Settles-timer ar s t (inr (term, later, e)) = ap (λ (r : Raft). r.last_reset_election_time) e

Outcome-timer :
    (ar : Archive) (s t : Raft) (reply : Option RequestVoteReply) (vote_num n : ℕ)
    → Outcome ar s reply vote_num t n
    → t.last_reset_election_time ≡ s.last_reset_election_time
unfolding become_leader start_batch_sender_thread persist
Outcome-timer ar s t reply vote_num n (ignored (inl same) e) =
    ap (λ (r : Raft). r.last_reset_election_time) same
Outcome-timer ar s t reply vote_num n (ignored (inr down) e) = Settles-timer ar s t (inr down)
Outcome-timer ar s t reply vote_num n (counted c same e) =
    ap (λ (r : Raft). r.last_reset_election_time) same
Outcome-timer ar s t reply vote_num n (won c becomes e other enough) =
    ap (λ (r : Raft). r.last_reset_election_time) becomes ∙ ground arith

votes-IsTimed :
    (ar : Archive) (s t : Raft) (args : RequestVoteArgs) (now : ℕ)
    → t ≡ persist ar (ballot s args now)
    → IsTimed now s t
unfolding persist ballot
votes-IsTimed ar s t args now e = rw e (ground arith)

module _ (ar : Archive) (s : Raft) where
  -- A message of a leader whose term is not behind sets the timer.
  pub append_entries1-timer :
      (args : AppendEntriesArgs) (now : ℕ) {t : Raft} {reply : AppendEntriesReply}
      → ltb args.term s.current_term ≡ false
      → append_entries1 ar s args now ≡ ok (t, reply)
      → t.last_reset_election_time ≡ now
  unfolding persist
  append_entries1-timer args now {t} later h =
      let a =
        append_current-Saves ar (entered s args now) args
          (rw (append_entries1-later ar s args now later) at h) in
      ap (λ (r : Raft). r.last_reset_election_time) a.is_saved ∙ a.timer

  appends-IsTimed :
      (args : AppendEntriesArgs) (now : ℕ) {t : Raft} {reply : AppendEntriesReply}
      → append_entries1 ar s args now ≡ ok (t, reply)
      → IsTimed now s t
  appends-IsTimed args now {t} h = elim (Bool-cases (ltb args.term s.current_term)) [
    | inl stale ↦ inl (
        ap (λ (r : Raft). r.last_reset_election_time) (append_entries1-stale ar s args now stale h))
    | inr later ↦ inr (append_entries1-timer args now later h)
  ]

  installs-timer :
      (request : InstallSnapshotRequest)
      → (install_snapshot1 ar s request).0.last_reset_election_time ≡ s.last_reset_election_time
  unfolding install_snapshot1 persist persist_snapshot advance_snapshot step_down
  installs-timer request = ground arith

  starts-timer :
      (command : Op) (now : ℕ)
      → (start ar s command now).0.last_reset_election_time ≡ s.last_reset_election_time
  unfolding start add_to_pending_batch persist
  starts-timer command now = ground arith

pub Step-IsTimed :
    (ar : Archive) (clock : ℕ) {s t : Raft} (step : Step ar s t)
    → Reads clock step
    → IsTimed clock s t
Step-IsTimed ar clock {s} {t} (votes args now reply h) e = rw (sym e) (
    votes-IsTimed ar s t args now
      (ground (arith, request_vote1-eq-voted ar s args now, voted-eq-persist ar s args now)))
Step-IsTimed ar clock {s} {t} (appends args now reply h) e =
    rw (sym e) (appends-IsTimed ar s args now h)
Step-IsTimed ar clock {s} (installs request) e = inl (installs-timer ar s request)
Step-IsTimed ar clock {s} {t} (counts reply vote_num n h) e =
    inl
      (Outcome-timer ar s t reply vote_num n (send_request_vote-Outcome ar s t reply vote_num n h))
Step-IsTimed ar clock {s} {t} (hears peer args reply nums n h) e =
    inl (Settles-timer ar s t (send_append_entries-Settles ar s peer args reply nums h))
Step-IsTimed ar clock {s} (synced peer index reply nums) e =
    inl (Settles-timer ar s _ (snapshot_response-Settles ar s peer index reply nums))
Step-IsTimed ar clock {s} (starts command now) e = inl (starts-timer ar s command now)
Step-IsTimed ar clock {s} (beats now) e = inl (do_heart_beat-Same s now).timer
Step-IsTimed ar clock {s} {t} (sends now out h) e = inl (batch_sender_round-Same s now h).timer
Step-IsTimed ar clock {s} (flushes peer) e = inl (flush_pending_entries-Same s peer).timer
Step-IsTimed ar clock {s} halts e = inl (stop_batch_sender_thread-Same s).timer
Step-IsTimed ar clock {s} {t} (applies h) e = inl (applier_round-Same s h).timer
Step-IsTimed ar clock (elects now args h) e = absurd e
Step-IsTimed ar clock (restarts ch now h) e = absurd e

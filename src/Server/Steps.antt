-- ===== src/Server/Steps.antt =====
-- Every step of a node in one life of its process: what it gives to the state machine.
use my_kv_storage_base_raft.Common.{
  [], ℕ, ◌≡◌, refl, ap, ◌∙◌, inl, inr, Option, arith, some, ltb, Bool-cases,
}
use my_kv_storage_base_raft.OpCoder.{Op}
use my_kv_storage_base_raft.Raft.Types.{
  ok, AppendEntriesArgs, AppendEntriesReply, RequestVoteArgs, RequestVoteReply,
  InstallSnapshotRequest,
}
use my_kv_storage_base_raft.Raft.State.{Raft, Archive}
use my_kv_storage_base_raft.Raft.Persist.{persist, persist_snapshot}
use my_kv_storage_base_raft.Raft.Vote.{
  do_election, step_down, become_leader, start_batch_sender_thread,
}
use my_kv_storage_base_raft.Raft.Vote.Decision.{request_vote1-eq-voted}
use my_kv_storage_base_raft.Raft.Vote.Winning.{
  Outcome, ignored, counted, won, send_request_vote-Outcome,
}
use my_kv_storage_base_raft.Raft.Append.{append_entries1}
use my_kv_storage_base_raft.Raft.Append.Accept.{entered}
use my_kv_storage_base_raft.Raft.Snapshot.{install_snapshot1, advance_snapshot}
use my_kv_storage_base_raft.Raft.Batch.{start, add_to_pending_batch}
use my_kv_storage_base_raft.Raft.History.Keeps.{Same}
use my_kv_storage_base_raft.Raft.History.Handlers.{
  ballot, voted-eq-persist, append_current-Saves, append_entries1-later, append_entries1-stale,
}
use my_kv_storage_base_raft.Raft.History.Settles.{
  Settles, send_append_entries-Settles, snapshot_response-Settles,
}
use my_kv_storage_base_raft.Raft.History.Quiet.{
  do_heart_beat-Same, batch_sender_round-Same, flush_pending_entries-Same,
  stop_batch_sender_thread-Same,
}
use my_kv_storage_base_raft.Raft.History.Steps.{
  Step, votes, appends, installs, elects, counts, hears, synced, starts, beats, sends, flushes,
  halts, applies, restarts,
}
use my_kv_storage_base_raft.Server.{IsAlive, pushed_by}
use my_kv_storage_base_raft.Server.Feeding.{Feeds, Feeds-quiet, applier_round-Feeds}

Feeds-eq :
    (s t : Raft) → t.apply_chan ≡ s.apply_chan → t.last_applied ≡ s.last_applied → Feeds s t []
Feeds-eq s t e e' = Feeds-quiet s t e (omega (arith, e'))

Same-Feeds : (s t : Raft) → Same s t → Feeds s t []
Same-Feeds s t h = Feeds-eq s t h.chan h.applied

module _ (ar : Archive) (s t : Raft) where
  Settles-Feeds : Settles ar s t → Feeds s t []
  unfolding persist step_down
  Settles-Feeds (inl same) = Same-Feeds s t same
  Settles-Feeds (inr (term, later, e)) = rw e (Feeds-eq s (persist ar (step_down s term)) refl refl)

  Outcome-Feeds :
      (reply : Option RequestVoteReply) (vote_num n : ℕ)
      → Outcome ar s reply vote_num t n
      → Feeds s t []
  unfolding become_leader start_batch_sender_thread persist
  Outcome-Feeds reply vote_num n (ignored (inl same) e) = rw same (Feeds-eq s s refl refl)
  Outcome-Feeds reply vote_num n (ignored (inr down) e) = Settles-Feeds (inr down)
  Outcome-Feeds reply vote_num n (counted c same e) = rw same (Feeds-eq s s refl refl)
  Outcome-Feeds reply vote_num n (won c becomes e other enough) =
      rw becomes (Feeds-eq s (become_leader ar s) (ground arith) (ground arith))

  request_vote1-Feeds :
      (args : RequestVoteArgs) (now : ℕ) → t ≡ persist ar (ballot s args now) → Feeds s t []
  unfolding persist ballot
  request_vote1-Feeds args now e =
      rw e (Feeds-eq s (persist ar (ballot s args now)) (ground arith) (ground arith))

  do_election-Feeds :
      (now : ℕ) {args : RequestVoteArgs} → do_election ar s now ≡ some (t, args) → Feeds s t []
  unfolding do_election persist
  do_election-Feeds now h = Feeds-eq s t (ground arith) (ground arith)

  append_entries1-Feeds :
      (args : AppendEntriesArgs) (now : ℕ) {reply : AppendEntriesReply}
      → append_entries1 ar s args now ≡ ok (t, reply)
      → Feeds s t []
  unfolding persist
  append_entries1-Feeds args now h = elim (Bool-cases (ltb args.term s.current_term)) [
    | inl stale ↦ rw (append_entries1-stale ar s args now stale h) (Feeds-eq s s refl refl)
    | inr later ↦
        let a =
          append_current-Saves ar (entered s args now) args
            (rw (append_entries1-later ar s args now later) at h) in
        Feeds-eq s t (ap (λ (r : Raft). r.apply_chan) a.is_saved ∙ a.chan)
          (ap (λ (r : Raft). r.last_applied) a.is_saved ∙ a.applied)
  ]

module _ (ar : Archive) (s : Raft) where
  install_snapshot1-Feeds :
      (request : InstallSnapshotRequest) → Feeds s (install_snapshot1 ar s request).0 []
  unfolding install_snapshot1 persist persist_snapshot advance_snapshot step_down
  install_snapshot1-Feeds request = Feeds-quiet s _ (ground arith) (ground arith)

  pub start-Feeds : (command : Op) (now : ℕ) → Feeds s (start ar s command now).0 []
  unfolding start add_to_pending_batch persist
  start-Feeds command now = Feeds-eq s _ (ground arith) (ground arith)

pub Step-Feeds :
    (ar : Archive) {s t : Raft} (step : Step ar s t) → IsAlive step → Feeds s t (pushed_by step)
Step-Feeds ar {s} {t} (votes args now reply h) o =
    request_vote1-Feeds ar s t args now
      (ground (arith, request_vote1-eq-voted ar s args now, voted-eq-persist ar s args now))
Step-Feeds ar {s} {t} (appends args now reply h) o = append_entries1-Feeds ar s t args now h
Step-Feeds ar {s} (installs request) o = install_snapshot1-Feeds ar s request
Step-Feeds ar {s} {t} (elects now args h) o = do_election-Feeds ar s t now h
Step-Feeds ar {s} {t} (counts reply vote_num n h) o =
    Outcome-Feeds ar s t reply vote_num n (send_request_vote-Outcome ar s t reply vote_num n h)
Step-Feeds ar {s} {t} (hears peer args reply nums n h) o =
    Settles-Feeds ar s t (send_append_entries-Settles ar s peer args reply nums h)
Step-Feeds ar {s} (synced peer index reply nums) o =
    Settles-Feeds ar s _ (snapshot_response-Settles ar s peer index reply nums)
Step-Feeds ar {s} (starts command now) o = start-Feeds ar s command now
Step-Feeds ar {s} (beats now) o = Same-Feeds s _ (do_heart_beat-Same s now)
Step-Feeds ar {s} {t} (sends now out h) o = Same-Feeds s t (batch_sender_round-Same s now h)
Step-Feeds ar {s} (flushes peer) o = Same-Feeds s _ (flush_pending_entries-Same s peer)
Step-Feeds ar {s} halts o = Same-Feeds s _ (stop_batch_sender_thread-Same s)
Step-Feeds ar {s} (applies h) o = applier_round-Feeds s h
Step-Feeds ar (restarts ch now h) o = absurd o

-- ===== src/Raft/History/AppendOnly.antt =====
-- A leader's log over time.
use mathlib.Core.List.{append-nil, append_assoc}
use my_kv_storage_base_raft.Common.{
  ℕ, ◌≡◌, refl, sym, ap, ◌∙◌, inl, inr, List, [], ◌∷◌, ◌++◌, Option, arith, ltb, Bool-cases,
}
use my_kv_storage_base_raft.Raft.Types.{
  ok, Result-cases, is_leader, leader, follower, LogEntry, ApplyMsg, AppendEntriesArgs,
  AppendEntriesReply, RequestVoteReply, RequestVoteArgs, InstallSnapshotRequest,
}
use my_kv_storage_base_raft.OpCoder.{Op}
use my_kv_storage_base_raft.Raft.State.{Raft, Archive}
use my_kv_storage_base_raft.Raft.Persister
use my_kv_storage_base_raft.Raft.Persist.{
  persist, persist_snapshot, read_persist, init, fresh, skip_snapshot,
}
use my_kv_storage_base_raft.Raft.Persist.Restart.{restart}
use my_kv_storage_base_raft.Raft.Vote.{
  do_election, step_down, become_leader, start_batch_sender_thread,
}
use my_kv_storage_base_raft.Raft.Vote.Decision.{request_vote1-eq-voted}
use my_kv_storage_base_raft.Raft.Vote.Winning.{
  Outcome, ignored, counted, won, send_request_vote-Outcome,
}
use my_kv_storage_base_raft.Raft.Append.{append_entries1}
use my_kv_storage_base_raft.Raft.Append.Accept.{entered}
use my_kv_storage_base_raft.Raft.Snapshot.{install_snapshot1, advance_snapshot}
use my_kv_storage_base_raft.Raft.Batch.{start, add_to_pending_batch, new_entry}
use my_kv_storage_base_raft.Raft.History.Handlers.{
  ballot, voted-eq-persist, append_current-Saves, append_entries1-later, append_entries1-stale,
}
use my_kv_storage_base_raft.Raft.History.Settles.{
  Settles, send_append_entries-Settles, snapshot_response-Settles,
}
use my_kv_storage_base_raft.Raft.History.Quiet.{
  do_heart_beat-Same, batch_sender_round-Same, flush_pending_entries-Same, applier_round-Same,
  stop_batch_sender_thread-Same,
}
use my_kv_storage_base_raft.Raft.History.Steps.{
  Step, votes, appends, installs, elects, counts, hears, synced, starts, beats, sends, flushes,
  halts, applies, restarts,
}
use my_kv_storage_base_raft.Raft.History.Stays.{read_persist-place}

-- The list of entries is the same, or has more behind.
pub record Extends (s t : Raft) : Type 0 where
  pub new : List LogEntry
  pub logs : t.logs ≡ s.logs ++ new

Extends-eq : (s t : Raft) → t.logs ≡ s.logs → Extends s t
Extends-eq s t e = record { new = []; logs = e ∙ sym (append-nil s.logs) }

Extends-trans : (s t u : Raft) → Extends s t → Extends t u → Extends s u
Extends-trans s t u h k = record {
  new = h.new ++ k.new;
  logs = k.logs ∙ ap (λ (es : List LogEntry). es ++ k.new) h.logs ∙ append_assoc s.logs h.new k.new;
}

Settles-logs : (ar : Archive) (s t : Raft) → Settles ar s t → t.logs ≡ s.logs
unfolding persist step_down
Settles-logs ar s t (inl same) = same.logs
Settles-logs ar s t (inr (term, later, e)) = ap (λ (r : Raft). r.logs) e

Outcome-logs :
    (ar : Archive) (s t : Raft) (reply : Option RequestVoteReply) (vote_num n : ℕ)
    → Outcome ar s reply vote_num t n
    → t.logs ≡ s.logs
unfolding become_leader start_batch_sender_thread persist
Outcome-logs ar s t reply vote_num n (ignored (inl same) e) = ap (λ (r : Raft). r.logs) same
Outcome-logs ar s t reply vote_num n (ignored (inr down) e) = Settles-logs ar s t (inr down)
Outcome-logs ar s t reply vote_num n (counted c same e) = ap (λ (r : Raft). r.logs) same
Outcome-logs ar s t reply vote_num n (won c becomes e other enough) =
    ap (λ (r : Raft). r.logs) becomes ∙ ground arith

restart-follower :
    (ar : Archive) (s : Raft) (ch : Option (List ApplyMsg)) (now : ℕ) {t : Raft}
    → restart ar s ch now ≡ ok t
    → t.status ≡ follower
unfolding init fresh skip_snapshot
restart-follower ar s ch now {t} h =
    let p = Persister.init s.persister.raft_file s.persister.snapshot_file in
    elim (Result-cases (read_persist ar (fresh s.peers s.me p ch now) p.raft_state)) [
      | inl (fault, e) ↦ cc (rw e at h)
      | inr (u, e) ↦
          let place = read_persist-place ar (fresh s.peers s.me p ch now) u p.raft_state e in
          let same : t ≡ skip_snapshot u = ground (arith, rw e at h) in
          rw same (ground (arith, place))
    ]

module _ (ar : Archive) (s : Raft) where
  append_entries1-Extends :
      (args : AppendEntriesArgs) (now : ℕ) {t : Raft} {reply : AppendEntriesReply}
      → append_entries1 ar s args now ≡ ok (t, reply)
      → t.status ≡ leader
      → Extends s t
  unfolding persist
  append_entries1-Extends args now {t} h lead = elim (Bool-cases (ltb args.term s.current_term)) [
    | inl stale ↦
        Extends-eq s t (ap (λ (r : Raft). r.logs) (append_entries1-stale ar s args now stale h))
    | inr later ↦
        let a =
          append_current-Saves ar (entered s args now) args
            (rw (append_entries1-later ar s args now later) at h) in
        absurd (ground (arith, a.status, rw (a.is_saved) at lead))
  ]

  start-Extends : (command : Op) (now : ℕ) → Extends s (start ar s command now).0
  unfolding start add_to_pending_batch persist
  start-Extends command now = elim (Bool-cases (is_leader s.status)) [
    | inl lead ↦ record { new = new_entry s command ∷ []; logs = rw lead refl }
    | inr other ↦ Extends-eq s _ (rw other refl)
  ]

  install_snapshot1-logs :
      (request : InstallSnapshotRequest) → (install_snapshot1 ar s request).0.logs ≡ s.logs
  unfolding install_snapshot1 persist persist_snapshot advance_snapshot step_down
  install_snapshot1-logs request = ground arith

  votes-logs :
      (args : RequestVoteArgs) (now : ℕ) {t : Raft}
      → t ≡ persist ar (ballot s args now)
      → t.logs ≡ s.logs
  unfolding persist ballot
  votes-logs args now e = ap (λ (r : Raft). r.logs) e ∙ ground arith

-- A step after which the node leads.
Step-Extends :
    (ar : Archive) {s t : Raft} → Step ar s t → s.status ≡ leader → t.status ≡ leader → Extends s t
unfolding do_election
Step-Extends ar {s} {t} (votes args now reply h) first last =
    let e : t ≡ persist ar (ballot s args now) =
      ground (arith, request_vote1-eq-voted ar s args now, voted-eq-persist ar s args now) in
    Extends-eq s t (votes-logs ar s args now e)
Step-Extends ar {s} (appends args now reply h) first last =
    append_entries1-Extends ar s args now h last
Step-Extends ar {s} (installs request) first last =
    Extends-eq s _ (install_snapshot1-logs ar s request)
Step-Extends ar {s} (elects now args h) first last = cc (rw first at h)
Step-Extends ar {s} {t} (counts reply vote_num n h) first last =
    Extends-eq s t
      (Outcome-logs ar s t reply vote_num n (send_request_vote-Outcome ar s t reply vote_num n h))
Step-Extends ar {s} {t} (hears peer args reply nums n h) first last =
    Extends-eq s t (Settles-logs ar s t (send_append_entries-Settles ar s peer args reply nums h))
Step-Extends ar {s} (synced peer index reply nums) first last =
    Extends-eq s _ (Settles-logs ar s _ (snapshot_response-Settles ar s peer index reply nums))
Step-Extends ar {s} (starts command now) first last = start-Extends ar s command now
Step-Extends ar {s} (beats now) first last = Extends-eq s _ (do_heart_beat-Same s now).logs
Step-Extends ar {s} {t} (sends now out h) first last =
    Extends-eq s t (batch_sender_round-Same s now h).logs
Step-Extends ar {s} (flushes peer) first last =
    Extends-eq s _ (flush_pending_entries-Same s peer).logs
Step-Extends ar {s} halts first last = Extends-eq s _ (stop_batch_sender_thread-Same s).logs
Step-Extends ar {s} {t} (applies h) first last = Extends-eq s t (applier_round-Same s h).logs
Step-Extends ar {s} {t} (restarts ch now h) first last =
    let off = restart-follower ar s ch now h in absurd (ground arith)

-- Steps through which the node leads all the time.
pub data Reigns (ar : Archive) (s : Raft) : Raft → Type 0 where
  still : s.status ≡ leader → Reigns ar s s
  reigns_on : {t u : Raft} → Reigns ar s t → Step ar t u → u.status ≡ leader → Reigns ar s u

Reigns-leader : (ar : Archive) {s t : Raft} → Reigns ar s t → t.status ≡ leader
Reigns-leader ar (still lead) = lead
Reigns-leader ar (reigns_on before step lead) = lead

-- As long as a node leads, whatever it is sent and whatever it does, its list of entries only grows
-- at the end.
pub leader_append_only : (ar : Archive) {s t : Raft} → Reigns ar s t → Extends s t
leader_append_only ar {s} (still lead) = Extends-eq s s refl
leader_append_only ar {s} {t} (reigns_on {t = m} before step lead) =
    Extends-trans s m t (leader_append_only ar before)
      (Step-Extends ar step (Reigns-leader ar before) lead)

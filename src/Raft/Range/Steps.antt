-- ===== src/Raft/Range/Steps.antt =====
-- The indices of a node through its steps, and at its start.
use my_kv_storage_base_raft.Common.{
  ℕ, ◌-◌, ◌≡◌, refl, inl, inr, Option, Option-cases, List, [], ◌∷◌, arith, some, length-append,
  Bytes,
}
use my_kv_storage_base_raft.OpCoder.{Op}
use my_kv_storage_base_raft.Raft.Types.{
  ok, RequestVoteArgs, RequestVoteReply, ApplyMsg, AppendEntriesArgs, Result-cases, >>=-returns,
}
use my_kv_storage_base_raft.Raft.State.{Raft, Archive}
use my_kv_storage_base_raft.Raft.Log.{get_last_log_index}
use my_kv_storage_base_raft.Raft.Persister
use my_kv_storage_base_raft.Raft.Persister.{Persister}
use my_kv_storage_base_raft.Raft.Persist.{
  persist, init, fresh, skip_snapshot, read_persist, read_node,
}
use my_kv_storage_base_raft.Raft.Vote.{
  do_election, step_down, become_leader, start_batch_sender_thread,
}
use my_kv_storage_base_raft.Raft.Vote.Decision.{request_vote1-eq-voted}
use my_kv_storage_base_raft.Raft.Vote.Winning.{
  Outcome, ignored, counted, won, send_request_vote-Outcome,
}
use my_kv_storage_base_raft.Raft.Heartbeat.{do_heart_beat}
use my_kv_storage_base_raft.Raft.Batch.{
  start, add_to_pending_batch, batch_sender_round, flush_pending_entries, stop_batch_sender_thread,
  new_entry,
}
use my_kv_storage_base_raft.Raft.Apply.{applier_round, apply_msgs}
use my_kv_storage_base_raft.Raft.History.Handlers.{ballot, voted-eq-persist}
use my_kv_storage_base_raft.Raft.History.Settles.{
  Settles, send_append_entries-Settles, snapshot_response-Settles,
}
use my_kv_storage_base_raft.Raft.History.Steps.{
  Step, votes, appends, installs, elects, counts, hears, synced, starts, beats, sends, flushes,
  halts, applies, restarts, Steps, done, then,
}
use my_kv_storage_base_raft.Raft.Range.{
  IsInRange, IsCommitted, Same-IsInRange, same-IsInRange, step-IsInRange,
}
use my_kv_storage_base_raft.Raft.Range.Leading.{
  send_append_entries-IsCommitted, snapshot_response-IsCommitted,
}
use my_kv_storage_base_raft.Raft.Range.Following.{
  append_entries1-IsInRange, install_snapshot1-IsInRange,
}

read_persist-unapplied :
    (ar : Archive) (s t : Raft) (bytes : Bytes)
    → read_persist ar s bytes ≡ ok t
    → s.last_snapshot_include_index ≡ 0
    → (t.commit_index ≡ s.commit_index) × (t.last_applied ≡ s.last_applied)
unfolding read_persist read_node
read_persist-unapplied ar s t [] h zero = ground arith
read_persist-unapplied ar s t (b ∷ bytes) h zero = elim (Option-cases (ar.decode (b ∷ bytes))) [
  | inl e ↦ cc (rw e at h)
  | inr (n, e) ↦ ground arith
]

skip_snapshot-IsInRange :
    (s : Raft) → s.commit_index ≡ 0 → s.last_applied ≡ 0 → IsInRange (skip_snapshot s)
unfolding skip_snapshot get_last_log_index
skip_snapshot-IsInRange s commit applied = record {
  snapshot = ground arith;
  applied = ground arith;
  committed = ground arith;
}

-- A node that is started is in range, whatever its files hold.
pub init-IsInRange :
    (ar : Archive) (peers me : ℕ) (p : Persister) (ch : Option (List ApplyMsg)) (now : ℕ) {t : Raft}
    → init ar peers me p ch now ≡ ok t
    → IsInRange t
unfolding init fresh
init-IsInRange ar peers me p ch now {t} h =
    elim (Result-cases (read_persist ar (fresh peers me p ch now) p.raft_state)) [
      | inl (fault, e) ↦ cc (rw e at h)
      | inr (u, e) ↦
          let new = read_persist-unapplied ar (fresh peers me p ch now) u p.raft_state e refl in
          let same : t ≡ skip_snapshot u = ground (arith, rw e at h) in
          rw same (skip_snapshot-IsInRange u (ground (arith, new)) (ground (arith, new)))
    ]

module _ (ar : Archive) (s t : Raft) (r : IsInRange s) where
  request_vote1-IsInRange :
      (args : RequestVoteArgs) (now : ℕ) → t ≡ persist ar (ballot s args now) → IsInRange t
  unfolding persist ballot
  request_vote1-IsInRange args now e = rw e (
      same-IsInRange s (persist ar (ballot s args now)) r (ground arith) (ground arith)
        (ground arith) (ground arith))

  do_election-IsInRange :
      (now : ℕ) {args : RequestVoteArgs} → do_election ar s now ≡ some (t, args) → IsInRange t
  unfolding do_election persist
  do_election-IsInRange now h =
      same-IsInRange s t r (ground arith) (ground arith) (ground arith) (ground arith)

  Settles-IsInRange : Settles ar s t → IsCommitted s t → IsInRange t
  unfolding persist step_down
  Settles-IsInRange (inl same) c = Same-IsInRange s t r same c
  Settles-IsInRange (inr (term, later, e)) c =
      rw e (same-IsInRange s (persist ar (step_down s term)) r refl refl refl refl)

  Outcome-IsInRange :
      (reply : Option RequestVoteReply) (vote_num n : ℕ)
      → Outcome ar s reply vote_num t n
      → IsInRange t
  unfolding become_leader start_batch_sender_thread persist step_down
  Outcome-IsInRange reply vote_num n (ignored (inl same) e) = rw same r
  Outcome-IsInRange reply vote_num n (ignored (inr (term, later, down)) e) =
      rw down (same-IsInRange s (persist ar (step_down s term)) r refl refl refl refl)
  Outcome-IsInRange reply vote_num n (counted c same e) = rw same r
  Outcome-IsInRange reply vote_num n (won c becomes e other enough) = rw becomes (
      same-IsInRange s (become_leader ar s) r (ground arith) (ground arith) (ground arith)
        (ground arith))

  batch_sender_round-IsInRange :
      (now : ℕ) {out : List (ℕ × AppendEntriesArgs)}
      → batch_sender_round s now ≡ some (t, out)
      → IsInRange t
  unfolding batch_sender_round
  batch_sender_round-IsInRange now h =
      same-IsInRange s t r (ground arith) (ground arith) (ground arith) (ground arith)

  applier_round-IsInRange : applier_round s ≡ ok t → IsInRange t
  unfolding applier_round get_last_log_index
  applier_round-IsInRange h =
      let (msgs, _, e) =
        >>=-returns (apply_msgs s s.last_applied (s.commit_index - s.last_applied)) _ h in
      record {
        snapshot = ground (arith, r.snapshot);
        applied = ground (arith, r.applied, r.committed);
        committed = ground (arith, r.committed);
      }

module _ (ar : Archive) (s : Raft) (r : IsInRange s) where
  start-IsInRange : (command : Op) (now : ℕ) → IsInRange (start ar s command now).0
  unfolding start add_to_pending_batch persist get_last_log_index
  start-IsInRange command now =
      step-IsInRange s _ r (ground arith) (ground arith)
        (ground (arith, length-append s.logs (new_entry s command ∷ []))) (inl (ground arith))

  do_heart_beat-IsInRange : (now : ℕ) → IsInRange (do_heart_beat s now).0
  unfolding do_heart_beat
  do_heart_beat-IsInRange now =
      same-IsInRange s _ r (ground arith) (ground arith) (ground arith) (ground arith)

  flush_pending_entries-IsInRange : (peer : ℕ) → IsInRange (flush_pending_entries s peer).0
  unfolding flush_pending_entries
  flush_pending_entries-IsInRange peer = same-IsInRange s _ r refl refl refl refl

  stop_batch_sender_thread-IsInRange : IsInRange (stop_batch_sender_thread s)
  unfolding stop_batch_sender_thread
  stop_batch_sender_thread-IsInRange = same-IsInRange s _ r refl refl refl refl

Step-IsInRange : (ar : Archive) {s t : Raft} → IsInRange s → Step ar s t → IsInRange t
Step-IsInRange ar {s} {t} r (votes args now reply h) =
    request_vote1-IsInRange ar s t r args now
      (ground (arith, request_vote1-eq-voted ar s args now, voted-eq-persist ar s args now))
Step-IsInRange ar {s} r (appends args now reply h) = append_entries1-IsInRange ar s args now r h
Step-IsInRange ar {s} r (installs request) = install_snapshot1-IsInRange ar s r request
Step-IsInRange ar {s} {t} r (elects now args h) = do_election-IsInRange ar s t r now h
Step-IsInRange ar {s} {t} r (counts reply vote_num n h) =
    Outcome-IsInRange ar s t r reply vote_num n
      (send_request_vote-Outcome ar s t reply vote_num n h)
Step-IsInRange ar {s} {t} r (hears peer args reply nums n h) =
    Settles-IsInRange ar s t r (send_append_entries-Settles ar s peer args reply nums h)
      (send_append_entries-IsCommitted ar s peer args reply nums n h)
Step-IsInRange ar {s} r (synced peer index reply nums) =
    Settles-IsInRange ar s _ r (snapshot_response-Settles ar s peer index reply nums)
      (snapshot_response-IsCommitted ar s peer index reply nums)
Step-IsInRange ar {s} r (starts command now) = start-IsInRange ar s r command now
Step-IsInRange ar {s} r (beats now) = do_heart_beat-IsInRange ar s r now
Step-IsInRange ar {s} {t} r (sends now out h) = batch_sender_round-IsInRange ar s t r now h
Step-IsInRange ar {s} r (flushes peer) = flush_pending_entries-IsInRange ar s r peer
Step-IsInRange ar {s} r halts = stop_batch_sender_thread-IsInRange ar s r
Step-IsInRange ar {s} {t} r (applies h) = applier_round-IsInRange ar s t r h
Step-IsInRange ar {s} r (restarts ch now h) =
    init-IsInRange ar s.peers s.me (Persister.init s.persister.raft_file s.persister.snapshot_file)
      ch now h

pub Steps-IsInRange : (ar : Archive) {s t : Raft} → IsInRange s → Steps ar s t → IsInRange t
Steps-IsInRange ar r done = r
Steps-IsInRange ar r (then step steps) = Steps-IsInRange ar (Step-IsInRange ar r step) steps

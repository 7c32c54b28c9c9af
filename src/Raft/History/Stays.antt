-- ===== src/Raft/History/Stays.antt =====
-- What no step changes, and how a node becomes a leader: only by counting a vote.
use my_kv_storage_base_raft.Common.{
  ℕ, ◌≡◌, refl, inl, inr, Bytes, List, [], ◌∷◌, Option, some, arith, ltb, Bool-cases, Option-cases,
}
use my_kv_storage_base_raft.OpCoder.{Op}
use my_kv_storage_base_raft.Raft.Types.{
  ok, Result-cases, leader, ApplyMsg, AppendEntriesArgs, AppendEntriesReply, RequestVoteArgs,
  RequestVoteReply, InstallSnapshotRequest,
}
use my_kv_storage_base_raft.Raft.State.{Raft, Archive}
use my_kv_storage_base_raft.Raft.Persister
use my_kv_storage_base_raft.Raft.Persist.{
  persist, persist_snapshot, persist_node, read_persist, read_node, init, fresh, skip_snapshot,
}
use my_kv_storage_base_raft.Raft.Persist.Restart.{restart}
use my_kv_storage_base_raft.Raft.Vote.{request_vote1, do_election, step_down}
use my_kv_storage_base_raft.Raft.Vote.Decision.{request_vote1-eq-voted}
use my_kv_storage_base_raft.Raft.Append.{append_entries1}
use my_kv_storage_base_raft.Raft.Append.Accept.{entered}
use my_kv_storage_base_raft.Raft.Snapshot.{install_snapshot1, advance_snapshot}
use my_kv_storage_base_raft.Raft.Batch.{start, add_to_pending_batch}
use my_kv_storage_base_raft.Raft.History.Keeps.{Same}
use my_kv_storage_base_raft.Raft.History.Handlers.{
  ballot, voted-eq-persist, append_current-Saves, append_entries1-later, append_entries1-stale,
}
use my_kv_storage_base_raft.Raft.History.Settles.{
  Settles, send_append_entries-Settles, snapshot_response-Settles,
}
use my_kv_storage_base_raft.Raft.History.Quiet.{
  do_heart_beat-Same, batch_sender_round-Same, flush_pending_entries-Same, applier_round-Same,
  unfed, stop_batch_sender_thread-Same,
}
use my_kv_storage_base_raft.Raft.History.Steps.{
  Step, votes, appends, installs, elects, counts, hears, synced, starts, beats, sends, flushes,
  halts, applies, restarts,
}

pub record Stays (s t : Raft) : Type 0 where
  pub me : t.me ≡ s.me
  pub peers : t.peers ≡ s.peers
  pub leads : t.status ≡ leader → (s.status ≡ leader) × (t.current_term ≡ s.current_term)

Same-Stays : (s t : Raft) → Same s t → Stays s t
unfolding persist_node
Same-Stays s t h = record {
  me = h.me;
  peers = h.peers;
  leads = λ l. (ground (arith, h.status), ground (arith, h.node));
}

pub Stays-self : (s t : Raft) → t ≡ s → Stays s t
Stays-self s t e = record { me = rw e refl; peers = rw e refl; leads = λ l. ground arith }

pub Settles-Stays : (ar : Archive) (s t : Raft) → Settles ar s t → Stays s t
unfolding step_down persist
Settles-Stays ar s t (inl same) = Same-Stays s t same
Settles-Stays ar s t (inr (term, later, e)) =
    rw e (record { me = refl; peers = refl; leads = λ l. absurd (ground arith) })

module _ (ar : Archive) (s : Raft) where
  pub request_vote1-Stays :
      (args : RequestVoteArgs) (now : ℕ) {t : Raft} {reply : RequestVoteReply}
      → request_vote1 ar s args now ≡ ok (t, reply)
      → Stays s t
  unfolding persist ballot
  request_vote1-Stays args now {t} h =
      let e : t ≡ persist ar (ballot s args now) =
        ground (arith, request_vote1-eq-voted ar s args now, voted-eq-persist ar s args now) in
      rw e (record { me = ground arith; peers = ground arith; leads = λ l. ground arith })

  append_entries1-Stays :
      (args : AppendEntriesArgs) (now : ℕ) {t : Raft} {reply : AppendEntriesReply}
      → append_entries1 ar s args now ≡ ok (t, reply)
      → Stays s t
  unfolding persist
  append_entries1-Stays args now {t} {reply} h = elim (Bool-cases (ltb args.term s.current_term)) [
    | inl stale ↦ Stays-self s t (append_entries1-stale ar s args now stale h)
    | inr later ↦
        let a =
          append_current-Saves ar (entered s args now) args
            (rw (append_entries1-later ar s args now later) at h) in
        rw (a.is_saved)
          (record { me = a.me; peers = a.peers; leads = λ l. absurd (ground (arith, a.status)) })
  ]

  install_snapshot1-Stays :
      (request : InstallSnapshotRequest) → Stays s (install_snapshot1 ar s request).0
  unfolding install_snapshot1 persist persist_snapshot advance_snapshot step_down
  install_snapshot1-Stays request = record {
    me = ground arith;
    peers = ground arith;
    leads = λ l. ground arith;
  }

  pub do_election-Stays :
      (now : ℕ) {t : Raft} {args : RequestVoteArgs}
      → do_election ar s now ≡ some (t, args)
      → Stays s t
  unfolding do_election persist
  do_election-Stays now h = record {
    me = ground arith;
    peers = ground arith;
    leads = λ l. absurd (ground arith);
  }

  start-Stays : (command : Op) (now : ℕ) → Stays s (start ar s command now).0
  unfolding start add_to_pending_batch persist
  start-Stays command now = record {
    me = ground arith;
    peers = ground arith;
    leads = λ l. ground arith;
  }

pub read_persist-place :
    (ar : Archive) (s t : Raft) (bytes : Bytes)
    → read_persist ar s bytes ≡ ok t
    → (t.me ≡ s.me) × (t.peers ≡ s.peers) × (t.status ≡ s.status)
unfolding read_persist read_node
read_persist-place ar s t [] h = ground arith
read_persist-place ar s t (b ∷ bytes) h = elim (Option-cases (ar.decode (b ∷ bytes))) [
  | inl e ↦ cc (rw e at h)
  | inr (n, e) ↦ ground arith
]

restart-Stays :
    (ar : Archive) (s : Raft) (ch : Option (List ApplyMsg)) (now : ℕ) {t : Raft}
    → restart ar s ch now ≡ ok t
    → Stays s t
unfolding init fresh skip_snapshot
restart-Stays ar s ch now {t} h =
    let p = Persister.init s.persister.raft_file s.persister.snapshot_file in
    elim (Result-cases (read_persist ar (fresh s.peers s.me p ch now) p.raft_state)) [
      | inl (fault, e) ↦ cc (rw e at h)
      | inr (u, e) ↦
          let place = read_persist-place ar (fresh s.peers s.me p ch now) u p.raft_state e in
          let same : t ≡ skip_snapshot u = ground (arith, rw e at h) in
          rw same (record {
            me = ground (arith, place);
            peers = ground (arith, place);
            leads = λ l. absurd (ground (arith, place));
          })
    ]

-- The step is none of the three in which votes are cast or counted.
abbrev pub IsOther : {ar : Archive} {s t : Raft} → Step ar s t → Type 0
IsOther (votes args now reply h) = ⊥
IsOther (elects now args h) = ⊥
IsOther (counts reply vote_num n h) = ⊥
IsOther (appends args now reply h) = Unit {0}
IsOther (installs request) = Unit {0}
IsOther (hears peer args reply nums n h) = Unit {0}
IsOther (synced peer index reply nums) = Unit {0}
IsOther (starts command now) = Unit {0}
IsOther (beats now) = Unit {0}
IsOther (sends now out h) = Unit {0}
IsOther (flushes peer) = Unit {0}
IsOther halts = Unit {0}
IsOther (applies h) = Unit {0}
IsOther (restarts ch now h) = Unit {0}

pub other-Stays : (ar : Archive) {s t : Raft} (step : Step ar s t) → IsOther step → Stays s t
other-Stays ar {s} (votes args now reply h) o = absurd o
other-Stays ar {s} (elects now args h) o = absurd o
other-Stays ar {s} (counts reply vote_num n h) o = absurd o
other-Stays ar {s} (appends args now reply h) o = append_entries1-Stays ar s args now h
other-Stays ar {s} (installs request) o = install_snapshot1-Stays ar s request
other-Stays ar {s} {t} (hears peer args reply nums n h) o =
    Settles-Stays ar s t (send_append_entries-Settles ar s peer args reply nums h)
other-Stays ar {s} (synced peer index reply nums) o =
    Settles-Stays ar s _ (snapshot_response-Settles ar s peer index reply nums)
other-Stays ar {s} (starts command now) o = start-Stays ar s command now
other-Stays ar {s} (beats now) o = Same-Stays s _ (do_heart_beat-Same s now)
other-Stays ar {s} {t} (sends now out h) o = Same-Stays s t (batch_sender_round-Same s now h)
other-Stays ar {s} (flushes peer) o = Same-Stays s _ (flush_pending_entries-Same s peer)
other-Stays ar {s} halts o = Same-Stays s _ (stop_batch_sender_thread-Same s)
other-Stays ar {s} {t} (applies h) o =
    let u = Same-Stays s (unfed s t) (applier_round-Same s h) in
    record { me = u.me; peers = u.peers; leads = u.leads }
other-Stays ar {s} (restarts ch now h) o = restart-Stays ar s ch now h

-- ===== src/Raft/History/Leading.antt =====
-- The handlers of candidates and leaders.
use my_kv_storage_base_raft.Common.{
  ℕ, ◌+◌, ◌<◌, ◌≡◌, refl, inl, inr, Option, some, arith, ltb, Bool-cases, pos, ◌++◌, ◌∷◌, [],
}
use my_kv_storage_base_raft.OpCoder.{Op}
use my_kv_storage_base_raft.Raft.Types.{
  ok, is_leader, candidate, AppendEntriesArgs, AppendEntriesReply, RequestVoteArgs,
  RequestVoteReply, InstallSnapshotRequest,
}
use my_kv_storage_base_raft.Raft.State.{Raft, Archive}
use my_kv_storage_base_raft.Raft.Persist.{persist, persist_node}
use my_kv_storage_base_raft.Raft.Persist.Durable.{IsRecorded}
use my_kv_storage_base_raft.Raft.Vote.{do_election, send_request_vote, step_down, become_leader}
use my_kv_storage_base_raft.Raft.Replicate.{send_append_entries}
use my_kv_storage_base_raft.Raft.Snapshot.{install_snapshot1, advance_snapshot, snapshot_response}
use my_kv_storage_base_raft.Raft.Batch.{start, new_entry, add_to_pending_batch}
use my_kv_storage_base_raft.Raft.History.Keeps.{
  Advances, Keeps, Same-Keeps, unsaved-Keeps, persist-Keeps, persist_snapshot-Keeps, Keeps-trans,
}
use my_kv_storage_base_raft.Raft.Vote.Winning.{
  Outcome, ignored, counted, won, send_request_vote-Outcome,
}
use my_kv_storage_base_raft.Raft.History.Settles.{
  Settles, send_append_entries-Settles, snapshot_response-Settles,
}
use my_kv_storage_base_raft.Raft.History.Unsaved.{Same-self, start_batch_sender_thread-Same}

step_down-Advances : (s : Raft) (term : ℕ) → s.current_term < term → Advances s (step_down s term)
unfolding step_down
step_down-Advances s term h = inl h

advance_snapshot-Advances : (s : Raft) (index term : ℕ) → Advances s (advance_snapshot s index term)
unfolding advance_snapshot
advance_snapshot-Advances s index term = ground arith

persister-advance_snapshot :
    (s : Raft) (index term : ℕ) → (advance_snapshot s index term).persister ≡ s.persister
unfolding advance_snapshot
persister-advance_snapshot s index term = ground arith

module _ (ar : Archive) (s : Raft) (d : IsRecorded ar s) where
  Keeps-self : Keeps ar s s
  Keeps-self = Same-Keeps ar s d s (Same-self s)

  step_down-Keeps : (term : ℕ) → s.current_term < term → Keeps ar s (persist ar (step_down s term))
  unfolding step_down
  step_down-Keeps term h = persist-Keeps ar s d (step_down s term) (inl h) refl

  pub do_election-Keeps :
      (now : ℕ) {t : Raft} {args : RequestVoteArgs}
      → do_election ar s now ≡ some (t, args)
      → Keeps ar s t
  unfolding do_election persist_node
  do_election-Keeps now {t} {args} h = elim (Bool-cases (is_leader s.status)) [
    | inl lead ↦ cc (rw lead at h)
    | inr not_lead ↦
        let c = record s {
          status = candidate;
          current_term = s.current_term + 1;
          voted_for = pos s.me;
        } in
        let e : t ≡ record (persist ar c) { last_reset_election_time = now } = ground arith in
        let k = persist-Keeps ar s d c (omega arith) refl in
        rw e (
          Keeps-trans ar s (persist ar c) _ k
            (unsaved-Keeps ar (persist ar c) k.durable _ refl refl))
  ]

  become_leader-Keeps : Keeps ar s (become_leader ar s)
  unfolding become_leader
  become_leader-Keeps =
      let k = persist-Keeps ar s d _ (inr (refl, inr refl)) refl in
      Keeps-trans ar s _ _ k (Same-Keeps ar _ k.durable _ (start_batch_sender_thread-Same _))

  Settles-Keeps : (t : Raft) → Settles ar s t → Keeps ar s t
  Settles-Keeps t (inl same) = Same-Keeps ar s d t same
  Settles-Keeps t (inr (term, later, e)) = rw e (step_down-Keeps term later)

  Outcome-Keeps :
      {reply : Option RequestVoteReply} {votes n : ℕ} (t : Raft)
      → Outcome ar s reply votes t n
      → Keeps ar s t
  Outcome-Keeps t (ignored (inl e) _) = rw e Keeps-self
  Outcome-Keeps t (ignored (inr (term, later, e)) _) = rw e (step_down-Keeps term later)
  Outcome-Keeps t (counted _ e _) = rw e Keeps-self
  Outcome-Keeps t (won _ e _ _ _) = rw e become_leader-Keeps

  pub send_request_vote-Keeps :
      (reply : Option RequestVoteReply) (votes : ℕ) {t : Raft} {n : ℕ}
      → send_request_vote ar s reply votes ≡ ok (t, n)
      → Keeps ar s t
  send_request_vote-Keeps reply votes {t} {n} h =
      Outcome-Keeps t (send_request_vote-Outcome ar s t reply votes n h)

  pub send_append_entries-Keeps :
      (peer : ℕ) (args : AppendEntriesArgs) (reply : Option AppendEntriesReply) (nums : ℕ)
      {t : Raft} {n : ℕ}
      → send_append_entries ar s peer args reply nums ≡ ok (t, n)
      → Keeps ar s t
  send_append_entries-Keeps peer args reply nums {t} h =
      Settles-Keeps t (send_append_entries-Settles ar s peer args reply nums h)

  pub snapshot_response-Keeps :
      (peer index : ℕ) (reply : Option ℕ) (nums : ℕ)
      → Keeps ar s (snapshot_response ar s peer index reply nums).0
  snapshot_response-Keeps peer index reply nums =
      Settles-Keeps _ (snapshot_response-Settles ar s peer index reply nums)

  pub install_snapshot1-Keeps :
      (request : InstallSnapshotRequest) → Keeps ar s (install_snapshot1 ar s request).0
  unfolding install_snapshot1
  install_snapshot1-Keeps request = elim (Bool-cases (ltb request.term s.current_term)) [
    | inl stale ↦ rw stale Keeps-self
    | inr not_stale ↦ elim (Bool-cases (ltb s.current_term request.term)) [
      | inr same ↦
          rw (not_stale, same)
            (persist_snapshot-Keeps ar s d _ request.snapshot_data
              (advance_snapshot-Advances s request.last_snapshot_include_index
                request.last_snapshot_include_term)
              (persister-advance_snapshot s request.last_snapshot_include_index
                request.last_snapshot_include_term))
      | inl later ↦
          let k = step_down-Keeps request.term (ground arith) in
          let s' = persist ar (step_down s request.term) in
          rw (not_stale, later)
            (Keeps-trans ar s s' _ k (
              persist_snapshot-Keeps ar s' k.durable _ request.snapshot_data
                (advance_snapshot-Advances s' request.last_snapshot_include_index
                  request.last_snapshot_include_term)
                (persister-advance_snapshot s' request.last_snapshot_include_index
                  request.last_snapshot_include_term)))
    ]
  ]

  pub start-Keeps : (command : Op) (now : ℕ) → Keeps ar s (start ar s command now).0
  unfolding start add_to_pending_batch persist_node
  start-Keeps command now = elim (Bool-cases (is_leader s.status)) [
    | inr other ↦ rw other Keeps-self
    | inl lead ↦
        let k =
          persist-Keeps ar s d (record s { logs = s.logs ++ new_entry s command ∷ [] })
            (inr (refl, inr refl)) refl in
        rw lead (Keeps-trans ar s _ _ k (unsaved-Keeps ar _ k.durable _ refl refl))
  ]

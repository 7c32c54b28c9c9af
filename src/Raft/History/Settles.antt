-- ===== src/Raft/History/Settles.antt =====
-- The handlers of answers at a leader: each leaves the saved members alone, or takes the node into a
-- later term.
use my_kv_storage_base_raft.Common.{
  ℕ, ◌+◌, ◌<◌, ◌≡◌, refl, ◌⊎◌, inl, inr, Option, none, some, arith, ltb, ◌==◌, Bool-cases, set,
}
use my_kv_storage_base_raft.Raft.Types.{ok, AppendEntriesArgs, AppendEntriesReply}
use my_kv_storage_base_raft.Raft.State.{Raft, Archive}
use my_kv_storage_base_raft.Raft.Log.{get_last_log_index}
use my_kv_storage_base_raft.Raft.Persist.{persist, persist_node}
use my_kv_storage_base_raft.Raft.Vote.{step_down}
use my_kv_storage_base_raft.Raft.Replicate.{
  handle_term_mismatch, disconnected, send_append_entries, leader_update_commit_index,
}
use my_kv_storage_base_raft.Raft.Snapshot.{snapshot_response}
use my_kv_storage_base_raft.Raft.History.Keeps.{Same}
use my_kv_storage_base_raft.Raft.History.Unsaved.{
  Same-self, Same-trans, commit_from-Same, handle_append_reply-Same,
}

abbrev pub Settles : Archive → Raft → Raft → Type 0
Settles ar s t =
    Same s t ⊎ ((term : ℕ) × (s.current_term < term) × (t ≡ persist ar (step_down s term)))

Settles-eq : (ar : Archive) (s t : Raft) → t ≡ s → Settles ar s t
Settles-eq ar s t e = inl (rw e (Same-self s))

module _ (ar : Archive) (s : Raft) where
  pub send_append_entries-Settles :
      (peer : ℕ) (args : AppendEntriesArgs) (reply : Option AppendEntriesReply) (nums : ℕ)
      {t : Raft} {n : ℕ}
      → send_append_entries ar s peer args reply nums ≡ ok (t, n)
      → Settles ar s t
  unfolding send_append_entries handle_term_mismatch
  send_append_entries-Settles peer args none nums {t} h = Settles-eq ar s t (ground arith)
  send_append_entries-Settles peer args (some reply) nums {t} {n} h =
      elim (Bool-cases (reply.app_state == disconnected)) [
        | inl off ↦ Settles-eq ar s t (ground arith)
        | inr on ↦ elim (Bool-cases (ltb s.current_term reply.term)) [
          | inl later ↦ inr (reply.term, ground arith, ground arith)
          | inr not_later ↦ elim (Bool-cases (ltb reply.term s.current_term)) [
            | inl stale ↦ Settles-eq ar s t (ground arith)
            | inr current ↦ inl (
                handle_append_reply-Same s peer args reply nums n t
                  (rw (on, not_later, current) at h))
          ]
        ]
      ]

  pub snapshot_response-Settles :
      (peer index : ℕ) (reply : Option ℕ) (nums : ℕ)
      → Settles ar s (snapshot_response ar s peer index reply nums).0
  unfolding snapshot_response leader_update_commit_index persist_node
  snapshot_response-Settles peer index none nums = inl (Same-self s)
  snapshot_response-Settles peer index (some term) nums =
      elim (Bool-cases (ltb s.current_term term)) [
        | inl later ↦ rw later (inr (term, ground arith, refl))
        | inr not_later ↦ rw not_later (
            let s' : Raft = record s {
              next_index = set s.next_index peer (index + 1);
              match_index = set s.match_index peer index;
            } in
            inl (
              Same-trans s s' _
                (record {
                  node = refl;
                  persister = refl;
                  me = refl;
                  peers = refl;
                  status = refl;
                  logs = refl;
                  timer = refl;
                  applied = refl;
                  chan = refl;
                  waits = λ e h. h;
                })
                (commit_from-Same s' (get_last_log_index s'))))
      ]

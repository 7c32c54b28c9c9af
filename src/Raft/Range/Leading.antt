-- ===== src/Raft/Range/Leading.antt =====
-- The commit index of a leader through the answers of its peers.
use my_kv_storage_base_raft.Common.{
  ℕ, zero, suc, ◌+◌, ◌≤◌, ◌≡◌, inl, inr, Option, none, some, arith, ltb, ◌==◌, Bool-cases, set, max,
}
use my_kv_storage_base_raft.Raft.Types.{
  ok, >>=-returns, is_leader, AppendEntriesArgs, AppendEntriesReply,
}
use my_kv_storage_base_raft.Raft.State.{Raft, Archive}
use my_kv_storage_base_raft.Raft.Log.{get_last_log_index}
use my_kv_storage_base_raft.Raft.Persist.{persist, persist_node}
use my_kv_storage_base_raft.Raft.Vote.{step_down}
use my_kv_storage_base_raft.Raft.Replicate.{
  handle_log_mismatch, update_peer_sync_state, try_update_commit_index, handle_append_reply,
  handle_term_mismatch, disconnected, send_append_entries, commit_from, leader_update_commit_index,
}
use my_kv_storage_base_raft.Raft.Snapshot.{snapshot_response}
use my_kv_storage_base_raft.Raft.History.Unsaved.{commit_from-Same}
use my_kv_storage_base_raft.Raft.Range.{IsCommitted}

update_peer_sync_state-commit :
    (s : Raft) (peer : ℕ) (args : AppendEntriesArgs) (nums n : ℕ) (t : Raft)
    → update_peer_sync_state s peer args nums ≡ ok (t, n)
    → t.commit_index ≡ s.commit_index
unfolding update_peer_sync_state
update_peer_sync_state-commit s peer args nums n t h = ground arith

try_update_commit_index-IsCommitted :
    (s : Raft) (args : AppendEntriesArgs) (nums n : ℕ) (t : Raft)
    → try_update_commit_index s args nums ≡ ok (t, n)
    → IsCommitted s t
unfolding try_update_commit_index
try_update_commit_index-IsCommitted s args nums n t h = ground arith

handle_append_reply-IsCommitted :
    (s : Raft) (peer : ℕ) (args : AppendEntriesArgs) (reply : AppendEntriesReply) (nums n : ℕ)
    (t : Raft)
    → handle_append_reply s peer args reply nums ≡ ok (t, n)
    → IsCommitted s t
unfolding handle_append_reply handle_log_mismatch
handle_append_reply-IsCommitted s peer args reply nums n t h =
    elim (Bool-cases (is_leader s.status)) [
      | inr other ↦ inl (ground arith)
      | inl lead ↦ elim (Bool-cases (reply.term == s.current_term)) [
        | inr differs ↦ cc (rw (lead, differs) at h)
        | inl current ↦ elim (Bool-cases reply.success) [
          | inr refused ↦ inl (ground arith)
          | inl accepted ↦
              let (r, e, e') =
                >>=-returns (update_peer_sync_state s peer args nums)
                  (λ (r : Raft × ℕ). try_update_commit_index r.0 args r.1)
                  (rw (lead, current, accepted) at h) in
              let same = update_peer_sync_state-commit s peer args nums r.1 r.0 e in
              let c = try_update_commit_index-IsCommitted r.0 args r.1 n t e' in
              ground (arith, same, c)
        ]
      ]
    ]

commit_from-bound : (s : Raft) (n : ℕ) → (commit_from s n).commit_index ≤ max s.commit_index n
unfolding commit_from
commit_from-bound s zero = ground arith
commit_from-bound s (suc n) = ground (arith, commit_from-bound s n)

last-commit_from : (s : Raft) (n : ℕ) → get_last_log_index (commit_from s n) ≡ get_last_log_index s
unfolding get_last_log_index persist_node
last-commit_from s n = let same = commit_from-Same s n in ground (arith, same.node, same.logs)

leader_update-IsCommitted : (s : Raft) → IsCommitted s (commit_from s (get_last_log_index s))
leader_update-IsCommitted s =
    ground
      (arith, commit_from-bound s (get_last_log_index s), last-commit_from s (get_last_log_index s))

module _ (ar : Archive) (s : Raft) where
  pub send_append_entries-IsCommitted :
      (peer : ℕ) (args : AppendEntriesArgs) (reply : Option AppendEntriesReply) (nums n : ℕ)
      {t : Raft}
      → send_append_entries ar s peer args reply nums ≡ ok (t, n)
      → IsCommitted s t
  unfolding send_append_entries handle_term_mismatch step_down persist
  send_append_entries-IsCommitted peer args none nums n h = inl (ground arith)
  send_append_entries-IsCommitted peer args (some reply) nums n {t} h =
      elim (Bool-cases (reply.app_state == disconnected)) [
        | inl off ↦ inl (ground arith)
        | inr on ↦ elim (Bool-cases (ltb s.current_term reply.term)) [
          | inl later ↦ inl (ground arith)
          | inr not_later ↦ elim (Bool-cases (ltb reply.term s.current_term)) [
            | inl stale ↦ inl (ground arith)
            | inr current ↦
                handle_append_reply-IsCommitted s peer args reply nums n t
                  (rw (on, not_later, current) at h)
          ]
        ]
      ]

  pub snapshot_response-IsCommitted :
      (peer index : ℕ) (reply : Option ℕ) (nums : ℕ)
      → IsCommitted s (snapshot_response ar s peer index reply nums).0
  unfolding snapshot_response leader_update_commit_index step_down persist
  snapshot_response-IsCommitted peer index none nums = inl (omega arith)
  snapshot_response-IsCommitted peer index (some term) nums =
      elim (Bool-cases (ltb s.current_term term)) [
        | inl later ↦ rw later (inl (omega arith))
        | inr not_later ↦ rw not_later (
            leader_update-IsCommitted (record s {
              next_index = set s.next_index peer (index + 1);
              match_index = set s.match_index peer index;
            }))
      ]

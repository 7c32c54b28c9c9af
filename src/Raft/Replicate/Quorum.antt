-- ===== src/Raft/Replicate/Quorum.antt =====
-- The counter of a batch: each peer's batch has one of its own, which begins at 1.
use my_kv_storage_base_raft.Common.{
  ℕ, ◌+◌, ◌<◌, ◌≡◌, inl, inr, true, Option, none, some, arith, ltb, ◌==◌, Bool-cases,
}
use my_kv_storage_base_raft.Raft.Types.{
  ok, >>=-returns, is_leader, AppendEntriesArgs, AppendEntriesReply,
}
use my_kv_storage_base_raft.Raft.State.{Raft, Archive}
use my_kv_storage_base_raft.Raft.Vote.{step_down, majority}
use my_kv_storage_base_raft.Raft.Persist.{persist}
use my_kv_storage_base_raft.Raft.Replicate.{
  disconnected, handle_term_mismatch, handle_log_mismatch, slide_pipeline_window,
  update_peer_sync_state, try_update_commit_index, handle_append_reply, send_append_entries,
}

update_peer_sync_state-counts :
    (s t : Raft) (peer : ℕ) (args : AppendEntriesArgs) (nums n : ℕ)
    → update_peer_sync_state s peer args nums ≡ ok (t, n)
    → (n ≡ nums + 1) × (t.commit_index ≡ s.commit_index) × (t.peers ≡ s.peers)
unfolding update_peer_sync_state slide_pipeline_window
update_peer_sync_state-counts s t peer args nums n h = ground arith

try_update_commit_index-few :
    (s t : Raft) (args : AppendEntriesArgs) (nums n : ℕ)
    → nums < majority s.peers
    → try_update_commit_index s args nums ≡ ok (t, n)
    → t ≡ s
unfolding try_update_commit_index
try_update_commit_index-few s t args nums n few h =
    let e : ltb nums (majority s.peers) ≡ true = ground arith in ground (arith, e)

handle_append_reply-few :
    (s t : Raft) (peer : ℕ) (args : AppendEntriesArgs) (reply : AppendEntriesReply) (nums n : ℕ)
    → nums + 1 < majority s.peers
    → handle_append_reply s peer args reply nums ≡ ok (t, n)
    → t.commit_index ≡ s.commit_index
unfolding handle_append_reply handle_log_mismatch
handle_append_reply-few s t peer args reply nums n few h = elim (Bool-cases (is_leader s.status)) [
  | inr other ↦ ground arith
  | inl lead ↦ elim (Bool-cases (reply.term == s.current_term)) [
    | inr differs ↦ cc (rw (lead, differs) at h)
    | inl current ↦ elim (Bool-cases reply.success) [
      | inr refused ↦ ground arith
      | inl accepted ↦
          let (r, e, e') =
            >>=-returns (update_peer_sync_state s peer args nums)
              (λ (r : Raft × ℕ). try_update_commit_index r.0 args r.1)
              (rw (lead, current, accepted) at h) in
          let (n_eq, commit, peers) = update_peer_sync_state-counts s r.0 peer args nums r.1 e in
          let same : t ≡ r.0 = try_update_commit_index-few r.0 t args r.1 n (ground arith) e' in
          rw same commit
    ]
  ]
]

-- In a cluster of more than three servers the answer to a batch, whatever it is, never moves the
-- commit index of a leader whose batch counter began at 1.
pub send_append_entries-large_cluster :
    (ar : Archive) (s t : Raft) (peer : ℕ) (args : AppendEntriesArgs)
    (reply : Option AppendEntriesReply) (n : ℕ)
    → 3 < s.peers
    → send_append_entries ar s peer args reply 1 ≡ ok (t, n)
    → t.commit_index ≡ s.commit_index
unfolding send_append_entries handle_term_mismatch step_down persist
send_append_entries-large_cluster ar s t peer args none n large h = ground arith
send_append_entries-large_cluster ar s t peer args (some reply) n large h =
    elim (Bool-cases (reply.app_state == disconnected)) [
      | inl off ↦ ground arith
      | inr on ↦ elim (Bool-cases (ltb s.current_term reply.term)) [
        | inl later ↦ ground arith
        | inr not_later ↦ elim (Bool-cases (ltb reply.term s.current_term)) [
          | inl stale ↦ ground arith
          | inr current ↦
              handle_append_reply-few s t peer args reply 1 n (omega arith)
                (rw (on, not_later, current) at h)
        ]
      ]
    ]

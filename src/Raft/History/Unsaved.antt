-- ===== src/Raft/History/Unsaved.antt =====
-- The parts of the leader's handlers that leave the saved members alone.
use my_kv_storage_base_raft.Common.{ℕ, zero, suc, ◌≡◌, refl, ◌∙◌, inl, inr, arith, ◌==◌, Bool-cases}
use my_kv_storage_base_raft.Raft.Types.{
  ok, >>=-returns, is_leader, AppendEntriesArgs, AppendEntriesReply,
}
use my_kv_storage_base_raft.Raft.State.{Raft}
use my_kv_storage_base_raft.Raft.Persist.{persist_node}
use my_kv_storage_base_raft.Raft.Vote.{start_batch_sender_thread}
use my_kv_storage_base_raft.Raft.Replicate.{
  handle_log_mismatch, update_peer_sync_state, try_update_commit_index, handle_append_reply,
  commit_from,
}
use my_kv_storage_base_raft.Raft.History.Keeps.{Same}

pub Same-self : (s : Raft) → Same s s
Same-self s = record {
  node = refl;
  persister = refl;
  me = refl;
  peers = refl;
  status = refl;
  logs = refl;
  timer = refl;
  applied = refl;
  chan = refl;
  waits = λ e h. h;
}

pub Same-trans : (s t u : Raft) → Same s t → Same t u → Same s u
Same-trans s t u h k = record {
  node = k.node ∙ h.node;
  persister = k.persister ∙ h.persister;
  me = k.me ∙ h.me;
  peers = k.peers ∙ h.peers;
  status = k.status ∙ h.status;
  logs = k.logs ∙ h.logs;
  timer = k.timer ∙ h.timer;
  applied = k.applied ∙ h.applied;
  chan = k.chan ∙ h.chan;
  waits = λ e w. h.waits e (k.waits e w);
}

handle_log_mismatch-Same :
    (s : Raft) (peer : ℕ) (reply : AppendEntriesReply) → Same s (handle_log_mismatch s peer reply)
unfolding handle_log_mismatch persist_node
handle_log_mismatch-Same s peer reply = ground arith

update_peer_sync_state-Same :
    (s : Raft) (peer : ℕ) (args : AppendEntriesArgs) (nums n : ℕ) (t : Raft)
    → update_peer_sync_state s peer args nums ≡ ok (t, n)
    → Same s t
unfolding update_peer_sync_state persist_node
update_peer_sync_state-Same s peer args nums n t h = ground arith

try_update_commit_index-Same :
    (s : Raft) (args : AppendEntriesArgs) (nums n : ℕ) (t : Raft)
    → try_update_commit_index s args nums ≡ ok (t, n)
    → Same s t
unfolding try_update_commit_index persist_node
try_update_commit_index-Same s args nums n t h = ground arith

pub commit_from-Same : (s : Raft) (n : ℕ) → Same s (commit_from s n)
unfolding commit_from persist_node
commit_from-Same s zero = record {
  node = refl;
  persister = refl;
  me = refl;
  peers = refl;
  status = refl;
  logs = refl;
  timer = refl;
  applied = refl;
  chan = refl;
  waits = λ e h. h;
}
commit_from-Same s (suc n) = ground (arith, commit_from-Same s n)

pub start_batch_sender_thread-Same : (s : Raft) → Same s (start_batch_sender_thread s)
unfolding start_batch_sender_thread persist_node
start_batch_sender_thread-Same s = ground arith

pub handle_append_reply-Same :
    (s : Raft) (peer : ℕ) (args : AppendEntriesArgs) (reply : AppendEntriesReply) (nums n : ℕ)
    (t : Raft)
    → handle_append_reply s peer args reply nums ≡ ok (t, n)
    → Same s t
unfolding handle_append_reply
handle_append_reply-Same s peer args reply nums n t h = elim (Bool-cases (is_leader s.status)) [
  | inr other ↦ let e : t ≡ s = ground arith in rw e (Same-self s)
  | inl lead ↦ elim (Bool-cases (reply.term == s.current_term)) [
    | inr differs ↦ cc (rw (lead, differs) at h)
    | inl current ↦ elim (Bool-cases reply.success) [
      | inr refused ↦
          let e : t ≡ handle_log_mismatch s peer reply = ground arith in
          rw e (handle_log_mismatch-Same s peer reply)
      | inl accepted ↦
          let (r, e, e') =
            >>=-returns (update_peer_sync_state s peer args nums)
              (λ (r : Raft × ℕ). try_update_commit_index r.0 args r.1)
              (rw (lead, current, accepted) at h) in
          Same-trans s r.0 t (update_peer_sync_state-Same s peer args nums r.1 r.0 e)
            (try_update_commit_index-Same r.0 args r.1 n t e')
    ]
  ]
]

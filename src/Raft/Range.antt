-- ===== src/Raft/Range.antt =====
-- The indices of a node that are applied and committed, against its snapshot and its log.
pub mod Leading
pub mod Following
pub mod Steps
pub mod Applier
use my_kv_storage_base_raft.Common.{ℕ, ◌≤◌, ◌≡◌, ◌⊎◌, ap, arith, inl, inr, length}
use my_kv_storage_base_raft.Raft.State.{Raft}
use my_kv_storage_base_raft.Raft.Log.{get_last_log_index}
use my_kv_storage_base_raft.Raft.Persist.{persist_node}
use my_kv_storage_base_raft.Raft.History.Keeps.{Same}

pub record IsInRange (s : Raft) : Type 0 where
  pub snapshot : s.last_snapshot_include_index ≤ s.last_applied
  pub applied : s.last_applied ≤ get_last_log_index s
  pub committed : s.commit_index ≤ get_last_log_index s

-- The commit index is not raised, or to one that the log reaches.
abbrev pub IsCommitted : Raft → Raft → Type 0
IsCommitted s t = (t.commit_index ≤ s.commit_index) ⊎ (t.commit_index ≤ get_last_log_index t)

-- A step after which the log reaches as far as before.
pub step-IsInRange :
    (s t : Raft)
    → IsInRange s
    → t.last_snapshot_include_index ≡ s.last_snapshot_include_index
    → t.last_applied ≡ s.last_applied
    → get_last_log_index s ≤ get_last_log_index t
    → IsCommitted s t
    → IsInRange t
step-IsInRange s t r place same longer c = record {
  snapshot = omega (arith, r.snapshot, place, same);
  applied = omega (arith, r.applied, same, longer);
  committed = ground (arith, r.committed, longer, c);
}

-- A step that changes none of the four.
pub same-IsInRange :
    (s t : Raft)
    → IsInRange s
    → t.last_snapshot_include_index ≡ s.last_snapshot_include_index
    → t.last_applied ≡ s.last_applied
    → t.logs ≡ s.logs
    → t.commit_index ≡ s.commit_index
    → IsInRange t
unfolding get_last_log_index
same-IsInRange s t r place applied logs commit =
    step-IsInRange s t r place applied (omega (arith, place, ap length logs))
      (inl (omega (arith, commit)))

pub Same-IsInRange : (s t : Raft) → IsInRange s → Same s t → IsCommitted s t → IsInRange t
unfolding persist_node get_last_log_index
Same-IsInRange s t r same c =
    step-IsInRange s t r (ground (arith, same.node)) same.applied
      (ground (arith, same.node, same.logs)) c

-- ===== src/Raft/Snapshot/Install.antt =====
-- The indices of the log after a snapshot.
use my_kv_storage_base_raft.Common.{
  ℕ, ◌≤◌, ◌<◌, ◌≡◌, refl, ◌↔◌, ◌⊎◌, inl, inr, List, [], ◌∷◌, arith, ltb, Bool-cases,
}
use my_kv_storage_base_raft.Raft.Types.{InstallSnapshotRequest, LogEntry}
use my_kv_storage_base_raft.Raft.State.{Raft, Archive}
use my_kv_storage_base_raft.Raft.Persist.{persist, persist_snapshot}
use my_kv_storage_base_raft.Raft.Log.Shape.{IndexedFrom, IsIndexed}
use my_kv_storage_base_raft.Raft.Vote.{step_down}
use my_kv_storage_base_raft.Raft.Snapshot.{install_snapshot1, advance_snapshot}

IndexedFrom-iff :
    (from other : ℕ) (logs : List LogEntry)
    → IndexedFrom from logs
    → IndexedFrom other logs ↔ ((logs ≡ []) ⊎ (from ≡ other))
IndexedFrom-iff from other [] h = ((λ _. inl refl), λ _. tt)
IndexedFrom-iff from other (e ∷ es) h =
    ((λ k. inr (ground arith)), λ k. elim k [ inl empty ↦ cc | inr same ↦ rw (← same) h ])

-- `InstallSnapshot1` leaves the log as it is: its entries carry the indices of their places
-- afterwards exactly if the log is empty, or the request is behind the node's term, or the snapshot
-- is no newer than the one that the node has.
pub install_snapshot1-IsIndexed :
    (ar : Archive) (s : Raft) (request : InstallSnapshotRequest)
    → IsIndexed s
    → IsIndexed (install_snapshot1 ar s request).0 ↔ (
        (s.logs ≡ [])
        ⊎ ((request.term < s.current_term)
            ⊎ (request.last_snapshot_include_index ≤ s.last_snapshot_include_index)))
unfolding install_snapshot1 advance_snapshot step_down persist persist_snapshot
install_snapshot1-IsIndexed ar s request h =
    let k =
      IndexedFrom-iff s.last_snapshot_include_index request.last_snapshot_include_index s.logs h in
    elim (Bool-cases (ltb request.term s.current_term)) [
      | inl stale ↦ rw stale ((λ _. inr (inl (ground arith))), λ _. h)
      | inr current ↦ elim (Bool-cases (ltb s.current_term request.term)) [
        | inl later ↦
            elim (Bool-cases
              (ltb s.last_snapshot_include_index request.last_snapshot_include_index)) [
                | inl newer ↦ rw (current, later, newer) (ground (arith, k))
                | inr known ↦ rw (current, later, known) ((λ _. inr (inr (ground arith))), λ _. h)
              ]
        | inr same ↦
            elim (Bool-cases
              (ltb s.last_snapshot_include_index request.last_snapshot_include_index)) [
                | inl newer ↦ rw (current, same, newer) (ground (arith, k))
                | inr known ↦ rw (current, same, known) ((λ _. inr (inr (ground arith))), λ _. h)
              ]
      ]
    ]

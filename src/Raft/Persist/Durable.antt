-- ===== src/Raft/Persist/Durable.antt =====
-- The file of a node holds what the node must not forget.
use my_kv_storage_base_raft.Common.{◌≡◌, ◌⊎◌, inl, inr, none, some, Bytes, [], minus_one}
use my_kv_storage_base_raft.Raft.State.{Raft, Archive, PersistRaftNode}
use my_kv_storage_base_raft.Raft.Persister.Durable.{
  IsQuiet, save_state_and_wait-Wrote, save_and_wait-WroteBoth,
}
use my_kv_storage_base_raft.Raft.Persist.{persist_node, persist_date, persist, persist_snapshot}

-- The file and the copy in memory hold the node's term, vote, snapshot point and log as they are
-- now, and no save is under way.
pub record IsDurable (ar : Archive) (s : Raft) : Type 0 where
  pub quiet : IsQuiet s.persister
  pub memory : s.persister.raft_state ≡ persist_date ar s
  pub file : s.persister.raft_file ≡ some (persist_date ar s)

-- What `persistDate` would hand over for a node that has seen no message.
abbrev pub blank_node : PersistRaftNode
blank_node = record {
  current_term = 0;
  voted_for = minus_one;
  last_snapshot_include_index = 0;
  last_snapshot_include_term = 0;
  logs = [];
}

-- Nothing was ever saved, and there is nothing to save.
pub record IsBlank (s : Raft) : Type 0 where
  pub quiet : IsQuiet s.persister
  pub memory : s.persister.raft_state ≡ []
  pub file : s.persister.raft_file ≡ none
  pub node : persist_node s ≡ blank_node

-- What the node must not forget is in its file, or there is none yet.
abbrev pub IsRecorded : Archive → Raft → Type 0
IsRecorded ar s = IsDurable ar s ⊎ IsBlank s

pub IsRecorded-IsQuiet : (ar : Archive) (s : Raft) → IsRecorded ar s → IsQuiet s.persister
IsRecorded-IsQuiet ar s (inl d) = d.quiet
IsRecorded-IsQuiet ar s (inr b) = b.quiet

module _ (ar : Archive) where
  pub persist-IsDurable : (s : Raft) → IsQuiet s.persister → IsDurable ar (persist ar s)
  unfolding persist
  persist-IsDurable s q =
      let w = save_state_and_wait-Wrote s.persister (persist_date ar s) q in
      record { quiet = w.quiet; memory = w.memory; file = w.file }

  pub persist_snapshot-IsDurable :
      (s : Raft) (snapshot : Bytes)
      → IsQuiet s.persister
      → IsDurable ar (persist_snapshot ar s snapshot)
  unfolding persist_snapshot
  persist_snapshot-IsDurable s snapshot q =
      let w = save_and_wait-WroteBoth s.persister (persist_date ar s) snapshot q in
      record { quiet = w.quiet; memory = w.memory; file = w.file }

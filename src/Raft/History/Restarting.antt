-- ===== src/Raft/History/Restarting.antt =====
-- A restart in the history of a node: whatever its log looks like, nothing that was saved is lost.
use my_kv_storage_base_raft.Common.{
  none, inl, inr, ℕ, suc, ◌≡◌, refl, some, List, [], ◌∷◌, map, arith, Option, ap, sym, ◌∙◌,
}
use my_kv_storage_base_raft.Raft.Types.{ok, ApplyMsg}
use my_kv_storage_base_raft.Raft.State.{Raft, Archive, PersistLogEntry, PersistRaftNode}
use my_kv_storage_base_raft.Raft.Persister.{Persister}
use my_kv_storage_base_raft.Raft.Persister
use my_kv_storage_base_raft.Raft.Persister.Durable.{init-IsQuiet}
use my_kv_storage_base_raft.Raft.Persist.{
  persist_entry, persist_node, persist_date, read_entries, read_node, read_persist, init, fresh,
  skip_snapshot,
}
use my_kv_storage_base_raft.Raft.Persist.Durable.{IsDurable, IsRecorded, IsBlank}
use my_kv_storage_base_raft.Raft.Persist.Restart.{restart, read_text}
use my_kv_storage_base_raft.Raft.History.Keeps.{Keeps, Same-Advances}

map-read_entries :
    (index : ℕ) (plogs : List PersistLogEntry)
    → map persist_entry (read_entries index plogs) ≡ plogs
unfolding read_entries
map-read_entries index [] = refl
map-read_entries index (e ∷ es) = ground (arith, map-read_entries (suc index) es)

-- Reading a saved node and saving again saves the same.
persist_node-read_node :
    (s : Raft) (n : PersistRaftNode) → persist_node (skip_snapshot (read_node s n)) ≡ n
unfolding persist_node read_node skip_snapshot
persist_node-read_node s n = ground (arith, map-read_entries n.last_snapshot_include_index n.logs)

reread : Raft → Option (List ApplyMsg) → ℕ → Raft
reread s ch now = skip_snapshot (
    read_node
      (fresh s.peers s.me (Persister.init s.persister.raft_file s.persister.snapshot_file) ch now)
      (persist_node s))

module _ (ar : Archive) (s : Raft) (d : IsDurable ar s) (ch : Option (List ApplyMsg))
    (now : ℕ) where
  restart-eq-reread : restart ar s ch now ≡ ok (reread s ch now)
  unfolding init reread Persister.init persist_date
  restart-eq-reread = rw (
    d.file,
    read_text ar
        (fresh s.peers s.me (Persister.init (some (persist_date ar s)) s.persister.snapshot_file) ch
          now)
        s (persist_date ar s) refl,
  )

  reread-persister :
      (reread s ch now).persister ≡ Persister.init s.persister.raft_file s.persister.snapshot_file
  unfolding reread skip_snapshot read_node fresh
  reread-persister = ground arith

  reread-node : persist_node (reread s ch now) ≡ persist_node s
  unfolding reread
  reread-node =
      persist_node-read_node
        (fresh s.peers s.me (Persister.init s.persister.raft_file s.persister.snapshot_file) ch now)
        (persist_node s)

  same_date : persist_date ar (reread s ch now) ≡ persist_date ar s
  unfolding persist_date
  same_date = ap ar.encode reread-node

  read_back :
      (Persister.init s.persister.raft_file s.persister.snapshot_file).raft_state
      ≡ persist_date ar s
  unfolding Persister.init
  read_back = ap Persister.read_file d.file

  file_back :
      (Persister.init s.persister.raft_file s.persister.snapshot_file).raft_file
      ≡ some (persist_date ar s)
  unfolding Persister.init
  file_back = d.file

  reread-IsDurable : IsDurable ar (reread s ch now)
  reread-IsDurable = record {
    quiet = rw reread-persister (init-IsQuiet s.persister.raft_file s.persister.snapshot_file);
    memory = ap (λ (p : Persister). p.raft_state) reread-persister ∙ read_back ∙ sym same_date;
    file =
        ap (λ (p : Persister). p.raft_file) reread-persister ∙ file_back ∙ ap some (sym same_date);
  }

  reread-Keeps : Keeps ar s (reread s ch now)
  reread-Keeps = record {
    advances = Same-Advances s (reread s ch now) reread-node;
    durable = inl reread-IsDurable;
  }

  durable-restart : {t : Raft} → restart ar s ch now ≡ ok t → Keeps ar s t
  durable-restart {t} h =
      let e : t ≡ reread s ch now = ground (arith, restart-eq-reread) in rw e reread-Keeps

-- The node over an empty directory.
unfoldable pub newborn : Raft → Option (List ApplyMsg) → ℕ → Raft
newborn s ch now =
    skip_snapshot (fresh s.peers s.me (Persister.init none s.persister.snapshot_file) ch now)

newborn-IsBlank : (s : Raft) (ch : Option (List ApplyMsg)) (now : ℕ) → IsBlank (newborn s ch now)
unfolding newborn skip_snapshot fresh Persister.init persist_node
newborn-IsBlank s ch now = record {
  quiet = init-IsQuiet none s.persister.snapshot_file;
  memory = refl;
  file = refl;
  node = refl;
}

pub restart-newborn :
    (ar : Archive) (s : Raft) (ch : Option (List ApplyMsg)) (now : ℕ)
    → IsBlank s
    → restart ar s ch now ≡ ok (newborn s ch now)
unfolding init newborn Persister.init read_persist
restart-newborn ar s ch now b = rw b.file refl

blank-restart :
    (ar : Archive) (s : Raft) (ch : Option (List ApplyMsg)) (now : ℕ)
    → IsBlank s
    → Keeps ar s (newborn s ch now)
blank-restart ar s ch now b =
    let after = newborn-IsBlank s ch now in
    record {
      advances = Same-Advances s (newborn s ch now) (after.node ∙ sym b.node);
      durable = inr after;
    }

pub restart-Keeps :
    (ar : Archive) (s : Raft) (d : IsRecorded ar s) (ch : Option (List ApplyMsg)) (now : ℕ)
    {t : Raft}
    → restart ar s ch now ≡ ok t
    → Keeps ar s t
restart-Keeps ar s (inl d) ch now h = durable-restart ar s d ch now h
restart-Keeps ar s (inr b) ch now {t} h =
    let e : t ≡ newborn s ch now = ground (arith, restart-newborn ar s ch now b) in
    rw e (blank-restart ar s ch now b)

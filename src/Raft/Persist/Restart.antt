-- ===== src/Raft/Persist/Restart.antt =====
-- Saving and reading back.
use my_kv_storage_base_raft.Common.{
  ℕ, suc, ◌≡◌, refl, some, List, [], ◌∷◌, map, Bytes, arith, Option,
}
use my_kv_storage_base_raft.Raft.Types.{Result, ok, LogEntry, ApplyMsg, follower}
use my_kv_storage_base_raft.Raft.State.{Raft, Archive}
use my_kv_storage_base_raft.Raft.Log.Shape.{IndexedFrom, IsIndexed}
use my_kv_storage_base_raft.Raft.Persister
use my_kv_storage_base_raft.Raft.Persist.Durable.{IsDurable}
use my_kv_storage_base_raft.Raft.Persist.{
  persist_entry, persist_node, persist_date, read_entries, read_node, read_persist, init, fresh,
  skip_snapshot,
}

-- The indices are not saved: reading counts them again, and finds those that the log had.
read_entries-map :
    (from : ℕ) (logs : List LogEntry)
    → IndexedFrom from logs
    → read_entries from (map persist_entry logs) ≡ logs
unfolding read_entries
read_entries-map from [] h = refl
read_entries-map from (e ∷ es) h = ground (arith, read_entries-map (suc from) es)

module _ (ar : Archive) where
  pub read_text :
      (s : Raft) (t : Raft) (bytes : Bytes)
      → ar.encode (persist_node t) ≡ bytes
      → read_persist ar s bytes ≡ ok (read_node s (persist_node t))
  unfolding read_persist
  read_text s t [] e = absurd (ar.encode_nonempty (persist_node t) e)
  read_text s t (b ∷ bytes) e = rw (← e, ar.decode_encode (persist_node t))

  -- Reading what was saved gives the term, the vote, the snapshot point and the log again.
  pub read_persist-persist_date :
      (s t : Raft)
      → IsIndexed t
      → read_persist ar s (persist_date ar t)
        ≡ ok (record s {
          current_term = t.current_term;
          voted_for = t.voted_for;
          last_snapshot_include_index = t.last_snapshot_include_index;
          last_snapshot_include_term = t.last_snapshot_include_term;
          logs = t.logs;
        })
  unfolding persist_date
  read_persist-persist_date s t h = rw (read_text s t (persist_date ar t) refl) (
      unfold read_node persist_node in rw (read_entries-map t.last_snapshot_include_index t.logs h))

-- What a node must not forget, and the two volatile members that a restart sets.
pub record Resumes (s t : Raft) : Type 0 where
  pub same_term : t.current_term ≡ s.current_term
  pub same_vote : t.voted_for ≡ s.voted_for
  pub same_logs : t.logs ≡ s.logs
  pub same_snapshot_index : t.last_snapshot_include_index ≡ s.last_snapshot_include_index
  pub same_snapshot_term : t.last_snapshot_include_term ≡ s.last_snapshot_include_term
  pub starts_follower : t.status ≡ follower
  pub skips_snapshot : t.last_applied ≡ s.last_snapshot_include_index
  pub forgets_commit : t.commit_index ≡ 0

-- The process dies and is started again over the same files.
abbrev pub restart : Archive → Raft → Option (List ApplyMsg) → ℕ → Result Raft
restart ar s ch now =
    init ar s.peers s.me (Persister.init s.persister.raft_file s.persister.snapshot_file) ch now

-- The node that `restart` gives back.
unfoldable pub resumed : Raft → Option (List ApplyMsg) → ℕ → Raft
unfolding skip_snapshot fresh
resumed s ch now =
    let p = Persister.init s.persister.raft_file s.persister.snapshot_file in
    skip_snapshot (record (fresh s.peers s.me p ch now) {
      current_term = s.current_term;
      voted_for = s.voted_for;
      last_snapshot_include_index = s.last_snapshot_include_index;
      last_snapshot_include_term = s.last_snapshot_include_term;
      logs = s.logs;
    })

resumed-Resumes : (s : Raft) (ch : Option (List ApplyMsg)) (now : ℕ) → Resumes s (resumed s ch now)
unfolding resumed
resumed-Resumes s ch now = ground arith

module _ (ar : Archive) where
  pub restart-eq-resumed :
      (s : Raft) (ch : Option (List ApplyMsg)) (now : ℕ)
      → IsDurable ar s
      → IsIndexed s
      → restart ar s ch now ≡ ok (resumed s ch now)
  unfolding init resumed Persister.init
  restart-eq-resumed s ch now d h = rw (
    d.file,
    read_persist-persist_date ar
        (fresh s.peers s.me (Persister.init (some (persist_date ar s)) s.persister.snapshot_file) ch
          now)
        s h,
  )

  -- A node whose file is up to date and whose entries carry consecutive indices restarts without a
  -- fault, with its term, vote, log and snapshot point, as a follower that has applied up to the
  -- snapshot and knows no commit index.
  pub restart-Resumes :
      (s : Raft) (ch : Option (List ApplyMsg)) (now : ℕ)
      → IsDurable ar s
      → IsIndexed s
      → (t : Raft) × (restart ar s ch now ≡ ok t) × Resumes s t
  restart-Resumes s ch now d h =
      (resumed s ch now, restart-eq-resumed s ch now d h, resumed-Resumes s ch now)

-- ===== src/Raft/Persister/Durable.antt =====
-- `Persister` as a node uses it: one caller, which waits after every save.
use my_kv_storage_base_raft.Common.{◌≤◌, ◌≡◌, false, Option, some, Bytes, arith}
use my_kv_storage_base_raft.Raft.Persister.{Persister, init, save_state_and_wait, save_and_wait}

-- Between two calls nothing waits for the worker, and no ticket is settled before it is issued.
pub record IsQuiet (p : Persister) : Type 0 where
  pub no_raft : p.has_pending_raft ≡ false
  pub no_snapshot : p.has_pending_snapshot ≡ false
  pub settled : p.flushed_seq ≤ p.next_seq
  pub running : p.stop ≡ false

pub init-IsQuiet : (raft_file snapshot_file : Option Bytes) → IsQuiet (init raft_file snapshot_file)
unfolding init
init-IsQuiet raft_file snapshot_file = ground arith

pub record Wrote (bytes : Bytes) (p q : Persister) : Type 0 where
  pub quiet : IsQuiet q
  pub memory : q.raft_state ≡ bytes
  pub file : q.raft_file ≡ some bytes
  pub same_snapshot : q.snapshot ≡ p.snapshot
  pub same_snapshot_file : q.snapshot_file ≡ p.snapshot_file

-- A save of the state, and the wait for it, leaves the bytes in memory and in the file, the snapshot
-- untouched, and nothing pending, where nothing was pending before and the I/O thread runs.
pub save_state_and_wait-Wrote :
    (p : Persister) (bytes : Bytes) → IsQuiet p → Wrote bytes p (save_state_and_wait p bytes)
unfolding save_state_and_wait
save_state_and_wait-Wrote p bytes q = ground arith

pub record WroteBoth (bytes snapshot : Bytes) (q : Persister) : Type 0 where
  pub quiet : IsQuiet q
  pub memory : q.raft_state ≡ bytes
  pub file : q.raft_file ≡ some bytes
  pub memory_snapshot : q.snapshot ≡ snapshot
  pub snapshot_file : q.snapshot_file ≡ some snapshot

pub save_and_wait-WroteBoth :
    (p : Persister) (bytes snapshot : Bytes)
    → IsQuiet p
    → WroteBoth bytes snapshot (save_and_wait p bytes snapshot)
unfolding save_and_wait
save_and_wait-WroteBoth p bytes snapshot q = ground arith

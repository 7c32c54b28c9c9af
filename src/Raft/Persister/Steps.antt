-- ===== src/Raft/Persister/Steps.antt =====
-- The callers that save and the worker of `Persister` as one system: each critical section under
-- `m_ioMtx`, each round of writing, and each wait is a step of its own, in any order. The device
-- writes the state; whether it writes a snapshot is open.
mod Moves
pub mod Flushed
use my_kv_storage_base_raft.Common.{
  ℕ, zero, suc, ◌≤◌, ◌<◌, ◌≡◌, refl, ap, sym, ◌∙◌, ◌⊎◌, inl, inr, Bool, true, false, not, Option,
  none, some, Bytes, arith, ltb, leb, ◌==◌, Bool-cases, if◌then◌else◌, ◌&&◌, ◌||◌,
}
use my_kv_storage_base_raft.Raft.Persister.{
  Persister, init, save, save_raft_state, Job, Taken, takes, returns, take, taken_part, write_job,
  write_part, write_file_atomic, finish, request_stop,
}

-- Where the worker stands: before the wait, with a job taken, with the job written, or ended.
pub data Worker : Type 0 where
  waiting : Worker
  loaded : Job → Worker
  written : ℕ → Worker
  ended : Worker

-- `saved` is the state that each ticket was issued for.
pub record System : Type 0 where
  pub persister : Persister
  pub worker : Worker
  pub saved : ℕ → Bytes

abbrev pub note : (ℕ → Bytes) → ℕ → Bytes → ℕ → Bytes
note saved seq bytes n = if n == seq then bytes else saved n

pub data Step : System → System → Type 0 where
  saves_state :
      (p : Persister) (w : Worker) (saved : ℕ → Bytes) (bytes : Bytes)
      → Step
          (record { persister = p; worker = w; saved = saved })
          (record {
            persister = (save_raft_state p bytes).0;
            worker = w;
            saved = note saved (save_raft_state p bytes).1 bytes;
          })
  saves_both :
      (p : Persister) (w : Worker) (saved : ℕ → Bytes) (bytes snapshot : Bytes)
      → Step
          (record { persister = p; worker = w; saved = saved })
          (record {
            persister = (save p bytes snapshot).0;
            worker = w;
            saved = note saved (save p bytes snapshot).1 bytes;
          })
  loads :
      (p q : Persister) (saved : ℕ → Bytes) (job : Job)
      → take p ≡ takes job q
      → Step
          (record { persister = p; worker = waiting; saved = saved })
          (record { persister = q; worker = loaded job; saved = saved })
  ends :
      (p : Persister) (saved : ℕ → Bytes)
      → take p ≡ returns
      → Step
          (record { persister = p; worker = waiting; saved = saved })
          (record { persister = p; worker = ended; saved = saved })
  writes :
      (p : Persister) (saved : ℕ → Bytes) (job : Job) (snapshot_works : Bool)
      → Step
          (record { persister = p; worker = loaded job; saved = saved })
          (record {
            persister = write_job snapshot_works true job p;
            worker = written job.seq_to_write;
            saved = saved;
          })
  settles :
      (p : Persister) (saved : ℕ → Bytes) (seq : ℕ)
      → Step
          (record { persister = p; worker = written seq; saved = saved })
          (record { persister = finish seq p; worker = waiting; saved = saved })
  stops :
      (p : Persister) (w : Worker) (saved : ℕ → Bytes)
      → Step
          (record { persister = p; worker = w; saved = saved })
          (record { persister = request_stop p; worker = w; saved = saved })

pub data Steps : System → System → Type 0 where
  done : {s : System} → Steps s s
  more : {s t u : System} → Step s t → Steps t u → Steps s u

-- A ticket `seq` with the worker: it is newer than what is settled, and the newest unless a newer
-- state waits.
pub record InHand (p : Persister) (seq : ℕ) : Type 0 where
  pub issued : seq ≤ p.next_seq
  pub is_ticket : 0 < seq
  pub unsettled : p.flushed_seq < seq
  pub newest :
      ((p.has_pending_raft ≡ true) × (seq < p.next_seq))
      ⊎ ((p.has_pending_raft ≡ false) × (seq ≡ p.next_seq))

abbrev pub Hand : Persister → (ℕ → Bytes) → Worker → Type 0
Hand p saved waiting = (p.has_pending_raft ≡ true) ⊎ (p.flushed_seq ≡ p.next_seq)
Hand p saved (loaded job) =
    InHand p job.seq_to_write × (job.state_to_write ≡ some (saved job.seq_to_write))
Hand p saved (written seq) = InHand p seq × (p.raft_file ≡ some (saved seq))
Hand p saved ended = (p.has_pending_raft ≡ true) ⊎ (p.flushed_seq ≡ p.next_seq)

pub record IsSafe (s : System) : Type 0 where
  pending :
      s.persister.has_pending_raft ≡ true
      → (s.persister.pending_raft_state ≡ s.saved s.persister.next_seq)
        × (s.persister.pending_seq ≡ s.persister.next_seq)
        × (s.persister.flushed_seq < s.persister.next_seq)
  pub both : s.persister.has_pending_snapshot ≡ true → s.persister.has_pending_raft ≡ true
  pub settled : s.persister.flushed_seq ≤ s.persister.next_seq
  pub on_disk :
      (s.persister.flushed_seq ≡ 0)
      ⊎ ((n : ℕ) × (s.persister.flushed_seq ≤ n)
          × (n ≤ s.persister.next_seq)
          × (s.persister.raft_file ≡ some (s.saved n)))
  pub hand : Hand s.persister s.saved s.worker

-- ===== src/Raft/Persister/Steps/Flushed.antt =====
-- What a caller of `WaitFlushed` can rely on.
use my_kv_storage_base_raft.Common.{
  ℕ, ◌≤◌, ◌<◌, ◌≡◌, refl, ◌⊎◌, inl, inr, true, false, Option, some, Bytes, arith,
}
use my_kv_storage_base_raft.Raft.Persister.{Persister, init, save, save_raft_state}
use my_kv_storage_base_raft.Raft.Persister.Steps.{
  Worker, waiting, loaded, written, ended, System, Step, saves_state, saves_both, loads, ends,
  writes, settles, stops, Steps, done, more, Hand, IsSafe,
}
use my_kv_storage_base_raft.Raft.Persister.Steps.Moves.{
  Issued-IsSafe, loads-IsSafe, writes-IsSafe, settles-IsSafe, stops-IsSafe,
}

Step-IsSafe : {s t : System} → Step s t → IsSafe s → IsSafe t
unfolding save_raft_state save
Step-IsSafe (saves_state p w saved bytes) h =
    Issued-IsSafe p _ w saved bytes
      (record {
        waits = refl;
        state = refl;
        next = refl;
        ticket = refl;
        same_flushed = refl;
        same_file = refl;
      })
      h
Step-IsSafe (saves_both p w saved bytes snapshot) h =
    Issued-IsSafe p _ w saved bytes
      (record {
        waits = refl;
        state = refl;
        next = refl;
        ticket = refl;
        same_flushed = refl;
        same_file = refl;
      })
      h
Step-IsSafe (loads p q saved job t) h = loads-IsSafe p q saved job t h
Step-IsSafe (ends p saved t) h = record {
  pending = h.pending;
  both = h.both;
  settled = h.settled;
  on_disk = h.on_disk;
  hand = h.hand;
}
Step-IsSafe (writes p saved job works) h = writes-IsSafe p saved job works h
Step-IsSafe (settles p saved seq) h = settles-IsSafe p saved seq h
Step-IsSafe (stops p w saved) h = stops-IsSafe p w saved h

Steps-IsSafe : {s t : System} → Steps s t → IsSafe s → IsSafe t
Steps-IsSafe done h = h
Steps-IsSafe (more step steps) h = Steps-IsSafe steps (Step-IsSafe step h)

-- A persister that was just made, with its worker.
abbrev pub begins : Option Bytes → Option Bytes → (ℕ → Bytes) → System
begins raft_file snapshot_file saved = record {
  persister = init raft_file snapshot_file;
  worker = waiting;
  saved = saved;
}

begins-IsSafe :
    (raft_file snapshot_file : Option Bytes) (saved : ℕ → Bytes)
    → IsSafe (begins raft_file snapshot_file saved)
unfolding init
begins-IsSafe raft_file snapshot_file saved = record {
  pending = λ e. absurd (ground arith);
  both = λ e. e;
  settled = omega arith;
  on_disk = inl refl;
  hand = inr refl;
}

-- Whatever callers save and however their calls and the worker are interleaved: once the ticket of
-- a save counts as flushed, as `WaitFlushed` waits for, the file holds the state of that save or of
-- a later one.
pub flushed-on_disk :
    {t : System} (raft_file snapshot_file : Option Bytes) (saved : ℕ → Bytes) (seq : ℕ)
    → Steps (begins raft_file snapshot_file saved) t
    → 0 < seq
    → seq ≤ t.persister.flushed_seq
    → (n : ℕ) × (seq ≤ n) × (n ≤ t.persister.next_seq) × (t.persister.raft_file ≡ some (t.saved n))
flushed-on_disk {t} raft_file snapshot_file saved seq steps ticket flushed =
    let h = Steps-IsSafe steps (begins-IsSafe raft_file snapshot_file saved) in
    elim h.on_disk [
      | inl none_yet ↦ absurd (omega arith)
      | inr (n, lo, hi, e) ↦ (n, omega arith, hi, e)
    ]

Hand-waiting :
    (p : Persister) (w : Worker) (saved : ℕ → Bytes)
    → w ≡ waiting
    → Hand p saved w
    → (p.has_pending_raft ≡ true) ⊎ (p.flushed_seq ≡ p.next_seq)
Hand-waiting p waiting saved e h = h
Hand-waiting p ended saved e h = h
Hand-waiting p (loaded job) saved e h = absurd (ground arith)
Hand-waiting p (written seq) saved e h = absurd (ground arith)

-- No save is forgotten: whenever the worker is about to wait and nothing is pending, every ticket
-- that was issued is flushed.
pub drained-flushed :
    {t : System} (raft_file snapshot_file : Option Bytes) (saved : ℕ → Bytes)
    → Steps (begins raft_file snapshot_file saved) t
    → t.worker ≡ waiting
    → t.persister.has_pending_raft ≡ false
    → t.persister.flushed_seq ≡ t.persister.next_seq
drained-flushed {t} raft_file snapshot_file saved steps idle empty =
    let h = Steps-IsSafe steps (begins-IsSafe raft_file snapshot_file saved) in
    let hand = Hand-waiting t.persister t.worker t.saved idle h.hand in ground (arith, hand)

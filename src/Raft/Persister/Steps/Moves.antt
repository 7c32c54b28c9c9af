-- ===== src/Raft/Persister/Steps/Moves.antt =====
-- Each step of the persister and its worker keeps the two in agreement.
use my_kv_storage_base_raft.Common.{
  ℕ, suc, ◌≤◌, ◌≡◌, refl, ap, sym, ◌∙◌, inl, inr, Bool, true, false, some, Bytes, arith, ltb, ◌==◌,
}
use my_kv_storage_base_raft.Raft.Persister.{
  Persister, Job, takes, take, write_job, write_part, write_file_atomic, finish, request_stop,
}
use my_kv_storage_base_raft.Raft.Persister.Steps.{
  Worker, waiting, loaded, written, ended, note, Hand, IsSafe,
}

note-old :
    (saved : ℕ → Bytes) (k n : ℕ) (bytes : Bytes) → n ≤ k → note saved (suc k) bytes n ≡ saved n
note-old saved k n bytes h = let e : (n == suc k) ≡ false = ground arith in rw e refl

note-new : (saved : ℕ → Bytes) (k : ℕ) (bytes : Bytes) → note saved k bytes k ≡ bytes
note-new saved k bytes = let e : (k == k) ≡ true = ground arith in rw e refl

-- A call that saves has issued the next ticket for `bytes`.
pub record Issued (p q : Persister) (bytes : Bytes) : Type 0 where
  pub waits : q.has_pending_raft ≡ true
  pub state : q.pending_raft_state ≡ bytes
  pub next : q.next_seq ≡ suc p.next_seq
  pub ticket : q.pending_seq ≡ suc p.next_seq
  pub same_flushed : q.flushed_seq ≡ p.flushed_seq
  pub same_file : q.raft_file ≡ p.raft_file

Hand-Issued :
    (p q : Persister) (w : Worker) (saved : ℕ → Bytes) (bytes : Bytes)
    → Issued p q bytes
    → Hand p saved w
    → Hand q (note saved (suc p.next_seq) bytes) w
Hand-Issued p q waiting saved bytes i h = inl i.waits
Hand-Issued p q ended saved bytes i h = inl i.waits
Hand-Issued p q (loaded job) saved bytes i (h, e) = (
  record {
    issued = omega (arith, i.next, h.issued);
    is_ticket = h.is_ticket;
    unsettled = omega (arith, i.same_flushed, h.unsettled);
    newest = inl (i.waits, omega (arith, i.next, h.issued));
  },
  e ∙ ap some (sym (note-old saved p.next_seq job.seq_to_write bytes h.issued)),
)
Hand-Issued p q (written seq) saved bytes i (h, e) = (
  record {
    issued = omega (arith, i.next, h.issued);
    is_ticket = h.is_ticket;
    unsettled = omega (arith, i.same_flushed, h.unsettled);
    newest = inl (i.waits, omega (arith, i.next, h.issued));
  },
  i.same_file ∙ e ∙ ap some (sym (note-old saved p.next_seq seq bytes h.issued)),
)

pub Issued-IsSafe :
    (p q : Persister) (w : Worker) (saved : ℕ → Bytes) (bytes : Bytes)
    → Issued p q bytes
    → IsSafe (record { persister = p; worker = w; saved = saved })
    → IsSafe (record { persister = q; worker = w; saved = note saved (suc p.next_seq) bytes })
Issued-IsSafe p q w saved bytes i h = record {
  pending = λ _. (
    i.state
        ∙ sym (note-new saved (suc p.next_seq) bytes)
        ∙ ap (note saved (suc p.next_seq) bytes) (sym i.next),
    i.ticket ∙ sym i.next,
    omega (arith, i.next, i.same_flushed, h.settled),
  );
  both = λ _. i.waits;
  settled = omega (arith, i.next, i.same_flushed, h.settled);
  on_disk = elim h.on_disk [
    | inl none_yet ↦ inl (i.same_flushed ∙ none_yet)
    | inr (n, lo, hi, e) ↦ inr (
      n,
      omega (arith, i.same_flushed),
      omega (arith, i.next),
      i.same_file ∙ e ∙ ap some (sym (note-old saved p.next_seq n bytes hi)),
    )
  ];
  hand = Hand-Issued p q w saved bytes i h.hand;
}

-- What the worker has taken, with the lock held.
take_takes :
    (p q : Persister) (job : Job)
    → (p.has_pending_snapshot ≡ true → p.has_pending_raft ≡ true)
    → take p ≡ takes job q
    → (p.has_pending_raft ≡ true)
      × (job.seq_to_write ≡ p.pending_seq)
      × (job.state_to_write ≡ some p.pending_raft_state)
      × (q.next_seq ≡ p.next_seq)
      × (q.flushed_seq ≡ p.flushed_seq)
      × (q.raft_file ≡ p.raft_file)
      × (q.has_pending_raft ≡ false)
      × (q.has_pending_snapshot ≡ false)
unfolding take
take_takes p q job both h = ground arith

pub loads-IsSafe :
    (p q : Persister) (saved : ℕ → Bytes) (job : Job)
    → take p ≡ takes job q
    → IsSafe (record { persister = p; worker = waiting; saved = saved })
    → IsSafe (record { persister = q; worker = loaded job; saved = saved })
loads-IsSafe p q saved job t h =
    let (waits, seq, state, next, flushed, file, taken, taken_snapshot) =
      take_takes p q job h.both t in
    let (content, ticket, behind) = h.pending waits in
    record {
      pending = λ e. absurd (cc (e, taken));
      both = λ e. cc (e, taken_snapshot);
      settled = omega (arith, next, flushed, h.settled);
      on_disk = elim h.on_disk [
        | inl none_yet ↦ inl (flushed ∙ none_yet)
        | inr (n, lo, hi, e) ↦ inr (n, omega (arith, flushed), omega (arith, next), file ∙ e)
      ];
      hand = (
        record {
          issued = omega (arith, next, seq, ticket);
          is_ticket = omega (arith, seq, ticket, behind);
          unsettled = omega (arith, flushed, seq, ticket, behind);
          newest = inr (taken, seq ∙ ticket ∙ sym next);
        },
        state ∙ ap some (content ∙ ap saved (sym (seq ∙ ticket))),
      );
    }

write_part-some :
    (works : Bool) (p : Persister) (job : Job) {bytes : Bytes}
    → job.state_to_write ≡ some bytes
    → (write_job works true job p).raft_file ≡ some bytes
unfolding write_job write_part write_file_atomic
write_part-some works p job h = rw h refl

pub writes-IsSafe :
    (p : Persister) (saved : ℕ → Bytes) (job : Job) (works : Bool)
    → IsSafe (record { persister = p; worker = loaded job; saved = saved })
    → IsSafe (record {
      persister = write_job works true job p;
      worker = written job.seq_to_write;
      saved = saved;
    })
unfolding write_job
writes-IsSafe p saved job works h = record {
  pending = h.pending;
  both = h.both;
  settled = h.settled;
  on_disk = inr (
    job.seq_to_write,
    omega (arith, h.hand.0.unsettled),
    h.hand.0.issued,
    write_part-some works p job h.hand.1,
  );
  hand = (
    record {
      issued = h.hand.0.issued;
      is_ticket = h.hand.0.is_ticket;
      unsettled = h.hand.0.unsettled;
      newest = h.hand.0.newest;
    },
    write_part-some works p job h.hand.1,
  );
}

pub settles-IsSafe :
    (p : Persister) (saved : ℕ → Bytes) (seq : ℕ)
    → IsSafe (record { persister = p; worker = written seq; saved = saved })
    → IsSafe (record { persister = finish seq p; worker = waiting; saved = saved })
unfolding finish
settles-IsSafe p saved seq h =
    let a : ltb 0 seq ≡ true = ground (arith, h.hand.0.is_ticket) in
    let b : ltb p.flushed_seq seq ≡ true = ground (arith, h.hand.0.unsettled) in
    rw (a, b)
      (record {
        pending = λ e. elim h.hand.0.newest [
          | inl later ↦ ((h.pending e).0, (h.pending e).1, later.1)
          | inr none_waits ↦ absurd (ground arith)
        ];
        both = h.both;
        settled = h.hand.0.issued;
        on_disk = inr (seq, omega arith, h.hand.0.issued, h.hand.1);
        hand = elim h.hand.0.newest [ inl e ↦ inl e.0 | inr e ↦ inr e.1 ];
      })

Hand-stops :
    (p : Persister) (w : Worker) (saved : ℕ → Bytes)
    → Hand p saved w
    → Hand (request_stop p) saved w
unfolding request_stop
Hand-stops p waiting saved h = h
Hand-stops p ended saved h = h
Hand-stops p (loaded job) saved (h, e) = (
  record { issued = h.issued; is_ticket = h.is_ticket; unsettled = h.unsettled; newest = h.newest },
  e,
)
Hand-stops p (written seq) saved (h, e) = (
  record { issued = h.issued; is_ticket = h.is_ticket; unsettled = h.unsettled; newest = h.newest },
  e,
)

pub stops-IsSafe :
    (p : Persister) (w : Worker) (saved : ℕ → Bytes)
    → IsSafe (record { persister = p; worker = w; saved = saved })
    → IsSafe (record { persister = request_stop p; worker = w; saved = saved })
unfolding request_stop
stops-IsSafe p w saved h = record {
  pending = h.pending;
  both = h.both;
  settled = h.settled;
  on_disk = h.on_disk;
  hand = Hand-stops p w saved h.hand;
}

-- ===== src/Clerk/Retries.antt =====
-- When the client's loops return.
use my_kv_storage_base_raft.Common.{
  ℕ, zero, suc, ◌+◌, ◌≡◌, refl, ap, inl, inr, false, some, List, [], ◌∷◌, ◌++◌, arith, ltb, Bytes,
  eq_bytes, eq_bytes_iff, Bool-cases, replicate,
}
use my_kv_storage_base_raft.Clerk.{
  Response, failed, response, Ending, took, absent, gave_up, refused, write_loop, max_retry,
  ok_text, wrong_leader_text,
}

-- A response after which the loop asks again.
abbrev pub AsksAgain : Response → Type 0
AsksAgain failed = Unit {0}
AsksAgain (response err value) = err ≡ wrong_leader_text

abbrev pub AllAskAgain : List Response → Type 0
AllAskAgain [] = Unit {0}
AllAskAgain (r ∷ rs) = AsksAgain r × AllAskAgain rs

-- How the responses look that a loop read before it returned.
abbrev pub Explains : List Response → Ending → List Response → Type 0
Explains responses (took v) later =
    (before : List Response) × (value : Bytes) × AllAskAgain before
    × (responses ≡ before ++ response ok_text value ∷ later)
Explains responses absent later = ⊥
Explains responses gave_up later =
    (before : List Response) × AllAskAgain before × (responses ≡ before ++ failed ∷ later)
Explains responses refused later =
    (before : List Response) × (err : Bytes) × (value : Bytes) × AllAskAgain before
    × (eq_bytes err ok_text ≡ false)
    × (eq_bytes err wrong_leader_text ≡ false)
    × (responses ≡ before ++ response err value ∷ later)

Explains-more :
    (r : Response) (responses : List Response) (ending : Ending) (later : List Response)
    → AsksAgain r
    → Explains responses ending later
    → Explains (r ∷ responses) ending later
Explains-more r responses (took v) later a (before, value, all, e) =
    (r ∷ before, value, (a, all), ap (◌∷◌ r) e)
Explains-more r responses absent later a h = h
Explains-more r responses gave_up later a (before, all, e) = (r ∷ before, (a, all), ap (◌∷◌ r) e)
Explains-more r responses refused later a (before, err, value, all, x, y, e) =
    (r ∷ before, err, value, (a, all), x, y, ap (◌∷◌ r) e)

-- A write returns only on a reason: every response before the last one that it read was a failure
-- or "ErrWrongLeader", and the last one was "OK", or another `err`, or a failure at which the
-- client gives up.
pub write_loop-Explains :
    (retry_count : ℕ) (responses : List Response) (ending : Ending) (later : List Response)
    → write_loop retry_count responses ≡ some (ending, later)
    → Explains responses ending later
unfolding write_loop
write_loop-Explains retry_count [] ending later h = cc
write_loop-Explains retry_count (failed ∷ rs) ending later h =
    elim (Bool-cases (ltb max_retry (suc retry_count))) [
      | inl enough ↦
          let (e, e') : (ending ≡ gave_up) × (later ≡ rs) = ground arith in
          rw (e, e') ([], tt, refl)
      | inr again ↦
          Explains-more failed rs ending later tt
            (write_loop-Explains (suc retry_count) rs ending later (rw again at h))
    ]
write_loop-Explains retry_count (response err value ∷ rs) ending later h =
    elim (Bool-cases (eq_bytes err ok_text)) [
      | inl fine ↦
          let (e, e') : (ending ≡ took []) × (later ≡ rs) = ground arith in
          rw (e, e', (eq_bytes_iff err ok_text).0 fine) ([], value, tt, refl)
      | inr not_ok ↦ elim (Bool-cases (eq_bytes err wrong_leader_text)) [
        | inl elsewhere ↦
            Explains-more (response err value) rs ending later
              ((eq_bytes_iff err wrong_leader_text).0 elsewhere)
              (write_loop-Explains 0 rs ending later (rw (not_ok, elsewhere) at h))
        | inr other ↦
            let (e, e') : (ending ≡ refused) × (later ≡ rs) = ground arith in
            rw (e, e') ([], err, value, tt, not_ok, other, refl)
      ]
    ]

-- Failures in a row end a write: whatever comes later, after as many as are left to 101 the client
-- gives up.
pub write_loop-gave_up :
    (retry_count left : ℕ) (later : List Response)
    → retry_count + left ≡ max_retry
    → write_loop retry_count (replicate (suc left) failed ++ later) ≡ some (gave_up, later)
unfolding write_loop
write_loop-gave_up retry_count zero later h = ground arith
write_loop-gave_up retry_count (suc left) later h =
    let again : ltb max_retry (suc retry_count) ≡ false = ground arith in
    rw again (write_loop-gave_up (suc retry_count) left later (omega arith))

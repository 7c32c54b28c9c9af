-- ===== src/Raft/Append/BackOff.antt =====
-- The next index that a follower proposes when the previous entry does not match.
use my_kv_storage_base_raft.Common.{
  ℕ, zero, suc, ◌≤◌, ◌<◌, ◌≡◌, refl, ◌≢◌, ◌⊎◌, inl, inr, false, eq_ℤ, eq_ℤ_iff, pos, Option, none,
  some, Bool-cases, leb, arith, ◌∙◌,
}
use my_kv_storage_base_raft.Raft.Types.{ok, AppendEntriesArgs}
use my_kv_storage_base_raft.Raft.State.{Raft, Archive}
use my_kv_storage_base_raft.Raft.Log.{get_last_log_index, get_log_term_from_log_index, match_log}
use my_kv_storage_base_raft.Raft.Persist.{persist}
use my_kv_storage_base_raft.Raft.Append.{
  append_entries1, append_current, append_reply, back_off, back_off_from,
}
use my_kv_storage_base_raft.Raft.Append.Accept.{entered, append_entries1-entered}

-- The entries from index `lo` to index `hi` have the term of the entry at `prev`.
abbrev pub SameTerm : Raft → ℕ → ℕ → ℕ → Type 0
SameTerm s prev lo hi =
    (m : ℕ) → lo ≤ m → m ≤ hi → get_log_term_from_log_index s m ≡ get_log_term_from_log_index s prev

-- What the search from `i` down has established.
abbrev Answer : Raft → ℕ → ℕ → Option ℕ → Type 0
Answer s prev i none = SameTerm s prev s.last_snapshot_include_index i
Answer s prev i (some k) =
    (j : ℕ) × (k ≡ suc j)
    × (s.last_snapshot_include_index ≤ j)
    × (j ≤ i)
    × (get_log_term_from_log_index s j ≢ get_log_term_from_log_index s prev)
    × SameTerm s prev (suc j) i

SameTerm-suc :
    (s : Raft) (prev lo i : ℕ)
    → SameTerm s prev lo i
    → get_log_term_from_log_index s (suc i) ≡ get_log_term_from_log_index s prev
    → SameTerm s prev lo (suc i)
SameTerm-suc s prev lo i same e m a b = elim (Bool-cases (leb m i)) [
  | inl below ↦ same m a (ground arith)
  | inr top ↦ let at : m ≡ suc i = ground arith in rw at e
]

Answer-suc :
    (s : Raft) (prev i : ℕ) (o : Option ℕ)
    → Answer s prev i o
    → get_log_term_from_log_index s (suc i) ≡ get_log_term_from_log_index s prev
    → Answer s prev (suc i) o
Answer-suc s prev i none h e = SameTerm-suc s prev s.last_snapshot_include_index i h e
Answer-suc s prev i (some k) (j, k_eq, lo, hi, ne, same) e =
    (j, k_eq, lo, omega arith, ne, SameTerm-suc s prev (suc j) i same e)

back_off_from-Answer : (s : Raft) (prev i : ℕ) → Answer s prev i (back_off_from s prev i)
unfolding back_off_from
back_off_from-Answer s prev zero = elim (Bool-cases (leb s.last_snapshot_include_index 0)) [
  | inr above ↦ rw above (λ m a b. absurd (ground arith))
  | inl inside ↦
      elim (Bool-cases
        (eq_ℤ (get_log_term_from_log_index s 0) (get_log_term_from_log_index s prev))) [
          | inr other ↦
              rw (inside, other)
                (
                  0,
                  refl,
                  ground arith,
                  omega arith,
                  (λ e. cc ((eq_ℤ_iff _ _).1 e, other)),
                  λ m a b. absurd (omega arith),
                )
          | inl same ↦
              rw (inside, same)
                (λ m a b. let e : m ≡ 0 = omega arith in rw e ((eq_ℤ_iff _ _).0 same))
        ]
]
back_off_from-Answer s prev (suc i) =
    elim (Bool-cases (leb s.last_snapshot_include_index (suc i))) [
      | inr above ↦ rw above (λ m a b. absurd (ground arith))
      | inl inside ↦
          elim (Bool-cases
            (eq_ℤ (get_log_term_from_log_index s (suc i)) (get_log_term_from_log_index s prev))) [
              | inr other ↦
                  rw (inside, other)
                    (
                      suc i,
                      omega arith,
                      ground arith,
                      omega arith,
                      (λ e. cc ((eq_ℤ_iff _ _).1 e, other)),
                      λ m a b. absurd (omega arith),
                    )
              | inl same ↦
                  rw (inside, same)
                    (Answer-suc s prev i _ (back_off_from-Answer s prev i) ((eq_ℤ_iff _ _).0 same))
            ]
    ]

-- The proposal `k`: the start of the run of entries with the term of the entry at `prev`; or `prev`
-- itself, where that run reaches down to the snapshot.
abbrev pub Proposes : Raft → ℕ → ℕ → Type 0
Proposes s prev k =
    ((j : ℕ) × (k ≡ suc j)
      × (s.last_snapshot_include_index ≤ j)
      × (j < prev)
      × (get_log_term_from_log_index s j ≢ get_log_term_from_log_index s prev)
      × SameTerm s prev k prev)
    ⊎ ((k ≡ prev) × SameTerm s prev s.last_snapshot_include_index prev)

Proposes-Answer :
    (s : Raft) (prev : ℕ) (o : Option ℕ)
    → Answer s prev prev o
    → Proposes s prev (elim o [ none ↦ prev | some next ↦ next ])
Proposes-Answer s prev none same = inr (refl, same)
Proposes-Answer s prev (some k) (j, k_eq, lo, hi, ne, same) =
    let apart : j ≢ prev = λ e. ne (rw e) in inl (j, k_eq, lo, omega arith, ne, rw k_eq same)

back_off-Proposes : (s : Raft) (prev : ℕ) → Proposes s prev (back_off s prev)
unfolding back_off
back_off-Proposes s prev = Proposes-Answer s prev _ (back_off_from-Answer s prev prev)

Proposes-entered :
    (s : Raft) (args : AppendEntriesArgs) (now prev : ℕ)
    → Proposes (entered s args now) prev (back_off (entered s args now) prev)
    → Proposes s prev (back_off (entered s args now) prev)
unfolding get_log_term_from_log_index
Proposes-entered s args now prev h = h

append_current-mismatch :
    (ar : Archive) (s : Raft) (args : AppendEntriesArgs)
    → s.last_snapshot_include_index ≤ args.prev_log_index
    → args.prev_log_index ≤ get_last_log_index s
    → match_log s args.prev_log_index args.prev_log_term ≡ false
    → append_current ar s args
      ≡ ok (persist ar s, append_reply s.current_term false (pos (back_off s args.prev_log_index)))
unfolding append_current
append_current-mismatch ar s args lo hi no_match = ground arith

-- A message of the node's term or a later one, whose previous entry lies in the log or is the
-- snapshot's last one, and does not match: the log stays, the reply says no, and proposes a next index from which the
-- terms up to the previous entry are all alike. If another term stands before it, the index lies
-- below the one that the leader tried.
pub append_entries1-mismatch :
    (ar : Archive) (s : Raft) (args : AppendEntriesArgs) (now : ℕ)
    → s.current_term ≤ args.term
    → s.last_snapshot_include_index ≤ args.prev_log_index
    → args.prev_log_index ≤ get_last_log_index s
    → match_log s args.prev_log_index args.prev_log_term ≡ false
    → (k : ℕ) × (append_entries1 ar s args now
        ≡ ok (persist ar (entered s args now), append_reply args.term false (pos k)))
      × Proposes s args.prev_log_index k
append_entries1-mismatch ar s args now h lo hi no_match = (
  back_off (entered s args now) args.prev_log_index,
  append_entries1-entered ar s args now h
      ∙ (unfold match_log get_last_log_index in
          append_current-mismatch ar (entered s args now) args lo hi no_match),
  Proposes-entered s args now args.prev_log_index
      (back_off-Proposes (entered s args now) args.prev_log_index),
)

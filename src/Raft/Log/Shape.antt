-- ===== src/Raft/Log/Shape.antt =====
-- The log as a partial function from global indices to terms, and what it means for the stored
-- indices to agree with the positions.
use native.Mathlib.Nat.{add-zero}
use my_kv_storage_base_raft.Common.{
  zero, ◌+◌, ◌++◌, take, drop, length, ℕ, suc, ◌-◌, ◌≤◌, ◌≡◌, ◌↔◌, true, pos, List, [], ◌∷◌, arith,
  get_elem?-lt, get_elem?-ge, Bool-cases, ◌==◌, inl, inr,
}
use my_kv_storage_base_raft.Raft.Types.{LogEntry}
use my_kv_storage_base_raft.Raft.State.{Raft}
use my_kv_storage_base_raft.Raft.Log.{get_last_log_index, get_log_term_from_log_index, match_log}

-- The entries carry the indices from + 1, from + 2, …
abbrev pub IndexedFrom : ℕ → List LogEntry → Type 0
IndexedFrom from [] = Unit {0}
IndexedFrom from (e ∷ es) = (e.log_index ≡ suc from) × IndexedFrom (suc from) es

pub IndexedFrom-drop :
    (from n : ℕ) (logs : List LogEntry)
    → IndexedFrom from logs
    → IndexedFrom (from + n) (drop n logs)
IndexedFrom-drop from zero logs h = rw add-zero h
IndexedFrom-drop from (suc n) [] h = tt
IndexedFrom-drop from (suc n) (l ∷ ls) h =
    let e : from + suc n ≡ suc from + n = omega arith in rw e (IndexedFrom-drop (suc from) n ls h.1)

pub IndexedFrom-take :
    (from n : ℕ) (logs : List LogEntry) → IndexedFrom from logs → IndexedFrom from (take n logs)
IndexedFrom-take from zero logs h = tt
IndexedFrom-take from (suc n) [] h = tt
IndexedFrom-take from (suc n) (l ∷ ls) h = (h.0, IndexedFrom-take (suc from) n ls h.1)

pub IndexedFrom-append :
    (from : ℕ) (xs ys : List LogEntry)
    → IndexedFrom from xs
    → IndexedFrom (from + length xs) ys
    → IndexedFrom from (xs ++ ys)
IndexedFrom-append from [] ys hx hy = rw (add-zero from) at hy
IndexedFrom-append from (x ∷ xs) ys hx hy =
    let e : from + suc (length xs) ≡ suc from + length xs = omega arith in
    (hx.0, IndexedFrom-append (suc from) xs ys hx.1 (rw e at hy))

abbrev pub IsIndexed : Raft → Type 0
IsIndexed s = IndexedFrom s.last_snapshot_include_index s.logs

-- The two ways in which the node asks for a term agree: `match_log` answers whether the term that
-- `get_log_term_from_log_index` finds is the one that is asked for.
pub match_log_iff :
    (s : Raft) (i : ℕ) (t : ℕ)
    → (match_log s i (pos t) ≡ true) ↔ (get_log_term_from_log_index s i ≡ pos t)
unfolding match_log get_log_term_from_log_index
match_log_iff s i t = ground (arith, get_elem?-ge s.logs (i - s.last_snapshot_include_index - 1))

-- A term is found exactly for the snapshot's last entry and the entries of the log.
pub get_log_term-in_range :
    (s : Raft) (i : ℕ)
    → s.last_snapshot_include_index ≤ i
    → i ≤ get_last_log_index s
    → (t : ℕ) × (get_log_term_from_log_index s i ≡ pos t)
unfolding get_log_term_from_log_index get_last_log_index
get_log_term-in_range s i lo hi = elim (Bool-cases (i == s.last_snapshot_include_index)) [
  | inl e ↦ (s.last_snapshot_include_term, ground arith)
  | inr e ↦
      let found = get_elem?-lt s.logs (i - s.last_snapshot_include_index - 1) (ground arith) in
      (found.0.log_term, ground (arith, found.1))
]

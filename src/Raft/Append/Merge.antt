-- ===== src/Raft/Append/Merge.antt =====
-- What the loop over a message's entries leaves in the log.
use mathlib.Core.List.{append-nil, append_assoc}
use my_kv_storage_base_raft.Common.{
  ℕ, suc, zero, pos, ◌≤◌, take-append-drop, length-take_of_le, length-drop, max, ◌+◌, ◌≡◌, refl, ap,
  sym, ◌∙◌, ◌==◌, List, [], ◌∷◌, ◌++◌, arith, length, get_elem?, set, take, drop, Bool-cases, inl,
  inr, ltb, leb, false, ◌-◌, length-append, eq_bytes_iff, some,
}
use my_kv_storage_base_raft.Raft.Types.{ok, LogEntry}
use my_kv_storage_base_raft.Raft.Log.Shape.{
  IndexedFrom, IndexedFrom-drop, IndexedFrom-take, IndexedFrom-append,
}
use my_kv_storage_base_raft.Raft.Append.{merge_entry, merge_entries, overwrite, overwrite_at}

-- Entries in the same place and of the same term have the same command.
abbrev pub Agree : List LogEntry → List LogEntry → Type 0
Agree [] es = Unit {0}
Agree (l ∷ ls) [] = Unit {0}
Agree (l ∷ ls) (e ∷ es) = (l.log_term ≡ e.log_term → l.command ≡ e.command) × Agree ls es

get_elem?-middle :
    (pre : List LogEntry) (l : LogEntry) (ls : List LogEntry)
    → get_elem? (pre ++ l ∷ ls) (length pre) ≡ some l
get_elem?-middle [] l ls = refl
get_elem?-middle (p ∷ pre) l ls = get_elem?-middle pre l ls

set-middle :
    (pre : List LogEntry) (l e : LogEntry) (ls : List LogEntry)
    → set (pre ++ l ∷ ls) (length pre) e ≡ pre ++ e ∷ ls
set-middle [] l e ls = refl
set-middle (p ∷ pre) l e ls = ap (◌∷◌ p) (set-middle pre l e ls)

overwrite-middle :
    (pre : List LogEntry) (l e : LogEntry) (ls : List LogEntry)
    → l.log_index ≡ e.log_index
    → (l.log_term ≡ e.log_term → l.command ≡ e.command)
    → overwrite (pre ++ l ∷ ls) (length pre) e l ≡ ok (pre ++ e ∷ ls)
unfolding overwrite
overwrite-middle pre l e ls index agree = elim (Bool-cases (l.log_term == e.log_term)) [
  | inl same ↦
      let same_entry : l ≡ e = ground arith in
      ground (arith, eq_bytes_iff l.command e.command, ap (λ x. pre ++ x ∷ ls) same_entry)
  | inr other ↦ ground (arith, set-middle pre l e ls)
]

overwrite_at-middle :
    (pre : List LogEntry) (l e : LogEntry) (ls : List LogEntry)
    → l.log_index ≡ e.log_index
    → (l.log_term ≡ e.log_term → l.command ≡ e.command)
    → overwrite_at (pre ++ l ∷ ls) e (pos (length pre)) ≡ ok (pre ++ e ∷ ls)
overwrite_at-middle pre l e ls index agree =
    rw (get_elem?-middle pre l ls, overwrite_at) (overwrite-middle pre l e ls index agree)

-- An entry in its place is there afterwards, with the entries around it as they were.
merge_entry-middle :
    (base : ℕ) (pre : List LogEntry) (l e : LogEntry) (ls : List LogEntry)
    → l.log_index ≡ suc (base + length pre)
    → e.log_index ≡ suc (base + length pre)
    → (l.log_term ≡ e.log_term → l.command ≡ e.command)
    → merge_entry base (pre ++ l ∷ ls) e ≡ ok (pre ++ e ∷ ls)
unfolding merge_entry
merge_entry-middle base pre l e ls hl he agree =
    let inside : ltb (base + length (pre ++ l ∷ ls)) e.log_index ≡ false =
      ground (arith, length-append pre (l ∷ ls)) in
    let above : leb e.log_index base ≡ false = ground arith in
    let place : e.log_index - base - 1 ≡ length pre = omega arith in
    rw (inside, above, place) (overwrite_at-middle pre l e ls (hl ∙ sym he) agree)

merge_entry-end :
    (base : ℕ) (logs : List LogEntry) (e : LogEntry)
    → e.log_index ≡ suc (base + length logs)
    → merge_entry base logs e ≡ ok (logs ++ e ∷ [])
unfolding merge_entry
merge_entry-end base logs e he = ground arith

append-middle :
    (pre : List LogEntry) (e : LogEntry) (ls : List LogEntry)
    → pre ++ e ∷ ls ≡ (pre ++ e ∷ []) ++ ls
append-middle pre e ls = sym (append_assoc pre (e ∷ []) ls)

next-place :
    (base : ℕ) (pre : List LogEntry) (e : LogEntry)
    → base + length (pre ++ e ∷ []) ≡ suc (base + length pre)
next-place base pre e = omega (arith, length-append pre (e ∷ []))

drop-nil : (n : ℕ) → drop {A = LogEntry} n [] ≡ []
drop-nil zero = refl
drop-nil (suc n) = refl

-- The reference: the new entries replace as many old ones, and what lies behind them stays.
merge_entries-split :
    (base : ℕ) (pre rest es : List LogEntry)
    → IndexedFrom (base + length pre) rest
    → IndexedFrom (base + length pre) es
    → Agree rest es
    → merge_entries base (pre ++ rest) es ≡ ok (pre ++ (es ++ drop (length es) rest))
unfolding merge_entries
merge_entries-split base pre rest [] hr he a = refl
merge_entries-split base pre [] (e ∷ es) hr he a =
    rw (append-nil pre, merge_entry-end base pre e he.0)
      (rw (append-middle pre e (es ++ [])) (
        rw (append-nil (pre ++ e ∷ []), drop-nil (length es)) at
          (merge_entries-split base (pre ++ e ∷ []) [] es tt (rw next-place he.1) tt)))
merge_entries-split base pre (l ∷ ls) (e ∷ es) hr he a =
    rw (merge_entry-middle base pre l e ls hr.0 he.0 a.0) (
      rw (append-middle pre e ls, append-middle pre e (es ++ drop (length es) ls))
        (merge_entries-split base (pre ++ e ∷ []) ls es (rw next-place hr.1) (rw next-place he.1)
          a.1))

-- The same for a message whose entries begin `n` places into the log.
pub merge_entries_lem :
    (base n : ℕ) (logs es : List LogEntry)
    → n ≤ length logs
    → IndexedFrom base logs
    → IndexedFrom (base + n) es
    → Agree (drop n logs) es
    → merge_entries base logs es ≡ ok (take n logs ++ (es ++ drop (length es) (drop n logs)))
merge_entries_lem base n logs es fits hl he a =
    let len : length (take n logs) ≡ n = length-take_of_le n logs fits in
    rw (take-append-drop n logs) at (
      merge_entries-split base (take n logs) (drop n logs) es
        (rw len (IndexedFrom-drop base n logs hl)) (rw len he) a)

-- A merged log carries contiguous indices again.
pub merged-IndexedFrom :
    (base n : ℕ) (logs es : List LogEntry)
    → n ≤ length logs
    → IndexedFrom base logs
    → IndexedFrom (base + n) es
    → IndexedFrom base (take n logs ++ (es ++ drop (length es) (drop n logs)))
merged-IndexedFrom base n logs es fits hl he =
    let len : length (take n logs) ≡ n = length-take_of_le n logs fits in
    let behind =
      IndexedFrom-drop (base + n) (length es) (drop n logs) (IndexedFrom-drop base n logs hl) in
    IndexedFrom-append base (take n logs) _ (IndexedFrom-take base n logs hl)
      (rw len (IndexedFrom-append (base + n) es _ he behind))

pub length-merged :
    (n : ℕ) (logs es : List LogEntry)
    → n ≤ length logs
    → length (take n logs ++ (es ++ drop (length es) (drop n logs)))
      ≡ max (length logs) (n + length es)
length-merged n logs es fits = omega (
  arith,
  length-append (take n logs) (es ++ drop (length es) (drop n logs)),
  length-append es (drop (length es) (drop n logs)),
  length-take_of_le n logs fits,
  length-drop (length es) (drop n logs),
  length-drop n logs,
)

-- ===== src/Raft/Exchange/Merged.antt =====
-- What the loop over a message's entries leaves in a follower's log.
use my_kv_storage_base_raft.Common.{
  ◌==◌, if◌then◌else◌, ℕ, ◌+◌, ◌-◌, ◌≤◌, ◌≡◌, ◌⊎◌, inl, inr, Bool-cases, Option-cases, Among,
  Among-append, Among-set, length, length-append, length-set, set, List, [], ◌∷◌, ◌++◌, arith, ltb,
  leb, ℤ, pos, negsuc, get_elem?,
}
use my_kv_storage_base_raft.Raft.Types.{ok, LogEntry, >>=-returns}
use my_kv_storage_base_raft.Raft.Append.{overwrite, overwrite_at, merge_entry, merge_entries}

-- The log is not shorter, and its entries were there or are new ones.
pub record Merges (new : LogEntry → Type 0) (logs logs' : List LogEntry) : Type 0 where
  pub entries : (e : LogEntry) → Among logs' e → Among logs e ⊎ new e
  pub longer : length logs ≤ length logs'

pub Merges-self : (new : LogEntry → Type 0) (logs : List LogEntry) → Merges new logs logs
Merges-self new logs = record { entries = λ e m. inl m; longer = omega arith }

overwrite-Merges :
    (logs : List LogEntry) (i : ℕ) (log local : LogEntry) {logs' : List LogEntry}
    → overwrite logs i log local ≡ ok logs'
    → Merges (λ e. e ≡ log) logs logs'
unfolding overwrite
overwrite-Merges logs i log local {logs'} h = elim (Bool-cases (local.log_term == log.log_term)) [
  | inl same ↦ let e : logs' ≡ logs = ground arith in rw e (Merges-self (λ e. e ≡ log) logs)
  | inr differs ↦
      let e : logs' ≡ set logs i log = ground arith in
      rw e
        (record { entries = Among-set logs i log; longer = omega (arith, length-set logs i log) })
]

overwrite_at-Merges :
    (logs : List LogEntry) (log : LogEntry) (i : ℤ) {logs' : List LogEntry}
    → overwrite_at logs log i ≡ ok logs'
    → Merges (λ e. e ≡ log) logs logs'
overwrite_at-Merges logs log (negsuc i) h = cc h
overwrite_at-Merges logs log (pos i) h = elim (Option-cases (get_elem? logs i)) [
  | inl e ↦ cc (rw (overwrite_at, e) at h)
  | inr (local, e) ↦ overwrite-Merges logs i log local (rw (overwrite_at, e) at h)
]

merge_entry-Merges :
    (base : ℕ) (logs : List LogEntry) (log : LogEntry) {logs' : List LogEntry}
    → merge_entry base logs log ≡ ok logs'
    → Merges (λ e. e ≡ log) logs logs'
unfolding merge_entry
merge_entry-Merges base logs log {logs'} h =
    elim (Bool-cases (ltb (base + length logs) log.log_index)) [
      | inl behind ↦
          let e : logs' ≡ logs ++ log ∷ [] = ground arith in
          rw e (record {
            entries = λ e m. elim (Among-append logs (log ∷ []) e m) [
              | inl old ↦ inl old
              | inr (inl new) ↦ inr new
              | inr (inr none) ↦ absurd none
            ];
            longer = omega (arith, length-append logs (log ∷ []));
          })
      | inr inside ↦
          overwrite_at-Merges logs log
            (if leb log.log_index base then negsuc 0 else pos (log.log_index - base - 1))
            (rw inside at h)
    ]

pub merge_entries-Merges :
    (base : ℕ) (logs new : List LogEntry) {logs' : List LogEntry}
    → merge_entries base logs new ≡ ok logs'
    → Merges (Among new) logs logs'
unfolding merge_entries
merge_entries-Merges base logs [] {logs'} h =
    let e : logs' ≡ logs = ground arith in rw e (Merges-self (Among []) logs)
merge_entries-Merges base logs (log ∷ rest) h =
    let (middle, e, e') =
      >>=-returns (merge_entry base logs log) (λ logs'. merge_entries base logs' rest) h in
    let first = merge_entry-Merges base logs log e in
    let later = merge_entries-Merges base middle rest e' in
    record {
      entries = λ e m. elim (later.entries e m) [
        | inr new ↦ inr (inr new)
        | inl here ↦ elim (first.entries e here) [ inl old ↦ inl old | inr new ↦ inr (inl new) ]
      ];
      longer = omega (arith, first.longer, later.longer);
    }

-- ===== src/Raft/Log.antt =====
-- The queries of Raft.cpp on a node's log: global indices count from the snapshot, whose last entry
-- has index `last_snapshot_include_index`; `logs` holds what follows it.
pub mod Shape
use my_kv_storage_base_raft.Common.{
  ℕ, ◌+◌, ◌-◌, Bool, true, false, ℤ, pos, negsuc, minus_one, eq_ℤ, Option, none, some, List, [],
  ◌∷◌, ltb, leb, ◌==◌, not, ◌||◌, if◌then◌else◌, length, get_elem?,
}
use my_kv_storage_base_raft.Raft.Types.{LogEntry}
use my_kv_storage_base_raft.Raft.State.{Raft}
use my_kv_storage_base_raft.Raft.Persister.{raft_state_size}

-- The slice index of a global index, -1 for what the snapshot has swallowed.
unfoldable pub get_slices_index_from_log_index : Raft → ℕ → ℤ
get_slices_index_from_log_index s log_index =
    if leb log_index s.last_snapshot_include_index
    then minus_one
    else pos (log_index - s.last_snapshot_include_index - 1)

unfoldable pub get_last_log_index : Raft → ℕ
get_last_log_index s = s.last_snapshot_include_index + length s.logs

-- `m_logs.back().logterm()`, or the snapshot's term.
unfoldable pub last_term_or : ℕ → List LogEntry → ℕ
last_term_or t [] = t
last_term_or t (e ∷ es) = last_term_or e.log_term es

unfoldable pub get_last_log_term : Raft → ℕ
unfolding last_term_or
get_last_log_term s = last_term_or s.last_snapshot_include_term s.logs

-- `m_logs[i].logterm()`, or -1 outside the vector.
abbrev pub term_at : List LogEntry → ℤ → ℤ
term_at logs (negsuc i) = minus_one
term_at logs (pos i) = elim (get_elem? logs i) [ none ↦ minus_one | some e ↦ pos e.log_term ]

unfoldable pub get_log_term_from_log_index : Raft → ℕ → ℤ
unfolding get_slices_index_from_log_index
get_log_term_from_log_index s log_index =
    if log_index == s.last_snapshot_include_index
    then pos s.last_snapshot_include_term
    else if ltb log_index s.last_snapshot_include_index
    then minus_one
    else term_at s.logs (get_slices_index_from_log_index s log_index)

-- `UPtodata`: a candidate's last entry is at least as recent as the node's own.
unfoldable pub up_to_data : Raft → ℕ → ℕ → Bool
unfolding get_last_log_index get_last_log_term
up_to_data s index term =
    if not (term == get_last_log_term s)
    then ltb (get_last_log_term s) term
    else leb (get_last_log_index s) index

abbrev pub has_term_at : List LogEntry → ℤ → ℤ → Bool
has_term_at logs (negsuc i) t = false
has_term_at logs (pos i) t = elim (get_elem? logs i) [
  | none ↦ false
  | some e ↦ eq_ℤ (pos e.log_term) t
]

unfoldable pub match_log : Raft → ℕ → ℤ → Bool
unfolding get_last_log_index get_slices_index_from_log_index
match_log s log_index log_term =
    if log_index == s.last_snapshot_include_index
    then eq_ℤ log_term (pos s.last_snapshot_include_term)
    else if ltb log_index s.last_snapshot_include_index || ltb (get_last_log_index s) log_index
    then false
    else has_term_at s.logs (get_slices_index_from_log_index s log_index) log_term

pub get_raft_state_size : Raft → ℕ
get_raft_state_size s = raft_state_size s.persister

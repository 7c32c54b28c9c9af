-- ===== src/Raft/Append.antt =====
-- `AppendEntries1` of Raft.cpp: the follower's side of replication.
pub mod Merge
pub mod BackOff
pub mod Accept
pub mod Heartbeat
use my_kv_storage_base_raft.Common.{
  ℕ, zero, suc, ◌+◌, ◌-◌, min, Bool, true, false, not, ◌&&◌, ℤ, pos, negsuc, eq_ℤ, Option, none,
  some, List, [], ◌∷◌, ◌++◌, ltb, leb, ◌==◌, if◌then◌else◌, length, get_elem?, set, eq_bytes,
}
use my_kv_storage_base_raft.Raft.Types.{
  Result, ok, err, assert_failed, out_of_bounds, ◌>>=◌, LogEntry, follower, AppendEntriesArgs,
  AppendEntriesReply,
}
use my_kv_storage_base_raft.Raft.State.{Raft, Archive}
use my_kv_storage_base_raft.Raft.Log.{
  get_slices_index_from_log_index, get_last_log_index, get_log_term_from_log_index, match_log,
}
use my_kv_storage_base_raft.Raft.Persist.{persist}
use my_kv_storage_base_raft.Raft.Vote.{adopt_term}

abbrev pub app_normal : ℕ
app_normal = 1

-- The mark -100 of a reply that gives no next index.
abbrev pub no_next_index : ℤ
no_next_index = negsuc 99

abbrev pub append_reply : ℕ → Bool → ℤ → AppendEntriesReply
append_reply term success next = record {
  term = term;
  success = success;
  update_next_index = next;
  app_state = app_normal;
}

-- An entry of the leader against the local one in its place.
unfoldable pub overwrite : List LogEntry → ℕ → LogEntry → LogEntry → Result (List LogEntry)
overwrite logs i log local =
    if local.log_term == log.log_term && not (eq_bytes local.command log.command)
    then err assert_failed
    else if not (local.log_term == log.log_term)
    then ok (set logs i log)
    else ok logs

abbrev pub overwrite_at : List LogEntry → LogEntry → ℤ → Result (List LogEntry)
overwrite_at logs log (negsuc i) = err out_of_bounds
overwrite_at logs log (pos i) = elim (get_elem? logs i) [
  | none ↦ err out_of_bounds
  | some local ↦ overwrite logs i log local
]

-- One round of the loop over the entries, on a log that follows the index `base`.
unfoldable pub merge_entry : ℕ → List LogEntry → LogEntry → Result (List LogEntry)
unfolding overwrite
merge_entry base logs log =
    if ltb (base + length logs) log.log_index
    then ok (logs ++ log ∷ [])
    else overwrite_at logs log
        (if leb log.log_index base then negsuc 0 else pos (log.log_index - base - 1))

unfoldable pub merge_entries : ℕ → List LogEntry → List LogEntry → Result (List LogEntry)
unfolding merge_entry
merge_entries base logs [] = ok logs
merge_entries base logs (log ∷ rest) =
    merge_entry base logs log >>= λ logs'. merge_entries base logs' rest

-- The loop that looks for the first index, from `index` down, with another term.
unfoldable pub back_off_from : Raft → ℕ → ℕ → Option ℕ
back_off_from s prev zero =
    if leb s.last_snapshot_include_index 0
      && not (eq_ℤ (get_log_term_from_log_index s 0) (get_log_term_from_log_index s prev))
    then some 1
    else none
back_off_from s prev (suc i) =
    let rest = back_off_from s prev i in
    if leb s.last_snapshot_include_index (suc i)
    then (if not (eq_ℤ (get_log_term_from_log_index s (suc i)) (get_log_term_from_log_index s prev))
        then some (suc i + 1)
        else rest)
    else none

unfoldable pub back_off : Raft → ℕ → ℕ
unfolding back_off_from
back_off s prev = elim (back_off_from s prev prev) [ none ↦ prev | some next ↦ next ]

-- The branch in which the entry before the new ones matches; the entries are merged already.
unfoldable pub accept : Archive → Raft → AppendEntriesArgs → Result (Raft × AppendEntriesReply)
accept ar s args =
    if not (leb (args.prev_log_index + length args.entries) (get_last_log_index s))
    then err assert_failed
    else let s' =
        if ltb s.commit_index args.leader_commit
        then record s { commit_index = min args.leader_commit (get_last_log_index s) }
        else s in
      if not (leb s'.commit_index (get_last_log_index s'))
      then err assert_failed
      else ok (persist ar s', append_reply s'.current_term true (pos 0))

-- The part under the guard that saves on return, for a node in the term of the message.
unfoldable pub append_current :
    Archive → Raft → AppendEntriesArgs → Result (Raft × AppendEntriesReply)
append_current ar s args =
    if ltb (get_last_log_index s) args.prev_log_index
    then ok (persist ar s, append_reply s.current_term false (pos (get_last_log_index s + 1)))
    else if ltb args.prev_log_index s.last_snapshot_include_index
    then ok
        (persist ar s, append_reply s.current_term false (pos (s.last_snapshot_include_index + 1)))
    else if match_log s args.prev_log_index args.prev_log_term
    then (merge_entries s.last_snapshot_include_index s.logs args.entries >>= λ logs.
        accept ar (record s { logs = logs }) args)
    else ok (persist ar s, append_reply s.current_term false (pos (back_off s args.prev_log_index)))

unfoldable pub append_entries1 :
    Archive → Raft → AppendEntriesArgs → ℕ → Result (Raft × AppendEntriesReply)
unfolding adopt_term
append_entries1 ar s args now =
    if ltb args.term s.current_term
    then ok (s, append_reply s.current_term false no_next_index)
    else let s' = adopt_term s args.term in
      if args.term == s'.current_term
      then append_current ar (record s' { status = follower; last_reset_election_time = now }) args
      else err assert_failed

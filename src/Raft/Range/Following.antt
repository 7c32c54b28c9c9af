-- ===== src/Raft/Range/Following.antt =====
-- The indices of a node through the messages of a leader.
use my_kv_storage_base_raft.Common.{
  ℕ, ◌+◌, ◌≤◌, ◌≡◌, ap, inl, inr, List, arith, ltb, Bool-cases, length,
}
use my_kv_storage_base_raft.Raft.Types.{
  ok, LogEntry, AppendEntriesArgs, AppendEntriesReply, InstallSnapshotRequest, >>=-returns,
}
use my_kv_storage_base_raft.Raft.State.{Raft, Archive}
use my_kv_storage_base_raft.Raft.Log.{get_last_log_index, match_log}
use my_kv_storage_base_raft.Raft.Persist.{persist, persist_snapshot}
use my_kv_storage_base_raft.Raft.Vote.{step_down}
use my_kv_storage_base_raft.Raft.Append.{append_entries1, append_current, accept, merge_entries}
use my_kv_storage_base_raft.Raft.Append.Accept.{entered}
use my_kv_storage_base_raft.Raft.Snapshot.{install_snapshot1, advance_snapshot}
use my_kv_storage_base_raft.Raft.History.Handlers.{append_entries1-later, append_entries1-stale}
use my_kv_storage_base_raft.Raft.Exchange.Merged.{merge_entries-Merges}
use my_kv_storage_base_raft.Raft.Range.{IsInRange, step-IsInRange, same-IsInRange}

module _ (ar : Archive) (s : Raft) (r : IsInRange s) where
  accept-IsInRange :
      (logs : List LogEntry) (args : AppendEntriesArgs) {t : Raft} {reply : AppendEntriesReply}
      → length s.logs ≤ length logs
      → accept ar (record s { logs = logs }) args ≡ ok (t, reply)
      → IsInRange t
  unfolding accept persist get_last_log_index
  accept-IsInRange logs args {t} longer h =
      let new : t.logs ≡ logs = ground arith in
      let place : t.last_snapshot_include_index ≡ s.last_snapshot_include_index = ground arith in
      let applied : t.last_applied ≡ s.last_applied = ground arith in
      let committed : t.commit_index ≤ t.last_snapshot_include_index + length t.logs =
        ground arith in
      step-IsInRange s t r place applied (omega (arith, place, ap length new, longer))
        (inr committed)

  append_current-IsInRange :
      (args : AppendEntriesArgs) {t : Raft} {reply : AppendEntriesReply}
      → append_current ar s args ≡ ok (t, reply)
      → IsInRange t
  unfolding append_current persist
  append_current-IsInRange args {t} {reply} h =
      elim (Bool-cases (ltb (get_last_log_index s) args.prev_log_index)) [
        | inl past ↦
            same-IsInRange s t r (ground arith) (ground arith) (ground arith) (ground arith)
        | inr inside ↦ elim (Bool-cases (ltb args.prev_log_index s.last_snapshot_include_index)) [
          | inl before ↦
              same-IsInRange s t r (ground arith) (ground arith) (ground arith) (ground arith)
          | inr above ↦ elim (Bool-cases (match_log s args.prev_log_index args.prev_log_term)) [
            | inr no_match ↦
                same-IsInRange s t r (ground arith) (ground arith) (ground arith) (ground arith)
            | inl match ↦
                let (logs, e, e') =
                  >>=-returns (merge_entries s.last_snapshot_include_index s.logs args.entries)
                    (λ logs. accept ar (record s { logs = logs }) args)
                    (rw (inside, above, match) at h) in
                let m = merge_entries-Merges s.last_snapshot_include_index s.logs args.entries e in
                accept-IsInRange logs args m.longer e'
          ]
        ]
      ]

  pub install_snapshot1-IsInRange :
      (request : InstallSnapshotRequest) → IsInRange (install_snapshot1 ar s request).0
  unfolding install_snapshot1 persist persist_snapshot advance_snapshot step_down get_last_log_index
  install_snapshot1-IsInRange request = record {
    snapshot = ground (arith, r.snapshot);
    applied = ground (arith, r.applied);
    committed = ground (arith, r.committed);
  }

pub append_entries1-IsInRange :
    (ar : Archive) (s : Raft) (args : AppendEntriesArgs) (now : ℕ) {t : Raft}
    {reply : AppendEntriesReply}
    → IsInRange s
    → append_entries1 ar s args now ≡ ok (t, reply)
    → IsInRange t
unfolding get_last_log_index
append_entries1-IsInRange ar s args now {t} r h = elim (Bool-cases (ltb args.term s.current_term)) [
  | inl stale ↦ rw (append_entries1-stale ar s args now stale h) r
  | inr later ↦
      append_current-IsInRange ar (entered s args now)
        (record { snapshot = r.snapshot; applied = r.applied; committed = r.committed }) args
        (rw (append_entries1-later ar s args now later) at h)
]

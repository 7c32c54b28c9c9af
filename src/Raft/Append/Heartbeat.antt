-- ===== src/Raft/Append/Heartbeat.antt =====
-- What a heartbeat, which carries no entries, does to the commit index.
use my_kv_storage_base_raft.Common.{
  ℕ, ◌-◌, ◌<◌, ◌≤◌, ◌≡◌, refl, ap, ◌∙◌, true, pos, List, [], arith, ltb, min, take-append-drop,
}
use my_kv_storage_base_raft.Raft.Types.{Result, AppendEntriesReply, ok, LogEntry, AppendEntriesArgs}
use my_kv_storage_base_raft.Raft.State.{Raft, Archive}
use my_kv_storage_base_raft.Raft.Log.{get_last_log_index}
use my_kv_storage_base_raft.Raft.Persist.{persist}
use my_kv_storage_base_raft.Raft.Append.{append_entries1, append_reply}
use my_kv_storage_base_raft.Raft.Append.Accept.{
  entered, merged, Fits, next_commit, append_entries1-accepts,
}

merged-heartbeat :
    (s : Raft) (args : AppendEntriesArgs) → args.entries ≡ [] → merged s args ≡ s.logs
merged-heartbeat s args h =
    let n = args.prev_log_index - s.last_snapshot_include_index in rw h (take-append-drop n s.logs)

next_commit-heartbeat :
    (s : Raft) (args : AppendEntriesArgs)
    → args.entries ≡ []
    → s.commit_index < args.leader_commit
    → next_commit s args ≡ min args.leader_commit (get_last_log_index s)
unfolding get_last_log_index
next_commit-heartbeat s args h behind =
    let e : ltb s.commit_index args.leader_commit ≡ true = ground arith in
    rw (e, merged-heartbeat s args h) refl

-- A heartbeat that fits, from a leader whose commit index is ahead, keeps the follower's log and
-- moves its commit index to the leader's or to the follower's own last index, whichever is less:
-- the index of the previous entry, up to which the logs were compared, is no bound.
pub append_entries1-heartbeat :
    (ar : Archive) (s : Raft) (args : AppendEntriesArgs) (now : ℕ)
    → s.current_term ≤ args.term
    → Fits s args
    → args.entries ≡ []
    → s.commit_index < args.leader_commit
    → append_entries1 ar s args now
      ≡ ok (
        persist ar (record (entered s args now) {
          commit_index = min args.leader_commit (get_last_log_index s);
        }),
        append_reply args.term true (pos 0),
      )
append_entries1-heartbeat ar s args now current f h behind =
    let answer : List LogEntry → ℕ → Result (Raft × AppendEntriesReply) = λ logs commit. ok (
      persist ar (record (entered s args now) { logs = logs; commit_index = commit }),
      append_reply args.term true (pos 0),
    ) in
    append_entries1-accepts ar s args now current f
    ∙ ap (λ logs. answer logs (next_commit s args)) (merged-heartbeat s args h)
    ∙ ap (answer s.logs) (next_commit-heartbeat s args h behind)

-- ===== src/Raft/Append/Accept.antt =====
-- What a follower does with a message of a current leader, on every branch of `AppendEntries1`.
use my_kv_storage_base_raft.Common.{
  ℕ, ap, ◌∙◌, Bool-cases, inl, inr, ◌+◌, ◌-◌, ◌≤◌, ◌≡◌, true, false, minus_one, pos, List, ◌++◌,
  arith, ltb, min, if◌then◌else◌, length, take, drop,
}
use my_kv_storage_base_raft.Raft.Types.{ok, LogEntry, follower, AppendEntriesArgs}
use my_kv_storage_base_raft.Raft.State.{Raft, Archive}
use my_kv_storage_base_raft.Raft.Log.{get_last_log_index, match_log}
use my_kv_storage_base_raft.Raft.Log.Shape.{IndexedFrom, IsIndexed}
use my_kv_storage_base_raft.Raft.Persist.{persist}
use my_kv_storage_base_raft.Raft.Append.{append_entries1, append_current, append_reply, accept}
use my_kv_storage_base_raft.Raft.Append.Merge.{Agree, merge_entries_lem, length-merged}

-- The node once it is a follower in the message's term.
abbrev pub entered : Raft → AppendEntriesArgs → ℕ → Raft
entered s args now = record s {
  status = follower;
  current_term = args.term;
  voted_for = if ltb s.current_term args.term then minus_one else s.voted_for;
  last_reset_election_time = now;
}

pub append_entries1-entered :
    (ar : Archive) (s : Raft) (args : AppendEntriesArgs) (now : ℕ)
    → s.current_term ≤ args.term
    → append_entries1 ar s args now ≡ append_current ar (entered s args now) args
unfolding append_entries1
append_entries1-entered ar s args now h = elim (Bool-cases (ltb s.current_term args.term)) [
  | inl later ↦ ground arith
  | inr same ↦
      let e : s.current_term ≡ args.term = ground arith in
      ground (
        arith,
        ap
            (λ t.
              append_current ar
                (record s { status = follower; current_term = t; last_reset_election_time = now })
                args)
            e,
      )
]

-- The log after a message that fits: as many old entries replaced as new ones came.
abbrev pub merged : Raft → AppendEntriesArgs → List LogEntry
merged s args =
    let n = args.prev_log_index - s.last_snapshot_include_index in
    take n s.logs ++ (args.entries ++ drop (length args.entries) (drop n s.logs))

-- The message fits: its previous entry is in the log, and its entries follow that one and clash
-- with no local command.
pub record Fits (s : Raft) (args : AppendEntriesArgs) : Type 0 where
  pub above_snapshot : s.last_snapshot_include_index ≤ args.prev_log_index
  pub inside : args.prev_log_index ≤ get_last_log_index s
  pub matches : match_log s args.prev_log_index args.prev_log_term ≡ true
  pub indexed : IsIndexed s
  pub contiguous : IndexedFrom args.prev_log_index args.entries
  pub agree : Agree (drop (args.prev_log_index - s.last_snapshot_include_index) s.logs) args.entries
  pub committed : s.commit_index ≤ get_last_log_index s

-- The commit index that the node moves to.
abbrev pub next_commit : Raft → AppendEntriesArgs → ℕ
next_commit s args =
    if ltb s.commit_index args.leader_commit
    then min args.leader_commit (s.last_snapshot_include_index + length (merged s args))
    else s.commit_index

accept-lem :
    (ar : Archive) (s : Raft) (args : AppendEntriesArgs)
    → args.prev_log_index + length args.entries ≤ get_last_log_index s
    → s.commit_index ≤ get_last_log_index s
    → accept ar s args
      ≡ ok (
        persist ar (record s {
          commit_index =
              if ltb s.commit_index args.leader_commit
              then min args.leader_commit (get_last_log_index s)
              else s.commit_index;
        }),
        append_reply s.current_term true (pos 0),
      )
unfolding accept get_last_log_index
accept-lem ar s args long low = ground arith

append_current-Fits :
    (ar : Archive) (s : Raft) (args : AppendEntriesArgs)
    → Fits s args
    → append_current ar s args
      ≡ ok (
        persist ar (record s { logs = merged s args; commit_index = next_commit s args }),
        append_reply s.current_term true (pos 0),
      )
unfolding append_current get_last_log_index
append_current-Fits ar s args f =
    let n = args.prev_log_index - s.last_snapshot_include_index in
    let place : s.last_snapshot_include_index + n ≡ args.prev_log_index =
      omega (arith, f.above_snapshot) in
    let below : n ≤ length s.logs = omega (arith, f.inside) in
    let not_past : ltb (get_last_log_index s) args.prev_log_index ≡ false =
      ground (arith, f.inside) in
    let not_before : ltb args.prev_log_index s.last_snapshot_include_index ≡ false =
      ground (arith, f.above_snapshot) in
    rw
      (
        not_past,
        not_before,
        f.matches,
        merge_entries_lem s.last_snapshot_include_index n s.logs args.entries below f.indexed
            (rw place f.contiguous) f.agree,
      )
      (accept-lem ar (record s { logs = merged s args }) args
        (omega (arith, length-merged n s.logs args.entries below, place))
        (omega (arith, length-merged n s.logs args.entries below, f.committed)))

entered-Fits :
    (s : Raft) (args : AppendEntriesArgs) (now : ℕ) → Fits s args → Fits (entered s args now) args
unfolding match_log get_last_log_index
entered-Fits s args now f = record {
  above_snapshot = f.above_snapshot;
  inside = f.inside;
  matches = f.matches;
  indexed = f.indexed;
  contiguous = f.contiguous;
  agree = f.agree;
  committed = f.committed;
}

-- A follower that gets a message that fits, in its term or a later one, stores the entries of the
-- message in their places, keeps what lies behind them, saves its state, and reports success in the
-- message's term. Its commit index moves to the smaller of the leader's and of its own last index
-- where the leader's is above it, and stays where it is not.
pub append_entries1-accepts :
    (ar : Archive) (s : Raft) (args : AppendEntriesArgs) (now : ℕ)
    → s.current_term ≤ args.term
    → Fits s args
    → append_entries1 ar s args now
      ≡ ok (
        persist ar (record (entered s args now) {
          logs = merged s args;
          commit_index = next_commit s args;
        }),
        append_reply args.term true (pos 0),
      )
append_entries1-accepts ar s args now h f =
    append_entries1-entered ar s args now h
    ∙ append_current-Fits ar (entered s args now) args (entered-Fits s args now f)

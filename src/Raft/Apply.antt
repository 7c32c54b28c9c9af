-- ===== src/Raft/Apply.antt =====
-- A round of `applierTicker` of Raft.cpp, and the queries of the state machine above: `GetState`,
-- `GetCommitIndex`, `GetLeaderInfo`, `ReadIndex1`, and the test in `WaitApplyDone`.
pub mod InOrder
use my_kv_storage_base_raft.Common.{
  ℕ, zero, suc, ◌+◌, ◌-◌, Bool, true, false, ℤ, pos, negsuc, minus_one, Option, none, some, List,
  [], ◌∷◌, ◌++◌, ltb, leb, if◌then◌else◌, get_elem?,
}
use my_kv_storage_base_raft.Raft.Types.{
  Result, ok, err, out_of_bounds, ◌>>=◌, is_leader, LogEntry, ApplyMsg, ReadIndexResponse,
}
use my_kv_storage_base_raft.Raft.State.{Raft}
use my_kv_storage_base_raft.Raft.Log.{get_last_log_index, get_slices_index_from_log_index}

abbrev pub entry_at : List LogEntry → ℤ → Option LogEntry
entry_at logs (negsuc i) = none
entry_at logs (pos i) = get_elem? logs i

abbrev pub message_of : ℕ → Option LogEntry → Result ApplyMsg
message_of index none = err out_of_bounds
message_of index (some e) = ok (record { command_valid = true; index = index; command = e.command })

-- The message for one index; `m_logs` is read without a test of the slice index.
unfoldable pub apply_msg : Raft → ℕ → Result ApplyMsg
unfolding get_slices_index_from_log_index
apply_msg s index = message_of index (entry_at s.logs (get_slices_index_from_log_index s index))

-- The messages of `n` rounds of the inner loop, which begins behind the index `applied`.
unfoldable pub apply_msgs : Raft → ℕ → ℕ → Result (List ApplyMsg)
unfolding apply_msg
apply_msgs s applied zero = ok []
apply_msgs s applied (suc n) =
    apply_msg s (suc applied) >>= λ msg. apply_msgs s (suc applied) n >>= λ msgs. ok (msg ∷ msgs)

-- `pushMsgToKVserver`, for each message in turn.
unfoldable pub push_msgs : Option (List ApplyMsg) → List ApplyMsg → Option (List ApplyMsg)
push_msgs none msgs = none
push_msgs (some queue) msgs = some (queue ++ msgs)

-- `while (m_lastApplied < m_commitIndex)` makes as many rounds as there are committed entries to
-- apply.
unfoldable pub applier_round : Raft → Result Raft
unfolding apply_msgs push_msgs
applier_round s = apply_msgs s s.last_applied (s.commit_index - s.last_applied) >>= λ msgs.
    ok (record s {
      last_applied = if ltb s.last_applied s.commit_index then s.commit_index else s.last_applied;
      apply_chan = push_msgs s.apply_chan msgs;
    })

unfoldable pub get_state : Raft → ℕ × Bool
get_state s = (s.current_term, is_leader s.status)

unfoldable pub get_commit_index : Raft → ℕ
get_commit_index s = s.commit_index

-- The leader's id, -1 on any other node.
unfoldable pub get_leader_info : Raft → ℤ
get_leader_info s = if is_leader s.status then pos s.me else minus_one

unfoldable pub read_index1 : Raft → ReadIndexResponse
read_index1 s = record {
  term = s.current_term;
  commit_index = s.commit_index;
  is_leader = is_leader s.status;
}

-- What `WaitApplyDone` waits for.
unfoldable pub is_apply_done : Raft → Bool
is_apply_done s = leb (get_last_log_index s) s.last_applied

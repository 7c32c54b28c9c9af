-- ===== src/Raft/Heartbeat.antt =====
-- `doHeartBeat` of Raft.cpp and the two messages that it starts threads for.
use my_kv_storage_base_raft.Common.{ℕ, suc, ◌-◌, List, [], ◌∷◌, ltb, leb, ◌==◌, if◌then◌else◌}
use my_kv_storage_base_raft.Raft.Types.{is_leader, AppendEntriesArgs, InstallSnapshotRequest}
use my_kv_storage_base_raft.Raft.State.{Raft}
use my_kv_storage_base_raft.Raft.Log.{get_log_term_from_log_index}

-- What a thread that was started sends to its peer.
pub data Outgoing : Type 0 where
  append : AppendEntriesArgs → Outgoing
  snapshot : InstallSnapshotRequest → Outgoing

-- `startLogEntriesSendThread`: a heartbeat carries no entries.
unfoldable pub heart_beat_args : Raft → ℕ → AppendEntriesArgs
heart_beat_args s next = record {
  term = s.current_term;
  leader_id = s.me;
  prev_log_index = next - 1;
  prev_log_term = get_log_term_from_log_index s (next - 1);
  entries = [];
  leader_commit = s.commit_index;
  batch_id = 0;
}

-- `startSnapshotSendThread` and the request that `leaderSendSnapShot` builds, where the term does
-- not change in between.
unfoldable pub snapshot_request : Raft → InstallSnapshotRequest
snapshot_request s = record {
  leader_id = s.me;
  term = s.current_term;
  last_snapshot_include_index = s.last_snapshot_include_index;
  last_snapshot_include_term = s.last_snapshot_include_term;
  snapshot_data = s.persister.snapshot;
}

-- The guard on `m_nextIndex`.
abbrev pub at_least_first : ℕ → ℕ
at_least_first next = if ltb next 1 then 1 else next

unfoldable pub message_for : Raft → ℕ → Outgoing
unfolding heart_beat_args snapshot_request
message_for s next =
    if leb next s.last_snapshot_include_index
    then snapshot (snapshot_request s)
    else append (heart_beat_args s next)

-- The loop over the peers, from the `i`-th on: the corrected next indices and the messages.
unfoldable pub heart_beats : Raft → ℕ → List ℕ → List ℕ × List (ℕ × Outgoing)
unfolding message_for
heart_beats s i [] = ([], [])
heart_beats s i (next ∷ nexts) =
    let rest = heart_beats s (suc i) nexts in
    if i == s.me
    then (next ∷ rest.0, rest.1)
    else (at_least_first next ∷ rest.0, (i, message_for s (at_least_first next)) ∷ rest.1)

unfoldable pub do_heart_beat : Raft → ℕ → Raft × List (ℕ × Outgoing)
unfolding heart_beats
do_heart_beat s now =
    if is_leader s.status
    then (let round = heart_beats s 0 s.next_index in
        (record s { next_index = round.0; last_reset_hear_beat_time = now }, round.1))
    else (s, [])

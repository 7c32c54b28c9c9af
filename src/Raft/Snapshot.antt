-- ===== src/Raft/Snapshot.antt =====
-- Snapshots in Raft.cpp: `InstallSnapshot1` at the follower, and the answer to
-- `leaderSendSnapShot` at the leader.
pub mod Install
use my_kv_storage_base_raft.Common.{ℕ, ◌+◌, Option, none, some, ltb, if◌then◌else◌, set}
use my_kv_storage_base_raft.Raft.Types.{InstallSnapshotRequest}
use my_kv_storage_base_raft.Raft.State.{Raft, Archive}
use my_kv_storage_base_raft.Raft.Persist.{persist, persist_snapshot}
use my_kv_storage_base_raft.Raft.Vote.{step_down}
use my_kv_storage_base_raft.Raft.Replicate.{leader_update_commit_index}

-- The snapshot point moves forward only; the log itself is left as it is.
unfoldable pub advance_snapshot : Raft → ℕ → ℕ → Raft
advance_snapshot s index term =
    if ltb s.last_snapshot_include_index index
    then record s {
      last_snapshot_include_index = index;
      last_snapshot_include_term = term;
      commit_index = if ltb s.commit_index index then index else s.commit_index;
      last_applied = if ltb s.last_applied index then index else s.last_applied;
    }
    else s

-- The result is the node and the term of the reply.
unfoldable pub install_snapshot1 : Archive → Raft → InstallSnapshotRequest → Raft × ℕ
unfolding step_down advance_snapshot
install_snapshot1 ar s request =
    if ltb request.term s.current_term
    then (s, s.current_term)
    else let s' =
        if ltb s.current_term request.term then persist ar (step_down s request.term) else s in
      let s'' =
        persist_snapshot ar
          (advance_snapshot s' request.last_snapshot_include_index
            request.last_snapshot_include_term)
          request.snapshot_data in
      (s'', s''.current_term)

-- `leaderSendSnapShot` from the reply's term on, `none` where the call failed; the counter of the
-- heartbeat goes up.
unfoldable pub snapshot_response : Archive → Raft → ℕ → ℕ → Option ℕ → ℕ → Raft × ℕ
unfolding step_down leader_update_commit_index
snapshot_response ar s peer snapshot_index none nums = (s, nums)
snapshot_response ar s peer snapshot_index (some term) nums =
    if ltb s.current_term term then (persist ar (step_down s term), nums) else (
      leader_update_commit_index (record s {
        next_index = set s.next_index peer (snapshot_index + 1);
        match_index = set s.match_index peer snapshot_index;
      }),
      nums + 1,
    )

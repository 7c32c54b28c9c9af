-- ===== src/Raft/Replicate.antt =====
-- The leader's side of replication in Raft.cpp: `sendAppendEntries` and its six parts, and
-- `leaderUpdateCommitIndex`. A reply is `none` where the call failed; `nums` is the counter that
-- the calls of one heartbeat share, and that a batch has for itself.
pub mod Commit
pub mod Quorum
use my_kv_storage_base_raft.Common.{
  ℕ, zero, suc, ◌+◌, max, Bool, true, false, not, ◌&&◌, minus_one, pos, negsuc, ℤ, eq_ℤ, Option,
  none, some, List, [], ◌∷◌, ltb, leb, ◌==◌, if◌then◌else◌, length, get_or, set, take, modify,
}
use my_kv_storage_base_raft.Raft.Types.{
  Result, ok, err, assert_failed, ◌>>=◌, is_leader, LogEntry, AppendEntriesArgs, AppendEntriesReply,
  PipelineBatch, PeerPipelineState,
}
use my_kv_storage_base_raft.Raft.State.{Raft, Archive}
use my_kv_storage_base_raft.Raft.Log.{get_last_log_index, get_log_term_from_log_index}
use my_kv_storage_base_raft.Raft.Persist.{persist}
use my_kv_storage_base_raft.Raft.Vote.{step_down, majority}
use my_kv_storage_base_raft.Raft.Append.{no_next_index}

abbrev pub disconnected : ℕ
disconnected = 0

-- `handleTermMismatch`; true ends the handling of the reply.
unfoldable pub handle_term_mismatch : Archive → Raft → ℕ → Raft × Bool
unfolding step_down
handle_term_mismatch ar s reply_term =
    if ltb s.current_term reply_term
    then (persist ar (step_down s reply_term), true)
    else if ltb reply_term s.current_term
    then (s, true)
    else (s, false)

-- The lower bound 1 on a proposed next index.
abbrev at_least_one : ℤ → ℕ
at_least_one (negsuc n) = 1
at_least_one (pos n) = if ltb n 1 then 1 else n

-- `handleLogMismatch`
unfoldable pub handle_log_mismatch : Raft → ℕ → AppendEntriesReply → Raft
handle_log_mismatch s peer reply =
    if not (eq_ℤ reply.update_next_index no_next_index)
    then (let next = at_least_one reply.update_next_index in
        record s {
          next_index = set s.next_index peer (
              if leb next s.last_snapshot_include_index
              then s.last_snapshot_include_index + 1
              else next);
        })
    else s

-- The batches that an index does not settle.
unfoldable pub unsettled : ℕ → List PipelineBatch → List PipelineBatch
unsettled up_to [] = []
unsettled up_to (b ∷ bs) =
    let rest = unsettled up_to bs in if leb b.last_index up_to then rest else b ∷ rest

-- `slidePipelineWindow`, called by `handlePipelineResponse`.
unfoldable pub slide_pipeline_window : Raft → ℕ → ℕ → Raft
slide_pipeline_window s peer up_to = record s {
  peer_pipeline =
      modify s.peer_pipeline peer
        (λ (p : PeerPipelineState). record p { in_flight = unsettled up_to p.in_flight });
}

-- `updatePeerSyncState`
unfoldable pub update_peer_sync_state : Raft → ℕ → AppendEntriesArgs → ℕ → Result (Raft × ℕ)
unfolding slide_pipeline_window
update_peer_sync_state s peer args nums =
    let matched = max (get_or s.match_index peer 0) (args.prev_log_index + length args.entries) in
    let s' = record s {
      match_index = set s.match_index peer matched;
      next_index = set s.next_index peer (matched + 1);
    } in
    let s'' = if ltb 0 (length args.entries) then slide_pipeline_window s' peer matched else s' in
    if leb matched (get_last_log_index s + 1) then ok (s'', nums + 1) else err assert_failed

-- The last entry of a message has the given term.
unfoldable pub ends_in_term : ℕ → List LogEntry → Bool
ends_in_term t [] = false
ends_in_term t (e ∷ []) = e.log_term == t
ends_in_term t (e ∷ f ∷ es) = ends_in_term t (f ∷ es)

-- `tryUpdateCommitIndex`
unfoldable pub try_update_commit_index : Raft → AppendEntriesArgs → ℕ → Result (Raft × ℕ)
unfolding ends_in_term
try_update_commit_index s args nums =
    if ltb nums (majority s.peers)
    then ok (s, nums)
    else let s' =
        if ends_in_term s.current_term args.entries
        then record s {
          commit_index = max s.commit_index (args.prev_log_index + length args.entries);
        }
        else s in
      if leb s'.commit_index (get_last_log_index s') then ok (s', 0) else err assert_failed

-- A reply in the node's own term.
unfoldable pub handle_append_reply :
    Raft → ℕ → AppendEntriesArgs → AppendEntriesReply → ℕ → Result (Raft × ℕ)
handle_append_reply s peer args reply nums =
    if not (is_leader s.status)
    then ok (s, nums)
    else if not (reply.term == s.current_term)
    then err assert_failed
    else if not reply.success
    then ok (handle_log_mismatch s peer reply, nums)
    else update_peer_sync_state s peer args nums >>= λ r. try_update_commit_index r.0 args r.1

-- `sendAppendEntries` from the reply on; the first two tests are those of `callAppendEntriesRpc`.
unfoldable pub send_append_entries :
    Archive → Raft → ℕ → AppendEntriesArgs → Option AppendEntriesReply → ℕ → Result (Raft × ℕ)
send_append_entries ar s peer args none nums = ok (s, nums)
send_append_entries ar s peer args (some reply) nums =
    if reply.app_state == disconnected
    then ok (s, nums)
    else let r = handle_term_mismatch ar s reply.term in
      if r.1 then ok (r.0, nums) else handle_append_reply r.0 peer args reply nums

-- The peers other than `me`, from the `i`-th on, that store the log up to `n`.
unfoldable pub count_matches : ℕ → ℕ → ℕ → List ℕ → ℕ
count_matches me n i [] = 0
count_matches me n i (m ∷ ms) =
    let rest = count_matches me n (suc i) ms in
    if i == me then rest else if leb n m then suc rest else rest

-- `count` of the loop: the leader itself and those peers.
unfoldable pub replicas : Raft → ℕ → ℕ
unfolding count_matches
replicas s n = 1 + count_matches s.me n 0 (take s.peers s.match_index)

-- The loop of `leaderUpdateCommitIndex`, from `n` down to the commit index.
unfoldable pub commit_from : Raft → ℕ → Raft
commit_from s zero = s
commit_from s (suc n) =
    let rest = commit_from s n in
    if ltb s.commit_index (suc n)
    then (if leb (majority s.peers) (replicas s (suc n))
        then (if eq_ℤ (get_log_term_from_log_index s (suc n)) (pos s.current_term)
            then record s { commit_index = suc n }
            else s)
        else rest)
    else s

unfoldable pub leader_update_commit_index : Raft → Raft
unfolding commit_from
leader_update_commit_index s = commit_from s (get_last_log_index s)

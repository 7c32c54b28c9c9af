-- ===== src/Raft/Vote.antt =====
-- Elections in Raft.cpp: `RequestVote1` and `PreRequestVote1` at the voter, `doElection`,
-- `sendRequestVote` and `preElection` at the candidate. `now` is what the clock returned.
pub mod Decision
pub mod Winning
use my_kv_storage_base_raft.Common.{
  ℕ, ◌+◌, ◌/◌, Bool, true, false, not, ◌&&◌, minus_one, pos, eq_ℤ, Option, none, some, List, [],
  ◌∷◌, map, ltb, leb, ◌==◌, if◌then◌else◌, fill,
}
use my_kv_storage_base_raft.Raft.Types.{
  Result, ok, err, assert_failed, ◌>>=◌, follower, candidate, leader, is_leader, RequestVoteArgs,
  RequestVoteReply, PreRequestVoteReply, PeerPipelineState,
}
use my_kv_storage_base_raft.Raft.State.{Raft, Archive}
use my_kv_storage_base_raft.Raft.Log.{get_last_log_index, get_last_log_term, up_to_data}
use my_kv_storage_base_raft.Raft.Persist.{persist}

-- A higher term was seen: back to follower, with no vote in the new term.
unfoldable pub step_down : Raft → ℕ → Raft
step_down s term = record s { status = follower; current_term = term; voted_for = minus_one }

-- The test for a higher term at the head of every RPC handler.
unfoldable pub adopt_term : Raft → ℕ → Raft
unfolding step_down
adopt_term s term = if ltb s.current_term term then step_down s term else s

abbrev pub majority : ℕ → ℕ
majority peers = peers / 2 + 1

-- `votestate` of a reply.
abbrev pub vted : ℕ
vted = 1

abbrev pub expire : ℕ
expire = 2

abbrev pub normal : ℕ
normal = 3

abbrev pub vote_reply : ℕ → Bool → ℕ → RequestVoteReply
vote_reply term granted state = record { term = term; vote_granted = granted; vote_state = state }

-- `PreRequestVote1` changes nothing: its result is the reply.
unfoldable pub pre_request_vote1 : Raft → RequestVoteArgs → PreRequestVoteReply
pre_request_vote1 s args =
    if ltb args.term s.current_term
    then record { term = s.current_term; vote_granted = false }
    else if not (up_to_data s args.last_log_index args.last_log_term)
    then record { term = s.current_term; vote_granted = false }
    else if is_leader s.status
    then record { term = s.current_term; vote_granted = false }
    else record { term = s.current_term; vote_granted = true }

-- The rules 3 and 4 of `RequestVote1`, after the terms were compared; the destructor of
-- `defer_persist` saves on every return.
unfoldable pub cast_vote : Archive → Raft → RequestVoteArgs → ℕ → Raft × RequestVoteReply
cast_vote ar s args now =
    if not (up_to_data s args.last_log_index args.last_log_term)
    then (persist ar s, vote_reply s.current_term false vted)
    else if not (eq_ℤ s.voted_for minus_one) && not (eq_ℤ s.voted_for (pos args.candidate_id))
    then (persist ar s, vote_reply s.current_term false vted)
    else (
      persist ar (record s { voted_for = pos args.candidate_id; last_reset_election_time = now }),
      vote_reply s.current_term true normal,
    )

unfoldable pub request_vote1 :
    Archive → Raft → RequestVoteArgs → ℕ → Result (Raft × RequestVoteReply)
unfolding adopt_term cast_vote
request_vote1 ar s args now =
    if ltb args.term s.current_term
    then ok (persist ar s, vote_reply s.current_term false expire)
    else let s' = adopt_term s args.term in
      if args.term == s'.current_term then ok (cast_vote ar s' args now) else err assert_failed

-- The critical section of `doElection`: `none` where the node is the leader already. The request
-- goes to every other peer.
unfoldable pub do_election : Archive → Raft → ℕ → Option (Raft × RequestVoteArgs)
do_election ar s now =
    if is_leader s.status
    then none
    else let s' = persist ar (record s {
      status = candidate;
      current_term = s.current_term + 1;
      voted_for = pos s.me;
    }) in
      some (
        record s' { last_reset_election_time = now },
        record {
          term = s'.current_term;
          candidate_id = s'.me;
          last_log_index = get_last_log_index s';
          last_log_term = get_last_log_term s';
        },
      )

unfoldable pub start_batch_sender_thread : Raft → Raft
start_batch_sender_thread s = if not s.batch_running then record s { batch_running = true } else s

abbrev pub empty_pipeline : PeerPipelineState
empty_pipeline = record { pending_batches = []; in_flight = []; next_batch_id = 0 }

-- The node has won: every peer's indices and windows start afresh.
unfoldable pub become_leader : Archive → Raft → Raft
become_leader ar s = start_batch_sender_thread (
    persist ar (record s {
      status = leader;
      next_index = fill s.peers (get_last_log_index s + 1) s.next_index;
      match_index = fill s.peers 0 s.match_index;
      inflight_count = fill s.peers 0 s.inflight_count;
      in_snapshot = fill s.peers false s.in_snapshot;
      peer_pipeline = fill s.peers empty_pipeline s.peer_pipeline;
    }))

-- A vote that was granted in the current term; `vote_num` is the counter that the calls of one
-- election share.
unfoldable pub count_vote : Archive → Raft → ℕ → Result (Raft × ℕ)
count_vote ar s vote_num =
    if leb (majority s.peers) (vote_num + 1)
    then (if is_leader s.status then err assert_failed else ok (become_leader ar s, 0))
    else ok (s, vote_num + 1)

-- `sendRequestVote` from the reply on; `none` is a call that failed.
unfoldable pub send_request_vote : Archive → Raft → Option RequestVoteReply → ℕ → Result (Raft × ℕ)
send_request_vote ar s none vote_num = ok (s, vote_num)
send_request_vote ar s (some reply) vote_num =
    if ltb s.current_term reply.term
    then ok (persist ar (step_down s reply.term), vote_num)
    else if ltb reply.term s.current_term
    then ok (s, vote_num)
    else if not reply.vote_granted
    then ok (s, vote_num)
    else count_vote ar s vote_num

-- The loop of `preElection` over the other peers.
unfoldable pub pre_votes : Archive → Raft → ℕ → List (Option PreRequestVoteReply) → Raft × ℕ
unfolding step_down
pre_votes ar s votes [] = (s, votes)
pre_votes ar s votes (none ∷ replies) = pre_votes ar s votes replies
pre_votes ar s votes (some reply ∷ replies) =
    pre_votes ar (if ltb s.current_term reply.term then persist ar (step_down s reply.term) else s)
      (if reply.vote_granted then votes + 1 else votes) replies

-- `preElection`, where nothing else runs between its two critical sections. The electing thread
-- does not call it.
unfoldable pub pre_election : Archive → Raft → List (Option PreRequestVoteReply) → ℕ → Raft × Bool
unfolding pre_votes
pre_election ar s replies now =
    if is_leader s.status
    then (s, false)
    else let (s', votes) = pre_votes ar s 1 replies in
      (
        record s' { last_reset_election_time = now },
        if is_leader s'.status then false else leb (majority s.peers) votes,
      )

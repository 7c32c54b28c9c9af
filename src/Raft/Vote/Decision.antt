-- ===== src/Raft/Vote/Decision.antt =====
-- Who gets a vote.
use my_kv_storage_base_raft.Common.{
  ℕ, ◌≤◌, ◌<◌, ◌≡◌, ◌⊎◌, ◌↔◌, ◌≢◌, true, false, ltb, if◌then◌else◌, minus_one, pos, arith,
}
use my_kv_storage_base_raft.Raft.Types.{Returns, ok, RequestVoteArgs, RequestVoteReply, leader}
use my_kv_storage_base_raft.Raft.State.{Raft, Archive}
use my_kv_storage_base_raft.Raft.Log.{up_to_data, get_last_log_index, get_last_log_term}
use my_kv_storage_base_raft.Raft.Persist.{persist}
use my_kv_storage_base_raft.Raft.Vote.{
  request_vote1, pre_request_vote1, cast_vote, adopt_term, vote_reply, expire,
}

-- The candidate's last entry has a later term than the node's, or the same term and no smaller
-- index.
abbrev pub IsRecent : Raft → RequestVoteArgs → Type 0
IsRecent s args =
    (get_last_log_term s < args.last_log_term)
    ⊎ ((args.last_log_term ≡ get_last_log_term s) × (get_last_log_index s ≤ args.last_log_index))

-- The node has a vote to give in the candidate's term, or gave it to this candidate.
abbrev pub HasVote : Raft → RequestVoteArgs → Type 0
HasVote s args =
    (s.current_term < args.term)
    ⊎ ((s.current_term ≡ args.term)
        × ((s.voted_for ≡ minus_one) ⊎ (s.voted_for ≡ pos args.candidate_id)))

up_to_data_iff :
    (s : Raft) (args : RequestVoteArgs)
    → (up_to_data s args.last_log_index args.last_log_term ≡ true) ↔ IsRecent s args
unfolding up_to_data
up_to_data_iff s args = ground arith

-- The state and the reply of `RequestVote1`, which always returns: its assertion cannot fail.
abbrev pub voted : Archive → Raft → RequestVoteArgs → ℕ → Raft × RequestVoteReply
voted ar s args now =
    if ltb args.term s.current_term
    then (persist ar s, vote_reply s.current_term false expire)
    else cast_vote ar (adopt_term s args.term) args now

pub request_vote1-eq-voted :
    (ar : Archive) (s : Raft) (args : RequestVoteArgs) (now : ℕ)
    → request_vote1 ar s args now ≡ ok (voted ar s args now)
unfolding request_vote1
request_vote1-eq-voted ar s args now = ground arith

-- `RequestVote1` returns whatever it is sent, and grants the vote exactly when the candidate's term
-- is not behind, the node's vote in that term is free or already the candidate's, and the
-- candidate's log is as recent.
pub request_vote1-granted :
    (ar : Archive) (s : Raft) (args : RequestVoteArgs) (now : ℕ)
    → Returns
        (request_vote1 ar s args now)
        (λ r. (r.1.vote_granted ≡ true) ↔ (HasVote s args × IsRecent s args))
unfolding cast_vote adopt_term up_to_data
request_vote1-granted ar s args now = rw (request_vote1-eq-voted ar s args now) (ground arith)

-- `PreRequestVote1` of a node that is not the leader grants wherever `RequestVote1` would.
pub pre_request_vote1-granted :
    (ar : Archive) (s t : Raft) (args : RequestVoteArgs) (now : ℕ) (reply : RequestVoteReply)
    → s.status ≢ leader
    → request_vote1 ar s args now ≡ ok (t, reply)
    → reply.vote_granted ≡ true
    → (pre_request_vote1 s args).vote_granted ≡ true
unfolding cast_vote adopt_term up_to_data pre_request_vote1
pre_request_vote1-granted ar s t args now reply h e g =
    let v : voted ar s args now ≡ (t, reply) =
      ground (arith, request_vote1-eq-voted ar s args now) in
    ground arith

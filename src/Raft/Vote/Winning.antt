-- ===== src/Raft/Vote/Winning.antt =====
-- When a candidate becomes the leader.
use my_kv_storage_base_raft.Common.{
  ℕ, ◌+◌, ◌≤◌, ◌<◌, ◌≡◌, refl, ◌≢◌, ◌⊎◌, inl, inr, true, Option, none, some, arith, ltb, leb,
  Bool-cases,
}
use my_kv_storage_base_raft.Raft.Types.{ok, is_leader, leader, RequestVoteReply}
use my_kv_storage_base_raft.Raft.State.{Raft, Archive}
use my_kv_storage_base_raft.Raft.Persist.{persist}
use my_kv_storage_base_raft.Raft.Vote.{
  send_request_vote, count_vote, become_leader, start_batch_sender_thread, step_down, majority,
}

-- The answer changes nothing, or takes the node into a later term.
abbrev pub Yields : Archive → Raft → Raft → Type 0
Yields ar s t =
    (t ≡ s) ⊎ ((term : ℕ) × (s.current_term < term) × (t ≡ persist ar (step_down s term)))

-- The answer grants the vote in the node's term.
pub record Counts (s : Raft) (reply : Option RequestVoteReply) : Type 0 where
  pub last : RequestVoteReply
  pub came : reply ≡ some last
  pub granted : last.vote_granted ≡ true
  pub in_term : last.term ≡ s.current_term

-- What `sendRequestVote` does with the answer: no vote, a vote that is not enough, or the vote that
-- makes a majority with those counted before.
pub data Outcome (ar : Archive) (s : Raft) (reply : Option RequestVoteReply) (vote_num : ℕ)
    (t : Raft) (n : ℕ) : Type 0 where
  ignored : Yields ar s t → n ≡ vote_num → Outcome ar s reply vote_num t n
  counted : Counts s reply → t ≡ s → n ≡ vote_num + 1 → Outcome ar s reply vote_num t n
  won :
      Counts s reply
      → t ≡ become_leader ar s
      → n ≡ 0
      → s.status ≢ leader
      → majority s.peers ≤ vote_num + 1
      → Outcome ar s reply vote_num t n

-- The votes of an election that was won: this one and those that came before it.
pub record Won (s : Raft) (reply : Option RequestVoteReply) (vote_num : ℕ) : Type 0 where
  pub last_vote : Counts s reply
  pub enough : majority s.peers ≤ vote_num + 1

pub become_leader-term :
    (ar : Archive) (s : Raft) → (become_leader ar s).current_term ≡ s.current_term
unfolding become_leader start_batch_sender_thread persist
become_leader-term ar s = ground arith

pub become_leader-place :
    (ar : Archive) (s : Raft)
    → ((become_leader ar s).me ≡ s.me) × ((become_leader ar s).peers ≡ s.peers)
unfolding become_leader start_batch_sender_thread persist
become_leader-place ar s = (ground arith, ground arith)

count_vote-Outcome :
    (ar : Archive) (s t : Raft) (reply : Option RequestVoteReply) (votes n : ℕ)
    → Counts s reply
    → count_vote ar s votes ≡ ok (t, n)
    → Outcome ar s reply votes t n
unfolding count_vote
count_vote-Outcome ar s t reply votes n c h =
    elim (Bool-cases (leb (majority s.peers) (votes + 1))) [
      | inr few ↦ counted c (ground arith) (ground arith)
      | inl many ↦ elim (Bool-cases (is_leader s.status)) [
        | inl lead ↦ cc (rw (many, lead) at h)
        | inr other ↦
            let e : count_vote ar s votes ≡ ok (become_leader ar s, 0) = rw (many, other) refl in
            won c (ground (arith, e)) (ground (arith, e)) (λ l. ground arith) (ground arith)
      ]
    ]

pub send_request_vote-Outcome :
    (ar : Archive) (s t : Raft) (reply : Option RequestVoteReply) (vote_num n : ℕ)
    → send_request_vote ar s reply vote_num ≡ ok (t, n)
    → Outcome ar s reply vote_num t n
unfolding send_request_vote
send_request_vote-Outcome ar s t none vote_num n h = ignored (inl (ground arith)) (ground arith)
send_request_vote-Outcome ar s t (some reply) vote_num n h =
    elim (Bool-cases (ltb s.current_term reply.term)) [
      | inl later ↦ ignored (inr (reply.term, ground arith, ground arith)) (ground arith)
      | inr not_later ↦ elim (Bool-cases (ltb reply.term s.current_term)) [
        | inl stale ↦ ignored (inl (ground arith)) (ground arith)
        | inr current ↦ elim (Bool-cases reply.vote_granted) [
          | inr refused ↦ ignored (inl (ground arith)) (ground arith)
          | inl granted ↦
              count_vote-Outcome ar s t (some reply) vote_num n
                (record { last = reply; came = refl; granted = granted; in_term = ground arith })
                (rw (not_later, current, granted) at h)
        ]
      ]
    ]

Yields-leader : (ar : Archive) (s t : Raft) → Yields ar s t → t.status ≡ leader → s.status ≡ leader
unfolding step_down persist
Yields-leader ar s t (inl e) h = rw e at h
Yields-leader ar s t (inr (term, later, e)) h = ground arith

Outcome-Won :
    (ar : Archive) (s t : Raft) (reply : Option RequestVoteReply) (vote_num n : ℕ)
    → Outcome ar s reply vote_num t n
    → s.status ≢ leader
    → t.status ≡ leader
    → Won s reply vote_num × (t.current_term ≡ s.current_term)
Outcome-Won ar s t reply vote_num n (ignored y e) not_before after =
    absurd (not_before (Yields-leader ar s t y after))
Outcome-Won ar s t reply vote_num n (counted c same e) not_before after =
    absurd (not_before (rw same at after))
Outcome-Won ar s t reply vote_num n (won c becomes e f enough) not_before after =
    (record { last_vote = c; enough = enough }, rw becomes (become_leader-term ar s))

-- A node that was not the leader is the leader after the answer to a vote request only if the
-- answer grants the vote in the node's term and makes a majority with the votes counted so far; its
-- term is then the same.
pub send_request_vote-Won :
    (ar : Archive) (s t : Raft) (reply : Option RequestVoteReply) (vote_num n : ℕ)
    → send_request_vote ar s reply vote_num ≡ ok (t, n)
    → s.status ≢ leader
    → t.status ≡ leader
    → Won s reply vote_num × (t.current_term ≡ s.current_term)
send_request_vote-Won ar s t reply vote_num n h not_before after =
    Outcome-Won ar s t reply vote_num n (send_request_vote-Outcome ar s t reply vote_num n h)
      not_before after

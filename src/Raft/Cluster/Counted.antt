-- ===== src/Raft/Cluster/Counted.antt =====
-- The candidate that gets an answer to its request.
use my_kv_storage_base_raft.Common.{
  ℕ, ◌+◌, ◌≤◌, ◌≡◌, sym, ◌⊎◌, inl, inr, true, some, arith, ap, ◌∙◌,
}
use my_kv_storage_base_raft.Raft.Types.{RequestVoteReply}
use my_kv_storage_base_raft.Raft.State.{Raft, Archive}
use my_kv_storage_base_raft.Raft.Persist.{persist}
use my_kv_storage_base_raft.Raft.Vote.{become_leader, start_batch_sender_thread}
use my_kv_storage_base_raft.Raft.Vote.Winning.{
  Counts, Outcome, ignored, counted, won, become_leader-term, become_leader-place,
}
use my_kv_storage_base_raft.Raft.History.Keeps.{Keeps}
use my_kv_storage_base_raft.Raft.History.Stays.{Stays-self, Settles-Stays}
use my_kv_storage_base_raft.Raft.Cluster.{Answer}
use my_kv_storage_base_raft.Raft.Cluster.Counting.{count}
use my_kv_storage_base_raft.Raft.Cluster.Ballots.{Gave, IsPlaced, Stays-IsPlaced}
use my_kv_storage_base_raft.Raft.Cluster.Tally.{IsTold}

-- The vote that wins an election is of the candidate's term, which winning does not change.
won-term :
    (ar : Archive) (n : ℕ) (gave : Gave) (s t : Raft) (a : Answer)
    → IsTold n gave a
    → Counts s (some a.reply)
    → t ≡ become_leader ar s
    → (a.reply.vote_granted ≡ true) × (t.current_term ≡ a.args.term)
won-term ar n gave s t a told c becomes =
    let same : c.last ≡ a.reply = ground (arith, c.came) in
    let granted : a.reply.vote_granted ≡ true =
      sym (ap (λ (r : RequestVoteReply). r.vote_granted) same) ∙ c.granted in
    (
      granted,
      ap (λ (r : Raft). r.current_term) becomes
          ∙ become_leader-term ar s
          ∙ sym c.in_term
          ∙ ap (λ (r : RequestVoteReply). r.term) same
          ∙ (told.granted granted).0,
    )

-- The node that counts an answer.
pub count-IsPlaced :
    (ar : Archive) (n : ℕ) (gave : Gave) (s t : Raft) (a : Answer) (m vote_num : ℕ)
    → IsPlaced ar n gave a.args.candidate_id s
    → Keeps ar s t
    → IsTold n gave a
    → (a.reply.vote_granted ≡ true
        → vote_num + 1 ≤ count n (λ v. gave v a.args.term a.args.candidate_id))
    → Outcome ar s (some a.reply) vote_num t m
    → IsPlaced ar n gave a.args.candidate_id t
unfolding become_leader start_batch_sender_thread persist
count-IsPlaced ar n gave s t a m vote_num p k told enough (ignored y e) =
    Stays-IsPlaced ar n gave a.args.candidate_id s p t k
      (elim y [ inl same ↦ Stays-self s t same | inr down ↦ Settles-Stays ar s t (inr down) ])
count-IsPlaced ar n gave s t a m vote_num p k told enough (counted c same e) =
    Stays-IsPlaced ar n gave a.args.candidate_id s p t k (Stays-self s t same)
count-IsPlaced ar n gave s t a m vote_num p k told enough (won c becomes e not_before many) =
    let (granted, term) = won-term ar n gave s t a told c becomes in
    record {
      me = ap (λ (r : Raft). r.me) becomes ∙ (become_leader-place ar s).0 ∙ p.me;
      peers = ap (λ (r : Raft). r.peers) becomes ∙ (become_leader-place ar s).1 ∙ p.peers;
      recorded = k.durable;
      heard = λ term to h. ground (arith, p.heard term to h, k.advances);
      leads = λ l. rw term (omega (arith, many, enough granted, p.peers));
    }

pub counted-votes :
    (ar : Archive) (s t : Raft) (reply : RequestVoteReply) (vote_num m : ℕ)
    → Outcome ar s (some reply) vote_num t m
    → (m ≤ vote_num) ⊎ ((m ≡ vote_num + 1) × (reply.vote_granted ≡ true))
counted-votes ar s t reply vote_num m (ignored y e) = inl (omega arith)
counted-votes ar s t reply vote_num m (counted c same e) =
    let same : reply ≡ c.last = ground (arith, c.came) in
    inr (e, ap (λ (r : RequestVoteReply). r.vote_granted) same ∙ c.granted)
counted-votes ar s t reply vote_num m (won c becomes e not_before many) = inl (omega arith)

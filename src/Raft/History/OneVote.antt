-- ===== src/Raft/History/OneVote.antt =====
-- A vote over time, restarts included.
use my_kv_storage_base_raft.Common.{
  ℕ, ◌+◌, ◌<◌, ◌≡◌, refl, ◌⊎◌, inl, inr, true, minus_one, pos, some, arith, Bool-cases, ap, ◌∙◌,
}
use my_kv_storage_base_raft.Raft.Types.{ok, is_leader, candidate, RequestVoteArgs, RequestVoteReply}
use my_kv_storage_base_raft.Raft.State.{Raft, Archive}
use my_kv_storage_base_raft.Raft.Persister.Durable.{IsQuiet}
use my_kv_storage_base_raft.Raft.Persist.{persist, persist_node}
use my_kv_storage_base_raft.Raft.Persist.Durable.{IsRecorded, persist-IsDurable}
use my_kv_storage_base_raft.Raft.Vote.{request_vote1, do_election, cast_vote, adopt_term}
use my_kv_storage_base_raft.Raft.Vote.Decision.{voted, request_vote1-eq-voted}
use my_kv_storage_base_raft.Raft.Log.{up_to_data}
use my_kv_storage_base_raft.Raft.History.Keeps.{unsaved-Keeps}
use my_kv_storage_base_raft.Raft.History.Handlers.{ballot, voted-eq-persist, persister-ballot}
use my_kv_storage_base_raft.Raft.History.Steps.{Steps, Steps-Keeps}

-- The ways in which a node gives its vote of `term` to `to`: `RequestVote1` grants it, or
-- `doElection` makes the node a candidate.
pub data Casts (ar : Archive) (s t : Raft) (term to : ℕ) : Type 0 where
  grants :
      (args : RequestVoteArgs) (now : ℕ) (reply : RequestVoteReply)
      → request_vote1 ar s args now ≡ ok (t, reply)
      → reply.vote_granted ≡ true
      → args.term ≡ term
      → args.candidate_id ≡ to
      → Casts ar s t term to
  stands :
      (args : RequestVoteArgs) (now : ℕ)
      → do_election ar s now ≡ some (t, args)
      → args.term ≡ term
      → args.candidate_id ≡ to
      → Casts ar s t term to

-- What a cast vote says of the node before and after it.
pub record IsCast (ar : Archive) (s t : Raft) (term to : ℕ) : Type 0 where
  pub free :
      (s.current_term < term)
      ⊎ ((s.current_term ≡ term) × ((s.voted_for ≡ minus_one) ⊎ (s.voted_for ≡ pos to)))
  pub term_after : t.current_term ≡ term
  pub vote_after : t.voted_for ≡ pos to

grants-IsCast :
    (ar : Archive) (s t : Raft) (args : RequestVoteArgs) (now : ℕ) (reply : RequestVoteReply)
    → voted ar s args now ≡ (t, reply)
    → reply.vote_granted ≡ true
    → IsCast ar s t args.term args.candidate_id
unfolding cast_vote adopt_term up_to_data persist
grants-IsCast ar s t args now reply h g = record {
  free = ground arith;
  term_after = ground arith;
  vote_after = ground arith;
}

pub Casts-IsCast :
    (ar : Archive) {s t : Raft} {term to : ℕ} → Casts ar s t term to → IsCast ar s t term to
unfolding do_election persist
Casts-IsCast ar {s} {t} (grants args now reply h g e f) =
    let c =
      grants-IsCast ar s t args now reply (ground (arith, request_vote1-eq-voted ar s args now))
        g in
    record {
      free = ground (arith, c.free);
      term_after = c.term_after ∙ e;
      vote_after = c.vote_after ∙ ap pos f;
    }
Casts-IsCast ar {s} {t} (stands args now h e f) = record {
  free = ground arith;
  term_after = ground arith;
  vote_after = ground arith;
}

-- Whoever gets a vote of a node gets it from a node whose file holds that vote.
Casts-IsRecorded :
    (ar : Archive) {s t : Raft} {term to : ℕ}
    → IsQuiet s.persister
    → Casts ar s t term to
    → IsRecorded ar t
unfolding do_election persist_node
Casts-IsRecorded ar {s} {t} q (grants args now reply h _ _ _) =
    let e : t ≡ persist ar (ballot s args now) =
      ground (arith, request_vote1-eq-voted ar s args now, voted-eq-persist ar s args now) in
    rw e (inl (persist-IsDurable ar (ballot s args now) (rw (persister-ballot s args now) q)))
Casts-IsRecorded ar {s} {t} q (stands args now h _ _) = elim (Bool-cases (is_leader s.status)) [
  | inl lead ↦ cc (rw lead at h)
  | inr not_lead ↦
      let c : Raft = record s {
        status = candidate;
        current_term = s.current_term + 1;
        voted_for = pos s.me;
      } in
      let e : t ≡ record (persist ar c) { last_reset_election_time = now } = ground arith in
      rw e (unsaved-Keeps ar (persist ar c) (inl (persist-IsDurable ar c q)) _ refl refl).durable
]

-- A node votes for one candidate in a term: once it has voted, as a follower or for itself as a
-- candidate, any vote that it gives in the same term after any steps, restarts included, goes to
-- the same candidate. No save is under way at the first vote.
pub one_vote_per_term :
    (ar : Archive) {s t u v : Raft} {term first second : ℕ}
    → IsQuiet s.persister
    → Casts ar s t term first
    → Steps ar t u
    → Casts ar u v term second
    → first ≡ second
one_vote_per_term ar {s} {t} {u} {v} q c steps c' =
    let a = Casts-IsCast ar c in
    let b = Casts-IsCast ar c' in
    let k = (Steps-Keeps ar (Casts-IsRecorded ar q c) steps).advances in
    ground (arith, a.term_after, a.vote_after, b.free)

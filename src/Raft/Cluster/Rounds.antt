-- ===== src/Raft/Cluster/Rounds.antt =====
-- The steps of an election: a candidate stands, a node answers, a candidate counts.
use my_kv_storage_base_raft.Common.{
  Bool-cases, ℕ, ◌<◌, ◌≡◌, refl, ◌≢◌, inl, inr, true, false, some, ◌∷◌, arith, ◌∙◌, Among,
}
use my_kv_storage_base_raft.Raft.Types.{ok, RequestVoteReply, RequestVoteArgs}
use my_kv_storage_base_raft.Raft.State.{Raft, Archive}
use my_kv_storage_base_raft.Raft.Persist.{persist}
use my_kv_storage_base_raft.Raft.Vote.{
  send_request_vote, request_vote1, do_election, cast_vote, adopt_term,
}
use my_kv_storage_base_raft.Raft.Vote.Winning.{send_request_vote-Outcome}
use my_kv_storage_base_raft.Raft.History.Steps.{Step-Keeps, elects, votes, counts}
use my_kv_storage_base_raft.Raft.History.Stays.{request_vote1-Stays, do_election-Stays}
use my_kv_storage_base_raft.Raft.History.OneVote.{grants, stands, Casts-IsCast}
use my_kv_storage_base_raft.Raft.Cluster.{
  Cluster, Answer, put, put2, mark, ClusterStep, node_moves, node_stands, node_votes, node_counts,
  Reached, begun, later,
}
use my_kv_storage_base_raft.Raft.Cluster.Fair.{
  IsAsked, IsFair, Next, IsNew-IsFair, mark-IsAsked, mark-IsTold, moves-IsFair, put-IsPlaced,
}
use my_kv_storage_base_raft.Raft.Cluster.Ballots.{
  Gave, IsPlaced, put-elim, mark-new, mark-keeps, Stays-IsPlaced, cast-IsSingle,
}
use my_kv_storage_base_raft.Raft.Cluster.Counted.{count-IsPlaced, counted-votes}
use my_kv_storage_base_raft.Raft.Cluster.Tally.{
  IsTold, vote-IsTallied, stand-IsTallied, count-IsTallied, count-given,
}

-- The request that a candidate sends names itself.
do_election-candidate :
    (ar : Archive) (s : Raft) (now : ℕ) {t : Raft} {args : RequestVoteArgs}
    → do_election ar s now ≡ some (t, args)
    → args.candidate_id ≡ s.me
unfolding do_election persist
do_election-candidate ar s now h = ground arith

-- A vote is granted in the term of the request.
request_vote1-term :
    (ar : Archive) (s : Raft) (args : RequestVoteArgs) (now : ℕ) {t : Raft}
    {reply : RequestVoteReply}
    → request_vote1 ar s args now ≡ ok (t, reply)
    → reply.vote_granted ≡ true
    → reply.term ≡ args.term
unfolding request_vote1 cast_vote adopt_term persist
request_vote1-term ar s args now h g = ground arith

module _ (ar : Archive) (n : ℕ) (c : Cluster) (f : IsFair ar n c) where
  stands-IsFair :
      (i now : ℕ) {t : Raft} {args : RequestVoteArgs}
      → i < n
      → do_election ar (c.node i) now ≡ some (t, args)
      → Next ar n f (record c {
        node = put c.node i t;
        vote_num = put2 c.vote_num i args.term 1;
        requests = args ∷ c.requests;
      })
  stands-IsFair i now {t} {args} inside h =
      let p = f.placed i inside in
      let self : args.candidate_id ≡ i = do_election-candidate ar (c.node i) now h ∙ p.me in
      let b = Casts-IsCast ar {term = args.term} {to = i} (stands args now h refl self) in
      (
        record {
          gave = mark f.gave i args.term i;
          single = cast-IsSingle ar n f.gave i (c.node i) p t args.term i f.single b;
          placed =
              put-IsPlaced ar n c f i t args.term i inside
                (Step-Keeps ar p.recorded (elects now args h))
                (do_election-Stays ar (c.node i) now h) b;
          asked = λ args' m. elim m [
            | inl new ↦ rw new (record {
              candidate = rw self inside;
              self = rw self (mark-new f.gave i args.term i);
            })
            | inr old ↦ mark-IsAsked n f.gave i args.term i args' (f.asked args' old)
          ];
          told = λ a m. mark-IsTold n f.gave i args.term i a (f.told a m);
          tallied = stand-IsTallied n f.gave c.returned c.vote_num f.tallied i args.term inside;
        },
        mark-keeps f.gave i args.term i,
      )

  counts-IsFair :
      (a : Answer) {t : Raft} {m : ℕ}
      → Among c.answers a
      → c.returned a.args.candidate_id a.args.term a.voter ≡ false
      → send_request_vote ar
          (c.node a.args.candidate_id)
          (some a.reply)
          (c.vote_num a.args.candidate_id a.args.term)
        ≡ ok (t, m)
      → Next ar n f (record c {
        node = put c.node a.args.candidate_id t;
        vote_num = put2 c.vote_num a.args.candidate_id a.args.term m;
        returned = mark c.returned a.args.candidate_id a.args.term a.voter;
      })
  counts-IsFair a {t} {m} among fresh h =
      let i = a.args.candidate_id in
      let last = c.vote_num i a.args.term in
      let told = f.told a among in
      let p = f.placed i told.candidate in
      let o = send_request_vote-Outcome ar (c.node i) t (some a.reply) last m h in
      (
        record {
          gave = f.gave;
          single = f.single;
          placed =
              put-elim (λ j s. j < n → IsPlaced ar n f.gave j s) c.node i t
                (λ _.
                  count-IsPlaced ar n f.gave (c.node i) t a m last p
                    (Step-Keeps ar p.recorded (counts (some a.reply) last m h)) told
                    (count-given n f.gave c.returned c.vote_num f.tallied a told fresh) o)
                (λ j _. f.placed j);
          asked = f.asked;
          told = f.told;
          tallied =
              count-IsTallied n f.gave c.returned c.vote_num f.tallied a m told fresh
                (counted-votes ar (c.node i) t a.reply last m o);
        },
        λ v term to h. h,
      )

  -- The answer of `v` joins the others.
  answer-IsTold :
      (gave : Gave) (v : ℕ) (args : RequestVoteArgs) (reply : RequestVoteReply)
      → v < n
      → v ≢ args.candidate_id
      → IsAsked n gave args
      → (reply.vote_granted ≡ true
          → (reply.term ≡ args.term) × (gave v args.term args.candidate_id ≡ true))
      → ((a : Answer) → Among c.answers a → IsTold n gave a)
      → (a : Answer) → Among (record { voter = v; args = args; reply = reply } ∷ c.answers) a
      → IsTold n gave a
  answer-IsTold gave v args reply inside other asked granted told a m = elim m [
    | inl new ↦ rw new (record {
      voter = inside;
      candidate = asked.candidate;
      other = other;
      self = asked.self;
      granted = granted;
    })
    | inr old ↦ told a old
  ]

  refuses-IsFair :
      (v now : ℕ) (args : RequestVoteArgs) {t : Raft} {reply : RequestVoteReply}
      → v < n
      → Among c.requests args
      → v ≢ args.candidate_id
      → request_vote1 ar (c.node v) args now ≡ ok (t, reply)
      → reply.vote_granted ≡ false
      → Next ar n f (record c {
        node = put c.node v t;
        answers = record { voter = v; args = args; reply = reply } ∷ c.answers;
      })
  refuses-IsFair v now args {t} {reply} inside among other h refused =
      let p = f.placed v inside in
      (
        record {
          gave = f.gave;
          single = f.single;
          placed =
              put-elim (λ j s. j < n → IsPlaced ar n f.gave j s) c.node v t
                (λ _.
                  Stays-IsPlaced ar n f.gave v (c.node v) p t
                    (Step-Keeps ar p.recorded (votes args now reply h))
                    (request_vote1-Stays ar (c.node v) args now h))
                (λ j _. f.placed j);
          asked = f.asked;
          told =
              answer-IsTold f.gave v args reply inside other (f.asked args among)
                (λ g. absurd (ground arith)) f.told;
          tallied = f.tallied;
        },
        λ v term to h. h,
      )

  grants-IsFair :
      (v now : ℕ) (args : RequestVoteArgs) {t : Raft} {reply : RequestVoteReply}
      → v < n
      → Among c.requests args
      → v ≢ args.candidate_id
      → request_vote1 ar (c.node v) args now ≡ ok (t, reply)
      → reply.vote_granted ≡ true
      → Next ar n f (record c {
        node = put c.node v t;
        answers = record { voter = v; args = args; reply = reply } ∷ c.answers;
      })
  grants-IsFair v now args {t} {reply} inside among other h granted =
      let p = f.placed v inside in
      let to = args.candidate_id in
      let b =
        Casts-IsCast ar {term = args.term} {to = to} (grants args now reply h granted refl refl) in
      (
        record {
          gave = mark f.gave v args.term to;
          single = cast-IsSingle ar n f.gave v (c.node v) p t args.term to f.single b;
          placed =
              put-IsPlaced ar n c f v t args.term to inside
                (Step-Keeps ar p.recorded (votes args now reply h))
                (request_vote1-Stays ar (c.node v) args now h) b;
          asked = λ args' m. mark-IsAsked n f.gave v args.term to args' (f.asked args' m);
          told =
              answer-IsTold (mark f.gave v args.term to) v args reply inside other
                (mark-IsAsked n f.gave v args.term to args (f.asked args among))
                (λ g.
                  (request_vote1-term ar (c.node v) args now h g, mark-new f.gave v args.term to))
                (λ a m. mark-IsTold n f.gave v args.term to a (f.told a m));
          tallied = vote-IsTallied n f.gave c.returned c.vote_num f.tallied v args.term to other;
        },
        mark-keeps f.gave v args.term to,
      )

-- A step keeps a cluster fair, and every vote that was given stays given.
pub step-IsFair :
    (ar : Archive) (n : ℕ) {c d : Cluster} (f : IsFair ar n c)
    → ClusterStep ar n c d
    → Next ar n f d
step-IsFair ar n {c} f (node_moves i inside step other) = moves-IsFair ar n c f i inside step other
step-IsFair ar n {c} f (node_stands i now inside h) = stands-IsFair ar n c f i now inside h
step-IsFair ar n {c} f (node_votes v now args {reply = reply} inside among other h) =
    elim (Bool-cases reply.vote_granted) [
      | inl granted ↦ grants-IsFair ar n c f v now args inside among other h granted
      | inr refused ↦ refuses-IsFair ar n c f v now args inside among other h refused
    ]
step-IsFair ar n {c} f (node_counts a among fresh h) = counts-IsFair ar n c f a among fresh h

pub Reached-IsFair : (ar : Archive) (n : ℕ) {c : Cluster} → Reached ar n c → IsFair ar n c
Reached-IsFair ar n {c} (begun new) = IsNew-IsFair ar n c new
Reached-IsFair ar n (later {c = b} before step) =
    (step-IsFair ar n (Reached-IsFair ar n before) step).0

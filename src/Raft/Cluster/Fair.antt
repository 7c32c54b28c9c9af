-- ===== src/Raft/Cluster/Fair.antt =====
-- What every step of a cluster keeps.
use my_kv_storage_base_raft.Common.{ℕ, ◌<◌, ◌≡◌, inr, true, false, Among}
use my_kv_storage_base_raft.Raft.Types.{RequestVoteArgs}
use my_kv_storage_base_raft.Raft.State.{Raft, Archive}
use my_kv_storage_base_raft.Raft.Persist.{persist_node}
use my_kv_storage_base_raft.Raft.History.Keeps.{Keeps}
use my_kv_storage_base_raft.Raft.History.Steps.{Step, Step-Keeps}
use my_kv_storage_base_raft.Raft.History.Stays.{Stays, other-Stays, IsOther}
use my_kv_storage_base_raft.Raft.History.OneVote.{IsCast}
use my_kv_storage_base_raft.Raft.Cluster.{Cluster, Answer, put, mark, IsNew}
use my_kv_storage_base_raft.Raft.Cluster.Ballots.{
  Gave, IsPlaced, IsSingle, put-elim, mark-keeps, Stays-IsPlaced, weaken-IsPlaced, cast-IsPlaced,
}
use my_kv_storage_base_raft.Raft.Cluster.Tally.{IsTallied, IsTold}

-- A request comes from a candidate that has voted for itself.
pub record IsAsked (n : ℕ) (gave : Gave) (args : RequestVoteArgs) : Type 0 where
  pub candidate : args.candidate_id < n
  pub self : gave args.candidate_id args.term args.candidate_id ≡ true

pub record IsFair (ar : Archive) (n : ℕ) (c : Cluster) : Type 0 where
  pub gave : Gave
  pub single : IsSingle gave
  pub placed : (i : ℕ) → i < n → IsPlaced ar n gave i (c.node i)
  pub asked : (args : RequestVoteArgs) → Among c.requests args → IsAsked n gave args
  pub told : (a : Answer) → Among c.answers a → IsTold n gave a
  pub tallied : IsTallied n gave c.returned c.vote_num

-- A fair cluster in which every vote that was given stays given.
abbrev pub Next : (ar : Archive) (n : ℕ) {c : Cluster} → IsFair ar n c → Cluster → Type 0
Next ar n f d =
    (g : IsFair ar n d) × ((v term to : ℕ) → f.gave v term to ≡ true → g.gave v term to ≡ true)

pub IsNew-IsFair : (ar : Archive) (n : ℕ) (c : Cluster) → IsNew n c → IsFair ar n c
unfolding persist_node
IsNew-IsFair ar n c new = record {
  gave = λ _ _ _. false;
  single = λ v term first second h k. cc h;
  placed = λ i inside. record {
    me = new.me i inside;
    peers = new.peers i inside;
    recorded = inr (new.blank i inside);
    heard = λ term to h. cc h;
    leads = λ l. absurd (new.not_leader i inside l);
  };
  asked = λ args m. absurd (rw new.requests at m);
  told = λ a m. absurd (rw new.answers at m);
  tallied = λ i term inside h. cc h;
}

pub mark-IsAsked :
    (n : ℕ) (gave : Gave) (v term to : ℕ) (args : RequestVoteArgs)
    → IsAsked n gave args
    → IsAsked n (mark gave v term to) args
mark-IsAsked n gave v term to args h = record {
  candidate = h.candidate;
  self = mark-keeps gave v term to args.candidate_id args.term args.candidate_id h.self;
}

pub mark-IsTold :
    (n : ℕ) (gave : Gave) (v term to : ℕ) (a : Answer)
    → IsTold n gave a
    → IsTold n (mark gave v term to) a
mark-IsTold n gave v term to a h = record {
  voter = h.voter;
  candidate = h.candidate;
  other = h.other;
  self = mark-keeps gave v term to a.args.candidate_id a.args.term a.args.candidate_id h.self;
  granted = λ g.
      let k = h.granted g in
      (k.0, mark-keeps gave v term to a.voter a.args.term a.args.candidate_id k.1);
}

module _ (ar : Archive) (n : ℕ) (c : Cluster) (f : IsFair ar n c) where
  pub moves-IsFair :
      (i : ℕ) {t : Raft}
      → i < n
      → (step : Step ar (c.node i) t) → IsOther step
      → Next ar n f (record c { node = put c.node i t })
  moves-IsFair i {t} inside step other = (
    record {
      gave = f.gave;
      single = f.single;
      placed =
          put-elim (λ j s. j < n → IsPlaced ar n f.gave j s) c.node i t
            (λ _.
              let p = f.placed i inside in
              Stays-IsPlaced ar n f.gave i (c.node i) p t (Step-Keeps ar p.recorded step)
                (other-Stays ar step other))
            (λ j _. f.placed j);
      asked = f.asked;
      told = f.told;
      tallied = f.tallied;
    },
    λ v term to h. h,
  )

  -- The votes and the nodes after `v` has given its vote.
  pub put-IsPlaced :
      (v : ℕ) (t : Raft) (term to : ℕ)
      → v < n
      → Keeps ar (c.node v) t
      → Stays (c.node v) t
      → IsCast ar (c.node v) t term to
      → (j : ℕ) → j < n
      → IsPlaced ar n (mark f.gave v term to) j (put c.node v t j)
  put-IsPlaced v t term to inside k e b =
      put-elim (λ j s. j < n → IsPlaced ar n (mark f.gave v term to) j s) c.node v t
        (λ _. cast-IsPlaced ar n f.gave v (c.node v) (f.placed v inside) t term to k e b)
        (λ j other below.
          weaken-IsPlaced ar n f.gave j (c.node j) (f.placed j below) v term to other)

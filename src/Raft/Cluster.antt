-- ===== src/Raft/Cluster.antt =====
-- The nodes of a cluster and the elections between them: `doElection`, `RequestVote1` and
-- `sendRequestVote` of different nodes, and the messages on their way.
pub mod Counting
pub mod Ballots
pub mod Tally
pub mod Counted
pub mod Fair
pub mod Rounds
pub mod OneLeader
use my_kv_storage_base_raft.Common.{
  ℕ, ◌<◌, ◌≡◌, ◌≢◌, ◌⊎◌, Among, Bool, true, false, ◌&&◌, ◌||◌, ◌==◌, some, List, [], ◌∷◌,
  if◌then◌else◌,
}
use my_kv_storage_base_raft.Raft.Types.{ok, leader, RequestVoteArgs, RequestVoteReply}
use my_kv_storage_base_raft.Raft.State.{Raft, Archive}
use my_kv_storage_base_raft.Raft.Persist.Durable.{IsBlank}
use my_kv_storage_base_raft.Raft.Vote.{request_vote1, do_election, send_request_vote}
use my_kv_storage_base_raft.Raft.History.Steps.{Step}
use my_kv_storage_base_raft.Raft.History.Stays.{IsOther}

-- What a node answered to a request for its vote.
pub record Answer : Type 0 where
  pub voter : ℕ
  pub args : RequestVoteArgs
  pub reply : RequestVoteReply

pub record Cluster : Type 0 where
  pub node : ℕ → Raft
  -- The counter that the calls of one election share, by candidate and term.
  pub vote_num : ℕ → ℕ → ℕ
  -- The peers whose call has returned, by candidate and term.
  pub returned : ℕ → ℕ → ℕ → Bool
  pub requests : List RequestVoteArgs
  pub answers : List Answer

-- A write at one place, and at one place of a table.
unfoldable pub put : {A : Type 0} → (ℕ → A) → ℕ → A → ℕ → A
put f i a j = if j == i then a else f j

unfoldable pub put2 : {A : Type 0} → (ℕ → ℕ → A) → ℕ → ℕ → A → ℕ → ℕ → A
unfolding put
put2 f i j a = put f i (put (f i) j a)

-- One more place at which the test holds.
unfoldable pub mark : (ℕ → ℕ → ℕ → Bool) → ℕ → ℕ → ℕ → ℕ → ℕ → ℕ → Bool
mark f i j k i' j' k' = f i' j' k' || (i' == i && (j' == j && k' == k))

-- A cluster of `n` nodes that were just started for the first time.
pub record IsNew (n : ℕ) (c : Cluster) : Type 0 where
  pub me : (i : ℕ) → i < n → (c.node i).me ≡ i
  pub peers : (i : ℕ) → i < n → (c.node i).peers ≡ n
  pub blank : (i : ℕ) → i < n → IsBlank (c.node i)
  pub not_leader : (i : ℕ) → i < n → (c.node i).status ≢ leader
  pub requests : c.requests ≡ []
  pub answers : c.answers ≡ []

-- One step of the cluster. A request or an answer may be late or lost, and a request may be
-- answered more than once, in any order; but the call to a peer returns one answer at most.
pub data ClusterStep (ar : Archive) (n : ℕ) (c : Cluster) : Cluster → Type 0 where
  node_moves :
      (i : ℕ) {t : Raft}
      → i < n
      → (step : Step ar (c.node i) t) → IsOther step
      → ClusterStep ar n c (record c { node = put c.node i t })
  node_stands :
      (i now : ℕ) {t : Raft} {args : RequestVoteArgs}
      → i < n
      → do_election ar (c.node i) now ≡ some (t, args)
      → ClusterStep ar n c (record c {
        node = put c.node i t;
        vote_num = put2 c.vote_num i args.term 1;
        requests = args ∷ c.requests;
      })
  node_votes :
      (v now : ℕ) (args : RequestVoteArgs) {t : Raft} {reply : RequestVoteReply}
      → v < n
      → Among c.requests args
      → v ≢ args.candidate_id
      → request_vote1 ar (c.node v) args now ≡ ok (t, reply)
      → ClusterStep ar n c (record c {
        node = put c.node v t;
        answers = record { voter = v; args = args; reply = reply } ∷ c.answers;
      })
  node_counts :
      (a : Answer) {t : Raft} {m : ℕ}
      → Among c.answers a
      → c.returned a.args.candidate_id a.args.term a.voter ≡ false
      → send_request_vote ar
          (c.node a.args.candidate_id)
          (some a.reply)
          (c.vote_num a.args.candidate_id a.args.term)
        ≡ ok (t, m)
      → ClusterStep ar n c (record c {
        node = put c.node a.args.candidate_id t;
        vote_num = put2 c.vote_num a.args.candidate_id a.args.term m;
        returned = mark c.returned a.args.candidate_id a.args.term a.voter;
      })

-- What can become of a cluster of `n` new nodes.
pub data Reached (ar : Archive) (n : ℕ) : Cluster → Type 0 where
  begun : {c : Cluster} → IsNew n c → Reached ar n c
  later : {c d : Cluster} → Reached ar n c → ClusterStep ar n c d → Reached ar n d

-- ===== src/Raft/Exchange/Sound.antt =====
-- What holds of the entries of a system: the invariant, and how a step carries it on.
use my_kv_storage_base_raft.Common.{
  ℕ, ◌≤◌, ◌<◌, ◌≡◌, refl, sym, inl, inr, Among, Among-append, List, ◌++◌, arith, some,
}
use my_kv_storage_base_raft.Raft.Types.{LogEntry, AppendEntriesArgs, Waits}
use my_kv_storage_base_raft.Raft.State.{Raft, Archive}
use my_kv_storage_base_raft.Raft.Log.{get_last_log_index}
use my_kv_storage_base_raft.Raft.Vote.{majority}
use my_kv_storage_base_raft.Raft.History.Steps.{Step, votes, elects, counts}
use my_kv_storage_base_raft.Raft.Cluster.{
  Cluster, put, ClusterStep, node_moves, node_stands, node_votes, node_counts,
}
use my_kv_storage_base_raft.Raft.Cluster.Counting.{count, count-weaken}
use my_kv_storage_base_raft.Raft.Cluster.Ballots.{Gave, put-elim}
use my_kv_storage_base_raft.Raft.Cluster.Fair.{IsFair, Next}
use my_kv_storage_base_raft.Raft.Exchange.{Network, Delivers, Happens, sent_by, messages_of}
use my_kv_storage_base_raft.Raft.Exchange.Origin.{Grows}
use my_kv_storage_base_raft.Raft.Exchange.Arrivals.{sent_by-Waits}

-- A node got the votes of a majority in the entry's term, and its log reaches up to the entry.
pub record IsOwned (n : ℕ) (gave : Gave) (node : ℕ → Raft) (e : LogEntry) : Type 0 where
  pub owner : ℕ
  pub inside : owner < n
  pub elected : majority n ≤ count n (λ v. gave v e.log_term owner)
  pub reached : e.log_index ≤ get_last_log_index (node owner)

-- Entries of the same term and index are the same.
abbrev pub IsUnique : List LogEntry → Type 0
IsUnique made =
    (e f : LogEntry)
    → Among made e
    → Among made f
    → e.log_term ≡ f.log_term
    → e.log_index ≡ f.log_index
    → e ≡ f

-- Every entry of a log is among the made ones, and so is every one that waits.
pub record IsHeld (made : List LogEntry) (s : Raft) : Type 0 where
  pub logs : (e : LogEntry) → Among s.logs e → Among made e
  pub waits : (e : LogEntry) → Waits s.pending_entries e → Among made e

pub record IsSound (ar : Archive) (n : ℕ) (z : Network) : Type 0 where
  pub fair : IsFair ar n z.cluster
  pub made : List LogEntry
  pub unique : IsUnique made
  pub held : (i : ℕ) → i < n → IsHeld made (z.cluster.node i)
  pub carried :
      (m : AppendEntriesArgs) (e : LogEntry) → Among z.sent m → Among m.entries e → Among made e
  pub owned : (e : LogEntry) → Among made e → IsOwned n fair.gave z.cluster.node e

-- The one node that a step of the cluster moves.
pub record Moves (ar : Archive) (n : ℕ) (sent : List AppendEntriesArgs) (c d : Cluster)
    (messages : List AppendEntriesArgs) : Type 0 where
  pub mover : ℕ
  pub inside : mover < n
  pub after : Raft
  pub nodes : d.node ≡ put c.node mover after
  pub step : Step ar (c.node mover) after
  pub delivered : Delivers sent step
  pub outgoing : messages ≡ sent_by step

pub ClusterStep-Moves :
    (ar : Archive) (n : ℕ) (sent : List AppendEntriesArgs) {c d : Cluster} (f : IsFair ar n c)
    → (step : ClusterStep ar n c d) → Happens sent step
    → Moves ar n sent c d (messages_of step)
ClusterStep-Moves ar n sent f (node_moves i {t} inside step other) h = record {
  mover = i;
  inside = inside;
  after = t;
  nodes = refl;
  step = step;
  delivered = h;
  outgoing = refl;
}
ClusterStep-Moves ar n sent f (node_stands i now {t} {args} inside e) h = record {
  mover = i;
  inside = inside;
  after = t;
  nodes = refl;
  step = elects now args e;
  delivered = tt;
  outgoing = refl;
}
ClusterStep-Moves ar n sent f (node_votes v now args {t} {reply} inside among other e) h = record {
  mover = v;
  inside = inside;
  after = t;
  nodes = refl;
  step = votes args now reply e;
  delivered = tt;
  outgoing = refl;
}
ClusterStep-Moves ar n sent {c} f (node_counts a {t} {m} among fresh e) h = record {
  mover = a.args.candidate_id;
  inside = (f.told a among).candidate;
  after = t;
  nodes = refl;
  step = counts (some a.reply) (c.vote_num a.args.candidate_id a.args.term) m e;
  delivered = tt;
  outgoing = refl;
}

module _ (ar : Archive) (n : ℕ) (z : Network) (s : IsSound ar n z) where
  pub moved-IsOwned :
      (d : Cluster) (next : Next ar n s.fair d) (i : ℕ) (t : Raft)
      → d.node ≡ put z.cluster.node i t
      → get_last_log_index (z.cluster.node i) ≤ get_last_log_index t
      → (e : LogEntry) → Among s.made e
      → IsOwned n next.0.gave d.node e
  moved-IsOwned d next i t nodes higher e m =
      let o = s.owned e m in
      record {
        owner = o.owner;
        inside = o.inside;
        elected = omega (
          arith,
          o.elected,
          count-weaken n (λ v. s.fair.gave v e.log_term o.owner)
              (λ v. next.0.gave v e.log_term o.owner) (λ v _. next.1 v e.log_term o.owner),
        );
        reached = rw nodes (
            put-elim (λ j (r : Raft). j ≡ o.owner → e.log_index ≤ get_last_log_index r)
              z.cluster.node i t (λ same. omega (arith, rw (sym same) at o.reached, higher))
              (λ j other same. rw same o.reached) o.owner refl);
      }

  -- A step that adds `new` to what was made.
  pub carry :
      (d : Cluster) (messages : List AppendEntriesArgs) (next : Next ar n s.fair d)
      (v : Moves ar n z.sent z.cluster d messages) (made : List LogEntry)
      → IsUnique made
      → ((e : LogEntry) → Among s.made e → Among made e)
      → ((e : LogEntry) → Among made e → IsOwned n next.0.gave d.node e)
      → Grows (Among made) (z.cluster.node v.mover) v.after
      → IsSound ar n (record { cluster = d; sent = messages ++ z.sent })
  carry d messages next v made unique grown owned g = record {
    fair = next.0;
    made = made;
    unique = unique;
    held = rw (v.nodes) (
        put-elim (λ j (r : Raft). j < n → IsHeld made r) z.cluster.node v.mover v.after
          (λ _.
            let here = s.held v.mover v.inside in
            record {
              logs =
                  λ e m. elim (g.logs e m) [ inl old ↦ grown e (here.logs e old) | inr new ↦ new ];
              waits = λ e m. elim (g.waits e m) [
                | inl old ↦ grown e (here.waits e old)
                | inr new ↦ new
              ];
            })
          (λ j other below.
            let there = s.held j below in
            record {
              logs = λ e m. grown e (there.logs e m);
              waits = λ e m. grown e (there.waits e m);
            }));
    carried = λ m e there inside. elim (Among-append messages z.sent m there) [
      | inl sent ↦ grown e (
          (s.held v.mover v.inside).waits e
            (sent_by-Waits ar v.step m e (rw (v.outgoing) at sent) inside))
      | inr old ↦ grown e (s.carried m e old inside)
    ];
    owned = owned;
  }

-- ===== src/Raft/Exchange/Terms.antt =====
-- The terms of the entries against the terms of the nodes that hold them.
use my_kv_storage_base_raft.Common.{ℕ, ◌≤◌, ◌<◌, ap, inl, inr, Among, Among-append, ◌++◌, arith}
use my_kv_storage_base_raft.Raft.Types.{LogEntry, Waits}
use my_kv_storage_base_raft.Raft.State.{Raft, Archive, PersistRaftNode}
use my_kv_storage_base_raft.Raft.Persist.{persist_node}
use my_kv_storage_base_raft.Raft.History.Keeps.{Advances}
use my_kv_storage_base_raft.Raft.History.Steps.{Step-Keeps}
use my_kv_storage_base_raft.Raft.Cluster.{Cluster, ClusterStep}
use my_kv_storage_base_raft.Raft.Cluster.Ballots.{put-elim}
use my_kv_storage_base_raft.Raft.Exchange.{Network, Happens, messages_of, IsIdle, Runs, rests, acts}
use my_kv_storage_base_raft.Raft.Exchange.Starting.{blank-empty}
use my_kv_storage_base_raft.Raft.Exchange.Arrivals.{Step-Grows, sent_by-Waits}
use my_kv_storage_base_raft.Raft.Exchange.Sound.{IsSound, ClusterStep-Moves}
use my_kv_storage_base_raft.Raft.Exchange.OneEntry.{Runs-IsSound}
use my_kv_storage_base_raft.Raft.Exchange.Dated.{AllTermed, Arrives-term, sent_by-term}

-- The entries of the log and of the buffers are of no later term than the node.
pub record IsTermed (s : Raft) : Type 0 where
  pub logs : (e : LogEntry) → Among s.logs e → e.log_term ≤ s.current_term
  pub waits : (e : LogEntry) → Waits s.pending_entries e → e.log_term ≤ s.current_term

pub record AreTermed (n : ℕ) (z : Network) : Type 0 where
  pub nodes : (i : ℕ) → i < n → IsTermed (z.cluster.node i)
  pub requests : AllTermed z.sent

Advances-term : (s t : Raft) → Advances s t → s.current_term ≤ t.current_term
Advances-term s t h = ground arith

step-AreTermed :
    (ar : Archive) (n : ℕ) (z : Network) {d : Cluster} (s : IsSound ar n z)
    → AreTermed n z
    → (step : ClusterStep ar n z.cluster d) → Happens z.sent step
    → AreTermed n (record { cluster = d; sent = messages_of step ++ z.sent })
step-AreTermed ar n z {d} s a step h =
    let v = ClusterStep-Moves ar n z.sent s.fair step h in
    let r = z.cluster.node v.mover in
    let recorded = (s.fair.placed v.mover v.inside).recorded in
    let g = Step-Grows ar z.sent recorded v.step v.delivered in
    let rises = Advances-term r v.after (Step-Keeps ar recorded v.step).advances in
    let here = a.nodes v.mover v.inside in
    record {
      nodes = rw (v.nodes) (
          put-elim (λ j (q : Raft). j < n → IsTermed q) z.cluster.node v.mover v.after
            (λ _. record {
              logs = λ e m. elim (g.logs e m) [
                | inl old ↦ omega (arith, here.logs e old, rises)
                | inr new ↦ Arrives-term ar z.sent v.step e a.requests v.delivered new
              ];
              waits = λ e w. elim (g.waits e w) [
                | inl old ↦ omega (arith, here.waits e old, rises)
                | inr new ↦ Arrives-term ar z.sent v.step e a.requests v.delivered new
              ];
            })
            (λ j other below. a.nodes j below));
      requests = λ m e there inside. elim (Among-append (messages_of step) z.sent m there) [
        | inr old ↦ a.requests m e old inside
        | inl new ↦
            let mine = rw (v.outgoing) at new in
            omega (
              arith,
              sent_by-term ar v.step m e mine inside,
              here.waits e (sent_by-Waits ar v.step m e mine inside),
            )
      ];
    }

IsIdle-AreTermed : (n : ℕ) (z : Network) → IsIdle n z → AreTermed n z
unfolding persist_node
IsIdle-AreTermed n z idle = record {
  nodes = λ i inside.
      let none = ap (λ (p : PersistRaftNode). p.logs) (idle.new.blank i inside).node in
      record {
        logs = λ e m. absurd (rw (blank-empty (z.cluster.node i).logs none) at m);
        waits = λ e w. absurd (idle.idle i e inside w);
      };
  requests = λ m e there inside. absurd (rw idle.sent at there);
}

-- In what any run of a cluster has come to, no entry is of a later term than whoever has it: an entry
-- of a node's log or buffers is of no later term than the node, and an entry of a request that was
-- sent of no later term than the request. The run starts from new nodes; requests arrive late, more
-- than once, in another order or never; a node is restarted only while its entries carry the indices
-- of their places.
pub Runs-AreTermed : (ar : Archive) (n : ℕ) {z : Network} → Runs ar n z → AreTermed n z
Runs-AreTermed ar n {z} (rests idle) = IsIdle-AreTermed n z idle
Runs-AreTermed ar n (acts {z = y} before step h) =
    step-AreTermed ar n y (Runs-IsSound ar n before) (Runs-AreTermed ar n before) step h

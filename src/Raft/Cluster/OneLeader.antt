-- ===== src/Raft/Cluster/OneLeader.antt =====
-- A term has one leader.
use my_kv_storage_base_raft.Common.{ℕ, ◌<◌, ◌≡◌, sym, arith}
use my_kv_storage_base_raft.Raft.Types.{leader}
use my_kv_storage_base_raft.Raft.State.{Archive}
use my_kv_storage_base_raft.Raft.Cluster.{Cluster, Reached}
use my_kv_storage_base_raft.Raft.Cluster.Counting.{count-meet}
use my_kv_storage_base_raft.Raft.Cluster.Rounds.{Reached-IsFair}

-- In a cluster that any steps have reached from new nodes, two nodes that lead in the same term are
-- the same node. The steps are those of each node, restarts included, with the requests for votes
-- and the answers between them late, lost or in another order.
pub one_leader_per_term :
    (ar : Archive) (n : ℕ) {c : Cluster} (i j : ℕ)
    → Reached ar n c
    → i < n
    → j < n
    → (c.node i).status ≡ leader
    → (c.node j).status ≡ leader
    → (c.node i).current_term ≡ (c.node j).current_term
    → i ≡ j
one_leader_per_term ar n {c} i j r inside below first second same =
    let f = Reached-IsFair ar n r in
    let term = (c.node i).current_term in
    let here = (f.placed i inside).leads first in
    let there = rw (sym same) at ((f.placed j below).leads second) in
    let (v, _, left, right) =
      count-meet n (λ v. f.gave v term i) (λ v. f.gave v term j) (omega (arith, here, there)) in
    f.single v term i j left right

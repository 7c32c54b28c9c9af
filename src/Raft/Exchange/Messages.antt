-- ===== src/Raft/Exchange/Messages.antt =====
-- What two nodes of a cluster hand to the state machines above them.
use my_kv_storage_base_raft.Common.{
  ℕ, zero, suc, ◌-◌, ◌<◌, ◌≡◌, sym, ◌∙◌, inl, inr, Among, pos, Option-cases, some, List, [], ◌∷◌,
  arith, leb, Bool-cases, get_elem?, true,
}
use my_kv_storage_base_raft.Raft.Types.{ok, LogEntry, ApplyMsg}
use my_kv_storage_base_raft.Raft.State.{Raft, Archive}
use my_kv_storage_base_raft.Raft.Log.{get_log_term_from_log_index, get_slices_index_from_log_index}
use my_kv_storage_base_raft.Raft.Log.Shape.{IsIndexed}
use my_kv_storage_base_raft.Raft.Apply.{apply_msg}
use my_kv_storage_base_raft.Raft.Apply.InOrder.{index_at}
use my_kv_storage_base_raft.Raft.Exchange.{Network, Runs}
use my_kv_storage_base_raft.Raft.Exchange.OneEntry.{one_entry_per_index}

get_elem?-Among :
    (logs : List LogEntry) (k : ℕ) {e : LogEntry} → get_elem? logs k ≡ some e → Among logs e
get_elem?-Among [] k h = cc h
get_elem?-Among (l ∷ ls) zero {e} h = inl (ground arith)
get_elem?-Among (l ∷ ls) (suc k) h = inr (get_elem?-Among ls k h)

-- The entry that a message is made of.
record IsMade (s : Raft) (k : ℕ) (msg : ApplyMsg) : Type 0 where
  pub entry : LogEntry
  pub among : Among s.logs entry
  pub in_term : get_log_term_from_log_index s k ≡ pos entry.log_term
  pub in_place : entry.log_index ≡ k
  pub message : msg ≡ record { command_valid = true; index = k; command = entry.command }

apply_msg-IsMade :
    (s : Raft) (k : ℕ) {msg : ApplyMsg} → IsIndexed s → apply_msg s k ≡ ok msg → IsMade s k msg
unfolding apply_msg get_slices_index_from_log_index get_log_term_from_log_index
apply_msg-IsMade s k {msg} x h = elim (Bool-cases (leb k s.last_snapshot_include_index)) [
  | inl swallowed ↦ cc (rw swallowed at h)
  | inr behind ↦
      let place = k - s.last_snapshot_include_index - 1 in
      elim (Option-cases (get_elem? s.logs place)) [
        | inl none ↦ cc (rw (behind, none) at h)
        | inr (e, found) ↦ record {
          entry = e;
          among = get_elem?-Among s.logs place found;
          in_term = ground arith;
          in_place = ground (arith, index_at s.last_snapshot_include_index place s.logs x found);
          message = ground (arith, rw (behind, found) at h);
        }
      ]
]

-- In what any run of a cluster has come to, two nodes that have the same term at an index hand the
-- same message for that index to their state machines. The runs are those in which requests arrive
-- late, more than once, in another order or never, and a node is restarted only while its entries
-- carry the indices of their places; and so do the entries of the two nodes.
pub apply_msg-same :
    (ar : Archive) (n : ℕ) {z : Network} (i j k : ℕ) {first second : ApplyMsg}
    → Runs ar n z
    → i < n
    → j < n
    → IsIndexed (z.cluster.node i)
    → IsIndexed (z.cluster.node j)
    → get_log_term_from_log_index (z.cluster.node i) k
      ≡ get_log_term_from_log_index (z.cluster.node j) k
    → apply_msg (z.cluster.node i) k ≡ ok first
    → apply_msg (z.cluster.node j) k ≡ ok second
    → first ≡ second
apply_msg-same ar n {z} i j k run inside below x y term here there =
    let a = apply_msg-IsMade (z.cluster.node i) k x here in
    let b = apply_msg-IsMade (z.cluster.node j) k y there in
    let same : a.entry.log_term ≡ b.entry.log_term = ground (arith, a.in_term, b.in_term, term) in
    let one =
      one_entry_per_index ar n a.entry b.entry run (inl (i, inside, a.among))
        (inl (j, below, b.among)) same (a.in_place ∙ sym b.in_place) in
    a.message ∙ (rw one (sym b.message))

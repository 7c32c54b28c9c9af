-- ===== src/Raft/Apply/InOrder.antt =====
-- What the state machine is given.
use my_kv_storage_base_raft.Common.{
  ℕ, zero, suc, ◌+◌, ◌-◌, ◌≤◌, ◌≡◌, refl, true, false, List, [], ◌∷◌, map, take, drop, length,
  arith, ltb, leb, some, get_elem?, get_elem?-lt, if◌then◌else◌, max,
}
use my_kv_storage_base_raft.Raft.Types.{ok, LogEntry, ApplyMsg}
use my_kv_storage_base_raft.Raft.State.{Raft}
use my_kv_storage_base_raft.Raft.Log.{get_last_log_index, get_slices_index_from_log_index}
use my_kv_storage_base_raft.Raft.Log.Shape.{IndexedFrom, IsIndexed}
use my_kv_storage_base_raft.Raft.Apply.{apply_msg, apply_msgs, applier_round, push_msgs}

-- The message for an entry, under the entry's own index.
abbrev pub message : LogEntry → ApplyMsg
message e = record { command_valid = true; index = e.log_index; command = e.command }

-- The entries that are committed and not applied.
abbrev pub unapplied : Raft → List LogEntry
unapplied s =
    take (s.commit_index - s.last_applied)
      (drop (s.last_applied - s.last_snapshot_include_index) s.logs)

-- Behind the snapshot, and not beyond the log.
pub record IsApplicable (s : Raft) : Type 0 where
  pub indexed : IsIndexed s
  pub behind_snapshot : s.last_snapshot_include_index ≤ s.last_applied
  pub in_log : s.commit_index ≤ get_last_log_index s
  pub applied_in_log : s.last_applied ≤ get_last_log_index s

drop-get :
    (k : ℕ) (logs : List LogEntry) {e : LogEntry}
    → get_elem? logs k ≡ some e
    → drop k logs ≡ e ∷ drop (suc k) logs
drop-get k [] h = cc
drop-get zero (l ∷ ls) h = ground arith
drop-get (suc k) (l ∷ ls) h = drop-get k ls h

pub index_at :
    (from k : ℕ) (logs : List LogEntry) {e : LogEntry}
    → IndexedFrom from logs
    → get_elem? logs k ≡ some e
    → e.log_index ≡ suc (from + k)
index_at from k [] h g = cc
index_at from zero (l ∷ ls) h g = ground (arith, h.0)
index_at from (suc k) (l ∷ ls) h g = omega (arith, index_at (suc from) k ls h.1 g)

apply_msg-message :
    (s : Raft) (k : ℕ) {e : LogEntry}
    → IsIndexed s
    → get_elem? s.logs k ≡ some e
    → apply_msg s (suc (s.last_snapshot_include_index + k)) ≡ ok (message e)
unfolding apply_msg get_slices_index_from_log_index
apply_msg-message s k {e} h g =
    let above : leb (suc (s.last_snapshot_include_index + k)) s.last_snapshot_include_index
        ≡ false =
      ground arith in
    let place : suc (s.last_snapshot_include_index + k) - s.last_snapshot_include_index - 1 ≡ k =
      omega arith in
    let i = index_at s.last_snapshot_include_index k s.logs h g in rw (above, place, g, i) refl

apply_msgs-map :
    (s : Raft) (k n : ℕ)
    → IsIndexed s
    → k + n ≤ length s.logs
    → apply_msgs s (s.last_snapshot_include_index + k) n ≡ ok (map message (take n (drop k s.logs)))
unfolding apply_msgs
apply_msgs-map s k zero h fits = refl
apply_msgs-map s k (suc n) h fits =
    let (e, g) = get_elem?-lt s.logs k (omega arith) in
    let next : suc (s.last_snapshot_include_index + k) ≡ s.last_snapshot_include_index + suc k =
      omega arith in
    let rest = apply_msgs-map s (suc k) n h (omega arith) in
    rw (apply_msg-message s k h g, drop-get k s.logs g, next, rest) refl

-- A round of the applier, on a node whose entries carry consecutive indices, that has applied what
-- the snapshot holds and has applied and committed no index beyond its log, ends without a fault: it pushes one
-- message for each committed entry that was not applied, in the order of the log and under the
-- entry's own index, and nothing else, and has applied all that is committed.
pub applier_round-in_order :
    (s : Raft)
    → IsApplicable s
    → applier_round s
      ≡ ok (record s {
        last_applied = max s.last_applied s.commit_index;
        apply_chan = push_msgs s.apply_chan (map message (unapplied s));
      })
unfolding applier_round get_last_log_index
applier_round-in_order s a =
    let k = s.last_applied - s.last_snapshot_include_index in
    let place : s.last_snapshot_include_index + k ≡ s.last_applied =
      omega (arith, a.behind_snapshot) in
    let msgs =
      apply_msgs-map s k (s.commit_index - s.last_applied) a.indexed
        (omega (arith, place, a.in_log, a.applied_in_log)) in
    let reached : (if ltb s.last_applied s.commit_index then s.commit_index else s.last_applied)
        ≡ max s.last_applied s.commit_index =
      ground arith in
    rw (reached, rw place at msgs) refl

-- ===== src/Raft/Range/Applier.antt =====
-- What the applier reads of the log.
use my_kv_storage_base_raft.Common.{
  ℕ, zero, suc, ◌+◌, ◌-◌, ◌≤◌, ◌≡◌, refl, Option, List, [], ◌∷◌, arith, max, leb, false, true,
  get_elem?-lt,
}
use my_kv_storage_base_raft.Raft.Types.{ok, ApplyMsg}
use my_kv_storage_base_raft.Raft.State.{Raft, Archive}
use my_kv_storage_base_raft.Raft.Log.{get_last_log_index, get_slices_index_from_log_index}
use my_kv_storage_base_raft.Raft.Persister.{Persister}
use my_kv_storage_base_raft.Raft.Persist.{init}
use my_kv_storage_base_raft.Raft.Apply.{apply_msg, apply_msgs, applier_round}
use my_kv_storage_base_raft.Raft.History.Steps.{Steps}
use my_kv_storage_base_raft.Raft.Range.{IsInRange}
use my_kv_storage_base_raft.Raft.Range.Steps.{init-IsInRange, Steps-IsInRange}

apply_msg-returns :
    (s : Raft) (index : ℕ)
    → s.last_snapshot_include_index ≤ index
    → suc index ≤ get_last_log_index s
    → (msg : ApplyMsg) × (apply_msg s (suc index) ≡ ok msg)
unfolding apply_msg get_slices_index_from_log_index get_last_log_index
apply_msg-returns s index above inside =
    let k = suc index - s.last_snapshot_include_index - 1 in
    let (e, found) = get_elem?-lt s.logs k (omega (arith, above, inside)) in
    let not_swallowed : leb (suc index) s.last_snapshot_include_index ≡ false = ground arith in
    (
      record { command_valid = true; index = suc index; command = e.command },
      rw (not_swallowed, found) refl,
    )

apply_msgs-returns :
    (s : Raft) (from n : ℕ)
    → s.last_snapshot_include_index ≤ from
    → from + n ≤ get_last_log_index s
    → (msgs : List ApplyMsg) × (apply_msgs s from n ≡ ok msgs)
unfolding apply_msgs
apply_msgs-returns s from zero above inside = ([], refl)
apply_msgs-returns s from (suc n) above inside =
    let (msg, first) = apply_msg-returns s from above (omega (arith, inside)) in
    let (msgs, rest) =
      apply_msgs-returns s (suc from) n (omega (arith, above)) (omega (arith, inside)) in
    (msg ∷ msgs, rw (first, rest) refl)

applier_round-returns :
    (s : Raft)
    → IsInRange s
    → (t : Raft) × (applier_round s ≡ ok t) × (t.last_applied ≡ max s.last_applied s.commit_index)
unfolding applier_round
applier_round-returns s r =
    let (msgs, all) =
      apply_msgs-returns s s.last_applied (s.commit_index - s.last_applied) r.snapshot
        (omega (arith, r.applied, r.committed)) in
    rw all (_, refl, ground arith)

-- In the whole history of a node, restarts included, from a start over any files on that succeeds,
-- and whatever messages, snapshots and answers it gets, the applier never reads outside the log: its
-- round returns, and has applied all that is committed.
pub Steps-applier_round :
    (ar : Archive) (peers me : ℕ) (p : Persister) (ch : Option (List ApplyMsg)) (now : ℕ)
    {s t : Raft}
    → init ar peers me p ch now ≡ ok s
    → Steps ar s t
    → (u : Raft) × (applier_round t ≡ ok u) × (u.last_applied ≡ max t.last_applied t.commit_index)
Steps-applier_round ar peers me p ch now {t = t} started steps =
    applier_round-returns t (Steps-IsInRange ar (init-IsInRange ar peers me p ch now started) steps)

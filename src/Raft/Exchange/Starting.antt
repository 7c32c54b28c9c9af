-- ===== src/Raft/Exchange/Starting.antt =====
-- The entries that `Start` makes, and those that a restart keeps.
use my_kv_storage_base_raft.Common.{
  ℕ, ◌≡◌, refl, ap, ◌⊎◌, inl, inr, Bool-cases, Among-append, length, length-append, List, [], ◌∷◌,
  arith, Option, zero, suc, replicate, map,
}
use my_kv_storage_base_raft.OpCoder.{Op}
use my_kv_storage_base_raft.Raft.Types.{
  ok, LogEntry, Waits, PendingEntries, is_leader, leader, ApplyMsg,
}
use my_kv_storage_base_raft.Raft.State.{Raft, Archive, PersistRaftNode}
use my_kv_storage_base_raft.Raft.Log.{get_last_log_index}
use my_kv_storage_base_raft.Raft.Log.Shape.{IsIndexed}
use my_kv_storage_base_raft.Raft.Persist.{
  persist, persist_node, persist_entry, fresh, skip_snapshot,
}
use my_kv_storage_base_raft.Raft.Persist.Durable.{IsRecorded, IsBlank}
use my_kv_storage_base_raft.Raft.Persist.Restart.{restart, resumed, restart-eq-resumed}
use my_kv_storage_base_raft.Raft.Batch.{start, add_to_pending_batch, add_to_each, new_entry}
use my_kv_storage_base_raft.Raft.History.Restarting.{newborn, restart-newborn}
use my_kv_storage_base_raft.Raft.Exchange.Origin.{Grows, Grows-eq}

-- The entry that `Start` adds, on a leader.
abbrev pub Started : Raft → Op → LogEntry → Type 0
Started s command e = (s.status ≡ leader) × (e ≡ new_entry s command)

add_to_each-Waits :
    (me : ℕ) (entry : LogEntry) (now i : ℕ) (ps : List PendingEntries) (e : LogEntry)
    → Waits (add_to_each me entry now i ps) e
    → Waits ps e ⊎ (e ≡ entry)
unfolding add_to_each
add_to_each-Waits me entry now i [] e w = inl w
add_to_each-Waits me entry now i (p ∷ ps) e w =
    ground
      (arith, add_to_each-Waits me entry now (suc i) ps e, Among-append p.entries (entry ∷ []) e)

pub start-Grows :
    (ar : Archive) (s : Raft) (command : Op) (now : ℕ)
    → Grows (Started s command) s (start ar s command now).0
unfolding start add_to_pending_batch persist get_last_log_index
start-Grows ar s command now = elim (Bool-cases (is_leader s.status)) [
  | inr other ↦ rw other (Grows-eq (Started s command) s s refl refl (omega arith))
  | inl lead ↦
      let leads : s.status ≡ leader = ground arith in
      rw lead (record {
        logs = λ e m. elim (Among-append s.logs (new_entry s command ∷ []) e m) [
          | inl old ↦ inl old
          | inr (inl new) ↦ inr (leads, new)
          | inr (inr none) ↦ absurd none
        ];
        waits = λ e w.
            elim (add_to_each-Waits s.me (new_entry s command) now 0 s.pending_entries e w) [
              | inl old ↦ inl old
              | inr new ↦ inr (leads, new)
            ];
        last = omega (arith, length-append s.logs (new_entry s command ∷ []));
      })
]

-- The new entry has the last index.
pub start-last :
    (ar : Archive) (s : Raft) (command : Op) (now : ℕ)
    → s.status ≡ leader
    → (new_entry s command).log_index ≡ get_last_log_index (start ar s command now).0
unfolding start add_to_pending_batch persist get_last_log_index new_entry
start-last ar s command now lead =
    rw lead (omega (arith, length-append s.logs (new_entry s command ∷ [])))

-- No buffer of a started node holds an entry.
pub replicate-Waits :
    (n now : ℕ) (e : LogEntry)
    → ¬ Waits (replicate n (record { entries = []; first_entry_time_ms = now })) e
replicate-Waits zero now e w = w
replicate-Waits (suc n) now e (inl w) = w
replicate-Waits (suc n) now e (inr w) = replicate-Waits n now e w

resumed-Grows :
    (arrives : LogEntry → Type 0) (s : Raft) (ch : Option (List ApplyMsg)) (now : ℕ)
    → Grows arrives s (resumed s ch now)
unfolding resumed skip_snapshot fresh get_last_log_index
resumed-Grows arrives s ch now =
    let logs : (resumed s ch now).logs ≡ s.logs = ground arith in
    let idle : (resumed s ch now).pending_entries
        ≡ replicate s.peers (record { entries = []; first_entry_time_ms = 0 }) =
      ground arith in
    let place : (resumed s ch now).last_snapshot_include_index ≡ s.last_snapshot_include_index =
      ground arith in
    record {
      logs = λ e m. inl (rw logs at m);
      waits = λ e w. absurd (replicate-Waits s.peers 0 e (rw idle at w));
      last = omega (arith, place, ap length logs);
    }

pub blank-empty : (logs : List LogEntry) → map persist_entry logs ≡ [] → logs ≡ []
blank-empty [] e = refl
blank-empty (l ∷ ls) e = cc e

newborn-Grows :
    (arrives : LogEntry → Type 0) (s : Raft) (ch : Option (List ApplyMsg)) (now : ℕ)
    → IsBlank s
    → Grows arrives s (newborn s ch now)
unfolding newborn skip_snapshot fresh persist_node get_last_log_index
newborn-Grows arrives s ch now b =
    let none : s.logs ≡ [] = blank-empty s.logs (ap (λ (n : PersistRaftNode). n.logs) b.node) in
    let low = ap (λ (n : PersistRaftNode). n.last_snapshot_include_index) b.node in
    record {
      logs = λ e m. absurd m;
      waits = λ e w. absurd (replicate-Waits s.peers 0 e w);
      last = omega (arith, low, ap length none);
    }

pub restart-Grows :
    (ar : Archive) (arrives : LogEntry → Type 0) (s : Raft) (ch : Option (List ApplyMsg)) (now : ℕ)
    {t : Raft}
    → IsRecorded ar s
    → IsIndexed s
    → restart ar s ch now ≡ ok t
    → Grows arrives s t
restart-Grows ar arrives s ch now {t} (inl d) x h =
    let e : t ≡ resumed s ch now = ground (arith, restart-eq-resumed ar s ch now d x) in
    rw e (resumed-Grows arrives s ch now)
restart-Grows ar arrives s ch now {t} (inr b) x h =
    let e : t ≡ newborn s ch now = ground (arith, restart-newborn ar s ch now b) in
    rw e (newborn-Grows arrives s ch now b)

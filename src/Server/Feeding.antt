-- ===== src/Server/Feeding.antt =====
-- What the applier of a node gives to the state machine, and in which order.
use mathlib.Core.List.{append-nil}
use my_kv_storage_base_raft.Common.{
  ℕ, zero, suc, ◌+◌, ◌-◌, ◌≤◌, ◌<◌, ◌≡◌, refl, ap, Option, none, some, List, [], ◌∷◌, ◌++◌, arith,
}
use my_kv_storage_base_raft.Raft.Types.{ok, ApplyMsg, >>=-returns, LogEntry}
use my_kv_storage_base_raft.Raft.State.{Raft}
use my_kv_storage_base_raft.Raft.Apply.{apply_msg, apply_msgs, applier_round, push_msgs, message_of}
use my_kv_storage_base_raft.Server.Applying.{collected}

-- The indices ascend, the first above `from` and the last not above `to`.
abbrev pub Between : ℕ → List ApplyMsg → ℕ → Type 0
Between from [] to = from ≤ to
Between from (msg ∷ msgs) to = (from < msg.index) × Between msg.index msgs to

pub Between-weaken :
    (from to later : ℕ) (msgs : List ApplyMsg)
    → Between from msgs to
    → to ≤ later
    → Between from msgs later
Between-weaken from to later [] b h = omega (arith, b, h)
Between-weaken from to later (m ∷ ms) b h = (b.0, Between-weaken m.index to later ms b.1 h)

Between-lower :
    (from first to : ℕ) (msgs : List ApplyMsg)
    → Between first msgs to
    → from ≤ first
    → Between from msgs to
Between-lower from first to [] b h = omega (arith, b, h)
Between-lower from first to (m ∷ ms) b h = (omega (arith, b.0, h), b.1)

pub Between-append :
    (from middle to : ℕ) (xs ys : List ApplyMsg)
    → Between from xs middle
    → Between middle ys to
    → Between from (xs ++ ys) to
Between-append from middle to [] ys b c = Between-lower from middle to ys c b
Between-append from middle to (x ∷ xs) ys b c = (b.0, Between-append x.index middle to xs ys b.1 c)

message_of-index :
    (index : ℕ) (e : Option LogEntry) {msg : ApplyMsg}
    → message_of index e ≡ ok msg
    → msg.index ≡ index
message_of-index index none h = cc h
message_of-index index (some e) h = ground arith

apply_msg-index :
    (s : Raft) (index : ℕ) {msg : ApplyMsg} → apply_msg s index ≡ ok msg → msg.index ≡ index
unfolding apply_msg
apply_msg-index s index h = message_of-index index _ h

apply_msgs-Between :
    (s : Raft) (from n : ℕ) {msgs : List ApplyMsg}
    → apply_msgs s from n ≡ ok msgs
    → Between from msgs (from + n)
unfolding apply_msgs
apply_msgs-Between s from zero {msgs} h =
    let none : msgs ≡ [] = ground arith in rw none (omega arith)
apply_msgs-Between s from (suc n) {msgs} h =
    let (msg, e, rest) = >>=-returns (apply_msg s (suc from)) _ h in
    let (later, e', last) = >>=-returns (apply_msgs s (suc from) n) _ rest in
    let whole : msgs ≡ msg ∷ later = ground arith in
    let index = apply_msg-index s (suc from) e in
    let b = apply_msgs-Between s (suc from) n e' in
    let same : suc from + n ≡ from + suc n = omega arith in
    rw whole (omega (arith, index), rw index (rw same at b))

-- A step pushes the messages `pushed`, behind those that wait.
pub record Feeds (s t : Raft) (pushed : List ApplyMsg) : Type 0 where
  pub chan : t.apply_chan ≡ push_msgs s.apply_chan pushed
  pub between : Between s.last_applied pushed t.last_applied

push_msgs-nil : (chan : Option (List ApplyMsg)) → push_msgs chan [] ≡ chan
unfolding push_msgs
push_msgs-nil none = refl
push_msgs-nil (some queue) = ap some (append-nil queue)

pub Feeds-quiet :
    (s t : Raft) → t.apply_chan ≡ s.apply_chan → s.last_applied ≤ t.last_applied → Feeds s t []
Feeds-quiet s t e h = record { chan = rw (push_msgs-nil s.apply_chan) e; between = h }

pub applier_round-Feeds : (s : Raft) {t : Raft} → applier_round s ≡ ok t → Feeds s t (collected s)
unfolding applier_round
applier_round-Feeds s {t} h =
    let (msgs, e, e') =
      >>=-returns (apply_msgs s s.last_applied (s.commit_index - s.last_applied)) _ h in
    let b = apply_msgs-Between s s.last_applied (s.commit_index - s.last_applied) e in
    rw e (record {
      chan = ground arith;
      between =
          Between-weaken s.last_applied (s.last_applied + (s.commit_index - s.last_applied))
            t.last_applied msgs b (ground arith);
    })

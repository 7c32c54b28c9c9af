-- ===== src/Server/Deciding.antt =====
-- Which messages the apply thread tests, and which of them it carries out.
use mathlib.Core.List.{append-nil, append_assoc}
use my_kv_storage_base_raft.Common.{
  ◌≡◌, refl, sym, ap, ◌∙◌, inl, inr, ℤ, List, [], ◌∷◌, ◌++◌, Bool-cases, Bytes, if◌then◌else◌,
}
use my_kv_storage_base_raft.OpCoder.{Op, decode_op}
use my_kv_storage_base_raft.Raft.Types.{ApplyMsg}
use my_kv_storage_base_raft.KvServer.Types.{FeatureParser, SkipList, RequestRecord, KvServer}
use my_kv_storage_base_raft.KvServer.{if_request_duplicate}
use my_kv_storage_base_raft.Server.{stored_by, tested_by}
use my_kv_storage_base_raft.Server.Applying.{
  ApplyThread, waits, tests, stores, records, indexes, wakes, tells, apply_step,
}

-- What comes of the test of a message: its operation, if the table has no request of the client that
-- is as late.
abbrev pub verdict : ℤ → ApplyMsg × List (Bytes × RequestRecord) → List Op
verdict junk (msg, requests) =
    let op = decode_op junk msg.command in
    if if_request_duplicate requests op.client_id op.request_id then [] else op ∷ []

-- The operations of the messages that passed the test.
abbrev pub let_through : ℤ → List (ApplyMsg × List (Bytes × RequestRecord)) → List Op
let_through junk [] = []
let_through junk (t ∷ ts) = verdict junk t ++ let_through junk ts

let_through-last :
    (junk : ℤ) (ts : List (ApplyMsg × List (Bytes × RequestRecord)))
    (t : ApplyMsg × List (Bytes × RequestRecord))
    → let_through junk (ts ++ t ∷ []) ≡ let_through junk ts ++ verdict junk t
let_through-last junk [] t = append-nil (verdict junk t)
let_through-last junk (u ∷ ts) t =
    ap (λ (ops : List Op). verdict junk u ++ ops) (let_through-last junk ts t)
    ∙ sym (append_assoc (verdict junk u) (let_through junk ts) (verdict junk t))

-- The messages of the tests.
abbrev pub messages : List (ApplyMsg × List (Bytes × RequestRecord)) → List ApplyMsg
messages [] = []
messages (t ∷ ts) = t.0 ∷ messages ts

messages-last :
    (ts : List (ApplyMsg × List (Bytes × RequestRecord)))
    (t : ApplyMsg × List (Bytes × RequestRecord))
    → messages (ts ++ t ∷ []) ≡ messages ts ++ t.0 ∷ []
messages-last [] t = refl
messages-last (u ∷ ts) t = ap (λ (ms : List ApplyMsg). u.0 ∷ ms) (messages-last ts t)

-- The message that was taken and is not yet tested.
abbrev pub untested : ApplyThread → List ApplyMsg
untested (tests msg op) = msg ∷ []
untested waits = []
untested (stores msg op) = []
untested (records msg op last_value) = []
untested (indexes msg op) = []
untested (wakes msg op) = []
untested (tells msg op) = []

-- The thread tests the operation of the message that it took.
abbrev pub IsOwn : ℤ → ApplyThread → Type 0
IsOwn junk (tests msg op) = op ≡ decode_op junk msg.command
IsOwn junk waits = Unit {0}
IsOwn junk (stores msg op) = Unit {0}
IsOwn junk (records msg op last_value) = Unit {0}
IsOwn junk (indexes msg op) = Unit {0}
IsOwn junk (wakes msg op) = Unit {0}
IsOwn junk (tells msg op) = Unit {0}

-- Every message that was taken was tested, but for one at most that is about to be; the operations
-- carried out are those that passed the test, but for one at most that is about to be carried out.
pub record IsDecided (junk : ℤ) (taken : List ApplyMsg)
    (tested : List (ApplyMsg × List (Bytes × RequestRecord))) (executed : List Op)
    (thread : ApplyThread) : Type 0 where
  pub all_tested : messages tested ++ untested thread ≡ taken
  pub carried_out : executed ++ stored_by thread ≡ let_through junk tested

module _ {M : Type 0} (sl : SkipList M) (parser : FeatureParser) (junk : ℤ) where
  pub apply_step-IsOwn :
      (s : KvServer M) (thread : ApplyThread)
      → IsOwn junk thread
      → IsOwn junk (apply_step sl parser s thread).1
  unfolding apply_step
  apply_step-IsOwn s waits own = tt
  apply_step-IsOwn s (tests msg op) own =
      elim (Bool-cases (if_request_duplicate s.last_requests op.client_id op.request_id)) [
        | inl old ↦ rw old tt
        | inr new ↦ rw new tt
      ]
  apply_step-IsOwn s (stores msg op) own = tt
  apply_step-IsOwn s (records msg op last_value) own = tt
  apply_step-IsOwn s (indexes msg op) own = tt
  apply_step-IsOwn s (wakes msg op) own = tt
  apply_step-IsOwn s (tells msg op) own = tt

  -- Nothing is tested, and the next thing that is done is not on the store.
  settled_still :
      (taken : List ApplyMsg) (tested : List (ApplyMsg × List (Bytes × RequestRecord)))
      (executed : List Op)
      → (messages tested ++ [] ≡ taken)
      → (executed ≡ let_through junk tested)
      → (messages (tested ++ []) ++ [] ≡ taken) × (executed ++ [] ≡ let_through junk (tested ++ []))
  settled_still taken tested executed all passed =
      rw (append-nil tested, append-nil executed) (all, passed)

  pub apply_step-IsDecided :
      (s : KvServer M) (taken : List ApplyMsg)
      (tested : List (ApplyMsg × List (Bytes × RequestRecord))) (executed : List Op)
      (thread : ApplyThread)
      → IsOwn junk thread
      → IsDecided junk taken tested executed thread
      → IsDecided junk taken
          (tested ++ tested_by thread s.last_requests)
          (executed ++ stored_by thread)
          (apply_step sl parser s thread).1
  unfolding apply_step
  apply_step-IsDecided s taken tested executed waits own d =
      let k = settled_still taken tested (executed ++ []) d.all_tested d.carried_out in
      record { all_tested = k.0; carried_out = k.1 }
  apply_step-IsDecided s taken tested executed (tests msg op) own d =
      let all : messages (tested ++ (msg, s.last_requests) ∷ []) ++ [] ≡ taken =
        append-nil (messages (tested ++ (msg, s.last_requests) ∷ []))
        ∙ messages-last tested (msg, s.last_requests)
        ∙ d.all_tested in
      let last = let_through-last junk tested (msg, s.last_requests) in
      elim (Bool-cases (if_request_duplicate s.last_requests op.client_id op.request_id)) [
        | inl old ↦ rw old (record {
          all_tested = all;
          carried_out =
              append-nil (executed ++ [])
              ∙ d.carried_out
              ∙ sym (last ∙ rw (rw own at old) (append-nil (let_through junk tested)));
        })
        | inr new ↦ rw new (record {
          all_tested = all;
          carried_out =
              ap (λ (ops : List Op). ops ++ op ∷ []) d.carried_out
              ∙ sym (last ∙ rw (rw own at new, own) refl);
        })
      ]
  apply_step-IsDecided s taken tested executed (stores msg op) own d =
      let k = settled_still taken tested (executed ++ op ∷ []) d.all_tested d.carried_out in
      record { all_tested = k.0; carried_out = k.1 }
  apply_step-IsDecided s taken tested executed (records msg op last_value) own d =
      let k = settled_still taken tested (executed ++ []) d.all_tested d.carried_out in
      record { all_tested = k.0; carried_out = k.1 }
  apply_step-IsDecided s taken tested executed (indexes msg op) own d =
      let k = settled_still taken tested (executed ++ []) d.all_tested d.carried_out in
      record { all_tested = k.0; carried_out = k.1 }
  apply_step-IsDecided s taken tested executed (wakes msg op) own d =
      let k = settled_still taken tested (executed ++ []) d.all_tested d.carried_out in
      record { all_tested = k.0; carried_out = k.1 }
  apply_step-IsDecided s taken tested executed (tells msg op) own d =
      let k = settled_still taken tested (executed ++ []) d.all_tested d.carried_out in
      record { all_tested = k.0; carried_out = k.1 }

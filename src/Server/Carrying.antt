-- ===== src/Server/Carrying.antt =====
-- What the steps of the apply thread do to the store and the index.
use mathlib.Core.List.{append-nil}
use my_kv_storage_base_raft.Common.{◌≡◌, refl, sym, inl, inr, ℤ, List, [], ◌∷◌, ◌++◌, Bool-cases}
use my_kv_storage_base_raft.OpCoder.{Op}
use my_kv_storage_base_raft.KvServer.Types.{FeatureParser, SkipList, KvServer, IndexCall}
use my_kv_storage_base_raft.KvServer.{if_request_duplicate}
use my_kv_storage_base_raft.Server.{stored_by}
use my_kv_storage_base_raft.Server.Applying.{
  ApplyThread, waits, tests, stores, records, indexes, wakes, tells, apply_step, store_op, index_op,
}

module _ {M : Type 0} (sl : SkipList M) (parser : FeatureParser) (junk : ℤ) where
  -- The store after the operations, in their order.
  abbrev pub store_ops : M → List Op → M
  store_ops m [] = m
  store_ops m (op ∷ ops) = store_ops (store_op sl m op).0 ops

  -- The calls of the index after the operations, in their order.
  abbrev pub index_ops : List IndexCall → List Op → List IndexCall
  index_ops calls [] = calls
  index_ops calls (op ∷ ops) = index_ops (index_op sl parser calls op) ops

  -- The calls of the index that there are once the operation on the store was followed by its own.
  abbrev pub calls_due : ApplyThread → List IndexCall → List IndexCall
  calls_due (records msg op last_value) calls = index_op sl parser calls op
  calls_due (indexes msg op) calls = index_op sl parser calls op
  calls_due waits calls = calls
  calls_due (tests msg op) calls = calls
  calls_due (stores msg op) calls = calls
  calls_due (wakes msg op) calls = calls
  calls_due (tells msg op) calls = calls

  store_ops-last :
      (m : M) (ops : List Op) (op : Op)
      → store_ops m (ops ++ op ∷ []) ≡ (store_op sl (store_ops m ops) op).0
  store_ops-last m [] op = refl
  store_ops-last m (o ∷ ops) op = store_ops-last (store_op sl m o).0 ops op

  index_ops-last :
      (calls : List IndexCall) (ops : List Op) (op : Op)
      → index_ops calls (ops ++ op ∷ []) ≡ index_op sl parser (index_ops calls ops) op
  index_ops-last calls [] op = refl
  index_ops-last calls (o ∷ ops) op = index_ops-last (index_op sl parser calls o) ops op

  -- What the thread and its server are, over the operations that it carried out.
  pub record IsCarried (p : KvServer M) (executed : List Op) (s : KvServer M) (thread : ApplyThread)
      : Type 0 where
    pub same_store : s.kvdb ≡ store_ops p.kvdb executed
    pub same_index : calls_due thread s.index_calls ≡ index_ops p.index_calls executed

  pub apply_step-IsCarried :
      (p s : KvServer M) (executed : List Op) (thread : ApplyThread)
      → IsCarried p executed s thread
      → IsCarried p
          (executed ++ stored_by thread)
          (apply_step sl parser s thread).0
          (apply_step sl parser s thread).1
  unfolding apply_step
  apply_step-IsCarried p s executed waits c = rw (append-nil executed) c
  apply_step-IsCarried p s executed (tests msg op) c =
      elim (Bool-cases (if_request_duplicate s.last_requests op.client_id op.request_id)) [
        | inl old ↦
            rw (old, append-nil executed)
              (record { same_store = c.same_store; same_index = c.same_index })
        | inr new ↦
            rw (new, append-nil executed)
              (record { same_store = c.same_store; same_index = c.same_index })
      ]
  apply_step-IsCarried p s executed (stores msg op) c = record {
    same_store = rw (store_ops-last p.kvdb executed op, c.same_store) refl;
    same_index = rw (index_ops-last p.index_calls executed op, sym c.same_index) refl;
  }
  apply_step-IsCarried p s executed (records msg op last_value) c =
      rw (append-nil executed) (record { same_store = c.same_store; same_index = c.same_index })
  apply_step-IsCarried p s executed (indexes msg op) c =
      rw (append-nil executed) (record { same_store = c.same_store; same_index = c.same_index })
  apply_step-IsCarried p s executed (wakes msg op) c =
      rw (append-nil executed) (record { same_store = c.same_store; same_index = c.same_index })
  apply_step-IsCarried p s executed (tells msg op) c =
      rw (append-nil executed) (record { same_store = c.same_store; same_index = c.same_index })

-- ===== src/Server/Applying.antt =====
-- `Apply` of KvServer/KvServer.cpp, step by step: the test of the request and its record are each
-- under the lock of the table, and the store, the index and the channels are reached between.
use my_kv_storage_base_raft.Common.{
  ◌-◌, ◌≡◌, refl, inl, inr, Bool-cases, List, [], if◌then◌else◌, Bytes, eq_bytes, arith,
}
use my_kv_storage_base_raft.OpCoder.{Op}
use my_kv_storage_base_raft.Raft.Types.{Result, ok, ApplyMsg}
use my_kv_storage_base_raft.Raft.State.{Raft}
use my_kv_storage_base_raft.Raft.Apply.{apply_msgs}
use my_kv_storage_base_raft.KvServer.Types.{
  FeatureParser, SkipList, IndexCall, KvServer, get_name, put_feature_name, delete_feature_name,
}
use my_kv_storage_base_raft.KvServer.{
  if_request_duplicate, record_request_result, value_or_empty, execute_get, execute_put_append,
  apply_feature_to_index, delete_feature, push, set_at, execute, wake, apply_op,
}

abbrev returned : Result (List ApplyMsg) → List ApplyMsg
returned (ok msgs) = msgs
returned _ = []

-- The messages that a round of the applier collects.
abbrev pub collected : Raft → List ApplyMsg
collected s = returned (apply_msgs s s.last_applied (s.commit_index - s.last_applied))

-- Where the apply thread is: in its wait for a message, or in `Apply`, in front of the test, of the
-- store, of the record with the value to record, of the index, and of the two channels.
pub data ApplyThread : Type 0 where
  waits : ApplyThread
  tests : ApplyMsg → Op → ApplyThread
  stores : ApplyMsg → Op → ApplyThread
  records : ApplyMsg → Op → (last_value : Bytes) → ApplyThread
  indexes : ApplyMsg → Op → ApplyThread
  wakes : ApplyMsg → Op → ApplyThread
  tells : ApplyMsg → Op → ApplyThread

module _ {M : Type 0} (sl : SkipList M) where
  -- What the branches of `Apply` do to the store, and the value that they record.
  unfoldable pub store_op : M → Op → M × Bytes
  store_op m op =
      if eq_bytes op.operation get_name
      then (m, value_or_empty (execute_get sl m op))
      else (execute_put_append sl m op, [])

  -- And what they do to the index.
  unfoldable pub index_op : FeatureParser → List IndexCall → Op → List IndexCall
  index_op parser calls op =
      if eq_bytes op.operation get_name
      then calls
      else if eq_bytes op.operation put_feature_name
      then apply_feature_to_index (parser.parse op.value) calls
      else if eq_bytes op.operation delete_feature_name
      then delete_feature op.key calls
      else calls

  -- The next thing that the apply thread does in `Apply`.
  unfoldable pub apply_step : FeatureParser → KvServer M → ApplyThread → KvServer M × ApplyThread
  apply_step parser s waits = (s, waits)
  apply_step parser s (tests msg op) = (
    s,
    if if_request_duplicate s.last_requests op.client_id op.request_id
        then wakes msg op
        else stores msg op,
  )
  apply_step parser s (stores msg op) =
      let r = store_op s.kvdb op in (record s { kvdb = r.0 }, records msg op r.1)
  apply_step parser s (records msg op last_value) = (
    record s { last_requests = record_request_result s.last_requests op last_value },
    indexes msg op,
  )
  apply_step parser s (indexes msg op) =
      (record s { index_calls = index_op parser s.index_calls op }, wakes msg op)
  apply_step parser s (wakes msg op) = (
    record s {
      wait_apply_ch = set_at s.wait_apply_ch msg.index (push op (s.wait_apply_ch msg.index));
    },
    tells msg op,
  )
  apply_step parser s (tells msg op) = (
    record s {
      commit_index_ch = set_at s.commit_index_ch msg.index (push msg (s.commit_index_ch msg.index));
    },
    waits,
  )

  abbrev next : FeatureParser → KvServer M × ApplyThread → KvServer M × ApplyThread
  next parser r = apply_step parser r.0 r.1

  execute-steps :
      (parser : FeatureParser) (s : KvServer M) (op : Op)
      → execute sl parser s op ≡ record s {
        kvdb = (store_op s.kvdb op).0;
        last_requests = record_request_result s.last_requests op (store_op s.kvdb op).1;
        index_calls = index_op parser s.index_calls op;
      }
  unfolding execute store_op index_op
  execute-steps parser s op = ground arith

  -- Where no other thread comes between, the steps of the apply thread are `apply_op`.
  apply_op-steps :
      (parser : FeatureParser) (s : KvServer M) (msg : ApplyMsg) (op : Op)
      → next parser
          (next parser (next parser (next parser (next parser (next parser (s, tests msg op))))))
        ≡ (apply_op sl parser s msg op, waits)
  unfolding apply_step apply_op wake
  apply_op-steps parser s msg op =
      elim (Bool-cases (if_request_duplicate s.last_requests op.client_id op.request_id)) [
        | inl old ↦ rw old refl
        | inr new ↦ rw (new, execute-steps parser s op) refl
      ]

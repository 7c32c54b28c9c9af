-- ===== src/KvServer.antt =====
-- KvServer/KvServer.cpp: the state machine above a Raft node. Of the index that it drives, the model
-- keeps the calls that are made on it; a reply is `none` where the wait for it ran out.
pub mod Types
pub mod RecallEngine
pub mod Search
pub mod ReadIndex
pub mod Store
pub mod Once
pub mod Remembers
pub mod Toy
mod Tests
use my_kv_storage_base_raft.Common.{
  ℕ, Bool, true, false, ℤ, leb_ℤ, eq_ℤ, Option, none, some, List, [], ◌∷◌, ◌++◌, ◌&&◌, not, ltb,
  ◌==◌, if◌then◌else◌, length, Bytes, eq_bytes,
}
use my_kv_storage_base_raft.Common.Assoc.{lookup, insert}
use my_kv_storage_base_raft.OpCoder.{Op, decode_op}
use my_kv_storage_base_raft.Raft.Types.{is_leader, ApplyMsg}
use my_kv_storage_base_raft.Raft.State.{Raft, Archive}
use my_kv_storage_base_raft.Raft.Batch.{start}
use my_kv_storage_base_raft.KvServer.Types.{
  Error, success, no_key, wrong_leader, ItemFeature, FeatureParser, SkipList, IndexCall,
  upsert_point, delete_point, RequestRecord, KvServer, Reply, GetArgs, PutAppendArgs, get_name,
  put_name, append_name, put_feature_name, delete_feature_name, hnsw_dim,
}

abbrev pub is_nil : Bytes → Bool
is_nil [] = true
is_nil (b ∷ bs) = false

abbrev pub is_recorded : Option RequestRecord → ℤ → Bool
is_recorded none request_id = false
is_recorded (some r) request_id = leb_ℤ request_id r.last_request_id

-- `ifRequestDuplicate`
unfoldable pub if_request_duplicate : List (Bytes × RequestRecord) → Bytes → ℤ → Bool
if_request_duplicate requests client_id request_id =
    is_recorded (lookup client_id requests) request_id

-- `recordRequestResult`
unfoldable pub record_request_result :
    List (Bytes × RequestRecord) → Op → Bytes → List (Bytes × RequestRecord)
record_request_result requests op last_value =
    insert op.client_id (record { last_request_id = op.request_id; last_value = last_value })
      requests

-- `applyFeatureToIndex`, on an engine that exists: the calls made so far, and those made now.
unfoldable pub apply_feature_to_index : Option ItemFeature → List IndexCall → List IndexCall
apply_feature_to_index none calls = calls
apply_feature_to_index (some feat) calls =
    if is_nil feat.item_id
    then calls
    else if not (length feat.embedding == hnsw_dim)
    then calls
    else calls ++ upsert_point feat.item_id feat.embedding ∷ []

unfoldable pub delete_feature : Bytes → List IndexCall → List IndexCall
delete_feature item_id calls = if is_nil item_id then calls else calls ++ delete_point item_id ∷ []

abbrev pub value_or_empty : Option Bytes → Bytes
value_or_empty none = []
value_or_empty (some v) = v

-- `ch->push(op)` where the index has a channel.
abbrev pub push {ℓ} : {A : Type ℓ} → A → Option (List A) → Option (List A)
push x none = none
push x (some queue) = some (queue ++ x ∷ [])

abbrev pub set_at {ℓ} : {A : Type ℓ} → (ℕ → A) → ℕ → A → ℕ → A
set_at f i x j = if j == i then x else f j

module _ {M : Type 0} (sl : SkipList M) where
  -- `ExecuteGetOpOnKVDB`: `none` for a key that does not exist.
  abbrev pub execute_get : M → Op → Option Bytes
  execute_get m op = sl.search_element m op.key

  abbrev pub appended_value : Option Bytes → Bytes → Bytes
  appended_value none value = value
  appended_value (some old) value = old ++ value

  -- `ExecutePutAppendOnKVDB`: an operation with another name changes nothing.
  unfoldable pub execute_put_append : M → Op → M
  execute_put_append m op =
      if eq_bytes op.operation put_name
      then sl.insert_element m op.key op.value
      else if eq_bytes op.operation append_name
      then sl.insert_element m op.key (appended_value (sl.search_element m op.key) op.value)
      else m

  -- The branches of `Apply` for a request that is not a duplicate.
  unfoldable pub execute : FeatureParser → KvServer M → Op → KvServer M
  unfolding apply_feature_to_index delete_feature
  execute parser s op =
      if eq_bytes op.operation get_name
      then record s {
        last_requests =
            record_request_result s.last_requests op (value_or_empty (execute_get s.kvdb op));
      }
      else if eq_bytes op.operation put_feature_name
      then record s {
        kvdb = execute_put_append s.kvdb op;
        last_requests = record_request_result s.last_requests op [];
        index_calls = apply_feature_to_index (parser.parse op.value) s.index_calls;
      }
      else if eq_bytes op.operation delete_feature_name
      then record s {
        kvdb = execute_put_append s.kvdb op;
        last_requests = record_request_result s.last_requests op [];
        index_calls = delete_feature op.key s.index_calls;
      }
      else record s {
        kvdb = execute_put_append s.kvdb op;
        last_requests = record_request_result s.last_requests op [];
      }

  -- The end of `Apply`: whoever waits for the index is told.
  unfoldable pub wake : KvServer M → ApplyMsg → Op → KvServer M
  wake s msg op = record s {
    wait_apply_ch = set_at s.wait_apply_ch msg.index (push op (s.wait_apply_ch msg.index));
    commit_index_ch = set_at s.commit_index_ch msg.index (push msg (s.commit_index_ch msg.index));
  }

  -- `Apply`, for a command that was decoded.
  unfoldable pub apply_op : FeatureParser → KvServer M → ApplyMsg → Op → KvServer M
  apply_op parser s msg op =
      wake
        (if if_request_duplicate s.last_requests op.client_id op.request_id
          then s
          else execute parser s op)
        msg op

  -- `Apply`; `junk` is what the constructor of `Op` leaves in the request id.
  unfoldable pub apply : FeatureParser → ℤ → KvServer M → ApplyMsg → KvServer M
  apply parser junk s msg = apply_op parser s msg (decode_op junk msg.command)

  abbrev cached_value : Option RequestRecord → Bytes
  cached_value none = []
  cached_value (some r) = r.last_value

  abbrev get_op : GetArgs → Op
  get_op args = record {
    operation = get_name;
    key = args.key;
    value = [];
    client_id = args.client_id;
    request_id = args.request_id;
  }

  abbrev found_reply : Option Bytes → Reply
  found_reply none = record { err = no_key; value = [] }
  found_reply (some v) = record { err = success; value = v }

  -- `Get`, with the node that the server asks for its state and commit index.
  unfoldable pub get : Raft → KvServer M → GetArgs → KvServer M × Reply
  get raft s args =
      if if_request_duplicate s.last_requests args.client_id args.request_id
      then (
        s,
        record { err = success; value = cached_value (lookup args.client_id s.last_requests) },
      )
      else if not (is_leader raft.status) && not (ltb 0 raft.commit_index)
      then (s, record { err = wrong_leader; value = [] })
      else let found = execute_get s.kvdb (get_op args) in
        (
          record s {
            last_requests =
                record_request_result s.last_requests (get_op args) (value_or_empty found);
          },
          found_reply found,
        )

  -- The channel of an index, which the first request that waits for it makes.
  abbrev pub opened {ℓ} : {A : Type ℓ} → Option (List A) → Option (List A)
  opened none = some []
  opened (some queue) = some queue

  abbrev pub wait_on : KvServer M → Option ℕ → KvServer M
  wait_on s none = s
  wait_on s (some index) = record s {
    wait_apply_ch = set_at s.wait_apply_ch index (opened (s.wait_apply_ch index));
  }

  -- `PutAppend` and `PutFeature` up to the wait: the node, the server, and the index to wait for;
  -- `none` is answered at once.
  unfoldable pub submit : Archive → Raft → KvServer M → Op → ℕ → Raft × KvServer M × Option ℕ
  submit ar raft s op now = let r = start ar raft op now in (r.0, wait_on s r.1, r.1)

  abbrev pub put_append_op : PutAppendArgs → Op
  put_append_op args = record {
    operation = args.op;
    key = args.key;
    value = args.value;
    client_id = args.client_id;
    request_id = args.request_id;
  }

  abbrev pub put_feature_op : FeatureParser → ItemFeature → Bytes → ℤ → Op
  put_feature_op parser feat client_id request_id = record {
    operation = put_feature_name;
    key = feat.item_id;
    value = parser.serialize feat;
    client_id = client_id;
    request_id = request_id;
  }

  abbrev pub head_of {ℓ} : {A : Type ℓ} → Option (List A) → Option A
  head_of none = none
  head_of (some []) = none
  head_of (some (x ∷ xs)) = some x

  abbrev pub tail_of {ℓ} : {A : Type ℓ} → Option (List A) → Option (List A)
  tail_of none = none
  tail_of (some []) = some []
  tail_of (some (x ∷ xs)) = some xs

  -- `timeOutPop` on the channel of an index, at the end of the wait.
  unfoldable pub time_out_pop : KvServer M → ℕ → KvServer M × Option Op
  time_out_pop s index = (
    record s { wait_apply_ch = set_at s.wait_apply_ch index (tail_of (s.wait_apply_ch index)) },
    head_of (s.wait_apply_ch index),
  )

  -- The answer to the client once the wait is over.
  unfoldable pub answer : KvServer M → Op → Option Op → Error
  answer s op none =
      if if_request_duplicate s.last_requests op.client_id op.request_id
      then success
      else wrong_leader
  answer s op (some commit_op) =
      if eq_bytes commit_op.client_id op.client_id && eq_ℤ commit_op.request_id op.request_id
      then success
      else wrong_leader

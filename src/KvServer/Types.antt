-- ===== src/KvServer/Types.antt =====
-- The members of `class KvServer` (KvServer/kvServer.h), its messages, and what it uses of the
-- SkipList submodule and of the protobuf code for a feature.
use my_kv_storage_base_raft.Common.{
  ℕ, Bool, ◌≡◌, ℤ, Option, some, List, [], ◌∷◌, if◌then◌else◌, Bytes, eq_bytes,
}
use my_kv_storage_base_raft.OpCoder.{Op}
use my_kv_storage_base_raft.Raft.Types.{ApplyMsg}

-- "OK", "ErrNoKey" and "ErrWrongLeader".
pub data Error : Type 0 where
  success no_key wrong_leader : Error

-- The names of the operations: "Get", "Put", "Append", "PutFeature", "DeleteFeature".
abbrev pub get_name : Bytes
get_name = 71 ∷ 101 ∷ 116 ∷ []

abbrev pub put_name : Bytes
put_name = 80 ∷ 117 ∷ 116 ∷ []

abbrev pub append_name : Bytes
append_name = 65 ∷ 112 ∷ 112 ∷ 101 ∷ 110 ∷ 100 ∷ []

abbrev pub put_feature_name : Bytes
put_feature_name = 80 ∷ 117 ∷ 116 ∷ 70 ∷ 101 ∷ 97 ∷ 116 ∷ 117 ∷ 114 ∷ 101 ∷ []

abbrev pub delete_feature_name : Bytes
delete_feature_name = 68 ∷ 101 ∷ 108 ∷ 101 ∷ 116 ∷ 101 ∷ 70 ∷ 101 ∷ 97 ∷ 116 ∷ 117 ∷ 114 ∷ 101 ∷ []

abbrev pub hnsw_dim : ℕ
hnsw_dim = 128

-- `ItemFeature`, a generated message; a float is given by its bits.
pub record ItemFeature : Type 0 where
  pub item_id : Bytes
  pub embedding : List ℕ

-- `SerializeAsString` and `ParseFromString`: what one writes the other reads.
pub record FeatureParser : Type 0 where
  pub serialize : ItemFeature → Bytes
  pub parse : Bytes → Option ItemFeature
  pub parse_serialize : (feat : ItemFeature) → parse (serialize feat) ≡ some feat

-- `SkipList<std::string, std::string>`, whose contents have the type `M`: an element that was
-- inserted is found under its key, and the others as before.
pub record SkipList (M : Type 0) : Type 0 where
  pub search_element : M → Bytes → Option Bytes
  pub insert_element : M → Bytes → Bytes → M
  -- What `foreach` visits.
  pub elements : M → List (Bytes × Bytes)
  pub search_insert :
      (m : M) (k j v : Bytes)
      → search_element (insert_element m k v) j
        ≡ (if eq_bytes k j then some v else search_element m j)

-- A call of `addPoint`, `upsertPoint` or `deletePoint` on the recall engine.
pub data IndexCall : Type 0 where
  add_point upsert_point : Bytes → List ℕ → IndexCall
  delete_point : Bytes → IndexCall

pub record RequestRecord : Type 0 where
  pub last_request_id : ℤ
  pub last_value : Bytes

-- A channel is the queue of what was pushed and not yet popped; `none` where the index has none.
pub record KvServer (M : Type 0) : Type 0 where
  pub kvdb : M
  pub index_calls : List IndexCall
  pub index_built : Bool
  pub wait_apply_ch : ℕ → Option (List Op)
  pub last_requests : List (Bytes × RequestRecord)
  pub commit_index_ch : ℕ → Option (List ApplyMsg)

pub record GetArgs : Type 0 where
  pub key : Bytes
  pub client_id : Bytes
  pub request_id : ℤ

pub record PutAppendArgs : Type 0 where
  pub key : Bytes
  pub value : Bytes
  pub op : Bytes
  pub client_id : Bytes
  pub request_id : ℤ

pub record Reply : Type 0 where
  pub err : Error
  pub value : Bytes

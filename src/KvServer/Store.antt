-- ===== src/KvServer/Store.antt =====
-- What `Apply` does to the store and to the index.
use mathlib.Core.List.{append-nil}
use my_kv_storage_base_raft.Common.{
  ◌≡◌, refl, inl, inr, false, ℤ, Option, some, [], ◌∷◌, ◌++◌, arith, if◌then◌else◌, length, Bytes,
  eq_bytes, eq_bytes_iff, Bool-cases, ◌==◌,
}
use my_kv_storage_base_raft.OpCoder.{Op, decode_op}
use my_kv_storage_base_raft.Raft.Types.{ApplyMsg}
use my_kv_storage_base_raft.KvServer.Types.{
  ItemFeature, FeatureParser, SkipList, upsert_point, KvServer, get_name, put_name, append_name,
  hnsw_dim,
}
use my_kv_storage_base_raft.KvServer.{
  if_request_duplicate, apply_feature_to_index, is_nil, appended_value, execute_put_append, execute,
  wake, apply_op, apply, put_feature_op,
}

module _ {M : Type 0} (sl : SkipList M) where
  -- The store as a map from keys, after an operation.
  abbrev pub stored_after : M → Op → Bytes → Option Bytes
  stored_after m op j =
      if eq_bytes op.key j
      then (if eq_bytes op.operation put_name
          then some op.value
          else if eq_bytes op.operation append_name
          then some (appended_value sl (sl.search_element m op.key) op.value)
          else sl.search_element m j)
      else sl.search_element m j

  execute_put_append-stored :
      (m : M) (op : Op) (j : Bytes)
      → sl.search_element (execute_put_append sl m op) j ≡ stored_after m op j
  unfolding execute_put_append
  execute_put_append-stored m op j = ground (
    arith,
    sl.search_insert m op.key j op.value,
    sl.search_insert m op.key j (appended_value sl (sl.search_element m op.key) op.value),
  )

  kvdb-execute :
      (parser : FeatureParser) (s : KvServer M) (op : Op)
      → (execute sl parser s op).kvdb
        ≡ (if eq_bytes op.operation get_name then s.kvdb else execute_put_append sl s.kvdb op)
  unfolding execute
  kvdb-execute parser s op = ground arith

  kvdb-apply :
      (parser : FeatureParser) (junk : ℤ) (s : KvServer M) (msg : ApplyMsg)
      → if_request_duplicate s.last_requests
          (decode_op junk msg.command).client_id
          (decode_op junk msg.command).request_id
        ≡ false
      → (apply sl parser junk s msg).kvdb ≡ (execute sl parser s (decode_op junk msg.command)).kvdb
  unfolding apply apply_op wake
  kvdb-apply parser junk s msg new = rw new refl

  -- After `Apply` of a command that is not a duplicate, every key of the store has what it had, but
  -- that "Put" sets its key, and "Append" appends to what its key had. An operation with any other
  -- name leaves the whole map, "PutFeature" and "DeleteFeature" too, though the comments of the code
  -- have them write to the SkipList and delete from it.
  pub apply-stored :
      (parser : FeatureParser) (junk : ℤ) (s : KvServer M) (msg : ApplyMsg) (j : Bytes)
      → if_request_duplicate s.last_requests
          (decode_op junk msg.command).client_id
          (decode_op junk msg.command).request_id
        ≡ false
      → sl.search_element (apply sl parser junk s msg).kvdb j
        ≡ stored_after s.kvdb (decode_op junk msg.command) j
  apply-stored parser junk s msg j new =
      let op = decode_op junk msg.command in
      rw (kvdb-apply parser junk s msg new, kvdb-execute parser s op)
        (elim (Bool-cases (eq_bytes op.operation get_name)) [
          | inr other ↦ rw other (execute_put_append-stored s.kvdb op j)
          | inl is_get ↦
              let name : op.operation ≡ get_name = (eq_bytes_iff op.operation get_name).0 is_get in
              rw (is_get, name) (ground (arith, eq_bytes_iff op.key j))
        ])

  -- `Apply` of a "PutFeature" that is not a duplicate leaves the store as it is, and calls `upsertPoint` once if
  -- the item has a name and a vector of the right length, and otherwise not at all.
  pub apply_op-put_feature :
      (parser : FeatureParser) (s : KvServer M) (msg : ApplyMsg) (feat : ItemFeature)
      (client_id : Bytes) (request_id : ℤ)
      → if_request_duplicate s.last_requests client_id request_id ≡ false
      → let t = apply_op sl parser s msg (put_feature_op sl parser feat client_id request_id) in
        (t.kvdb ≡ s.kvdb)
        × (t.index_calls
            ≡ s.index_calls
              ++ (if is_nil feat.item_id
                  then []
                  else if length feat.embedding == hnsw_dim
                  then upsert_point feat.item_id feat.embedding ∷ []
                  else []))
  unfolding apply_op wake execute apply_feature_to_index execute_put_append
  apply_op-put_feature parser s msg feat client_id request_id new =
      rw (new, parser.parse_serialize feat) (refl, ground (arith, append-nil s.index_calls))

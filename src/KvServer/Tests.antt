-- ===== src/KvServer/Tests.antt =====
-- The theorems on the server at concrete requests, over a store that is an association list.
use my_kv_storage_base_raft.Common.{leb_ℤ-refl, ◌≡◌, refl, true, pos, some, [], ◌∷◌, arith}
use my_kv_storage_base_raft.Common.Assoc.{lookup}
use my_kv_storage_base_raft.OpCoder.{
  Op, encode_op, decode_op, decode_key, decode_value, decode_client, decode_request, write_field,
  read_field, read_body, le_bytes,
}
use my_kv_storage_base_raft.OpCoder.Decimal.{to_string, stoi, unsigned_value, digits, digits_value}
use my_kv_storage_base_raft.OpCoder.RoundTrip.{IsCodable}
use my_kv_storage_base_raft.Raft.Types.{ApplyMsg}
use my_kv_storage_base_raft.Raft.Toy.{leader_three}
use my_kv_storage_base_raft.KvServer.Types.{ItemFeature, KvServer, GetArgs, append_name}
use my_kv_storage_base_raft.KvServer.{if_request_duplicate, apply, apply_op, get, put_feature_op}
use my_kv_storage_base_raft.KvServer.Store.{apply-stored, apply_op-put_feature}
use my_kv_storage_base_raft.KvServer.Once.{SameData, apply_all, get-apply}
use my_kv_storage_base_raft.KvServer.Remembers.{apply-remembered}
use my_kv_storage_base_raft.KvServer.Toy.{Store, list_store, toy_parser, server}

abbrev append_op : Op
append_op = record {
  operation = append_name;
  key = 1 ∷ [];
  value = 8 ∷ [];
  client_id = 9 ∷ [];
  request_id = pos 4;
}

append_op-IsCodable : IsCodable append_op
append_op-IsCodable = record {
  operation = omega arith;
  key = omega arith;
  value = omega arith;
  client_id = omega arith;
  request_id = omega arith;
}

abbrev append_msg : ApplyMsg
append_msg = record { command_valid = true; index = 5; command = encode_op append_op }

abbrev appended : KvServer Store
appended = apply list_store toy_parser (pos 0) server append_msg

apply-stored_example : list_store.search_element appended.kvdb (1 ∷ []) ≡ some (7 ∷ 8 ∷ [])
unfolding if_request_duplicate lookup encode_op decode_op decode_key decode_value decode_client
    decode_request write_field read_field read_body le_bytes to_string stoi unsigned_value digits
    digits_value
apply-stored_example = apply-stored list_store toy_parser (pos 0) server append_msg (1 ∷ []) refl

abbrev item : ItemFeature
item = record { item_id = 5 ∷ []; embedding = 1 ∷ 2 ∷ [] }

apply_op-put_feature_example :
    ((apply_op list_store toy_parser server append_msg
        (put_feature_op list_store toy_parser item (9 ∷ []) (pos 4))).kvdb
      ≡ server.kvdb)
    × ((apply_op list_store toy_parser server append_msg
          (put_feature_op list_store toy_parser item (9 ∷ []) (pos 4))).index_calls
        ≡ [])
unfolding if_request_duplicate lookup
apply_op-put_feature_example =
    apply_op-put_feature list_store toy_parser server append_msg item (9 ∷ []) (pos 4) refl

abbrev read : GetArgs
read = record { key = 1 ∷ []; client_id = 9 ∷ []; request_id = pos 4 }

get-apply_example :
    SameData
      (get list_store leader_three server read).0
      (apply list_store toy_parser (pos 0) (get list_store leader_three server read).0 append_msg)
unfolding encode_op decode_op decode_key decode_value decode_client decode_request write_field
    read_field read_body le_bytes to_string stoi unsigned_value digits digits_value
get-apply_example =
    get-apply list_store toy_parser (pos 0) leader_three server read append_msg refl refl refl

-- Between the two, a request of another client.
abbrev other_msg : ApplyMsg
other_msg = record {
  command_valid = true;
  index = 6;
  command = encode_op (record append_op { client_id = 8 ∷ []; request_id = pos 1 });
}

apply-remembered_example :
    SameData (apply_all list_store toy_parser (pos 0) appended (other_msg ∷ [])) (
      apply list_store toy_parser
        (pos 0)
        (apply_all list_store toy_parser (pos 0) appended (other_msg ∷ []))
        (record append_msg { index = 7 }))
apply-remembered_example =
    apply-remembered list_store toy_parser (pos 0) server append_msg (other_msg ∷ [])
      (record append_msg { index = 7 }) refl
      (leb_ℤ-refl (decode_op (pos 0) append_msg.command).request_id)

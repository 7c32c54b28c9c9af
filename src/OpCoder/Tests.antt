-- ===== src/OpCoder/Tests.antt =====
-- The encoding at a concrete operation.
use my_kv_storage_base_raft.Common.{◌≡◌, pos, negsuc, [], ◌∷◌, arith}
use my_kv_storage_base_raft.OpCoder.{Op, encode_op, decode_op}
use my_kv_storage_base_raft.OpCoder.RoundTrip.{IsCodable, decode_op-encode_op}

-- "Put", "k", "v1" by client "c", request 42.
abbrev put_op : Op
put_op = record {
  operation = 80 ∷ 117 ∷ 116 ∷ [];
  key = 107 ∷ [];
  value = 118 ∷ 49 ∷ [];
  client_id = 99 ∷ [];
  request_id = pos 42;
}

put_op-IsCodable : IsCodable put_op
put_op-IsCodable = record {
  operation = omega arith;
  key = omega arith;
  value = omega arith;
  client_id = omega arith;
  request_id = omega arith;
}

decode_op-encode_op_example : decode_op (negsuc 6) (encode_op put_op) ≡ put_op
decode_op-encode_op_example = decode_op-encode_op (negsuc 6) put_op put_op-IsCodable

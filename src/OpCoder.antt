-- ===== src/OpCoder.antt =====
-- KvServer/op_coder.h: the command bytes of a log entry, and `struct Op` of KvServer/kvServer.h.
-- Strings are lists of bytes; `uint32_t` lengths are written little-endian, as on the machines that
-- the program is built for.
pub mod Decimal
pub mod RoundTrip
mod Tests
use my_kv_storage_base_raft.Common.{
  ℕ, zero, suc, ◌+◌, ◌-◌, ◌*◌, ◌/◌, ◌%◌, ◌^◌, Bool, true, false, ℤ, List, [], ◌∷◌, ◌++◌, ltb,
  if◌then◌else◌, length, take, drop, replicate, Bytes,
}
use Decimal.{to_string, stoi}

pub record Op : Type 0 where
  pub operation : Bytes
  pub key : Bytes
  pub value : Bytes
  pub client_id : Bytes
  pub request_id : ℤ

-- The four bytes of a `uint32_t`.
unfoldable pub le_bytes : ℕ → Bytes
le_bytes n = n % 256 ∷ (n / 256) % 256 ∷ (n / 65536) % 256 ∷ (n / 16777216) % 256 ∷ []

-- `write_field`: the size is cut to 32 bits, and as many bytes are written.
unfoldable pub write_field : Bytes → Bytes
unfolding le_bytes
write_field s = let len = length s % 2 ^ 32 in le_bytes len ++ take len s

unfoldable pub encode_op : Op → Bytes
encode_op op =
    write_field op.operation
    ++ (write_field op.key
        ++ (write_field op.value
            ++ (write_field op.client_id ++ write_field (to_string op.request_id))))

abbrev pub max_field : ℕ
max_field = 1024 * 1024 * 1024

-- What `read_field` returns, leaves in its argument, and leaves to read.
pub record FieldRead : Type 0 where
  pub success : Bool
  pub out : Bytes
  pub rest : Bytes

-- The body, once the length is known: a short read leaves what there was, and zeros.
unfoldable pub read_body : ℕ → Bytes → Bytes → FieldRead
read_body len out bytes =
    if ltb max_field len
    then record { success = false; out = out; rest = bytes }
    else if ltb (length bytes) len
    then record { success = false; out = bytes ++ replicate (len - length bytes) 0; rest = [] }
    else record { success = true; out = take len bytes; rest = drop len bytes }

unfoldable pub read_field : Bytes → Bytes → FieldRead
read_field out (a ∷ b ∷ c ∷ d ∷ bytes) =
    read_body (a + 256 * b + 65536 * c + 16777216 * d) out bytes
read_field out bytes = record { success = false; out = out; rest = [] }

-- The last field, and the number in it.
unfoldable pub decode_request : Op → Bytes → Op
decode_request op bytes =
    let r = read_field [] bytes in if r.success then record op { request_id = stoi r.out } else op

unfoldable pub decode_client : Op → Bytes → Op
decode_client op bytes =
    let r = read_field [] bytes in
    let op' = record op { client_id = r.out } in
    if r.success then decode_request op' r.rest else op'

unfoldable pub decode_value : Op → Bytes → Op
decode_value op bytes =
    let r = read_field [] bytes in
    let op' = record op { value = r.out } in if r.success then decode_client op' r.rest else op'

unfoldable pub decode_key : Op → Bytes → Op
decode_key op bytes =
    let r = read_field [] bytes in
    let op' = record op { key = r.out } in if r.success then decode_value op' r.rest else op'

-- `decodeOp`. The constructor of `Op` leaves `RequestId` as it finds it: `junk`.
unfoldable pub decode_op : ℤ → Bytes → Op
decode_op junk bytes =
    let r = read_field [] bytes in
    let op : Op = record {
      operation = r.out;
      key = [];
      value = [];
      client_id = [];
      request_id = junk;
    } in
    if r.success then decode_key op r.rest else op

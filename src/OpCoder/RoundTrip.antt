-- ===== src/OpCoder/RoundTrip.antt =====
-- What `decodeOp` reads is what `encodeOp` wrote.
use my_kv_storage_base_raft.Common.{
  ◌+◌, ◌*◌, ◌/◌, ◌%◌, ◌^◌, ◌≤◌, ◌≡◌, refl, ap, true, ℤ, [], ◌∷◌, ◌++◌, arith, length, take, drop,
  Bytes, length-append,
}
use mathlib.Core.List.{append-nil}
use my_kv_storage_base_raft.OpCoder.Decimal.{to_string, IsInt, stoi-to_string, length-to_string}
use my_kv_storage_base_raft.OpCoder.{
  Op, le_bytes, write_field, encode_op, max_field, read_field, read_body, decode_op, decode_key,
  decode_value, decode_client, decode_request,
}

pub take-append : (xs ys : Bytes) → take (length xs) (xs ++ ys) ≡ xs
take-append [] ys = refl
take-append (x ∷ xs) ys = ap (◌∷◌ x) (take-append xs ys)

pub drop-append : (xs ys : Bytes) → drop (length xs) (xs ++ ys) ≡ ys
drop-append [] ys = refl
drop-append (x ∷ xs) ys = drop-append xs ys

take-length : (xs : Bytes) → take (length xs) xs ≡ xs
take-length [] = refl
take-length (x ∷ xs) = ap (◌∷◌ x) (take-length xs)

read_body-append :
    (out s rest : Bytes)
    → length s ≤ max_field
    → read_body (length s) out (s ++ rest) ≡ record { success = true; out = s; rest = rest }
unfolding read_body
read_body-append out s rest h =
    ground (arith, length-append s rest, take-append s rest, drop-append s rest)

write_field-lem : (s : Bytes) → length s ≤ max_field → write_field s ≡ le_bytes (length s) ++ s
unfolding write_field
write_field-lem s h = let e : length s % 2 ^ 32 ≡ length s = omega arith in rw (e, take-length s)

-- One field, whatever follows it.
read_field-write_field :
    (out s rest : Bytes)
    → length s ≤ max_field
    → read_field out (write_field s ++ rest) ≡ record { success = true; out = s; rest = rest }
unfolding read_field le_bytes
read_field-write_field out s rest h =
    let n = length s in
    let joined : n % 256
          + 256 * ((n / 256) % 256)
          + 65536 * ((n / 65536) % 256)
          + 16777216 * ((n / 16777216) % 256)
        ≡ n =
      omega arith in
    rw (write_field-lem s h, joined) (read_body-append out s rest h)

-- The strings fit the field limit of the decoder, and the request's number is an `int`.
pub record IsCodable (op : Op) : Type 0 where
  pub operation : length op.operation ≤ max_field
  pub key : length op.key ≤ max_field
  pub value : length op.value ≤ max_field
  pub client_id : length op.client_id ≤ max_field
  pub request_id : IsInt op.request_id

-- Decoding what was encoded gives the operation back.
pub decode_op-encode_op : (junk : ℤ) (op : Op) → IsCodable op → decode_op junk (encode_op op) ≡ op
unfolding decode_op encode_op decode_key decode_value decode_client decode_request
decode_op-encode_op junk op c =
    let request = to_string op.request_id in
    let short : length request ≤ max_field =
      omega (arith, length-to_string op.request_id c.request_id) in
    let last =
      rw (append-nil (write_field request)) at (read_field-write_field [] request [] short) in
    let e4 = read_field-write_field [] op.client_id (write_field request) c.client_id in
    let e3 =
      read_field-write_field [] op.value (write_field op.client_id ++ write_field request)
        c.value in
    rw
      (
        read_field-write_field [] op.operation _ c.operation,
        read_field-write_field [] op.key _ c.key,
        e3,
        e4,
      )
      (rw (last, stoi-to_string op.request_id c.request_id))

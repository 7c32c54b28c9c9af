-- ===== src/KvServer/Once.antt =====
-- Requests that come more than once.
use my_kv_storage_base_raft.Common.{
  ◌∷◌, [], ◌≡◌, refl, inl, inr, true, ℤ, leb_ℤ, leb_ℤ-refl, Option, none, some, List, [], arith,
  Bytes, eq_bytes_refl, Bool-cases, ltb,
}
use my_kv_storage_base_raft.Common.Assoc.{lookup, lookup-insert}
use my_kv_storage_base_raft.OpCoder.{Op, decode_op}
use my_kv_storage_base_raft.Raft.Types.{ApplyMsg, is_leader}
use my_kv_storage_base_raft.Raft.State.{Raft}
use my_kv_storage_base_raft.KvServer.Types.{
  FeatureParser, SkipList, KvServer, RequestRecord, GetArgs, get_name,
}
use my_kv_storage_base_raft.KvServer.{
  if_request_duplicate, is_recorded, value_or_empty, record_request_result, execute, wake, apply_op,
  apply, get,
}

-- The store, the index and the table of requests are the same.
pub record SameData {M : Type 0} (s t : KvServer M) : Type 0 where
  pub same_kvdb : t.kvdb ≡ s.kvdb
  pub same_index : t.index_calls ≡ s.index_calls
  pub same_requests : t.last_requests ≡ s.last_requests

is_recorded-le :
    (o : Option RequestRecord) (a b : ℤ)
    → is_recorded o b ≡ true
    → leb_ℤ a b ≡ true
    → is_recorded o a ≡ true
is_recorded-le none a b h le = h
is_recorded-le (some r) a b h le = ground arith

pub duplicate-le :
    (requests : List (Bytes × RequestRecord)) (c : Bytes) (a b : ℤ)
    → if_request_duplicate requests c b ≡ true
    → leb_ℤ a b ≡ true
    → if_request_duplicate requests c a ≡ true
unfolding if_request_duplicate
duplicate-le requests c a b h le = is_recorded-le (lookup c requests) a b h le

-- A request that was recorded is a duplicate.
duplicate-record :
    (requests : List (Bytes × RequestRecord)) (op : Op) (v : Bytes)
    → if_request_duplicate (record_request_result requests op v) op.client_id op.request_id ≡ true
unfolding if_request_duplicate record_request_result
duplicate-record requests op v =
    rw
      (
        lookup-insert op.client_id op.client_id
            (record { last_request_id = op.request_id; last_value = v }) requests,
        eq_bytes_refl op.client_id,
      )
      (leb_ℤ-refl op.request_id)

module _ {M : Type 0} (sl : SkipList M) (parser : FeatureParser) where
  duplicate-execute :
      (s : KvServer M) (op : Op)
      → if_request_duplicate (execute sl parser s op).last_requests op.client_id op.request_id
        ≡ true
  unfolding execute
  duplicate-execute s op = ground (
    arith,
    duplicate-record s.last_requests op [],
    duplicate-record s.last_requests op (value_or_empty (sl.search_element s.kvdb op.key)),
  )

  -- After a command was applied its request is a duplicate, whether it was one before or not.
  pub duplicate-apply_op :
      (s : KvServer M) (msg : ApplyMsg) (op : Op)
      → if_request_duplicate (apply_op sl parser s msg op).last_requests op.client_id op.request_id
        ≡ true
  unfolding apply_op wake
  duplicate-apply_op s msg op =
      elim (Bool-cases (if_request_duplicate s.last_requests op.client_id op.request_id)) [
        | inl old ↦ rw old old
        | inr new ↦ rw new (duplicate-execute s op)
      ]

  pub duplicate-SameData :
      (s : KvServer M) (msg : ApplyMsg) (op : Op)
      → if_request_duplicate s.last_requests op.client_id op.request_id ≡ true
      → SameData s (apply_op sl parser s msg op)
  unfolding apply_op wake
  duplicate-SameData s msg op old =
      rw old (record { same_kvdb = refl; same_index = refl; same_requests = refl })

  get-duplicate :
      (raft : Raft) (s : KvServer M) (args : GetArgs)
      → ltb 0 raft.commit_index ≡ true
      → if_request_duplicate (get sl raft s args).0.last_requests args.client_id args.request_id
        ≡ true
  unfolding get
  get-duplicate raft s args h =
      let op : Op = record {
        operation = get_name;
        key = args.key;
        value = [];
        client_id = args.client_id;
        request_id = args.request_id;
      } in
      let recorded =
        duplicate-record s.last_requests op (value_or_empty (sl.search_element s.kvdb args.key)) in
      elim (Bool-cases (if_request_duplicate s.last_requests args.client_id args.request_id)) [
        | inl old ↦ rw old old
        | inr new ↦ elim (Bool-cases (is_leader raft.status)) [
          | inl lead ↦ rw (new, lead) recorded
          | inr other ↦ rw (new, other, h) recorded
        ]
      ]

  -- A read hides the writes before it: once a server that knows a commit index has answered a `Get`
  -- of a client, a command of the same client with the same or an earlier request id changes
  -- neither its store nor its index nor its table of requests when it is applied.
  pub get-apply :
      (junk : ℤ) (raft : Raft) (s : KvServer M) (args : GetArgs) (msg : ApplyMsg)
      → ltb 0 raft.commit_index ≡ true
      → (decode_op junk msg.command).client_id ≡ args.client_id
      → leb_ℤ (decode_op junk msg.command).request_id args.request_id ≡ true
      → SameData (get sl raft s args).0 (apply sl parser junk (get sl raft s args).0 msg)
  unfolding apply
  get-apply junk raft s args msg h client le =
      let op = decode_op junk msg.command in
      let t = (get sl raft s args).0 in
      duplicate-SameData t msg op (
        rw client (
          duplicate-le t.last_requests args.client_id op.request_id args.request_id
            (get-duplicate raft s args h) le))

  -- `Apply` for each message in turn.
  unfoldable pub apply_all : ℤ → KvServer M → List ApplyMsg → KvServer M
  apply_all junk s [] = s
  apply_all junk s (msg ∷ msgs) = apply_all junk (apply sl parser junk s msg) msgs

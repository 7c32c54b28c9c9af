-- ===== src/KvServer/Remembers.antt =====
-- Requests that come again after others.
use my_kv_storage_base_raft.Common.{
  ◌≡◌, inl, inr, true, false, ℤ, leb_ℤ, Option, none, some, List, [], ◌∷◌, arith, Bytes, eq_bytes,
  eq_bytes_iff, Bool-cases,
}
use my_kv_storage_base_raft.Common.Assoc.{lookup, lookup-insert}
use my_kv_storage_base_raft.OpCoder.{Op, decode_op}
use my_kv_storage_base_raft.Raft.Types.{ApplyMsg}
use my_kv_storage_base_raft.KvServer.Types.{FeatureParser, SkipList, KvServer, RequestRecord}
use my_kv_storage_base_raft.KvServer.{
  if_request_duplicate, is_recorded, value_or_empty, record_request_result, execute, wake, apply_op,
  apply,
}
use my_kv_storage_base_raft.KvServer.Once.{
  SameData, duplicate-SameData, duplicate-apply_op, duplicate-le, apply_all,
}

-- A later id of a client hides no earlier one.
is_recorded-later :
    (o : Option RequestRecord) (a b : ℤ)
    → is_recorded o a ≡ true
    → is_recorded o b ≡ false
    → leb_ℤ a b ≡ true
is_recorded-later none a b h k = cc h
is_recorded-later (some r) a b h k = ground arith

-- Recording a request that is no duplicate forgets none that was recorded.
recorded-record :
    (requests : List (Bytes × RequestRecord)) (c : Bytes) (a : ℤ) (op : Op) (v : Bytes)
    → if_request_duplicate requests c a ≡ true
    → if_request_duplicate requests op.client_id op.request_id ≡ false
    → if_request_duplicate (record_request_result requests op v) c a ≡ true
unfolding if_request_duplicate record_request_result
recorded-record requests c a op v old new =
    let r : RequestRecord = record { last_request_id = op.request_id; last_value = v } in
    elim (Bool-cases (eq_bytes op.client_id c)) [
      | inr other ↦ rw (lookup-insert op.client_id c r requests, other) old
      | inl same ↦
          let e = (eq_bytes_iff op.client_id c).0 same in
          rw (lookup-insert op.client_id c r requests, same)
            (is_recorded-later (lookup c requests) a op.request_id old (rw e at new))
    ]

module _ {M : Type 0} (sl : SkipList M) (parser : FeatureParser) (c : Bytes) (a : ℤ) where
  recorded-execute :
      (s : KvServer M) (op : Op)
      → if_request_duplicate s.last_requests c a ≡ true
      → if_request_duplicate s.last_requests op.client_id op.request_id ≡ false
      → if_request_duplicate (execute sl parser s op).last_requests c a ≡ true
  unfolding execute
  recorded-execute s op old new = ground (
    arith,
    recorded-record s.last_requests c a op [] old new,
    recorded-record s.last_requests c a op (value_or_empty (sl.search_element s.kvdb op.key)) old
        new,
  )

  recorded-apply :
      (junk : ℤ) (s : KvServer M) (msg : ApplyMsg)
      → if_request_duplicate s.last_requests c a ≡ true
      → if_request_duplicate (apply sl parser junk s msg).last_requests c a ≡ true
  unfolding apply apply_op wake
  recorded-apply junk s msg old =
      let op = decode_op junk msg.command in
      elim (Bool-cases (if_request_duplicate s.last_requests op.client_id op.request_id)) [
        | inl again ↦ rw again old
        | inr new ↦ rw new (recorded-execute s op old new)
      ]

  recorded-apply_all :
      (junk : ℤ) (s : KvServer M) (msgs : List ApplyMsg)
      → if_request_duplicate s.last_requests c a ≡ true
      → if_request_duplicate (apply_all sl parser junk s msgs).last_requests c a ≡ true
  unfolding apply_all
  recorded-apply_all junk s [] old = old
  recorded-apply_all junk s (msg ∷ msgs) old =
      recorded-apply_all junk (apply sl parser junk s msg) msgs (recorded-apply junk s msg old)

-- A request takes effect at most once: after it was applied and any other messages were, of any
-- clients, applying it again, or an earlier request of the same client, changes neither the store
-- nor the index nor the table of requests.
pub apply-remembered :
    {M : Type 0} (sl : SkipList M) (parser : FeatureParser) (junk : ℤ) (s : KvServer M)
    (msg : ApplyMsg) (between : List ApplyMsg) (again : ApplyMsg)
    → (decode_op junk again.command).client_id ≡ (decode_op junk msg.command).client_id
    → leb_ℤ (decode_op junk again.command).request_id (decode_op junk msg.command).request_id ≡ true
    → let t = apply_all sl parser junk (apply sl parser junk s msg) between in
      SameData t (apply sl parser junk t again)
unfolding apply
apply-remembered sl parser junk s msg between again client le =
    let op = decode_op junk msg.command in
    let op' = decode_op junk again.command in
    let t = apply_all sl parser junk (apply sl parser junk s msg) between in
    let recorded =
      recorded-apply_all sl parser op.client_id op.request_id junk (apply sl parser junk s msg)
        between (duplicate-apply_op sl parser s msg op) in
    duplicate-SameData sl parser t again op' (
      rw client
        (duplicate-le t.last_requests op.client_id op'.request_id op.request_id recorded le))

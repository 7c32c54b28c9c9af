-- ===== src/KvServer/Toy.antt =====
-- Test data: a store that is an association list, features as bytes, and a server.
use my_kv_storage_base_raft.Common.{
  ℕ, zero, suc, ◌≡◌, refl, false, pos, Option, none, some, List, [], ◌∷◌, Bytes,
}
use my_kv_storage_base_raft.Common.Assoc.{lookup, insert, lookup-insert}
use my_kv_storage_base_raft.KvServer.Types.{ItemFeature, FeatureParser, SkipList, KvServer}

abbrev pub Store : Type 0
Store = List (Bytes × Bytes)

abbrev pub list_store : SkipList Store
list_store = record {
  search_element = λ m k. lookup k m;
  insert_element = λ m k v. insert k v m;
  elements = λ m. m;
  search_insert = λ m k j v. lookup-insert k j v m;
}

-- The item's name, each byte larger, a 0, and the vector.
abbrev write_name : Bytes → List ℕ → Bytes
write_name [] embedding = 0 ∷ embedding
write_name (b ∷ bs) embedding = suc b ∷ write_name bs embedding

abbrev read_name : Bytes → Bytes × List ℕ
read_name [] = ([], [])
read_name (zero ∷ bs) = ([], bs)
read_name (suc b ∷ bs) = let rest = read_name bs in (b ∷ rest.0, rest.1)

read_name-write_name :
    (name : Bytes) (embedding : List ℕ) → read_name (write_name name embedding) ≡ (name, embedding)
read_name-write_name [] embedding = refl
read_name-write_name (b ∷ bs) embedding = rw (read_name-write_name bs embedding) refl

abbrev toy_parse : Bytes → Option ItemFeature
toy_parse bs = some (record { item_id = (read_name bs).0; embedding = (read_name bs).1 })

pub toy_parse-serialize :
    (feat : ItemFeature) → toy_parse (write_name feat.item_id feat.embedding) ≡ some feat
toy_parse-serialize feat = rw (read_name-write_name feat.item_id feat.embedding) refl

abbrev pub toy_parser : FeatureParser
toy_parser = record {
  serialize = λ feat. write_name feat.item_id feat.embedding;
  parse = toy_parse;
  parse_serialize = toy_parse-serialize;
}

-- The key 1 has the value 7; client 9 has made request 3.
abbrev pub server : KvServer Store
server = record {
  kvdb = (1 ∷ [], 7 ∷ []) ∷ [];
  index_calls = [];
  index_built = false;
  wait_apply_ch = λ _. none;
  last_requests = (9 ∷ [], record { last_request_id = pos 3; last_value = [] }) ∷ [];
  commit_index_ch = λ _. none;
}

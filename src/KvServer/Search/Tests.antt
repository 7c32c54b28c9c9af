-- ===== src/KvServer/Search/Tests.antt =====
-- A deletion and a search at concrete values, over an index that is the list of its live labels.
use my_kv_storage_base_raft.Common.{
  ℕ, Bool, true, false, ◌==◌, pos, Option, some, List, [], ◌∷◌, Bytes, eq_bytes, map, member,
  add_member, erase_member, length, ◌≡◌, refl, sym, ap, ◌∙◌, arith,
}
use my_kv_storage_base_raft.OpCoder.{Op}
use my_kv_storage_base_raft.KvServer.Types.{IndexCall, upsert_point, KvServer, delete_feature_name}
use my_kv_storage_base_raft.KvServer.RecallEngine.{
  Hnsw, RecallEngine, new_engine, engine_upsert, engine_delete, set_label, shown, find_label,
  run_calls, run_call, search_top_k,
}
use my_kv_storage_base_raft.KvServer.RecallEngine.Files.{label_file, load_index}
use my_kv_storage_base_raft.KvServer.RecallEngine.Reloaded.{IsStorable, Reloads, load_index-Reloads}
use my_kv_storage_base_raft.KvServer.RecallEngine.Runs.{AllKnown}
use my_kv_storage_base_raft.KvServer.Search.Shown.{item_ids, search-deleted}
use my_kv_storage_base_raft.Raft.Types.{ApplyMsg}
use my_kv_storage_base_raft.KvServer.{
  apply_op, execute, wake, execute_put_append, if_request_duplicate, delete_feature,
}
use my_kv_storage_base_raft.KvServer.Search.{search, build_index_if_needed, answer_search}
use my_kv_storage_base_raft.KvServer.Toy.{Store, list_store, toy_parser, server}
use my_kv_storage_base_raft.Common.Assoc.{lookup}

abbrev at_zero : ℕ → ℕ × ℕ
at_zero l = (0, l)

abbrev toy_hnsw : Hnsw (List ℕ)
toy_hnsw = record {
  create = λ n. [];
  add_point = λ i v label replace. (add_member ◌==◌ label i, true);
  mark_delete = λ i label. (erase_member ◌==◌ label i, true);
  search_knn_closer_first = λ i v k. map at_zero i;
  cur_element_count = length;
}

-- The items that are one byte long; the hash is the byte.
abbrev toy_hash : Bytes → ℕ
toy_hash [] = 0
toy_hash (b ∷ bs) = b

abbrev Short : Bytes → Type 0
Short x = (b : ℕ) × (x ≡ b ∷ [])

Short-apart : (x y : Bytes) → Short x → Short y → toy_hash x ≡ toy_hash y → x ≡ y
Short-apart x y (b, e) (c, f) h =
    let same : b ≡ c = sym (ap toy_hash e) ∙ h ∙ ap toy_hash f in
    e ∙ ap (λ (n : ℕ). n ∷ []) same ∙ sym f

abbrev calls : List IndexCall
calls = upsert_point (5 ∷ []) [] ∷ upsert_point (6 ∷ []) [] ∷ []

calls-Known : AllKnown toy_hnsw toy_hash Short calls
calls-Known = ((5, refl), ((6, refl), tt))

abbrev engine : RecallEngine (List ℕ)
engine = record {
  index = 6 ∷ 5 ∷ [];
  label_to_item_id = (5, 5 ∷ []) ∷ (6, 6 ∷ []) ∷ [];
  deleted_items = [];
  active_labels = 6 ∷ 5 ∷ [];
}

-- A server whose index holds the two items, and the deletion of the first.
abbrev indexed : KvServer Store
indexed = record server { index_calls = calls; index_built = true }

abbrev deletion : Op
deletion = record {
  operation = delete_feature_name;
  key = 5 ∷ [];
  value = [];
  client_id = 9 ∷ [];
  request_id = pos 4;
}

abbrev deletion_msg : ApplyMsg
deletion_msg = record { command_valid = true; index = 5; command = [] }

abbrev deleted : KvServer Store
deleted = apply_op list_store toy_parser indexed deletion_msg deletion

searched :
    search list_store toy_parser toy_hnsw toy_hash 10000 deleted [] (pos 10)
    ≡ some (deleted, (6 ∷ [], 0) ∷ [])
unfolding search build_index_if_needed answer_search search_top_k shown find_label run_calls
    run_call new_engine engine_upsert engine_delete set_label member add_member erase_member
    apply_op execute wake execute_put_append delete_feature if_request_duplicate lookup
searched = refl

search-deleted_example : member eq_bytes (5 ∷ []) (item_ids ((6 ∷ [], 0) ∷ [])) ≡ false
unfolding if_request_duplicate lookup
search-deleted_example =
    search-deleted list_store toy_parser toy_hnsw toy_hash Short Short-apart 10000 indexed
      deletion_msg deletion [] (pos 10) refl refl refl refl
      ((5, refl), ((6, refl), ((5, refl), tt))) searched

-- The engine after the first item was deleted, saved and loaded into one that had deleted the item 7.
abbrev saved : RecallEngine (List ℕ)
saved = record engine { index = 6 ∷ []; deleted_items = (5 ∷ []) ∷ []; active_labels = 6 ∷ [] }

-- An index file of hnswlib: a byte for each label, and whether deleted elements may be replaced.
abbrev toy_load : Bytes → Bool → Option (Bool × List ℕ)
toy_load bytes allow_replace_deleted = some (allow_replace_deleted, bytes)

abbrev saved_index : RecallEngine (Bool × List ℕ)
saved_index = record {
  index = (true, saved.index);
  label_to_item_id = saved.label_to_item_id;
  deleted_items = saved.deleted_items;
  active_labels = saved.active_labels;
}

abbrev loading : RecallEngine (Bool × List ℕ)
loading = record {
  index = (true, []);
  label_to_item_id = [];
  deleted_items = (7 ∷ []) ∷ [];
  active_labels = [];
}

saved-IsStorable : IsStorable saved_index
unfolding find_label
saved-IsStorable = record {
  labels = omega arith;
  fit = (omega arith, omega arith, refl, (omega arith, omega arith, refl, tt));
  items = omega arith;
  short = (omega arith, tt);
}

load_index-Reloads_example :
    (g : RecallEngine (Bool × List ℕ)) × (load_index toy_load loading
        (some (6 ∷ []))
        (some (label_file saved_index))
      ≡ some (g, pos 2))
    × (g.index ≡ (false, 6 ∷ []))
    × Reloads saved_index loading g
load_index-Reloads_example =
    load_index-Reloads toy_load saved_index loading (6 ∷ []) refl saved-IsStorable

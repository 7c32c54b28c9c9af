-- ===== src/KvServer/Search.antt =====
-- `buildIndexIfNeeded` and `Search` of KvServer/KvServer.cpp: the index is what the calls that the
-- server has made left in a new engine.
pub mod Shown
mod Tests
use my_kv_storage_base_raft.Common.{
  ℕ, zero, suc, ◌*◌, max, Bool, true, false, ◌==◌, ltb, ℤ, pos, negsuc, Option, none, some, List,
  [], ◌∷◌, ◌++◌, if◌then◌else◌, length, Bytes, ◌≡◌, refl,
}
use my_kv_storage_base_raft.KvServer.Types.{
  ItemFeature, FeatureParser, SkipList, IndexCall, add_point, KvServer, hnsw_dim,
}
use my_kv_storage_base_raft.KvServer.RecallEngine.{
  Hnsw, RecallEngine, new_engine, engine_size, run_calls, search_top_k,
}

-- The capacity that the constructor gives the engine, of a store with so many elements.
abbrev pub init_capacity : ℕ → ℕ
init_capacity element_count = max (element_count * 2) 10000

-- The call for one element of the store: none where its value is no feature of the right length.
abbrev pub build_call : Bytes → Option ItemFeature → List IndexCall
build_call item_id none = []
build_call item_id (some feat) =
    if length feat.embedding == hnsw_dim then add_point item_id feat.embedding ∷ [] else []

abbrev pub build_calls : FeatureParser → List (Bytes × Bytes) → List IndexCall
build_calls parser [] = []
build_calls parser ((item_id, value) ∷ elements) =
    build_call item_id (parser.parse value) ++ build_calls parser elements

abbrev pub clamp_top_k : ℤ → ℕ
clamp_top_k (negsuc n) = 10
clamp_top_k (pos n) = if n == 0 then 10 else if ltb 100 n then 100 else n

module _ {M : Type 0} (sl : SkipList M) (parser : FeatureParser) where
  -- `buildIndexIfNeeded`
  unfoldable pub build_index_if_needed : KvServer M → KvServer M
  build_index_if_needed s = if s.index_built then s else record s {
    index_calls = s.index_calls ++ build_calls parser (sl.elements s.kvdb);
    index_built = true;
  }

  module _ {I : Type 0} (hnsw : Hnsw I) (hash_item_id : Bytes → ℕ) where
    -- `buildFromSkipList` of KvServer/RecallEngine.h, which nothing calls: the same calls.
    pub build_from_skip_list : RecallEngine I → M → Option (RecallEngine I)
    build_from_skip_list e m = run_calls hnsw hash_item_id e (build_calls parser (sl.elements m))

    -- What `Search` answers from an engine.
    unfoldable pub answer_search : RecallEngine I → List ℕ → ℤ → List (Bytes × ℕ)
    answer_search e query top_k =
        if engine_size hnsw hash_item_id e == 0
        then []
        else search_top_k hnsw hash_item_id e query (clamp_top_k top_k)

    abbrev pub search_on :
        KvServer M → List ℕ → ℤ → Option (RecallEngine I) → Option (KvServer M × List (Bytes × ℕ))
    search_on built query top_k none = none
    search_on built query top_k (some e) = some (built, answer_search e query top_k)

    -- `Search`: the server after it, and the items with their scores; `none` where a call of the
    -- index threw.
    unfoldable pub search : ℕ → KvServer M → List ℕ → ℤ → Option (KvServer M × List (Bytes × ℕ))
    unfolding build_index_if_needed
    search capacity s query top_k =
        let built = build_index_if_needed s in
        search_on built query top_k
          (run_calls hnsw hash_item_id (new_engine hnsw hash_item_id capacity) built.index_calls)

-- ===== src/KvServer/Search/Shown.antt =====
-- What `Search` shows, and that a feature whose deletion was applied is not shown.
use my_kv_storage_base_raft.Common.{
  ℕ, Bool, true, false, ◌==◌, ℤ, some, List, [], ◌∷◌, ◌++◌, Bytes, eq_bytes, eq_bytes_iff, map, all,
  member, member_nil, member_cons, ◌≡◌, refl, inl, inr, sym, ap, ◌∙◌, arith, Bool-cases,
  Option-cases,
}
use my_kv_storage_base_raft.OpCoder.{Op}
use my_kv_storage_base_raft.Raft.Types.{ApplyMsg}
use my_kv_storage_base_raft.KvServer.Types.{
  FeatureParser, SkipList, IndexCall, add_point, upsert_point, delete_point, KvServer,
  delete_feature_name,
}
use my_kv_storage_base_raft.KvServer.{
  is_nil, if_request_duplicate, apply_op, execute, wake, delete_feature,
}
use my_kv_storage_base_raft.KvServer.RecallEngine.{
  Hnsw, RecallEngine, engine_size, new_engine, run_calls,
}
use my_kv_storage_base_raft.KvServer.RecallEngine.Laws.{present, some_inj}
use my_kv_storage_base_raft.KvServer.RecallEngine.Runs.{AllKnown}
use my_kv_storage_base_raft.KvServer.RecallEngine.Tracks.{run_calls-Tracks, search_top_k-now}
use my_kv_storage_base_raft.KvServer.Search.{
  build_index_if_needed, answer_search, search, clamp_top_k,
}

-- The items of an answer.
abbrev pub item_ids : List (Bytes × ℕ) → List Bytes
item_ids found = map (λ (r : Bytes × ℕ). r.0) found

-- An item that a test refuses is not among items that all pass it.
all-member :
    (f : Bytes → Bool) (x : Bytes) (found : List (Bytes × ℕ))
    → all (λ (r : Bytes × ℕ). f r.0) found ≡ true
    → f x ≡ false
    → member eq_bytes x (item_ids found) ≡ false
all-member f x [] h refused = member_nil eq_bytes x
all-member f x (r ∷ found) h refused =
    let rest = all-member f x found (ground arith) refused in
    rw (member_cons eq_bytes x r.0 (item_ids found))
      (ground (arith, rest, eq_bytes_iff r.0 x, λ (e : r.0 ≡ x). ap f e))

present-append :
    (before after : List IndexCall) (now : Bytes → Bool) (x : Bytes)
    → present (before ++ after) now x ≡ present after (present before now) x
unfolding present
present-append [] after now x = refl
present-append (add_point y v ∷ before) after now x = present-append before after _ x
present-append (upsert_point y v ∷ before) after now x = present-append before after _ x
present-append (delete_point y ∷ before) after now x = present-append before after _ x

-- After a deletion the item is not there.
present-delete_point :
    (calls : List IndexCall) (now : Bytes → Bool) (x : Bytes)
    → present (calls ++ delete_point x ∷ []) now x ≡ false
unfolding present
present-delete_point calls now x =
    ground (arith, present-append calls (delete_point x ∷ []) now x, eq_bytes_iff x x)

module _ {M I : Type 0} (sl : SkipList M) (parser : FeatureParser) (hnsw : Hnsw I)
    (hash : Bytes → ℕ) (Known : Bytes → Type 0)
    (apart : (x y : Bytes) → Known x → Known y → hash x ≡ hash y → x ≡ y) where
  answer_search-present :
      (capacity : ℕ) (query : List ℕ) (top_k : ℤ) (calls : List IndexCall) {e : RecallEngine I}
      → AllKnown hnsw hash Known calls
      → run_calls hnsw hash (new_engine hnsw hash capacity) calls ≡ some e
      → all
          (λ (r : Bytes × ℕ). present calls (λ _. false) r.0)
          (answer_search sl parser hnsw hash e query top_k)
        ≡ true
  unfolding answer_search
  answer_search-present capacity query top_k calls {e} k done =
      elim (Bool-cases (engine_size hnsw hash e == 0)) [
        | inl empty ↦ rw empty refl
        | inr full ↦ rw full (
            search_top_k-now hnsw hash Known apart e (present calls (λ _. false)) query
              (clamp_top_k top_k) (run_calls-Tracks hnsw hash Known apart capacity calls k done))
      ]

  -- Every item that `Search` shows is one that the calls of the server have put in and not taken out.
  search-present :
      (capacity : ℕ) (s : KvServer M) (query : List ℕ) (top_k : ℤ) {t : KvServer M}
      {found : List (Bytes × ℕ)}
      → search sl parser hnsw hash capacity s query top_k ≡ some (t, found)
      → AllKnown hnsw hash Known t.index_calls
      → all (λ (r : Bytes × ℕ). present t.index_calls (λ _. false) r.0) found ≡ true
  unfolding search
  search-present capacity s query top_k {t} {found} h k =
      let built = build_index_if_needed sl parser s in
      elim (Option-cases (run_calls hnsw hash (new_engine hnsw hash capacity) built.index_calls)) [
        | inl threw ↦ cc (rw threw at h)
        | inr (e, done) ↦
            let e1 : t ≡ built =
              ap (λ (p : KvServer M × List (Bytes × ℕ)). p.0) (some_inj (sym (rw done at h))) in
            let e2 : found ≡ answer_search sl parser hnsw hash e query top_k =
              ap (λ (p : KvServer M × List (Bytes × ℕ)). p.1) (some_inj (sym (rw done at h))) in
            rw (e1, e2)
              (answer_search-present capacity query top_k built.index_calls (rw e1 at k) done)
      ]

  -- A search on a built index makes no call that changes it.
  search-built :
      (capacity : ℕ) (s : KvServer M) (query : List ℕ) (top_k : ℤ) {t : KvServer M}
      {found : List (Bytes × ℕ)}
      → search sl parser hnsw hash capacity s query top_k ≡ some (t, found)
      → s.index_built ≡ true
      → t.index_calls ≡ s.index_calls
  unfolding search build_index_if_needed
  search-built capacity s query top_k {t} {found} h built =
      elim (Option-cases (run_calls hnsw hash (new_engine hnsw hash capacity) s.index_calls)) [
        | inl threw ↦ cc (rw (built, threw) at h)
        | inr (e, done) ↦
            ap (λ (p : KvServer M × List (Bytes × ℕ)). p.0.index_calls)
              (some_inj (sym (rw (built, done) at h)))
      ]

  index_calls-delete :
      (s : KvServer M) (msg : ApplyMsg) (op : Op)
      → if_request_duplicate s.last_requests op.client_id op.request_id ≡ false
      → op.operation ≡ delete_feature_name
      → is_nil op.key ≡ false
      → ((apply_op sl parser s msg op).index_calls ≡ s.index_calls ++ delete_point op.key ∷ [])
        × ((apply_op sl parser s msg op).index_built ≡ s.index_built)
  unfolding apply_op wake execute delete_feature
  index_calls-delete s msg op new named full = rw (new, named, full) (refl, refl)

  -- Once the deletion of a feature was applied, on a server whose index is built, a search does not
  -- show the item, whatever the index answers. The deletion is no duplicate and names an item, no two
  -- items of the calls have the same hash, and no call of the index throws.
  pub search-deleted :
      (capacity : ℕ) (s : KvServer M) (msg : ApplyMsg) (op : Op) (query : List ℕ) (top_k : ℤ)
      {t : KvServer M} {found : List (Bytes × ℕ)}
      → s.index_built ≡ true
      → if_request_duplicate s.last_requests op.client_id op.request_id ≡ false
      → op.operation ≡ delete_feature_name
      → is_nil op.key ≡ false
      → AllKnown hnsw hash Known (s.index_calls ++ delete_point op.key ∷ [])
      → search sl parser hnsw hash capacity (apply_op sl parser s msg op) query top_k
        ≡ some (t, found)
      → member eq_bytes op.key (item_ids found) ≡ false
  search-deleted capacity s msg op query top_k {t} {found} built new named full known h =
      let after = apply_op sl parser s msg op in
      let (calls, still) = index_calls-delete s msg op new named full in
      let same : t.index_calls ≡ s.index_calls ++ delete_point op.key ∷ [] =
        search-built capacity after query top_k h (still ∙ built) ∙ calls in
      all-member (present t.index_calls (λ _. false)) op.key found
        (search-present capacity after query top_k h (rw same known))
        (rw same (present-delete_point s.index_calls (λ _. false) op.key))

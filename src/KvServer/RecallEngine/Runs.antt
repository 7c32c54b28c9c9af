-- ===== src/KvServer/RecallEngine/Runs.antt =====
-- What every call that returns keeps: a relation between the engine and the items that are in it.
use my_kv_storage_base_raft.Common.{
  ℕ, Bool, true, false, not, ◌&&◌, ◌||◌, ◌==◌, some, List, [], ◌∷◌, if◌then◌else◌, Bytes, eq_bytes,
  eq_bytes_iff, ◌≡◌, sym, ap, inl, inr, arith, Bool-cases, member, add_member, erase_member,
  member-add_member,
}
use my_kv_storage_base_raft.KvServer.Types.{IndexCall, add_point, upsert_point, delete_point}
use my_kv_storage_base_raft.KvServer.RecallEngine.{
  Hnsw, RecallEngine, set_label, engine_add, engine_upsert, engine_delete, run_call, run_calls,
}
use my_kv_storage_base_raft.KvServer.RecallEngine.Laws.{
  present, item_of, eq_nat_iff, upserted_labels, present_cons, some_inj,
}

-- The items that are told apart are `Known`.
module _ {I : Type 0} (hnsw : Hnsw I) (hash : Bytes → ℕ) (Known : Bytes → Type 0) where
  abbrev pub AllKnown : List IndexCall → Type 0
  AllKnown [] = Unit {0}
  AllKnown (call ∷ calls) = Known (item_of call) × AllKnown calls

  -- The relation holds again where the index took a vector or marked a label as deleted.
  pub record IsKept (R : RecallEngine I → (Bytes → Bool) → Type 0) : Type 0 where
    pub active :
        (e : RecallEngine I) (now : Bytes → Bool) (x : Bytes)
        → Known x
        → R e now
        → member ◌==◌ (hash x) e.active_labels ≡ now x
    pub same :
        (e : RecallEngine I) (now after : Bytes → Bool)
        → ((x : Bytes) → after x ≡ now x)
        → R e now
        → R e after
    pub taken :
        (e : RecallEngine I) (now : Bytes → Bool) (x : Bytes) (v : List ℕ) (replace : Bool)
        (active : List ℕ)
        → Known x
        → R e now
        → (hnsw.add_point e.index v (hash x) replace).1 ≡ true
        → ((l : ℕ) → member ◌==◌ l active ≡ (hash x == l || member ◌==◌ l e.active_labels))
        → R
            (record {
              index = (hnsw.add_point e.index v (hash x) replace).0;
              label_to_item_id = set_label (hash x) x e.label_to_item_id;
              deleted_items = erase_member eq_bytes x e.deleted_items;
              active_labels = active;
            })
            (λ y. eq_bytes x y || now y)
    pub marked :
        (e : RecallEngine I) (now : Bytes → Bool) (x : Bytes)
        → Known x
        → R e now
        → (hnsw.mark_delete e.index (hash x)).1 ≡ true
        → R
            (record e {
              index = (hnsw.mark_delete e.index (hash x)).0;
              deleted_items = add_member eq_bytes x e.deleted_items;
              active_labels = erase_member ◌==◌ (hash x) e.active_labels;
            })
            (λ y. not (eq_bytes x y) && now y)

module _ {I : Type 0} (hnsw : Hnsw I) (hash : Bytes → ℕ) (Known : Bytes → Type 0)
    (R : RecallEngine I → (Bytes → Bool) → Type 0) (keeps : IsKept hnsw hash Known R) where
  engine_add-keeps :
      (e : RecallEngine I) (now : Bytes → Bool) (x : Bytes) (v : List ℕ)
      → Known x
      → R e now
      → (engine_add hnsw hash e x v).1 ≡ true
      → R (engine_add hnsw hash e x v).0 (λ y. eq_bytes x y || now y)
  unfolding engine_add
  engine_add-keeps e now x v k h took = elim (Bool-cases (member ◌==◌ (hash x) e.active_labels)) [
    | inl there ↦ rw there (
        keeps.same e now (λ y. eq_bytes x y || now y)
          (λ y. ground (arith, keeps.active e now x k h, eq_bytes_iff x y, λ (e : x ≡ y). ap now e))
          h)
    | inr missing ↦ rw missing (
        keeps.taken e now x v false (add_member ◌==◌ (hash x) e.active_labels) k h
          (rw missing at took) (λ l. member-add_member ◌==◌ eq_nat_iff (hash x) l e.active_labels))
  ]

  engine_upsert-keeps :
      (e : RecallEngine I) (now : Bytes → Bool) (x : Bytes) (v : List ℕ)
      → Known x
      → R e now
      → (engine_upsert hnsw hash e x v).1 ≡ true
      → R (engine_upsert hnsw hash e x v).0 (λ y. eq_bytes x y || now y)
  unfolding engine_upsert
  engine_upsert-keeps e now x v k h took =
      keeps.taken e now x v (member ◌==◌ (hash x) e.active_labels)
        (if member ◌==◌ (hash x) e.active_labels
          then e.active_labels
          else add_member ◌==◌ (hash x) e.active_labels)
        k h took (λ l. upserted_labels (hash x) l e.active_labels)

  engine_delete-keeps :
      (e : RecallEngine I) (now : Bytes → Bool) (x : Bytes)
      → Known x
      → R e now
      → (engine_delete hnsw hash e x).1 ≡ true
      → R (engine_delete hnsw hash e x).0 (λ y. not (eq_bytes x y) && now y)
  unfolding engine_delete
  engine_delete-keeps e now x k h took = elim (Bool-cases (member ◌==◌ (hash x) e.active_labels)) [
    | inl there ↦ elim (Bool-cases (hnsw.mark_delete e.index (hash x)).1) [
      | inl marked ↦ rw (there, marked) (keeps.marked e now x k h marked)
      | inr threw ↦ cc (rw (there, threw) at took)
    ]
    | inr missing ↦ rw missing (
        keeps.same e now (λ y. not (eq_bytes x y) && now y)
          (λ y. ground (arith, keeps.active e now x k h, eq_bytes_iff x y, λ (e : x ≡ y). ap now e))
          h)
  ]

  run_call-keeps :
      (e : RecallEngine I) (now : Bytes → Bool) (call : IndexCall)
      → Known (item_of call)
      → R e now
      → (run_call hnsw hash e call).1 ≡ true
      → R (run_call hnsw hash e call).0 (present (call ∷ []) now)
  unfolding run_call present
  run_call-keeps e now (add_point x v) k h took = engine_add-keeps e now x v k h took
  run_call-keeps e now (upsert_point x v) k h took = engine_upsert-keeps e now x v k h took
  run_call-keeps e now (delete_point x) k h took = engine_delete-keeps e now x k h took

  pub run_calls-keeps :
      (e : RecallEngine I) (now : Bytes → Bool) (calls : List IndexCall) {d : RecallEngine I}
      → AllKnown hnsw hash Known calls
      → R e now
      → run_calls hnsw hash e calls ≡ some d
      → R d (present calls now)
  unfolding run_calls present
  run_calls-keeps e now [] k h done = rw (some_inj done) at h
  run_calls-keeps e now (call ∷ calls) k h done = elim (Bool-cases (run_call hnsw hash e call).1) [
    | inl took ↦ rw (sym (present_cons call calls now)) (
        run_calls-keeps (run_call hnsw hash e call).0 (present (call ∷ []) now) calls k.1
          (run_call-keeps e now call k.0 h took) (rw took at done))
    | inr threw ↦ cc (rw threw at done)
  ]

-- ===== src/KvServer/RecallEngine/Tracks.antt =====
-- The items that a search shows, whatever the index does.
use my_kv_storage_base_raft.Common.{
  ℕ, Bool, true, false, not, ◌&&◌, ◌||◌, ◌==◌, some, List, [], ◌∷◌, Bytes, eq_bytes, eq_bytes_iff,
  all, ◌≡◌, refl, sym, ap, ◌∙◌, inl, inr, arith, Bool-cases, Option-cases, member, member_nil,
  add_member, erase_member, member-add_member, member-erase_member,
}
use my_kv_storage_base_raft.KvServer.Types.{IndexCall}
use my_kv_storage_base_raft.KvServer.RecallEngine.{
  Hnsw, RecallEngine, find_label, set_label, shown, new_engine, search_top_k, run_calls,
}
use my_kv_storage_base_raft.KvServer.RecallEngine.Runs.{AllKnown, IsKept, run_calls-keeps}
use my_kv_storage_base_raft.KvServer.RecallEngine.Laws.{
  present, eq_nat_iff, find_label-set_label, find_label-nil,
}

-- The items `Known` are told apart by their hashes.
module _ {I : Type 0} (hnsw : Hnsw I) (hash : Bytes → ℕ) (Known : Bytes → Type 0)
    (apart : (x y : Bytes) → Known x → Known y → hash x ≡ hash y → x ≡ y) where
  -- The items of `now` are the active ones, and every other item that a label leads to is deleted.
  pub record Tracks (e : RecallEngine I) (now : Bytes → Bool) : Type 0 where
    pub active : (x : Bytes) → Known x → member ◌==◌ (hash x) e.active_labels ≡ now x
    pub hidden :
        (l : ℕ) (x : Bytes)
        → find_label l e.label_to_item_id ≡ some x
        → now x ≡ false
        → member eq_bytes x e.deleted_items ≡ true

  hash-eq : (x y : Bytes) → Known x → Known y → (hash x == hash y) ≡ eq_bytes x y
  hash-eq x y k j = ground (arith, apart x y k j, eq_bytes_iff x y, λ (e : x ≡ y). ap hash e)

  new_engine-Tracks : (n : ℕ) → Tracks (new_engine hnsw hash n) (λ _. false)
  unfolding new_engine
  new_engine-Tracks n = record {
    active = λ x k. member_nil ◌==◌ (hash x);
    hidden = λ l x found h. cc (find_label-nil l, found);
  }

  Tracks-eq :
      (e : RecallEngine I) (now after : Bytes → Bool)
      → ((x : Bytes) → after x ≡ now x)
      → Tracks e now
      → Tracks e after
  Tracks-eq e now after same h = record {
    active = λ x k. h.active x k ∙ sym (same x);
    hidden = λ l x found out. h.hidden l x found (sym (same x) ∙ out);
  }

  -- An item whose vector the index took.
  taken-Tracks :
      (e : RecallEngine I) (now : Bytes → Bool) (x : Bytes) (v : List ℕ) (replace : Bool)
      (active : List ℕ)
      → Known x
      → Tracks e now
      → (hnsw.add_point e.index v (hash x) replace).1 ≡ true
      → ((l : ℕ) → member ◌==◌ l active ≡ (hash x == l || member ◌==◌ l e.active_labels))
      → Tracks
          (record {
            index = (hnsw.add_point e.index v (hash x) replace).0;
            label_to_item_id = set_label (hash x) x e.label_to_item_id;
            deleted_items = erase_member eq_bytes x e.deleted_items;
            active_labels = active;
          })
          (λ y. eq_bytes x y || now y)
  taken-Tracks e now x v replace active k h took more = record {
    active = λ y j. rw (more (hash y), hash-eq x y k j, h.active y j) refl;
    hidden = λ l y found out. ground (
      arith,
      find_label-set_label (hash x) l x e.label_to_item_id,
      found,
      out,
      eq_bytes_iff x y,
      h.hidden l y,
      member-erase_member eq_bytes eq_bytes_iff x y e.deleted_items,
    );
  }

  -- An item that the index marked as deleted.
  marked-Tracks :
      (e : RecallEngine I) (now : Bytes → Bool) (x : Bytes)
      → Known x
      → Tracks e now
      → (hnsw.mark_delete e.index (hash x)).1 ≡ true
      → Tracks
          (record e {
            index = (hnsw.mark_delete e.index (hash x)).0;
            deleted_items = add_member eq_bytes x e.deleted_items;
            active_labels = erase_member ◌==◌ (hash x) e.active_labels;
          })
          (λ y. not (eq_bytes x y) && now y)
  marked-Tracks e now x k h marked = record {
    active = λ y j.
        rw
          (
            member-erase_member ◌==◌ eq_nat_iff (hash x) (hash y) e.active_labels,
            hash-eq x y k j,
            h.active y j,
          )
          refl;
    hidden = λ l y found out. ground (
      arith,
      out,
      h.hidden l y found,
      member-add_member eq_bytes eq_bytes_iff x y e.deleted_items,
    );
  }

  Tracks-IsKept : IsKept hnsw hash Known Tracks
  Tracks-IsKept = record {
    active = λ e now x k h. h.active x k;
    same = Tracks-eq;
    taken = taken-Tracks;
    marked = marked-Tracks;
  }

  pub run_calls-Tracks :
      (max_elements : ℕ) (calls : List IndexCall) {e : RecallEngine I}
      → AllKnown hnsw hash Known calls
      → run_calls hnsw hash (new_engine hnsw hash max_elements) calls ≡ some e
      → Tracks e (present calls (λ _. false))
  run_calls-Tracks max_elements calls k done =
      run_calls-keeps hnsw hash Known Tracks Tracks-IsKept (new_engine hnsw hash max_elements)
        (λ _. false) calls k (new_engine-Tracks max_elements) done

  -- Whatever the index answers, the search shows items of `now` only.
  pub shown-now :
      (e : RecallEngine I) (now : Bytes → Bool) (knn : List (ℕ × ℕ))
      → Tracks e now
      → all (λ (r : Bytes × ℕ). now r.0) (shown e.label_to_item_id e.deleted_items knn) ≡ true
  unfolding shown
  shown-now e now [] h = refl
  shown-now e now ((d, l) ∷ knn) h =
      let rest = shown-now e now knn h in
      elim (Option-cases (find_label l e.label_to_item_id)) [
        | inl unknown ↦ rw unknown rest
        | inr (x, found) ↦ elim (Bool-cases (member eq_bytes x e.deleted_items)) [
          | inl deleted ↦ rw (found, deleted) rest
          | inr kept ↦
              let live : now x ≡ true = ground (arith, h.hidden l x found) in
              rw (found, kept) (rw (live, rest) refl)
        ]
      ]

  pub search_top_k-now :
      (e : RecallEngine I) (now : Bytes → Bool) (query : List ℕ) (top_k : ℕ)
      → Tracks e now
      → all (λ (r : Bytes × ℕ). now r.0) (search_top_k hnsw hash e query top_k) ≡ true
  unfolding search_top_k
  search_top_k-now e now query top_k h = elim (Bool-cases (hnsw.cur_element_count e.index == 0)) [
    | inl empty ↦ rw empty refl
    | inr full ↦ rw full (shown-now e now (hnsw.search_knn_closer_first e.index query top_k) h)
  ]

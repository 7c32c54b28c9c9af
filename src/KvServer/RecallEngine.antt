-- ===== src/KvServer/RecallEngine.antt =====
-- KvServer/RecallEngine.cpp and RecallEngine.h: the labels of the items in the vector index, which
-- of them are deleted, and the search. A float is given by its bits, a label by its 64 bits.
pub mod Laws
pub mod Runs
pub mod Tracks
pub mod Files
pub mod Reading
pub mod Reloaded
use my_kv_storage_base_raft.Common.{
  ℕ, Bool, true, false, ◌==◌, Option, none, some, List, [], ◌∷◌, if◌then◌else◌, Bytes, eq_bytes,
  length, member, add_member, erase_member,
}
use my_kv_storage_base_raft.KvServer.Types.{IndexCall, add_point, upsert_point, delete_point}

-- `hnswlib::HierarchicalNSW<float>`, with contents of the type `I`. A call that changes the index
-- also tells whether it returned; where it did not, it threw.
pub record Hnsw (I : Type 0) : Type 0 where
  pub create : ℕ → I
  pub add_point : I → List ℕ → ℕ → Bool → I × Bool
  pub mark_delete : I → ℕ → I × Bool
  pub search_knn_closer_first : I → List ℕ → ℕ → List (ℕ × ℕ)
  pub cur_element_count : I → ℕ

pub record RecallEngine (I : Type 0) : Type 0 where
  pub index : I
  pub label_to_item_id : List (ℕ × Bytes)
  pub deleted_items : List Bytes
  pub active_labels : List ℕ

unfoldable pub find_label : ℕ → List (ℕ × Bytes) → Option Bytes
find_label l [] = none
find_label l ((k, x) ∷ m) = if k == l then some x else find_label l m

unfoldable pub set_label : ℕ → Bytes → List (ℕ × Bytes) → List (ℕ × Bytes)
set_label l x [] = (l, x) ∷ []
set_label l x ((k, y) ∷ m) =
    let rest = set_label l x m in if k == l then (k, x) ∷ m else (k, y) ∷ rest

-- What `searchTopK` shows for the item of a label.
abbrev pub show_item : Option Bytes → List Bytes → ℕ → List (Bytes × ℕ) → List (Bytes × ℕ)
show_item none del_set distance rest = rest
show_item (some item_id) del_set distance rest =
    if member eq_bytes item_id del_set then rest else (item_id, distance) ∷ rest

-- The loop of `searchTopK` over what the index answered.
unfoldable pub shown : List (ℕ × Bytes) → List Bytes → List (ℕ × ℕ) → List (Bytes × ℕ)
shown labels del_set [] = []
shown labels del_set ((distance, label) ∷ knn) =
    show_item (find_label label labels) del_set distance (shown labels del_set knn)

module _ {I : Type 0} (hnsw : Hnsw I) (hash_item_id : Bytes → ℕ) where
  unfoldable pub new_engine : ℕ → RecallEngine I
  new_engine max_elements = record {
    index = hnsw.create max_elements;
    label_to_item_id = [];
    deleted_items = [];
    active_labels = [];
  }

  -- `addPoint`: the engine, and whether the call returned.
  unfoldable pub engine_add : RecallEngine I → Bytes → List ℕ → RecallEngine I × Bool
  engine_add e item_id embedding =
      let label = hash_item_id item_id in
      if member ◌==◌ label e.active_labels
      then (e, true)
      else let r = hnsw.add_point e.index embedding label false in
        (
          record {
            index = r.0;
            label_to_item_id = set_label label item_id e.label_to_item_id;
            deleted_items = erase_member eq_bytes item_id e.deleted_items;
            active_labels = add_member ◌==◌ label e.active_labels;
          },
          r.1,
        )

  -- `upsertPoint`
  unfoldable pub engine_upsert : RecallEngine I → Bytes → List ℕ → RecallEngine I × Bool
  engine_upsert e item_id embedding =
      let label = hash_item_id item_id in
      let existed = member ◌==◌ label e.active_labels in
      let r = hnsw.add_point e.index embedding label existed in
      (
        record {
          index = r.0;
          label_to_item_id = set_label label item_id e.label_to_item_id;
          deleted_items = erase_member eq_bytes item_id e.deleted_items;
          active_labels =
              if existed then e.active_labels else add_member ◌==◌ label e.active_labels;
        },
        r.1,
      )

  -- `deletePoint`
  unfoldable pub engine_delete : RecallEngine I → Bytes → RecallEngine I × Bool
  engine_delete e item_id =
      let label = hash_item_id item_id in
      if member ◌==◌ label e.active_labels
      then (let r = hnsw.mark_delete e.index label in
          if r.1
          then (
            record e {
              index = r.0;
              deleted_items = add_member eq_bytes item_id e.deleted_items;
              active_labels = erase_member ◌==◌ label e.active_labels;
            },
            true,
          )
          else (record e { index = r.0 }, false))
      else (e, true)

  -- `searchTopK`: the items and their distances.
  unfoldable pub search_top_k : RecallEngine I → List ℕ → ℕ → List (Bytes × ℕ)
  unfolding shown
  search_top_k e query top_k =
      if hnsw.cur_element_count e.index == 0
      then []
      else shown e.label_to_item_id e.deleted_items
          (hnsw.search_knn_closer_first e.index query top_k)

  -- `size` and `deletedCount`
  abbrev pub engine_size : RecallEngine I → ℕ
  engine_size e = hnsw.cur_element_count e.index

  abbrev pub deleted_count : RecallEngine I → ℕ
  deleted_count e = length e.deleted_items

  unfoldable pub run_call : RecallEngine I → IndexCall → RecallEngine I × Bool
  unfolding engine_add engine_upsert engine_delete
  run_call e (add_point item_id embedding) = engine_add e item_id embedding
  run_call e (upsert_point item_id embedding) = engine_upsert e item_id embedding
  run_call e (delete_point item_id) = engine_delete e item_id

  -- The calls of the server one after the other; a call that throws ends the program.
  unfoldable pub run_calls : RecallEngine I → List IndexCall → Option (RecallEngine I)
  unfolding run_call
  run_calls e [] = some e
  run_calls e (call ∷ calls) =
      let r = run_call e call in let rest = run_calls r.0 calls in if r.1 then rest else none

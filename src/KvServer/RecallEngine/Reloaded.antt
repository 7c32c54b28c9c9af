-- ===== src/KvServer/RecallEngine/Reloaded.antt =====
-- What `loadIndex` makes of the files that `saveIndex` wrote.
use my_kv_storage_base_raft.Common.{
  ℕ, ◌^◌, ◌<◌, ◌≡◌, refl, sym, ap, ◌∙◌, Bool, true, false, ◌||◌, ◌==◌, leb, pos, Option, none, some,
  List, [], ◌∷◌, ◌++◌, if◌then◌else◌, Bytes, eq_bytes, eq_bytes_iff, length, member, add_member,
  member_nil, member_cons, member-add_member, arith, Bool-cases, inl, inr,
}
use my_kv_storage_base_raft.OpCoder.{le_bytes}
use my_kv_storage_base_raft.KvServer.RecallEngine.{RecallEngine, find_label, set_label}
use my_kv_storage_base_raft.KvServer.RecallEngine.Laws.{
  eq_nat_iff, find_label-nil, find_label-set_label,
}
use my_kv_storage_base_raft.KvServer.RecallEngine.Files.{
  write_labels, write_items, label_file, Stream, read_number, Loaded, read_label_file, load_index,
}
use my_kv_storage_base_raft.KvServer.RecallEngine.Reading.{
  at, AllFit, AllShort, after_labels, after_items, read_number-le_bytes, read_labels-write_labels,
  read_items-write_items,
}

abbrev pub is_some {ℓ} : {A : Type ℓ} → Option A → Bool
is_some none = false
is_some (some a) = true

some_or : (o : Option Bytes) → (if is_some o then o else none) ≡ o
some_or none = refl
some_or (some x) = refl

find_label-after_labels :
    (ls : List (ℕ × Bytes)) (m : Loaded) (k : ℕ)
    → AllFit ls
    → find_label k (after_labels ls m).labels
      ≡ (if is_some (find_label k ls) then find_label k ls else find_label k m.labels)
unfolding after_labels find_label
find_label-after_labels [] m k fit = refl
find_label-after_labels ((l, x) ∷ ls) m k fit =
    let rest =
      find_label-after_labels ls
        (record m { labels = set_label l x m.labels; active = add_member ◌==◌ l m.active }) k
        fit.3 in
    elim (Bool-cases (l == k)) [
      | inl same ↦
          let absent : find_label k ls ≡ none =
            ap (λ (n : ℕ). find_label n ls) (sym ((eq_nat_iff l k).0 same)) ∙ fit.2 in
          rest ∙ rw (find_label-set_label l k x m.labels, absent, same) refl
      | inr other ↦ rest ∙ rw (find_label-set_label l k x m.labels, other) refl
    ]

active-after_labels :
    (ls : List (ℕ × Bytes)) (m : Loaded) (k : ℕ)
    → member ◌==◌ k (after_labels ls m).active
      ≡ (is_some (find_label k ls) || member ◌==◌ k m.active)
unfolding after_labels find_label
active-after_labels [] m k = refl
active-after_labels ((l, x) ∷ ls) m k = ground (
  arith,
  active-after_labels ls
      (record m { labels = set_label l x m.labels; active = add_member ◌==◌ l m.active }) k,
  member-add_member ◌==◌ eq_nat_iff l k m.active,
)

deleted-after_items :
    (xs : List Bytes) (m : Loaded) (y : Bytes)
    → member eq_bytes y (after_items xs m).deleted
      ≡ (member eq_bytes y xs || member eq_bytes y m.deleted)
unfolding after_items
deleted-after_items [] m y = rw (member_nil eq_bytes y) refl
deleted-after_items (x ∷ xs) m y = ground (
  arith,
  deleted-after_items xs (record m { deleted = add_member eq_bytes x m.deleted }) y,
  member_cons eq_bytes y x xs,
  member-add_member eq_bytes eq_bytes_iff x y m.deleted,
)

deleted-after_labels :
    (ls : List (ℕ × Bytes)) (m : Loaded) → (after_labels ls m).deleted ≡ m.deleted
unfolding after_labels
deleted-after_labels [] m = refl
deleted-after_labels ((l, x) ∷ ls) m = deleted-after_labels ls _

labels-after_items :
    (xs : List Bytes) (m : Loaded)
    → ((after_items xs m).labels ≡ m.labels) × ((after_items xs m).active ≡ m.active)
unfolding after_items
labels-after_items [] m = (refl, refl)
labels-after_items (x ∷ xs) m = labels-after_items xs _

-- What the sizes of the maps and of their items are where the file can hold them.
pub record IsStorable {I : Type 0} (e : RecallEngine I) : Type 0 where
  pub labels : length e.label_to_item_id < 2 ^ 31
  pub fit : AllFit e.label_to_item_id
  pub items : length e.deleted_items < 2 ^ 31
  pub short : AllShort e.deleted_items

-- What the engine `g` has of the engine `e` that was saved, where the files were loaded into `f`.
pub record Reloads {I : Type 0} (e f g : RecallEngine I) : Type 0 where
  pub labels : (l : ℕ) → find_label l g.label_to_item_id ≡ find_label l e.label_to_item_id
  pub deleted :
      (x : Bytes)
      → member eq_bytes x g.deleted_items
        ≡ (member eq_bytes x e.deleted_items || member eq_bytes x f.deleted_items)
  pub active : (l : ℕ) → member ◌==◌ l g.active_labels ≡ is_some (find_label l e.label_to_item_id)

loaded : {I : Type 0} → RecallEngine I → List Bytes → Loaded
loaded e deleted =
    after_items e.deleted_items
      (after_labels e.label_to_item_id (record { labels = []; active = []; deleted = deleted }))

read_label_file-label_file :
    {I : Type 0} (e : RecallEngine I) (deleted : List Bytes)
    → IsStorable e
    → read_label_file (label_file e) deleted ≡ some (loaded e deleted)
unfolding read_label_file label_file loaded
read_label_file-label_file e deleted s =
    let few_labels : leb (2 ^ 31) (length e.label_to_item_id) ≡ false = ground (arith, s.labels) in
    let few_items : leb (2 ^ 31) (length e.deleted_items) ≡ false = ground (arith, s.items) in
    rw
      (
        read_number-le_bytes (length e.label_to_item_id)
            (write_labels e.label_to_item_id
              ++ (le_bytes (length e.deleted_items) ++ write_items e.deleted_items))
            (omega (arith, s.labels)),
        few_labels,
        read_labels-write_labels e.label_to_item_id
            (le_bytes (length e.deleted_items) ++ write_items e.deleted_items)
            (record { labels = []; active = []; deleted = deleted }) s.fit,
        read_number-le_bytes (length e.deleted_items) (write_items e.deleted_items)
            (omega (arith, s.items)),
        few_items,
      )
      (read_items-write_items e.deleted_items _ s.short)

count-label_file :
    {I : Type 0} (e : RecallEngine I)
    → IsStorable e
    → (read_number 4 (at (label_file e))).0 ≡ length e.label_to_item_id
unfolding label_file
count-label_file e s =
    ap (λ (r : ℕ × Stream). r.0)
      (read_number-le_bytes (length e.label_to_item_id) _ (omega (arith, s.labels)))

loaded-Reloads :
    {I : Type 0} (i : I) (e f : RecallEngine I)
    → IsStorable e
    → Reloads e f (record {
      index = i;
      label_to_item_id = (loaded e f.deleted_items).labels;
      deleted_items = (loaded e f.deleted_items).deleted;
      active_labels = (loaded e f.deleted_items).active;
    })
unfolding loaded
loaded-Reloads i e f s =
    let m : Loaded = record { labels = []; active = []; deleted = f.deleted_items } in
    let read = after_labels e.label_to_item_id m in
    let kept = labels-after_items e.deleted_items read in
    record {
      labels = λ l.
          ap (find_label l) kept.0
          ∙ find_label-after_labels e.label_to_item_id m l s.fit
          ∙ rw (find_label-nil l) (some_or (find_label l e.label_to_item_id));
      deleted = λ x.
          deleted-after_items e.deleted_items read x
          ∙ ap (λ (d : List Bytes). member eq_bytes x e.deleted_items || member eq_bytes x d)
              (deleted-after_labels e.label_to_item_id m);
      active = λ l.
          ap (member ◌==◌ l) kept.1
          ∙ active-after_labels e.label_to_item_id m l
          ∙ rw (member_nil ◌==◌ l) (ground arith);
    }

-- The file of labels that `saveIndex` writes of an engine `e`, loaded into any engine `f` together
-- with an index file that hnswlib can read, gives back the item of every label; the items that were
-- deleted are deleted again, beside those that already were, and every label is active, those of
-- deleted items too. The index is what hnswlib reads where deleted elements may not be replaced,
-- whatever the index of `e` allowed. The maps fit the file's numbers.
pub load_index-Reloads :
    {I : Type 0} (hnsw_load : Bytes → Bool → Option I) (e f : RecallEngine I) (index_file : Bytes)
    {i : I}
    → hnsw_load index_file false ≡ some i
    → IsStorable e
    → (g : RecallEngine I) × (load_index hnsw_load f (some index_file) (some (label_file e))
        ≡ some (g, pos (length e.label_to_item_id)))
      × (g.index ≡ i)
      × Reloads e f g
unfolding load_index
load_index-Reloads hnsw_load e f index_file {i} read s =
    let few_labels : leb (2 ^ 31) (length e.label_to_item_id) ≡ false = ground (arith, s.labels) in
    (
      record {
        index = i;
        label_to_item_id = (loaded e f.deleted_items).labels;
        deleted_items = (loaded e f.deleted_items).deleted;
        active_labels = (loaded e f.deleted_items).active;
      },
      rw (read, read_label_file-label_file e f.deleted_items s, count-label_file e s, few_labels)
          refl,
      refl,
      loaded-Reloads i e f s,
    )

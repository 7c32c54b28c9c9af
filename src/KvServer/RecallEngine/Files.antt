-- ===== src/KvServer/RecallEngine/Files.antt =====
-- `saveIndex` and `loadIndex` of KvServer/RecallEngine.cpp, which nothing calls: the file of the labels
-- beside that of the index. Numbers are written little-endian; an item has fewer than 2^31 bytes.
use my_kv_storage_base_raft.Common.{
  ℕ, zero, suc, ◌+◌, ◌-◌, ◌*◌, ◌/◌, ◌^◌, Bool, true, false, ◌==◌, leb, ℤ, pos, negsuc, minus_one,
  Option, none, some, List, [], ◌∷◌, ◌++◌, if◌then◌else◌, Bytes, eq_bytes, length, take, drop,
  replicate, add_member,
}
use my_kv_storage_base_raft.OpCoder.{le_bytes}
use my_kv_storage_base_raft.KvServer.RecallEngine.{RecallEngine, set_label}

-- The eight bytes of a label.
unfoldable pub label_bytes : ℕ → Bytes
label_bytes l = le_bytes l ++ le_bytes (l / 2 ^ 32)

unfoldable pub write_text : Bytes → Bytes
write_text x = le_bytes (length x) ++ x

unfoldable pub write_labels : List (ℕ × Bytes) → Bytes
write_labels [] = []
write_labels ((l, x) ∷ m) = label_bytes l ++ (write_text x ++ write_labels m)

unfoldable pub write_items : List Bytes → Bytes
write_items [] = []
write_items (x ∷ xs) = write_text x ++ write_items xs

-- What `saveIndex` writes beside the index.
unfoldable pub label_file : {I : Type 0} → RecallEngine I → Bytes
label_file e =
    le_bytes (length e.label_to_item_id)
    ++ (write_labels e.label_to_item_id
        ++ (le_bytes (length e.deleted_items) ++ write_items e.deleted_items))

-- An `ifstream`: what is left to read, and whether no read has failed.
pub record Stream : Type 0 where
  pub rest : Bytes
  pub good : Bool

-- `read`: the bytes that were stored; a short read stores what there is and fails.
unfoldable pub read_bytes : ℕ → Stream → Bytes × Stream
read_bytes n st =
    if st.good
    then (take n st.rest, record { rest = drop n st.rest; good = leb n (length st.rest) })
    else ([], st)

abbrev pub le_value : Bytes → ℕ
le_value [] = 0
le_value (b ∷ bs) = b + 256 * le_value bs

-- The bits of an `int32_t` or `int64_t` that was 0 before.
unfoldable pub read_number : ℕ → Stream → ℕ × Stream
read_number size st = let r = read_bytes size st in (le_value r.0, r.1)

-- The text of a length that was read; the constructor of the string throws on a negative length.
unfoldable pub text_after : ℕ × Stream → Option (Bytes × Stream)
text_after n =
    let r = read_bytes n.0 n.1 in
    if leb (2 ^ 31) n.0 then none else some (r.0 ++ replicate (n.0 - length r.0) 0, r.1)

unfoldable pub read_text : Stream → Option (Bytes × Stream)
read_text st = text_after (read_number 4 st)

-- How often a loop runs up to an `int32_t`.
abbrev pub rounds : ℕ → ℕ
rounds count = if leb (2 ^ 31) count then 0 else count

-- The value of an `int32_t` with these bits.
abbrev pub signed : ℕ → ℤ
signed count = if leb (2 ^ 31) count then negsuc (2 ^ 32 - 1 - count) else pos count

-- What goes on after a text that was read.
abbrev pub with_text {ℓ} :
    {A : Type ℓ} → Option (Bytes × Stream) → (Bytes → Stream → Option A) → Option A
with_text none next = none
with_text (some r) next = next r.0 r.1

-- The label maps while the file is read.
pub record Loaded : Type 0 where
  pub labels : List (ℕ × Bytes)
  pub active : List ℕ
  pub deleted : List Bytes

unfoldable pub read_labels : ℕ → Stream → Loaded → Option (Loaded × Stream)
read_labels zero st m = some (m, st)
read_labels (suc k) st m =
    let l = read_number 8 st in
    with_text (read_text l.1) (λ x rest.
      read_labels k rest
        (record m { labels = set_label l.0 x m.labels; active = add_member ◌==◌ l.0 m.active }))

unfoldable pub read_items : ℕ → Stream → Loaded → Option Loaded
read_items zero st m = some m
read_items (suc k) st m =
    with_text (read_text st)
      (λ x rest. read_items k rest (record m { deleted = add_member eq_bytes x m.deleted }))

abbrev pub then_items : Option (Loaded × Stream) → Option Loaded
then_items none = none
then_items (some r) = let n = read_number 4 r.1 in read_items (rounds n.0) n.1 r.0

-- The file of the labels, on maps that were emptied, and a set of deleted items that was not.
unfoldable pub read_label_file : Bytes → List Bytes → Option Loaded
read_label_file bytes deleted =
    let n = read_number 4 (record { rest = bytes; good = true }) in
    then_items
      (read_labels (rounds n.0) n.1 (record { labels = []; active = []; deleted = deleted }))

abbrev loaded_engine : {I : Type 0} → I → ℤ → Option Loaded → Option (RecallEngine I × ℤ)
loaded_engine i count none = none
loaded_engine i count (some m) = some (
  record {
    index = i;
    label_to_item_id = m.labels;
    deleted_items = m.deleted;
    active_labels = m.active;
  },
  count,
)

-- `hnsw_load` is the constructor `HierarchicalNSW` that reads a file; its flag is
-- `allow_replace_deleted`, which the call leaves at its default.
module _ {I : Type 0} (hnsw_load : Bytes → Bool → Option I) where
  -- `loadIndex` once the index was read.
  abbrev pub load_maps : RecallEngine I → Option I → Option Bytes → Option (RecallEngine I × ℤ)
  load_maps e none labels_file = none
  load_maps e (some i) none =
      some (record e { index = i; label_to_item_id = []; active_labels = [] }, minus_one)
  load_maps e (some i) (some bytes) =
      loaded_engine i (signed (read_number 4 (record { rest = bytes; good = true })).0)
        (read_label_file bytes e.deleted_items)

  -- `loadIndex`: the files of the index and of the labels; `none` where it throws.
  unfoldable pub load_index :
      RecallEngine I → Option Bytes → Option Bytes → Option (RecallEngine I × ℤ)
  load_index e none labels_file = some (e, minus_one)
  load_index e (some bytes) labels_file = load_maps e (hnsw_load bytes false) labels_file

-- ===== src/KvServer/RecallEngine/Reading.antt =====
-- What each part of `loadIndex` reads of what `saveIndex` wrote.
use mathlib.Core.List.{append-nil, append_assoc}
use my_kv_storage_base_raft.Common.{
  ℕ, ◌+◌, ◌-◌, ◌*◌, ◌/◌, ◌%◌, ◌^◌, ◌<◌, ◌≡◌, refl, ap, ◌∙◌, true, false, ◌==◌, leb, none, some,
  List, [], ◌∷◌, ◌++◌, Bytes, eq_bytes, length, length-append, add_member, arith,
}
use my_kv_storage_base_raft.OpCoder.{le_bytes}
use my_kv_storage_base_raft.OpCoder.RoundTrip.{take-append, drop-append}
use my_kv_storage_base_raft.KvServer.RecallEngine.{find_label, set_label}
use my_kv_storage_base_raft.KvServer.RecallEngine.Files.{
  label_bytes, write_text, write_labels, write_items, Stream, read_bytes, le_value, read_number,
  read_text, text_after, Loaded, read_labels, read_items,
}

-- A stream that no read has failed on.
abbrev pub at : Bytes → Stream
at bytes = record { rest = bytes; good = true }

read_bytes-append : (xs ys : Bytes) → read_bytes (length xs) (at (xs ++ ys)) ≡ (xs, at ys)
unfolding read_bytes
read_bytes-append xs ys =
    let enough : leb (length xs) (length (xs ++ ys)) ≡ true = ground (arith, length-append xs ys) in
    rw (take-append xs ys, drop-append xs ys, enough) refl

le_value-append :
    (n : ℕ) (ys : Bytes) → le_value (le_bytes n ++ ys) ≡ n % 2 ^ 32 + 2 ^ 32 * le_value ys
unfolding le_bytes
le_value-append n ys = omega arith

read_number-append :
    (xs ys : Bytes) → read_number (length xs) (at (xs ++ ys)) ≡ (le_value xs, at ys)
unfolding read_number
read_number-append xs ys =
    ap (λ (r : Bytes × Stream). (le_value r.0, r.1)) (read_bytes-append xs ys)

pub read_number-le_bytes :
    (n : ℕ) (ys : Bytes) → n < 2 ^ 32 → read_number 4 (at (le_bytes n ++ ys)) ≡ (n, at ys)
unfolding le_bytes
read_number-le_bytes n ys small =
    let value : le_value (le_bytes n) ≡ n = le_value-append n [] ∙ omega arith in
    read_number-append (le_bytes n) ys ∙ ap (λ (v : ℕ). (v, at ys)) value

read_number-label_bytes :
    (l : ℕ) (ys : Bytes) → l < 2 ^ 64 → read_number 8 (at (label_bytes l ++ ys)) ≡ (l, at ys)
unfolding label_bytes le_bytes
read_number-label_bytes l ys small =
    let high : le_value (le_bytes (l / 2 ^ 32)) ≡ l / 2 ^ 32 =
      le_value-append (l / 2 ^ 32) [] ∙ omega arith in
    let value : le_value (label_bytes l) ≡ l =
      le_value-append l (le_bytes (l / 2 ^ 32)) ∙ omega (arith, high) in
    read_number-append (label_bytes l) ys ∙ ap (λ (v : ℕ). (v, at ys)) value

read_text-write_text :
    (x ys : Bytes) → length x < 2 ^ 31 → read_text (at (write_text x ++ ys)) ≡ some (x, at ys)
unfolding read_text write_text text_after
read_text-write_text x ys short =
    let fits : leb (2 ^ 31) (length x) ≡ false = ground arith in
    let exact : length x - length x ≡ 0 = omega arith in
    rw
      (
        append_assoc (le_bytes (length x)) x ys,
        read_number-le_bytes (length x) (x ++ ys) (omega arith),
        read_bytes-append x ys,
        fits,
        exact,
      )
      (ap (λ (y : Bytes). some (y, at ys)) (append-nil x))

-- Labels of 64 bits and texts of fewer than 2^31 bytes, each label once.
abbrev pub AllFit : List (ℕ × Bytes) → Type 0
AllFit [] = Unit {0}
AllFit ((l, x) ∷ m) = (l < 2 ^ 64) × (length x < 2 ^ 31) × (find_label l m ≡ none) × AllFit m

abbrev pub AllShort : List Bytes → Type 0
AllShort [] = Unit {0}
AllShort (x ∷ xs) = (length x < 2 ^ 31) × AllShort xs

-- The maps after the labels, and after the deleted items, were read.
unfoldable pub after_labels : List (ℕ × Bytes) → Loaded → Loaded
after_labels [] m = m
after_labels ((l, x) ∷ ls) m =
    after_labels ls
      (record m { labels = set_label l x m.labels; active = add_member ◌==◌ l m.active })

unfoldable pub after_items : List Bytes → Loaded → Loaded
after_items [] m = m
after_items (x ∷ xs) m = after_items xs (record m { deleted = add_member eq_bytes x m.deleted })

pub read_labels-write_labels :
    (ls : List (ℕ × Bytes)) (ys : Bytes) (m : Loaded)
    → AllFit ls
    → read_labels (length ls) (at (write_labels ls ++ ys)) m ≡ some (after_labels ls m, at ys)
unfolding read_labels write_labels after_labels
read_labels-write_labels [] ys m fit = refl
read_labels-write_labels ((l, x) ∷ ls) ys m fit =
    rw
      (
        append_assoc (label_bytes l) (write_text x ++ write_labels ls) ys,
        append_assoc (write_text x) (write_labels ls) ys,
        read_number-label_bytes l (write_text x ++ (write_labels ls ++ ys)) fit.0,
        read_text-write_text x (write_labels ls ++ ys) fit.1,
      )
      (read_labels-write_labels ls ys _ fit.3)

pub read_items-write_items :
    (xs : List Bytes) (m : Loaded)
    → AllShort xs
    → read_items (length xs) (at (write_items xs)) m ≡ some (after_items xs m)
unfolding read_items write_items after_items
read_items-write_items [] m short = refl
read_items-write_items (x ∷ xs) m short =
    rw (read_text-write_text x (write_items xs) short.0) (read_items-write_items xs _ short.1)

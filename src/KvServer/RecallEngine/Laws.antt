-- ===== src/KvServer/RecallEngine/Laws.antt =====
-- The items that a list of calls leaves in the recall engine, and its map of labels.
use my_kv_storage_base_raft.Common.{
  ℕ, Bool, true, not, ◌&&◌, ◌||◌, ◌==◌, none, some, List, [], ◌∷◌, if◌then◌else◌, Bytes, eq_bytes,
  ◌≡◌, refl, ap, ◌↔◌, arith, member, add_member, member-add_member,
}
use my_kv_storage_base_raft.KvServer.Types.{IndexCall, add_point, upsert_point, delete_point}
use my_kv_storage_base_raft.KvServer.RecallEngine.{find_label, set_label}

-- The items that were put in and not taken out again.
unfoldable pub present : List IndexCall → (Bytes → Bool) → Bytes → Bool
present [] before x = before x
present (add_point y v ∷ calls) before x = present calls (λ z. eq_bytes y z || before z) x
present (upsert_point y v ∷ calls) before x = present calls (λ z. eq_bytes y z || before z) x
present (delete_point y ∷ calls) before x = present calls (λ z. not (eq_bytes y z) && before z) x

pub eq_nat_iff : (m n : ℕ) → ((m == n) ≡ true) ↔ (m ≡ n)
eq_nat_iff m n = (λ e. ground arith, λ e. ground arith)

pub upserted_labels :
    (k l : ℕ) (ls : List ℕ)
    → member ◌==◌ l (if member ◌==◌ k ls then ls else add_member ◌==◌ k ls)
      ≡ (k == l || member ◌==◌ l ls)
upserted_labels k l ls =
    let same = (λ (e : k ≡ l). ap (λ (n : ℕ). member ◌==◌ n ls) e) in
    ground (arith, member-add_member ◌==◌ eq_nat_iff k l ls, same)

pub find_label-nil : (l : ℕ) → find_label l [] ≡ none
unfolding find_label
find_label-nil l = refl

pub find_label-set_label :
    (k l : ℕ) (x : Bytes) (m : List (ℕ × Bytes))
    → find_label l (set_label k x m) ≡ (if k == l then some x else find_label l m)
unfolding find_label set_label
find_label-set_label k l x [] = refl
find_label-set_label k l x ((j, y) ∷ m) = ground (arith, find_label-set_label k l x m)

-- The item of a call.
abbrev pub item_of : IndexCall → Bytes
item_of (add_point x v) = x
item_of (upsert_point x v) = x
item_of (delete_point x) = x

pub present_cons :
    (call : IndexCall) (calls : List IndexCall) (now : Bytes → Bool)
    → present calls (present (call ∷ []) now) ≡ present (call ∷ calls) now
unfolding present
present_cons (add_point x v) calls now = refl
present_cons (upsert_point x v) calls now = refl
present_cons (delete_point x) calls now = refl

pub some_inj : {A : Type 0} {x y : A} → some x ≡ some y → x ≡ y
some_inj e = cc e

-- ===== src/Common/Sets.antt =====
-- `std::unordered_set` as a list without repetitions, over a test for equality.
use mathlib.Core.Path.{◌≡◌, refl}
use mathlib.Core.Logic.{◌↔◌}
use mathlib.Core.Bool.{Bool, true, false, not, ◌&&◌, ◌||◌}
use mathlib.Core.List.{List, [], ◌∷◌}
use native.Mathlib.Omega.{arith}
use my_kv_storage_base_raft.Common.Tests.{if◌then◌else◌}

abbrev pub all {ℓ} : {A : Type ℓ} → (A → Bool) → List A → Bool
all f [] = true
all f (x ∷ xs) = f x && all f xs

module _ {A : Type 0} (eq : A → A → Bool) where
  unfoldable pub member : A → List A → Bool
  member x [] = false
  member x (y ∷ ys) = eq y x || member x ys

  unfoldable pub add_member : A → List A → List A
  add_member x ys = if member x ys then ys else x ∷ ys

  unfoldable pub erase_member : A → List A → List A
  erase_member x [] = []
  erase_member x (y ∷ ys) = let rest = erase_member x ys in if eq y x then rest else y ∷ rest

  pub member_nil : (x : A) → member x [] ≡ false
  unfolding member
  member_nil x = refl

  pub member_cons : (x y : A) (ys : List A) → member x (y ∷ ys) ≡ (eq y x || member x ys)
  unfolding member
  member_cons x y ys = refl

module _ {A : Type 0} (eq : A → A → Bool) (eq_iff : (x y : A) → (eq x y ≡ true) ↔ (x ≡ y)) where
  member_eq :
      (x y : A) (ys : List A) → member eq x ys ≡ true → eq x y ≡ true → member eq y ys ≡ true
  member_eq x y ys h e = rw ((eq_iff x y).0 e) at h

  pub member-add_member :
      (x y : A) (ys : List A) → member eq y (add_member eq x ys) ≡ (eq x y || member eq y ys)
  unfolding add_member member
  member-add_member x y ys = ground (arith, member_eq x y ys)

  pub member-erase_member :
      (x y : A) (ys : List A)
      → member eq y (erase_member eq x ys) ≡ (not (eq x y) && member eq y ys)
  unfolding erase_member member
  member-erase_member x y [] = ground arith
  member-erase_member x y (z ∷ ys) =
      ground (arith, member-erase_member x y ys, eq_iff z x, eq_iff x y, eq_iff z y)

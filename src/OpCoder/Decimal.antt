-- ===== src/OpCoder/Decimal.antt =====
-- `std::to_string` of an `int` and `std::stoi`, as far as `decodeOp` uses them: what `stoi` throws is
-- caught, and -1 stands for it.
use my_kv_storage_base_raft.Common.{
  ℕ, length, length-append, zero, suc, ◌+◌, ◌-◌, ◌*◌, ◌/◌, ◌%◌, ◌^◌, ◌≤◌, ◌<◌, ◌≡◌, refl, Bool,
  true, false, ◌&&◌, ◌||◌, ℤ, pos, negsuc, minus_one, [], ◌∷◌, ◌++◌, arith, ltb, leb, ◌==◌,
  if◌then◌else◌, Bytes, Bool-cases, inl, inr,
}

-- The decimal digits of a number; `fuel` bounds their count.
unfoldable pub digits : ℕ → ℕ → Bytes
digits zero n = []
digits (suc fuel) n =
    let high = digits fuel (n / 10) in
    if ltb n 10 then (48 + n) ∷ [] else high ++ (48 + n % 10) ∷ []

unfoldable pub to_string : ℤ → Bytes
to_string (pos n) = digits (suc n) n
to_string (negsuc n) = 45 ∷ digits (suc (suc n)) (suc n)

abbrev pub is_digit : ℕ → Bool
is_digit c = leb 48 c && leb c 57

abbrev pub is_space : ℕ → Bool
is_space c = c == 32 || (leb 9 c && leb c 13)

-- The value of the digits up to the first other character.
unfoldable pub digits_value : ℕ → Bytes → ℕ
digits_value acc [] = acc
digits_value acc (c ∷ cs) =
    let rest = digits_value (acc * 10 + (c - 48)) cs in if is_digit c then rest else acc

abbrev pub starts_with_digit : Bytes → Bool
starts_with_digit [] = false
starts_with_digit (c ∷ cs) = is_digit c

abbrev pub max_int : ℕ
max_int = 2 ^ 31 - 1

-- After the sign: no digit, or a number that no `int` holds, throws.
unfoldable pub unsigned_value : Bytes → ℤ
unfolding digits_value
unsigned_value cs =
    if starts_with_digit cs && leb (digits_value 0 cs) max_int
    then pos (digits_value 0 cs)
    else minus_one

abbrev negated : ℕ → ℤ
negated zero = pos 0
negated (suc n) = negsuc n

unfoldable pub negative_value : Bytes → ℤ
unfolding digits_value
negative_value cs =
    if starts_with_digit cs && leb (digits_value 0 cs) (max_int + 1)
    then negated (digits_value 0 cs)
    else minus_one

unfoldable pub stoi : Bytes → ℤ
stoi [] = minus_one
stoi (c ∷ cs) =
    let rest = stoi cs in
    if is_space c
    then rest
    else if c == 45
    then negative_value cs
    else if c == 43
    then unsigned_value cs
    else unsigned_value (c ∷ cs)

abbrev AllDigits : Bytes → Type 0
AllDigits [] = Unit {0}
AllDigits (c ∷ cs) = (is_digit c ≡ true) × AllDigits cs

AllDigits-append : (xs ys : Bytes) → AllDigits xs → AllDigits ys → AllDigits (xs ++ ys)
AllDigits-append [] ys hx hy = hy
AllDigits-append (x ∷ xs) ys hx hy = (hx.0, AllDigits-append xs ys hx.1 hy)

digits_value-append :
    (acc : ℕ) (xs ys : Bytes)
    → AllDigits xs
    → digits_value acc (xs ++ ys) ≡ digits_value (digits_value acc xs) ys
unfolding digits_value
digits_value-append acc [] ys h = refl
digits_value-append acc (x ∷ xs) ys h =
    rw (h.0) (digits_value-append (acc * 10 + (x - 48)) xs ys h.1)

digits-AllDigits : (fuel n : ℕ) → AllDigits (digits fuel n)
unfolding digits
digits-AllDigits zero n = tt
digits-AllDigits (suc fuel) n = elim (Bool-cases (ltb n 10)) [
  | inl small ↦ rw small (ground arith, tt)
  | inr large ↦ rw large (AllDigits-append _ _ (digits-AllDigits fuel (n / 10)) (ground arith, tt))
]

digits_value-digits : (fuel n : ℕ) → n < fuel → digits_value 0 (digits fuel n) ≡ n
unfolding digits
digits_value-digits zero n h = absurd (omega arith)
digits_value-digits (suc fuel) n h = elim (Bool-cases (ltb n 10)) [
  | inl small ↦ rw small (unfold digits_value in ground arith)
  | inr large ↦
      rw
        (
          large,
          digits_value-append 0 (digits fuel (n / 10)) ((48 + n % 10) ∷ [])
              (digits-AllDigits fuel (n / 10)),
        )
        (rw (digits_value-digits fuel (n / 10) (ground arith))
          (unfold digits_value in ground arith))
]

starts-append :
    (xs : Bytes) (c : ℕ)
    → AllDigits xs
    → is_digit c ≡ true
    → starts_with_digit (xs ++ c ∷ []) ≡ true
starts-append [] c h e = e
starts-append (x ∷ xs) c h e = h.0

starts-digits : (fuel n : ℕ) → starts_with_digit (digits (suc fuel) n) ≡ true
unfolding digits
starts-digits fuel n = elim (Bool-cases (ltb n 10)) [
  | inl small ↦ rw small (ground arith)
  | inr large ↦
      rw large
        (starts-append (digits fuel (n / 10)) _ (digits-AllDigits fuel (n / 10)) (ground arith))
]

stoi-eq-unsigned_value : (xs : Bytes) → AllDigits xs → stoi xs ≡ unsigned_value xs
unfolding stoi unsigned_value
stoi-eq-unsigned_value [] h = refl
stoi-eq-unsigned_value (c ∷ cs) h = ground (arith, h.0)

stoi-minus : (ds : Bytes) → stoi (45 ∷ ds) ≡ negative_value ds
unfolding stoi
stoi-minus ds = refl

-- The numbers that an `int` holds.
abbrev pub IsInt : ℤ → Type 0
IsInt (pos n) = n ≤ max_int
IsInt (negsuc n) = n ≤ max_int

-- A printed `int` is read back.
pub stoi-to_string : (z : ℤ) → IsInt z → stoi (to_string z) ≡ z
unfolding to_string
stoi-to_string (pos n) h =
    rw (stoi-eq-unsigned_value (digits (suc n) n) (digits-AllDigits (suc n) n)) (
      unfold unsigned_value in
      rw (starts-digits n n, digits_value-digits (suc n) n (omega arith)) (ground arith))
stoi-to_string (negsuc n) h = rw (stoi-minus (digits (suc (suc n)) (suc n))) (
    unfold negative_value in
    rw (starts-digits (suc n) (suc n), digits_value-digits (suc (suc n)) (suc n) (omega arith))
      (ground arith))

-- 10 ^ k, by its recursion.
abbrev tens : ℕ → ℕ
tens zero = 1
tens (suc k) = 10 * tens k

length-digits : (fuel k n : ℕ) → n < tens (suc k) → length (digits fuel n) ≤ suc k
unfolding digits
length-digits zero k n h = omega arith
length-digits (suc fuel) zero n h = ground arith
length-digits (suc fuel) (suc k) n h = ground (
  arith,
  length-append (digits fuel (n / 10)) ((48 + n % 10) ∷ []),
  length-digits fuel k (n / 10) (omega arith),
)

pub length-to_string : (z : ℤ) → IsInt z → length (to_string z) ≤ 11
unfolding to_string
length-to_string (pos n) h = omega (arith, length-digits (suc n) 9 n (omega arith))
length-to_string (negsuc n) h = omega (arith, length-digits (suc (suc n)) 9 (suc n) (omega arith))

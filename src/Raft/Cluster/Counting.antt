-- ===== src/Raft/Cluster/Counting.antt =====
-- Counting the nodes of a cluster that satisfy a test.
use my_kv_storage_base_raft.Common.{
  ℕ, zero, suc, ◌+◌, ◌≤◌, ◌<◌, ◌≡◌, refl, inl, inr, Bool, true, false, ◌&&◌, arith, Bool-cases,
  if◌then◌else◌, ◌==◌,
}

-- How many of the first `n` nodes satisfy `f`.
unfoldable pub count : ℕ → (ℕ → Bool) → ℕ
count zero f = 0
count (suc n) f = if f n then count n f + 1 else count n f

-- Two tests that together hold more often than there are nodes both hold at some node.
pub count-meet :
    (n : ℕ) (f g : ℕ → Bool)
    → n < count n f + count n g
    → (v : ℕ) × (v < n) × (f v ≡ true) × (g v ≡ true)
unfolding count
count-meet zero f g h = absurd (omega arith)
count-meet (suc n) f g h = elim (Bool-cases (f n && g n)) [
  | inl both ↦ (n, omega arith, ground arith, ground arith)
  | inr one ↦
      let (v, inside, left, right) = count-meet n f g (ground arith) in
      (v, omega arith, left, right)
]

-- A test that holds wherever another does holds at least as often.
pub count-weaken :
    (n : ℕ) (f g : ℕ → Bool) → ((v : ℕ) → v < n → f v ≡ true → g v ≡ true) → count n f ≤ count n g
unfolding count
count-weaken zero f g h = omega arith
count-weaken (suc n) f g h =
    let rest = count-weaken n f g (λ v inside. h v (omega arith)) in
    let last = h n (omega arith) in ground (arith, rest, last)

-- And once more often, where it holds at a node at which the other does not.
pub count-gain :
    (n : ℕ) (f g : ℕ → Bool) (w : ℕ)
    → w < n
    → f w ≡ false
    → g w ≡ true
    → ((v : ℕ) → v < n → f v ≡ true → g v ≡ true)
    → count n f + 1 ≤ count n g
unfolding count
count-gain zero f g w inside not_f yes_g h = absurd (omega arith)
count-gain (suc n) f g w inside not_f yes_g h = elim (Bool-cases (w == n)) [
  | inl same ↦
      let rest = count-weaken n f g (λ v below. h v (omega arith)) in
      let e : w ≡ n = ground arith in
      let not_last : f n ≡ false = rw e at not_f in
      let yes_last : g n ≡ true = rw e at yes_g in ground (arith, rest)
  | inr other ↦
      let rest = count-gain n f g w (ground arith) not_f yes_g (λ v below. h v (omega arith)) in
      let last = h n (omega arith) in ground (arith, rest, last)
]

pub count-some : (n : ℕ) (f : ℕ → Bool) (w : ℕ) → w < n → f w ≡ true → 1 ≤ count n f
count-some n f w inside h =
    let gain = count-gain n (λ _. false) f w inside refl h (λ v _ impossible. cc impossible) in
    omega (arith, gain)

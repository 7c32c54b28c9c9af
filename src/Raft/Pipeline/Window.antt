-- ===== src/Raft/Pipeline/Window.antt =====
-- The windows of the peers: how many batches are in flight.
use my_kv_storage_base_raft.Common.{
  ℕ, zero, suc, ◌+◌, ◌≤◌, List, [], ◌∷◌, arith, length, get_or, set, modify, fill,
}
use my_kv_storage_base_raft.Raft.Types.{PipelineBatch, PeerPipelineState}
use my_kv_storage_base_raft.Raft.Replicate.{unsettled}
use my_kv_storage_base_raft.Raft.Pipeline.{put_batch, recent}

-- At most `n` batches are in flight.
abbrev pub Holds : ℕ → PeerPipelineState → Type 0
Holds n p = length p.in_flight ≤ n

pub length-put_batch :
    (b : PipelineBatch) (bs : List PipelineBatch) → length (put_batch b bs) ≤ length bs + 1
unfolding put_batch
length-put_batch b [] = omega arith
length-put_batch b (c ∷ cs) = ground (arith, length-put_batch b cs)

pub length-unsettled :
    (up_to : ℕ) (bs : List PipelineBatch) → length (unsettled up_to bs) ≤ length bs
unfolding unsettled
length-unsettled up_to [] = omega arith
length-unsettled up_to (b ∷ bs) = ground (arith, length-unsettled up_to bs)

pub length-recent : (now : ℕ) (bs : List PipelineBatch) → length (recent now bs) ≤ length bs
unfolding recent
length-recent now [] = omega arith
length-recent now (b ∷ bs) = ground (arith, length-recent now bs)

-- What holds of a value that is written and of the places as they were holds of the places after.
module _ {A : Type 0} (P : A → Type 0) (d : A) where
  pub get_or-set :
      (xs : List A) (i j : ℕ) (v : A) → P v → P (get_or xs j d) → P (get_or (set xs i v) j d)
  get_or-set [] i j v h k = k
  get_or-set (x ∷ xs) zero zero v h k = h
  get_or-set (x ∷ xs) zero (suc j) v h k = k
  get_or-set (x ∷ xs) (suc i) zero v h k = k
  get_or-set (x ∷ xs) (suc i) (suc j) v h k = get_or-set xs i j v h k

  pub get_or-modify :
      (xs : List A) (i j : ℕ) (f : A → A)
      → ((x : A) → P x → P (f x))
      → P (get_or xs j d)
      → P (get_or (modify xs i f) j d)
  get_or-modify [] i j f h k = k
  get_or-modify (x ∷ xs) zero zero f h k = h x k
  get_or-modify (x ∷ xs) zero (suc j) f h k = k
  get_or-modify (x ∷ xs) (suc i) zero f h k = k
  get_or-modify (x ∷ xs) (suc i) (suc j) f h k = get_or-modify xs i j f h k

  pub get_or-fill :
      (n : ℕ) (xs : List A) (j : ℕ) (v : A) → P v → P (get_or xs j d) → P (get_or (fill n v xs) j d)
  get_or-fill zero xs j v h k = k
  get_or-fill (suc n) [] j v h k = k
  get_or-fill (suc n) (x ∷ xs) zero v h k = h
  get_or-fill (suc n) (x ∷ xs) (suc j) v h k = get_or-fill n xs j v h k

-- ===== src/Raft/Cluster/Tally.antt =====
-- The counter of an election never exceeds the votes given, and what counting one more does.
use my_kv_storage_base_raft.Common.{
  ℕ, ◌+◌, ◌≤◌, ◌<◌, ◌≡◌, sym, ◌≢◌, ◌⊎◌, inl, inr, Bool, true, false, ◌&&◌, ◌||◌, ◌==◌, arith, ◌∙◌,
}
use my_kv_storage_base_raft.Raft.Cluster.{put2, mark, Answer}
use my_kv_storage_base_raft.Raft.Cluster.Counting.{count, count-weaken, count-gain, count-some}
use my_kv_storage_base_raft.Raft.Cluster.Ballots.{Gave, mark-cases, put2-elim}

-- A vote of the candidate's own, or one whose call has returned.
unfoldable pub supports : Gave → Gave → ℕ → ℕ → ℕ → Bool
supports gave returned i term v = gave v term i && (v == i || returned i term v)

-- The counter of the election of `i` in `term` is at most the votes it can have counted.
abbrev pub IsTallied : ℕ → Gave → Gave → (ℕ → ℕ → ℕ) → Type 0
IsTallied n gave returned vote_num =
    (i term : ℕ)
    → i < n
    → gave i term i ≡ true
    → vote_num i term ≤ count n (supports gave returned i term)

-- What is true of an answer: a grant is a vote that was given.
pub record IsTold (n : ℕ) (gave : Gave) (a : Answer) : Type 0 where
  pub voter : a.voter < n
  pub candidate : a.args.candidate_id < n
  pub other : a.voter ≢ a.args.candidate_id
  pub self : gave a.args.candidate_id a.args.term a.args.candidate_id ≡ true
  pub granted :
      a.reply.vote_granted ≡ true
      → (a.reply.term ≡ a.args.term) × (gave a.voter a.args.term a.args.candidate_id ≡ true)

supports-mark :
    (gave returned : Gave) (i term v i' term' v' : ℕ)
    → supports gave returned i' term' v' ≡ true
    → supports gave (mark returned i term v) i' term' v' ≡ true
unfolding supports mark
supports-mark gave returned i term v i' term' v' h = ground arith

supports-cast :
    (gave returned : Gave) (v term to i' term' v' : ℕ)
    → supports gave returned i' term' v' ≡ true
    → supports (mark gave v term to) returned i' term' v' ≡ true
unfolding supports mark
supports-cast gave returned v term to i' term' v' h = ground arith

supports_self :
    (gave returned : Gave) (i term : ℕ) → supports (mark gave i term i) returned i term i ≡ true
unfolding supports mark
supports_self gave returned i term = ground arith

supports-given :
    (gave returned : Gave) (i term v : ℕ)
    → supports gave returned i term v ≡ true
    → gave v term i ≡ true
unfolding supports
supports-given gave returned i term v h = ground arith

supports-fresh :
    (gave returned : Gave) (i term v : ℕ)
    → v ≢ i
    → returned i term v ≡ false
    → supports gave returned i term v ≡ false
unfolding supports
supports-fresh gave returned i term v other h = ground arith

supports-returned :
    (gave returned : Gave) (i term v : ℕ)
    → gave v term i ≡ true
    → supports gave (mark returned i term v) i term v ≡ true
unfolding supports mark
supports-returned gave returned i term v h = ground arith

module _ (n : ℕ) (gave returned : Gave) (vote_num : ℕ → ℕ → ℕ)
    (h : IsTallied n gave returned vote_num) where
  -- A vote for another node.
  pub vote-IsTallied :
      (v term to : ℕ) → v ≢ to → IsTallied n (mark gave v term to) returned vote_num
  vote-IsTallied v term to other i term' inside self =
      elim (mark-cases gave v term to i term' i self) [
        | inl old ↦ omega (
          arith,
          h i term' inside old,
          count-weaken n (supports gave returned i term')
              (supports (mark gave v term to) returned i term')
              (λ w below. supports-cast gave returned v term to i term' w),
        )
        | inr new ↦ absurd (other (sym new.0 ∙ new.2))
      ]

  -- A candidate votes for itself, and its counter starts at 1.
  pub stand-IsTallied :
      (i term : ℕ) → i < n → IsTallied n (mark gave i term i) returned (put2 vote_num i term 1)
  stand-IsTallied i term inside =
      let gave' : Gave = mark gave i term i in
      put2-elim
        (λ j term' x.
          j < n → gave' j term' j ≡ true → x ≤ count n (supports gave' returned j term'))
        vote_num i term 1
        (λ _ _.
          count-some n (supports gave' returned i term) i inside
            (supports_self gave returned i term))
        (λ j term' other below self. elim (mark-cases gave i term i j term' j self) [
          | inl old ↦ omega (
            arith,
            h j term' below old,
            count-weaken n (supports gave returned j term') (supports gave' returned j term')
                (λ w _. supports-cast gave returned i term i j term' w),
          )
          | inr new ↦ absurd (other (new.0, new.1))
        ])

  -- A counter that an answer with a vote would raise to `m` leaves at least `m` votes given.
  pub count-given :
      (a : Answer)
      → IsTold n gave a
      → returned a.args.candidate_id a.args.term a.voter ≡ false
      → a.reply.vote_granted ≡ true
      → vote_num a.args.candidate_id a.args.term + 1
        ≤ count n (λ v. gave v a.args.term a.args.candidate_id)
  count-given a told fresh granted =
      let i = a.args.candidate_id in
      let term = a.args.term in
      omega (
        arith,
        h i term told.candidate told.self,
        count-gain n (supports gave returned i term) (λ v. gave v term i) a.voter told.voter
            (supports-fresh gave returned i term a.voter told.other fresh) (told.granted granted).1
            (λ w _. supports-given gave returned i term w),
      )

  -- One answer is counted, once.
  pub count-IsTallied :
      (a : Answer) (m : ℕ)
      → IsTold n gave a
      → returned a.args.candidate_id a.args.term a.voter ≡ false
      → (m ≤ vote_num a.args.candidate_id a.args.term)
        ⊎ ((m ≡ vote_num a.args.candidate_id a.args.term + 1) × (a.reply.vote_granted ≡ true))
      → IsTallied n gave
          (mark returned a.args.candidate_id a.args.term a.voter)
          (put2 vote_num a.args.candidate_id a.args.term m)
  count-IsTallied a m told fresh cases =
      let i = a.args.candidate_id in
      let term = a.args.term in
      let returned' : Gave = mark returned i term a.voter in
      let old = (λ (j : ℕ) (term' : ℕ).
        count-weaken n (supports gave returned j term') (supports gave returned' j term')
          (λ w _. supports-mark gave returned i term a.voter j term' w)) in
      put2-elim
        (λ j term' x. j < n → gave j term' j ≡ true → x ≤ count n (supports gave returned' j term'))
        vote_num i term m
        (λ below self. elim cases [
          | inl few ↦ omega (arith, few, h i term below self, old i term)
          | inr more ↦ omega (
            arith,
            more.0,
            h i term below self,
            count-gain n (supports gave returned i term) (supports gave returned' i term) a.voter
                told.voter (supports-fresh gave returned i term a.voter told.other fresh)
                (supports-returned gave returned i term a.voter (told.granted more.1).1)
                (λ w _. supports-mark gave returned i term a.voter i term w),
          )
        ])
        (λ j term' _ below self. omega (arith, h j term' below self, old j term'))

-- ===== src/Raft/Cluster/Ballots.antt =====
-- Which votes the nodes of a cluster have given, over all terms so far.
use my_kv_storage_base_raft.Common.{
  ℕ, ◌≤◌, ◌<◌, ◌≡◌, sym, ◌≢◌, ◌⊎◌, inl, inr, Bool, true, ◌==◌, pos, arith, Bool-cases, ◌∙◌,
}
use my_kv_storage_base_raft.Raft.Types.{leader}
use my_kv_storage_base_raft.Raft.State.{Raft, Archive}
use my_kv_storage_base_raft.Raft.Persist.Durable.{IsRecorded}
use my_kv_storage_base_raft.Raft.Vote.{majority}
use my_kv_storage_base_raft.Raft.History.Keeps.{Keeps}
use my_kv_storage_base_raft.Raft.History.Stays.{Stays}
use my_kv_storage_base_raft.Raft.History.OneVote.{IsCast}
use my_kv_storage_base_raft.Raft.Cluster.{put, put2, mark}
use my_kv_storage_base_raft.Raft.Cluster.Counting.{count, count-weaken}

-- Whether a voter has given its vote of a term to a candidate.
abbrev pub Gave : Type 0
Gave = ℕ → ℕ → ℕ → Bool

-- What is true of the node at place `i`: the votes it gave are behind it or the one it holds, and
-- a leader has the votes of a majority.
pub record IsPlaced (ar : Archive) (n : ℕ) (gave : Gave) (i : ℕ) (s : Raft) : Type 0 where
  pub me : s.me ≡ i
  pub peers : s.peers ≡ n
  pub recorded : IsRecorded ar s
  pub heard :
      (term to : ℕ)
      → gave i term to ≡ true
      → (term < s.current_term) ⊎ ((term ≡ s.current_term) × (s.voted_for ≡ pos to))
  pub leads : s.status ≡ leader → majority n ≤ count n (λ v. gave v s.current_term i)

-- No voter gives two votes in a term.
abbrev pub IsSingle : Gave → Type 0
IsSingle gave =
    (v term first second : ℕ)
    → gave v term first ≡ true
    → gave v term second ≡ true
    → first ≡ second

-- What holds of the value written and of the others holds of all.
pub put-elim :
    {A : Type 0} (P : ℕ → A → Type 0) (f : ℕ → A) (i : ℕ) (a : A)
    → P i a
    → ((j : ℕ) → j ≢ i → P j (f j))
    → (j : ℕ) → P j (put f i a j)
unfolding put
put-elim P f i a here others j = elim (Bool-cases (j == i)) [
  | inl same ↦ let e : j ≡ i = ground arith in rw same (rw e here)
  | inr other ↦ rw other (others j (λ e. ground arith))
]

pub put2-elim :
    {A : Type 0} (P : ℕ → ℕ → A → Type 0) (f : ℕ → ℕ → A) (i j : ℕ) (a : A)
    → P i j a
    → ((i' j' : ℕ) → ¬ ((i' ≡ i) × (j' ≡ j)) → P i' j' (f i' j'))
    → (i' j' : ℕ) → P i' j' (put2 f i j a i' j')
unfolding put2
put2-elim {A} P f i j a here others =
    put-elim (λ i' (g : ℕ → A). (j' : ℕ) → P i' j' (g j')) f i (put (f i) j a)
      (put-elim (P i) (f i) j a here (λ j' other. others i j' (λ e. other e.1)))
      (λ i' other j'. others i' j' (λ e. other e.0))

pub mark-keeps : (f : Gave) (i j k i' j' k' : ℕ) → f i' j' k' ≡ true → mark f i j k i' j' k' ≡ true
unfolding mark
mark-keeps f i j k i' j' k' h = ground arith

pub mark-new : (f : Gave) (i j k : ℕ) → mark f i j k i j k ≡ true
unfolding mark
mark-new f i j k = ground arith

pub mark-cases :
    (f : Gave) (i j k i' j' k' : ℕ)
    → mark f i j k i' j' k' ≡ true
    → (f i' j' k' ≡ true) ⊎ ((i' ≡ i) × (j' ≡ j) × (k' ≡ k))
unfolding mark
mark-cases f i j k i' j' k' h = ground arith

module _ (ar : Archive) (n : ℕ) (gave : Gave) (i : ℕ) (s : Raft) (p : IsPlaced ar n gave i s) where
  pub Stays-IsPlaced : (t : Raft) → Keeps ar s t → Stays s t → IsPlaced ar n gave i t
  Stays-IsPlaced t k e = record {
    me = e.me ∙ p.me;
    peers = e.peers ∙ p.peers;
    recorded = k.durable;
    heard = λ term to h. ground (arith, p.heard term to h, k.advances);
    leads = λ l. let before = e.leads l in rw (before.1) (p.leads before.0);
  }

  -- Votes that other nodes give take nothing from this one.
  pub weaken-IsPlaced : (v term to : ℕ) → i ≢ v → IsPlaced ar n (mark gave v term to) i s
  weaken-IsPlaced v term to other = record {
    me = p.me;
    peers = p.peers;
    recorded = p.recorded;
    heard = λ term' to' h. elim (mark-cases gave v term to i term' to' h) [
      | inl old ↦ p.heard term' to' old
      | inr new ↦ absurd (other new.0)
    ];
    leads = λ l. omega (
      arith,
      p.leads l,
      count-weaken n (λ w. gave w s.current_term i) (λ w. mark gave v term to w s.current_term i)
          (λ w below h. mark-keeps gave v term to w s.current_term i h),
    );
  }

  -- The node that gives a vote holds it.
  pub cast-IsPlaced :
      (t : Raft) (term to : ℕ)
      → Keeps ar s t
      → Stays s t
      → IsCast ar s t term to
      → IsPlaced ar n (mark gave i term to) i t
  cast-IsPlaced t term to k e c =
      let q = Stays-IsPlaced t k e in
      record {
        me = q.me;
        peers = q.peers;
        recorded = q.recorded;
        heard = λ term' to' h. elim (mark-cases gave i term to i term' to' h) [
          | inl old ↦ q.heard term' to' old
          | inr new ↦ inr (ground (arith, c.term_after), ground (arith, c.vote_after))
        ];
        leads = λ l. omega (
          arith,
          q.leads l,
          count-weaken n (λ w. gave w t.current_term i)
              (λ w. mark gave i term to w t.current_term i)
              (λ w below h. mark-keeps gave i term to w t.current_term i h),
        );
      }

  -- A node that gives a vote in a term in which it gave one before gives the same.
  cast-eq_given :
      (t : Raft) (term to given : ℕ) → IsCast ar s t term to → gave i term given ≡ true → given ≡ to
  cast-eq_given t term to given c h = ground (arith, p.heard term given h, c.free)

  -- A vote that is given is the only one of its term.
  pub cast-IsSingle :
      (t : Raft) (term to : ℕ)
      → IsSingle gave
      → IsCast ar s t term to
      → IsSingle (mark gave i term to)
  cast-IsSingle t term to single c v term' first second h k =
      elim (mark-cases gave i term to v term' first h) [
        | inl old ↦ elim (mark-cases gave i term to v term' second k) [
          | inl older ↦ single v term' first second old older
          | inr new ↦ cast-eq_given t term to first c (rw (new.0, new.1) at old) ∙ sym (new.2)
        ]
        | inr new ↦ elim (mark-cases gave i term to v term' second k) [
          | inl older ↦ new.2 ∙ sym (cast-eq_given t term to second c (rw (new.0, new.1) at older))
          | inr newer ↦ omega arith
        ]
      ]

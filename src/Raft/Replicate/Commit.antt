-- ===== src/Raft/Replicate/Commit.antt =====
-- What `leaderUpdateCommitIndex` commits.
use my_kv_storage_base_raft.Common.{ℕ, ◌≤◌, ◌<◌, ◌≡◌, ◌≢◌, ◌⊎◌, pos}
use my_kv_storage_base_raft.Raft.State.{Raft}
use my_kv_storage_base_raft.Raft.Log.{get_log_term_from_log_index}
use my_kv_storage_base_raft.Raft.Vote.{majority}
use my_kv_storage_base_raft.Raft.Replicate.{replicas}

-- Fewer than a majority store any of the entries behind `n`, up to `top`.
abbrev NoneAbove : Raft → ℕ → ℕ → Type 0
NoneAbove s n top = (m : ℕ) → n < m → m ≤ top → replicas s m < majority s.peers

-- `n` is the last index up to `top` that a majority stores, and is not committed yet.
pub record IsLastStored (s : Raft) (n top : ℕ) : Type 0 where
  pub uncommitted : s.commit_index < n
  pub in_log : n ≤ top
  pub stored : majority s.peers ≤ replicas s n
  pub last : NoneAbove s n top

-- The three ways in which the search ends.
abbrev pub Decides : Raft → ℕ → Raft → Type 0
Decides s top t =
    ((n : ℕ) × IsLastStored s n top
      × (get_log_term_from_log_index s n ≡ pos s.current_term)
      × (t ≡ record s { commit_index = n }))
    ⊎ (((n : ℕ) × IsLastStored s n top
          × (get_log_term_from_log_index s n ≢ pos s.current_term)
          × (t ≡ s))
        ⊎ (NoneAbove s s.commit_index top × (t ≡ s)))

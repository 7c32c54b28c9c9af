-- ===== src/Raft/Types.antt =====
-- The messages of Proto/raftRPC.proto, the fault of a node, and the records that Raft/raft.h
-- declares inside `class Raft`. Indices and terms are numbers that are never negative on a path of
-- the code; the fields that hold -1 or -100 are signed.
use my_kv_storage_base_raft.Common.{
  ℕ, ℤ, ◌≡◌, refl, ◌⊎◌, inl, inr, Bool, true, false, List, [], ◌∷◌, Bytes, Among,
}

-- How a call ends that does not return: `myAssert` terminates the process, a vector is accessed
-- outside its bounds, the archive throws and nobody catches.
pub data Fault : Type 0 where
  assert_failed : Fault
  out_of_bounds : Fault
  archive_exception : Fault

pub data Result {ℓ} (A : Type ℓ) : Type ℓ where
  err : Fault → Result A
  ok : A → Result A

-- What follows a call that may fail.
infixl 5 ◌>>=◌
abbrev pub ◌>>=◌ {ℓ κ} : {S : Type ℓ} {T : Type κ} → Result S → (S → Result T) → Result T
err fault >>= next = err fault
ok value >>= next = next value

pub data Status : Type 0 where
  follower candidate leader : Status

abbrev pub is_leader : Status → Bool
is_leader follower = false
is_leader candidate = false
is_leader leader = true

pub record LogEntry : Type 0 where
  pub command : Bytes
  pub log_term : ℕ
  pub log_index : ℕ

pub record AppendEntriesArgs : Type 0 where
  pub term : ℕ
  pub leader_id : ℕ
  pub prev_log_index : ℕ
  pub prev_log_term : ℤ
  pub entries : List LogEntry
  pub leader_commit : ℕ
  pub batch_id : ℕ

-- `appstate` of a reply: `Disconnected` is 0, `AppNormal` is 1.
pub record AppendEntriesReply : Type 0 where
  pub term : ℕ
  pub success : Bool
  pub update_next_index : ℤ
  pub app_state : ℕ

pub record RequestVoteArgs : Type 0 where
  pub term : ℕ
  pub candidate_id : ℕ
  pub last_log_index : ℕ
  pub last_log_term : ℕ

-- `votestate` of a reply: `Vted` is 1, `Expire` is 2, `Normal` is 3.
pub record RequestVoteReply : Type 0 where
  pub term : ℕ
  pub vote_granted : Bool
  pub vote_state : ℕ

pub record PreRequestVoteReply : Type 0 where
  pub term : ℕ
  pub vote_granted : Bool

pub record InstallSnapshotRequest : Type 0 where
  pub leader_id : ℕ
  pub term : ℕ
  pub last_snapshot_include_index : ℕ
  pub last_snapshot_include_term : ℕ
  pub snapshot_data : Bytes

pub record ReadIndexResponse : Type 0 where
  pub term : ℕ
  pub commit_index : ℕ
  pub is_leader : Bool

-- Raft/ApplyMsg.h; the fields kept for snapshots are never set.
pub record ApplyMsg : Type 0 where
  pub command_valid : Bool
  pub index : ℕ
  pub command : Bytes

-- The entries that wait for one peer's next batch.
pub record PendingEntries : Type 0 where
  pub entries : List LogEntry
  pub first_entry_time_ms : ℕ

-- The entry waits for some peer.
abbrev pub Waits : List PendingEntries → LogEntry → Type 0
Waits [] e = ⊥
Waits (p ∷ ps) e = Among p.entries e ⊎ Waits ps e

pub record PipelineBatch : Type 0 where
  pub batch_id : ℕ
  pub first_index : ℕ
  pub last_index : ℕ
  pub send_time_ms : ℕ
  pub entry_count : ℕ
  pub matched : Bool

-- `in_flight` is a map from batch ids: a list in the order of the ids.
pub record PeerPipelineState : Type 0 where
  pub pending_batches : List PipelineBatch
  pub in_flight : List PipelineBatch
  pub next_batch_id : ℕ

-- The call returns, and its result satisfies `P`.
abbrev pub Returns {ℓ} : {A : Type ℓ} → Result A → (A → Type 0) → Type 0
Returns (ok a) P = P a
Returns (err e) P = ⊥

-- A chain that returns went through a first call that returned.
pub >>=-returns {ℓ κ} :
    {S : Type ℓ} {T : Type κ} (first : Result S) (next : S → Result T) {value : T}
    → (first >>= next) ≡ ok value
    → (middle : S) × (first ≡ ok middle) × (next middle ≡ ok value)
>>=-returns (err fault) next h = cc
>>=-returns (ok middle) next h = (middle, refl, h)

pub Result-cases {ℓ} :
    {A : Type ℓ} (r : Result A)
    → ((fault : Fault) × (r ≡ err fault)) ⊎ ((value : A) × (r ≡ ok value))
Result-cases (err fault) = inl (fault, refl)
Result-cases (ok value) = inr (value, refl)

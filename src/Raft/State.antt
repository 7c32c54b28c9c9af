-- ===== src/Raft/State.antt =====
-- The members of `class Raft` (Raft/raft.h), the durable part of them, and the archive of
-- Boost.Serialization, which is not part of the repository.
use my_kv_storage_base_raft.Common.{ℕ, ℤ, ◌≡◌, ◌≢◌, Bool, Option, some, List, [], Bytes}
use my_kv_storage_base_raft.Raft.Types.{
  LogEntry, Status, ApplyMsg, PendingEntries, PeerPipelineState,
}
use my_kv_storage_base_raft.Raft.Persister.{Persister}

-- Times are what `now` returned, in milliseconds. `m_peers` is only counted: a call of a peer's
-- stub is an argument of the handler that makes it.
pub record Raft : Type 0 where
  pub me : ℕ
  pub peers : ℕ
  pub persister : Persister
  pub current_term : ℕ
  pub voted_for : ℤ
  pub logs : List LogEntry
  pub commit_index : ℕ
  pub last_applied : ℕ
  pub next_index : List ℕ
  pub match_index : List ℕ
  pub status : Status
  pub apply_chan : Option (List ApplyMsg)
  pub last_reset_election_time : ℕ
  pub last_reset_hear_beat_time : ℕ
  pub last_snapshot_include_index : ℕ
  pub last_snapshot_include_term : ℕ
  pub inflight_count : List ℕ
  pub in_snapshot : List Bool
  pub pending_entries : List PendingEntries
  pub batch_running : Bool
  pub peer_pipeline : List PeerPipelineState

-- `BoostPersistLogEntry` and `BoostPersistRaftNode`
pub record PersistLogEntry : Type 0 where
  pub term : ℕ
  pub command : Bytes

pub record PersistRaftNode : Type 0 where
  pub current_term : ℕ
  pub voted_for : ℤ
  pub last_snapshot_include_index : ℕ
  pub last_snapshot_include_term : ℕ
  pub logs : List PersistLogEntry

-- `text_oarchive` and `text_iarchive`: what one writes the other reads back, and what it writes
-- begins with a header, so it is not empty.
pub record Archive : Type 0 where
  pub encode : PersistRaftNode → Bytes
  pub decode : Bytes → Option PersistRaftNode
  pub decode_encode : (n : PersistRaftNode) → decode (encode n) ≡ some n
  pub encode_nonempty : (n : PersistRaftNode) → encode n ≢ []

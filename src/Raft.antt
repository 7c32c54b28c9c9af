-- ===== src/Raft.antt =====
-- Raft/raft.h and Raft/Raft.cpp: a node of the consensus protocol.
pub mod Types
pub mod Persister
pub mod State
pub mod Log
pub mod Persist
pub mod Vote
pub mod Append
pub mod Replicate
pub mod Heartbeat
pub mod Snapshot
pub mod Batch
pub mod Apply
pub mod Pipeline
pub mod History
pub mod Cluster
pub mod Exchange
pub mod Range
pub mod Ticker
pub mod Toy
mod Tests

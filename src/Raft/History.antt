-- ===== src/Raft/History.antt =====
-- A node over time: its term, its vote and its file, through every handler and restart.
pub mod Keeps
pub mod Handlers
pub mod Unsaved
pub mod Settles
pub mod Leading
pub mod Quiet
pub mod Restarting
pub mod Steps
pub mod OneVote
pub mod Stays
pub mod AppendOnly

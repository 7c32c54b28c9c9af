-- ===== src/Raft/Exchange.antt =====
-- The messages that carry log entries between the nodes of a cluster: what `batchSenderLoop`,
-- `flushPendingEntries` and `doHeartBeat` send, and `AppendEntries1` receives.
pub mod Merged
pub mod Origin
pub mod Starting
pub mod Sending
pub mod Arrivals
pub mod Sound
pub mod OneEntry
pub mod Dated
pub mod Terms
pub mod Messages
use my_kv_storage_base_raft.Common.{
  ℕ, ◌<◌, ◌≡◌, Among, Option, none, some, List, [], ◌∷◌, ◌++◌, map,
}
use my_kv_storage_base_raft.Raft.Types.{leader, LogEntry, AppendEntriesArgs, Waits}
use my_kv_storage_base_raft.Raft.State.{Raft, Archive}
use my_kv_storage_base_raft.Raft.Log.Shape.{IsIndexed}
use my_kv_storage_base_raft.Raft.Heartbeat.{Outgoing, append, snapshot, do_heart_beat}
use my_kv_storage_base_raft.Raft.Batch.{new_entry, flush_pending_entries}
use my_kv_storage_base_raft.Raft.History.Steps.{
  Step, votes, appends, installs, elects, counts, hears, synced, starts, beats, sends, flushes,
  halts, applies, restarts,
}
use my_kv_storage_base_raft.Raft.Cluster.{
  Cluster, ClusterStep, IsNew, node_moves, node_stands, node_votes, node_counts,
}

-- The requests among the messages of a heartbeat.
abbrev pub appends_of : List (ℕ × Outgoing) → List AppendEntriesArgs
appends_of [] = []
appends_of ((peer, append args) ∷ out) = args ∷ appends_of out
appends_of ((peer, snapshot request) ∷ out) = appends_of out

abbrev pub if_any : Option AppendEntriesArgs → List AppendEntriesArgs
if_any none = []
if_any (some args) = args ∷ []

-- The requests `AppendEntries` that a step of a node sends.
abbrev pub sent_by : {ar : Archive} {s t : Raft} → Step ar s t → List AppendEntriesArgs
sent_by (votes args now reply h) = []
sent_by (elects now args h) = []
sent_by (counts reply vote_num n h) = []
sent_by (appends args now reply h) = []
sent_by (installs request) = []
sent_by (hears peer args reply nums n h) = []
sent_by (synced peer index reply nums) = []
sent_by (starts command now) = []
sent_by {s = s} (beats now) = appends_of (do_heart_beat s now).1
sent_by (sends now out h) = map (λ (m : ℕ × AppendEntriesArgs). m.1) out
sent_by {s = s} (flushes peer) = if_any (flush_pending_entries s peer).1
sent_by halts = []
sent_by (applies h) = []
sent_by (restarts ch now h) = []

-- The step receives a message that was sent, and a restart finds a log whose entries carry the
-- indices of their places, which is what the file keeps of them.
abbrev pub Delivers : {ar : Archive} {s t : Raft} → List AppendEntriesArgs → Step ar s t → Type 0
Delivers sent (votes args now reply h) = Unit {0}
Delivers sent (elects now args h) = Unit {0}
Delivers sent (counts reply vote_num n h) = Unit {0}
Delivers sent (appends args now reply h) = Among sent args
Delivers sent (installs request) = Unit {0}
Delivers sent (hears peer args reply nums n h) = Unit {0}
Delivers sent (synced peer index reply nums) = Unit {0}
Delivers sent (starts command now) = Unit {0}
Delivers sent (beats now) = Unit {0}
Delivers sent (sends now out h) = Unit {0}
Delivers sent (flushes peer) = Unit {0}
Delivers sent halts = Unit {0}
Delivers sent (applies h) = Unit {0}
Delivers {s = s} sent (restarts ch now h) = IsIndexed s

abbrev pub messages_of :
    {ar : Archive} {n : ℕ} {c d : Cluster} → ClusterStep ar n c d → List AppendEntriesArgs
messages_of (node_moves i inside step other) = sent_by step
messages_of (node_stands i now inside h) = []
messages_of (node_votes v now args inside among other h) = []
messages_of (node_counts a among fresh h) = []

abbrev pub Happens :
    {ar : Archive} {n : ℕ} {c d : Cluster} → List AppendEntriesArgs → ClusterStep ar n c d → Type 0
Happens sent (node_moves i inside step other) = Delivers sent step
Happens sent (node_stands i now inside h) = Unit {0}
Happens sent (node_votes v now args inside among other h) = Unit {0}
Happens sent (node_counts a among fresh h) = Unit {0}

-- The nodes, and every request `AppendEntries` that was sent so far: one may come late, more than
-- once, at any node, or never.
pub record Network : Type 0 where
  pub cluster : Cluster
  pub sent : List AppendEntriesArgs

-- `n` new nodes, no entry waiting anywhere.
pub record IsIdle (n : ℕ) (z : Network) : Type 0 where
  pub new : IsNew n z.cluster
  pub idle : (i : ℕ) (e : LogEntry) → i < n → ¬ Waits (z.cluster.node i).pending_entries e
  pub sent : z.sent ≡ []

-- What can become of `n` new nodes that send each other entries.
pub data Runs (ar : Archive) (n : ℕ) : Network → Type 0 where
  rests : {z : Network} → IsIdle n z → Runs ar n z
  acts :
      {z : Network} {d : Cluster}
      → Runs ar n z
      → (step : ClusterStep ar n z.cluster d) → Happens z.sent step
      → Runs ar n (record { cluster = d; sent = messages_of step ++ z.sent })

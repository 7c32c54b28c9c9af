-- ===== src/Raft/Persist.antt =====
-- `persistDate`, `readPersist`, `persist` and `init` of Raft.cpp. The archive is a parameter of
-- every function that saves.
pub mod Durable
pub mod Restart
use my_kv_storage_base_raft.Common.{
  ℕ, zero, suc, ◌≡◌, Bool, true, false, minus_one, Option, none, some, List, [], ◌∷◌, map, Bytes,
  ltb, if◌then◌else◌, replicate,
}
use my_kv_storage_base_raft.Raft.Types.{
  Result, ok, err, archive_exception, LogEntry, follower, ApplyMsg,
}
use my_kv_storage_base_raft.Raft.State.{Raft, PersistLogEntry, PersistRaftNode, Archive}
use my_kv_storage_base_raft.Raft.Persister.{Persister, save_state_and_wait, save_and_wait}

abbrev pub persist_entry : LogEntry → PersistLogEntry
persist_entry log = record { term = log.log_term; command = log.command }

-- What `persistDate` hands to the archive.
unfoldable pub persist_node : Raft → PersistRaftNode
persist_node s = record {
  current_term = s.current_term;
  voted_for = s.voted_for;
  last_snapshot_include_index = s.last_snapshot_include_index;
  last_snapshot_include_term = s.last_snapshot_include_term;
  logs = map persist_entry s.logs;
}

-- The loop of `readPersist`: the indices are counted again from the snapshot's.
unfoldable pub read_entries : ℕ → List PersistLogEntry → List LogEntry
read_entries index [] = []
read_entries index (plog ∷ plogs) =
    record { command = plog.command; log_term = plog.term; log_index = suc index }
    ∷ read_entries (suc index) plogs

unfoldable pub read_node : Raft → PersistRaftNode → Raft
unfolding read_entries
read_node s n = record s {
  current_term = n.current_term;
  voted_for = n.voted_for;
  last_snapshot_include_index = n.last_snapshot_include_index;
  last_snapshot_include_term = n.last_snapshot_include_term;
  logs = read_entries n.last_snapshot_include_index n.logs;
}

-- The state of a node before the saved one is read, times and stubs given.
unfoldable pub fresh : ℕ → ℕ → Persister → Option (List ApplyMsg) → ℕ → Raft
fresh peers me persister apply_ch now = record {
  me = me;
  peers = peers;
  persister = persister;
  current_term = 0;
  voted_for = minus_one;
  logs = [];
  commit_index = 0;
  last_applied = 0;
  next_index = replicate peers 0;
  match_index = replicate peers 0;
  status = follower;
  apply_chan = apply_ch;
  last_reset_election_time = now;
  last_reset_hear_beat_time = now;
  last_snapshot_include_index = 0;
  last_snapshot_include_term = 0;
  inflight_count = replicate peers 0;
  in_snapshot = replicate peers false;
  pending_entries = replicate peers (record { entries = []; first_entry_time_ms = 0 });
  batch_running = false;
  peer_pipeline =
      replicate peers (record { pending_batches = []; in_flight = []; next_batch_id = 0 });
}

-- "so that a restart goes on from the snapshot": the last step of `init` under the lock.
unfoldable pub skip_snapshot : Raft → Raft
skip_snapshot s =
    if ltb 0 s.last_snapshot_include_index
    then record s { last_applied = s.last_snapshot_include_index }
    else s

module _ (ar : Archive) where
  unfoldable pub persist_date : Raft → Bytes
  unfolding persist_node
  persist_date s = ar.encode (persist_node s)

  abbrev read_decoded : Raft → Option PersistRaftNode → Result Raft
  read_decoded s none = err archive_exception
  read_decoded s (some n) = ok (read_node s n)

  -- `readPersist`: an empty text is no saved state.
  unfoldable pub read_persist : Raft → Bytes → Result Raft
  unfolding read_node
  read_persist s [] = ok s
  read_persist s (b ∷ bytes) = read_decoded s (ar.decode (b ∷ bytes))

  abbrev map_ok : (Raft → Raft) → Result Raft → Result Raft
  map_ok f (ok s) = ok (f s)
  map_ok f (err e) = err e

  -- `init`, up to the start of the three threads.
  unfoldable pub init : ℕ → ℕ → Persister → Option (List ApplyMsg) → ℕ → Result Raft
  unfolding fresh skip_snapshot read_persist
  init peers me persister apply_ch now =
      map_ok skip_snapshot
        (read_persist (fresh peers me persister apply_ch now) persister.raft_state)

  -- `persist`: save the durable part, and wait for the disk.
  unfoldable pub persist : Raft → Raft
  unfolding persist_date
  persist s = record s { persister = save_state_and_wait s.persister (persist_date s) }

  -- The end of `InstallSnapshot1`: the durable part and a snapshot.
  unfoldable pub persist_snapshot : Raft → Bytes → Raft
  unfolding persist_date
  persist_snapshot s snapshot = record s {
    persister = save_and_wait s.persister (persist_date s) snapshot;
  }

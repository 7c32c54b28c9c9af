-- ===== src/Raft/Toy.antt =====
-- Test data: an archive, and nodes with a short log.
use mathlib.Core.List.{append-nil}
use my_kv_storage_base_raft.Common.{
  ℕ, zero, suc, ◌≡◌, refl, ◌≢◌, ℤ, pos, negsuc, minus_one, Option, none, some, List, [], ◌∷◌, ◌++◌,
  Bytes, false,
}
use my_kv_storage_base_raft.Raft.Types.{LogEntry, follower, leader, PendingEntries}
use my_kv_storage_base_raft.Raft.State.{Raft, PersistLogEntry, PersistRaftNode, Archive}
use my_kv_storage_base_raft.Raft.Persister

-- The bytes of a command, each one larger, so that 0 ends it.
abbrev pub write_command : Bytes → Bytes → Bytes
write_command [] rest = rest
write_command (b ∷ bs) rest = suc b ∷ write_command bs rest

abbrev pub write_entries : List PersistLogEntry → Bytes
write_entries [] = 0 ∷ []
write_entries (e ∷ es) = 0 ∷ e.term ∷ write_command e.command (write_entries es)

-- The bytes up to the next 0, and the entries behind it.
abbrev pub read_back : Bytes → Bytes × List PersistLogEntry
read_back [] = ([], [])
read_back (zero ∷ []) = ([], [])
read_back (zero ∷ term ∷ bs) =
    let rest = read_back bs in ([], record { term = term; command = rest.0 } ∷ rest.1)
read_back (suc b ∷ bs) = let rest = read_back bs in (b ∷ rest.0, rest.1)

abbrev pub write_int : ℤ → Bytes → Bytes
write_int (pos n) rest = 0 ∷ n ∷ rest
write_int (negsuc n) rest = 1 ∷ n ∷ rest

abbrev pub read_int : ℕ → ℕ → ℤ
read_int zero n = pos n
read_int (suc s) n = negsuc n

abbrev pub write_node : PersistRaftNode → Bytes
write_node n =
    n.current_term
    ∷ n.last_snapshot_include_index
    ∷ n.last_snapshot_include_term
    ∷ write_int n.voted_for (write_entries n.logs)

abbrev pub read_node_back : Bytes → Option PersistRaftNode
read_node_back (term ∷ index ∷ index_term ∷ sign ∷ vote ∷ bs) = some (record {
  current_term = term;
  voted_for = read_int sign vote;
  last_snapshot_include_index = index;
  last_snapshot_include_term = index_term;
  logs = (read_back bs).1;
})
read_node_back bs = none

read_back-write_command :
    (command rest : Bytes)
    → read_back (write_command command rest) ≡ (command ++ (read_back rest).0, (read_back rest).1)
read_back-write_command [] rest = refl
read_back-write_command (b ∷ bs) rest = rw (read_back-write_command bs rest) refl

read_back-write_entries : (es : List PersistLogEntry) → read_back (write_entries es) ≡ ([], es)
read_back-write_entries [] = refl
read_back-write_entries (e ∷ es) =
    rw
      (
        read_back-write_command e.command (write_entries es),
        read_back-write_entries es,
        append-nil e.command,
      )
      refl

read_fields :
    (term index index_term : ℕ) (vote : ℤ) (logs : List PersistLogEntry)
    → read_node_back (term ∷ index ∷ index_term ∷ write_int vote (write_entries logs))
      ≡ some (record {
        current_term = term;
        voted_for = vote;
        last_snapshot_include_index = index;
        last_snapshot_include_term = index_term;
        logs = logs;
      })
read_fields term index index_term (pos v) logs = rw (read_back-write_entries logs) refl
read_fields term index index_term (negsuc v) logs = rw (read_back-write_entries logs) refl

pub read_node_back-write_node : (n : PersistRaftNode) → read_node_back (write_node n) ≡ some n
read_node_back-write_node n =
    read_fields n.current_term n.last_snapshot_include_index n.last_snapshot_include_term
      n.voted_for n.logs

pub write_node-nonempty : (n : PersistRaftNode) → write_node n ≢ []
write_node-nonempty n e = cc e

abbrev pub toy_archive : Archive
toy_archive = record {
  encode = write_node;
  decode = read_node_back;
  decode_encode = read_node_back-write_node;
  encode_nonempty = write_node-nonempty;
}

abbrev idle : PendingEntries
idle = record { entries = []; first_entry_time_ms = 0 }

-- A node that was just started for the first time, the second of three.
abbrev pub started : Raft
started = record {
  me = 1;
  peers = 3;
  persister = Persister.init none none;
  current_term = 0;
  voted_for = minus_one;
  logs = [];
  commit_index = 0;
  last_applied = 0;
  next_index = 0 ∷ 0 ∷ 0 ∷ [];
  match_index = 0 ∷ 0 ∷ 0 ∷ [];
  status = follower;
  apply_chan = none;
  last_reset_election_time = 0;
  last_reset_hear_beat_time = 0;
  last_snapshot_include_index = 0;
  last_snapshot_include_term = 0;
  inflight_count = 0 ∷ 0 ∷ 0 ∷ [];
  in_snapshot = false ∷ false ∷ false ∷ [];
  pending_entries = idle ∷ idle ∷ idle ∷ [];
  batch_running = false;
  peer_pipeline = [];
}

abbrev pub entry : ℕ → ℕ → LogEntry
entry index term = record { command = index ∷ []; log_term = term; log_index = index }

-- A follower in term 3 with three entries, of terms 1, 2 and 2.
abbrev pub follower_three : Raft
follower_three = record started {
  current_term = 3;
  logs = entry 1 1 ∷ entry 2 2 ∷ entry 3 2 ∷ [];
  commit_index = 1;
}

-- The leader of term 3 with the same log: one peer has all of it, the other has nothing.
abbrev pub leader_three : Raft
leader_three = record follower_three {
  status = leader;
  voted_for = pos 1;
  logs = entry 1 1 ∷ entry 2 2 ∷ entry 3 3 ∷ [];
  next_index = 4 ∷ 4 ∷ 1 ∷ [];
  match_index = 3 ∷ 0 ∷ 0 ∷ [];
}

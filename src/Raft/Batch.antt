-- ===== src/Raft/Batch.antt =====
-- `Start` of Raft.cpp and the batches that it feeds: `addToPendingBatch`, one round of
-- `batchSenderLoop`, `flushPendingEntries`. The clock is an argument; a round reads it once.
pub mod Delivery
use my_kv_storage_base_raft.Common.{
  ℕ, zero, suc, ◌+◌, ◌-◌, Bool, true, false, ◌||◌, ◌&&◌, Option, none, some, List, [], ◌∷◌, ◌++◌,
  ltb, leb, ◌==◌, if◌then◌else◌, length, get_elem?, modify, set,
}
use my_kv_storage_base_raft.OpCoder.{Op, encode_op}
use my_kv_storage_base_raft.Raft.Types.{is_leader, LogEntry, PendingEntries, AppendEntriesArgs}
use my_kv_storage_base_raft.Raft.State.{Raft, Archive}
use my_kv_storage_base_raft.Raft.Log.{get_last_log_index, get_log_term_from_log_index}
use my_kv_storage_base_raft.Raft.Persist.{persist}

abbrev pub is_empty : List LogEntry → Bool
is_empty [] = true
is_empty (e ∷ es) = false

abbrev add_pending : LogEntry → ℕ → PendingEntries → PendingEntries
add_pending entry now pending = record {
  entries = pending.entries ++ entry ∷ [];
  first_entry_time_ms = if is_empty pending.entries then now else pending.first_entry_time_ms;
}

-- The loop of `addToPendingBatch` from peer `i` on.
unfoldable pub add_to_each : ℕ → LogEntry → ℕ → ℕ → List PendingEntries → List PendingEntries
add_to_each me entry now i [] = []
add_to_each me entry now i (p ∷ ps) =
    (if i == me then p else add_pending entry now p) ∷ add_to_each me entry now (suc i) ps

unfoldable pub add_to_pending_batch : Raft → LogEntry → ℕ → Raft
unfolding add_to_each
add_to_pending_batch s entry now = record s {
  pending_entries = add_to_each s.me entry now 0 s.pending_entries;
}

-- The entry that `Start` appends.
unfoldable pub new_entry : Raft → Op → LogEntry
new_entry s command = record {
  command = encode_op command;
  log_term = s.current_term;
  log_index = get_last_log_index s + 1;
}

-- `Start`: the index of the new entry, or `none` for -1 and "not the leader".
unfoldable pub start : Archive → Raft → Op → ℕ → Raft × Option ℕ
unfolding new_entry add_to_pending_batch
start ar s command now =
    if is_leader s.status
    then (
      add_to_pending_batch (persist ar (record s { logs = s.logs ++ new_entry s command ∷ [] }))
          (new_entry s command) now,
      some (get_last_log_index s + 1),
    )
    else (s, none)

abbrev pub pipeline_batch_size : ℕ
pipeline_batch_size = 8

abbrev pub pipeline_max_delay_ms : ℕ
pipeline_max_delay_ms = 5

-- The three conditions of the loop, for a buffer that is not empty.
unfoldable pub should_flush : PendingEntries → ℕ → Bool
should_flush p now =
    leb pipeline_batch_size (length p.entries)
    || leb pipeline_max_delay_ms (now - p.first_entry_time_ms)
    || (leb 1 (length p.entries) && leb 2 (now - p.first_entry_time_ms))

-- The first part of a round: what is taken out of each peer's buffer, and the buffers left.
unfoldable pub collect :
    ℕ → ℕ → ℕ → List PendingEntries → List PendingEntries × List (ℕ × List LogEntry)
unfolding should_flush
collect me now i [] = ([], [])
collect me now i (p ∷ ps) =
    let rest = collect me now (suc i) ps in
    if i == me
    then (p ∷ rest.0, rest.1)
    else if ltb 0 (length p.entries) && should_flush p now
    then (record p { entries = [] } ∷ rest.0, (i, p.entries) ∷ rest.1)
    else (p ∷ rest.0, rest.1)

-- The request for a batch; an empty batch is not sent.
unfoldable pub batch_args : Raft → List LogEntry → Option AppendEntriesArgs
batch_args s [] = none
batch_args s (e ∷ es) = some (record {
  term = s.current_term;
  leader_id = s.me;
  prev_log_index = e.log_index - 1;
  prev_log_term = get_log_term_from_log_index s (e.log_index - 1);
  entries = e ∷ es;
  leader_commit = s.commit_index;
  batch_id = e.log_index;
})

-- The second part: a request for every batch, while the node is the leader.
unfoldable pub batch_requests : Raft → List (ℕ × List LogEntry) → List (ℕ × AppendEntriesArgs)
unfolding batch_args
batch_requests s [] = []
batch_requests s ((peer, entries) ∷ rest) =
    let requests = batch_requests s rest in
    if is_leader s.status
    then elim (batch_args s entries) [ none ↦ requests | some args ↦ (peer, args) ∷ requests ]
    else requests

-- A round of `batchSenderLoop` in which nothing else runs; `none` where the loop ends. The flag
-- `m_batchRunning` stays set then.
unfoldable pub batch_sender_round : Raft → ℕ → Option (Raft × List (ℕ × AppendEntriesArgs))
unfolding collect batch_requests
batch_sender_round s now =
    if s.batch_running && is_leader s.status
    then (let taken = collect s.me now 0 s.pending_entries in
        some (record s { pending_entries = taken.0 }, batch_requests s taken.1))
    else none

abbrev pub entries_of : Option PendingEntries → List LogEntry
entries_of none = []
entries_of (some p) = p.entries

-- `flushPendingEntries`
unfoldable pub flush_pending_entries : Raft → ℕ → Raft × Option AppendEntriesArgs
unfolding batch_args
flush_pending_entries s peer = (
  record s {
    pending_entries =
        modify s.pending_entries peer (λ (p : PendingEntries). record p { entries = [] });
  },
  batch_args s (entries_of (get_elem? s.pending_entries peer)),
)

-- `stopBatchSenderThread`
unfoldable pub stop_batch_sender_thread : Raft → Raft
stop_batch_sender_thread s = record s { batch_running = false }

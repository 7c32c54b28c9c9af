-- ===== src/Raft/Pipeline.antt =====
-- The pipeline of Raft.cpp: the window of batches that were sent to a peer and not yet confirmed, and
-- the rounds of its sender. Nothing starts the sender at present. `now` is what the clock returned;
-- the counters of batches that only serve for debugging are left out.
pub mod Window
pub mod Bounded
pub mod Streams
use my_kv_storage_base_raft.Common.{
  ℕ, zero, suc, ◌+◌, ◌-◌, ◌*◌, ◌/◌, ◌%◌, min, Bool, true, false, ℤ, pos, negsuc, Option, none, some,
  List, [], ◌∷◌, ltb, leb, ◌==◌, if◌then◌else◌, length, get_or, set, modify, drop,
}
use my_kv_storage_base_raft.Raft.Types.{
  LogEntry, PipelineBatch, PeerPipelineState, AppendEntriesArgs, is_leader,
}
use my_kv_storage_base_raft.Raft.State.{Raft}
use my_kv_storage_base_raft.Raft.Log.{
  get_last_log_index, get_log_term_from_log_index, get_slices_index_from_log_index,
}
use my_kv_storage_base_raft.Raft.Vote.{empty_pipeline}

abbrev pub pipeline_batch_size : ℕ
pipeline_batch_size = 8

abbrev pub pipeline_max_inflight : ℕ
pipeline_max_inflight = 16

-- `m_peerPipeline[peerId]`
abbrev pub window : Raft → ℕ → PeerPipelineState
window s peer = get_or s.peer_pipeline peer empty_pipeline

abbrev pub set_window : Raft → ℕ → PeerPipelineState → Raft
set_window s peer p = record s { peer_pipeline = set s.peer_pipeline peer p }

unfoldable pub can_send_pipeline_batch : Raft → ℕ → Bool
can_send_pipeline_batch s peer = ltb (length (window s peer).in_flight) pipeline_max_inflight

pub should_force_flush_pipeline : Raft → ℕ → Bool
should_force_flush_pipeline s peer =
    leb (pipeline_max_inflight * 8 / 10) (length (window s peer).in_flight)

-- `createPipelineBatch`, for an end that is not before the start.
unfoldable pub create_pipeline_batch : Raft → ℕ → ℕ → ℕ → ℕ → Raft × PipelineBatch
create_pipeline_batch s peer start_index end_index now =
    let p = window s peer in
    (
      set_window s peer (record p { next_batch_id = p.next_batch_id + 1 }),
      record {
        batch_id = p.next_batch_id;
        first_index = start_index;
        last_index = end_index;
        send_time_ms = now;
        entry_count = end_index + 1 - start_index;
        matched = false;
      },
    )

-- The loop that copies the entries ends with the first one that reaches the last index.
unfoldable pub up_to_last : ℕ → List LogEntry → List LogEntry
up_to_last last [] = []
up_to_last last (e ∷ es) =
    let rest = up_to_last last es in if leb last e.log_index then e ∷ [] else e ∷ rest

-- Where the slice index is -1, the comparison with the unsigned size ends the loop at once.
abbrev pub entries_from : ℕ → List LogEntry → ℤ → List LogEntry
entries_from last logs (negsuc i) = []
entries_from last logs (pos i) = up_to_last last (drop i logs)

-- `sendPipelineBatch`, for a batch whose first index is not 0: the request that is sent.
unfoldable pub send_pipeline_batch : Raft → PipelineBatch → AppendEntriesArgs
unfolding up_to_last
send_pipeline_batch s batch = record {
  term = s.current_term;
  leader_id = s.me;
  prev_log_index = batch.first_index - 1;
  prev_log_term = get_log_term_from_log_index s (batch.first_index - 1);
  entries =
      entries_from batch.last_index s.logs (get_slices_index_from_log_index s batch.first_index);
  leader_commit = s.commit_index;
  batch_id = batch.batch_id;
}

-- `in_flight[batch.batch_id] = batch`
unfoldable pub put_batch : PipelineBatch → List PipelineBatch → List PipelineBatch
put_batch b [] = b ∷ []
put_batch b (c ∷ cs) =
    let rest = put_batch b cs in
    if b.batch_id == c.batch_id
    then b ∷ cs
    else if ltb b.batch_id c.batch_id
    then b ∷ c ∷ cs
    else c ∷ rest

unfoldable pub find_batch : ℕ → List PipelineBatch → Option PipelineBatch
find_batch batch_id [] = none
find_batch batch_id (b ∷ bs) = if b.batch_id == batch_id then some b else find_batch batch_id bs

abbrev sent_again : Raft → Option PipelineBatch → Option AppendEntriesArgs
sent_again s none = none
sent_again s (some batch) = some (send_pipeline_batch s batch)

-- `retryPipelineBatch`: the request, if the batch is still in flight.
unfoldable pub retry_pipeline_batch : Raft → ℕ → ℕ → Option AppendEntriesArgs
unfolding find_batch
retry_pipeline_batch s peer batch_id = sent_again s (find_batch batch_id (window s peer).in_flight)

-- The batches that were sent at most 5 seconds ago.
unfoldable pub recent : ℕ → List PipelineBatch → List PipelineBatch
recent now [] = []
recent now (b ∷ bs) =
    let rest = recent now bs in if ltb (b.send_time_ms + 5000) now then rest else b ∷ rest

unfoldable pub cleanup_old_pipeline_batches : Raft → ℕ → ℕ → Raft
unfolding recent
cleanup_old_pipeline_batches s peer now =
    let p = window s peer in set_window s peer (record p { in_flight = recent now p.in_flight })

unfoldable pub stop_peer_pipeline : Raft → ℕ → Raft
stop_peer_pipeline s peer =
    let p = window s peer in set_window s peer (record p { pending_batches = []; in_flight = [] })

-- The size of the next batch, by the batches in flight.
abbrev pub batch_size : ℕ → ℕ
batch_size in_flight =
    if leb (pipeline_max_inflight * 8 / 10) in_flight
    then 1
    else if leb (pipeline_max_inflight * 5 / 10) in_flight
    then 4
    else pipeline_batch_size

-- The part of a round that sends: a batch is made, put into the window and sent, and the next index
-- moves behind it.
unfoldable pub send_next : Raft → ℕ → ℕ → ℕ → Raft × AppendEntriesArgs
unfolding create_pipeline_batch put_batch send_pipeline_batch
send_next s peer end_index now =
    let (s', batch) = create_pipeline_batch s peer (get_or s.next_index peer 0) end_index now in
    let p = window s' peer in
    let s'' = set_window s' peer (record p { in_flight = put_batch batch p.in_flight }) in
    (
      record s'' { next_index = set s''.next_index peer (end_index + 1) },
      send_pipeline_batch s'' batch,
    )

-- How a round of `peerPipelineSender` ends: the loop is left, nothing is sent, or a batch is.
-- `consecutive_empty` counts the rounds that found nothing to send.
pub record SenderRound : Type 0 where
  pub node : Raft
  pub sent : Option AppendEntriesArgs
  pub consecutive_empty : ℕ
  pub goes_on : Bool

-- A round of `peerPipelineSender` in which nothing else runs.
unfoldable pub peer_pipeline_sender_round : Raft → ℕ → ℕ → ℕ → SenderRound
unfolding send_next can_send_pipeline_batch stop_peer_pipeline cleanup_old_pipeline_batches
peer_pipeline_sender_round s peer consecutive_empty now =
    if is_leader s.status
    then (let next = get_or s.next_index peer 0 in
        let last = get_last_log_index s in
        if leb next last
        then (let end_index = min (next + batch_size (length (window s peer).in_flight) - 1) last in
            if can_send_pipeline_batch s peer
            then (let (s', args) = send_next s peer end_index now in
                record { node = s'; sent = some args; consecutive_empty = 0; goes_on = true })
            else record { node = s; sent = none; consecutive_empty = 0; goes_on = true })
        else let empty = consecutive_empty + 1 in
          record {
            node = if empty % 50 == 0 then cleanup_old_pipeline_batches s peer now else s;
            sent = none;
            consecutive_empty = empty;
            goes_on = true;
          })
    else record {
      node = stop_peer_pipeline s peer;
      sent = none;
      consecutive_empty = consecutive_empty;
      goes_on = false;
    }

-- ===== src/Raft/Pipeline/Bounded.antt =====
-- The window of a peer over time, with the sender of the peer in the steps between its locks.
use my_kv_storage_base_raft.Common.{ℕ, ◌≤◌, ◌≡◌, true, false, arith, length, Bool-cases, inl, inr}
use my_kv_storage_base_raft.Raft.Types.{PipelineBatch, PeerPipelineState, is_leader}
use my_kv_storage_base_raft.Raft.State.{Raft, Archive}
use my_kv_storage_base_raft.Raft.Persist.{persist}
use my_kv_storage_base_raft.Raft.Vote.{become_leader, start_batch_sender_thread, empty_pipeline}
use my_kv_storage_base_raft.Raft.Replicate.{slide_pipeline_window}
use my_kv_storage_base_raft.Raft.Pipeline.{
  window, set_window, pipeline_max_inflight, put_batch, can_send_pipeline_batch,
  create_pipeline_batch, cleanup_old_pipeline_batches, stop_peer_pipeline,
}
use my_kv_storage_base_raft.Raft.Pipeline.Window.{
  Holds, length-put_batch, length-unsettled, length-recent, get_or-set, get_or-modify, get_or-fill,
}

-- The batch that was made is put into the window.
unfoldable pub insert_in_flight : Raft → ℕ → PipelineBatch → Raft
insert_in_flight s peer batch =
    let p = window s peer in
    set_window s peer (record p { in_flight = put_batch batch p.in_flight })

-- Where the sender of the peer is: outside the part that sends, behind the test of the window, or
-- with a batch that it has made.
pub data Sender : Type 0 where
  outside : Sender
  may_send : Sender
  has_batch : PipelineBatch → Sender

pub record Piped : Type 0 where
  pub node : Raft
  pub sender : Sender

-- What the threads of a node do to the window of `peer`, of which one sender runs at most: the
-- sender tests, makes a batch and inserts it, each under a lock of its own; it drops old batches, or
-- stops; answers settle batches of any peer, elections are won, and anything else leaves the window.
pub data Pipes (ar : Archive) (peer : ℕ) (x : Piped) : Piped → Type 0 where
  begins : Pipes ar peer x x
  tested :
      {y : Piped}
      → Pipes ar peer x y
      → y.sender ≡ outside
      → can_send_pipeline_batch y.node peer ≡ true
      → Pipes ar peer x (record y { sender = may_send })
  made :
      {y : Piped} (start_index end_index now : ℕ)
      → Pipes ar peer x y
      → y.sender ≡ may_send
      → Pipes ar peer x (record {
        node = (create_pipeline_batch y.node peer start_index end_index now).0;
        sender = has_batch (create_pipeline_batch y.node peer start_index end_index now).1;
      })
  inserted :
      {y : Piped} (batch : PipelineBatch)
      → Pipes ar peer x y
      → y.sender ≡ has_batch batch
      → Pipes ar peer x (record { node = insert_in_flight y.node peer batch; sender = outside })
  cleaned :
      {y : Piped} (now : ℕ)
      → Pipes ar peer x y
      → y.sender ≡ outside
      → Pipes ar peer x (record y { node = cleanup_old_pipeline_batches y.node peer now })
  stopped :
      {y : Piped}
      → Pipes ar peer x y
      → y.sender ≡ outside
      → is_leader y.node.status ≡ false
      → Pipes ar peer x (record y { node = stop_peer_pipeline y.node peer })
  settled :
      {y : Piped} (other up_to : ℕ)
      → Pipes ar peer x y
      → Pipes ar peer x (record y { node = slide_pipeline_window y.node other up_to })
  won :
      {y : Piped}
      → Pipes ar peer x y
      → Pipes ar peer x (record y { node = become_leader ar y.node })
  aside :
      {y : Piped} {t : Raft}
      → Pipes ar peer x y
      → window t peer ≡ window y.node peer
      → Pipes ar peer x (record y { node = t })

-- A sender behind the test has room for its batch.
abbrev room : Sender → ℕ
room outside = 16
room may_send = 15
room (has_batch batch) = 15

room-max : (sender : Sender) → room sender ≤ pipeline_max_inflight
room-max outside = omega arith
room-max may_send = omega arith
room-max (has_batch batch) = omega arith

can_send-Holds :
    (s : Raft) (peer : ℕ) → can_send_pipeline_batch s peer ≡ true → Holds 15 (window s peer)
unfolding can_send_pipeline_batch
can_send-Holds s peer h = ground arith

set_window-Holds :
    (n : ℕ) (s : Raft) (peer : ℕ) (p : PeerPipelineState)
    → Holds n p
    → Holds n (window s peer)
    → Holds n (window (set_window s peer p) peer)
set_window-Holds n s peer p h was =
    get_or-set (Holds n) empty_pipeline s.peer_pipeline peer peer p h was

insert_in_flight-Holds :
    (s : Raft) (peer : ℕ) (batch : PipelineBatch)
    → Holds 15 (window s peer)
    → Holds 16 (window (insert_in_flight s peer batch) peer)
unfolding insert_in_flight
insert_in_flight-Holds s peer batch h =
    let p = window s peer in
    set_window-Holds 16 s peer (record p { in_flight = put_batch batch p.in_flight })
      (omega (arith, length-put_batch batch p.in_flight, h)) (omega (arith, h))

become_leader-Holds :
    (ar : Archive) (n : ℕ) (s : Raft) (peer : ℕ)
    → Holds n (window s peer)
    → Holds n (window (become_leader ar s) peer)
unfolding become_leader start_batch_sender_thread persist
become_leader-Holds ar n s peer h =
    let fresh =
      get_or-fill (Holds n) empty_pipeline s.peers s.peer_pipeline peer empty_pipeline (omega arith)
        h in
    elim (Bool-cases s.batch_running) [ inl running ↦ rw running fresh | inr idle ↦ rw idle fresh ]

slide-Holds :
    (n : ℕ) (s : Raft) (other up_to peer : ℕ)
    → Holds n (window s peer)
    → Holds n (window (slide_pipeline_window s other up_to) peer)
unfolding slide_pipeline_window
slide-Holds n s other up_to peer h =
    get_or-modify (Holds n) empty_pipeline s.peer_pipeline other peer _
      (λ (p : PeerPipelineState) k. omega (arith, length-unsettled up_to p.in_flight, k)) h

Pipes-room :
    (ar : Archive) (peer : ℕ) {x y : Piped}
    → Holds (room x.sender) (window x.node peer)
    → Pipes ar peer x y
    → Holds (room y.sender) (window y.node peer)
unfolding create_pipeline_batch cleanup_old_pipeline_batches stop_peer_pipeline
Pipes-room ar peer h begins = h
Pipes-room ar peer h (tested {y = z} before free room_left) = can_send-Holds z.node peer room_left
Pipes-room ar peer h (made {y = z} start_index end_index now before free) =
    let k = rw free at (Pipes-room ar peer h before) in set_window-Holds 15 z.node peer _ k k
Pipes-room ar peer h (inserted {y = z} batch before own) =
    insert_in_flight-Holds z.node peer batch (rw own at (Pipes-room ar peer h before))
Pipes-room ar peer h (cleaned {y = z} now before free) =
    let k = Pipes-room ar peer h before in
    set_window-Holds (room z.sender) z.node peer _
      (omega (arith, length-recent now (window z.node peer).in_flight, k)) k
Pipes-room ar peer h (stopped {y = z} before free other) =
    set_window-Holds (room z.sender) z.node peer _ (omega arith) (Pipes-room ar peer h before)
Pipes-room ar peer h (settled {y = z} other up_to before) =
    slide-Holds (room z.sender) z.node other up_to peer (Pipes-room ar peer h before)
Pipes-room ar peer h (won {y = z} before) =
    become_leader-Holds ar (room z.sender) z.node peer (Pipes-room ar peer h before)
Pipes-room ar peer h (aside before same) = rw same (Pipes-room ar peer h before)

-- A peer for which at most one sender runs has at most 16 batches in flight at any time, whatever
-- answers, elections and other threads come between the locks of the sender, where that was so
-- when the sender began.
pub Pipes-bounded :
    (ar : Archive) (peer : ℕ) {x y : Piped}
    → x.sender ≡ outside
    → length (window x.node peer).in_flight ≤ pipeline_max_inflight
    → Pipes ar peer x y
    → length (window y.node peer).in_flight ≤ pipeline_max_inflight
Pipes-bounded ar peer {x} {y} free few run =
    let k = Pipes-room ar peer {x = x} {y = y} (rw free few) run in
    omega (arith, k, room-max y.sender)

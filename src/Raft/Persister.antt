-- ===== src/Raft/Persister.antt =====
-- `class Persister` of Raft/raft.h: the copies in memory, the data that wait for the background
-- thread, and the two files. `save` and `save_raft_state` run in the caller; `take`, `write_job`
-- and `finish` are the three parts of a round of `WorkLoop`, the middle one without the lock.
pub mod Steps
pub mod Durable
use my_kv_storage_base_raft.Common.{
  ℕ, zero, suc, ◌+◌, Bool, true, false, not, ◌&&◌, ◌||◌, Option, none, some, [], Bytes, ltb, leb,
  if◌then◌else◌, length,
}

pub record Persister : Type 0 where
  pub raft_state : Bytes
  pub snapshot : Bytes
  pub pending_raft_state : Bytes
  pub pending_snapshot : Bytes
  pub has_pending_raft : Bool
  pub has_pending_snapshot : Bool
  pub stop : Bool
  pub next_seq : ℕ
  pub flushed_seq : ℕ
  pub pending_seq : ℕ
  pub raft_file : Option Bytes
  pub snapshot_file : Option Bytes

-- `ReadFile` leaves its result alone where the file cannot be opened: the string stays empty.
unfoldable pub read_file : Option Bytes → Bytes
read_file none = []
read_file (some bytes) = bytes

-- The constructor, over the files that the directory holds.
unfoldable pub init : Option Bytes → Option Bytes → Persister
unfolding read_file
init raft_file snapshot_file = record {
  raft_state = read_file raft_file;
  snapshot = read_file snapshot_file;
  pending_raft_state = [];
  pending_snapshot = [];
  has_pending_raft = false;
  has_pending_snapshot = false;
  stop = false;
  next_seq = 0;
  flushed_seq = 0;
  pending_seq = 0;
  raft_file = raft_file;
  snapshot_file = snapshot_file;
}

-- `Save`: both parts; what still waits is overwritten. The result is the ticket to wait for.
unfoldable pub save : Persister → Bytes → Bytes → Persister × ℕ
save p raftstate snapshot = (
  record p {
    raft_state = raftstate;
    snapshot = snapshot;
    pending_raft_state = raftstate;
    pending_snapshot = snapshot;
    has_pending_raft = true;
    has_pending_snapshot = true;
    next_seq = suc p.next_seq;
    pending_seq = suc p.next_seq;
  },
  suc p.next_seq,
)

-- `SaveRaftState`: the node's state only.
unfoldable pub save_raft_state : Persister → Bytes → Persister × ℕ
save_raft_state p bytes = (
  record p {
    raft_state = bytes;
    pending_raft_state = bytes;
    has_pending_raft = true;
    next_seq = suc p.next_seq;
    pending_seq = suc p.next_seq;
  },
  suc p.next_seq,
)

-- What the worker took: the files to write and the ticket that they settle.
pub record Job : Type 0 where
  pub state_to_write : Option Bytes
  pub snapshot_to_write : Option Bytes
  pub seq_to_write : ℕ

-- The worker, with the lock held: it sleeps on, it returns, or it goes on with a job.
pub data Taken : Type 0 where
  sleeps : Taken
  returns : Taken
  takes : Job → Persister → Taken

abbrev pub taken_part : Bool → Bytes → Option Bytes
taken_part true bytes = some bytes
taken_part false bytes = none

-- What a `std::move` leaves behind is not read again; it is taken to be empty.
abbrev pub left_part : Bool → Bytes → Bytes
left_part true bytes = []
left_part false bytes = bytes

unfoldable pub take : Persister → Taken
take p =
    if not (p.stop || p.has_pending_raft || p.has_pending_snapshot)
    then sleeps
    else if p.stop && not p.has_pending_raft && not p.has_pending_snapshot
    then returns
    else takes
        (record {
          state_to_write = taken_part p.has_pending_raft p.pending_raft_state;
          snapshot_to_write = taken_part p.has_pending_snapshot p.pending_snapshot;
          seq_to_write = if p.has_pending_snapshot || p.has_pending_raft then p.pending_seq else 0;
        })
        (record p {
          pending_raft_state = left_part p.has_pending_raft p.pending_raft_state;
          pending_snapshot = left_part p.has_pending_snapshot p.pending_snapshot;
          has_pending_raft = false;
          has_pending_snapshot = false;
        })

-- `WriteFileAtomic`: the new bytes are renamed into place, or the old file stays and the call
-- returns false. The device decides which.
unfoldable pub write_file_atomic : Bool → Option Bytes → Bytes → Option Bytes × Bool
write_file_atomic true file bytes = (some bytes, true)
write_file_atomic false file bytes = (file, false)

-- A part of the job that is absent is not written.
unfoldable pub write_part : Bool → Option Bytes → Option Bytes → Option Bytes
unfolding write_file_atomic
write_part works file none = file
write_part works file (some bytes) = (write_file_atomic works file bytes).0

-- The snapshot first, then the state; `WorkLoop` drops what `WriteFileAtomic` returns.
unfoldable pub write_job : Bool → Bool → Job → Persister → Persister
unfolding write_part
write_job snapshot_works state_works job p = record p {
  snapshot_file = write_part snapshot_works p.snapshot_file job.snapshot_to_write;
  raft_file = write_part state_works p.raft_file job.state_to_write;
}

unfoldable pub finish : ℕ → Persister → Persister
finish seq p =
    if ltb 0 seq then (if ltb p.flushed_seq seq then record p { flushed_seq = seq } else p) else p

-- The destructor's request; it is not answered before the waiting data are written.
unfoldable pub request_stop : Persister → Persister
request_stop p = record p { stop = true }

abbrev complete_round : Taken → Persister → Persister
complete_round sleeps p = p
complete_round returns p = p
complete_round (takes job q) p = finish job.seq_to_write (write_job true true job q)

-- One whole round of `WorkLoop` on a device that works, with no other call in between.
unfoldable pub work_round : Persister → Persister
unfolding take write_job finish
work_round p = complete_round (take p) p

-- `WaitFlushed`, for a caller that is the only one to save: it returns at once, or after the round
-- that the worker then makes.
unfoldable pub wait_flushed : Persister → ℕ → Persister
unfolding work_round
wait_flushed p seq = if leb seq p.flushed_seq then p else work_round p

-- `SaveRaftState` and `WaitFlushed` in a row.
unfoldable pub save_state_and_wait : Persister → Bytes → Persister
unfolding save_raft_state wait_flushed
save_state_and_wait p bytes = let (q, seq) = save_raft_state p bytes in wait_flushed q seq

-- `Save` and `WaitFlushed` in a row.
unfoldable pub save_and_wait : Persister → Bytes → Bytes → Persister
unfolding save wait_flushed
save_and_wait p raftstate snapshot = let (q, seq) = save p raftstate snapshot in wait_flushed q seq

-- `RaftStateSize`
unfoldable pub raft_state_size : Persister → ℕ
raft_state_size p = length p.raft_state

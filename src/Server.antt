-- ===== src/Server.antt =====
-- ServerMain.cpp: a process with its Raft node, the server above it, and the thread that hands the
-- messages of the one to the other.
pub mod Feeding
pub mod Steps
pub mod Applying
pub mod Booting
pub mod Carrying
pub mod Deciding
pub mod InOrder
mod Tests
use my_kv_storage_base_raft.Common.{
  ℕ, ◌≡◌, Bool, false, ℤ, Option, none, some, List, [], ◌∷◌, ◌++◌, Bytes,
}
use my_kv_storage_base_raft.OpCoder.{Op, decode_op}
use my_kv_storage_base_raft.Raft.Types.{Result, ok, ◌>>=◌, ApplyMsg}
use my_kv_storage_base_raft.Raft.State.{Raft, Archive}
use my_kv_storage_base_raft.Raft.Persister
use my_kv_storage_base_raft.Raft.Persist.{init}
use my_kv_storage_base_raft.Raft.History.Steps.{
  Step, votes, appends, installs, elects, counts, hears, synced, starts, beats, sends, flushes,
  halts, applies, restarts,
}
use my_kv_storage_base_raft.KvServer.Types.{FeatureParser, SkipList, RequestRecord, KvServer}
use my_kv_storage_base_raft.KvServer.{
  record_request_result, wait_on, time_out_pop, head_of, tail_of,
}
use my_kv_storage_base_raft.Server.Applying.{
  collected, ApplyThread, waits, tests, stores, records, indexes, wakes, tells, apply_step,
}

abbrev pub total_servers : ℕ
total_servers = 3

pub record Process (M : Type 0) : Type 0 where
  pub node : Raft
  pub server : KvServer M

-- The constructor of `KvServer`, over the empty store.
abbrev pub new_server : {M : Type 0} → M → KvServer M
new_server empty = record {
  kvdb = empty;
  index_calls = [];
  index_built = false;
  wait_apply_ch = λ _. none;
  last_requests = [];
  commit_index_ch = λ _. none;
}

-- `main` up to the start of the threads, on the files that the process finds.
unfoldable pub boot :
    {M : Type 0} → Archive → M → ℕ → Option Bytes → Option Bytes → ℕ → Result (Process M)
boot ar empty me raft_file snapshot_file now =
    init ar total_servers me (Persister.init raft_file snapshot_file) (some []) now >>= λ node.
    ok (record { node = node; server = new_server empty })

-- A step of the node in one life of the process.
abbrev pub IsAlive : {ar : Archive} {s t : Raft} → Step ar s t → Type 0
IsAlive (restarts ch now h) = ⊥
IsAlive (votes args now reply h) = Unit {0}
IsAlive (elects now args h) = Unit {0}
IsAlive (counts reply vote_num n h) = Unit {0}
IsAlive (appends args now reply h) = Unit {0}
IsAlive (installs request) = Unit {0}
IsAlive (hears peer args reply nums n h) = Unit {0}
IsAlive (synced peer index reply nums) = Unit {0}
IsAlive (starts command now) = Unit {0}
IsAlive (beats now) = Unit {0}
IsAlive (sends now out h) = Unit {0}
IsAlive (flushes peer) = Unit {0}
IsAlive halts = Unit {0}
IsAlive (applies h) = Unit {0}

-- The messages that a step of the node pushes.
abbrev pub pushed_by : {ar : Archive} {s t : Raft} → Step ar s t → List ApplyMsg
pushed_by {s = s} (applies h) = collected s
pushed_by (restarts ch now h) = []
pushed_by (votes args now reply h) = []
pushed_by (elects now args h) = []
pushed_by (counts reply vote_num n h) = []
pushed_by (appends args now reply h) = []
pushed_by (installs request) = []
pushed_by (hears peer args reply nums n h) = []
pushed_by (synced peer index reply nums) = []
pushed_by (starts command now) = []
pushed_by (beats now) = []
pushed_by (sends now out h) = []
pushed_by (flushes peer) = []
pushed_by halts = []

-- A process with its apply thread, and what has happened in it: the messages that the node pushed,
-- those that the apply thread took, those that it tested, each with the table of requests that it
-- found at the test, and the operations that it carried out on the store.
pub record Running (M : Type 0) : Type 0 where
  pub process : Process M
  pub thread : ApplyThread
  pub pushed : List ApplyMsg
  pub taken : List ApplyMsg
  pub tested : List (ApplyMsg × List (Bytes × RequestRecord))
  pub executed : List Op

abbrev pub running : {M : Type 0} → Process M → Running M
running p = record {
  process = p;
  thread = waits;
  pushed = [];
  taken = [];
  tested = [];
  executed = [];
}

abbrev pub with_server : {M : Type 0} → Running M → KvServer M → Running M
with_server r s = record r { process = record (r.process) { server = s } }

-- The operation that the next step of the apply thread carries out on the store.
abbrev pub stored_by : ApplyThread → List Op
stored_by (stores msg op) = op ∷ []
stored_by waits = []
stored_by (tests msg op) = []
stored_by (records msg op last_value) = []
stored_by (indexes msg op) = []
stored_by (wakes msg op) = []
stored_by (tells msg op) = []

-- The message that the next step of the apply thread tests, with the table that it finds.
abbrev pub tested_by :
    ApplyThread → List (Bytes × RequestRecord) → List (ApplyMsg × List (Bytes × RequestRecord))
tested_by (tests msg op) requests = (msg, requests) ∷ []
tested_by waits requests = []
tested_by (stores msg op) requests = []
tested_by (records msg op last_value) requests = []
tested_by (indexes msg op) requests = []
tested_by (wakes msg op) requests = []
tested_by (tells msg op) requests = []

module _ {M : Type 0} (sl : SkipList M) (parser : FeatureParser) (junk : ℤ) where
  abbrev take_message : Running M → Option ApplyMsg → Option (Running M)
  take_message r none = none
  take_message r (some msg) = some (record r {
    process = record (r.process) {
      node = record (r.process.node) { apply_chan = tail_of sl r.process.node.apply_chan };
    };
    thread = tests msg (decode_op junk msg.command);
    taken = r.taken ++ msg ∷ [];
  })

  -- The wait of the apply thread for a message: `none` where the wait runs out.
  unfoldable pub apply_thread_round : Running M → Option (Running M)
  apply_thread_round r = take_message r (head_of sl r.process.node.apply_chan)

  -- A step of `Apply`.
  abbrev pub apply_goes_on : Running M → Running M
  apply_goes_on r =
      let n = apply_step sl parser r.process.server r.thread in
      record r {
        process = record (r.process) { server = n.0 };
        thread = n.1;
        tested = r.tested ++ tested_by r.thread r.process.server.last_requests;
        executed = r.executed ++ stored_by r.thread;
      }

  -- What a process comes to, a step of a thread at a time: a step of its node (`Start` among them),
  -- the apply thread taking a message or going on in `Apply`, a handler of `Get` that records any
  -- request with any value that it has read, and a handler of a write that opens the channel of an
  -- index or takes from it at the end of its wait.
  pub data Goes (ar : Archive) (p : Running M) : Running M → Type 0 where
    starts_here : Goes ar p p
    node_acts :
        {q : Running M} {t : Raft}
        → Goes ar p q
        → (step : Step ar q.process.node t) → IsAlive step
        → Goes ar p (record q {
          process = record (q.process) { node = t };
          pushed = q.pushed ++ pushed_by step;
        })
    message_taken :
        {q r : Running M}
        → Goes ar p q
        → q.thread ≡ waits
        → apply_thread_round q ≡ some r
        → Goes ar p r
    goes_on : {q : Running M} → Goes ar p q → Goes ar p (apply_goes_on q)
    get_recorded :
        {q : Running M} (op : Op) (last_value : Bytes)
        → Goes ar p q
        → Goes ar p (
            with_server q (record (q.process.server) {
              last_requests = record_request_result q.process.server.last_requests op last_value;
            }))
    wait_began :
        {q : Running M} (index : ℕ)
        → Goes ar p q
        → Goes ar p (with_server q (wait_on sl q.process.server (some index)))
    wait_ended :
        {q : Running M} (index : ℕ)
        → Goes ar p q
        → Goes ar p (with_server q (time_out_pop sl q.process.server index).0)

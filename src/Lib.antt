-- ===== src/Lib.antt =====
-- A model of a replicated key-value store: the Raft node (Raft/raft.h, Raft/Raft.cpp), the encoding
-- of its commands (KvServer/op_coder.h), the server above it (KvServer/KvServer.cpp), and the client
-- (Clerk/clerk.cpp).
--
-- A client's request becomes an entry of the leader's log (`Start`), is replicated and committed,
-- and comes back to every server as a message of the applier (`Apply`), which wakes the request.
--
-- The node is a record, `Raft` in Raft/State, with one field for each member of `class Raft` that
-- its handlers use. A critical section under `m_mtx` is one function from a state to a state: a
-- handler of a call takes the request and gives the state and the reply, a thread that makes a call
-- is split where it lets go of the lock, and what the call returned is an argument. A failed
-- `myAssert`, an access outside a vector and an archive that throws are the faults of
-- `Result` (Raft/Types).
--
-- Which file models what:
-- - OpCoder: `encodeOp` and `decodeOp`; OpCoder/Decimal: `std::to_string` and `std::stoi` on `int`.
-- - Raft/Types, Raft/State: the messages and the node.
-- - Raft/Persister: `class Persister`, its calls, a round of the I/O thread, and the wait of its one
--   caller; Raft/Persister/Steps: callers and the I/O thread as one system of steps.
-- - Raft/Log: the index arithmetic of the log and `matchLog`, `UPtodata`.
-- - Raft/Persist: `persistDate`, `readPersist`, `persist`, `init`.
-- - Raft/Vote: `RequestVote1`, `PreRequestVote1`, `doElection`, `sendRequestVote`, `preElection`.
-- - Raft/Append: `AppendEntries1`.
-- - Raft/Replicate: `sendAppendEntries` with its parts and `leaderUpdateCommitIndex`.
-- - Raft/Heartbeat, Raft/Snapshot: `doHeartBeat`, `InstallSnapshot1`, `leaderSendSnapShot`.
-- - Raft/Batch: `Start`, `addToPendingBatch`, `batchSenderLoop`, `flushPendingEntries`.
-- - Raft/Apply: `applierTicker` and the queries of a node.
-- - Raft/Pipeline: the windows of the peers and the rounds of `peerPipelineSender`; Raft/Pipeline/
--   Bounded: what a round does to the window of its peer, split where it lets go of a lock.
-- - Raft/History: the steps of a node over time, restarts included.
-- - Raft/Cluster: several nodes with the requests for votes and the answers between them. An answer
--   that comes after its candidate was started again is still counted here, which the program, whose
--   counter is gone, does not do.
-- - Raft/Exchange: such a cluster with the requests that carry entries. Nothing is assumed of a
--   snapshot that a node is sent.
-- - Raft/Range: the applied and committed indices over the same steps.
-- - Raft/Ticker: `electionTimeoutTicker` and `leaderHearBeatTicker`, in whole milliseconds; a node
--   with its clock and the thread of its election ticker, whose test of the timer and `doElection`
--   are two steps.
-- - KvServer: `Apply`, `Get`, `PutAppend`, `PutFeature` and the table of requests; KvServer/Types:
--   its state and the interface of the SkipList.
-- - KvServer/RecallEngine: the labels of the items in the vector index, over an interface of hnswlib;
--   KvServer/RecallEngine/Files: `saveIndex` and `loadIndex`.
-- - KvServer/Search: `buildIndexIfNeeded` and `Search`, on the engine that the calls of the server
--   left; KvServer/ReadIndex: the waits and questions for a commit index.
-- - Server: `main` of ServerMain.cpp, and a process with its node, its server and its apply thread;
--   Server/Applying: `Apply`, split where it lets go of a lock.
-- - Clerk: the client's `Put`, `Get`, `PutFeature` and `Search`, over the list of what its calls gave.
-- The files below each of these hold the proofs, and the Tests files the runs at concrete values.
--
-- Bounds. Terms and indices are natural numbers: the `int` of the source is taken not to overflow.
-- The fields that hold -1 or -100 are signed. The lengths of the encoding are cut to 32 bits as in
-- the source. No loop needs fuel but the printing of a number, which is given more than the number
-- has digits.
--
-- Parameters. The archive of Boost.Serialization (`Archive` in Raft/State) reads back what it wrote
-- and writes no empty text. The SkipList (`SkipList` in KvServer/Types) finds an element that was
-- inserted under its key, and the others as before; the protobuf code of a feature
-- (`FeatureParser`) reads what it wrote. The index of hnswlib (`Hnsw` in KvServer/RecallEngine) may do
-- anything, and so may its reading of a file, where `hnsw_load` in KvServer/RecallEngine/Files takes
-- the flag of the constructor that says whether deleted elements may be replaced. `std::hash` is a
-- function that tells the items in use apart. The clock is an argument.
--
-- Not modelled: the RPC layer and the SkipList, which are submodules without sources here, the
-- timeouts of the server's waits, the lookup of a server's address, and the benchmark. A save that a
-- node waits for is one round of the I/O thread on a device that writes. The processes of Server
-- leave out `Search`, and let a handler of `Get` record any request at any time. The steps of
-- Raft/History leave out `preElection`, which the program does not call, and the pipeline's sender,
-- which nothing starts.
pub mod Common
pub mod OpCoder
pub mod Raft
pub mod KvServer
pub mod Server
pub mod Clerk

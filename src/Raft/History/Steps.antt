-- ===== src/Raft/History/Steps.antt =====
-- A node over time: any handlers and rounds in any order, with any messages, replies and clocks,
-- and restarts at any point between them.
use my_kv_storage_base_raft.Common.{ℕ, ◌≡◌, Option, some, List}
use my_kv_storage_base_raft.OpCoder.{Op}
use my_kv_storage_base_raft.Raft.Types.{
  ok, RequestVoteArgs, RequestVoteReply, AppendEntriesArgs, AppendEntriesReply,
  InstallSnapshotRequest, ApplyMsg,
}
use my_kv_storage_base_raft.Raft.State.{Raft, Archive}
use my_kv_storage_base_raft.Raft.Persist.{persist_node}
use my_kv_storage_base_raft.Raft.Persist.Durable.{IsRecorded}
use my_kv_storage_base_raft.Raft.Persist.Restart.{restart}
use my_kv_storage_base_raft.Raft.Vote.{request_vote1, do_election, send_request_vote}
use my_kv_storage_base_raft.Raft.Append.{append_entries1}
use my_kv_storage_base_raft.Raft.Replicate.{send_append_entries}
use my_kv_storage_base_raft.Raft.Snapshot.{install_snapshot1, snapshot_response}
use my_kv_storage_base_raft.Raft.Heartbeat.{do_heart_beat}
use my_kv_storage_base_raft.Raft.Batch.{
  start, batch_sender_round, stop_batch_sender_thread, flush_pending_entries,
}
use my_kv_storage_base_raft.Raft.Apply.{applier_round}
use my_kv_storage_base_raft.Raft.History.Keeps.{
  Keeps, Same-Keeps, unsaved-Keeps, Keeps-trans, Keeps-refl,
}
use my_kv_storage_base_raft.Raft.History.Handlers.{request_vote1-Keeps, append_entries1-Keeps}
use my_kv_storage_base_raft.Raft.History.Leading.{
  do_election-Keeps, send_request_vote-Keeps, send_append_entries-Keeps, snapshot_response-Keeps,
  install_snapshot1-Keeps, start-Keeps,
}
use my_kv_storage_base_raft.Raft.History.Quiet.{
  do_heart_beat-Same, batch_sender_round-Same, stop_batch_sender_thread-Same,
  flush_pending_entries-Same, applier_round-Same,
}
use my_kv_storage_base_raft.Raft.History.Restarting.{restart-Keeps}

-- One step of a node. A handler that ends in a fault takes no step: the process is gone, and what
-- follows is a restart.
pub data Step (ar : Archive) : Raft → Raft → Type 0 where
  votes :
      {s t : Raft} (args : RequestVoteArgs) (now : ℕ) (reply : RequestVoteReply)
      → request_vote1 ar s args now ≡ ok (t, reply)
      → Step ar s t
  appends :
      {s t : Raft} (args : AppendEntriesArgs) (now : ℕ) (reply : AppendEntriesReply)
      → append_entries1 ar s args now ≡ ok (t, reply)
      → Step ar s t
  installs :
      {s : Raft} (request : InstallSnapshotRequest) → Step ar s (install_snapshot1 ar s request).0
  elects :
      {s t : Raft} (now : ℕ) (args : RequestVoteArgs)
      → do_election ar s now ≡ some (t, args)
      → Step ar s t
  counts :
      {s t : Raft} (reply : Option RequestVoteReply) (vote_num n : ℕ)
      → send_request_vote ar s reply vote_num ≡ ok (t, n)
      → Step ar s t
  hears :
      {s t : Raft} (peer : ℕ) (args : AppendEntriesArgs) (reply : Option AppendEntriesReply)
      (nums n : ℕ)
      → send_append_entries ar s peer args reply nums ≡ ok (t, n)
      → Step ar s t
  synced :
      {s : Raft} (peer index : ℕ) (reply : Option ℕ) (nums : ℕ)
      → Step ar s (snapshot_response ar s peer index reply nums).0
  starts : {s : Raft} (command : Op) (now : ℕ) → Step ar s (start ar s command now).0
  beats : {s : Raft} (now : ℕ) → Step ar s (do_heart_beat s now).0
  sends :
      {s t : Raft} (now : ℕ) (out : List (ℕ × AppendEntriesArgs))
      → batch_sender_round s now ≡ some (t, out)
      → Step ar s t
  flushes : {s : Raft} (peer : ℕ) → Step ar s (flush_pending_entries s peer).0
  halts : {s : Raft} → Step ar s (stop_batch_sender_thread s)
  applies : {s t : Raft} → applier_round s ≡ ok t → Step ar s t
  restarts :
      {s t : Raft} (ch : Option (List ApplyMsg)) (now : ℕ)
      → restart ar s ch now ≡ ok t
      → Step ar s t

pub data Steps (ar : Archive) : Raft → Raft → Type 0 where
  done : {s : Raft} → Steps ar s s
  then : {s t u : Raft} → Step ar s t → Steps ar t u → Steps ar s u

pub Step-Keeps : (ar : Archive) {s t : Raft} → IsRecorded ar s → Step ar s t → Keeps ar s t
unfolding persist_node
Step-Keeps ar {s} d (votes args now reply h) = request_vote1-Keeps ar s d args now h
Step-Keeps ar {s} d (appends args now reply h) = append_entries1-Keeps ar s d args now h
Step-Keeps ar {s} d (installs request) = install_snapshot1-Keeps ar s d request
Step-Keeps ar {s} d (elects now args h) = do_election-Keeps ar s d now h
Step-Keeps ar {s} d (counts reply vote_num n h) = send_request_vote-Keeps ar s d reply vote_num h
Step-Keeps ar {s} d (hears peer args reply nums n h) =
    send_append_entries-Keeps ar s d peer args reply nums h
Step-Keeps ar {s} d (synced peer index reply nums) =
    snapshot_response-Keeps ar s d peer index reply nums
Step-Keeps ar {s} d (starts command now) = start-Keeps ar s d command now
Step-Keeps ar {s} d (beats now) = Same-Keeps ar s d _ (do_heart_beat-Same s now)
Step-Keeps ar {s} {t} d (sends now out h) = Same-Keeps ar s d t (batch_sender_round-Same s now h)
Step-Keeps ar {s} d (flushes peer) = Same-Keeps ar s d _ (flush_pending_entries-Same s peer)
Step-Keeps ar {s} d halts = Same-Keeps ar s d _ (stop_batch_sender_thread-Same s)
Step-Keeps ar {s} {t} d (applies h) =
    let u = applier_round-Same s h in unsaved-Keeps ar s d t u.node u.persister
Step-Keeps ar {s} d (restarts ch now h) = restart-Keeps ar s d ch now h

-- After any steps of a node whose file was up to date, or that had nothing to save yet, the same
-- holds again, its term has not fallen, and a vote it gave in the term it is still in has not
-- changed.
pub Steps-Keeps : (ar : Archive) {s t : Raft} → IsRecorded ar s → Steps ar s t → Keeps ar s t
Steps-Keeps ar {s} d done = Keeps-refl ar s d
Steps-Keeps ar {s} {t} d (then {t = m} step steps) =
    let k = Step-Keeps ar d step in Keeps-trans ar s m t k (Steps-Keeps ar k.durable steps)

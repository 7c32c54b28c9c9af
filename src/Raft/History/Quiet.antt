-- ===== src/Raft/History/Quiet.antt =====
-- The rounds of the background threads leave alone what the file holds.
use my_kv_storage_base_raft.Common.{
  ℕ, ◌≡◌, refl, ◌-◌, some, List, arith, zero, suc, [], ◌∷◌, inl, inr, modify,
}
use my_kv_storage_base_raft.Raft.Types.{
  ok, >>=-returns, AppendEntriesArgs, LogEntry, PendingEntries, Waits,
}
use my_kv_storage_base_raft.Raft.State.{Raft}
use my_kv_storage_base_raft.Raft.Persist.{persist_node}
use my_kv_storage_base_raft.Raft.Heartbeat.{do_heart_beat}
use my_kv_storage_base_raft.Raft.Batch.{
  batch_sender_round, flush_pending_entries, collect, stop_batch_sender_thread,
}
use my_kv_storage_base_raft.Raft.Apply.{applier_round, apply_msgs}
use my_kv_storage_base_raft.Raft.History.Keeps.{Same}

pub do_heart_beat-Same : (s : Raft) (now : ℕ) → Same s (do_heart_beat s now).0
unfolding do_heart_beat persist_node
do_heart_beat-Same s now = ground arith

collect-Waits :
    (me now i : ℕ) (ps : List PendingEntries) (e : LogEntry)
    → Waits (collect me now i ps).0 e
    → Waits ps e
unfolding collect
collect-Waits me now i [] e w = w
collect-Waits me now i (p ∷ ps) e w = ground (arith, collect-Waits me now (suc i) ps e)

flush-Waits :
    (ps : List PendingEntries) (peer : ℕ) (e : LogEntry)
    → Waits (modify ps peer (λ (p : PendingEntries). record p { entries = [] })) e
    → Waits ps e
flush-Waits [] peer e w = w
flush-Waits (p ∷ ps) zero e (inl w) = absurd w
flush-Waits (p ∷ ps) zero e (inr w) = inr w
flush-Waits (p ∷ ps) (suc peer) e (inl w) = inl w
flush-Waits (p ∷ ps) (suc peer) e (inr w) = inr (flush-Waits ps peer e w)

pub batch_sender_round-Same :
    (s : Raft) (now : ℕ) {t : Raft} {out : List (ℕ × AppendEntriesArgs)}
    → batch_sender_round s now ≡ some (t, out)
    → Same s t
unfolding batch_sender_round persist_node
batch_sender_round-Same s now {t} h = record {
  node = ground arith;
  persister = ground arith;
  me = ground arith;
  peers = ground arith;
  status = ground arith;
  logs = ground arith;
  timer = ground arith;
  applied = ground arith;
  chan = ground arith;
  waits = λ e w.
      let left : t.pending_entries ≡ (collect s.me now 0 s.pending_entries).0 = ground arith in
      collect-Waits s.me now 0 s.pending_entries e (rw left at w);
}

pub flush_pending_entries-Same : (s : Raft) (peer : ℕ) → Same s (flush_pending_entries s peer).0
unfolding flush_pending_entries persist_node
flush_pending_entries-Same s peer = record {
  node = refl;
  persister = refl;
  me = refl;
  peers = refl;
  status = refl;
  logs = refl;
  timer = refl;
  applied = refl;
  chan = refl;
  waits = λ e h. flush-Waits s.pending_entries peer e h;
}

-- The node `t` with what the state machine of `s` was given.
abbrev pub unfed : Raft → Raft → Raft
unfed s t = record t { last_applied = s.last_applied; apply_chan = s.apply_chan }

pub applier_round-Same : (s : Raft) {t : Raft} → applier_round s ≡ ok t → Same s (unfed s t)
unfolding applier_round persist_node
applier_round-Same s h =
    let (msgs, _, e) =
      >>=-returns (apply_msgs s s.last_applied (s.commit_index - s.last_applied)) _ h in
    ground arith

pub stop_batch_sender_thread-Same : (s : Raft) → Same s (stop_batch_sender_thread s)
unfolding stop_batch_sender_thread persist_node
stop_batch_sender_thread-Same s = record {
  node = refl;
  persister = refl;
  me = refl;
  peers = refl;
  status = refl;
  logs = refl;
  timer = refl;
  applied = refl;
  chan = refl;
  waits = λ e h. h;
}

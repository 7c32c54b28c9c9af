-- ===== src/Raft/Exchange/Arrivals.antt =====
-- Every step of a node: where its entries come from, and what it sends.
use my_kv_storage_base_raft.Common.{
  ℕ, ◌+◌, refl, ◌⊎◌, Bool-cases, ◌≡◌, inl, inr, arith, Among, List,
}
use my_kv_storage_base_raft.Raft.Types.{LogEntry, AppendEntriesArgs, Waits, leader, is_leader}
use my_kv_storage_base_raft.OpCoder.{Op}
use my_kv_storage_base_raft.Raft.Log.{get_last_log_index}
use my_kv_storage_base_raft.Raft.Batch.{start, new_entry}
use my_kv_storage_base_raft.Raft.State.{Raft, Archive}
use my_kv_storage_base_raft.Raft.Persist.Durable.{IsRecorded}
use my_kv_storage_base_raft.Raft.Vote.Decision.{request_vote1-eq-voted}
use my_kv_storage_base_raft.Raft.Vote.Winning.{send_request_vote-Outcome}
use my_kv_storage_base_raft.Raft.History.Handlers.{voted-eq-persist}
use my_kv_storage_base_raft.Raft.History.Settles.{
  send_append_entries-Settles, snapshot_response-Settles,
}
use my_kv_storage_base_raft.Raft.History.Quiet.{
  do_heart_beat-Same, batch_sender_round-Same, flush_pending_entries-Same, applier_round-Same,
  unfed, stop_batch_sender_thread-Same,
}
use my_kv_storage_base_raft.Raft.History.Steps.{
  Step, votes, appends, installs, elects, counts, hears, synced, starts, beats, sends, flushes,
  halts, applies, restarts,
}
use my_kv_storage_base_raft.Raft.Exchange.{Delivers, sent_by}
use my_kv_storage_base_raft.Raft.Exchange.Origin.{
  Grows, Same-Grows, Settles-Grows, request_vote1-Grows, do_election-Grows, Outcome-Grows,
  install_snapshot1-Grows, append_entries1-Grows,
}
use my_kv_storage_base_raft.Raft.Exchange.Starting.{Started, start-Grows, start-last, restart-Grows}
use my_kv_storage_base_raft.Raft.Exchange.Sending.{
  batch_sender_round-Waits, flush_pending_entries-Waits, do_heart_beat-empty,
}

-- The entries that a step brings to a node: those of a message, or the new one of a leader.
abbrev pub Arrives : {ar : Archive} {s t : Raft} → Step ar s t → LogEntry → Type 0
Arrives (votes args now reply h) e = ⊥
Arrives (elects now args h) e = ⊥
Arrives (counts reply vote_num n h) e = ⊥
Arrives (appends args now reply h) e = Among args.entries e
Arrives (installs request) e = ⊥
Arrives (hears peer args reply nums n h) e = ⊥
Arrives (synced peer index reply nums) e = ⊥
Arrives {s = s} (starts command now) e = Started s command e
Arrives (beats now) e = ⊥
Arrives (sends now out h) e = ⊥
Arrives (flushes peer) e = ⊥
Arrives halts e = ⊥
Arrives (applies h) e = ⊥
Arrives (restarts ch now h) e = ⊥

pub Step-Grows :
    (ar : Archive) (sent : List AppendEntriesArgs) {s t : Raft}
    → IsRecorded ar s
    → (step : Step ar s t) → Delivers sent step
    → Grows (Arrives step) s t
unfolding get_last_log_index
Step-Grows ar sent {s} {t} d (votes args now reply h) k =
    request_vote1-Grows ar (λ _. ⊥) s t args now
      (ground (arith, request_vote1-eq-voted ar s args now, voted-eq-persist ar s args now))
Step-Grows ar sent {s} {t} d (elects now args h) k = do_election-Grows ar (λ _. ⊥) s t now args h
Step-Grows ar sent {s} {t} d (counts reply vote_num n h) k =
    Outcome-Grows ar (λ _. ⊥) s t reply vote_num n
      (send_request_vote-Outcome ar s t reply vote_num n h)
Step-Grows ar sent {s} d (appends args now reply h) k = append_entries1-Grows ar s args now h
Step-Grows ar sent {s} d (installs request) k = install_snapshot1-Grows ar s (λ _. ⊥) request
Step-Grows ar sent {s} {t} d (hears peer args reply nums n h) k =
    Settles-Grows ar (λ _. ⊥) s t (send_append_entries-Settles ar s peer args reply nums h)
Step-Grows ar sent {s} d (synced peer index reply nums) k =
    Settles-Grows ar (λ _. ⊥) s _ (snapshot_response-Settles ar s peer index reply nums)
Step-Grows ar sent {s} d (starts command now) k = start-Grows ar s command now
Step-Grows ar sent {s} d (beats now) k = Same-Grows (λ _. ⊥) s _ (do_heart_beat-Same s now)
Step-Grows ar sent {s} {t} d (sends now out h) k =
    Same-Grows (λ _. ⊥) s t (batch_sender_round-Same s now h)
Step-Grows ar sent {s} d (flushes peer) k =
    Same-Grows (λ _. ⊥) s _ (flush_pending_entries-Same s peer)
Step-Grows ar sent {s} d halts k = Same-Grows (λ _. ⊥) s _ (stop_batch_sender_thread-Same s)
Step-Grows ar sent {s} {t} d (applies h) k =
    let u = Same-Grows (λ _. ⊥) s (unfed s t) (applier_round-Same s h) in
    record { logs = u.logs; waits = u.waits; last = u.last }
Step-Grows ar sent {s} d (restarts ch now h) k = restart-Grows ar (λ _. ⊥) s ch now d k h

-- The entries that a step sends waited in the node's buffers.
pub sent_by-Waits :
    (ar : Archive) {s t : Raft} (step : Step ar s t) (m : AppendEntriesArgs) (e : LogEntry)
    → Among (sent_by step) m
    → Among m.entries e
    → Waits s.pending_entries e
sent_by-Waits ar (votes args now reply h) m e there inside = absurd there
sent_by-Waits ar (appends args now reply h) m e there inside = absurd there
sent_by-Waits ar (installs request) m e there inside = absurd there
sent_by-Waits ar (elects now args h) m e there inside = absurd there
sent_by-Waits ar (counts reply vote_num n h) m e there inside = absurd there
sent_by-Waits ar (hears peer args reply nums n h) m e there inside = absurd there
sent_by-Waits ar (synced peer index reply nums) m e there inside = absurd there
sent_by-Waits ar (starts command now) m e there inside = absurd there
sent_by-Waits ar halts m e there inside = absurd there
sent_by-Waits ar (applies h) m e there inside = absurd there
sent_by-Waits ar (restarts ch now h) m e there inside = absurd there
sent_by-Waits ar {s} (beats now) m e there inside =
    absurd (rw (do_heart_beat-empty s now m there) at inside)
sent_by-Waits ar {s} (sends now out h) m e there inside =
    batch_sender_round-Waits s now h m e there inside
sent_by-Waits ar {s} (flushes peer) m e there inside =
    flush_pending_entries-Waits s peer m e there inside

-- What a leader's `Start` does to the entries: there is one new one, with the last index.
pub record Makes (s t : Raft) (arrives : LogEntry → Type 0) : Type 0 where
  pub entry : LogEntry
  pub leads : s.status ≡ leader
  pub in_term : entry.log_term ≡ s.current_term
  pub behind : entry.log_index ≡ get_last_log_index s + 1
  pub is_last : entry.log_index ≡ get_last_log_index t
  pub only : (e : LogEntry) → arrives e → e ≡ entry

-- What arrives came in a message that was sent.
abbrev pub Received : List AppendEntriesArgs → (LogEntry → Type 0) → Type 0
Received sent arrives =
    (e : LogEntry) → arrives e → (m : AppendEntriesArgs) × Among sent m × Among m.entries e

start-Makes :
    (ar : Archive) (s : Raft) (command : Op) (now : ℕ)
    → s.status ≡ leader
    → Makes s (start ar s command now).0 (Started s command)
unfolding new_entry
start-Makes ar s command now lead = record {
  entry = new_entry s command;
  leads = lead;
  in_term = refl;
  behind = refl;
  is_last = start-last ar s command now lead;
  only = λ e new. new.1;
}

pub Arrives-cases :
    (ar : Archive) (sent : List AppendEntriesArgs) {s t : Raft} (step : Step ar s t)
    → Delivers sent step
    → Makes s t (Arrives step) ⊎ Received sent (Arrives step)
Arrives-cases ar sent (appends args now reply h) k = inr (λ e m. (args, k, m))
Arrives-cases ar sent {s} (starts command now) k = elim (Bool-cases (is_leader s.status)) [
  | inl lead ↦ inl (start-Makes ar s command now (ground arith))
  | inr other ↦ inr (λ e new. absurd (ground (arith, new.0)))
]
Arrives-cases ar sent (votes args now reply h) k = inr (λ e none. absurd none)
Arrives-cases ar sent (installs request) k = inr (λ e none. absurd none)
Arrives-cases ar sent (elects now args h) k = inr (λ e none. absurd none)
Arrives-cases ar sent (counts reply vote_num n h) k = inr (λ e none. absurd none)
Arrives-cases ar sent (hears peer args reply nums n h) k = inr (λ e none. absurd none)
Arrives-cases ar sent (synced peer index reply nums) k = inr (λ e none. absurd none)
Arrives-cases ar sent (beats now) k = inr (λ e none. absurd none)
Arrives-cases ar sent (sends now out h) k = inr (λ e none. absurd none)
Arrives-cases ar sent (flushes peer) k = inr (λ e none. absurd none)
Arrives-cases ar sent halts k = inr (λ e none. absurd none)
Arrives-cases ar sent (applies h) k = inr (λ e none. absurd none)
Arrives-cases ar sent (restarts ch now h) k = inr (λ e none. absurd none)

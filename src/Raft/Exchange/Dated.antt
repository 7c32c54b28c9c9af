-- ===== src/Raft/Exchange/Dated.antt =====
-- The terms of what a step brings to a node and of what it sends.
use my_kv_storage_base_raft.Common.{
  ℕ, ◌≤◌, ◌≡◌, ap, inl, inr, Among, List, [], ◌∷◌, arith, ltb, Bool-cases, some,
}
use my_kv_storage_base_raft.OpCoder.{Op}
use my_kv_storage_base_raft.Raft.Types.{
  ok, LogEntry, AppendEntriesArgs, AppendEntriesReply, is_leader,
}
use my_kv_storage_base_raft.Raft.State.{Raft, Archive}
use my_kv_storage_base_raft.Raft.Persist.{persist}
use my_kv_storage_base_raft.Raft.Append.{append_entries1}
use my_kv_storage_base_raft.Raft.Append.Accept.{entered}
use my_kv_storage_base_raft.Raft.Batch.{
  start, new_entry, add_to_pending_batch, batch_args, batch_requests, batch_sender_round, collect,
  flush_pending_entries,
}
use my_kv_storage_base_raft.Raft.History.Handlers.{
  append_current-Saves, append_entries1-later, append_entries1-stale,
}
use my_kv_storage_base_raft.Raft.History.Steps.{
  Step, votes, appends, installs, elects, counts, hears, synced, starts, beats, sends, flushes,
  halts, applies, restarts,
}
use my_kv_storage_base_raft.Raft.Exchange.{Delivers, sent_by, if_any}
use my_kv_storage_base_raft.Raft.Exchange.Sending.{do_heart_beat-empty, requests_in}
use my_kv_storage_base_raft.Raft.Exchange.Arrivals.{Arrives}

-- The entries of a request are of no later term than the request.
abbrev pub AllTermed : List AppendEntriesArgs → Type 0
AllTermed sent =
    (m : AppendEntriesArgs) (e : LogEntry) → Among sent m → Among m.entries e → e.log_term ≤ m.term

append_entries1-term :
    (ar : Archive) (s : Raft) (args : AppendEntriesArgs) (now : ℕ) {t : Raft}
    {reply : AppendEntriesReply}
    → append_entries1 ar s args now ≡ ok (t, reply)
    → args.term ≤ t.current_term
unfolding persist
append_entries1-term ar s args now {t} h = elim (Bool-cases (ltb args.term s.current_term)) [
  | inl stale ↦
      let same = append_entries1-stale ar s args now stale h in
      ground (arith, ap (λ (r : Raft). r.current_term) same)
  | inr later ↦
      let a =
        append_current-Saves ar (entered s args now) args
          (rw (append_entries1-later ar s args now later) at h) in
      ground (arith, ap (λ (r : Raft). r.current_term) a.is_saved, a.term)
]

start-term :
    (ar : Archive) (s : Raft) (command : Op) (now : ℕ)
    → (new_entry s command).log_term ≤ (start ar s command now).0.current_term
unfolding start new_entry add_to_pending_batch persist
start-term ar s command now = ground arith

-- What arrives is of no later term than the node after the step.
pub Arrives-term :
    (ar : Archive) (sent : List AppendEntriesArgs) {s t : Raft} (step : Step ar s t) (e : LogEntry)
    → AllTermed sent
    → Delivers sent step
    → Arrives step e
    → e.log_term ≤ t.current_term
Arrives-term ar sent {s} {t} (appends args now reply h) e all k here =
    omega (arith, all args e k here, append_entries1-term ar s args now h)
Arrives-term ar sent {s} (starts command now) e all k here =
    let low = start-term ar s command now in
    omega (arith, low, ap (λ (l : LogEntry). l.log_term) here.1)
Arrives-term ar sent (votes args now reply h) e all k here = absurd here
Arrives-term ar sent (installs request) e all k here = absurd here
Arrives-term ar sent (elects now args h) e all k here = absurd here
Arrives-term ar sent (counts reply vote_num n h) e all k here = absurd here
Arrives-term ar sent (hears peer args reply nums n h) e all k here = absurd here
Arrives-term ar sent (synced peer index reply nums) e all k here = absurd here
Arrives-term ar sent (beats now) e all k here = absurd here
Arrives-term ar sent (sends now out h) e all k here = absurd here
Arrives-term ar sent (flushes peer) e all k here = absurd here
Arrives-term ar sent halts e all k here = absurd here
Arrives-term ar sent (applies h) e all k here = absurd here
Arrives-term ar sent (restarts ch now h) e all k here = absurd here

batch_args-term :
    (s : Raft) (entries : List LogEntry) (m : AppendEntriesArgs)
    → Among (if_any (batch_args s entries)) m
    → m.term ≡ s.current_term
unfolding batch_args
batch_args-term s [] m h = absurd h
batch_args-term s (e ∷ es) m (inl h) = ap (λ (a : AppendEntriesArgs). a.term) h
batch_args-term s (e ∷ es) m (inr h) = absurd h

batch_requests-term :
    (s : Raft) (batches : List (ℕ × List LogEntry)) (m : AppendEntriesArgs)
    → Among (requests_in (batch_requests s batches)) m
    → m.term ≡ s.current_term
unfolding batch_requests batch_args
batch_requests-term s [] m h = absurd h
batch_requests-term s ((peer, []) ∷ rest) m h = elim (Bool-cases (is_leader s.status)) [
  | inl lead ↦ batch_requests-term s rest m (rw lead at h)
  | inr other ↦ batch_requests-term s rest m (rw other at h)
]
batch_requests-term s ((peer, f ∷ fs) ∷ rest) m h = elim (Bool-cases (is_leader s.status)) [
  | inr other ↦ batch_requests-term s rest m (rw other at h)
  | inl lead ↦ elim (rw lead at h) [
    | inl first ↦ ap (λ (a : AppendEntriesArgs). a.term) first
    | inr later ↦ batch_requests-term s rest m later
  ]
]

batch_sender_round-term :
    (s : Raft) (now : ℕ) {t : Raft} {out : List (ℕ × AppendEntriesArgs)} (m : AppendEntriesArgs)
    → batch_sender_round s now ≡ some (t, out)
    → Among (requests_in out) m
    → m.term ≡ s.current_term
unfolding batch_sender_round
batch_sender_round-term s now {t} {out} m h there =
    let sent : out ≡ batch_requests s (collect s.me now 0 s.pending_entries).1 = ground arith in
    batch_requests-term s (collect s.me now 0 s.pending_entries).1 m (rw sent at there)

flush_pending_entries-term :
    (s : Raft) (peer : ℕ) (m : AppendEntriesArgs)
    → Among (if_any (flush_pending_entries s peer).1) m
    → m.term ≡ s.current_term
unfolding flush_pending_entries
flush_pending_entries-term s peer m h = batch_args-term s _ m h

-- A request that carries entries is of the term of its sender.
pub sent_by-term :
    (ar : Archive) {s t : Raft} (step : Step ar s t) (m : AppendEntriesArgs) (e : LogEntry)
    → Among (sent_by step) m
    → Among m.entries e
    → m.term ≡ s.current_term
sent_by-term ar {s} (sends now out h) m e there inside = batch_sender_round-term s now m h there
sent_by-term ar {s} (flushes peer) m e there inside = flush_pending_entries-term s peer m there
sent_by-term ar {s} (beats now) m e there inside =
    absurd (rw (do_heart_beat-empty s now m there) at inside)
sent_by-term ar (votes args now reply h) m e there inside = absurd there
sent_by-term ar (appends args now reply h) m e there inside = absurd there
sent_by-term ar (installs request) m e there inside = absurd there
sent_by-term ar (elects now args h) m e there inside = absurd there
sent_by-term ar (counts reply vote_num n h) m e there inside = absurd there
sent_by-term ar (hears peer args reply nums n h) m e there inside = absurd there
sent_by-term ar (synced peer index reply nums) m e there inside = absurd there
sent_by-term ar (starts command now) m e there inside = absurd there
sent_by-term ar halts m e there inside = absurd there
sent_by-term ar (applies h) m e there inside = absurd there
sent_by-term ar (restarts ch now h) m e there inside = absurd there

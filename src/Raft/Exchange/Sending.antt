-- ===== src/Raft/Exchange/Sending.antt =====
-- Where the entries of the requests that a node sends come from.
use my_kv_storage_base_raft.Common.{
  ℕ, suc, zero, ◌≡◌, ◌⊎◌, inl, inr, Bool-cases, Among, some, List, [], ◌∷◌, map, arith, get_elem?,
  ap,
}
use my_kv_storage_base_raft.Raft.Types.{
  LogEntry, AppendEntriesArgs, PendingEntries, Waits, is_leader,
}
use my_kv_storage_base_raft.Raft.State.{Raft}
use my_kv_storage_base_raft.Raft.Heartbeat.{
  heart_beats, do_heart_beat, message_for, heart_beat_args,
}
use my_kv_storage_base_raft.Raft.Batch.{
  batch_args, batch_requests, collect, batch_sender_round, entries_of, flush_pending_entries,
}
use my_kv_storage_base_raft.Raft.Exchange.{appends_of, if_any}

-- The entry is in one of the batches.
abbrev Taken : List (ℕ × List LogEntry) → LogEntry → Type 0
Taken [] e = ⊥
Taken ((peer, entries) ∷ rest) e = Among entries e ⊎ Taken rest e

collect-Taken :
    (me now i : ℕ) (ps : List PendingEntries) (e : LogEntry)
    → Taken (collect me now i ps).1 e
    → Waits ps e
unfolding collect
collect-Taken me now i [] e m = m
collect-Taken me now i (p ∷ ps) e m = ground (arith, collect-Taken me now (suc i) ps e)

-- A request carries the entries of its batch.
batch_args-entries :
    (s : Raft) (entries : List LogEntry) (m : AppendEntriesArgs)
    → Among (if_any (batch_args s entries)) m
    → m.entries ≡ entries
unfolding batch_args
batch_args-entries s [] m h = absurd h
batch_args-entries s (e ∷ es) m (inl h) = ap (λ (a : AppendEntriesArgs). a.entries) h
batch_args-entries s (e ∷ es) m (inr h) = absurd h

abbrev pub requests_in : List (ℕ × AppendEntriesArgs) → List AppendEntriesArgs
requests_in out = map (λ (m : ℕ × AppendEntriesArgs). m.1) out

batch_requests-Taken :
    (s : Raft) (batches : List (ℕ × List LogEntry)) (m : AppendEntriesArgs) (e : LogEntry)
    → Among (requests_in (batch_requests s batches)) m
    → Among m.entries e
    → Taken batches e
unfolding batch_requests batch_args
batch_requests-Taken s [] m e h k = h
batch_requests-Taken s ((peer, []) ∷ rest) m e h k = elim (Bool-cases (is_leader s.status)) [
  | inl lead ↦ inr (batch_requests-Taken s rest m e (rw lead at h) k)
  | inr other ↦ inr (batch_requests-Taken s rest m e (rw other at h) k)
]
batch_requests-Taken s ((peer, f ∷ fs) ∷ rest) m e h k = elim (Bool-cases (is_leader s.status)) [
  | inr other ↦ inr (batch_requests-Taken s rest m e (rw other at h) k)
  | inl lead ↦ elim (rw lead at h) [
    | inl first ↦ inl (rw (ap (λ (a : AppendEntriesArgs). a.entries) first) at k)
    | inr later ↦ inr (batch_requests-Taken s rest m e later k)
  ]
]

pub batch_sender_round-Waits :
    (s : Raft) (now : ℕ) {t : Raft} {out : List (ℕ × AppendEntriesArgs)}
    → batch_sender_round s now ≡ some (t, out)
    → (m : AppendEntriesArgs) (e : LogEntry) → Among (requests_in out) m
    → Among m.entries e
    → Waits s.pending_entries e
unfolding batch_sender_round
batch_sender_round-Waits s now {t} {out} h m e there inside =
    let taken = (collect s.me now 0 s.pending_entries).1 in
    let sent : out ≡ batch_requests s taken = ground arith in
    collect-Taken s.me now 0 s.pending_entries e
      (batch_requests-Taken s taken m e (rw sent at there) inside)

buffer-Waits :
    (ps : List PendingEntries) (peer : ℕ) (e : LogEntry)
    → Among (entries_of (get_elem? ps peer)) e
    → Waits ps e
buffer-Waits [] peer e m = absurd m
buffer-Waits (p ∷ ps) zero e m = inl m
buffer-Waits (p ∷ ps) (suc peer) e m = inr (buffer-Waits ps peer e m)

pub flush_pending_entries-Waits :
    (s : Raft) (peer : ℕ) (m : AppendEntriesArgs) (e : LogEntry)
    → Among (if_any (flush_pending_entries s peer).1) m
    → Among m.entries e
    → Waits s.pending_entries e
unfolding flush_pending_entries
flush_pending_entries-Waits s peer m e there inside =
    buffer-Waits s.pending_entries peer e
      (rw (batch_args-entries s (entries_of (get_elem? s.pending_entries peer)) m there) at inside)

heart_beats-empty :
    (s : Raft) (i : ℕ) (nexts : List ℕ) (m : AppendEntriesArgs)
    → Among (appends_of (heart_beats s i nexts).1) m
    → m.entries ≡ []
unfolding heart_beats message_for heart_beat_args
heart_beats-empty s i [] m h = absurd h
heart_beats-empty s i (next ∷ nexts) m h = ground (arith, heart_beats-empty s (suc i) nexts m)

-- A heartbeat carries no entries.
pub do_heart_beat-empty :
    (s : Raft) (now : ℕ) (m : AppendEntriesArgs)
    → Among (appends_of (do_heart_beat s now).1) m
    → m.entries ≡ []
unfolding do_heart_beat
do_heart_beat-empty s now m h = elim (Bool-cases (is_leader s.status)) [
  | inl lead ↦ heart_beats-empty s 0 s.next_index m (rw lead at h)
  | inr other ↦ absurd (rw other at h)
]

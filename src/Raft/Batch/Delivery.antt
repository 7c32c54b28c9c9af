-- ===== src/Raft/Batch/Delivery.antt =====
-- From a command to the requests that carry it.
use mathlib.Core.List.{append-nil}
use my_kv_storage_base_raft.Common.{
  ℕ, zero, suc, ◌+◌, ◌<◌, ◌≡◌, refl, ◌≢◌, ◌⊎◌, inl, ℤ, some, List, [], ◌∷◌, ◌++◌, arith,
  length-append, ◌==◌, length, if◌then◌else◌,
}
use my_kv_storage_base_raft.OpCoder.{Op, decode_op}
use my_kv_storage_base_raft.OpCoder.RoundTrip.{IsCodable, decode_op-encode_op}
use my_kv_storage_base_raft.Raft.Types.{LogEntry, PendingEntries, leader}
use my_kv_storage_base_raft.Raft.State.{Raft, Archive}
use my_kv_storage_base_raft.Raft.Log.{get_last_log_index}
use my_kv_storage_base_raft.Raft.Log.Shape.{IsIndexed, IndexedFrom-append}
use my_kv_storage_base_raft.Raft.Persist.{persist}
use my_kv_storage_base_raft.Raft.Batch.{
  add_to_each, add_to_pending_batch, new_entry, start, collect,
}

-- The entries that wait for a peer.
abbrev pub waiting : List PendingEntries → ℕ → List LogEntry
waiting [] i = []
waiting (p ∷ ps) zero = p.entries
waiting (p ∷ ps) (suc i) = waiting ps i

waiting-add_to_each :
    (me : ℕ) (entry : LogEntry) (now from i : ℕ) (ps : List PendingEntries)
    → i < length ps
    → me ≢ from + i
    → waiting (add_to_each me entry now from ps) i ≡ waiting ps i ++ entry ∷ []
unfolding add_to_each
waiting-add_to_each me entry now from i [] lt ne = absurd (omega arith)
waiting-add_to_each me entry now from zero (p ∷ ps) lt ne = ground arith
waiting-add_to_each me entry now from (suc i) (p ∷ ps) lt ne =
    waiting-add_to_each me entry now (suc from) i ps (omega arith) (λ e. ne (omega arith))

-- What a leader's `Start` does with a command.
pub record Accepts (junk : ℤ) (command : Op) (s t : Raft) (index : ℕ) : Type 0 where
  pub entry : LogEntry
  pub appended : t.logs ≡ s.logs ++ entry ∷ []
  pub is_last : index ≡ get_last_log_index t
  pub in_place : entry.log_index ≡ index
  pub in_term : entry.log_term ≡ s.current_term
  pub indexed : IsIndexed t
  pub readable : decode_op junk entry.command ≡ command
  pub queued :
      (peer : ℕ)
      → peer < length s.pending_entries
      → peer ≢ s.me
      → waiting t.pending_entries peer ≡ waiting s.pending_entries peer ++ entry ∷ []

-- `Start` on a leader whose entries carry consecutive indices appends an entry for the command in
-- the next place and the current term, from which the command can be decoded, answers with its
-- index, and puts the same entry last in the buffer of every other peer. The command can be encoded.
pub start-Accepts :
    (ar : Archive) (s : Raft) (command : Op) (junk : ℤ) (now : ℕ)
    → s.status ≡ leader
    → IsIndexed s
    → IsCodable command
    → (index : ℕ) × ((start ar s command now).1 ≡ some index)
      × Accepts junk command s (start ar s command now).0 index
unfolding start new_entry add_to_pending_batch persist get_last_log_index
start-Accepts ar s command junk now lead h c = rw lead (
  get_last_log_index s + 1,
  refl,
  record {
    entry = new_entry s command;
    appended = refl;
    is_last = omega (arith, length-append s.logs (new_entry s command ∷ []));
    in_place = refl;
    in_term = refl;
    indexed =
        IndexedFrom-append s.last_snapshot_include_index s.logs (new_entry s command ∷ []) h
          (omega arith, tt);
    readable = decode_op-encode_op junk command c;
    queued = λ peer lt ne.
        waiting-add_to_each s.me (new_entry s command) now 0 peer s.pending_entries lt
          (λ e. ne (omega arith));
  },
)

-- What one round takes for a peer.
abbrev pub taken_for : ℕ → List (ℕ × List LogEntry) → List LogEntry
taken_for peer [] = []
taken_for peer ((i, entries) ∷ rest) = if i == peer then entries else taken_for peer rest

taken_for-past :
    (me now from peer : ℕ) (ps : List PendingEntries)
    → peer < from
    → taken_for peer (collect me now from ps).1 ≡ []
unfolding collect
taken_for-past me now from peer [] lt = refl
taken_for-past me now from peer (p ∷ ps) lt =
    ground (arith, taken_for-past me now (suc from) peer ps (omega arith))

-- No entry is lost or doubled between the buffers and the batches of a round: for every peer, what
-- the round takes and what it leaves are what was in the peer's buffer, and one of the two is empty.
pub collect-waiting :
    (me now from i : ℕ) (ps : List PendingEntries)
    → (taken_for (from + i) (collect me now from ps).1 ++ waiting (collect me now from ps).0 i
        ≡ waiting ps i)
      × ((taken_for (from + i) (collect me now from ps).1 ≡ [])
          ⊎ (waiting (collect me now from ps).0 i ≡ []))
unfolding collect
collect-waiting me now from i [] = (refl, inl refl)
collect-waiting me now from zero (p ∷ ps) =
    ground (arith, taken_for-past me now (suc from) from ps (omega arith), append-nil p.entries)
collect-waiting me now from (suc i) (p ∷ ps) =
    let e : from + suc i ≡ suc from + i = omega arith in
    let rest = collect-waiting me now (suc from) i ps in rw e (ground (arith, rest))

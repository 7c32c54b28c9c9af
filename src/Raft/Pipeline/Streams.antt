-- ===== src/Raft/Pipeline/Streams.antt =====
-- What the sender of a peer puts into its requests.
use my_kv_storage_base_raft.Common.{
  ℕ, zero, suc, ◌+◌, ◌-◌, ◌≤◌, ◌<◌, ◌≡◌, refl, sym, min, true, false, some, List, [], ◌∷◌, arith,
  length, get_or, take, drop, leb, ap, ◌∙◌, length-drop, get_or, set,
}
use my_kv_storage_base_raft.Raft.Types.{
  LogEntry, PipelineBatch, AppendEntriesArgs, is_leader, leader,
}
use my_kv_storage_base_raft.Raft.State.{Raft}
use my_kv_storage_base_raft.Raft.Log.{
  get_last_log_index, get_log_term_from_log_index, get_slices_index_from_log_index,
}
use my_kv_storage_base_raft.Raft.Log.Shape.{IndexedFrom, IndexedFrom-drop, IsIndexed}
use my_kv_storage_base_raft.Raft.Pipeline.{
  window, batch_size, up_to_last, send_pipeline_batch, create_pipeline_batch, send_next,
  can_send_pipeline_batch, peer_pipeline_sender_round,
}

-- The loop over entries that carry the indices from + 1, from + 2, … stops where it should.
up_to_last-take :
    (from n : ℕ) (es : List LogEntry)
    → IndexedFrom from es
    → 1 ≤ n
    → n ≤ length es
    → up_to_last (from + n) es ≡ take n es
unfolding up_to_last
up_to_last-take from zero es h l k = absurd (omega arith)
up_to_last-take from (suc n) [] h l k = absurd (omega arith)
up_to_last-take from (suc zero) (e ∷ es) h l k =
    let last : leb (from + 1) e.log_index ≡ true = ground (arith, h.0) in rw last refl
up_to_last-take from (suc (suc n)) (e ∷ es) h l k =
    let more : leb (from + suc (suc n)) e.log_index ≡ false = ground (arith, h.0) in
    let same : from + suc (suc n) ≡ suc from + suc n = omega arith in
    let rest = up_to_last-take (suc from) (suc n) es h.1 (omega arith) (omega arith) in
    rw more (ap (◌∷◌ e) (ap (λ (last : ℕ). up_to_last last es) same ∙ rest))

-- The request for a batch that lies in the log, behind the snapshot.
send_pipeline_batch-entries :
    (s : Raft) (b : PipelineBatch)
    → IsIndexed s
    → s.last_snapshot_include_index < b.first_index
    → b.first_index ≤ b.last_index
    → b.last_index ≤ get_last_log_index s
    → (send_pipeline_batch s b).entries
      ≡ take
          (b.last_index + 1 - b.first_index)
          (drop (b.first_index - s.last_snapshot_include_index - 1) s.logs)
unfolding send_pipeline_batch get_slices_index_from_log_index get_last_log_index
send_pipeline_batch-entries s b h behind ordered inside =
    let snap = s.last_snapshot_include_index in
    let n = b.first_index - snap - 1 in
    let count = b.last_index + 1 - b.first_index in
    let after : leb b.first_index snap ≡ false = ground arith in
    let ends : b.last_index ≡ snap + n + count = omega arith in
    rw after (
      ap (λ (last : ℕ). up_to_last last (drop n s.logs)) ends
      ∙ up_to_last-take (snap + n) count (drop n s.logs) (IndexedFrom-drop snap n s.logs h)
          (omega arith) (omega (arith, length-drop n s.logs)))

send_pipeline_batch-previous :
    (s : Raft) (b : PipelineBatch)
    → ((send_pipeline_batch s b).prev_log_index ≡ b.first_index - 1)
      × ((send_pipeline_batch s b).prev_log_term
          ≡ get_log_term_from_log_index s (send_pipeline_batch s b).prev_log_index)
unfolding send_pipeline_batch
send_pipeline_batch-previous s b = (refl, refl)

get_or-set_self : (xs : List ℕ) (i v : ℕ) → i < length xs → get_or (set xs i v) i 0 ≡ v
get_or-set_self [] i v h = absurd (omega arith)
get_or-set_self (x ∷ xs) zero v h = refl
get_or-set_self (x ∷ xs) (suc i) v h = get_or-set_self xs i v (omega arith)

-- What a round sends: the next entries of the log, at least one and at most 8, behind the entry that
-- the request names; the next index moves behind them, and the log stays.
pub record Carries (s : Raft) (peer : ℕ) (args : AppendEntriesArgs) (t : Raft) : Type 0 where
  pub count : ℕ
  pub at_least : 1 ≤ count
  pub at_most : count ≤ 8
  pub entries :
      args.entries
      ≡ take count (drop (get_or s.next_index peer 0 - s.last_snapshot_include_index - 1) s.logs)
  pub inside : get_or s.next_index peer 0 + count ≤ get_last_log_index s + 1
  pub previous : args.prev_log_index + 1 ≡ get_or s.next_index peer 0
  pub previous_term : args.prev_log_term ≡ get_log_term_from_log_index s args.prev_log_index
  pub moved : get_or t.next_index peer 0 ≡ get_or s.next_index peer 0 + count
  pub log_kept : t.logs ≡ s.logs

-- The request depends on the log only, not on the windows.
send_next-request :
    (s : Raft) (peer end_index now : ℕ)
    → (send_next s peer end_index now).1
      ≡ send_pipeline_batch s
          (create_pipeline_batch s peer (get_or s.next_index peer 0) end_index now).1
unfolding send_next create_pipeline_batch send_pipeline_batch get_log_term_from_log_index
    get_slices_index_from_log_index
send_next-request s peer end_index now = refl

send_next-Carries :
    (s : Raft) (peer size now : ℕ)
    → IsIndexed s
    → peer < length s.next_index
    → s.last_snapshot_include_index < get_or s.next_index peer 0
    → get_or s.next_index peer 0 ≤ get_last_log_index s
    → 1 ≤ size
    → size ≤ 8
    → let end_index = min (get_or s.next_index peer 0 + size - 1) (get_last_log_index s) in
      Carries s peer (send_next s peer end_index now).1 (send_next s peer end_index now).0
unfolding send_next create_pipeline_batch
send_next-Carries s peer size now h known behind inside one few =
    let next = get_or s.next_index peer 0 in
    let end_index = min (next + size - 1) (get_last_log_index s) in
    let b = (create_pipeline_batch s peer next end_index now).1 in
    let request = send_next-request s peer end_index now in
    let p = send_pipeline_batch-previous s b in
    let at_previous : (send_next s peer end_index now).1.prev_log_index ≡ next - 1 =
      ap (λ (a : AppendEntriesArgs). a.prev_log_index) request ∙ p.0 in
    record {
      count = end_index + 1 - next;
      at_least = omega arith;
      at_most = omega arith;
      entries =
          ap (λ (a : AppendEntriesArgs). a.entries) request
          ∙ send_pipeline_batch-entries s b h behind (omega arith) (omega arith);
      inside = omega arith;
      previous = omega (arith, at_previous);
      previous_term =
          ap (λ (a : AppendEntriesArgs). a.prev_log_term) request
          ∙ p.1
          ∙ ap (get_log_term_from_log_index s) (p.0 ∙ sym at_previous);
      moved = get_or-set_self s.next_index peer (end_index + 1) known ∙ omega arith;
      log_kept = refl;
    }

-- A round of the sender of a peer on a leader that has room in the window and entries for the peer
-- sends the next entries of the log, in order and without a gap, and moves the next index behind
-- them. The entries carry consecutive indices, and the next index lies behind the snapshot.
pub peer_pipeline_sender_round-Carries :
    (s : Raft) (peer consecutive_empty now : ℕ)
    → s.status ≡ leader
    → IsIndexed s
    → peer < length s.next_index
    → s.last_snapshot_include_index < get_or s.next_index peer 0
    → get_or s.next_index peer 0 ≤ get_last_log_index s
    → can_send_pipeline_batch s peer ≡ true
    → (args : AppendEntriesArgs) × ((peer_pipeline_sender_round s peer consecutive_empty now).sent
        ≡ some args)
      × Carries s peer args (peer_pipeline_sender_round s peer consecutive_empty now).node
unfolding peer_pipeline_sender_round
peer_pipeline_sender_round-Carries s peer consecutive_empty now lead h known behind inside room =
    let size = batch_size (length (window s peer).in_flight) in
    let end_index = min (get_or s.next_index peer 0 + size - 1) (get_last_log_index s) in
    let leads : is_leader s.status ≡ true = ground arith in
    let more : leb (get_or s.next_index peer 0) (get_last_log_index s) ≡ true = ground arith in
    rw (leads, more, room)
      (
        (send_next s peer end_index now).1,
        refl,
        send_next-Carries s peer size now h known behind inside (ground arith) (ground arith),
      )

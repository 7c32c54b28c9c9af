-- ===== src/Raft/Exchange/Origin.antt =====
-- Where the entries of a node come from, step by step.
use my_kv_storage_base_raft.Common.{
  ℕ, ◌≤◌, ◌≡◌, refl, ap, ◌⊎◌, inl, inr, Bool-cases, Among, length, List, arith, ltb, Option, some,
}
use my_kv_storage_base_raft.Raft.Types.{
  ok, LogEntry, AppendEntriesArgs, AppendEntriesReply, RequestVoteArgs, RequestVoteReply, Waits,
  InstallSnapshotRequest, >>=-returns,
}
use my_kv_storage_base_raft.Raft.State.{Raft, Archive}
use my_kv_storage_base_raft.Raft.Log.{get_last_log_index, match_log}
use my_kv_storage_base_raft.Raft.Persist.{persist, persist_snapshot, persist_node}
use my_kv_storage_base_raft.Raft.Vote.{
  do_election, step_down, become_leader, start_batch_sender_thread,
}
use my_kv_storage_base_raft.Raft.Vote.Winning.{Outcome, ignored, counted, won}
use my_kv_storage_base_raft.Raft.Append.{append_entries1, append_current, accept, merge_entries}
use my_kv_storage_base_raft.Raft.Append.Accept.{entered}
use my_kv_storage_base_raft.Raft.Snapshot.{install_snapshot1, advance_snapshot}
use my_kv_storage_base_raft.Raft.History.Keeps.{Same}
use my_kv_storage_base_raft.Raft.History.Handlers.{
  ballot, append_entries1-later, append_entries1-stale,
}
use my_kv_storage_base_raft.Raft.History.Settles.{Settles}
use my_kv_storage_base_raft.Raft.Exchange.Merged.{Merges, merge_entries-Merges}

-- The entries of the log and the buffers were there or arrive, and the last index does not fall.
pub record Grows (arrives : LogEntry → Type 0) (s t : Raft) : Type 0 where
  pub logs : (e : LogEntry) → Among t.logs e → Among s.logs e ⊎ arrives e
  pub waits : (e : LogEntry) → Waits t.pending_entries e → Waits s.pending_entries e ⊎ arrives e
  pub last : get_last_log_index s ≤ get_last_log_index t

pub Grows-weaken :
    {arrives here : LogEntry → Type 0} {s t : Raft}
    → Grows arrives s t
    → ((e : LogEntry) → arrives e → here e)
    → Grows here s t
Grows-weaken g h = record {
  logs = λ e m. elim (g.logs e m) [ inl old ↦ inl old | inr new ↦ inr (h e new) ];
  waits = λ e w. elim (g.waits e w) [ inl old ↦ inl old | inr new ↦ inr (h e new) ];
  last = g.last;
}

-- A step that leaves the log and the buffers alone.
pub Grows-eq :
    (arrives : LogEntry → Type 0) (s t : Raft)
    → t.logs ≡ s.logs
    → t.pending_entries ≡ s.pending_entries
    → s.last_snapshot_include_index ≤ t.last_snapshot_include_index
    → Grows arrives s t
unfolding get_last_log_index
Grows-eq arrives s t same same' h = record {
  logs = λ e m. inl (rw same at m);
  waits = λ e w. inl (rw same' at w);
  last = omega (arith, ap length same, h);
}

pub Same-Grows : (arrives : LogEntry → Type 0) (s t : Raft) → Same s t → Grows arrives s t
unfolding get_last_log_index persist_node
Same-Grows arrives s t h = record {
  logs = λ e m. inl (rw h.logs at m);
  waits = λ e w. inl (h.waits e w);
  last = ground (arith, h.node, h.logs);
}

pub Settles-Grows :
    (ar : Archive) (arrives : LogEntry → Type 0) (s t : Raft) → Settles ar s t → Grows arrives s t
unfolding persist step_down
Settles-Grows ar arrives s t (inl same) = Same-Grows arrives s t same
Settles-Grows ar arrives s t (inr (term, later, e)) =
    rw e (Grows-eq arrives s (persist ar (step_down s term)) refl refl (omega arith))

module _ (ar : Archive) (arrives : LogEntry → Type 0) (s t : Raft) where
  pub request_vote1-Grows :
      (args : RequestVoteArgs) (now : ℕ) → t ≡ persist ar (ballot s args now) → Grows arrives s t
  unfolding persist ballot
  request_vote1-Grows args now e = rw e (
      Grows-eq arrives s (persist ar (ballot s args now)) (ground arith) (ground arith)
        (ground arith))

  pub do_election-Grows :
      (now : ℕ) (args : RequestVoteArgs) → do_election ar s now ≡ some (t, args) → Grows arrives s t
  unfolding do_election persist
  do_election-Grows now args h = Grows-eq arrives s t (ground arith) (ground arith) (ground arith)

  pub Outcome-Grows :
      (reply : Option RequestVoteReply) (vote_num n : ℕ)
      → Outcome ar s reply vote_num t n
      → Grows arrives s t
  unfolding become_leader start_batch_sender_thread persist
  Outcome-Grows reply vote_num n (ignored (inl same) e) =
      rw same (Grows-eq arrives s s refl refl (omega arith))
  Outcome-Grows reply vote_num n (ignored (inr down) e) = Settles-Grows ar arrives s t (inr down)
  Outcome-Grows reply vote_num n (counted c same e) =
      rw same (Grows-eq arrives s s refl refl (omega arith))
  Outcome-Grows reply vote_num n (won c becomes e other enough) =
      rw becomes
        (Grows-eq arrives s (become_leader ar s) (ground arith) (ground arith) (ground arith))

accept-Grows :
    (ar : Archive) (arrives : LogEntry → Type 0) (s : Raft) (logs : List LogEntry)
    (args : AppendEntriesArgs) {t : Raft} {reply : AppendEntriesReply}
    → Merges arrives s.logs logs
    → accept ar (record s { logs = logs }) args ≡ ok (t, reply)
    → Grows arrives s t
unfolding accept persist get_last_log_index
accept-Grows ar arrives s logs args {t} m h =
    let new : t.logs ≡ logs = ground arith in
    let idle : t.pending_entries ≡ s.pending_entries = ground arith in
    let place : t.last_snapshot_include_index ≡ s.last_snapshot_include_index = ground arith in
    record {
      logs = λ e there. m.entries e (rw new at there);
      waits = λ e w. inl (rw idle at w);
      last = omega (arith, place, ap length new, m.longer);
    }

module _ (ar : Archive) (s : Raft) where
  pub install_snapshot1-Grows :
      (arrives : LogEntry → Type 0) (request : InstallSnapshotRequest)
      → Grows arrives s (install_snapshot1 ar s request).0
  unfolding install_snapshot1 persist persist_snapshot advance_snapshot step_down
  install_snapshot1-Grows arrives request =
      Grows-eq arrives s _ (ground arith) (ground arith) (ground arith)

  append_current-Grows :
      (args : AppendEntriesArgs) {t : Raft} {reply : AppendEntriesReply}
      → append_current ar s args ≡ ok (t, reply)
      → Grows (Among args.entries) s t
  unfolding append_current persist get_last_log_index
  append_current-Grows args {t} {reply} h =
      let new = Among args.entries in
      elim (Bool-cases (ltb (get_last_log_index s) args.prev_log_index)) [
        | inl past ↦ Grows-eq new s t (ground arith) (ground arith) (ground arith)
        | inr inside ↦ elim (Bool-cases (ltb args.prev_log_index s.last_snapshot_include_index)) [
          | inl before ↦ Grows-eq new s t (ground arith) (ground arith) (ground arith)
          | inr above ↦ elim (Bool-cases (match_log s args.prev_log_index args.prev_log_term)) [
            | inr no_match ↦ Grows-eq new s t (ground arith) (ground arith) (ground arith)
            | inl match ↦
                let (logs, e, e') =
                  >>=-returns (merge_entries s.last_snapshot_include_index s.logs args.entries)
                    (λ logs. accept ar (record s { logs = logs }) args)
                    (rw (inside, above, match) at h) in
                accept-Grows ar new s logs args
                  (merge_entries-Merges s.last_snapshot_include_index s.logs args.entries e) e'
          ]
        ]
      ]

module _ (ar : Archive) (s : Raft) where
  pub append_entries1-Grows :
      (args : AppendEntriesArgs) (now : ℕ) {t : Raft} {reply : AppendEntriesReply}
      → append_entries1 ar s args now ≡ ok (t, reply)
      → Grows (Among args.entries) s t
  unfolding get_last_log_index
  append_entries1-Grows args now {t} h = elim (Bool-cases (ltb args.term s.current_term)) [
    | inl stale ↦
        rw (append_entries1-stale ar s args now stale h)
          (Grows-eq (Among args.entries) s s refl refl (omega arith))
    | inr later ↦
        let g =
          append_current-Grows ar (entered s args now) args
            (rw (append_entries1-later ar s args now later) at h) in
        record { logs = g.logs; waits = g.waits; last = g.last }
  ]

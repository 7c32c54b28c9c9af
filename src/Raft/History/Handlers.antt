-- ===== src/Raft/History/Handlers.antt =====
-- Every handler of a node keeps its file up to date and its term and vote from going back.
use my_kv_storage_base_raft.Common.{
  ℕ, ◌≡◌, refl, inl, inr, true, false, arith, ltb, if◌then◌else◌, Bool-cases, eq_ℤ, minus_one, not,
  ◌&&◌, pos, min,
}
use my_kv_storage_base_raft.Raft.Types.{
  ok, AppendEntriesArgs, AppendEntriesReply, RequestVoteArgs, RequestVoteReply, >>=-returns,
}
use my_kv_storage_base_raft.Raft.State.{Raft, Archive}
use my_kv_storage_base_raft.Raft.Log.{up_to_data, get_last_log_index, match_log}
use my_kv_storage_base_raft.Raft.Persist.{persist}
use my_kv_storage_base_raft.Raft.Persist.Durable.{IsRecorded}
use my_kv_storage_base_raft.Raft.Vote.{request_vote1, cast_vote, adopt_term}
use my_kv_storage_base_raft.Raft.Vote.Decision.{voted, request_vote1-eq-voted}
use my_kv_storage_base_raft.Raft.Append.{append_entries1, append_current, accept, merge_entries}
use my_kv_storage_base_raft.Raft.Append.Accept.{entered, append_entries1-entered}
use my_kv_storage_base_raft.Raft.History.Keeps.{Advances, Keeps, persist-Keeps}

-- The node that `RequestVote1` saves on its return.
unfoldable pub ballot : Raft → RequestVoteArgs → ℕ → Raft
unfolding adopt_term up_to_data
ballot s args now =
    let s' = adopt_term s args.term in
    if ltb args.term s.current_term
    then s
    else if not (up_to_data s' args.last_log_index args.last_log_term)
    then s'
    else if not (eq_ℤ s'.voted_for minus_one) && not (eq_ℤ s'.voted_for (pos args.candidate_id))
    then s'
    else record s' { voted_for = pos args.candidate_id; last_reset_election_time = now }

pub voted-eq-persist :
    (ar : Archive) (s : Raft) (args : RequestVoteArgs) (now : ℕ)
    → (voted ar s args now).0 ≡ persist ar (ballot s args now)
unfolding cast_vote ballot
voted-eq-persist ar s args now = ground arith

ballot-Advances : (s : Raft) (args : RequestVoteArgs) (now : ℕ) → Advances s (ballot s args now)
unfolding ballot
ballot-Advances s args now = ground arith

pub persister-ballot :
    (s : Raft) (args : RequestVoteArgs) (now : ℕ) → (ballot s args now).persister ≡ s.persister
unfolding ballot
persister-ballot s args now = ground arith

-- What `AppendEntries1` saves: the node that entered the message's term, with another log and
-- commit index.
pub record Saves (ar : Archive) (s t : Raft) : Type 0 where
  pub saved : Raft
  pub is_saved : t ≡ persist ar saved
  pub term : saved.current_term ≡ s.current_term
  pub vote : saved.voted_for ≡ s.voted_for
  pub persister : saved.persister ≡ s.persister
  pub me : saved.me ≡ s.me
  pub peers : saved.peers ≡ s.peers
  pub status : saved.status ≡ s.status
  pub timer : saved.last_reset_election_time ≡ s.last_reset_election_time
  pub applied : saved.last_applied ≡ s.last_applied
  pub chan : saved.apply_chan ≡ s.apply_chan

accept-Saves :
    (ar : Archive) (s : Raft) (args : AppendEntriesArgs) {t : Raft} {reply : AppendEntriesReply}
    → accept ar s args ≡ ok (t, reply)
    → Saves ar s t
unfolding accept
accept-Saves ar s args h = record {
  saved =
      if ltb s.commit_index args.leader_commit
      then record s { commit_index = min args.leader_commit (get_last_log_index s) }
      else s;
  is_saved = ground arith;
  term = ground arith;
  vote = ground arith;
  persister = ground arith;
  me = ground arith;
  peers = ground arith;
  status = ground arith;
  timer = ground arith;
  applied = ground arith;
  chan = ground arith;
}

Saves-self : (ar : Archive) (s : Raft) {t : Raft} → t ≡ persist ar s → Saves ar s t
Saves-self ar s e = record {
  saved = s;
  is_saved = e;
  term = refl;
  vote = refl;
  persister = refl;
  me = refl;
  peers = refl;
  status = refl;
  timer = refl;
  applied = refl;
  chan = refl;
}

pub append_current-Saves :
    (ar : Archive) (s : Raft) (args : AppendEntriesArgs) {t : Raft} {reply : AppendEntriesReply}
    → append_current ar s args ≡ ok (t, reply)
    → Saves ar s t
unfolding append_current
append_current-Saves ar s args h =
    elim (Bool-cases (ltb (get_last_log_index s) args.prev_log_index)) [
      | inl past ↦ Saves-self ar s (ground arith)
      | inr inside ↦ elim (Bool-cases (ltb args.prev_log_index s.last_snapshot_include_index)) [
        | inl before ↦ Saves-self ar s (ground arith)
        | inr above ↦ elim (Bool-cases (match_log s args.prev_log_index args.prev_log_term)) [
          | inr no_match ↦ Saves-self ar s (ground arith)
          | inl match ↦
              let (logs, _, e) =
                >>=-returns (merge_entries s.last_snapshot_include_index s.logs args.entries)
                  (λ logs. accept ar (record s { logs = logs }) args)
                  (rw (inside, above, match) at h) in
              let a = accept-Saves ar (record s { logs = logs }) args e in
              record {
                saved = a.saved;
                is_saved = a.is_saved;
                term = a.term;
                vote = a.vote;
                persister = a.persister;
                me = a.me;
                peers = a.peers;
                status = a.status;
                timer = a.timer;
                applied = a.applied;
                chan = a.chan;
              }
        ]
      ]
    ]

pub append_entries1-later :
    (ar : Archive) (s : Raft) (args : AppendEntriesArgs) (now : ℕ)
    → ltb args.term s.current_term ≡ false
    → append_entries1 ar s args now ≡ append_current ar (entered s args now) args
append_entries1-later ar s args now h = append_entries1-entered ar s args now (ground arith)

pub append_entries1-stale :
    (ar : Archive) (s : Raft) (args : AppendEntriesArgs) (now : ℕ) {t : Raft}
    {reply : AppendEntriesReply}
    → ltb args.term s.current_term ≡ true
    → append_entries1 ar s args now ≡ ok (t, reply)
    → t ≡ s
unfolding append_entries1
append_entries1-stale ar s args now e h = ground arith

module _ (ar : Archive) (s : Raft) (d : IsRecorded ar s) where
  pub request_vote1-Keeps :
      (args : RequestVoteArgs) (now : ℕ) {t : Raft} {reply : RequestVoteReply}
      → request_vote1 ar s args now ≡ ok (t, reply)
      → Keeps ar s t
  request_vote1-Keeps args now {t} {reply} h =
      let e : t ≡ persist ar (ballot s args now) =
        ground (arith, request_vote1-eq-voted ar s args now, voted-eq-persist ar s args now) in
      rw e (
        persist-Keeps ar s d (ballot s args now) (ballot-Advances s args now)
          (persister-ballot s args now))

  Keeps-self : Keeps ar s s
  Keeps-self = record { advances = inr (refl, inr refl); durable = d }

  pub append_entries1-Keeps :
      (args : AppendEntriesArgs) (now : ℕ) {t : Raft} {reply : AppendEntriesReply}
      → append_entries1 ar s args now ≡ ok (t, reply)
      → Keeps ar s t
  append_entries1-Keeps args now {t} {reply} h = elim (Bool-cases (ltb args.term s.current_term)) [
    | inl stale ↦ rw (append_entries1-stale ar s args now stale h) Keeps-self
    | inr later ↦
        let a =
          append_current-Saves ar (entered s args now) args
            (rw (append_entries1-later ar s args now later) at h) in
        rw (a.is_saved) (persist-Keeps ar s d a.saved (ground (arith, a.term, a.vote)) a.persister)
  ]

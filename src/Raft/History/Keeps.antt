-- ===== src/Raft/History/Keeps.antt =====
-- What every handler of a node keeps, and the rules by which it is shown.
use my_kv_storage_base_raft.Common.{inl, ◌<◌, ◌≡◌, refl, ◌∙◌, ◌⊎◌, inr, minus_one, arith, Bytes, ap}
use my_kv_storage_base_raft.Raft.Types.{LogEntry, Waits}
use my_kv_storage_base_raft.Raft.State.{Raft, Archive}
use my_kv_storage_base_raft.Raft.Persister.{Persister}
use my_kv_storage_base_raft.Raft.Persist.{persist, persist_snapshot, persist_node, persist_date}
use my_kv_storage_base_raft.Raft.Persist.Durable.{
  IsRecorded, IsRecorded-IsQuiet, persist-IsDurable, persist_snapshot-IsDurable,
}

-- The term does not fall, and within a term a vote that was given stays.
abbrev pub Advances : Raft → Raft → Type 0
Advances s t =
    (s.current_term < t.current_term)
    ⊎ ((s.current_term ≡ t.current_term)
        × ((s.voted_for ≡ minus_one) ⊎ (t.voted_for ≡ s.voted_for)))

pub Advances-trans : (s t u : Raft) → Advances s t → Advances t u → Advances s u
Advances-trans s t u h k = ground arith

-- From a node whose file is up to date, or has nothing to hold, to such a node, whose term and vote have not gone back.
pub record Keeps (ar : Archive) (s t : Raft) : Type 0 where
  pub advances : Advances s t
  pub durable : IsRecorded ar t

-- The members that the file holds, the file's side, the log, and the node's place and role are the
-- same, the election timer was not reset, no other entries wait for a peer, and nothing was applied.
pub record Same (s t : Raft) : Type 0 where
  pub node : persist_node t ≡ persist_node s
  pub persister : t.persister ≡ s.persister
  pub me : t.me ≡ s.me
  pub peers : t.peers ≡ s.peers
  pub status : t.status ≡ s.status
  pub logs : t.logs ≡ s.logs
  pub waits : (e : LogEntry) → Waits t.pending_entries e → Waits s.pending_entries e
  pub timer : t.last_reset_election_time ≡ s.last_reset_election_time
  pub applied : t.last_applied ≡ s.last_applied
  pub chan : t.apply_chan ≡ s.apply_chan

pub Same-Advances : (s t : Raft) → persist_node t ≡ persist_node s → Advances s t
unfolding persist_node
Same-Advances s t e = inr (ground arith, inr (ground arith))

unsaved-IsRecorded :
    (ar : Archive) (s t : Raft)
    → IsRecorded ar s
    → persist_node t ≡ persist_node s
    → t.persister ≡ s.persister
    → IsRecorded ar t
unfolding persist_date
unsaved-IsRecorded ar s t (inl d) h e = inl (record {
  quiet = rw e d.quiet;
  memory = cc (ap ar.encode h, ap (λ (p : Persister). p.raft_state) e, d.memory);
  file = cc (ap ar.encode h, ap (λ (p : Persister). p.raft_file) e, d.file);
})
unsaved-IsRecorded ar s t (inr b) h e = inr (record {
  quiet = rw e b.quiet;
  memory = ap (λ (p : Persister). p.raft_state) e ∙ b.memory;
  file = ap (λ (p : Persister). p.raft_file) e ∙ b.file;
  node = h ∙ b.node;
})

module _ (ar : Archive) (s : Raft) (d : IsRecorded ar s) where
  -- A change of members that the file does not hold.
  pub unsaved-Keeps :
      (t : Raft) → persist_node t ≡ persist_node s → t.persister ≡ s.persister → Keeps ar s t
  unsaved-Keeps t h e = record {
    advances = Same-Advances s t h;
    durable = unsaved-IsRecorded ar s t d h e;
  }

  pub Same-Keeps : (t : Raft) → Same s t → Keeps ar s t
  Same-Keeps t h = unsaved-Keeps t h.node h.persister

  pub persist-Keeps :
      (t : Raft) → Advances s t → t.persister ≡ s.persister → Keeps ar s (persist ar t)
  unfolding persist
  persist-Keeps t h e = record {
    advances = h;
    durable = inl (persist-IsDurable ar t (rw e (IsRecorded-IsQuiet ar s d)));
  }

  pub persist_snapshot-Keeps :
      (t : Raft) (snapshot : Bytes)
      → Advances s t
      → t.persister ≡ s.persister
      → Keeps ar s (persist_snapshot ar t snapshot)
  unfolding persist_snapshot
  persist_snapshot-Keeps t snapshot h e = record {
    advances = h;
    durable = inl (persist_snapshot-IsDurable ar t snapshot (rw e (IsRecorded-IsQuiet ar s d)));
  }

pub Keeps-trans : (ar : Archive) (s t u : Raft) → Keeps ar s t → Keeps ar t u → Keeps ar s u
Keeps-trans ar s t u h k = record {
  advances = Advances-trans s t u h.advances k.advances;
  durable = k.durable;
}

pub Keeps-refl : (ar : Archive) (s : Raft) → IsRecorded ar s → Keeps ar s s
Keeps-refl ar s d = record { advances = inr (refl, inr refl); durable = d }

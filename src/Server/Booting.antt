-- ===== src/Server/Booting.antt =====
-- A process that was just started.
use my_kv_storage_base_raft.Common.{
  ℕ, ◌≡◌, ap, ◌∙◌, Option, some, List, [], ◌∷◌, arith, Bytes, inl, inr, Option-cases,
}
use my_kv_storage_base_raft.Raft.Types.{ok, ApplyMsg, Result-cases, >>=-returns}
use my_kv_storage_base_raft.Raft.State.{Raft, Archive}
use my_kv_storage_base_raft.Raft.Persister
use my_kv_storage_base_raft.Raft.Persister.{Persister}
use my_kv_storage_base_raft.Raft.Persist.{init, fresh, skip_snapshot, read_persist, read_node}
use my_kv_storage_base_raft.Server.{Process, total_servers, boot}

read_persist-chan :
    (ar : Archive) (s t : Raft) (bytes : Bytes)
    → read_persist ar s bytes ≡ ok t
    → t.apply_chan ≡ s.apply_chan
unfolding read_persist read_node
read_persist-chan ar s t [] h = ground arith
read_persist-chan ar s t (b ∷ bytes) h = elim (Option-cases (ar.decode (b ∷ bytes))) [
  | inl e ↦ cc (rw e at h)
  | inr (n, e) ↦ ground arith
]

-- The node that `init` makes has the channel that it was given.
init-chan :
    (ar : Archive) (peers me : ℕ) (p : Persister) (ch : Option (List ApplyMsg)) (now : ℕ) {t : Raft}
    → init ar peers me p ch now ≡ ok t
    → t.apply_chan ≡ ch
unfolding init fresh skip_snapshot
init-chan ar peers me p ch now {t} h =
    elim (Result-cases (read_persist ar (fresh peers me p ch now) p.raft_state)) [
      | inl (fault, e) ↦ cc (rw e at h)
      | inr (u, e) ↦
          let kept = read_persist-chan ar (fresh peers me p ch now) u p.raft_state e in
          let same : t ≡ skip_snapshot u = ground (arith, rw e at h) in
          rw same (ground (arith, kept))
    ]

-- The channel of a process that was just booted is empty.
pub boot-chan :
    {M : Type 0} (ar : Archive) (empty : M) (me : ℕ) (raft_file snapshot_file : Option Bytes)
    (now : ℕ) {p : Process M}
    → boot ar empty me raft_file snapshot_file now ≡ ok p
    → p.node.apply_chan ≡ some []
unfolding boot
boot-chan ar empty me raft_file snapshot_file now {p} h =
    let (node, e, e') =
      >>=-returns (init ar total_servers me (Persister.init raft_file snapshot_file) (some []) now)
        _ h in
    let same : p.node ≡ node = ground arith in
    ap (λ (s : Raft). s.apply_chan) same
    ∙ init-chan ar total_servers me (Persister.init raft_file snapshot_file) (some []) now e

-- ===== src/Raft/Exchange/OneEntry.antt =====
-- The entries of one term and index across the cluster.
use my_kv_storage_base_raft.Common.{
  ℕ, ◌≤◌, ◌<◌, ◌≡◌, refl, sym, inl, inr, Among, ◌∷◌, ◌++◌, arith, ap, [], ◌⊎◌,
}
use my_kv_storage_base_raft.Raft.Types.{LogEntry, AppendEntriesArgs, Waits}
use my_kv_storage_base_raft.Raft.State.{Raft, Archive, PersistRaftNode}
use my_kv_storage_base_raft.Raft.Persist.{persist_node}
use my_kv_storage_base_raft.Raft.Log.{get_last_log_index}
use my_kv_storage_base_raft.Raft.Cluster.{Cluster, ClusterStep, put}
use my_kv_storage_base_raft.Raft.Cluster.Counting.{count-meet, count-weaken}
use my_kv_storage_base_raft.Raft.Cluster.Ballots.{put-elim}
use my_kv_storage_base_raft.Raft.Cluster.Fair.{Next, IsNew-IsFair}
use my_kv_storage_base_raft.Raft.Cluster.Rounds.{step-IsFair}
use my_kv_storage_base_raft.Raft.Exchange.{Network, Happens, messages_of, IsIdle, Runs, rests, acts}
use my_kv_storage_base_raft.Raft.Exchange.Starting.{blank-empty}
use my_kv_storage_base_raft.Raft.Exchange.Origin.{Grows-weaken}
use my_kv_storage_base_raft.Raft.Exchange.Arrivals.{Arrives-cases, Makes, Step-Grows}
use my_kv_storage_base_raft.Raft.Exchange.Sound.{
  IsSound, IsOwned, IsUnique, ClusterStep-Moves, carry, moved-IsOwned,
}

module _ (ar : Archive) (n : ℕ) (z : Network) (s : IsSound ar n z) where
  -- An entry that a leader makes has another index than the entries of its term so far.
  made-fresh :
      (i : ℕ) {t : Raft} {arrives : LogEntry → Type 0}
      → i < n
      → (m : Makes (z.cluster.node i) t arrives) → (e : LogEntry) → Among s.made e
      → e.log_term ≡ m.entry.log_term
      → e.log_index < m.entry.log_index
  made-fresh i inside m e old same =
      let r = z.cluster.node i in
      let o = s.owned e old in
      let term : e.log_term ≡ r.current_term = ground (arith, m.in_term) in
      let mine = (s.fair.placed i inside).leads m.leads in
      let theirs = rw term at o.elected in
      let (v, _, left, right) =
        count-meet n (λ v. s.fair.gave v r.current_term i)
          (λ v. s.fair.gave v r.current_term o.owner) (omega (arith, mine, theirs)) in
      let one : o.owner ≡ i = sym (s.fair.single v r.current_term i o.owner left right) in
      omega (arith, m.behind, rw one at o.reached)

  made-IsUnique :
      (i : ℕ) {t : Raft} {arrives : LogEntry → Type 0}
      → i < n
      → (m : Makes (z.cluster.node i) t arrives) → IsUnique (m.entry ∷ s.made)
  made-IsUnique i inside m e f (inl x) (inl y) term index = cc (x, y)
  made-IsUnique i inside m e f (inl x) (inr y) term index =
      let low = made-fresh i inside m f y (sym (rw x at term)) in
      absurd (omega (arith, low, rw x at index))
  made-IsUnique i inside m e f (inr x) (inl y) term index =
      let low = made-fresh i inside m e x (rw y at term) in
      absurd (omega (arith, low, rw y at index))
  made-IsUnique i inside m e f (inr x) (inr y) term index = s.unique e f x y term index

  -- The leader owns the entry that it made.
  made-IsOwned :
      (d : Cluster) (next : Next ar n s.fair d) (i : ℕ) (t : Raft) {arrives : LogEntry → Type 0}
      → i < n
      → d.node ≡ put z.cluster.node i t
      → (m : Makes (z.cluster.node i) t arrives) → IsOwned n next.0.gave d.node m.entry
  made-IsOwned d next i t inside nodes m =
      let r = z.cluster.node i in
      record {
        owner = i;
        inside = inside;
        elected = rw (m.in_term) (
            omega (
              arith,
              (s.fair.placed i inside).leads m.leads,
              count-weaken n (λ v. s.fair.gave v r.current_term i)
                  (λ v. next.0.gave v r.current_term i) (λ v _. next.1 v r.current_term i),
            ));
        reached = rw nodes (
            put-elim (λ j (q : Raft). j ≡ i → m.entry.log_index ≤ get_last_log_index q)
              z.cluster.node i t (λ _. omega (arith, m.is_last))
              (λ j other same. absurd (other same)) i refl);
      }

  step-IsSound :
      {d : Cluster} (step : ClusterStep ar n z.cluster d)
      → Happens z.sent step
      → IsSound ar n (record { cluster = d; sent = messages_of step ++ z.sent })
  step-IsSound {d} step h =
      let v = ClusterStep-Moves ar n z.sent s.fair step h in
      let next = step-IsFair ar n s.fair step in
      let r = z.cluster.node v.mover in
      let g = Step-Grows ar z.sent (s.fair.placed v.mover v.inside).recorded v.step v.delivered in
      elim (Arrives-cases ar z.sent v.step v.delivered) [
        | inl m ↦
            carry ar n z s d (messages_of step) next v (m.entry ∷ s.made)
              (made-IsUnique v.mover v.inside m) (λ e old. inr old)
              (λ e there. elim there [
                | inl new ↦ rw new (made-IsOwned d next v.mover v.after v.inside v.nodes m)
                | inr old ↦ moved-IsOwned ar n z s d next v.mover v.after v.nodes g.last e old
              ])
              (Grows-weaken g (λ e new. inl (m.only e new)))
        | inr received ↦
            carry ar n z s d (messages_of step) next v s.made s.unique (λ e old. old)
              (λ e old. moved-IsOwned ar n z s d next v.mover v.after v.nodes g.last e old)
              (Grows-weaken g
                (λ e new. let (m, sent, there) = received e new in s.carried m e sent there))
      ]

IsIdle-IsSound : (ar : Archive) (n : ℕ) (z : Network) → IsIdle n z → IsSound ar n z
unfolding persist_node
IsIdle-IsSound ar n z idle = record {
  fair = IsNew-IsFair ar n z.cluster idle.new;
  made = [];
  unique = λ e f m k term index. absurd m;
  held = λ i inside.
      let none = ap (λ (p : PersistRaftNode). p.logs) (idle.new.blank i inside).node in
      record {
        logs = λ e m. rw (blank-empty (z.cluster.node i).logs none) at m;
        waits = λ e w. idle.idle i e inside w;
      };
  carried = λ m e sent there. absurd (rw idle.sent at sent);
  owned = λ e m. absurd m;
}

pub Runs-IsSound : (ar : Archive) (n : ℕ) {z : Network} → Runs ar n z → IsSound ar n z
Runs-IsSound ar n {z} (rests idle) = IsIdle-IsSound ar n z idle
Runs-IsSound ar n (acts {z = y} before step h) =
    step-IsSound ar n y (Runs-IsSound ar n before) step h

-- The entry is in a node's log, waits in a node's buffer, or is in a request that was sent.
abbrev pub IsAround : ℕ → Network → LogEntry → Type 0
IsAround n z e =
    ((i : ℕ) × (i < n) × Among (z.cluster.node i).logs e)
    ⊎ (((i : ℕ) × (i < n) × Waits (z.cluster.node i).pending_entries e)
        ⊎ ((m : AppendEntriesArgs) × Among z.sent m × Among m.entries e))

IsAround-made :
    (ar : Archive) (n : ℕ) (z : Network) (s : IsSound ar n z) (e : LogEntry)
    → IsAround n z e
    → Among s.made e
IsAround-made ar n z s e (inl (i, inside, m)) = (s.held i inside).logs e m
IsAround-made ar n z s e (inr (inl (i, inside, w))) = (s.held i inside).waits e w
IsAround-made ar n z s e (inr (inr (m, sent, there))) = s.carried m e sent there

-- In what any run of a cluster has come to, two entries of the same term and the same index are the
-- same entry, wherever they are: in the logs of two nodes, in their buffers or in the requests that
-- were sent. The run starts from new nodes and consists of the steps of the nodes, restarts
-- included, of elections, and of requests that arrive late, more than once, in another order or
-- never; a node is restarted only while its entries carry the indices of their places.
pub one_entry_per_index :
    (ar : Archive) (n : ℕ) {z : Network} (e f : LogEntry)
    → Runs ar n z
    → IsAround n z e
    → IsAround n z f
    → e.log_term ≡ f.log_term
    → e.log_index ≡ f.log_index
    → e ≡ f
one_entry_per_index ar n {z} e f run here there =
    let s = Runs-IsSound ar n run in
    s.unique e f (IsAround-made ar n z s e here) (IsAround-made ar n z s f there)

-- ===== src/Server/InOrder.antt =====
-- What the apply thread has done, in the life of its process.
use mathlib.Core.List.{append-nil, append_assoc}
use my_kv_storage_base_raft.Common.{
  ℕ, ◌≡◌, refl, sym, ap, ◌∙◌, ℤ, Option, some, List, [], ◌∷◌, ◌++◌, arith, Bytes,
}
use my_kv_storage_base_raft.OpCoder.{decode_op}
use my_kv_storage_base_raft.Raft.Types.{ok, ApplyMsg}
use my_kv_storage_base_raft.Raft.State.{Raft, Archive}
use my_kv_storage_base_raft.Raft.Apply.{push_msgs}
use my_kv_storage_base_raft.KvServer.Types.{FeatureParser, SkipList, KvServer}
use my_kv_storage_base_raft.KvServer.{time_out_pop}
use my_kv_storage_base_raft.Server.{
  Process, boot, Running, running, with_server, apply_thread_round, Goes, starts_here, node_acts,
  message_taken, goes_on, get_recorded, wait_began, wait_ended,
}
use my_kv_storage_base_raft.Server.Applying.{waits, tests}
use my_kv_storage_base_raft.Server.Carrying.{
  calls_due, store_ops, index_ops, IsCarried, apply_step-IsCarried,
}
use my_kv_storage_base_raft.Server.Deciding.{
  messages, IsOwn, IsDecided, apply_step-IsOwn, apply_step-IsDecided,
}
use my_kv_storage_base_raft.Server.Feeding.{Between, Between-append, Feeds}
use my_kv_storage_base_raft.Server.Steps.{Step-Feeds}
use my_kv_storage_base_raft.Server.Booting.{boot-chan}

-- The node's side: the messages that were pushed are those that were taken and those that wait,
-- their indices ascend strictly, above `from` and not above what the node has applied.
pub record IsFed (from : ℕ) (node : Raft) (taken pushed : List ApplyMsg) : Type 0 where
  pub queue : List ApplyMsg
  pub chan : node.apply_chan ≡ some queue
  pub none_lost : taken ++ queue ≡ pushed
  pub between : Between from pushed node.last_applied

Feeds-IsFed :
    (from : ℕ) (s t : Raft) (taken pushed msgs : List ApplyMsg)
    → IsFed from s taken pushed
    → Feeds s t msgs
    → IsFed from t taken (pushed ++ msgs)
unfolding push_msgs
Feeds-IsFed from s t taken pushed msgs i f = record {
  queue = i.queue ++ msgs;
  chan = rw (i.chan) at f.chan;
  none_lost =
      sym (append_assoc taken i.queue msgs) ∙ ap (λ (ms : List ApplyMsg). ms ++ msgs) i.none_lost;
  between = Between-append from s.last_applied t.last_applied pushed msgs i.between f.between;
}

module _ {M : Type 0} (sl : SkipList M) (parser : FeatureParser) (junk : ℤ) where
  -- What holds of a process at any time since it was `p`.
  pub record IsInOrder (p : Process M) (q : Running M) : Type 0 where
    pub fed : IsFed p.node.last_applied q.process.node q.taken q.pushed
    pub own : IsOwn junk q.thread
    pub decided : IsDecided junk q.taken q.tested q.executed q.thread
    pub carried : IsCarried sl parser junk p.server q.executed q.process.server q.thread

  take_first :
      (p : Process M) (q : Running M) (queue : List ApplyMsg) {r : Running M}
      → (i : IsInOrder p q) → i.fed.queue ≡ queue
      → q.thread ≡ waits
      → apply_thread_round sl parser junk q ≡ some r
      → IsInOrder p r
  unfolding apply_thread_round
  take_first p q [] i e idle h = cc (rw (i.fed.chan, e) at h)
  take_first p q (msg ∷ rest) {r} i e idle h =
      let taken : r ≡ record q {
        process = record (q.process) { node = record (q.process.node) { apply_chan = some rest } };
        thread = tests msg (decode_op junk msg.command);
        taken = q.taken ++ msg ∷ [];
      } =
        ground (arith, rw (i.fed.chan, e) at h) in
      rw taken (record {
        fed = record {
          queue = rest;
          chan = refl;
          none_lost = rw (append_assoc q.taken (msg ∷ []) rest) (rw e at i.fed.none_lost);
          between = i.fed.between;
        };
        own = refl;
        decided = record {
          all_tested =
              ap (λ (ms : List ApplyMsg). ms ++ msg ∷ [])
                (sym (append-nil (messages q.tested)) ∙ (rw idle at i.decided.all_tested));
          carried_out = rw idle at i.decided.carried_out;
        };
        carried = record {
          same_store = i.carried.same_store;
          same_index = rw idle at i.carried.same_index;
        };
      })

  -- A step of another thread leaves the store and the calls of the index.
  aside :
      (p : Process M) (q : Running M) (s : KvServer M)
      → IsInOrder p q
      → s.kvdb ≡ q.process.server.kvdb
      → s.index_calls ≡ q.process.server.index_calls
      → IsInOrder p (with_server q s)
  aside p q s i store index = record {
    fed = record {
      queue = i.fed.queue;
      chan = i.fed.chan;
      none_lost = i.fed.none_lost;
      between = i.fed.between;
    };
    own = i.own;
    decided = i.decided;
    carried = record {
      same_store = store ∙ i.carried.same_store;
      same_index = rw index i.carried.same_index;
    };
  }

  Goes-IsInOrder :
      (ar : Archive) {p : Process M} {q : Running M}
      → p.node.apply_chan ≡ some []
      → Goes sl parser junk ar (running p) q
      → IsInOrder p q
  unfolding time_out_pop
  Goes-IsInOrder ar {p} new starts_here = record {
    fed = record { queue = []; chan = new; none_lost = refl; between = omega arith };
    own = tt;
    decided = record { all_tested = refl; carried_out = refl };
    carried = record { same_store = refl; same_index = refl };
  }
  Goes-IsInOrder ar {p} new (node_acts {q = q} {t} before step alive) =
      let i = Goes-IsInOrder ar new before in
      record {
        fed =
            Feeds-IsFed p.node.last_applied q.process.node t q.taken q.pushed _ i.fed
              (Step-Feeds ar step alive);
        own = i.own;
        decided = i.decided;
        carried = i.carried;
      }
  Goes-IsInOrder ar {p} new (message_taken {q = q} before idle h) =
      let i = Goes-IsInOrder ar new before in take_first p q i.fed.queue i refl idle h
  Goes-IsInOrder ar {p} new (goes_on {q = q} before) =
      let i = Goes-IsInOrder ar new before in
      record {
        fed = i.fed;
        own = apply_step-IsOwn sl parser junk q.process.server q.thread i.own;
        decided =
            apply_step-IsDecided sl parser junk q.process.server q.taken q.tested q.executed
              q.thread i.own i.decided;
        carried =
            apply_step-IsCarried sl parser junk p.server q.process.server q.executed q.thread
              i.carried;
      }
  Goes-IsInOrder ar {p} new (get_recorded {q = q} op last_value before) =
      aside p q _ (Goes-IsInOrder ar new before) refl refl
  Goes-IsInOrder ar {p} new (wait_began {q = q} index before) =
      aside p q _ (Goes-IsInOrder ar new before) refl refl
  Goes-IsInOrder ar {p} new (wait_ended {q = q} index before) =
      aside p q _ (Goes-IsInOrder ar new before) refl refl

  -- From the start of a process on, in any order of the steps of its threads: the messages that its
  -- node pushed are those that the apply thread took, in the same order, and those that wait; their
  -- indices ascend strictly, above what the node had applied at the start and not above what it has
  -- applied. Each taken message was tested, in the same order, but for the last one while it is about
  -- to be; the operations carried out are those of the tested messages that were no duplicates in the
  -- table at their test, in their order, but for the last one while it is about to be carried out.
  -- The store is what they make, one after the other, of the store at the start, and the calls of the
  -- index too, once the call for the last one was made. A step of the applier pushes the messages of
  -- its round together. Searches and restarts are left out.
  pub Goes-in_order :
      (ar : Archive) (empty : M) (me : ℕ) (raft_file snapshot_file : Option Bytes) (now : ℕ)
      {p : Process M} {q : Running M}
      → boot ar empty me raft_file snapshot_file now ≡ ok p
      → Goes sl parser junk ar (running p) q
      → IsFed p.node.last_applied q.process.node q.taken q.pushed
        × IsDecided junk q.taken q.tested q.executed q.thread
        × (q.process.server.kvdb ≡ store_ops sl parser junk p.server.kvdb q.executed)
        × (calls_due sl parser junk q.thread q.process.server.index_calls
            ≡ index_ops sl parser junk p.server.index_calls q.executed)
  Goes-in_order ar empty me raft_file snapshot_file now {p} {q} h run =
      let i = Goes-IsInOrder ar (boot-chan ar empty me raft_file snapshot_file now h) run in
      (i.fed, i.decided, i.carried.same_store, i.carried.same_index)

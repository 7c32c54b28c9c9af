-- ===== src/Raft/Tests/Saving.antt =====
-- The persister and its worker at a concrete sequence of steps.
use my_kv_storage_base_raft.Common.{
  ℕ, ◌≤◌, ◌≡◌, refl, Bytes, none, some, true, false, [], ◌∷◌, arith,
}
use my_kv_storage_base_raft.Raft.Persister.{
  Persister, Job, init, save_raft_state, take, takes, write_job, write_part, write_file_atomic,
  finish,
}
use my_kv_storage_base_raft.Raft.Persister.Steps.{
  System, waiting, note, Steps, done, more, saves_state, loads, writes, settles,
}
use my_kv_storage_base_raft.Raft.Persister.Steps.Flushed.{begins, flushed-on_disk, drained-flushed}

abbrev no_state : ℕ → Bytes
no_state n = []

abbrev new_persister : Persister
new_persister = init none none

-- Two saves before the worker wakes: it takes the second.
abbrev after_first : Persister
after_first = (save_raft_state new_persister (5 ∷ [])).0

abbrev after_second : Persister
after_second = (save_raft_state after_first (6 ∷ [])).0

abbrev taken_job : Job
taken_job = record { state_to_write = some (6 ∷ []); snapshot_to_write = none; seq_to_write = 2 }

abbrev left : Persister
left = record after_second { pending_raft_state = []; has_pending_raft = false }

abbrev at_end : System
at_end = record {
  persister = finish 2 (write_job true true taken_job left);
  worker = waiting;
  saved = note (note no_state 1 (5 ∷ [])) 2 (6 ∷ []);
}

took : take after_second ≡ takes taken_job left
unfolding take save_raft_state init
took = refl

run : Steps (begins none none no_state) at_end
unfolding save_raft_state init
run = more (saves_state new_persister waiting no_state (5 ∷ [])) (
    more (saves_state after_first waiting (note no_state 1 (5 ∷ [])) (6 ∷ [])) (
      more (loads after_second left (note (note no_state 1 (5 ∷ [])) 2 (6 ∷ [])) taken_job took) (
        more (writes left (note (note no_state 1 (5 ∷ [])) 2 (6 ∷ [])) taken_job true) (
          more
            (settles (write_job true true taken_job left)
              (note (note no_state 1 (5 ∷ [])) 2 (6 ∷ [])) 2)
            done))))

flushed-on_disk_example :
    (n : ℕ) × (1 ≤ n)
    × (n ≤ at_end.persister.next_seq)
    × (at_end.persister.raft_file ≡ some (at_end.saved n))
unfolding save_raft_state init write_job write_part write_file_atomic finish
flushed-on_disk_example = flushed-on_disk none none no_state 1 run (omega arith) (omega arith)

drained-flushed_example : at_end.persister.flushed_seq ≡ at_end.persister.next_seq
unfolding save_raft_state init write_job write_part write_file_atomic finish
drained-flushed_example = drained-flushed none none no_state run refl refl

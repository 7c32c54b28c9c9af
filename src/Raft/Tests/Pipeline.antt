-- ===== src/Raft/Tests/Pipeline.antt =====
-- The sender of a peer on a leader with three entries.
use my_kv_storage_base_raft.Common.{◌≤◌, length, ◌≡◌, refl, some, [], ◌∷◌, arith}
use my_kv_storage_base_raft.Raft.Types.{AppendEntriesArgs, PipelineBatch}
use my_kv_storage_base_raft.Raft.State.{Raft}
use my_kv_storage_base_raft.Raft.Toy.{toy_archive, leader_three}
use my_kv_storage_base_raft.Raft.Log.{get_last_log_index}
use my_kv_storage_base_raft.Raft.Log.Shape.{IsIndexed}
use my_kv_storage_base_raft.Raft.Vote.{become_leader, empty_pipeline}
use my_kv_storage_base_raft.Raft.Pipeline.{
  window, pipeline_max_inflight, create_pipeline_batch, can_send_pipeline_batch,
  peer_pipeline_sender_round,
}
use my_kv_storage_base_raft.Raft.Pipeline.Bounded.{
  Piped, outside, begins, tested, made, inserted, won, insert_in_flight, Pipes-bounded,
}
use my_kv_storage_base_raft.Raft.Pipeline.Streams.{Carries, peer_pipeline_sender_round-Carries}

abbrev piped : Raft
piped = record leader_three {
  peer_pipeline = empty_pipeline ∷ empty_pipeline ∷ empty_pipeline ∷ [];
}

abbrev after : Raft
after = (peer_pipeline_sender_round piped 2 0 7).node

piped-IsIndexed : IsIndexed piped
piped-IsIndexed = (refl, (refl, (refl, tt)))

peer_pipeline_sender_round-Carries_example :
    (args : AppendEntriesArgs) × ((peer_pipeline_sender_round piped 2 0 7).sent ≡ some args)
    × Carries piped 2 args after
unfolding get_last_log_index can_send_pipeline_batch
peer_pipeline_sender_round-Carries_example =
    peer_pipeline_sender_round-Carries piped 2 0 7 refl piped-IsIndexed (omega arith) (omega arith)
      (omega arith) refl

-- The sender tests the window, an election comes between, and a batch is made and put in.
abbrev elected : Raft
elected = become_leader toy_archive piped

abbrev made_batch : Raft × PipelineBatch
made_batch = create_pipeline_batch elected 2 1 3 7

abbrev in_flight_one : Piped
in_flight_one = record { node = insert_in_flight made_batch.0 2 made_batch.1; sender = outside }

Pipes-bounded_example : length (window in_flight_one.node 2).in_flight ≤ pipeline_max_inflight
unfolding can_send_pipeline_batch
Pipes-bounded_example =
    Pipes-bounded toy_archive 2 {x = record { node = piped; sender = outside }} {y = in_flight_one}
      refl (omega arith)
      (inserted made_batch.1 (made 1 3 7 (won (tested begins refl refl)) refl) refl)

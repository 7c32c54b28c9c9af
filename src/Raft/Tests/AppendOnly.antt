-- ===== src/Raft/Tests/AppendOnly.antt =====
-- The log of a leader that takes a command and sends heartbeats.
use my_kv_storage_base_raft.Common.{refl, pos, [], ◌∷◌}
use my_kv_storage_base_raft.OpCoder.{Op}
use my_kv_storage_base_raft.Raft.State.{Raft}
use my_kv_storage_base_raft.Raft.Toy.{toy_archive, leader_three}
use my_kv_storage_base_raft.Raft.Persist.{persist}
use my_kv_storage_base_raft.Raft.Heartbeat.{do_heart_beat}
use my_kv_storage_base_raft.Raft.Batch.{start, add_to_pending_batch}
use my_kv_storage_base_raft.Raft.History.Steps.{starts, beats}
use my_kv_storage_base_raft.Raft.History.AppendOnly.{
  Extends, Reigns, still, reigns_on, leader_append_only,
}

abbrev command : Op
command = record {
  operation = 80 ∷ [];
  key = 1 ∷ [];
  value = 2 ∷ [];
  client_id = 9 ∷ [];
  request_id = pos 4;
}

abbrev started_once : Raft
started_once = (start toy_archive leader_three command 5).0

abbrev beaten : Raft
beaten = (do_heart_beat started_once 6).0

reign : Reigns toy_archive leader_three beaten
unfolding start add_to_pending_batch persist do_heart_beat
reign = reigns_on (reigns_on (still refl) (starts command 5) refl) (beats 6) refl

leader_append_only_example : Extends leader_three beaten
leader_append_only_example = leader_append_only toy_archive reign

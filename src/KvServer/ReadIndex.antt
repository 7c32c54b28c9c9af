-- ===== src/KvServer/ReadIndex.antt =====
-- `WaitForCommitIndex`, `QueryLeaderForReadIndex` and `SetLeaderInfo` of KvServer/KvServer.cpp,
-- which the program does not call.
use my_kv_storage_base_raft.Common.{
  ℕ, Bool, true, false, ℤ, pos, leb_ℤ, Option, none, some, if◌then◌else◌, Bytes,
}
use my_kv_storage_base_raft.Raft.Types.{ReadIndexResponse}
use my_kv_storage_base_raft.Raft.State.{Raft}
use my_kv_storage_base_raft.Raft.Apply.{get_leader_info}
use my_kv_storage_base_raft.KvServer.Types.{SkipList, KvServer}
use my_kv_storage_base_raft.KvServer.{set_at, opened, head_of}

-- The members that `SetLeaderInfo` sets.
pub record LeaderInfo : Type 0 where
  pub leader_id : ℤ
  pub leader_ip : Bytes
  pub leader_port : ℤ

abbrev pub set_leader_info : LeaderInfo → ℤ → Bytes → ℤ → LeaderInfo
set_leader_info info id ip port = record { leader_id = id; leader_ip = ip; leader_port = port }

-- `QueryLeaderForReadIndex`: the commit index; `response` is what the leader answered.
unfoldable pub query_leader_for_read_index : Raft → Option ReadIndexResponse → Option ℕ
query_leader_for_read_index raft none = none
query_leader_for_read_index raft (some response) =
    if leb_ℤ (pos 0) (get_leader_info raft)
    then (if response.is_leader then some response.commit_index else none)
    else none

module _ {M : Type 0} (sl : SkipList M) where
  -- `WaitForCommitIndex` up to the wait.
  unfoldable pub open_commit_index : KvServer M → ℕ → KvServer M
  open_commit_index s target = record s {
    commit_index_ch = set_at s.commit_index_ch target (opened sl (s.commit_index_ch target));
  }

  -- And from the end of the wait on: whether there was a message.
  unfoldable pub close_commit_index : KvServer M → ℕ → KvServer M × Bool
  close_commit_index s target = (
    record s { commit_index_ch = set_at s.commit_index_ch target none },
    elim (head_of sl (s.commit_index_ch target)) [ none ↦ false | some msg ↦ true ],
  )

-- ===== src/Raft/Tests/OneLeader.antt =====
-- Three new nodes: the second stands, the first votes for it, and it counts the vote.
use my_kv_storage_base_raft.Common.{ℕ, ◌≡◌, refl, inl, true, false, pos, none, some, [], ◌∷◌, arith}
use my_kv_storage_base_raft.Raft.Types.{ok, candidate, leader, RequestVoteArgs, RequestVoteReply}
use my_kv_storage_base_raft.Raft.State.{Raft}
use my_kv_storage_base_raft.Raft.Toy.{toy_archive, started}
use my_kv_storage_base_raft.Raft.Persister.Durable.{init-IsQuiet}
use my_kv_storage_base_raft.Raft.Log.{up_to_data, get_last_log_index, get_last_log_term}
use my_kv_storage_base_raft.Raft.Persist.{persist, persist_node}
use my_kv_storage_base_raft.Raft.Vote.{
  request_vote1, do_election, send_request_vote, cast_vote, adopt_term, count_vote, become_leader,
  start_batch_sender_thread,
}
use my_kv_storage_base_raft.Raft.Cluster.{
  Cluster, put, put2, mark, IsNew, Reached, begun, later, node_stands, node_votes, node_counts,
}
use my_kv_storage_base_raft.Raft.Cluster.OneLeader.{one_leader_per_term}

abbrev pub new_node : ℕ → Raft
new_node i = record started { me = i }

abbrev pub new_cluster : Cluster
new_cluster = record {
  node = new_node;
  vote_num = λ _ _. 0;
  returned = λ _ _ _. false;
  requests = [];
  answers = [];
}

pub new_cluster-IsNew : IsNew 3 new_cluster
unfolding persist_node my_kv_storage_base_raft.Raft.Persister.init
new_cluster-IsNew = record {
  me = λ i _. refl;
  peers = λ i _. refl;
  blank = λ i _. record { quiet = init-IsQuiet none none; memory = refl; file = refl; node = refl };
  not_leader = λ i _ e. ground arith;
  requests = refl;
  answers = refl;
}

abbrev pub request : RequestVoteArgs
request = record { term = 1; candidate_id = 1; last_log_index = 0; last_log_term = 0 }

abbrev pub stood : Raft
stood =
    record (persist toy_archive
      (record (new_node 1) { status = candidate; current_term = 1; voted_for = pos 1 })) {
        last_reset_election_time = 5;
      }

abbrev pub grant : RequestVoteReply
grant = record { term = 1; vote_granted = true; vote_state = 3 }

abbrev pub voter : Raft
voter =
    persist toy_archive
      (record (new_node 0) { current_term = 1; voted_for = pos 1; last_reset_election_time = 6 })

pub one_stands : do_election toy_archive (new_node 1) 5 ≡ some (stood, request)
unfolding do_election persist get_last_log_index get_last_log_term
one_stands = refl

pub zero_votes : request_vote1 toy_archive (new_node 0) request 6 ≡ ok (voter, grant)
unfolding request_vote1 adopt_term cast_vote up_to_data get_last_log_index get_last_log_term
zero_votes = refl

pub one_counts :
    send_request_vote toy_archive stood (some grant) 1 ≡ ok (become_leader toy_archive stood, 0)
unfolding send_request_vote count_vote persist
one_counts = refl

pub one_leads : (become_leader toy_archive stood).status ≡ leader
unfolding become_leader start_batch_sender_thread persist
one_leads = refl

abbrev pub standing_cluster : Cluster
standing_cluster = record new_cluster {
  node = put new_cluster.node 1 stood;
  vote_num = put2 new_cluster.vote_num 1 1 1;
  requests = request ∷ [];
}

abbrev pub answered_cluster : Cluster
answered_cluster = record standing_cluster {
  node = put standing_cluster.node 0 voter;
  answers = record { voter = 0; args = request; reply = grant } ∷ [];
}

abbrev pub elected_cluster : Cluster
elected_cluster = record answered_cluster {
  node = put answered_cluster.node 1 (become_leader toy_archive stood);
  vote_num = put2 answered_cluster.vote_num 1 1 0;
  returned = mark answered_cluster.returned 1 1 0;
}

elected_cluster-Reached : Reached toy_archive 3 elected_cluster
unfolding put put2 mark
elected_cluster-Reached =
    later
      (later (later (begun new_cluster-IsNew) (node_stands 1 5 (omega arith) one_stands))
        (node_votes 0 6 request (omega arith) (inl refl) (λ e. ground arith) zero_votes))
      (node_counts (record { voter = 0; args = request; reply = grant }) (inl refl) refl one_counts)

-- Whichever node leads in the term of the second is the second.
one_leader_per_term_example : request.candidate_id ≡ 1
unfolding put
one_leader_per_term_example =
    one_leader_per_term toy_archive 3 1 1 elected_cluster-Reached (omega arith) (omega arith)
      one_leads one_leads refl

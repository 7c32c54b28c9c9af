-- ===== src/Server/Tests.antt =====
-- A process starts, its node is sent an entry that is committed, and its server applies it.
use my_kv_storage_base_raft.Common.{◌≡◌, refl, pos, true, none, some, [], ◌∷◌}
use my_kv_storage_base_raft.OpCoder.{
  Op, encode_op, decode_op, decode_key, decode_value, decode_client, decode_request, write_field,
  read_field, read_body, le_bytes,
}
use my_kv_storage_base_raft.OpCoder.Decimal.{to_string, stoi, unsigned_value, digits, digits_value}
use my_kv_storage_base_raft.Common.Assoc.{lookup}
use my_kv_storage_base_raft.Raft.Types.{ok, AppendEntriesArgs, AppendEntriesReply, ApplyMsg}
use my_kv_storage_base_raft.Raft.State.{Raft}
use my_kv_storage_base_raft.Raft.Toy.{toy_archive}
use my_kv_storage_base_raft.Raft.Persister
use my_kv_storage_base_raft.Raft.Log.{
  match_log, get_last_log_index, get_slices_index_from_log_index,
}
use my_kv_storage_base_raft.Raft.Persist.{persist, init, fresh, skip_snapshot, read_persist}
use my_kv_storage_base_raft.Raft.Vote.{adopt_term}
use my_kv_storage_base_raft.Raft.Append.{
  append_entries1, append_current, accept, merge_entries, merge_entry,
}
use my_kv_storage_base_raft.Raft.Apply.{apply_msg, apply_msgs, applier_round, push_msgs}
use my_kv_storage_base_raft.Raft.History.Steps.{appends, applies}
use my_kv_storage_base_raft.KvServer.{if_request_duplicate, record_request_result}
use my_kv_storage_base_raft.KvServer.Toy.{Store, list_store, toy_parser}
use my_kv_storage_base_raft.Server.{
  Process, boot, new_server, Running, running, with_server, apply_thread_round, apply_goes_on, Goes,
  starts_here, node_acts, message_taken, goes_on, get_recorded,
}
use my_kv_storage_base_raft.Server.Applying.{tests, apply_step}
use my_kv_storage_base_raft.Server.Carrying.{calls_due, store_ops, index_ops}
use my_kv_storage_base_raft.Server.Deciding.{IsDecided}
use my_kv_storage_base_raft.Server.InOrder.{IsFed, Goes-in_order}

abbrev command : Op
command = record {
  operation = 80 ∷ 117 ∷ 116 ∷ [];
  key = 1 ∷ [];
  value = 2 ∷ [];
  client_id = 9 ∷ [];
  request_id = pos 4;
}

abbrev booted : Process Store
booted = record { node = fresh 3 1 (Persister.init none none) (some []) 0; server = new_server [] }

it_boots : boot toy_archive [] 1 none none 0 ≡ ok booted
unfolding boot init skip_snapshot read_persist fresh Persister.init
it_boots = refl

abbrev batch : AppendEntriesArgs
batch = record {
  term = 1;
  leader_id = 0;
  prev_log_index = 0;
  prev_log_term = pos 0;
  entries = record { command = encode_op command; log_term = 1; log_index = 1 } ∷ [];
  leader_commit = 1;
  batch_id = 1;
}

abbrev supplied : Raft
supplied = persist toy_archive (record (booted.node) {
  current_term = 1;
  logs = batch.entries;
  commit_index = 1;
  last_reset_election_time = 25;
})

abbrev accepted : AppendEntriesReply
accepted = record { term = 1; success = true; update_next_index = pos 0; app_state = 1 }

one_appends : append_entries1 toy_archive booted.node batch 25 ≡ ok (supplied, accepted)
unfolding append_entries1 append_current accept merge_entries merge_entry match_log
    get_last_log_index persist adopt_term fresh
one_appends = refl

abbrev message : ApplyMsg
message = record { command_valid = true; index = 1; command = encode_op command }

abbrev fed : Raft
fed = record supplied { last_applied = 1; apply_chan = some (message ∷ []) }

one_feeds : applier_round supplied ≡ ok fed
unfolding applier_round apply_msgs apply_msg get_slices_index_from_log_index push_msgs persist fresh
one_feeds = refl

abbrev fed_process : Running Store
fed_process = record (running booted) {
  process = record booted { node = fed };
  pushed = message ∷ [];
}

-- The apply thread took the message and is in front of the test.
abbrev took : Running Store
took = record fed_process {
  process = record booted { node = record fed { apply_chan = some [] } };
  thread = tests message (decode_op (pos 0) message.command);
  taken = message ∷ [];
}

one_takes : apply_thread_round list_store toy_parser (pos 0) fed_process ≡ some took
unfolding apply_thread_round
one_takes = refl

fed-Goes : Goes list_store toy_parser (pos 0) toy_archive (running booted) fed_process
unfolding apply_msgs apply_msg get_slices_index_from_log_index persist fresh
fed-Goes =
    node_acts (node_acts starts_here (appends batch 25 accepted one_appends) tt) (applies one_feeds)
      tt

-- A `Get` of another client comes between the test and the store.
abbrev noted : Running Store
noted =
    let r = apply_goes_on list_store toy_parser (pos 0) took in
    with_server r (record (r.process.server) {
      last_requests =
          record_request_result r.process.server.last_requests
            (record command { client_id = 8 ∷ [] }) [];
    })

abbrev stored : Running Store
stored = apply_goes_on list_store toy_parser (pos 0) noted

stored-Goes : Goes list_store toy_parser (pos 0) toy_archive (running booted) stored
stored-Goes = goes_on (
    get_recorded (record command { client_id = 8 ∷ [] }) []
      (goes_on (message_taken fed-Goes refl one_takes)))

-- The thread has carried out the operation, and is in front of the record.
it_stores : stored.executed ≡ decode_op (pos 0) message.command ∷ []
unfolding apply_step if_request_duplicate lookup fresh encode_op decode_op decode_key decode_value
    decode_client decode_request write_field read_field read_body le_bytes to_string stoi
    unsigned_value digits digits_value
it_stores = refl

Goes-in_order_example :
    IsFed 0 stored.process.node (message ∷ []) (message ∷ [])
    × IsDecided (pos 0) (message ∷ []) stored.tested stored.executed stored.thread
    × (stored.process.server.kvdb ≡ store_ops list_store toy_parser (pos 0) [] stored.executed)
    × (calls_due list_store toy_parser (pos 0) stored.thread stored.process.server.index_calls
        ≡ index_ops list_store toy_parser (pos 0) [] stored.executed)
unfolding fresh
Goes-in_order_example =
    Goes-in_order list_store toy_parser (pos 0) toy_archive [] 1 none none 0 it_boots stored-Goes

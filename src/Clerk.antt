-- ===== src/Clerk.antt =====
-- Clerk/clerk.cpp: the client's requests and its loops of retries. What each call of the stub gave
-- is an argument; `InitStub` gets a connection before every call that needs one.
pub mod Retries
mod Tests
use my_kv_storage_base_raft.Common.{
  ℕ, zero, suc, ◌+◌, Bool, true, false, ℤ, pos, Option, none, some, List, [], ◌∷◌, ltb,
  if◌then◌else◌, Bytes, eq_bytes,
}
use my_kv_storage_base_raft.OpCoder.Decimal.{to_string}
use my_kv_storage_base_raft.KvServer.Types.{PutAppendArgs, GetArgs, ItemFeature, put_name}

-- "OK", "ErrNoKey" and "ErrWrongLeader" as the client reads them.
abbrev pub ok_text : Bytes
ok_text = 79 ∷ 75 ∷ []

abbrev pub no_key_text : Bytes
no_key_text = 69 ∷ 114 ∷ 114 ∷ 78 ∷ 111 ∷ 75 ∷ 101 ∷ 121 ∷ []

abbrev pub wrong_leader_text : Bytes
wrong_leader_text =
    69 ∷ 114 ∷ 114 ∷ 87 ∷ 114 ∷ 111 ∷ 110 ∷ 103 ∷ 76 ∷ 101 ∷ 97 ∷ 100 ∷ 101 ∷ 114 ∷ []

abbrev pub max_retry : ℕ
max_retry = 100

-- A call that failed, or a response with its `err` and its value; a response to a write has none.
pub data Response : Type 0 where
  failed : Response
  response : Bytes → Bytes → Response

-- Where a loop returns: after "OK" or, for a read, "ErrNoKey"; after too many failures; after any
-- other `err`.
pub data Ending : Type 0 where
  took : Bytes → Ending
  absent : Ending
  gave_up : Ending
  refused : Ending

pub record Clerk : Type 0 where
  pub request_id : ℕ
  pub client_id : ℕ
  pub connected : Bool

-- `Init`, with what `rand` returned.
unfoldable pub init : ℕ → Clerk
init client_id = record { request_id = 0; client_id = client_id; connected = false }

-- The loop of `Put` and `PutFeature`, with the responses to come: where it returns and the
-- responses that it has not asked for, or `none` where it goes on behind the last response.
unfoldable pub write_loop : ℕ → List Response → Option (Ending × List Response)
write_loop retry_count [] = none
write_loop retry_count (failed ∷ later) =
    let rest = write_loop (suc retry_count) later in
    if ltb max_retry (suc retry_count) then some (gave_up, later) else rest
write_loop retry_count (response err value ∷ later) =
    let rest = write_loop 0 later in
    if eq_bytes err ok_text
    then some (took [], later)
    else if eq_bytes err wrong_leader_text
    then rest
    else some (refused, later)

-- The loop of `Get`.
unfoldable pub read_loop : ℕ → List Response → Option (Ending × List Response)
read_loop retry_count [] = none
read_loop retry_count (failed ∷ later) =
    let rest = read_loop (suc retry_count) later in
    if ltb max_retry (suc retry_count) then some (gave_up, later) else rest
read_loop retry_count (response err value ∷ later) =
    let rest = read_loop 0 later in
    if eq_bytes err ok_text
    then some (took value, later)
    else if eq_bytes err no_key_text
    then some (absent, later)
    else if eq_bytes err wrong_leader_text
    then rest
    else some (refused, later)

-- The connection that a loop leaves behind: a failure drops it.
abbrev keeps_connection : Ending → Bool
keeps_connection gave_up = false
keeps_connection (took value) = true
keeps_connection absent = true
keeps_connection refused = true

abbrev pub next_request : Clerk → Clerk
next_request c = record c { request_id = c.request_id + 1 }

abbrev after_loop : Clerk → Option (Ending × List Response) → Option (Clerk × Ending)
after_loop c none = none
after_loop c (some (ending, later)) =
    some (record c { connected = keeps_connection ending }, ending)

-- The request that every round of `Put` sends.
unfoldable pub put_request : Clerk → Bytes → Bytes → PutAppendArgs
put_request c key value = record {
  key = key;
  value = value;
  op = put_name;
  client_id = to_string (pos c.client_id);
  request_id = pos c.request_id;
}

-- `Put`: the request, and the client and the place where it returns.
unfoldable pub put : Clerk → Bytes → Bytes → List Response → PutAppendArgs × Option (Clerk × Ending)
unfolding write_loop put_request
put c key value responses =
    (put_request (next_request c) key value, after_loop (next_request c) (write_loop 0 responses))

-- `PutFeature` sends the feature under the same two numbers.
unfoldable pub put_feature :
    Clerk → ItemFeature → List Response → (ItemFeature × Bytes × ℕ) × Option (Clerk × Ending)
unfolding write_loop
put_feature c feat responses = (
  (feat, to_string (pos c.client_id), c.request_id + 1),
  after_loop (next_request c) (write_loop 0 responses),
)

-- The string that `Get` returns.
abbrev pub returned : Ending → Bytes
returned (took value) = value
returned absent = []
returned gave_up = []
returned refused = []

unfoldable pub get_request : Clerk → Bytes → GetArgs
get_request c key = record {
  key = key;
  client_id = to_string (pos c.client_id);
  request_id = pos c.request_id;
}

-- `Get`
unfoldable pub get : Clerk → Bytes → List Response → GetArgs × Option (Clerk × Ending)
unfolding read_loop get_request
get c key responses =
    (get_request (next_request c) key, after_loop (next_request c) (read_loop 0 responses))

-- `Close`
abbrev pub close : Clerk → Clerk
close c = record c { connected = false }

-- The kind of search that the request names besides is always the same.
pub record SearchRequest : Type 0 where
  pub query_vector : List ℕ
  pub top_k : ℤ

pub record SearchResult : Type 0 where
  pub item_ids : List Bytes
  pub scores : List ℕ
  pub search_time_us : ℤ

abbrev found : Option SearchResult → SearchResult
found none = record { item_ids = []; scores = []; search_time_us = pos 0 }
found (some reply) = reply

-- `Search`: one call, which may have failed. The connection is kept in both cases, and the request
-- takes no number.
unfoldable pub search :
    Clerk → List ℕ → ℤ → Option SearchResult → SearchRequest × Clerk × SearchResult
search c query_vector top_k reply = (
  record { query_vector = query_vector; top_k = top_k },
  record c { connected = true },
  found reply,
)

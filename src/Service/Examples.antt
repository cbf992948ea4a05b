-- ===== src/Service/Examples.antt =====
-- A backup whose service gets a request and a prepare.
use adaptive_leader.Base.{
  ◌≤◌, ◌≡◌, refl, true, false, [], ◌∷◌, ◌++◌, List, some, All, codes, length, lookup, insert,
  nat_eq, arith,
}
use adaptive_leader.Base.Int64.{int64}
use adaptive_leader.Messages.{OperationType, ClientRequest, PrepareRequest}
use adaptive_leader.Samples.{cluster, node_0, node_1, node_2, node_3}
use adaptive_leader.Store.{new_store}
use adaptive_leader.Node.Defs.{Node, Output, new_view_data, request_to_peer, adds_prepare}
use adaptive_leader.Node.Steps.{prepare}
use adaptive_leader.Transaction.{new_transaction_state}
use adaptive_leader.Service.{
  selecting, busy, waiting, Replica, request_capacity, Event, request_comes, input_comes,
  enable_comes, disable_comes, loops, request_taken, input_taken, run,
}
use adaptive_leader.Service.Simulates.{Simulates}
use adaptive_leader.Service.Refinement.{run-Simulates}
use adaptive_leader.Service.Requests.{accepted_in, taken_in, requests_in_order}
use adaptive_leader.Service.Signals.{IsNotEnable, enable_is_lost}
use adaptive_leader.Service.Shut.{Shut, disabled_service-Shut}

-- What the tests compute with.
evaluation : Unit {0}
unfolding run new_store new_view_data accepted_in taken_in lookup insert new_transaction_state
evaluation = tt

abbrev request : ClientRequest
request = record {
  client_id = codes "c";
  timestamp_ns = int64 1;
  operation = record { type = OperationType.get; key = []; value = [] };
  callback = codes "localhost:1";
}

abbrev vote : PrepareRequest
vote = record {
  view_id = int64 0;
  sequence_number = int64 1;
  request_digest = [];
  replica_id = node_2;
}

-- A backup that has forwarded some requests to the leader.
abbrev backup : List Output → Node
backup sent = record {
  config = record cluster { id = node_1 };
  store = new_store;
  leader_election = record { peer_ids = node_0 ∷ node_1 ∷ node_2 ∷ node_3 ∷ [] };
  view_data = new_view_data (int64 0) (int64 0) node_0;
  pending_requests = [];
  enabled = true;
  heap = [];
  sent = sent;
  spawned = [];
}

abbrev replica : Replica
replica = record {
  service_enabled = true;
  requests = [];
  senders = [];
  control = selecting;
  node = backup [];
}

abbrev events : List Event
events =
    request_comes request
    ∷ input_comes (prepare vote)
    ∷ request_comes request
    ∷ request_taken
    ∷ loops
    ∷ input_taken 0
    ∷ disable_comes
    ∷ request_comes request
    ∷ []

-- The second request is still in the channel, and the third is refused.
abbrev after : Replica
after = record {
  service_enabled = false;
  requests = request ∷ [];
  senders = [];
  control = busy;
  node = record (backup (request_to_peer node_0 request ∷ [])) {
    view_data = record (new_view_data (int64 0) (int64 0) node_0) {
      transaction_states = (int64 1, 0) ∷ [];
    };
    heap = new_transaction_state ∷ [];
    spawned = adds_prepare 0 vote ∷ [];
  };
}

after_lem : run replica events ≡ some after
unfolding evaluation
after_lem = refl

run-Simulates_example : Simulates replica after (prepare vote ∷ [])
run-Simulates_example = run-Simulates replica after events refl after_lem

requests_in_order_example :
    (accepted_in replica events ≡ taken_in replica events ++ request ∷ [])
    × (length (request ∷ []) ≤ request_capacity)
requests_in_order_example = requests_in_order replica after events after_lem (omega arith)

enable_is_lost_example :
    (q : Replica) × (run replica (disable_comes ∷ enable_comes ∷ loops ∷ []) ≡ some q)
    × (q.service_enabled ≡ true)
    × (q.node.enabled ≡ false)
    × ((es : List Event) (s' : Replica)
        → All IsNotEnable es
        → run q es ≡ some s'
        → s'.control ≡ waiting)
enable_is_lost_example = enable_is_lost replica refl

-- A disabled service whose loop still works.
abbrev shut : Replica
shut = record replica { service_enabled = false; control = busy }

abbrev refused : List Event
refused = request_comes request ∷ input_comes (prepare vote) ∷ loops ∷ []

disabled_service-Shut_example :
    Shut shut (record shut { control = selecting }) (accepted_in shut refused)
unfolding run
disabled_service-Shut_example =
    disabled_service-Shut shut (record shut { control = selecting }) refused refl
      (tt, (tt, (tt, tt))) refl

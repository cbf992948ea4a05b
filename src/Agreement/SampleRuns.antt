-- ===== src/Agreement/SampleRuns.antt =====
-- Runs of the replicas of a cluster of four that agree on a first request, for the tests.
use adaptive_leader.Base.{
  ◌≡◌, refl, true, false, [], ◌∷◌, ◌++◌, List, some, GoString, codes, lookup, insert, delete_if,
  nat_eq, string_eq,
}
use adaptive_leader.Base.Int64.{Int64, int64}
use adaptive_leader.Config.{Config}
use adaptive_leader.Messages.{
  OperationType, ClientRequest, PiggyBackedPrePareRequest, PrepareRequest, CommitRequest,
}
use adaptive_leader.Samples.{cluster, node_0, node_1, node_2, node_3}
use adaptive_leader.LeaderElection.{get_leader, new_round_robin_leader_election}
use adaptive_leader.Transaction.{
  TransactionState, new_transaction_state, add_pre_prepare, add_prepare, add_commit,
  check_callbacks,
}
use adaptive_leader.Store.{Store, new_store, add_requests}
use adaptive_leader.Node.Defs.{
  Node, Output, Task, new_node, adds_to_store, adds_prepare, checks_callbacks, handles_committed,
  handles_commit, broadcast_pre_prepare, broadcast_prepare, broadcast_commit,
}
use adaptive_leader.Node.Steps.{
  Event, request_arrives, input_arrives, pre_prepare, prepare, commit_vote, task_runs, run,
}

-- What the tests compute with.
evaluation : Unit {0}
unfolding new_node get_leader new_round_robin_leader_election run lookup insert delete_if new_store
    add_requests new_transaction_state add_pre_prepare add_prepare add_commit check_callbacks
evaluation = tt

abbrev pub request : ClientRequest
request = record {
  client_id = codes "c";
  timestamp_ns = int64 1;
  operation = record { type = OperationType.add; key = []; value = codes "7" };
  callback = codes "localhost:1";
}

abbrev pub proposal : PiggyBackedPrePareRequest
proposal = record {
  pre_prepare_request = record {
    view_id = int64 0;
    sequence_number = int64 1;
    request_digest = [];
  };
  requests = request ∷ [];
}

abbrev prepare_of : GoString → PrepareRequest
prepare_of id = record {
  view_id = int64 0;
  sequence_number = int64 1;
  request_digest = [];
  replica_id = id;
}

abbrev pub commit_of : GoString → CommitRequest
commit_of id = record {
  view_id = int64 0;
  sequence_number = int64 1;
  request_digest = [];
  replica_id = id;
}

abbrev pub config_of : GoString → Config
config_of id = record cluster { id = id }

-- A backup receives the proposal and a prepare, and its goroutines run until it broadcasts its commit.
abbrev pub backs : GoString → List Event
backs other =
    input_arrives (pre_prepare proposal)
    ∷ input_arrives (prepare (prepare_of other))
    ∷ task_runs 0
    ∷ task_runs 0
    ∷ task_runs 0
    ∷ task_runs 0
    ∷ task_runs 2
    ∷ []

-- A replica receives three commits, and its goroutines count them and start the execution.
abbrev pub votes : List Event
votes =
    input_arrives (commit_vote (commit_of node_1))
    ∷ input_arrives (commit_vote (commit_of node_2))
    ∷ input_arrives (commit_vote (commit_of node_3))
    ∷ task_runs 2
    ∷ task_runs 2
    ∷ task_runs 2
    ∷ task_runs 0
    ∷ []

abbrev pub leads : List Event
leads = request_arrives request ∷ votes

abbrev pub follows : List Event
follows = input_arrives (pre_prepare proposal) ∷ votes ++ task_runs 1 ∷ []

-- A node that has recorded the number 1 in its only transaction.
abbrev pub started :
    GoString → Int64 → Store → List TransactionState → List Output → List Task → Node
started id last store heap sent spawned = record {
  config = config_of id;
  store = store;
  leader_election = record { peer_ids = node_0 ∷ node_1 ∷ node_2 ∷ node_3 ∷ [] };
  view_data = record {
    leader_id = node_0;
    current_view = int64 0;
    is_in_view_change = false;
    in_progress_requests = (int64 1, tt) ∷ [];
    last_sequence_number = last;
    transaction_states = (int64 1, 0) ∷ [];
  };
  pending_requests = [];
  enabled = true;
  heap = heap;
  sent = sent;
  spawned = spawned;
}

abbrev pub start : GoString → Node
start id = record (started id (int64 0) new_store [] [] []) {
  view_data = record {
    leader_id = node_0;
    current_view = int64 0;
    is_in_view_change = false;
    in_progress_requests = [];
    last_sequence_number = int64 0;
    transaction_states = [];
  };
}

pub start_lem : (id : GoString) → new_node (config_of id) new_store ≡ some (start id)
unfolding evaluation
start_lem id = refl

-- The transaction with three commits.
abbrev pub committed : TransactionState
committed = record {
  digest = [];
  preprepare = some proposal.pre_prepare_request;
  prepares = [];
  commits =
      (node_1, commit_of node_1) ∷ (node_2, commit_of node_2) ∷ (node_3, commit_of node_3) ∷ [];
  prepared = false;
  committed = false;
}

abbrev pub led : Node
led = started node_0 (int64 1) new_store (committed ∷ []) (broadcast_pre_prepare proposal ∷ []) (
    adds_to_store 0 (request ∷ [])
    ∷ checks_callbacks 0
    ∷ checks_callbacks 0
    ∷ checks_callbacks 0
    ∷ handles_committed (int64 1)
    ∷ [])

pub led_lem : run (start node_0) leads ≡ some led
unfolding evaluation
led_lem = refl

abbrev pub stored : Store
stored = record new_store { requests = (int64 1, request ∷ []) ∷ [] }

abbrev pub followed : Node
followed =
    started node_1 (int64 0) stored (committed ∷ []) (broadcast_prepare (prepare_of node_1) ∷ []) (
      adds_prepare 0 (prepare_of node_1)
      ∷ checks_callbacks 0
      ∷ checks_callbacks 0
      ∷ checks_callbacks 0
      ∷ handles_committed (int64 1)
      ∷ [])

pub followed_lem : run (start node_1) follows ≡ some followed
unfolding evaluation
followed_lem = refl

abbrev pub prepared : GoString → GoString → TransactionState
prepared id other = record {
  digest = [];
  preprepare = some proposal.pre_prepare_request;
  prepares = (id, prepare_of id) ∷ (other, prepare_of other) ∷ [];
  commits = [];
  prepared = false;
  committed = false;
}

abbrev pub backed : GoString → GoString → Node
backed id other =
    started id (int64 0) stored (prepared id other ∷ [])
      (broadcast_prepare (prepare_of id) ∷ broadcast_commit (commit_of id) ∷ [])
      (checks_callbacks 0 ∷ checks_callbacks 0 ∷ handles_commit (commit_of id) ∷ [])

pub backed_1 : run (start node_1) (backs node_2) ≡ some (backed node_1 node_2)
unfolding evaluation
backed_1 = refl

pub backed_2 : run (start node_2) (backs node_1) ≡ some (backed node_2 node_1)
unfolding evaluation
backed_2 = refl

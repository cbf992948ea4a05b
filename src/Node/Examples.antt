-- ===== src/Node/Examples.antt =====
-- The theorems on nodes at the primary of a cluster of four.
use adaptive_leader.Base.{
  ◌≡◌, refl, true, false, inl, [], ◌∷◌, ◌++◌, Option, none, some, codes, lookup, nat_eq, insert,
  delete, delete_if, arith,
}
use adaptive_leader.Base.Int64.{Int64, int64}
use adaptive_leader.Base.Decimal.{itoa, atoi}
use adaptive_leader.Messages.{
  OperationType, ClientRequest, PrepareRequest, CheckpointRequest, StatusResponse,
  ViewChangeRequest, NewViewRequest,
}
use adaptive_leader.Samples.{cluster, node_0, node_1, node_2, node_3}
use adaptive_leader.LeaderElection.{get_leader}
use adaptive_leader.Transaction.{TransactionState, new_transaction_state}
use adaptive_leader.Store.{
  Store, Executed, commit, add_checkpoint_request, new_checkpoint_id, stabilize_checkpoint,
  new_store, update_last_stable_checkpoint,
}
use adaptive_leader.Store.Values.{apply_all, apply, value_at, digest}
use adaptive_leader.Node.Defs.{Node, verify, is_primary, new_view_data}
use adaptive_leader.Node.Requests.{propose, handle_client_request}
use adaptive_leader.Node.Commits.{handle_committed_txn, handle_checkpoint_request}
use adaptive_leader.Node.Views.{
  get_current_prepared_requests, handle_new_view_request, verify_status_response,
  handle_status_response,
}
use adaptive_leader.Node.Replies.{answers, handle_committed_txn_lem}
use adaptive_leader.Node.Primary.{proposes, IsKept, handle_client_request_lem}
use adaptive_leader.Node.Numbers.{new_view_reuses_number, status_skips_number}
use adaptive_leader.Node.Stable.{handle_checkpoint_request_lem}
use adaptive_leader.Node.Prepared.{prepared_without_pre_prepare}
use adaptive_leader.ViewChanger.NewView.{create_preprepare_messages, digest_for}

-- What the tests compute with.
evaluation : Unit {0}
unfolding verify is_primary new_view_data commit apply_all apply value_at digest itoa atoi
    add_checkpoint_request new_checkpoint_id stabilize_checkpoint update_last_stable_checkpoint
    handle_new_view_request verify_status_response handle_status_response get_leader
    get_current_prepared_requests new_store lookup insert delete delete_if digest_for
evaluation = tt

abbrev request : ClientRequest
request = record {
  client_id = codes "c";
  timestamp_ns = int64 1;
  operation = record { type = OperationType.add; key = []; value = codes "7" };
  callback = codes "localhost:1";
}

-- Number 1 is stored, and in progress.
abbrev store : Store
store = record {
  unstable_checkpoints = [];
  last_stable_checkpoint = none;
  state = record { value = [] };
  requests = (int64 1, request ∷ []) ∷ [];
  last_applied_sequence_number = int64 0;
  committed_requests = [];
}

abbrev primary : Node
primary = record {
  config = cluster;
  store = store;
  leader_election = record { peer_ids = node_0 ∷ node_1 ∷ node_2 ∷ node_3 ∷ [] };
  view_data = record {
    leader_id = node_0;
    current_view = int64 0;
    is_in_view_change = false;
    in_progress_requests = (int64 1, tt) ∷ [];
    last_sequence_number = int64 1;
    transaction_states = (int64 1, 0) ∷ [];
  };
  pending_requests = [];
  enabled = true;
  heap = new_transaction_state ∷ [];
  sent = [];
  spawned = [];
}

abbrev prepare : Int64 → PrepareRequest
prepare k = record {
  view_id = int64 0;
  sequence_number = k;
  request_digest = [];
  replica_id = node_1;
}

-- What committing 1 returns.
abbrev executed : Executed
executed = record {
  store = record store {
    state = record { value = ([], int64 7) ∷ [] };
    last_applied_sequence_number = int64 1;
    committed_requests = (int64 1, request ∷ []) ∷ [];
  };
  reqs = request ∷ [];
  results = record { value = codes "7" } ∷ [];
  checkpoints = [];
}

handle_committed_txn_lem_example :
    (n : Node) × (handle_committed_txn primary (int64 1) ≡ some n)
    × (n.sent ≡ answers (int64 0) node_0 (request ∷ []) (record { value = codes "7" } ∷ []))
    × (n.store ≡ executed.store)
    × (n.view_data.in_progress_requests ≡ [])
unfolding evaluation
handle_committed_txn_lem_example = handle_committed_txn_lem primary (int64 1) executed refl

handle_client_request_lem_example : IsKept primary request (handle_client_request primary request)
unfolding evaluation
handle_client_request_lem_example =
    handle_client_request_lem primary request refl refl (omega arith)

-- The new view of view 4 starts with the numbers 1 and 2.
abbrev new_view : NewViewRequest
new_view = record {
  new_view_id = int64 4;
  view_change_proof = [];
  preprepares =
      record { view_id = int64 4; sequence_number = int64 1; request_digest = codes "nil" }
      ∷ record { view_id = int64 4; sequence_number = int64 2; request_digest = codes "nil" }
      ∷ [];
  replica_id = node_0;
}

-- The node after it has taken part in a new view.
abbrev in_new_view : Option Node
in_new_view = handle_new_view_request primary new_view

abbrev resumed : Node
resumed = elim in_new_view [ none ↦ primary | some n ↦ n ]

new_view_reuses_number_example :
    (propose resumed request).sent ≡ resumed.sent ++ proposes (int64 4) (int64 2) request ∷ []
unfolding evaluation
new_view_reuses_number_example =
    new_view_reuses_number primary resumed new_view
      (record { view_id = int64 4; sequence_number = int64 1; request_digest = codes "nil" })
      (record { view_id = int64 4; sequence_number = int64 2; request_digest = codes "nil" }) []
      (int64 1) request refl (refl, (refl, tt)) (omega arith) (omega arith) refl

abbrev checkpoint : Int64 → CheckpointRequest
checkpoint k = record {
  sequence_number = k;
  state_digest = codes "7";
  replica_id = node_1;
  view_id = int64 0;
}

abbrev response : StatusResponse
response = record {
  last_stable_sequence_number = int64 4;
  checkpoint_proof = checkpoint (int64 4) ∷ [];
}

abbrev caught_up : Node
caught_up = elim (handle_status_response primary response) [ none ↦ primary | some n ↦ n ]

-- Number 5 is left out.
status_skips_number_example :
    (propose caught_up request).sent
    ≡ caught_up.sent ++ proposes caught_up.view_data.current_view (int64 6) request ∷ []
unfolding evaluation
status_skips_number_example = status_skips_number primary caught_up response request refl refl

-- Two replicas have sent the checkpoint of 2.
abbrev nearly_stable : Node
nearly_stable = record primary {
  store = record store {
    unstable_checkpoints =
        (
          new_checkpoint_id (checkpoint (int64 2)),
          record { first = checkpoint (int64 2); rest = checkpoint (int64 2) ∷ [] },
        )
        ∷ [];
  };
}

handle_checkpoint_request_lem_example :
    let n = handle_checkpoint_request nearly_stable (checkpoint (int64 2)) in
    (lookup (int64 1) n.view_data.transaction_states ≡ none)
    × (lookup (int64 1) n.view_data.in_progress_requests ≡ none)
    × (n.store ≡ (add_checkpoint_request cluster nearly_stable.store (checkpoint (int64 2))).0)
    × (n.sent ≡ [])
    × (n.pending_requests ≡ [])
unfolding evaluation
handle_checkpoint_request_lem_example =
    handle_checkpoint_request_lem nearly_stable (checkpoint (int64 2)) (int64 2) (int64 1) refl

-- Two prepares for number 1 came before its pre-prepare.
abbrev early : TransactionState
early = record {
  digest = [];
  preprepare = none;
  prepares = (node_1, prepare (int64 1)) ∷ (node_2, prepare (int64 1)) ∷ [];
  commits = [];
  prepared = true;
  committed = false;
}

abbrev early_votes : Node
early_votes = record primary { heap = early ∷ [] }

abbrev vote : ViewChangeRequest
vote = record {
  new_view_id = int64 1;
  last_stable_sequence_number = int64 0;
  checkpoint_proof = [];
  prepared_proof = get_current_prepared_requests early_votes;
  replica_id = node_0;
}

prepared_without_pre_prepare_example : create_preprepare_messages (int64 1) (vote ∷ []) 1 ≡ none
prepared_without_pre_prepare_example =
    prepared_without_pre_prepare early_votes (int64 1) 0 early (int64 1) vote (vote ∷ []) 1
      (inl refl) refl refl (omega arith) refl (inl refl)

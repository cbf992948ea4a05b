-- ===== src/Node/Defs.antt =====
-- The state of a node, and what its handlers share.
use adaptive_leader.Base.{
  ℕ, Bool, true, false, ◌||◌, List, [], ◌∷◌, ◌++◌, Option, none, some, GoString, Map, length,
  get_elem?, set, lookup, insert, ◌==◌, ltb, leb, if◌then◌else◌, string_eq, nat_eq,
}
use adaptive_leader.Base.Int64.{Int64, int64, inc64, add64}
use adaptive_leader.Config.{Config}
use adaptive_leader.Messages.{
  ClientRequest, ClientResponse, PrePrepareRequest, PiggyBackedPrePareRequest, PrepareRequest,
  CommitRequest, CheckpointRequest, StatusRequest, StatusResponse,
}
use adaptive_leader.LeaderElection.{RoundRobin, new_round_robin_leader_election, get_leader}
use adaptive_leader.Transaction.{
  TransactionState, new_transaction_state, add_pre_prepare, add_prepare,
}
use adaptive_leader.Store.{Store, get_sequence_number}

-- A pointer to a transaction: its place in the node's heap. Goroutines keep theirs when the map of
-- transactions is replaced.
abbrev pub TxnRef : Type 0
TxnRef = ℕ

pub record ViewData : Type 0 where
  pub leader_id : GoString
  pub current_view : Int64
  pub is_in_view_change : Bool
  pub in_progress_requests : Map Int64 (Unit {0})
  pub last_sequence_number : Int64
  pub transaction_states : Map Int64 TxnRef

-- The calls on the sender and on the view changer.
pub data Output : Type 0 where
  broadcast_get_status : StatusRequest → Output
  broadcast_pre_prepare : PiggyBackedPrePareRequest → Output
  broadcast_prepare : PrepareRequest → Output
  broadcast_commit : CommitRequest → Output
  broadcast_checkpoint : CheckpointRequest → Output
  request_to_peer : GoString → ClientRequest → Output
  status_to_peer : GoString → StatusResponse → Output
  response_to_client : GoString → ClientResponse → Output
  request_executed : Int64 → Output

-- The goroutines that are started: what each will run.
pub data Task : Type 0 where
  adds_to_store : TxnRef → List ClientRequest → Task
  adds_pre_prepare : TxnRef → PrePrepareRequest → Task
  adds_prepare : TxnRef → PrepareRequest → Task
  adds_commit : TxnRef → CommitRequest → Task
  checks_callbacks : TxnRef → Task
  handles_prepared : CommitRequest → Task
  handles_committed : Int64 → Task
  handles_commit : CommitRequest → Task
  handles_checkpoint : CheckpointRequest → Task
  handles_client_request : ClientRequest → Task

-- `heap` holds the transactions, `sent` the calls made so far and `spawned` the goroutines that have
-- yet to run.
pub record Node : Type 0 where
  pub config : Config
  pub store : Store
  pub leader_election : RoundRobin
  pub view_data : ViewData
  pub pending_requests : List ClientRequest
  pub enabled : Bool
  pub heap : List TransactionState
  pub sent : List Output
  pub spawned : List Task

unfoldable pub new_view_data : Int64 → Int64 → GoString → ViewData
new_view_data view_id initial_sequence_number leader_id = record {
  leader_id = leader_id;
  current_view = view_id;
  is_in_view_change = false;
  in_progress_requests = [];
  last_sequence_number = initial_sequence_number;
  transaction_states = [];
}

-- `none` is the panic of GetLeader in a cluster with no peers.
unfoldable pub new_node : Config → Store → Option Node
unfolding new_view_data
new_node c store =
    let election = new_round_robin_leader_election c in
    elim (get_leader election (int64 0)) [
      | none ↦ none
      | some leader ↦ some (record {
        config = c;
        store = store;
        leader_election = election;
        view_data = new_view_data (int64 0) (int64 0) leader;
        pending_requests = [];
        enabled = c.general.enabled_by_default;
        heap = [];
        sent = [];
        spawned = [];
      })
    ]

unfoldable pub send : Output → Node → Node
send o n = record n { sent = n.sent ++ o ∷ [] }

-- `go`
unfoldable pub spawn : Task → Node → Node
spawn t n = record n { spawned = n.spawned ++ t ∷ [] }

unfoldable pub set_view : ViewData → Node → Node
set_view v n = record n { view_data = v }

unfoldable pub set_store : Store → Node → Node
set_store s n = record n { store = s }

unfoldable pub is_primary : Node → Bool
is_primary n = n.config.id == n.view_data.leader_id

unfoldable pub sequence_in_water_mark : Node → Int64 → Bool
sequence_in_water_mark n sequence_number =
    let low = inc64 (get_sequence_number n.store.last_stable_checkpoint) in
    let high = add64 low (int64 n.config.general.water_mark_interval) in
    if ltb sequence_number low || leb high sequence_number then false else true

-- The three verifications of a vote agree: the view is the current one, and the number in the window.
unfoldable pub verify : Node → Int64 → Int64 → Bool
unfolding sequence_in_water_mark
verify n view_id sequence_number =
    if view_id == n.view_data.current_view then sequence_in_water_mark n sequence_number else false

-- `n.ViewData.TransactionStates[n] = NewTransactionState(...)`
unfoldable pub new_txn : Int64 → Node → Node
unfolding set_view
new_txn sequence_number n =
    let v = n.view_data in
    let known = insert sequence_number (length n.heap) v.transaction_states in
    set_view (record v { transaction_states = known })
      (record n { heap = n.heap ++ new_transaction_state ∷ [] })

-- The transaction of a sequence number, made if it is missing.
unfoldable pub find_or_new_txn : Int64 → Node → Node × TxnRef
unfolding new_txn
find_or_new_txn sequence_number n = elim (lookup sequence_number n.view_data.transaction_states) [
  | some r ↦ (n, r)
  | none ↦ (new_txn sequence_number n, length n.heap)
]

-- Calls of a transaction's methods. References come from the heap's end, so none dangles.
unfoldable pub call_add_pre_prepare : TxnRef → PrePrepareRequest → Node → Node
unfolding spawn
call_add_pre_prepare r m n = elim (get_elem? n.heap r) [
  | none ↦ n
  | some t ↦
      spawn (checks_callbacks r) (record n { heap = set n.heap r (add_pre_prepare n.config t m) })
]

unfoldable pub call_add_prepare : TxnRef → PrepareRequest → Node → Node
unfolding spawn
call_add_prepare r m n = elim (get_elem? n.heap r) [
  | none ↦ n
  | some t ↦
      let (t', checks) = add_prepare n.config t m in
      let n' = record n { heap = set n.heap r t' } in
      if checks then spawn (checks_callbacks r) n' else n'
]

-- ===== src/Node/Steps.antt =====
-- The main loop and the goroutines, as steps that the environment chooses. Each handler, and each
-- goroutine, is one step.
use adaptive_leader.Base.{
  take_at, ℕ, true, false, List, [], ◌∷◌, Option, none, some, get_elem?, set, if◌then◌else◌, ◌>>=◌,
}
use adaptive_leader.Messages.{
  ClientRequest, PiggyBackedPrePareRequest, PrepareRequest, CommitRequest, CheckpointRequest,
  StatusRequest, StatusResponse, NewViewRequest,
}
use adaptive_leader.Transaction.{
  Callback, prepared_callback, committed_callback, add_commit, check_callbacks,
}
use adaptive_leader.Store.{add_requests}
use adaptive_leader.Node.Defs.{
  Node, TxnRef, Task, adds_to_store, adds_pre_prepare, adds_prepare, adds_commit, checks_callbacks,
  handles_prepared, handles_committed, handles_commit, handles_checkpoint, handles_client_request,
  broadcast_get_status, send, spawn, set_store, call_add_pre_prepare, call_add_prepare,
}
use adaptive_leader.Node.Requests.{
  too_many_outstanding, handle_client_request, handle_pre_prepare_request, handle_prepare_request,
  handle_prepared_txn, handle_commit_request,
}
use adaptive_leader.Node.Commits.{handle_committed_txn, handle_checkpoint_request}
use adaptive_leader.Node.Views.{
  handle_new_view_request, handle_status_request, handle_status_response, go_to_view_change,
}

pub data Input : Type 0 where
  pre_prepare : PiggyBackedPrePareRequest → Input
  prepare : PrepareRequest → Input
  commit_vote : CommitRequest → Input
  checkpoint : CheckpointRequest → Input
  status_request : StatusRequest → Input
  status_response : StatusResponse → Input

unfoldable pub handle_input : Node → Input → Option Node
unfolding handle_pre_prepare_request handle_prepare_request handle_commit_request
    handle_checkpoint_request handle_status_request handle_status_response
handle_input n (pre_prepare m) = some (handle_pre_prepare_request n m)
handle_input n (prepare m) = some (handle_prepare_request n m)
handle_input n (commit_vote m) = some (handle_commit_request n m)
handle_input n (checkpoint m) = some (handle_checkpoint_request n m)
handle_input n (status_request m) = some (handle_status_request n m)
handle_input n (status_response m) = handle_status_response n m

-- A request is dropped while too many are in progress.
unfoldable pub take_request : Node → ClientRequest → Node
unfolding too_many_outstanding handle_client_request
take_request n m = if too_many_outstanding n then n else handle_client_request n m

unfoldable pub get_status : Node → Node
unfolding send
get_status n = send (broadcast_get_status (record { replica_id = n.config.id })) n

unfoldable pub call_add_commit : TxnRef → CommitRequest → Node → Node
unfolding spawn
call_add_commit r m n = elim (get_elem? n.heap r) [
  | none ↦ n
  | some t ↦
      let (t', checks) = add_commit n.config t m in
      let n' = record n { heap = set n.heap r t' } in
      if checks then spawn (checks_callbacks r) n' else n'
]

unfoldable pub start_callbacks : List Callback → Node → Node
unfolding spawn
start_callbacks [] n = n
start_callbacks (prepared_callback m ∷ fs) n = start_callbacks fs (spawn (handles_prepared m) n)
start_callbacks (committed_callback k ∷ fs) n = start_callbacks fs (spawn (handles_committed k) n)

unfoldable pub call_check_callbacks : TxnRef → Node → Node
unfolding start_callbacks
call_check_callbacks r n = elim (get_elem? n.heap r) [
  | none ↦ n
  | some t ↦
      let (t', fs) = check_callbacks n.config t in
      start_callbacks fs (record n { heap = set n.heap r t' })
]

-- `storeCallback(t.preprepare.SequenceNumber, msgs)`; `none` is a nil pre-prepare.
unfoldable pub call_add_to_store : TxnRef → List ClientRequest → Node → Option Node
unfolding set_store
call_add_to_store r msgs n = do
  t ← get_elem? n.heap r
  m ← t.preprepare
  some (set_store (add_requests n.store m.sequence_number msgs) n)

unfoldable pub run_task : Node → Task → Option Node
unfolding call_add_to_store call_add_pre_prepare call_add_prepare call_add_commit
    call_check_callbacks handle_prepared_txn handle_committed_txn handle_commit_request
    handle_checkpoint_request handle_client_request
run_task n (adds_to_store r msgs) = call_add_to_store r msgs n
run_task n (adds_pre_prepare r m) = some (call_add_pre_prepare r m n)
run_task n (adds_prepare r m) = some (call_add_prepare r m n)
run_task n (adds_commit r m) = some (call_add_commit r m n)
run_task n (checks_callbacks r) = some (call_check_callbacks r n)
run_task n (handles_prepared m) = some (handle_prepared_txn n m)
run_task n (handles_committed k) = handle_committed_txn n k
run_task n (handles_commit m) = some (handle_commit_request n m)
run_task n (handles_checkpoint m) = some (handle_checkpoint_request n m)
run_task n (handles_client_request m) = some (handle_client_request n m)

-- What can happen to a node: the cases of `select`, a goroutine that runs, and the view changer's calls.
pub data Event : Type 0 where
  request_arrives : ClientRequest → Event
  input_arrives : Input → Event
  disables enables : Event
  task_runs : ℕ → Event
  view_change_begins : Event
  new_view_arrives : NewViewRequest → Event

-- `none`: the node has crashed, or it takes no such step. While it is disabled the loop waits to be
-- enabled; the goroutines and the view changer go on.
unfoldable pub step : Node → Event → Option Node
unfolding take_request handle_input get_status run_task go_to_view_change handle_new_view_request
step n (request_arrives m) = if n.enabled then some (take_request n m) else none
step n (input_arrives m) = if n.enabled then handle_input n m else none
step n disables = if n.enabled then some (record n { enabled = false }) else none
step n enables = if n.enabled then none else some (get_status (record n { enabled = true }))
step n (task_runs i) = do (t, rest) ← take_at i n.spawned; run_task (record n { spawned = rest }) t
step n view_change_begins = some (go_to_view_change n)
step n (new_view_arrives m) = handle_new_view_request n m

unfoldable pub run : Node → List Event → Option Node
unfolding step
run n [] = some n
run n (e ∷ es) = do n' ← step n e; run n' es

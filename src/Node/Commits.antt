-- ===== src/Node/Commits.antt =====
-- Committed transactions and checkpoint messages.
use adaptive_leader.Base.{
  List, [], ◌∷◌, Option, none, some, delete, delete_if, leb, if◌then◌else◌, nat_eq, ◌>>=◌,
}
use adaptive_leader.Base.Int64.{Int64}
use adaptive_leader.Messages.{ClientRequest, ClientResponse, OperationResult, CheckpointRequest}
use adaptive_leader.Store.{commit, add_checkpoint_request}
use adaptive_leader.Node.Defs.{
  Node, handles_checkpoint, handles_client_request, broadcast_checkpoint, response_to_client,
  request_executed, send, spawn, set_view, set_store,
}
use adaptive_leader.Node.Requests.{too_many_outstanding}

unfoldable pub send_checkpoints : List CheckpointRequest → Node → Node
unfolding spawn send
send_checkpoints [] n = n
send_checkpoints (m ∷ ms) n =
    let m' = record m { view_id = n.view_data.current_view } in
    send_checkpoints ms (send (broadcast_checkpoint m') (spawn (handles_checkpoint m') n))

-- `none` is the panic of `resps[i]` out of range.
unfoldable pub send_responses : List ClientRequest → List OperationResult → Node → Option Node
unfolding send
send_responses [] results n = some n
send_responses (r ∷ rs) [] n = none
send_responses (r ∷ rs) (result ∷ results) n =
    let reply : ClientResponse = record {
      view_id = n.view_data.current_view;
      timestamp_ns = r.timestamp_ns;
      client_id = r.client_id;
      replica_id = n.config.id;
      result = result;
    } in
    send_responses rs results (
      send (request_executed n.view_data.current_view)
        (send (response_to_client r.callback reply) n))

unfoldable pub spawn_requests : List ClientRequest → Node → Node
unfolding spawn
spawn_requests [] n = n
spawn_requests (r ∷ rs) n = spawn_requests rs (spawn (handles_client_request r) n)

-- The pending requests are tried again once there is room.
unfoldable pub release_pending : Node → Node
unfolding spawn_requests too_many_outstanding
release_pending n =
    if too_many_outstanding n
    then n
    else spawn_requests n.pending_requests (record n { pending_requests = [] })

unfoldable pub end_progress : Int64 → Node → Node
unfolding set_view
end_progress sequence_number n =
    let v = n.view_data in
    set_view (record v { in_progress_requests = delete sequence_number v.in_progress_requests }) n

-- `none`: Commit does not return, or a panic.
unfoldable pub handle_committed_txn : Node → Int64 → Option Node
unfolding set_store end_progress send_checkpoints send_responses release_pending
handle_committed_txn n sequence_number = do
  e ← commit n.config n.store sequence_number
  let ended = end_progress sequence_number (set_store e.store n)
  replied ← send_responses e.reqs e.results (send_checkpoints e.checkpoints ended)
  some (release_pending replied)

unfoldable pub forget_stable : Int64 → Node → Node
unfolding set_view
forget_stable stable n =
    let v = n.view_data in
    set_view
      (record v {
        transaction_states = delete_if (λ k _. leb k stable) v.transaction_states;
        in_progress_requests = delete_if (λ k _. leb k stable) v.in_progress_requests;
      })
      n

unfoldable pub handle_checkpoint_request : Node → CheckpointRequest → Node
unfolding set_store forget_stable
handle_checkpoint_request n msg =
    let (store, stable) = add_checkpoint_request n.config n.store msg in
    elim stable [ none ↦ set_store store n | some k ↦ forget_stable k (set_store store n) ]

-- ===== src/Node/Invariant/Commits.antt =====
-- The execution of committed transactions and the checkpoints keep the invariant.
use adaptive_leader.Base.{
  ◌≡◌, refl, subst, List, [], ◌∷◌, some, inl, inr, All-delete_if, All-mono, arith, Option-cases,
  >>=-eq-some, nat_eq,
}
use adaptive_leader.Base.Int64.{Int64}
use adaptive_leader.Config.{Config}
use adaptive_leader.Transaction.{TransactionState}
use adaptive_leader.Messages.{
  ClientRequest, ClientResponse, OperationResult, PrepareRequest, CommitRequest, CheckpointRequest,
}
use adaptive_leader.Store.{commit, add_checkpoint_request}
use adaptive_leader.Node.Defs.{
  Node, handles_checkpoint, handles_client_request, broadcast_checkpoint, response_to_client,
  request_executed, set_store,
}
use adaptive_leader.Node.Requests.{too_many_outstanding}
use adaptive_leader.Node.Commits.{
  send_checkpoints, send_responses, spawn_requests, release_pending, end_progress,
  handle_committed_txn, forget_stable, handle_checkpoint_request,
}
use adaptive_leader.Node.Invariant.Heap.{Keeps, unread-Inv, send-Inv, spawn-Inv}
use adaptive_leader.Node.Invariant.Handlers.{Safe, some-Safe, if-Safe, set_view-Inv, set_store-Inv}

module _ (c : Config) (P : PrepareRequest → Type 0) (C : CommitRequest → Type 0)
    (H : TransactionState → Type 0) where
  send_checkpoints-Inv :
      (ns : List Int64) (ms : List CheckpointRequest) (n : Node)
      → Keeps c P C H ns n
      → Keeps c P C H ns (send_checkpoints ms n)
  unfolding send_checkpoints
  send_checkpoints-Inv ns [] n v = v
  send_checkpoints-Inv ns (m ∷ ms) n v =
      let m' = record m { view_id = n.view_data.current_view } in
      send_checkpoints-Inv ns ms _ (
        send-Inv c P C H ns (broadcast_checkpoint m') _ tt
          (spawn-Inv c P C H ns (handles_checkpoint m') n tt v))

  send_responses-Inv :
      (ns : List Int64) (rs : List ClientRequest) (results : List OperationResult) (n n' : Node)
      → Keeps c P C H ns n
      → send_responses rs results n ≡ some n'
      → Keeps c P C H ns n'
  unfolding send_responses
  send_responses-Inv ns [] results n n' v h = subst (Keeps c P C H ns) (ground arith) v
  send_responses-Inv ns (r ∷ rs) [] n n' v h = absurd (ground arith)
  send_responses-Inv ns (r ∷ rs) (result ∷ results) n n' v h =
      let view = n.view_data.current_view in
      let reply : ClientResponse = record {
        view_id = view;
        timestamp_ns = r.timestamp_ns;
        client_id = r.client_id;
        replica_id = n.config.id;
        result = result;
      } in
      send_responses-Inv ns rs results _ n'
        (send-Inv c P C H ns (request_executed view) _ tt
          (send-Inv c P C H ns (response_to_client r.callback reply) n tt v))
        h

  spawn_requests-Inv :
      (ns : List Int64) (rs : List ClientRequest) (n : Node)
      → Keeps c P C H ns n
      → Keeps c P C H ns (spawn_requests rs n)
  unfolding spawn_requests
  spawn_requests-Inv ns [] n v = v
  spawn_requests-Inv ns (r ∷ rs) n v =
      spawn_requests-Inv ns rs _ (spawn-Inv c P C H ns (handles_client_request r) n tt v)

  release_pending-Safe : (n : Node) → Safe c P C H n → Safe c P C H (release_pending n)
  unfolding release_pending
  release_pending-Safe n (ns, v) =
      let emptied = record n { pending_requests = [] } in
      if-Safe c P C H (too_many_outstanding n) _ _ (ns, v)
        (
          ns,
          spawn_requests-Inv ns n.pending_requests emptied
              (unread-Inv c P C H ns n emptied v refl refl refl refl v.known),
        )

  pub handle_committed_txn-Safe :
      (n n' : Node) (k : Int64)
      → Safe c P C H n
      → handle_committed_txn n k ≡ some n'
      → Safe c P C H n'
  unfolding handle_committed_txn end_progress
  handle_committed_txn-Safe n n' k (ns, v) h =
      let (e, _, on) = >>=-eq-some (commit n.config n.store k) _ h in
      let (replied, answers, made) = >>=-eq-some (send_responses e.reqs e.results _) _ on in
      let stored = set_store-Inv c P C H ns e.store n v in
      let ended = set_view-Inv c P C H ns _ (set_store e.store n) stored.known stored in
      let sent = send_checkpoints-Inv ns e.checkpoints _ ended in
      some-Safe c P C H _ n'
        (release_pending-Safe replied
          (ns, send_responses-Inv ns e.reqs e.results _ replied sent answers))
        made

  forget_stable-Inv :
      (ns : List Int64) (k : Int64) (n : Node)
      → Keeps c P C H ns n
      → Keeps c P C H ns (forget_stable k n)
  unfolding forget_stable
  forget_stable-Inv ns k n v =
      set_view-Inv c P C H ns _ n
        (All-mono _ _ (λ e h. h.0) _ (All-delete_if _ _ n.view_data.transaction_states v.known)) v

  pub handle_checkpoint_request-Safe :
      (n : Node) (msg : CheckpointRequest)
      → Safe c P C H n
      → Safe c P C H (handle_checkpoint_request n msg)
  unfolding handle_checkpoint_request
  handle_checkpoint_request-Safe n msg (ns, v) =
      let store = (add_checkpoint_request n.config n.store msg).0 in
      let stored = set_store-Inv c P C H ns store n v in
      elim (Option-cases (add_checkpoint_request n.config n.store msg).1) [
        | inl e ↦ rw (e, handle_checkpoint_request) (ns, stored)
        | inr (k, e) ↦
            rw (e, handle_checkpoint_request)
              (ns, forget_stable-Inv ns k (set_store store n) stored)
      ]

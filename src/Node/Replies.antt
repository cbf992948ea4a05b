-- ===== src/Node/Replies.antt =====
-- What a node sends when a transaction is committed.
use adaptive_leader.Base.{
  ◌≡◌, refl, sym, ap, ◌∙◌, List, [], ◌∷◌, ◌++◌, some, GoString, length, delete, nat_eq, arith,
  Bool-cases, inl, inr,
}
use mathlib.Core.List.{append-nil, append_assoc}
use adaptive_leader.Base.Int64.{Int64}
use adaptive_leader.Messages.{ClientRequest, ClientResponse, OperationResult, CheckpointRequest}
use adaptive_leader.Store.{commit, Executed}
use adaptive_leader.Store.Termination.{commit-length}
use adaptive_leader.Node.Defs.{
  Node, Output, broadcast_checkpoint, response_to_client, request_executed, handles_client_request,
  handles_checkpoint, send, spawn, set_view, set_store,
}
use adaptive_leader.Node.Requests.{too_many_outstanding}
use adaptive_leader.Node.Commits.{
  send_checkpoints, send_responses, spawn_requests, release_pending, end_progress,
  handle_committed_txn,
}

-- A reply to each request, in order, and after each a report of the execution.
abbrev pub answers : Int64 → GoString → List ClientRequest → List OperationResult → List Output
answers view_id id [] results = []
answers view_id id (r ∷ rs) [] = []
answers view_id id (r ∷ rs) (result ∷ results) =
    response_to_client r.callback (record {
      view_id = view_id;
      timestamp_ns = r.timestamp_ns;
      client_id = r.client_id;
      replica_id = id;
      result = result;
    })
    ∷ request_executed view_id
    ∷ answers view_id id rs results

-- The checkpoints, in the node's view.
abbrev checkpoints_in : Int64 → List CheckpointRequest → List Output
checkpoints_in view_id [] = []
checkpoints_in view_id (m ∷ ms) =
    broadcast_checkpoint (record m { view_id = view_id }) ∷ checkpoints_in view_id ms

-- Two nodes alike in the configuration, the store and the view.
abbrev Alike : Node → Node → Type 0
Alike n n' = (n'.config ≡ n.config) × (n'.store ≡ n.store) × (n'.view_data ≡ n.view_data)

send_checkpoints_lem :
    (ms : List CheckpointRequest) (n : Node)
    → Alike n (send_checkpoints ms n)
      × ((send_checkpoints ms n).sent ≡ n.sent ++ checkpoints_in n.view_data.current_view ms)
unfolding send_checkpoints send spawn
send_checkpoints_lem [] n = ((refl, refl, refl), sym (append-nil n.sent))
send_checkpoints_lem (m ∷ ms) n =
    let m' = record m { view_id = n.view_data.current_view } in
    let q = send (broadcast_checkpoint m') (spawn (handles_checkpoint m') n) in
    let (alike, sent) = send_checkpoints_lem ms q in
    let later = checkpoints_in n.view_data.current_view ms in
    (alike, sent ∙ append_assoc n.sent (broadcast_checkpoint m' ∷ []) later)

send_responses_lem :
    (rs : List ClientRequest) (results : List OperationResult) (n : Node)
    → length results ≡ length rs
    → (n' : Node) × (send_responses rs results n ≡ some n')
      × Alike n n'
      × (n'.sent ≡ n.sent ++ answers n.view_data.current_view n.config.id rs results)
unfolding send_responses send
send_responses_lem [] results n h = (n, refl, (refl, refl, refl), sym (append-nil n.sent))
send_responses_lem (r ∷ rs) [] n h = absurd (omega arith)
send_responses_lem (r ∷ rs) (result ∷ results) n h =
    let view_id = n.view_data.current_view in
    let reply : ClientResponse = record {
      view_id = view_id;
      timestamp_ns = r.timestamp_ns;
      client_id = r.client_id;
      replica_id = n.config.id;
      result = result;
    } in
    let q = send (request_executed view_id) (send (response_to_client r.callback reply) n) in
    let (n', on, alike, sent) = send_responses_lem rs results q (omega arith) in
    let later = answers view_id n.config.id rs results in
    let first =
      append_assoc (n.sent ++ response_to_client r.callback reply ∷ [])
        (request_executed view_id ∷ []) later in
    let second =
      append_assoc n.sent (response_to_client r.callback reply ∷ [])
        (request_executed view_id ∷ later) in
    (n', on, alike, sent ∙ first ∙ second)

spawn_requests_lem :
    (rs : List ClientRequest) (n : Node)
    → Alike n (spawn_requests rs n) × ((spawn_requests rs n).sent ≡ n.sent)
unfolding spawn_requests spawn
spawn_requests_lem [] n = ((refl, refl, refl), refl)
spawn_requests_lem (r ∷ rs) n = spawn_requests_lem rs (spawn (handles_client_request r) n)

release_pending_lem : (n : Node) → Alike n (release_pending n) × ((release_pending n).sent ≡ n.sent)
unfolding release_pending
release_pending_lem n = elim (Bool-cases (too_many_outstanding n)) [
  | inl full ↦ rw (full, release_pending) ((refl, refl, refl), refl)
  | inr room ↦
      rw (room, release_pending)
        (spawn_requests_lem n.pending_requests (record n { pending_requests = [] }))
]

-- When Commit returns, so does handleCommittedTxn: it broadcasts the checkpoints that Commit
-- returned, in the node's view, then answers each request that Commit returned, in order, with its
-- result, and reports each execution; it keeps Commit's store, and the number is no longer in
-- progress.
pub handle_committed_txn_lem :
    (n : Node) (sequence_number : Int64) (e : Executed)
    → commit n.config n.store sequence_number ≡ some e
    → (n' : Node) × (handle_committed_txn n sequence_number ≡ some n')
      × (n'.sent
          ≡ (n.sent ++ checkpoints_in n.view_data.current_view e.checkpoints)
            ++ answers n.view_data.current_view n.config.id e.reqs e.results)
      × (n'.store ≡ e.store)
      × (n'.view_data.in_progress_requests
          ≡ delete sequence_number n.view_data.in_progress_requests)
unfolding handle_committed_txn end_progress set_store set_view
handle_committed_txn_lem n sequence_number e h =
    let ended = end_progress sequence_number (set_store e.store n) in
    let (alike, sent) = send_checkpoints_lem e.checkpoints ended in
    let checked = send_checkpoints e.checkpoints ended in
    let answered =
      send_responses_lem e.reqs e.results checked
        (commit-length n.config n.store sequence_number e h) in
    let (q, on, alike', sent') = answered in
    let (alike'', sent'') = release_pending_lem q in
    let here = n.sent ++ checkpoints_in n.view_data.current_view e.checkpoints in
    let same_view = ap (λ v. v.current_view) alike.2 in
    let same_id = ap (λ c. c.id) alike.0 in
    (
      release_pending q,
      rw (h, on) refl,
      sent''
          ∙ sent'
          ∙ ap (λ s. s ++ answers checked.view_data.current_view checked.config.id e.reqs e.results)
              sent
          ∙ ap (λ v. here ++ answers v checked.config.id e.reqs e.results) same_view
          ∙ ap (λ id. here ++ answers n.view_data.current_view id e.reqs e.results) same_id,
      alike''.1 ∙ alike'.1 ∙ alike.1,
      ap (λ v. v.in_progress_requests) (alike''.2 ∙ alike'.2 ∙ alike.2),
    )

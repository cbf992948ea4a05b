-- ===== src/Node/Requests.antt =====
-- The three phases: client requests, pre-prepares, prepares and commits.
use adaptive_leader.Base.{Bool, not, [], ◌∷◌, ◌++◌, length, insert, leb, if◌then◌else◌, nat_eq}
use adaptive_leader.Base.Int64.{Int64, inc64}
use adaptive_leader.Messages.{
  ClientRequest, PrePrepareRequest, PiggyBackedPrePareRequest, PrepareRequest, CommitRequest,
}
use adaptive_leader.Store.{add_requests}
use adaptive_leader.Node.Defs.{
  Node, adds_to_store, adds_pre_prepare, adds_prepare, adds_commit, handles_commit,
  broadcast_pre_prepare, broadcast_prepare, broadcast_commit, request_to_peer, send, spawn,
  set_view, set_store, is_primary, verify, new_txn, find_or_new_txn, call_add_pre_prepare,
}

-- `len(n.ViewData.InProgressRequests) >= n.config.General.MaxOutstandingRequests`
unfoldable pub too_many_outstanding : Node → Bool
too_many_outstanding n =
    leb n.config.general.max_outstanding_requests (length n.view_data.in_progress_requests)

unfoldable pub mark_in_progress : Int64 → Node → Node
unfolding set_view
mark_in_progress sequence_number n =
    let v = n.view_data in
    set_view (record v { in_progress_requests = insert sequence_number tt v.in_progress_requests })
      n

-- The primary's part: the next number, a transaction for it and its pre-prepare. `go` evaluates the
-- receiver at once, so AddPrePrepare runs here and only AddToStore in the goroutine.
unfoldable pub propose : Node → ClientRequest → Node
unfolding set_view mark_in_progress new_txn call_add_pre_prepare spawn send
propose n msg =
    let v = n.view_data in
    let sequence_number = inc64 v.last_sequence_number in
    let pre_prepare : PrePrepareRequest = record {
      view_id = v.current_view;
      sequence_number = sequence_number;
      request_digest = [];
    } in
    let numbered = set_view (record v { last_sequence_number = sequence_number }) n in
    let recorded = new_txn sequence_number (mark_in_progress sequence_number numbered) in
    let added = call_add_pre_prepare (length n.heap) pre_prepare recorded in
    let started = spawn (adds_to_store (length n.heap) (msg ∷ [])) added in
    send (broadcast_pre_prepare (record { pre_prepare_request = pre_prepare; requests = msg ∷ [] }))
      started

unfoldable pub handle_client_request : Node → ClientRequest → Node
unfolding is_primary send too_many_outstanding propose
handle_client_request n msg =
    if not (is_primary n)
    then send (request_to_peer n.view_data.leader_id msg) n
    else if n.view_data.is_in_view_change
    then n
    else if too_many_outstanding n
    then record n { pending_requests = n.pending_requests ++ msg ∷ [] }
    else propose n msg

-- A backup accepts a pre-prepare: it votes for it and stores its requests.
unfoldable pub accept : Node → PiggyBackedPrePareRequest → Node
unfolding mark_in_progress find_or_new_txn spawn set_store send
accept n msg =
    let m = msg.pre_prepare_request in
    let (n', r) = find_or_new_txn m.sequence_number (mark_in_progress m.sequence_number n) in
    let prepare : PrepareRequest = record {
      view_id = m.view_id;
      sequence_number = m.sequence_number;
      request_digest = m.request_digest;
      replica_id = n.config.id;
    } in
    let started = spawn (adds_prepare r prepare) (spawn (adds_pre_prepare r m) n') in
    let stored = set_store (add_requests started.store m.sequence_number msg.requests) started in
    send (broadcast_prepare prepare) stored

unfoldable pub handle_pre_prepare_request : Node → PiggyBackedPrePareRequest → Node
unfolding is_primary verify accept
handle_pre_prepare_request n msg =
    let m = msg.pre_prepare_request in
    if is_primary n
    then n
    else if n.view_data.is_in_view_change
    then n
    else if not (verify n m.view_id m.sequence_number)
    then n
    else accept n msg

unfoldable pub handle_prepare_request : Node → PrepareRequest → Node
unfolding verify find_or_new_txn spawn
handle_prepare_request n msg =
    let (n', r) = find_or_new_txn msg.sequence_number n in
    if n.view_data.is_in_view_change
    then n
    else if not (verify n msg.view_id msg.sequence_number)
    then n
    else spawn (adds_prepare r msg) n'

unfoldable pub handle_prepared_txn : Node → CommitRequest → Node
unfolding spawn send
handle_prepared_txn n msg = send (broadcast_commit msg) (spawn (handles_commit msg) n)

unfoldable pub handle_commit_request : Node → CommitRequest → Node
unfolding verify find_or_new_txn spawn
handle_commit_request n msg =
    let (n', r) = find_or_new_txn msg.sequence_number n in
    if n.view_data.is_in_view_change
    then n
    else if not (verify n msg.view_id msg.sequence_number)
    then n
    else spawn (adds_commit r msg) n'

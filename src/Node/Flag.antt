-- ===== src/Node/Flag.antt =====
-- The goroutines and the view changer leave alone whether a node is enabled.
use adaptive_leader.Base.{
  ◌≡◌, subst, Bool, true, false, not, List, [], ◌∷◌, some, inl, inr, length, lookup, get_elem?,
  if◌then◌else◌, ltb, ◌==◌, nat_eq, arith, Bool-cases, Option-cases, >>=-eq-some,
}
use adaptive_leader.Base.Int64.{Int64, max_int64}
use adaptive_leader.Messages.{
  ClientRequest, OperationResult, PrePrepareRequest, PrepareRequest, CommitRequest,
  CheckpointRequest, NewViewRequest,
}
use adaptive_leader.Transaction.{
  Callback, prepared_callback, committed_callback, add_prepare, add_commit, check_callbacks,
}
use adaptive_leader.Store.{commit, add_checkpoint_request}
use adaptive_leader.Node.Defs.{
  Node, TxnRef, Task, adds_to_store, adds_pre_prepare, adds_prepare, adds_commit, checks_callbacks,
  handles_prepared, handles_committed, handles_commit, handles_checkpoint, handles_client_request,
  send, spawn, set_view, set_store, is_primary, verify, new_txn, find_or_new_txn,
  call_add_pre_prepare, call_add_prepare, new_view_data,
}
use adaptive_leader.Node.Requests.{
  too_many_outstanding, mark_in_progress, propose, handle_client_request, handle_prepared_txn,
  handle_commit_request,
}
use adaptive_leader.Node.Commits.{
  send_checkpoints, send_responses, spawn_requests, release_pending, end_progress,
  handle_committed_txn, forget_stable, handle_checkpoint_request,
}
use adaptive_leader.Node.Views.{new_view_start, adopt, adopt_all, handle_new_view_request}
use adaptive_leader.Node.Steps.{
  call_add_commit, start_callbacks, call_check_callbacks, call_add_to_store, run_task,
}

module _ (b : Bool) where
  abbrev Has : Node → Type 0
  Has n = n.enabled ≡ b

  some-Has : (n n' : Node) → Has n → some n ≡ some n' → Has n'
  some-Has n n' v e = let same : n ≡ n' = ground arith in subst Has same v

  if-Has : (t : Bool) (n n' : Node) → Has n → Has n' → Has (if t then n else n')
  if-Has true n n' v w = v
  if-Has false n n' v w = w

  find_or_new_txn-Has : (k : Int64) (n : Node) → Has n → Has (find_or_new_txn k n).0
  unfolding find_or_new_txn new_txn set_view
  find_or_new_txn-Has k n v = elim (Option-cases (lookup k n.view_data.transaction_states)) [
    | inl e ↦ rw (e, find_or_new_txn) v
    | inr (r, e) ↦ rw (e, find_or_new_txn) v
  ]

  call_add_pre_prepare-Has :
      (r : TxnRef) (m : PrePrepareRequest) (n : Node) → Has n → Has (call_add_pre_prepare r m n)
  unfolding call_add_pre_prepare spawn
  call_add_pre_prepare-Has r m n v = elim (Option-cases (get_elem? n.heap r)) [
    | inl e ↦ rw (e, call_add_pre_prepare) v
    | inr (t, e) ↦ rw (e, call_add_pre_prepare) v
  ]

  call_add_prepare-Has :
      (r : TxnRef) (m : PrepareRequest) (n : Node) → Has n → Has (call_add_prepare r m n)
  unfolding call_add_prepare spawn
  call_add_prepare-Has r m n v = elim (Option-cases (get_elem? n.heap r)) [
    | inl e ↦ rw (e, call_add_prepare) v
    | inr (t, e) ↦ rw (e, call_add_prepare) (if-Has (add_prepare n.config t m).1 _ _ v v)
  ]

  call_add_commit-Has :
      (r : TxnRef) (m : CommitRequest) (n : Node) → Has n → Has (call_add_commit r m n)
  unfolding call_add_commit spawn
  call_add_commit-Has r m n v = elim (Option-cases (get_elem? n.heap r)) [
    | inl e ↦ rw (e, call_add_commit) v
    | inr (t, e) ↦ rw (e, call_add_commit) (if-Has (add_commit n.config t m).1 _ _ v v)
  ]

  start_callbacks-Has : (fs : List Callback) (n : Node) → Has n → Has (start_callbacks fs n)
  unfolding start_callbacks spawn
  start_callbacks-Has [] n v = v
  start_callbacks-Has (prepared_callback m ∷ fs) n v = start_callbacks-Has fs _ v
  start_callbacks-Has (committed_callback k ∷ fs) n v = start_callbacks-Has fs _ v

  call_check_callbacks-Has : (r : TxnRef) (n : Node) → Has n → Has (call_check_callbacks r n)
  unfolding call_check_callbacks
  call_check_callbacks-Has r n v = elim (Option-cases (get_elem? n.heap r)) [
    | inl e ↦ rw (e, call_check_callbacks) v
    | inr (t, e) ↦
        rw (e, call_check_callbacks) (start_callbacks-Has (check_callbacks n.config t).1 _ v)
  ]

  handle_client_request-Has :
      (n : Node) (m : ClientRequest) → Has n → Has (handle_client_request n m)
  unfolding handle_client_request propose mark_in_progress new_txn set_view send spawn
  handle_client_request-Has n m v = if-Has (not (is_primary n)) _ _ v (
      if-Has n.view_data.is_in_view_change _ _ v
        (if-Has (too_many_outstanding n) _ _ v (call_add_pre_prepare-Has (length n.heap) _ _ v)))

  handle_commit_request-Has :
      (n : Node) (m : CommitRequest) → Has n → Has (handle_commit_request n m)
  unfolding handle_commit_request spawn
  handle_commit_request-Has n m v = if-Has n.view_data.is_in_view_change _ _ v (
      if-Has (not (verify n m.view_id m.sequence_number)) _ _ v
        (find_or_new_txn-Has m.sequence_number n v))

  send_checkpoints-Has :
      (ms : List CheckpointRequest) (n : Node) → Has n → Has (send_checkpoints ms n)
  unfolding send_checkpoints send spawn
  send_checkpoints-Has [] n v = v
  send_checkpoints-Has (m ∷ ms) n v = send_checkpoints-Has ms _ v

  send_responses-Has :
      (rs : List ClientRequest) (results : List OperationResult) (n n' : Node)
      → Has n
      → send_responses rs results n ≡ some n'
      → Has n'
  unfolding send_responses send
  send_responses-Has [] results n n' v h = some-Has n n' v h
  send_responses-Has (r ∷ rs) [] n n' v h = absurd (ground arith)
  send_responses-Has (r ∷ rs) (result ∷ results) n n' v h = send_responses-Has rs results _ n' v h

  spawn_requests-Has : (rs : List ClientRequest) (n : Node) → Has n → Has (spawn_requests rs n)
  unfolding spawn_requests spawn
  spawn_requests-Has [] n v = v
  spawn_requests-Has (r ∷ rs) n v = spawn_requests-Has rs _ v

  handle_committed_txn-Has :
      (n n' : Node) (k : Int64) → Has n → handle_committed_txn n k ≡ some n' → Has n'
  unfolding handle_committed_txn end_progress set_view set_store release_pending
  handle_committed_txn-Has n n' k v h =
      let (e, _, on) = >>=-eq-some (commit n.config n.store k) _ h in
      let (replied, answers, made) = >>=-eq-some (send_responses e.reqs e.results _) _ on in
      let ended = end_progress k (set_store e.store n) in
      let w =
        send_responses-Has e.reqs e.results _ replied (send_checkpoints-Has e.checkpoints ended v)
          answers in
      some-Has _ n'
        (if-Has (too_many_outstanding replied) _ _ w (
          spawn_requests-Has replied.pending_requests (record replied { pending_requests = [] }) w))
        made

  handle_checkpoint_request-Has :
      (n : Node) (m : CheckpointRequest) → Has n → Has (handle_checkpoint_request n m)
  unfolding handle_checkpoint_request forget_stable set_view set_store
  handle_checkpoint_request-Has n m v =
      elim (Option-cases (add_checkpoint_request n.config n.store m).1) [
        | inl e ↦ rw (e, handle_checkpoint_request) v
        | inr (k, e) ↦ rw (e, handle_checkpoint_request) v
      ]

  adopt_all-Has : (ms : List PrePrepareRequest) (n : Node) → Has n → Has (adopt_all ms n)
  unfolding adopt_all adopt new_txn set_view send
  adopt_all-Has [] n v = v
  adopt_all-Has (m ∷ ms) n v =
      let r = length n.heap in
      let started = call_add_pre_prepare r m (new_txn m.sequence_number n) in
      adopt_all-Has ms (adopt m n) (
        call_add_prepare-Has r _ started
          (call_add_pre_prepare-Has r m (new_txn m.sequence_number n) v))

  pub handle_new_view_request-Has :
      (n n' : Node) (msg : NewViewRequest)
      → Has n
      → handle_new_view_request n msg ≡ some n'
      → Has n'
  unfolding handle_new_view_request set_view
  handle_new_view_request-Has n n' msg v h =
      let start = new_view_start msg in
      let fresh = set_view (new_view_data msg.new_view_id start msg.replica_id) n in
      elim (Bool-cases (ltb msg.new_view_id n.view_data.current_view)) [
        | inl old ↦ some-Has n n' v (ground arith)
        | inr current ↦ elim (Bool-cases (start == max_int64)) [
          | inl none_left ↦ absurd (ground arith)
          | inr valid ↦
              some-Has (adopt_all msg.preprepares fresh) n' (adopt_all-Has msg.preprepares fresh v)
                (ground arith)
        ]
      ]

  call_add_to_store-Has :
      (r : TxnRef) (msgs : List ClientRequest) (n n' : Node)
      → Has n
      → call_add_to_store r msgs n ≡ some n'
      → Has n'
  unfolding call_add_to_store set_store
  call_add_to_store-Has r msgs n n' v h =
      let (t, _, on) = >>=-eq-some (get_elem? n.heap r) _ h in
      let (m, _, made) = >>=-eq-some t.preprepare _ on in some-Has _ n' v made

  -- A goroutine leaves the flag alone.
  pub run_task-Has : (n n' : Node) (t : Task) → Has n → run_task n t ≡ some n' → Has n'
  unfolding run_task handle_prepared_txn send spawn
  run_task-Has n n' (adds_to_store r msgs) v h = call_add_to_store-Has r msgs n n' v h
  run_task-Has n n' (adds_pre_prepare r m) v h = some-Has _ n' (call_add_pre_prepare-Has r m n v) h
  run_task-Has n n' (adds_prepare r m) v h = some-Has _ n' (call_add_prepare-Has r m n v) h
  run_task-Has n n' (adds_commit r m) v h = some-Has _ n' (call_add_commit-Has r m n v) h
  run_task-Has n n' (checks_callbacks r) v h = some-Has _ n' (call_check_callbacks-Has r n v) h
  run_task-Has n n' (handles_prepared m) v h = some-Has _ n' v h
  run_task-Has n n' (handles_committed k) v h = handle_committed_txn-Has n n' k v h
  run_task-Has n n' (handles_commit m) v h = some-Has _ n' (handle_commit_request-Has n m v) h
  run_task-Has n n' (handles_checkpoint m) v h =
      some-Has _ n' (handle_checkpoint_request-Has n m v) h
  run_task-Has n n' (handles_client_request m) v h =
      some-Has _ n' (handle_client_request-Has n m v) h

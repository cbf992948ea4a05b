-- ===== src/Node/Invariant/Runs.antt =====
-- The goroutines, the main loop and whole runs keep the invariant.
use adaptive_leader.Base.{
  take_at, take_at-All, ◌≡◌, refl, ap, ◌∙◌, ◌++◌, ◌>>=◌, Bool, true, false, List, [], ◌∷◌, Option,
  none, some, inl, inr, Among, get_elem?, if◌then◌else◌, arith, Bool-cases, Option-cases,
  >>=-eq-some,
}
use adaptive_leader.Base.Int64.{Int64, int64}
use adaptive_leader.Config.{Config}
use adaptive_leader.Transaction.{TransactionState}
use adaptive_leader.Messages.{PrepareRequest, CommitRequest, ClientRequest}
use adaptive_leader.Store.{Store, add_requests}
use adaptive_leader.LeaderElection.{get_leader, new_round_robin_leader_election}
use adaptive_leader.Node.Defs.{
  Node, Task, TxnRef, adds_to_store, adds_pre_prepare, adds_prepare, adds_commit, checks_callbacks,
  handles_prepared, handles_committed, handles_commit, handles_checkpoint, handles_client_request,
  broadcast_get_status, new_node, new_view_data,
}
use adaptive_leader.Node.Requests.{too_many_outstanding}
use adaptive_leader.Node.Steps.{
  get_status, take_request, call_add_to_store, run_task, Event, request_arrives, input_arrives,
  disables, enables, task_runs, view_change_begins, new_view_arrives, step, run, handle_input,
}
use adaptive_leader.Node.Invariant.{IsDue}
use adaptive_leader.Node.Invariant.Heap.{Keeps, unread-Inv, send-Inv}
use adaptive_leader.Node.Invariant.Calls.{
  call_add_prepare-Inv, call_add_pre_prepare-Inv, call_add_commit-Inv, call_check_callbacks-Inv,
}
use adaptive_leader.Node.Invariant.Handlers.{
  Safe, some-Safe, if-Safe, set_store-Inv, handle_client_request-Safe, handle_prepared_txn-Safe,
  handle_commit_request-Safe,
}
use adaptive_leader.Node.Invariant.Inputs.{
  IsCounted, handle_input-Safe, handle_new_view_request-Safe, go_to_view_change-Safe,
}
use adaptive_leader.Node.Invariant.Commits.{
  handle_committed_txn-Safe, handle_checkpoint_request-Safe,
}

-- What the votes that arrive fulfil, and the node's own.
module _ (c : Config) (P : PrepareRequest → Type 0) (C : CommitRequest → Type 0)
    (H : TransactionState → Type 0) (own_prepare : (m : PrepareRequest) → m.replica_id ≡ c.id → P m)
    (own_commit : (m : CommitRequest) → m.replica_id ≡ c.id → C m) where
  call_add_to_store-Safe :
      (r : TxnRef) (msgs : List ClientRequest) (n n' : Node)
      → Safe c P C H n
      → call_add_to_store r msgs n ≡ some n'
      → Safe c P C H n'
  unfolding call_add_to_store
  call_add_to_store-Safe r msgs n n' (ns, v) h =
      let (t, _, on) = >>=-eq-some (get_elem? n.heap r) _ h in
      let (m, _, made) = >>=-eq-some t.preprepare _ on in
      some-Safe c P C H _ n'
        (ns, set_store-Inv c P C H ns (add_requests n.store m.sequence_number msgs) n v) made

  -- A node whose transactions all fulfil H.
  abbrev pub Holds : Node → Type 0
  Holds n = (r : TxnRef) (t : TransactionState) → get_elem? n.heap r ≡ some t → H t

  run_task-Safe :
      (ns : List Int64) (n n' : Node) (t : Task)
      → Holds n
      → IsDue c P C H ns t
      → Keeps c P C H ns n
      → run_task n t ≡ some n'
      → Safe c P C H n'
  unfolding run_task
  run_task-Safe ns n n' (adds_to_store r msgs) holds due v h =
      call_add_to_store-Safe r msgs n n' (ns, v) h
  run_task-Safe ns n n' (adds_pre_prepare r m) holds due v h =
      some-Safe c P C H _ n' (ns, call_add_pre_prepare-Inv c P C H ns n r v m due) h
  run_task-Safe ns n n' (adds_prepare r m) holds due v h =
      some-Safe c P C H _ n' (ns, call_add_prepare-Inv c P C H ns n r v m due.0 due.1) h
  run_task-Safe ns n n' (adds_commit r m) holds due v h =
      some-Safe c P C H _ n' (ns, call_add_commit-Inv c P C H ns n r v m due.0 due.1) h
  run_task-Safe ns n n' (checks_callbacks r) holds due v h =
      some-Safe c P C H _ n' (ns, call_check_callbacks-Inv c P C H ns n r (holds r) v) h
  run_task-Safe ns n n' (handles_prepared m) holds due v h =
      some-Safe c P C H _ n' (handle_prepared_txn-Safe c P C H own_commit n m due (ns, v)) h
  run_task-Safe ns n n' (handles_committed k) holds due v h =
      handle_committed_txn-Safe c P C H n n' k (ns, v) h
  run_task-Safe ns n n' (handles_commit m) holds due v h =
      some-Safe c P C H _ n' (handle_commit_request-Safe c P C H n m due (ns, v)) h
  run_task-Safe ns n n' (handles_checkpoint m) holds due v h =
      some-Safe c P C H _ n' (handle_checkpoint_request-Safe c P C H n m (ns, v)) h
  run_task-Safe ns n n' (handles_client_request m) holds due v h =
      some-Safe c P C H _ n' (handle_client_request-Safe c P C H n m (ns, v)) h

  -- A vote in an event is counted.
  abbrev pub CountsVotes : Event → Type 0
  CountsVotes (request_arrives m) = Unit
  CountsVotes (input_arrives m) = IsCounted c P C H own_prepare own_commit m
  CountsVotes disables = Unit
  CountsVotes enables = Unit
  CountsVotes (task_runs i) = Unit
  CountsVotes view_change_begins = Unit
  CountsVotes (new_view_arrives m) = Unit

  if_some-Safe :
      (b : Bool) (o : Option Node) (n' : Node)
      → ((q : Node) → o ≡ some q → Safe c P C H q)
      → (if b then o else none) ≡ some n'
      → Safe c P C H n'
  if_some-Safe true o n' f h = f n' h
  if_some-Safe false o n' f h = absurd (ground arith)

  step-Safe :
      (n n' : Node) (e : Event)
      → CountsVotes e
      → Holds n
      → Safe c P C H n
      → step n e ≡ some n'
      → Safe c P C H n'
  unfolding step take_request get_status
  step-Safe n n' (request_arrives m) is holds v h =
      if_some-Safe n.enabled (some (take_request n m)) n'
        (λ q e.
          some-Safe c P C H _ q
            (if-Safe c P C H (too_many_outstanding n) _ _ v
              (handle_client_request-Safe c P C H n m v))
            e)
        h
  step-Safe n n' (input_arrives m) is holds v h =
      if_some-Safe n.enabled (handle_input n m) n'
        (λ q e. handle_input-Safe c P C H own_prepare own_commit n q m is v e) h
  step-Safe n n' disables is holds (ns, v) h =
      let off = record n { enabled = false } in
      if_some-Safe n.enabled (some off) n'
        (λ q e.
          some-Safe c P C H off q (ns, unread-Inv c P C H ns n off v refl refl refl refl v.known) e)
        h
  step-Safe n n' enables is holds (ns, v) h = elim (Bool-cases n.enabled) [
    | inl on ↦ absurd (ground arith)
    | inr off ↦
        let started = record n { enabled = true } in
        some-Safe c P C H (get_status started) n'
          (
            ns,
            send-Inv c P C H ns (broadcast_get_status (record { replica_id = n.config.id })) started
                tt (unread-Inv c P C H ns n started v refl refl refl refl v.known),
          )
          (ground arith)
  ]
  step-Safe n n' (task_runs i) is holds (ns, v) h =
      let ((t, rest), taken, on) = >>=-eq-some (take_at i n.spawned) _ h in
      let (due, others) = take_at-All (IsDue c P C H ns) i n.spawned rest t v.due taken in
      let left : Keeps c P C H ns (record n { spawned = rest }) = record {
        same_config = v.same_config;
        one_each = v.one_each;
        known = v.known;
        due = others;
        backed = v.backed;
        kept = v.kept;
      } in
      run_task-Safe ns (record n { spawned = rest }) n' t holds due left on
  step-Safe n n' view_change_begins is holds v h =
      some-Safe c P C H _ n' (go_to_view_change-Safe c P C H own_prepare own_commit n v) h
  step-Safe n n' (new_view_arrives m) is holds v h =
      handle_new_view_request-Safe c P C H own_prepare own_commit n n' m v h

  pub run-Safe :
      (n n' : Node) (es : List Event)
      → ((e : Event) → Among e es → CountsVotes e)
      → ((q : Node) (before after : List Event)
          → es ≡ before ++ after
          → run n before ≡ some q
          → Holds q)
      → Safe c P C H n
      → run n es ≡ some n'
      → Safe c P C H n'
  unfolding run
  run-Safe n n' [] counts holds v h = some-Safe c P C H n n' v h
  run-Safe n n' (e ∷ es) counts holds v h =
      let (q, first, on) = >>=-eq-some (step n e) _ h in
      let started = holds n [] (e ∷ es) refl refl in
      let later : (p : Node) (before after : List Event)
          → es ≡ before ++ after
          → run q before ≡ some p
          → Holds p =
        λ p before after split ran.
          holds p (e ∷ before) after (ap (λ l. e ∷ l) split)
            (ap (λ o. o >>= λ d. run d before) first ∙ ran) in
      run-Safe q n' es (λ d at. counts d (inr at)) later
        (step-Safe n q e (counts e (inl refl)) started v first) on

  pub new-Safe : (store : Store) (n : Node) → new_node c store ≡ some n → Safe c P C H n
  unfolding new_node new_view_data
  new-Safe store n h =
      elim (Option-cases (get_leader (new_round_robin_leader_election c) (int64 0))) [
        | inl nobody ↦ absurd (ground arith)
        | inr (leader, e) ↦
            some-Safe c P C H _ n
              (
                [],
                record {
                  same_config = refl;
                  one_each = refl;
                  known = tt;
                  due = tt;
                  backed = tt;
                  kept = λ r k t at. cc;
                },
              )
              (rw (e, new_node) at h)
      ]

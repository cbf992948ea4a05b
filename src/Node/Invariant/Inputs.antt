-- ===== src/Node/Invariant/Inputs.antt =====
-- The change of views and the messages of other replicas keep the invariant.
use adaptive_leader.Base.{
  ◌≡◌, ap, subst, List, [], ◌∷◌, ◌++◌, some, inl, inr, length, get_elem?, get_elem?-append_length,
  ltb, ◌==◌, nat_eq, arith, Bool-cases, >>=-eq-some, ◌>>=◌,
}
use adaptive_leader.Base.Int64.{int64, inc64, max_int64}
use adaptive_leader.Config.{Config}
use adaptive_leader.Transaction.{TransactionState}
use adaptive_leader.Messages.{
  PrePrepareRequest, PrepareRequest, CommitRequest, StatusResponse, NewViewRequest,
}
use adaptive_leader.Store.{update_last_stable_checkpoint, get_sequence_number, get_proof}
use adaptive_leader.LeaderElection.{get_leader}
use adaptive_leader.Node.Defs.{
  Node, broadcast_prepare, status_to_peer, set_view, set_store, new_view_data,
}
use adaptive_leader.Node.Views.{
  go_to_view_change, new_view_start, adopt, adopt_all, handle_new_view_request,
  handle_status_request, max_view, catch_up, restart, verify_status_response,
  handle_status_response,
}
use adaptive_leader.Node.Steps.{
  Input, pre_prepare, prepare, commit_vote, checkpoint, status_request, status_response,
  handle_input,
}
use adaptive_leader.Node.Invariant.Heap.{send-Inv, new_txn-Inv}
use adaptive_leader.Node.Invariant.Calls.{call_add_prepare-Inv, call_add_pre_prepare-Inv}
use adaptive_leader.Node.Invariant.Handlers.{
  Safe, some-Safe, set_view-Inv, set_store-Inv, handle_pre_prepare_request-Safe,
  handle_prepare_request-Safe, handle_commit_request-Safe,
}
use adaptive_leader.Node.Invariant.Commits.{handle_checkpoint_request-Safe}

-- What the votes that arrive fulfil, and the node's own.
module _ (c : Config) (P : PrepareRequest → Type 0) (C : CommitRequest → Type 0)
    (H : TransactionState → Type 0) (own_prepare : (m : PrepareRequest) → m.replica_id ≡ c.id → P m)
    (own_commit : (m : CommitRequest) → m.replica_id ≡ c.id → C m) where
  pub go_to_view_change-Safe : (n : Node) → Safe c P C H n → Safe c P C H (go_to_view_change n)
  unfolding go_to_view_change
  go_to_view_change-Safe n (ns, v) = (ns, set_view-Inv c P C H ns _ n v.known v)

  adopt-Safe : (m : PrePrepareRequest) (n : Node) → Safe c P C H n → Safe c P C H (adopt m n)
  unfolding adopt
  adopt-Safe m n (ns, v) =
      let r = length n.heap in
      let k = m.sequence_number in
      let ms = ns ++ k ∷ [] in
      let at = subst (λ i. get_elem? ms i ≡ some k) v.one_each (get_elem?-append_length ns k) in
      let own : PrepareRequest = record {
        view_id = m.view_id;
        sequence_number = k;
        request_digest = m.request_digest;
        replica_id = n.config.id;
      } in
      let v₁ = call_add_pre_prepare-Inv c P C H ms _ r (new_txn-Inv c P C H ns k n v) m at in
      let v₂ =
        call_add_prepare-Inv c P C H ms _ r v₁ own at
          (own_prepare own (ap (λ d. d.id) v.same_config)) in
      (ms, send-Inv c P C H ms (broadcast_prepare own) _ tt v₂)

  adopt_all-Safe :
      (ms : List PrePrepareRequest) (n : Node) → Safe c P C H n → Safe c P C H (adopt_all ms n)
  unfolding adopt_all
  adopt_all-Safe [] n v = v
  adopt_all-Safe (m ∷ ms) n v = adopt_all-Safe ms (adopt m n) (adopt-Safe m n v)

  pub handle_new_view_request-Safe :
      (n n' : Node) (msg : NewViewRequest)
      → Safe c P C H n
      → handle_new_view_request n msg ≡ some n'
      → Safe c P C H n'
  unfolding handle_new_view_request
  handle_new_view_request-Safe n n' msg (ns, v) h =
      let start = new_view_start msg in
      let fresh = set_view (new_view_data msg.new_view_id start msg.replica_id) n in
      let entered =
        adopt_all-Safe msg.preprepares fresh (
          ns,
          set_view-Inv c P C H ns (new_view_data msg.new_view_id start msg.replica_id) n tt v,
        ) in
      elim (Bool-cases (ltb msg.new_view_id n.view_data.current_view)) [
        | inl old ↦ some-Safe c P C H n n' (ns, v) (ground arith)
        | inr current ↦ elim (Bool-cases (start == max_int64)) [
          | inl none_left ↦ absurd (ground arith)
          | inr valid ↦ some-Safe c P C H _ n' entered (ground arith)
        ]
      ]

  catch_up-Safe :
      (n n' : Node) (msg : StatusResponse)
      → Safe c P C H n
      → catch_up n msg ≡ some n'
      → Safe c P C H n'
  unfolding catch_up
  catch_up-Safe n n' msg (ns, v) h =
      elim (Bool-cases (
        ltb (get_sequence_number n.store.last_stable_checkpoint) msg.last_stable_sequence_number)) [
          | inl newer ↦
              let went : (update_last_stable_checkpoint n.store msg.checkpoint_proof >>= λ store.
              some (
                set_store store (
                  set_view
                    (record n.view_data { last_sequence_number = msg.last_stable_sequence_number })
                    n)))
                  ≡ some n' =
                ground arith in
              let (store, _, made) =
                >>=-eq-some (update_last_stable_checkpoint n.store msg.checkpoint_proof) _ went in
              some-Safe c P C H _ n'
                (
                  ns,
                  set_store-Inv c P C H ns store _ (
                      set_view-Inv c P C H ns
                        (record n.view_data {
                          last_sequence_number = msg.last_stable_sequence_number;
                        })
                        n v.known v),
                )
                made
          | inr no_newer ↦ some-Safe c P C H n n' (ns, v) (ground arith)
        ]

  restart-Safe :
      (n n' : Node) (msg : StatusResponse)
      → Safe c P C H n
      → restart n msg ≡ some n'
      → Safe c P C H n'
  unfolding restart
  restart-Safe n n' msg (ns, v) h =
      let view = max_view (int64 0) msg.checkpoint_proof in
      let (leader, _, made) = >>=-eq-some (get_leader n.leader_election view) _ h in
      some-Safe c P C H _ n'
        (
          ns,
          set_view-Inv c P C H ns
              (new_view_data view (inc64 msg.last_stable_sequence_number) leader) n tt v,
        )
        made

  handle_status_response-Safe :
      (n n' : Node) (msg : StatusResponse)
      → Safe c P C H n
      → handle_status_response n msg ≡ some n'
      → Safe c P C H n'
  unfolding handle_status_response
  handle_status_response-Safe n n' msg v h = elim (Bool-cases (verify_status_response n msg)) [
    | inl valid ↦
        let went : (catch_up n msg >>= λ q. restart q msg) ≡ some n' = ground arith in
        let (q, first, on) = >>=-eq-some (catch_up n msg) _ went in
        restart-Safe q n' msg (catch_up-Safe n q msg v first) on
    | inr refused ↦ some-Safe c P C H n n' v (ground arith)
  ]

  -- A vote that arrives is counted.
  abbrev pub IsCounted : Input → Type 0
  IsCounted (pre_prepare m) = Unit
  IsCounted (prepare m) = P m
  IsCounted (commit_vote m) = C m
  IsCounted (checkpoint m) = Unit
  IsCounted (status_request m) = Unit
  IsCounted (status_response m) = Unit

  pub handle_input-Safe :
      (n n' : Node) (m : Input)
      → IsCounted m
      → Safe c P C H n
      → handle_input n m ≡ some n'
      → Safe c P C H n'
  unfolding handle_input handle_status_request
  handle_input-Safe n n' (pre_prepare m) is v h =
      some-Safe c P C H _ n' (handle_pre_prepare_request-Safe c P C H own_prepare n m v) h
  handle_input-Safe n n' (prepare m) is v h =
      some-Safe c P C H _ n' (handle_prepare_request-Safe c P C H n m is v) h
  handle_input-Safe n n' (commit_vote m) is v h =
      some-Safe c P C H _ n' (handle_commit_request-Safe c P C H n m is v) h
  handle_input-Safe n n' (checkpoint m) is v h =
      some-Safe c P C H _ n' (handle_checkpoint_request-Safe c P C H n m v) h
  handle_input-Safe n n' (status_request m) is (ns, v) h =
      let stable = n.store.last_stable_checkpoint in
      let told : StatusResponse = record {
        last_stable_sequence_number = get_sequence_number stable;
        checkpoint_proof = get_proof stable;
      } in
      some-Safe c P C H _ n' (ns, send-Inv c P C H ns (status_to_peer m.replica_id told) n tt v) h
  handle_input-Safe n n' (status_response m) is v h = handle_status_response-Safe n n' m v h

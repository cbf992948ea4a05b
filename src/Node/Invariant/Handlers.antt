-- ===== src/Node/Invariant/Handlers.antt =====
-- Every handler of a node keeps the invariant.
use adaptive_leader.Base.{
  ◌≡◌, refl, ap, subst, Bool, true, false, not, List, [], ◌∷◌, ◌++◌, some, All, length, get_elem?,
  get_elem?-append_length, if◌then◌else◌, arith, nat_eq,
}
use adaptive_leader.Base.Int64.{Int64, inc64}
use adaptive_leader.Config.{Config}
use adaptive_leader.Messages.{
  ClientRequest, PrePrepareRequest, PiggyBackedPrePareRequest, PrepareRequest, CommitRequest,
}
use adaptive_leader.Transaction.{TransactionState, commit_message}
use adaptive_leader.Store.{Store}
use adaptive_leader.Node.Defs.{
  Node, ViewData, TxnRef, adds_to_store, adds_pre_prepare, adds_prepare, adds_commit,
  handles_commit, broadcast_pre_prepare, broadcast_prepare, broadcast_commit, request_to_peer,
  set_view, set_store, is_primary, verify, find_or_new_txn,
}
use adaptive_leader.Node.Requests.{
  too_many_outstanding, mark_in_progress, propose, handle_client_request, accept,
  handle_pre_prepare_request, handle_prepare_request, handle_prepared_txn, handle_commit_request,
}
use adaptive_leader.Node.Invariant.{IsPrepared}
use adaptive_leader.Node.Invariant.Heap.{
  Keeps, unread-Inv, send-Inv, spawn-Inv, new_txn-Inv, find_or_new_txn-Inv,
}
use adaptive_leader.Node.Invariant.Calls.{call_add_pre_prepare-Inv}

module _ (c : Config) (P : PrepareRequest → Type 0) (C : CommitRequest → Type 0)
    (H : TransactionState → Type 0) where
  -- A node whose heap is numbered.
  abbrev pub Safe : Node → Type 0
  Safe n = (ns : List Int64) × Keeps c P C H ns n

  pub some-Safe : (n n' : Node) → Safe n → some n ≡ some n' → Safe n'
  some-Safe n n' v e = subst Safe (ground arith) v

  pub if-Safe : (b : Bool) (n n' : Node) → Safe n → Safe n' → Safe (if b then n else n')
  if-Safe true n n' v w = v
  if-Safe false n n' v w = w

  -- Changes of what the invariant does not read.
  pub set_view-Inv :
      (ns : List Int64) (d : ViewData) (n : Node)
      → All (λ (e : Int64 × TxnRef). get_elem? ns e.1 ≡ some e.0) d.transaction_states
      → Keeps c P C H ns n
      → Keeps c P C H ns (set_view d n)
  unfolding set_view
  set_view-Inv ns d n known v = unread-Inv c P C H ns n _ v refl refl refl refl known

  pub set_store-Inv :
      (ns : List Int64) (s : Store) (n : Node)
      → Keeps c P C H ns n
      → Keeps c P C H ns (set_store s n)
  unfolding set_store
  set_store-Inv ns s n v = unread-Inv c P C H ns n _ v refl refl refl refl v.known

  mark_in_progress-Inv :
      (ns : List Int64) (k : Int64) (n : Node)
      → Keeps c P C H ns n
      → Keeps c P C H ns (mark_in_progress k n)
  unfolding mark_in_progress
  mark_in_progress-Inv ns k n v = set_view-Inv ns _ n v.known v

  propose-Safe : (n : Node) (msg : ClientRequest) → Safe n → Safe (propose n msg)
  unfolding propose mark_in_progress set_view
  propose-Safe n msg (ns, v) =
      let d = n.view_data in
      let k = inc64 d.last_sequence_number in
      let numbered = set_view (record d { last_sequence_number = k }) n in
      let m : PrePrepareRequest = record {
        view_id = d.current_view;
        sequence_number = k;
        request_digest = [];
      } in
      let r = length n.heap in
      let ms = ns ++ k ∷ [] in
      let v₁ = mark_in_progress-Inv ns k numbered (set_view-Inv ns _ n v.known v) in
      let v₂ = new_txn-Inv c P C H ns k (mark_in_progress k numbered) v₁ in
      let at = subst (λ i. get_elem? ms i ≡ some k) v.one_each (get_elem?-append_length ns k) in
      let v₃ = call_add_pre_prepare-Inv c P C H ms _ r v₂ m at in
      let v₄ = spawn-Inv c P C H ms (adds_to_store r (msg ∷ [])) _ tt v₃ in
      (
        ms,
        send-Inv c P C H ms
            (broadcast_pre_prepare (record { pre_prepare_request = m; requests = msg ∷ [] })) _ tt
            v₄,
      )

  pub handle_client_request-Safe :
      (n : Node) (msg : ClientRequest) → Safe n → Safe (handle_client_request n msg)
  unfolding handle_client_request
  handle_client_request-Safe n msg (ns, v) =
      if-Safe (not (is_primary n)) _ _
        (ns, send-Inv c P C H ns (request_to_peer n.view_data.leader_id msg) n tt v)
        (if-Safe n.view_data.is_in_view_change _ _ (ns, v)
          (if-Safe (too_many_outstanding n) _ _
            (
              ns,
              unread-Inv c P C H ns n
                  (record n { pending_requests = n.pending_requests ++ msg ∷ [] }) v refl refl refl
                  refl v.known,
            )
            (propose-Safe n msg (ns, v))))

  accept-Safe :
      ((m : PrepareRequest) → m.replica_id ≡ c.id → P m)
      → (n : Node) (msg : PiggyBackedPrePareRequest) → Safe n
      → Safe (accept n msg)
  unfolding accept
  accept-Safe own n msg (ns, v) =
      let m = msg.pre_prepare_request in
      let k = m.sequence_number in
      let (ms, v₁, at) = find_or_new_txn-Inv c P C H ns k _ (mark_in_progress-Inv ns k n v) in
      let prepare : PrepareRequest = record {
        view_id = m.view_id;
        sequence_number = k;
        request_digest = m.request_digest;
        replica_id = n.config.id;
      } in
      let mine = own prepare (ap (λ d. d.id) v.same_config) in
      let r = (find_or_new_txn k (mark_in_progress k n)).1 in
      let v₂ = spawn-Inv c P C H ms (adds_pre_prepare r m) _ at v₁ in
      let v₃ = spawn-Inv c P C H ms (adds_prepare r prepare) _ (at, mine) v₂ in
      (ms, send-Inv c P C H ms (broadcast_prepare prepare) _ tt (set_store-Inv ms _ _ v₃))

  pub handle_pre_prepare_request-Safe :
      ((m : PrepareRequest) → m.replica_id ≡ c.id → P m)
      → (n : Node) (msg : PiggyBackedPrePareRequest) → Safe n
      → Safe (handle_pre_prepare_request n msg)
  unfolding handle_pre_prepare_request
  handle_pre_prepare_request-Safe own n msg v =
      let m = msg.pre_prepare_request in
      if-Safe (is_primary n) _ _ v (
        if-Safe n.view_data.is_in_view_change _ _ v
          (if-Safe (not (verify n m.view_id m.sequence_number)) _ _ v (accept-Safe own n msg v)))

  pub handle_prepare_request-Safe :
      (n : Node) (msg : PrepareRequest) → P msg → Safe n → Safe (handle_prepare_request n msg)
  unfolding handle_prepare_request
  handle_prepare_request-Safe n msg is (ns, v) =
      let (ms, v₁, at) = find_or_new_txn-Inv c P C H ns msg.sequence_number n v in
      let r = (find_or_new_txn msg.sequence_number n).1 in
      if-Safe n.view_data.is_in_view_change _ _ (ns, v)
        (if-Safe (not (verify n msg.view_id msg.sequence_number)) _ _ (ns, v)
          (ms, spawn-Inv c P C H ms (adds_prepare r msg) _ (at, is) v₁))

  pub handle_commit_request-Safe :
      (n : Node) (msg : CommitRequest) → C msg → Safe n → Safe (handle_commit_request n msg)
  unfolding handle_commit_request
  handle_commit_request-Safe n msg is (ns, v) =
      let (ms, v₁, at) = find_or_new_txn-Inv c P C H ns msg.sequence_number n v in
      let r = (find_or_new_txn msg.sequence_number n).1 in
      if-Safe n.view_data.is_in_view_change _ _ (ns, v)
        (if-Safe (not (verify n msg.view_id msg.sequence_number)) _ _ (ns, v)
          (ms, spawn-Inv c P C H ms (adds_commit r msg) _ (at, is) v₁))

  pub handle_prepared_txn-Safe :
      ((m : CommitRequest) → m.replica_id ≡ c.id → C m)
      → (n : Node) (msg : CommitRequest) → IsPrepared c P C H msg
      → Safe n
      → Safe (handle_prepared_txn n msg)
  unfolding handle_prepared_txn commit_message
  handle_prepared_txn-Safe own n msg is (ns, v) =
      let (t, held, (pp, e, made, _, _, _), votes) = is in
      let mine = own msg (ap (λ m. m.replica_id) made) in
      (
        ns,
        send-Inv c P C H ns (broadcast_commit msg) _ is
            (spawn-Inv c P C H ns (handles_commit msg) n mine v),
      )

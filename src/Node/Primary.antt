-- ===== src/Node/Primary.antt =====
-- What a primary does with a client request.
use adaptive_leader.Base.{
  ◌≤◌, ◌≡◌, refl, sym, ap, ◌∙◌, ◌⊎◌, inl, inr, subst, true, false, not, [], ◌∷◌, ◌++◌, some, length,
  get_elem?, insert, length-insert, if◌then◌else◌, if-of_false, nat_eq, arith, Bool-cases,
  Option-cases,
}
use adaptive_leader.Base.Int64.{Int64, inc64}
use adaptive_leader.Messages.{ClientRequest, PrePrepareRequest}
use adaptive_leader.Node.Defs.{
  Node, Output, broadcast_pre_prepare, send, spawn, set_view, new_txn, call_add_pre_prepare,
  is_primary, TxnRef,
}
use adaptive_leader.Node.Requests.{
  too_many_outstanding, mark_in_progress, propose, handle_client_request,
}

-- The pre-prepare of a number in a view, with its request.
abbrev pub proposes : Int64 → Int64 → ClientRequest → Output
proposes view_id sequence_number msg = broadcast_pre_prepare (record {
  pre_prepare_request = record {
    view_id = view_id;
    sequence_number = sequence_number;
    request_digest = [];
  };
  requests = msg ∷ [];
})

pub some-inj : {n n' : Node} → some n ≡ some n' → n ≡ n'
some-inj h = ground arith

pub call_add_pre_prepare-keeps :
    (r : TxnRef) (m : PrePrepareRequest) (n : Node)
    → ((call_add_pre_prepare r m n).view_data ≡ n.view_data)
      × ((call_add_pre_prepare r m n).sent ≡ n.sent)
      × ((call_add_pre_prepare r m n).pending_requests ≡ n.pending_requests)
unfolding call_add_pre_prepare spawn
call_add_pre_prepare-keeps r m n = elim (Option-cases (get_elem? n.heap r)) [
  | inl e ↦ rw (e, call_add_pre_prepare) (refl, refl, refl)
  | inr (t, e) ↦ rw (e, call_add_pre_prepare) (refl, refl, refl)
]

pub propose_lem :
    (n : Node) (msg : ClientRequest)
    → let k = inc64 n.view_data.last_sequence_number in
      ((propose n msg).sent ≡ n.sent ++ proposes n.view_data.current_view k msg ∷ [])
      × ((propose n msg).view_data.in_progress_requests
          ≡ insert k tt n.view_data.in_progress_requests)
      × ((propose n msg).pending_requests ≡ n.pending_requests)
unfolding propose send spawn new_txn mark_in_progress set_view
propose_lem n msg =
    let v = n.view_data in
    let k = inc64 v.last_sequence_number in
    let m : PrePrepareRequest = record {
      view_id = v.current_view;
      sequence_number = k;
      request_digest = [];
    } in
    let numbered = set_view (record v { last_sequence_number = k }) n in
    let recorded = new_txn k (mark_in_progress k numbered) in
    let (view, sent, pending) = call_add_pre_prepare-keeps (length n.heap) m recorded in
    (
      ap (λ s. s ++ proposes v.current_view k msg ∷ []) sent,
      ap (λ w. w.in_progress_requests) view,
      pending,
    )

insert-below :
    (n : Node) (k : Int64)
    → too_many_outstanding n ≡ false
    → length (insert k tt n.view_data.in_progress_requests)
      ≤ n.config.general.max_outstanding_requests
unfolding too_many_outstanding
insert-below n k room = ground (arith, length-insert k tt n.view_data.in_progress_requests, room)

-- A request is proposed under the number after the last, in the node's view, or, with nothing sent, it
-- is appended to the pending ones; and no more are in progress than allowed.
abbrev pub IsKept : Node → ClientRequest → Node → Type 0
IsKept n msg n' =
    let k = inc64 n.view_data.last_sequence_number in
    (((n'.sent ≡ n.sent ++ proposes n.view_data.current_view k msg ∷ [])
        × (n'.pending_requests ≡ n.pending_requests))
      ⊎ ((n'.sent ≡ n.sent) × (n'.pending_requests ≡ n.pending_requests ++ msg ∷ [])))
    × (length n'.view_data.in_progress_requests ≤ n.config.general.max_outstanding_requests)

-- A primary outside a view change, with no more requests in progress than are allowed, keeps a
-- client request: it proposes it under the number after the last, in its view, or, with nothing
-- sent, appends it to the pending ones; and no more requests are in progress than are allowed.
pub handle_client_request_lem :
    (n : Node) (msg : ClientRequest)
    → is_primary n ≡ true
    → n.view_data.is_in_view_change ≡ false
    → length n.view_data.in_progress_requests ≤ n.config.general.max_outstanding_requests
    → IsKept n msg (handle_client_request n msg)
unfolding handle_client_request
handle_client_request_lem n msg primary normal few =
    let k = inc64 n.view_data.last_sequence_number in
    let old = n.view_data.in_progress_requests in
    let later = record n { pending_requests = n.pending_requests ++ msg ∷ [] } in
    let here = if-of_false _ _ (ap not primary) ∙ if-of_false _ _ normal in
    elim (Bool-cases (too_many_outstanding n)) [
      | inl full ↦
          let waits : handle_client_request n msg ≡ later =
            here ∙ ap (λ b. if b then later else propose n msg) full in
          subst (IsKept n msg) (sym waits) (inr (refl, refl), few)
      | inr room ↦
          let (sent, added, pending) = propose_lem n msg in
          let below = insert-below n k room in
          let bound =
            subst (λ m. length m ≤ n.config.general.max_outstanding_requests) (sym added) below in
          subst (IsKept n msg) (sym (here ∙ if-of_false _ _ room)) (inl (sent, pending), bound)
    ]

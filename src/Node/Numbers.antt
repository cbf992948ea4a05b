-- ===== src/Node/Numbers.antt =====
-- The numbers that a primary goes on from after a new view or a status response.
use adaptive_leader.Base.{
  ◌+◌, ◌≤◌, ◌<◌, ◌≡◌, refl, sym, ap, ap₂, ◌∙◌, inl, inr, subst, true, false, List, [], ◌∷◌, ◌++◌,
  some, length, get_elem?, ltb, if◌then◌else◌, if-of_false, nat_eq, ◌==◌, arith, ◌>>=◌, >>=-eq-some,
  Bool-cases, Option-cases,
}
use adaptive_leader.Base.Int64.{Int64, inc64, int64, inc64-of_lt, max_int64}
use adaptive_leader.Messages.{
  ClientRequest, PrePrepareRequest, PrepareRequest, NewViewRequest, StatusResponse,
}
use adaptive_leader.LeaderElection.{get_leader}
use adaptive_leader.Node.Defs.{
  Node, send, spawn, set_view, new_txn, call_add_pre_prepare, call_add_prepare, new_view_data,
  TxnRef,
}
use adaptive_leader.Transaction.{add_prepare}
use adaptive_leader.Node.Requests.{propose}
use adaptive_leader.Node.Views.{
  min_preprepare, new_view_start, adopt, adopt_all, handle_new_view_request, verify_status_response,
  max_view, restart, catch_up, handle_status_response,
}
use adaptive_leader.Node.Primary.{proposes, propose_lem, call_add_pre_prepare-keeps, some-inj}

call_add_prepare-keeps :
    (r : TxnRef) (m : PrepareRequest) (n : Node) → (call_add_prepare r m n).view_data ≡ n.view_data
unfolding call_add_prepare spawn
call_add_prepare-keeps r m n = elim (Option-cases (get_elem? n.heap r)) [
  | inl e ↦ rw (e, call_add_prepare) refl
  | inr (t, e) ↦ elim (Bool-cases (add_prepare n.config t m).1) [
    | inl checks ↦ rw (e, call_add_prepare, checks) refl
    | inr no_checks ↦ rw (e, call_add_prepare, no_checks) refl
  ]
]

-- What stays of the view: its number and the last sequence number.
abbrev SameNumbers : Node → Node → Type 0
SameNumbers n n' =
    (n'.view_data.current_view ≡ n.view_data.current_view)
    × (n'.view_data.last_sequence_number ≡ n.view_data.last_sequence_number)

adopt-SameNumbers : (m : PrePrepareRequest) (n : Node) → SameNumbers n (adopt m n)
unfolding adopt new_txn set_view send
adopt-SameNumbers m n =
    let r = length n.heap in
    let prepare : PrepareRequest = record {
      view_id = m.view_id;
      sequence_number = m.sequence_number;
      request_digest = m.request_digest;
      replica_id = n.config.id;
    } in
    let recorded = new_txn m.sequence_number n in
    let (view, _, _) = call_add_pre_prepare-keeps r m recorded in
    let view' = call_add_prepare-keeps r prepare (call_add_pre_prepare r m recorded) ∙ view in
    (ap (λ v. v.current_view) view', ap (λ v. v.last_sequence_number) view')

adopt_all-SameNumbers : (ms : List PrePrepareRequest) (n : Node) → SameNumbers n (adopt_all ms n)
unfolding adopt_all
adopt_all-SameNumbers [] n = (refl, refl)
adopt_all-SameNumbers (m ∷ ms) n =
    let (view, last) = adopt-SameNumbers m n in
    let (view', last') = adopt_all-SameNumbers ms (adopt m n) in (view' ∙ view, last' ∙ last)

-- Pre-prepares for the numbers from k on, in order.
abbrev pub IsInOrder : Int64 → List PrePrepareRequest → Type 0
IsInOrder k [] = Unit
IsInOrder k (m ∷ ms) = (m.sequence_number ≡ k) × IsInOrder (k + 1) ms

min_preprepare_lem :
    (ms : List PrePrepareRequest) (k j : Int64) → IsInOrder j ms → k ≤ j → min_preprepare k ms ≡ k
unfolding min_preprepare
min_preprepare_lem [] k j h le = refl
min_preprepare_lem (m ∷ ms) k j (number, rest) le =
    let least : (if ltb k m.sequence_number then k else m.sequence_number) ≡ k = ground arith in
    rw least (min_preprepare_lem ms k (j + 1) rest (omega arith))

-- The number from which a node goes on after the proposals of a new view is the first of them.
new_view_start_lem :
    (msg : NewViewRequest) (m : PrePrepareRequest) (ms : List PrePrepareRequest) (k : Int64)
    → msg.preprepares ≡ m ∷ ms
    → IsInOrder k (m ∷ ms)
    → k < max_int64
    → new_view_start msg ≡ k
unfolding new_view_start min_preprepare
new_view_start_lem msg m ms k e (number, rest) below =
    let least : (if ltb max_int64 m.sequence_number then max_int64 else m.sequence_number) ≡ k =
      ground arith in
    let first : min_preprepare max_int64 msg.preprepares ≡ k =
      ap (min_preprepare max_int64) e
      ∙ ap (λ i. min_preprepare i ms) least
      ∙ min_preprepare_lem ms k (k + 1) rest (omega arith) in
    let other : (k == max_int64) ≡ false = ground arith in rw (first, other) refl

-- After a new view whose leader proposes two numbers or more, in order, a node of no later view
-- that returns from it goes on from the first of them: what it proposes next has the number of the
-- second.
pub new_view_reuses_number :
    (n n' : Node) (msg : NewViewRequest) (m m' : PrePrepareRequest) (ms : List PrePrepareRequest)
    (k : Int64) (request : ClientRequest)
    → msg.preprepares ≡ m ∷ m' ∷ ms
    → IsInOrder k (m ∷ m' ∷ ms)
    → k < max_int64
    → n.view_data.current_view ≤ msg.new_view_id
    → handle_new_view_request n msg ≡ some n'
    → (propose n' request).sent
      ≡ n'.sent ++ proposes msg.new_view_id m'.sequence_number request ∷ []
unfolding handle_new_view_request set_view new_view_data
new_view_reuses_number n n' msg m m' ms k request e (is, (is', rest)) below fresh h =
    let start = new_view_start_lem msg m (m' ∷ ms) k e (is, (is', rest)) below in
    let view = new_view_data msg.new_view_id (new_view_start msg) msg.replica_id in
    let (same_view, same_last) = adopt_all-SameNumbers msg.preprepares (set_view view n) in
    let valid : (new_view_start msg == max_int64) ≡ false = rw start (ground arith) in
    let not_old : ltb msg.new_view_id n.view_data.current_view ≡ false = ground arith in
    let made = if-of_false _ _ not_old ∙ if-of_false _ _ valid in
    let entered : adopt_all msg.preprepares (set_view view n) ≡ n' = some-inj (sym made ∙ h) in
    let here = subst (λ q. q.view_data.current_view ≡ msg.new_view_id) entered same_view in
    let last =
      subst (λ q. q.view_data.last_sequence_number ≡ new_view_start msg) entered same_last in
    let (sent, _, _) = propose_lem n' request in
    let number : inc64 n'.view_data.last_sequence_number ≡ m'.sequence_number =
      ap inc64 (last ∙ start) ∙ inc64-of_lt k below ∙ sym is' in
    sent ∙ ap₂ (λ v i. n'.sent ++ proposes v i request ∷ []) here number

-- A node that accepts a status response goes on from the number after its stable checkpoint, as if
-- it had been proposed: the next proposal leaves that number out.
pub status_skips_number :
    (n n' : Node) (msg : StatusResponse) (request : ClientRequest)
    → verify_status_response n msg ≡ true
    → handle_status_response n msg ≡ some n'
    → (propose n' request).sent
      ≡ n'.sent
        ++ proposes n'.view_data.current_view
            (inc64 (inc64 msg.last_stable_sequence_number))
            request
          ∷ []
unfolding handle_status_response restart set_view new_view_data
status_skips_number n n' msg request valid h =
    let went : (catch_up n msg >>= λ q. restart q msg) ≡ some n' =
      sym (ap (λ b. if b then (catch_up n msg >>= λ q. restart q msg) else some n) valid) ∙ h in
    let (q, _, on) = >>=-eq-some (catch_up n msg) (λ q. restart q msg) went in
    let (leader, _, made) =
      >>=-eq-some (get_leader q.leader_election (max_view (int64 0) msg.checkpoint_proof)) _ on in
    let view : n'.view_data.last_sequence_number ≡ inc64 msg.last_stable_sequence_number =
      sym (ap (λ r. r.view_data.last_sequence_number) (some-inj made)) in
    let (sent, _, _) = propose_lem n' request in
    sent ∙ ap (λ i. n'.sent ++ proposes n'.view_data.current_view (inc64 i) request ∷ []) view

-- ===== src/Node/Views.antt =====
-- The change of views, and the status messages.
use adaptive_leader.Base.{
  Bool, true, false, not, List, [], ◌∷◌, ◌++◌, Option, none, some, Map, length, ltb, ◌==◌,
  if◌then◌else◌, nat_eq, ◌>>=◌,
}
use adaptive_leader.Base.Int64.{Int64, int64, inc64, max_int64}
use adaptive_leader.Messages.{
  PrePrepareRequest, PrepareRequest, CheckpointRequest, StatusRequest, StatusResponse,
  ViewChangePreparedMessage, ViewChangeRequest, NewViewRequest,
}
use adaptive_leader.LeaderElection.{get_leader}
use adaptive_leader.Transaction.{TransactionState, is_prepared, get_prepares}
use adaptive_leader.Store.{get_sequence_number, get_proof, update_last_stable_checkpoint}
use adaptive_leader.Base.{get_elem?}
use adaptive_leader.Config.{Config}
use adaptive_leader.Node.Defs.{
  Node, TxnRef, new_view_data, broadcast_prepare, status_to_peer, send, set_view, set_store,
  new_txn, call_add_pre_prepare, call_add_prepare,
}

-- `txnState.IsPrepared()` puts the transaction into the list.
unfoldable pub prepared_message : Config → TransactionState → List ViewChangePreparedMessage
prepared_message c t =
    if is_prepared c t
    then record { pre_prepare_request = t.preprepare; prepared_messages = get_prepares t } ∷ []
    else []

unfoldable pub prepared_messages :
    Config → List TransactionState → Map Int64 TxnRef → List ViewChangePreparedMessage
unfolding prepared_message
prepared_messages c heap [] = []
prepared_messages c heap ((k, r) ∷ txns) =
    let rest = prepared_messages c heap txns in
    elim (get_elem? heap r) [ none ↦ rest | some t ↦ prepared_message c t ++ rest ]

unfoldable pub get_current_prepared_requests : Node → List ViewChangePreparedMessage
unfolding prepared_messages
get_current_prepared_requests n = prepared_messages n.config n.heap n.view_data.transaction_states

unfoldable pub go_to_view_change : Node → Node
unfolding set_view
go_to_view_change n = set_view (record n.view_data { is_in_view_change = true }) n

abbrev min64 : Int64 → Int64 → Int64
min64 a b = if ltb a b then a else b

unfoldable pub min_preprepare : Int64 → List PrePrepareRequest → Int64
min_preprepare least [] = least
min_preprepare least (m ∷ ms) = min_preprepare (min64 least m.sequence_number) ms

min_stable : Int64 → List ViewChangeRequest → Int64
min_stable least [] = least
min_stable least (m ∷ ms) = min_stable (min64 least m.last_stable_sequence_number) ms

-- The number from which the new view goes on: MaxInt64 if the message holds none.
unfoldable pub new_view_start : NewViewRequest → Int64
unfolding min_preprepare min_stable
new_view_start msg =
    let first = min_preprepare max_int64 msg.preprepares in
    if first == max_int64 then min_stable first msg.view_change_proof else first

-- One pre-prepare of a new view: a new transaction with it and the node's own prepare.
unfoldable pub adopt : PrePrepareRequest → Node → Node
unfolding new_txn call_add_pre_prepare call_add_prepare send
adopt m n =
    let r = length n.heap in
    let prepare : PrepareRequest = record {
      view_id = m.view_id;
      sequence_number = m.sequence_number;
      request_digest = m.request_digest;
      replica_id = n.config.id;
    } in
    let started = call_add_pre_prepare r m (new_txn m.sequence_number n) in
    send (broadcast_prepare prepare) (call_add_prepare r prepare started)

unfoldable pub adopt_all : List PrePrepareRequest → Node → Node
unfolding adopt
adopt_all [] n = n
adopt_all (m ∷ ms) n = adopt_all ms (adopt m n)

-- `none` is `log.Fatal`.
unfoldable pub handle_new_view_request : Node → NewViewRequest → Option Node
unfolding new_view_start new_view_data set_view adopt_all
handle_new_view_request n msg =
    let start = new_view_start msg in
    if ltb msg.new_view_id n.view_data.current_view
    then some n
    else if start == max_int64
    then none
    else some (
        adopt_all msg.preprepares (set_view (new_view_data msg.new_view_id start msg.replica_id) n))

unfoldable pub handle_status_request : Node → StatusRequest → Node
unfolding send
handle_status_request n msg =
    let stable = n.store.last_stable_checkpoint in
    send
      (status_to_peer msg.replica_id (record {
        last_stable_sequence_number = get_sequence_number stable;
        checkpoint_proof = get_proof stable;
      }))
      n

abbrev pub is_empty : List CheckpointRequest → Bool
is_empty [] = true
is_empty (m ∷ ms) = false

unfoldable pub verify_status_response : Node → StatusResponse → Bool
verify_status_response n msg =
    if ltb msg.last_stable_sequence_number (get_sequence_number n.store.last_stable_checkpoint)
    then false
    else not (is_empty msg.checkpoint_proof)

unfoldable pub max_view : Int64 → List CheckpointRequest → Int64
max_view greatest [] = greatest
max_view greatest (m ∷ ms) = max_view (if ltb greatest m.view_id then m.view_id else greatest) ms

-- The part that runs only if the peer's stable checkpoint is newer.
unfoldable pub catch_up : Node → StatusResponse → Option Node
unfolding set_store set_view
catch_up n msg =
    let newer = update_last_stable_checkpoint n.store msg.checkpoint_proof >>= λ store. some (
      set_store store (
        set_view (record n.view_data { last_sequence_number = msg.last_stable_sequence_number })
          n)) in
    if ltb (get_sequence_number n.store.last_stable_checkpoint) msg.last_stable_sequence_number
    then newer
    else some n

-- The node's view data starts anew, in the highest view that the proof names.
unfoldable pub restart : Node → StatusResponse → Option Node
unfolding max_view new_view_data set_view
restart n msg = do
  let view = max_view (int64 0) msg.checkpoint_proof
  leader ← get_leader n.leader_election view
  some (set_view (new_view_data view (inc64 msg.last_stable_sequence_number) leader) n)

-- `none` is a panic, of an empty proof or of GetLeader.
unfoldable pub handle_status_response : Node → StatusResponse → Option Node
unfolding verify_status_response catch_up restart
handle_status_response n msg =
    if verify_status_response n msg then (catch_up n msg >>= λ n'. restart n' msg) else some n

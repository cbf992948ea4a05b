-- ===== src/ViewChanger/Sender.antt =====
-- pbft/view_changer/sender.go: the connections of the view changer. Addresses are pointers: a
-- connection adds 1000 to the port of the configuration's own record, which is a place of the heap.
-- Under the node's own id stands config.Address, which cmd/node/main.go takes from the map of peers.
pub mod Ports
mod Examples
use adaptive_leader.Base.{
  ℕ, ◌+◌, Bool, true, false, List, [], ◌∷◌, Option, none, some, GoString, Map, codes, lookup,
  insert, ◌==◌, if◌then◌else◌, string_eq,
}
use adaptive_leader.Config.{Address}
use adaptive_leader.Messages.{ViewChangeRequest, NewViewRequest}

-- Where the configurations' pointers lead: by replica, the address as it is now.
abbrev pub Heap : Type 0
Heap = Map GoString Address

-- `conns` holds the target of each connection. `ids` is what config.ReplicaIds returns.
pub record Sender : Type 0 where
  pub id : GoString
  pub ids : List GoString
  pub conns : Map GoString Address

unfoldable pub new_sender : GoString → List GoString → Sender
new_sender id ids = record { id = id; ids = ids; conns = [] }

-- `address.Port += 1000`
unfoldable pub add_1000 : GoString → Address → Heap → Heap
add_1000 id address heap = insert id (record address { port = address.port + 1000 }) heap

-- The target of the connection that getClient returns. `none` is an error: no address, or NewClient's,
-- which comes after the change of the port. `connects` tells which targets NewClient takes.
unfoldable pub get_client :
    (Address → Bool) → Sender → Heap → GoString → (Sender × Heap) × Option Address
unfolding add_1000
get_client connects s heap id = elim (lookup id s.conns) [
  | some conn ↦ ((s, heap), some conn)
  | none ↦ elim (lookup id heap) [
    | none ↦ ((s, heap), none)
    | some address ↦
        let target = record address { port = address.port + 1000 } in
        let heap' = add_1000 id address heap in
        if connects target
        then ((record s { conns = insert id target s.conns }, heap'), some target)
        else ((s, heap'), none)
  ]
]

-- proto.Message, as the view changer sends it.
pub data Message : Type 0 where
  view_change : ViewChangeRequest → Message
  new_view : NewViewRequest → Message

-- A call of pb.ViewChangerClient: the target and the request.
abbrev pub Sent : Type 0
Sent = Address × Message

abbrev pub calls_to : Message → Option Address → List Sent
calls_to req none = []
calls_to req (some target) = (target, req) ∷ []

-- SendViewChange and SendNewView: at most one call, and an error is only logged by their callers.
unfoldable pub send_request :
    (Address → Bool) → Sender → Heap → GoString → Message → (Sender × Heap) × List Sent
unfolding get_client
send_request connects s heap target_id req =
    let (after, client) = get_client connects s heap target_id in (after, calls_to req client)

-- `msgType` and the message's own type agree, or nothing is sent.
unfoldable pub is_of_type : GoString → Message → Bool
is_of_type msg_type (view_change m) = msg_type == codes "ViewChange"
is_of_type msg_type (new_view m) = msg_type == codes "NewView"

unfoldable pub send_rpc_to_peer :
    (Address → Bool) → Sender → Heap → GoString → GoString → Message → (Sender × Heap) × List Sent
unfolding send_request is_of_type
send_rpc_to_peer connects s heap peer_id method message =
    if is_of_type method message
    then send_request connects s heap peer_id message
    else ((s, heap), [])

unfoldable pub broadcast_to :
    (Address → Bool)
    → List GoString
    → Sender
    → Heap
    → GoString
    → Message
    → (Sender × Heap) × Map GoString (List Sent)
unfolding send_rpc_to_peer
broadcast_to connects [] s heap msg_type msg = ((s, heap), [])
broadcast_to connects (id ∷ ids) s heap msg_type msg =
    let ((s₁, heap₁), sent) = send_rpc_to_peer connects s heap id msg_type msg in
    let ((s₂, heap₂), others) = broadcast_to connects ids s₁ heap₁ msg_type msg in
    let skipped = broadcast_to connects ids s heap msg_type msg in
    if id == s.id then skipped else ((s₂, heap₂), (id, sent) ∷ others)

unfoldable pub broadcast :
    (Address → Bool)
    → Sender
    → Heap
    → GoString
    → Message
    → (Sender × Heap) × Map GoString (List Sent)
unfolding broadcast_to
broadcast connects s heap msg_type msg = broadcast_to connects s.ids s heap msg_type msg

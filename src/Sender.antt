-- ===== src/Sender.antt =====
-- pbft/sender.go: how the messages of a node reach the services of its peers. Connections and calls
-- over gRPC are outside: whether an attempt succeeds is a parameter. The children prove.
pub mod Retries
pub mod Delivery
mod Examples
use adaptive_leader.Base.{
  ℕ, zero, suc, ◌+◌, Bool, true, false, List, [], ◌∷◌, ◌++◌, Option, none, some, GoString, Map,
  codes, lookup, insert, contains, ◌==◌, if◌then◌else◌, string_eq,
}
use adaptive_leader.Base.Int64.{Int64}
use adaptive_leader.Config.{Config, Address}
use adaptive_leader.Messages.{
  ClientRequest, ClientResponse, PiggyBackedPrePareRequest, PrepareRequest, CommitRequest,
  CheckpointRequest, StatusRequest, StatusResponse,
}

-- The messages that a node sends, as values of the interface proto.Message.
pub data Message : Type 0 where
  client_request : ClientRequest → Message
  pre_prepare : PiggyBackedPrePareRequest → Message
  prepare : PrepareRequest → Message
  commit_request : CommitRequest → Message
  checkpoint : CheckpointRequest → Message
  status_request : StatusRequest → Message
  status_response : StatusResponse → Message
  client_response : ClientResponse → Message

-- The methods of pb.PbftClient.
pub data Call : Type 0 where
  calls_request : ClientRequest → Call
  calls_pre_prepare : PiggyBackedPrePareRequest → Call
  calls_prepare : PrepareRequest → Call
  calls_commit : CommitRequest → Call
  calls_checkpoint : CheckpointRequest → Call
  calls_get_status : StatusRequest → Call
  calls_status : StatusResponse → Call

-- What `switch method` comes to; a type assertion that fails panics.
pub data Dispatch : Type 0 where
  calls : Call → Dispatch
  assertion_fails unknown_method : Dispatch

abbrev as_request : Message → Dispatch
as_request (client_request m) = calls (calls_request m)
as_request m = assertion_fails

abbrev as_pre_prepare : Message → Dispatch
as_pre_prepare (pre_prepare m) = calls (calls_pre_prepare m)
as_pre_prepare m = assertion_fails

abbrev as_prepare : Message → Dispatch
as_prepare (prepare m) = calls (calls_prepare m)
as_prepare m = assertion_fails

abbrev as_commit : Message → Dispatch
as_commit (commit_request m) = calls (calls_commit m)
as_commit m = assertion_fails

abbrev as_checkpoint : Message → Dispatch
as_checkpoint (checkpoint m) = calls (calls_checkpoint m)
as_checkpoint m = assertion_fails

abbrev as_get_status : Message → Dispatch
as_get_status (status_request m) = calls (calls_get_status m)
as_get_status m = assertion_fails

abbrev as_status : Message → Dispatch
as_status (status_response m) = calls (calls_status m)
as_status m = assertion_fails

unfoldable pub dispatch : GoString → Message → Dispatch
dispatch method message =
    if method == codes "Request"
    then as_request message
    else if method == codes "PrePrepare"
    then as_pre_prepare message
    else if method == codes "Prepare"
    then as_prepare message
    else if method == codes "Commit"
    then as_commit message
    else if method == codes "Checkpoint"
    then as_checkpoint message
    else if method == codes "GetStatus"
    then as_get_status message
    else if method == codes "Status"
    then as_status message
    else unknown_method

-- One attempt: a call and whether it succeeded, an error with no call, or a panic.
pub data Attempt : Type 0 where
  called : Call → Bool → Attempt
  refused : Attempt
  panicked : Attempt

-- `client == nil` for a peer that the sender has no client of.
unfoldable pub send_rpc_to_peer : Option Address → GoString → Message → (Call → Bool) → Attempt
unfolding dispatch
send_rpc_to_peer none method message succeeds = refused
send_rpc_to_peer (some client) method message succeeds = elim (dispatch method message) [
  | calls c ↦ called c (succeeds c)
  | assertion_fails ↦ panicked
  | unknown_method ↦ refused
]

abbrev ends : Attempt → Bool
ends (called c succeeded) = succeeded
ends refused = false
ends panicked = true

-- The loop of SendRPCToPeer, with the attempts left and the number of the next.
unfoldable pub attempts :
    ℕ → ℕ → Option Address → GoString → Message → (ℕ → Call → Bool) → List Attempt
unfolding send_rpc_to_peer
attempts zero i client method message succeeds = []
attempts (suc left) i client method message succeeds =
    let attempt = send_rpc_to_peer client method message (succeeds i) in
    let later = attempts left (i + 1) client method message succeeds in
    attempt ∷ (if ends attempt then [] else later)

-- The peers other than the node itself, with the targets of their clients.
unfoldable pub other_nodes : GoString → Map GoString Address → Map GoString Address
other_nodes self [] = []
other_nodes self ((id, address) ∷ peers) =
    let rest = other_nodes self peers in if id == self then rest else (id, address) ∷ rest

-- A sender, with the client connections that it has opened.
pub record Sender : Type 0 where
  pub config : Config
  pub max_retries : ℕ
  pub clients : Map GoString (Unit {0})
  pub nodes : Map GoString Address

unfoldable pub new_sender : Config → ℕ → Sender
unfolding other_nodes
new_sender c max_retries = record {
  config = c;
  max_retries = max_retries;
  clients = [];
  nodes = other_nodes c.id c.peers_address;
}

unfoldable pub send_to_peer :
    Sender → GoString → GoString → Message → (ℕ → Call → Bool) → List Attempt
unfolding attempts
send_to_peer s peer_id method message succeeds =
    attempts s.max_retries 0 (lookup peer_id s.nodes) method message succeeds

-- To each of the nodes, in the map's order.
unfoldable pub broadcast_to :
    Sender
    → Map GoString Address
    → GoString
    → Message
    → (GoString → ℕ → Call → Bool)
    → Map GoString (List Attempt)
unfolding send_to_peer
broadcast_to s [] method message succeeds = []
broadcast_to s ((id, address) ∷ nodes) method message succeeds =
    (id, send_to_peer s id method message (succeeds id))
    ∷ broadcast_to s nodes method message succeeds

unfoldable pub broadcast :
    Sender → GoString → Message → (GoString → ℕ → Call → Bool) → Map GoString (List Attempt)
unfolding broadcast_to
broadcast s method message succeeds = broadcast_to s s.nodes method message succeeds

-- What sendRPCToClient does: an answer is sent, over a connection that is kept.
pub data Answer : Type 0 where
  answered : ClientResponse → Answer
  no_connection answer_fails wrong_method : Answer

abbrev as_response : Message → Answer
as_response (client_response m) = answered m
as_response m = answer_fails

-- `connects`: grpc.NewClient returns no error.
unfoldable pub send_rpc_to_client : Sender → GoString → GoString → Message → Bool → Sender × Answer
send_rpc_to_client s address method message connects =
    let known = contains address s.clients in
    let s' = if known then s else record s { clients = insert address tt s.clients } in
    let answer = if method == codes "Response" then as_response message else wrong_method in
    if known then (s', answer) else if connects then (s', answer) else (s, no_connection)

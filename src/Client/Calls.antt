-- ===== src/Client/Calls.antt =====
-- SendRequest and Response, as steps that the environment chooses. A handler of Response has read the
-- request's channel and added its answer in one step, and compares the size in another: other
-- handlers run in between.
use adaptive_leader.Base.{
  ℕ, zero, suc, List, [], ◌∷◌, ◌++◌, Option, none, some, GoString, Map, lookup, insert, get_elem?,
  nat_eq, ◌>>=◌,
}
use adaptive_leader.Base.Int64.{Int64}
use adaptive_leader.Config.{Address}
use adaptive_leader.Messages.{Operation, OperationResult, ClientRequest, ClientResponse}
use adaptive_leader.Client.{ResponseCollection, new_response_collection, add_response, ready_result}

-- A channel of results, by a number of its own.
abbrev pub ChannelRef : Type 0
ChannelRef = ℕ

-- A handler that has yet to compare the size: the answer's time, and the request's channel or nil.
pub record Handler : Type 0 where
  pub timestamp_ns : Int64
  pub operation_results : Option ChannelRef

-- A send on a request's channel.
pub record Delivery : Type 0 where
  pub channel : ChannelRef
  pub timestamp_ns : Int64
  pub result : OperationResult

-- `requests` holds the calls of Request, with the nodes that they go to.
pub record Client : Type 0 where
  pub client_id : GoString
  pub callback_address : GoString
  pub nodes_address : Map GoString Address
  pub node_names : List GoString
  pub current_leader : GoString
  pub collected_response : Map Int64 ResponseCollection
  pub callback_channels : Map Int64 ChannelRef
  pub requests : List (GoString × ClientRequest)
  pub handlers : List Handler
  pub delivered : List Delivery

-- SendRequest up to its call: `now` is the clock's time and `pick` what rand.Intn returns. `none` is a
-- panic. The channel stays registered even if the call fails.
unfoldable pub send_request : Client → Operation → ChannelRef → Int64 → ℕ → Option Client
send_request c op callback now pick = do
  next ← get_elem? c.node_names pick
  let request : ClientRequest = record {
    client_id = c.client_id;
    timestamp_ns = now;
    operation = op;
    callback = c.callback_address;
  }
  some (record c {
    current_leader = next;
    callback_channels = insert now callback c.callback_channels;
    requests = c.requests ++ (c.current_leader, request) ∷ [];
  })

-- The collection of a time, made if it is missing.
unfoldable pub collection_at : Int64 → Map Int64 ResponseCollection → ResponseCollection
collection_at timestamp m = elim (lookup timestamp m) [
  | none ↦ new_response_collection
  | some rc ↦ rc
]

-- Response up to AddResponse.
unfoldable pub take_response : Client → ClientResponse → Client
unfolding collection_at
take_response c response =
    let timestamp = response.timestamp_ns in
    let rc = add_response (collection_at timestamp c.collected_response) response in
    let handler : Handler = record {
      timestamp_ns = timestamp;
      operation_results = lookup timestamp c.callback_channels;
    } in
    record c {
      collected_response = insert timestamp rc c.collected_response;
      handlers = c.handlers ++ handler ∷ [];
    }

-- A send on a nil channel blocks forever.
unfoldable pub deliver : Client → Handler → Option OperationResult → Client
deliver c h none = c
deliver c h (some result) = elim h.operation_results [
  | none ↦ c
  | some channel ↦
      let delivery : Delivery = record {
        channel = channel;
        timestamp_ns = h.timestamp_ns;
        result = result;
      } in
      record c { delivered = c.delivered ++ delivery ∷ [] }
]

unfoldable pub take_handler : ℕ → List Handler → Option (Handler × List Handler)
take_handler i [] = none
take_handler zero (h ∷ hs) = some (h, hs)
take_handler (suc i) (h ∷ hs) =
    let later = take_handler i hs in
    elim later [ none ↦ none | some (u, rest) ↦ some (u, h ∷ rest) ]

-- The rest of Response. GetSize and GetResponse lock one after the other; here they are one step.
unfoldable pub finish_response : Client → ℕ → Option Client
unfolding take_handler deliver collection_at
finish_response c i = do
  (h, rest) ← take_handler i c.handlers
  let rc = collection_at h.timestamp_ns c.collected_response
  some (deliver (record c { handlers = rest }) h (ready_result c.nodes_address rc))

pub data Event : Type 0 where
  request_is_sent : Operation → ChannelRef → Int64 → ℕ → Event
  response_comes : ClientResponse → Event
  handler_ends : ℕ → Event

unfoldable pub step : Client → Event → Option Client
unfolding send_request take_response finish_response
step c (request_is_sent op callback now pick) = send_request c op callback now pick
step c (response_comes r) = some (take_response c r)
step c (handler_ends i) = finish_response c i

unfoldable pub run : Client → List Event → Option Client
unfolding step
run c [] = some c
run c (e ∷ es) = do c' ← step c e; run c' es

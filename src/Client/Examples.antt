-- ===== src/Client/Examples.antt =====
-- The theorems on a client of four nodes.
use adaptive_leader.Base.{
  ◌≡◌, refl, List, [], ◌∷◌, ◌++◌, Option, none, some, inl, nat_eq, string_eq, GoString, codes,
  Among, insert, lookup,
}
use adaptive_leader.Base.Int64.{int64}
use adaptive_leader.Messages.{OperationType, ClientResponse}
use adaptive_leader.Samples.{peers, node_0, node_1, node_2}
use adaptive_leader.Client.{
  new_response_collection, add_response, get_size, get_response, f, ready_result, collect,
}
use adaptive_leader.Client.Calls.{
  Client, Delivery, Event, request_is_sent, response_comes, handler_ends, collection_at, run,
}
use adaptive_leader.Client.Answers.{AgreeOn}
use adaptive_leader.Client.Deliveries.{answers_in, channels_in, delivery_is_backed}
use adaptive_leader.Client.Http.{serve}
use adaptive_leader.Client.Repeats.{ready_is_sent_twice}

-- What the tests compute with.
evaluation : Unit {0}
unfolding run serve collection_at new_response_collection ready_result get_size get_response collect
    add_response f insert lookup
evaluation = tt

abbrev answer : GoString → GoString → ClientResponse
answer id value = record {
  view_id = int64 0;
  timestamp_ns = int64 1;
  client_id = codes "c";
  replica_id = id;
  result = record { value = value };
}

-- Two of three replicas agree.
abbrev answers : List ClientResponse
answers = answer node_0 (codes "7") ∷ answer node_1 (codes "8") ∷ answer node_2 (codes "7") ∷ []

-- A third answer comes before the size was compared.
abbrev three : List ClientResponse
three = answer node_0 (codes "7") ∷ answer node_1 (codes "7") ∷ answer node_2 (codes "7") ∷ []

-- A client whose request is answered by two replicas, whose handlers both have added their answers.
abbrev fresh : Client
fresh = record {
  client_id = codes "c";
  callback_address = codes "localhost:1";
  nodes_address = peers;
  node_names = node_0 ∷ node_1 ∷ node_2 ∷ [];
  current_leader = node_1;
  collected_response = [];
  callback_channels = [];
  requests = [];
  handlers = [];
  delivered = [];
}

abbrev events : List Event
events =
    request_is_sent (record { type = OperationType.get; key = []; value = [] }) 9 (int64 1) 2
    ∷ response_comes (answer node_0 (codes "7"))
    ∷ response_comes (answer node_1 (codes "7"))
    ∷ []

abbrev or_fresh : Option Client → Client
or_fresh none = fresh
or_fresh (some c) = c

abbrev answered : Client
answered = or_fresh (run fresh events)

abbrev delivery : Delivery
delivery = record { channel = 9; timestamp_ns = int64 1; result = record { value = codes "7" } }

abbrev finished : Client
finished = or_fresh (run fresh (events ++ handler_ends 1 ∷ []))

delivery_is_backed_example :
    Among (int64 1, 9) (channels_in (events ++ handler_ends 1 ∷ []))
    × AgreeOn peers
        (λ r. Among r (answers_in (events ++ handler_ends 1 ∷ [])))
        (int64 1)
        (record { value = codes "7" })
unfolding evaluation
delivery_is_backed_example =
    delivery_is_backed fresh finished (events ++ handler_ends 1 ∷ []) delivery
      (refl, refl, refl, refl) refl (inl refl)

ready_is_sent_twice_example :
    (c : Client) × (run answered (handler_ends 0 ∷ handler_ends 0 ∷ []) ≡ some c)
    × (c.delivered ≡ delivery ∷ delivery ∷ [])
unfolding evaluation
ready_is_sent_twice_example =
    ready_is_sent_twice answered (int64 1) 9 [] (record { value = codes "7" }) refl refl

-- ===== src/Client.antt =====
-- client/client.go: how a client collects the replicas' answers to a request.
use adaptive_leader.Base.{
  ℕ, ◌+◌, ◌-◌, ◌/◌, Bool, true, false, List, [], ◌∷◌, ◌++◌, Option, none, some, GoString, Map,
  length, lookup, insert, ◌==◌, ltb, if◌then◌else◌, nat_eq, string_eq, ◌>>=◌,
}
use adaptive_leader.Base.Int64.{Int64}
use adaptive_leader.Config.{Address}
use adaptive_leader.Messages.{ClientResponse, OperationResult}
pub mod Collection
pub mod Calls
pub mod Answers
pub mod Deliveries
pub mod Repeats
pub mod Http
pub mod Sizes
mod Examples

-- The answers with one result, by replica.
abbrev pub Group : Type 0
Group = Map GoString ClientResponse

pub record ResponseCollection : Type 0 where
  pub collection : Map GoString Group

unfoldable pub new_response_collection : ResponseCollection
new_response_collection = record { collection = [] }

-- The answers collected with a result, nil when there are none.
unfoldable pub group_of : GoString → ResponseCollection → Group
group_of value rc = elim (lookup value rc.collection) [ none ↦ [] | some group ↦ group ]

unfoldable pub add_response : ResponseCollection → ClientResponse → ResponseCollection
unfolding group_of
add_response rc response =
    let value = response.result.value in
    let group = insert response.replica_id response (group_of value rc) in
    record { collection = insert value group rc.collection }

unfoldable pub max_size : ℕ → Map GoString Group → ℕ
max_size max_len [] = max_len
max_size max_len ((value, group) ∷ groups) =
    max_size (if ltb max_len (length group) then length group else max_len) groups

unfoldable pub get_size : ResponseCollection → ℕ
unfolding max_size
get_size rc = max_size 0 rc.collection

-- The first answer of a group, in the order of range, if it has one.
abbrev first_response : Option ClientResponse → Group → Option ClientResponse
first_response found [] = found
first_response found ((id, r) ∷ group) = some r

unfoldable pub largest : ℕ → Option ClientResponse → Map GoString Group → Option ClientResponse
largest max_len response [] = response
largest max_len response ((value, group) ∷ groups) =
    let larger = ltb max_len (length group) in
    largest (if larger then length group else max_len)
      (if larger then first_response response group else response) groups

unfoldable pub get_response : ResponseCollection → Option ClientResponse
unfolding largest
get_response rc = largest 0 none rc.collection

unfoldable pub f : Map GoString Address → ℕ
f nodes_address = (length nodes_address - 1) / 3

-- What Response sends to the request's channel after it has added an answer. `none`: nothing.
unfoldable pub ready_result : Map GoString Address → ResponseCollection → Option OperationResult
unfolding get_size get_response f
ready_result nodes_address rc =
    let answer = get_response rc >>= λ r. some r.result in
    if get_size rc == f nodes_address + 1 then answer else none

-- Answers added one after the other.
unfoldable pub collect : ResponseCollection → List ClientResponse → ResponseCollection
unfolding add_response
collect rc [] = rc
collect rc (r ∷ rs) = collect (add_response rc r) rs

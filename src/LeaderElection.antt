-- ===== src/LeaderElection.antt =====
-- pbft/leader_election/round_robin.go: the leader of a view is the peer at index view mod n in the
-- sorted list of ids.
pub mod Order
pub mod Rotation
mod Examples
use adaptive_leader.Base.{
  ℕ, ◌%◌, Bool, true, false, List, [], ◌∷◌, Option, none, some, GoString, Map, length, get_elem?,
  ◌==◌, nat_eq, ltb, if◌then◌else◌,
}
use adaptive_leader.Base.Int64.{Int64, magnitude, is_negative}
use adaptive_leader.Config.{Config, Address}

-- The order of Go strings: byte by byte, a prefix first.
pub string_le : GoString → GoString → Bool
string_le [] t = true
string_le (x ∷ xs) [] = false
string_le (x ∷ xs) (y ∷ ys) =
    let rest = string_le xs ys in if ltb x y then true else (if ltb y x then false else rest)

unfoldable pub insert_sorted : GoString → List GoString → List GoString
insert_sorted s [] = s ∷ []
insert_sorted s (t ∷ ts) =
    let rest = insert_sorted s ts in if string_le s t then s ∷ t ∷ ts else t ∷ rest

-- `slices.Sort`
unfoldable pub sort : List GoString → List GoString
sort [] = []
sort (s ∷ ss) = insert_sorted s (sort ss)

unfoldable pub ids : Map GoString Address → List GoString
ids [] = []
ids ((id, address) ∷ peers) = id ∷ ids peers

pub record RoundRobin : Type 0 where
  pub peer_ids : List GoString

unfoldable pub new_round_robin_leader_election : Config → RoundRobin
unfolding sort insert_sorted string_le ids
new_round_robin_leader_election c = record { peer_ids = sort (ids c.peers_address) }

-- `none` is a panic: a division by zero peers, or a negative index, which a negative view gives
-- unless n divides it (Go's remainder has the sign of the dividend).
unfoldable pub get_leader : RoundRobin → Int64 → Option GoString
get_leader r view_id =
    let n = length r.peer_ids in
    let index = magnitude view_id % n in
    if n == 0
    then none
    else if is_negative view_id
    then (if index == 0 then get_elem? r.peer_ids 0 else none)
    else get_elem? r.peer_ids index

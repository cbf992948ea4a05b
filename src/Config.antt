-- ===== src/Config.antt =====
-- pbft/configs/config.go. Sizes and intervals are taken to be non-negative.
pub mod Replicas
use adaptive_leader.Base.{
  ℕ, ◌-◌, ◌/◌, Bool, List, [], ◌∷◌, Option, some, GoString, Map, length, lookup, ◌==◌,
  if◌then◌else◌, string_eq,
}

pub record Address : Type 0 where
  pub host : GoString
  pub port : ℕ

pub record Timers : Type 0 where
  pub view_change_timeout_ms : ℕ
  pub request_timeout_ms : ℕ

pub record General : Type 0 where
  pub enabled_by_default : Bool
  pub max_outstanding_requests : ℕ
  pub checkpoint_interval : ℕ
  pub water_mark_interval : ℕ

pub record Config : Type 0 where
  pub id : GoString
  pub address : Address
  pub peers_address : Map GoString Address
  pub timers : Timers
  pub general : General

-- Go's division rounds towards 0, so no peers at all give 0 as well.
abbrev pub f : Config → ℕ
f c = (length c.peers_address - 1) / 3

get_address : Config → GoString → Option Address
get_address c id = if id == c.id then some c.address else lookup id c.peers_address

-- The ids of the peers other than the node itself, in the map's order.
unfoldable pub other_ids : GoString → Map GoString Address → List GoString
other_ids self [] = []
other_ids self ((id, address) ∷ peers) =
    let rest = other_ids self peers in if id == self then rest else id ∷ rest

unfoldable pub replica_ids : Config → List GoString
unfolding other_ids
replica_ids c = c.id ∷ other_ids c.id c.peers_address

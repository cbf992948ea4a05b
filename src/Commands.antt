-- ===== src/Commands.antt =====
-- cmd/node/main.go: how a process starts its nodes. The configuration file is a parameter. A node that
-- is started is a service with its node, and a view changer; they then run on their own.
pub mod Identity
use adaptive_leader.Base.{
  Bool, true, false, not, ◌&&◌, List, [], ◌∷◌, Option, none, some, GoString, Map, lookup, string_eq,
  if◌then◌else◌, ◌>>=◌,
}
use adaptive_leader.Config.{Config, Address}
use adaptive_leader.LeaderElection.{new_round_robin_leader_election}
use adaptive_leader.Store.{new_store}
use adaptive_leader.Node.Defs.{new_node}
use adaptive_leader.Service.{Replica, new_replica}
use adaptive_leader.ViewChanger.Defs.{PbftViewChange, new_pbft_view_change}

-- The command line.
pub record Cli : Type 0 where
  pub id : GoString
  pub cluster : Bool

abbrev pub is_empty : GoString → Bool
is_empty [] = true
is_empty (x ∷ xs) = false

-- The configuration of a peer, by its id.
unfoldable pub name_node : GoString → Config → Config
name_node id c = elim (lookup id c.peers_address) [
  | none ↦ c
  | some address ↦ record c { id = id; address = address }
]

-- `--id` is ignored in a cluster, and when it is no peer's. `none` is LoadConfig's error.
unfoldable pub load_configuration : Cli → Option Config → Option Config
unfolding name_node
load_configuration cli file = do
  c ← file
  some (if not cli.cluster && not (is_empty cli.id) then name_node cli.id c else c)

-- What a process runs for a node.
pub record Started : Type 0 where
  pub replica : Replica
  pub view_changer : PbftViewChange

-- `none` is a panic or log.Fatal.
unfoldable pub start_node : Config → Option Started
unfolding new_store new_node new_replica new_round_robin_leader_election new_pbft_view_change
start_node c = do
  n ← new_node c new_store
  p ← new_pbft_view_change c (new_round_robin_leader_election c)
  some (record { replica = new_replica n; view_changer = p })

unfoldable pub start_cluster : Config → Map GoString Address → Option (List Started)
unfolding start_node
start_cluster c [] = some []
start_cluster c ((id, address) ∷ peers) = do
  started ← start_node (record c { id = id; address = address })
  others ← start_cluster c peers
  some (started ∷ others)

unfoldable pub run_cluster_mode : Config → Option (List Started)
unfolding start_cluster
run_cluster_mode c = start_cluster c c.peers_address

unfoldable pub run_single_node : Config → Option (List Started)
unfolding start_node
run_single_node c = do started ← start_node c; some (started ∷ [])

unfoldable pub main : Cli → Option Config → Option (List Started)
unfolding load_configuration run_cluster_mode run_single_node
main cli file = do
  c ← load_configuration cli file
  if cli.cluster then run_cluster_mode c else run_single_node c

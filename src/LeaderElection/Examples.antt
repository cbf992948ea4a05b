-- ===== src/LeaderElection/Examples.antt =====
-- The theorems on elections at a cluster of four, and its leaders.
use mathlib.Core.List.Perm
use adaptive_leader.Base.{◌≡◌, refl, [], ◌∷◌, some}
use adaptive_leader.Base.Int64.{int64}
use adaptive_leader.Config.{Config}
use adaptive_leader.Samples.{cluster, node_0, node_1, node_2, node_3, address}
use adaptive_leader.LeaderElection.{RoundRobin, ids, new_round_robin_leader_election, get_leader}
use adaptive_leader.LeaderElection.Order.{new_round_robin-of_perm}

-- The same cluster, its map visited in another order.
abbrev swapped : Config
swapped = record cluster {
  peers_address =
      (node_0, address 5001)
      ∷ (node_2, address 5003)
      ∷ (node_3, address 5004)
      ∷ (node_1, address 5002)
      ∷ [];
}

new_round_robin-of_perm_example :
    new_round_robin_leader_election cluster ≡ new_round_robin_leader_election swapped
unfolding ids
new_round_robin-of_perm_example =
    new_round_robin-of_perm cluster swapped (Perm.swap node_0 node_2 (node_3 ∷ node_1 ∷ []))

abbrev election : RoundRobin
election = record { peer_ids = node_0 ∷ node_1 ∷ node_2 ∷ node_3 ∷ [] }

elected : new_round_robin_leader_election cluster ≡ election
unfolding new_round_robin_leader_election
elected = refl

leader_of_view_6 : get_leader election (int64 6) ≡ some node_2
unfolding get_leader
leader_of_view_6 = refl

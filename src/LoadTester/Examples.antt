-- ===== src/LoadTester/Examples.antt =====
-- Four nodes, after eleven ticks.
use adaptive_leader.Base.{
  ◌+◌, ◌*◌, ◌%◌, ◌≡◌, [], ◌∷◌, ◌++◌, GoString, some, length, get_elem?, arith, List,
}
use adaptive_leader.LeaderElection.{sort}
use adaptive_leader.LoadTester.{PeriodicFailure, disables, start, ticks}
use adaptive_leader.LoadTester.Turns.{down_after, turns, one_node_is_down}
use adaptive_leader.Samples.{node_0, node_1, node_2, node_3}

abbrev node_ids : List GoString
node_ids = node_2 ∷ node_0 ∷ node_3 ∷ node_1 ∷ []

one_node_is_down_example :
    (s : PeriodicFailure) × (s' : PeriodicFailure) × (id : GoString) × (ticks
        (2 * 5)
        (start node_ids)
      ≡ some s)
    × (s.toggles ≡ turns (sort node_ids) 5)
    × (down_after s.toggles [] ≡ [])
    × (ticks (2 * 5 + 1) (start node_ids) ≡ some s')
    × (get_elem? (sort node_ids) (5 % length (sort node_ids)) ≡ some id)
    × (s'.toggles ≡ turns (sort node_ids) 5 ++ disables id ∷ [])
    × (down_after s'.toggles [] ≡ id ∷ [])
unfolding sort
one_node_is_down_example = one_node_is_down node_ids 5 (omega arith)

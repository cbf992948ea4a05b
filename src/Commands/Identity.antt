-- ===== src/Commands/Identity.antt =====
-- Which nodes a process starts, and where they stand.
use adaptive_leader.Base.{
  ◌≡◌, ◌≢◌, refl, sym, ap, ◌∙◌, subst, true, false, List, [], ◌∷◌, some, inl, inr, ◌⊎◌, GoString,
  Map, keys, lookup, string_eq, ◌==◌, arith, Bool-cases, Option-cases, >>=-eq-some, ◌>>=◌,
}
use adaptive_leader.Base.Int64.{int64}
use adaptive_leader.Config.{Config, Address}
use adaptive_leader.LeaderElection.{new_round_robin_leader_election, get_leader}
use adaptive_leader.Store.{new_store}
use adaptive_leader.Node.Defs.{Node, new_node, new_view_data}
use adaptive_leader.Node.Steps.{get_status}
use adaptive_leader.Node.Primary.{some-inj}
use adaptive_leader.Service.{new_replica}
use adaptive_leader.ViewChanger.Defs.{PbftViewChange, new_pbft_view_change}
use adaptive_leader.Commands.{
  Cli, Started, is_empty, load_configuration, start_node, name_node, start_cluster,
  run_cluster_mode, run_single_node, main,
}

-- A node of a configuration but for its own id and address, in view 0, whose view changer and service
-- agree with it.
abbrev IsNodeOf : Config → GoString → Started → Type 0
IsNodeOf c id s =
    (s.replica.node.config.id ≡ id)
    × (s.replica.node.config.peers_address ≡ c.peers_address)
    × (s.view_changer.id ≡ id)
    × (s.view_changer.config ≡ s.replica.node.config)
    × (s.replica.service_enabled ≡ s.replica.node.enabled)
    × (s.replica.node.enabled ≡ c.general.enabled_by_default)
    × (get_leader (new_round_robin_leader_election c) (int64 0)
        ≡ some s.replica.node.view_data.leader_id)

new_node_lem :
    (c : Config) (n : Node)
    → new_node c new_store ≡ some n
    → (n.config ≡ c)
      × (n.enabled ≡ c.general.enabled_by_default)
      × (get_leader (new_round_robin_leader_election c) (int64 0) ≡ some n.view_data.leader_id)
unfolding new_node new_view_data
new_node_lem c n h =
    elim (Option-cases (get_leader (new_round_robin_leader_election c) (int64 0))) [
      | inl nobody ↦ absurd (ground arith)
      | inr (leader, e) ↦
          let same = sym (some-inj (rw (e, new_node) at h)) in
          (
            ap (λ m. m.config) same,
            ap (λ m. m.enabled) same,
            e ∙ sym (ap (λ m. some m.view_data.leader_id) same),
          )
    ]

new_view_changer_lem :
    (c : Config) (p : PbftViewChange)
    → new_pbft_view_change c (new_round_robin_leader_election c) ≡ some p
    → (p.id ≡ c.id) × (p.config ≡ c)
unfolding new_pbft_view_change
new_view_changer_lem c p h = elim (Bool-cases (c.id == [])) [
  | inl nameless ↦ absurd (ground arith)
  | inr named ↦ (ground arith, ground arith)
]

start_node_lem :
    (c : Config) (id : GoString) (address : Address) (s : Started)
    → start_node (record c { id = id; address = address }) ≡ some s
    → IsNodeOf c id s
unfolding start_node new_replica get_status
start_node_lem c id address s h =
    let own = record c { id = id; address = address } in
    let (n, made, on) = >>=-eq-some (new_node own new_store) _ h in
    let (p, made', on') =
      >>=-eq-some (new_pbft_view_change own (new_round_robin_leader_election own)) _ on in
    let (config, enabled, leader) = new_node_lem own n made in
    let (named, shared) = new_view_changer_lem own p made' in
    let started : Started = record { replica = new_replica n; view_changer = p } in
    let same : started ≡ s = ground (arith, on') in
    subst (IsNodeOf c id) same (
      ap (λ d. d.id) config,
      ap (λ d. d.peers_address) config,
      named,
      shared ∙ sym config,
      ap (λ d. d.general.enabled_by_default) config ∙ sym enabled,
      enabled,
      leader,
    )

-- The nodes of a cluster, in the order of its peers.
abbrev AreNodesOf : Config → List GoString → List Started → Type 0
AreNodesOf c [] [] = Unit
AreNodesOf c [] (s ∷ ss) = ⊥
AreNodesOf c (id ∷ ids) [] = ⊥
AreNodesOf c (id ∷ ids) (s ∷ ss) = IsNodeOf c id s × AreNodesOf c ids ss

start_cluster_lem :
    (c : Config) (peers : Map GoString Address) (ss : List Started)
    → start_cluster c peers ≡ some ss
    → AreNodesOf c (keys peers) ss
unfolding start_cluster
start_cluster_lem c [] ss h =
    let none_left : [] ≡ ss = ground (arith, h) in subst (AreNodesOf c []) none_left tt
start_cluster_lem c ((id, address) ∷ peers) ss h =
    let own = record c { id = id; address = address } in
    let (s, made, on) = >>=-eq-some (start_node own) _ h in
    let (others, rest, on') = >>=-eq-some (start_cluster c peers) _ on in
    let same : s ∷ others ≡ ss = ground (arith, on') in
    subst (AreNodesOf c (id ∷ keys peers)) same
      (start_node_lem c id address s made, start_cluster_lem c peers others rest)

is_empty_ne : (s : GoString) → s ≢ [] → is_empty s ≡ false
is_empty_ne [] h = absurd (h refl)
is_empty_ne (x ∷ xs) h = refl

-- With `--cluster` a process starts one node for each peer, in the map's order: it has the peer's id and
-- the file's other settings, its view changer and its service agree with it, and all of them take
-- the same replica for the leader of view 0. Otherwise it starts one node: with an id that is a
-- peer's, that peer's.
main_lem :
    (cli : Cli) (c : Config) (ss : List Started)
    → main cli (some c) ≡ some ss
    → ((cli.cluster ≡ true) × AreNodesOf c (keys c.peers_address) ss)
      ⊎ ((cli.cluster ≡ false)
          × ((address : Address)
              → lookup cli.id c.peers_address ≡ some address
              → cli.id ≢ []
              → AreNodesOf c (cli.id ∷ []) ss))
unfolding main load_configuration run_cluster_mode run_single_node name_node
main_lem cli c ss h = elim (Bool-cases cli.cluster) [
  | inl cluster ↦ inl (cluster, start_cluster_lem c c.peers_address ss (ground (arith, h, cluster)))
  | inr single ↦ inr (
    single,
    λ address at given.
        let filled = is_empty_ne cli.id given in
        let own = record c { id = cli.id; address = address } in
        let went : (start_node own >>= λ started. some (started ∷ [])) ≡ some ss =
          ground (arith, h, single, filled, at) in
        let (s, made, on) = >>=-eq-some (start_node own) _ went in
        let same : s ∷ [] ≡ ss = ground (arith, on) in
        subst (AreNodesOf c (cli.id ∷ [])) same (start_node_lem c cli.id address s made, tt),
  )
]

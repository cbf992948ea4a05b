-- ===== src/Agreement.antt =====
-- Replicas of one cluster, each a node of pbft/node.go in a run of its own: what the quorums of two of
-- them have in common.
mod SampleRuns
mod Examples
use adaptive_leader.Base.{
  ℕ, ◌+◌, ◌-◌, ◌/◌, HasDistinctKeys, ◌*◌, ◌≤◌, ◌<◌, ◌≡◌, refl, sym, ◌∙◌, subst, true, List, [], ◌∷◌,
  Option, some, inl, inr, ◌⊎◌, GoString, Map, All, All-mono, Among, Among-All, KeysAmong,
  quorums_meet, keys, length-keys, length, string_eq, arith,
}
use adaptive_leader.Base.Int64.{Int64}
use adaptive_leader.Config.{Config, f}
use adaptive_leader.Messages.{PrePrepareRequest, PrepareRequest, CommitRequest}
use adaptive_leader.Store.{Store}
use adaptive_leader.Transaction.{TransactionState}
use adaptive_leader.Transaction.Certificate.{CommittedBy}
use adaptive_leader.Transaction.Quorum.{Commits, Prepares}
use adaptive_leader.Node.Defs.{Node, new_node, broadcast_commit, handles_committed}
use adaptive_leader.Node.Steps.{commit_vote, Event, input_arrives, run}
use adaptive_leader.Node.Certificates.{
  commits_in, PrepareCame, CommitCame, WasHeld, execution_has_certificate,
}

-- The replicas that vote at a node are peers of the cluster, and the node is one.
abbrev VotersArePeers : Config → List Event → Type 0
VotersArePeers c es =
    Among c.id (keys c.peers_address)
    × All (λ (m : CommitRequest). Among m.replica_id (keys c.peers_address)) (commits_in es)

-- A node that has started to execute a number.
abbrev pub Executes : Config → List Event → Int64 → Type 0
Executes c es k =
    (store : Store) × (n : Node) × (n' : Node) × (new_node c store ≡ some n)
    × (run n es ≡ some n')
    × Among (handles_committed k) n'.spawned

-- A commit for a number that a node counted.
abbrev pub Counts : Config → List Event → Int64 → CommitRequest → Type 0
Counts c es k m = (m.sequence_number ≡ k) × CommitCame c es m

came-Peer :
    (c : Config) (es : List Event) (m : CommitRequest)
    → VotersArePeers c es
    → CommitCame c es m
    → Among m.replica_id (keys c.peers_address)
came-Peer c es m (here, there) (inl arrived) =
    Among-All (λ (m : CommitRequest). Among m.replica_id (keys c.peers_address)) m (commits_in es)
      arrived there
came-Peer c es m (here, there) (inr own) =
    subst (λ i. Among i (keys c.peers_address)) (sym own) here

-- The commits that a node counted for a number: a quorum of distinct replicas of the cluster.
abbrev Quorum : Config → List Event → Int64 → Map GoString CommitRequest → Type 0
Quorum c es k ms =
    (2 * f c + 1 ≤ length ms)
    × HasDistinctKeys ms
    × KeysAmong (keys c.peers_address) ms
    × All (λ (e : GoString × CommitRequest). (e.0 ≡ e.1.replica_id) × Counts c es k e.1) ms

All-both :
    {A : Type 0} (P Q : A → Type 0) (xs : List A) → All P xs → All Q xs → All (λ a. P a × Q a) xs
All-both P Q [] h h' = tt
All-both P Q (x ∷ xs) h h' = ((h.0, h'.0), All-both P Q xs h.1 h'.1)

execution-Quorum :
    (c : Config) (es : List Event) (k : Int64)
    → VotersArePeers c es
    → Executes c es k
    → (ms : Map GoString CommitRequest) × Quorum c es k ms
execution-Quorum c es k voters (store, n, n', new, ran, at) =
    let (t, held, (pp, e, number, many, distinct, matching), votes) =
      execution_has_certificate c store n n' es new ran k at in
    let both = All-both _ _ t.commits matching votes in
    (
      t.commits,
      (
        many,
        distinct,
        All-mono _ _
            (λ e h.
              subst (λ i. Among i (keys c.peers_address)) (sym h.0.0)
                (came-Peer c es e.1 voters h.1.1))
            t.commits both,
        All-mono _ _ (λ e h. (h.0.0, h.1)) t.commits both,
      ),
    )

-- In a cluster of 3f + 1 peers of which at most f are faulty, two nodes whose voters are peers and
-- that both are about to execute one number, each in a run of its own, have counted commits for it
-- of a replica that is not faulty, the same at both.
pub executions_share_honest :
    (c c' : Config) (es es' : List Event) (k : Int64) (faulty : List GoString)
    → c'.peers_address ≡ c.peers_address
    → length c.peers_address ≡ 3 * f c + 1
    → length faulty ≤ f c
    → VotersArePeers c es
    → VotersArePeers c' es'
    → Executes c es k
    → Executes c' es' k
    → (v : CommitRequest) × (w : CommitRequest) × (v.replica_id ≡ w.replica_id)
      × (Among v.replica_id faulty → ⊥)
      × Counts c es k v
      × Counts c' es' k w
executions_share_honest c c' es es' k faulty same size few voters voters' executes executes' =
    let (ms, (many, distinct, among, all)) = execution-Quorum c es k voters executes in
    let (ms', (many', distinct', among', all')) = execution-Quorum c' es' k voters' executes' in
    let peers = keys c.peers_address in
    let among'' : KeysAmong peers ms' = subst (λ a. KeysAmong (keys a) ms') same among' in
    let many'' = subst (λ a. 2 * ((length a - 1) / 3) + 1 ≤ length ms') same many' in
    let enough : length peers + length faulty < length ms + length ms' =
      omega (arith, length-keys c.peers_address, size, few, many, many'') in
    let (i, v, w, at, at', honest) =
      quorums_meet peers faulty ms ms' distinct distinct' among among'' enough in
    let (sender, counted) = Among-All _ (i, v) ms at all in
    let (sender', counted') = Among-All _ (i, w) ms' at' all' in
    (
      v,
      w,
      sym sender ∙ sender',
      (λ h. honest (subst (λ j. Among j faulty) (sym sender) h)),
      counted,
      counted',
    )

-- A replica that broadcasts a commit in a run of its node, which starts as the node given.
abbrev pub Broadcasts : Config → Node → List Event → CommitRequest → Type 0
Broadcasts c n es m =
    (store : Store) × (n' : Node) × (new_node c store ≡ some n)
    × (run n es ≡ some n')
    × Among (broadcast_commit m) n'.sent

-- Commits in the name of replicas that are not faulty are theirs, and these replicas know the same
-- peers.
abbrev pub IsHonest : Config → List GoString → CommitRequest → Type 0
IsHonest c faulty m =
    (Among m.replica_id faulty → ⊥)
    → (c' : Config) × (n : Node) × (es : List Event) × (c'.id ≡ m.replica_id)
      × (c'.peers_address ≡ c.peers_address)
      × Broadcasts c' n es m

-- A replica's commit stands on prepares for its number of as many replicas as given, no two the same,
-- that its node has counted in a run, all for the digest of the pre-prepare that the transaction has.
abbrev pub StandsOn : ℕ → Config → Node → List Event → CommitRequest → Type 0
StandsOn many c n es m =
    (t : TransactionState) × (pp : PrePrepareRequest) × WasHeld n es t
    × (t.preprepare ≡ some pp)
    × (m.sequence_number ≡ pp.sequence_number)
    × (m.request_digest ≡ pp.request_digest)
    × (many ≤ length t.prepares)
    × HasDistinctKeys t.prepares
    × Prepares pp.request_digest t.prepares
    × All
        (λ (e : GoString × PrepareRequest).
          (e.1.sequence_number ≡ m.sequence_number) × PrepareCame c es e.1)
        t.prepares

-- ===== src/Node/Certificates.antt =====
-- What stands behind the commits that a node broadcasts and the numbers that it executes, in any run.
use adaptive_leader.Base.{
  ◌≡◌, refl, subst, ◌++◌, List, [], ◌∷◌, some, inl, inr, ◌⊎◌, Among, Among-All, Among-right,
  get_elem?,
}
use adaptive_leader.Base.Int64.{Int64}
use adaptive_leader.Config.{Config}
use adaptive_leader.Messages.{PrepareRequest, CommitRequest}
use adaptive_leader.Store.{Store}
use adaptive_leader.Transaction.{TransactionState}
use adaptive_leader.Node.Defs.{Node, TxnRef, new_node, broadcast_commit, handles_committed}
use adaptive_leader.Node.Steps.{
  pre_prepare, prepare, commit_vote, checkpoint, status_request, status_response, Event,
  request_arrives, input_arrives, disables, enables, task_runs, view_change_begins,
  new_view_arrives, run,
}
use adaptive_leader.Node.Invariant.{IsPrepared, IsCommitted, IsDue, IsBacked}
use adaptive_leader.Node.Invariant.Handlers.{Safe}
use adaptive_leader.Node.Invariant.Runs.{CountsVotes, run-Safe, new-Safe}

abbrev prepares_of : Event → List PrepareRequest
prepares_of (input_arrives (prepare m)) = m ∷ []
prepares_of e = []

abbrev commits_of : Event → List CommitRequest
commits_of (input_arrives (commit_vote m)) = m ∷ []
commits_of e = []

-- The votes that arrive in a run.
abbrev prepares_in : List Event → List PrepareRequest
prepares_in [] = []
prepares_in (e ∷ es) = prepares_of e ++ prepares_in es

abbrev pub commits_in : List Event → List CommitRequest
commits_in [] = []
commits_in (e ∷ es) = commits_of e ++ commits_in es

Among-prepares_in :
    (m : PrepareRequest) (es : List Event)
    → Among (input_arrives (prepare m)) es
    → Among m (prepares_in es)
Among-prepares_in m [] at = absurd at
Among-prepares_in m (e ∷ es) (inl is) = subst (λ d. Among m (prepares_in (d ∷ es))) is (inl refl)
Among-prepares_in m (e ∷ es) (inr later) =
    Among-right m (prepares_of e) (prepares_in es) (Among-prepares_in m es later)

Among-commits_in :
    (m : CommitRequest) (es : List Event)
    → Among (input_arrives (commit_vote m)) es
    → Among m (commits_in es)
Among-commits_in m [] at = absurd at
Among-commits_in m (e ∷ es) (inl is) = subst (λ d. Among m (commits_in (d ∷ es))) is (inl refl)
Among-commits_in m (e ∷ es) (inr later) =
    Among-right m (commits_of e) (commits_in es) (Among-commits_in m es later)

-- A vote that arrived, or the node's own.
abbrev pub PrepareCame : Config → List Event → PrepareRequest → Type 0
PrepareCame c es m = Among m (prepares_in es) ⊎ (m.replica_id ≡ c.id)

abbrev pub CommitCame : Config → List Event → CommitRequest → Type 0
CommitCame c es m = Among m (commits_in es) ⊎ (m.replica_id ≡ c.id)

-- A transaction that was in the heap at some point of a run of a node.
abbrev pub WasHeld : Node → List Event → TransactionState → Type 0
WasHeld n es t =
    (q : Node) × (r : TxnRef) × (before : List Event) × (after : List Event) × (es
      ≡ before ++ after)
    × (run n before ≡ some q)
    × (get_elem? q.heap r ≡ some t)

module _ (c : Config) (store : Store) (n n' : Node) (es : List Event) where
  counts :
      (e : Event)
      → Among e es
      → CountsVotes c
          (PrepareCame c es)
          (CommitCame c es)
          (WasHeld n es)
          (λ m own. inr own)
          (λ m own. inr own)
          e
  counts (request_arrives m) at = tt
  counts (input_arrives (pre_prepare m)) at = tt
  counts (input_arrives (prepare m)) at = inl (Among-prepares_in m es at)
  counts (input_arrives (commit_vote m)) at = inl (Among-commits_in m es at)
  counts (input_arrives (checkpoint m)) at = tt
  counts (input_arrives (status_request m)) at = tt
  counts (input_arrives (status_response m)) at = tt
  counts disables at = tt
  counts enables at = tt
  counts (task_runs i) at = tt
  counts view_change_begins at = tt
  counts (new_view_arrives m) at = tt

  module _ (new : new_node c store ≡ some n) (ran : run n es ≡ some n') where
    run_Safe : Safe c (PrepareCame c es) (CommitCame c es) (WasHeld n es) n'
    run_Safe =
        let started = new-Safe c _ _ _ (λ m own. inr own) (λ m own. inr own) store n new in
        run-Safe c _ _ _ (λ m own. inr own) (λ m own. inr own) n n' es counts
          (λ q before after split went r t at. (q, r, before, after, split, went, at)) started ran

    -- In any run of a new node, for each commit that it broadcasts, at some point of the run a
    -- transaction in its heap had the pre-prepare whose view, number and digest the commit carries,
    -- with the node's id, and prepares for that number of at least 2f replicas, no two the same,
    -- all with its digest if that is not empty; each of them arrived in the run or has the node's
    -- own id.
    pub commit_has_certificate :
        (m : CommitRequest)
        → Among (broadcast_commit m) n'.sent
        → IsPrepared c (PrepareCame c es) (CommitCame c es) (WasHeld n es) m
    commit_has_certificate m at =
        let (ns, v) = run_Safe in
        Among-All (IsBacked c (PrepareCame c es) (CommitCame c es) (WasHeld n es))
          (broadcast_commit m) n'.sent at v.backed

    -- In any run of a new node, whatever arrives and however its goroutines interleave, if it is
    -- about to execute a number, then at some point of the run a transaction in its heap had a
    -- pre-prepare for that number and commits for it of at least 2f + 1 replicas, no two the same,
    -- all with the digest of that pre-prepare if that is not empty; each of them arrived in the run
    -- or has the node's own id.
    pub execution_has_certificate :
        (k : Int64)
        → Among (handles_committed k) n'.spawned
        → IsCommitted c (PrepareCame c es) (CommitCame c es) (WasHeld n es) k
    execution_has_certificate k at =
        let (ns, v) = run_Safe in
        Among-All (IsDue c (PrepareCame c es) (CommitCame c es) (WasHeld n es) ns)
          (handles_committed k) n'.spawned at v.due

-- ===== src/Agreement/Examples.antt =====
-- The theorems on nodes and their agreement at these runs.
use adaptive_leader.Base.{◌≡◌, refl, inl, inr, [], ◌∷◌, All, Among, nat_eq, string_eq, arith}
use adaptive_leader.Base.Int64.{int64}
use adaptive_leader.Config.{Config}
use adaptive_leader.Messages.{CommitRequest}
use adaptive_leader.Samples.{cluster, node_0, node_1, node_2, node_3}
use adaptive_leader.Store.{new_store}
use adaptive_leader.Node.Defs.{Node}
use adaptive_leader.Node.Invariant.{IsPrepared, IsCommitted}
use adaptive_leader.Node.Certificates.{
  commits_in, PrepareCame, CommitCame, WasHeld, commit_has_certificate, execution_has_certificate,
}
use adaptive_leader.Agreement.{Executes, Counts, executions_share_honest}
use adaptive_leader.Agreement.SampleRuns.{
  commit_of, config_of, backs, votes, leads, follows, start, start_lem, led, led_lem, followed,
  followed_lem, backed, backed_1,
}

commit_has_certificate_example :
    IsPrepared
      (config_of node_1)
      (PrepareCame (config_of node_1) (backs node_2))
      (CommitCame (config_of node_1) (backs node_2))
      (WasHeld (start node_1) (backs node_2))
      (commit_of node_1)
commit_has_certificate_example =
    commit_has_certificate (config_of node_1) new_store (start node_1) (backed node_1 node_2)
      (backs node_2) (start_lem node_1) backed_1 (commit_of node_1) (inr (inl refl))

execution_has_certificate_example :
    IsCommitted cluster
      (PrepareCame cluster leads)
      (CommitCame cluster leads)
      (WasHeld (start node_0) leads)
      (int64 1)
execution_has_certificate_example =
    execution_has_certificate cluster new_store (start node_0) led leads (start_lem node_0) led_lem
      (int64 1) (inr (inr (inr (inr (inl refl)))))

abbrev voters_are_peers :
    All
      (λ (m : CommitRequest). Among m.replica_id (node_2 ∷ node_0 ∷ node_3 ∷ node_1 ∷ []))
      (commits_in votes)
voters_are_peers = (inr (inr (inr (inl refl))), (inl refl, (inr (inr (inl refl)), tt)))

leader-Executes : Executes cluster leads (int64 1)
leader-Executes =
    (new_store, start node_0, led, start_lem node_0, led_lem, inr (inr (inr (inr (inl refl)))))

follower-Executes : Executes (config_of node_1) follows (int64 1)
follower-Executes = (
  new_store,
  start node_1,
  followed,
  start_lem node_1,
  followed_lem,
  inr (inr (inr (inr (inl refl)))),
)

-- Node 3 may be faulty.
executions_share_honest_example :
    (v : CommitRequest) × (w : CommitRequest) × (v.replica_id ≡ w.replica_id)
    × (Among v.replica_id (node_3 ∷ []) → ⊥)
    × Counts cluster leads (int64 1) v
    × Counts (config_of node_1) follows (int64 1) w
executions_share_honest_example =
    executions_share_honest cluster (config_of node_1) leads follows (int64 1) (node_3 ∷ []) refl
      refl (omega arith) (inr (inl refl), voters_are_peers)
      (inr (inr (inr (inl refl))), voters_are_peers) leader-Executes follower-Executes

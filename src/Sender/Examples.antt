-- ===== src/Sender/Examples.antt =====
-- A broadcast to three peers, of which one fails at first and one for good.
use adaptive_leader.Base.{
  ℕ, ◌≡◌, refl, true, false, Bool, [], GoString, All, List, keys, codes, ◌==◌, string_eq, nat_eq,
  if◌then◌else◌, leb,
}
use adaptive_leader.Base.Int64.{int64}
use adaptive_leader.Config.{other_ids}
use adaptive_leader.Messages.{CommitRequest}
use adaptive_leader.Samples.{cluster, node_0, node_1, node_2}
use adaptive_leader.Sender.{
  commit_request, Call, calls_commit, dispatch, Attempt, new_sender, broadcast,
}
use adaptive_leader.Sender.Retries.{Ends}
use adaptive_leader.Sender.Delivery.{broadcast_lem}

abbrev vote : CommitRequest
vote = record {
  view_id = int64 0;
  sequence_number = int64 1;
  request_digest = [];
  replica_id = node_0;
}

-- Node 1 answers at the third attempt, node 2 never, and node 3 at once.
abbrev network : GoString → ℕ → Call → Bool
network id i c = if id == node_1 then leb 2 i else if id == node_2 then false else true

broadcast_lem_example :
    let sent = broadcast (new_sender cluster 5) (codes "Commit") (commit_request vote) network in
    (keys sent ≡ other_ids node_0 cluster.peers_address)
    × All (λ (e : GoString × List Attempt). Ends (calls_commit vote) (network e.0) 5 0 e.1) sent
unfolding dispatch
broadcast_lem_example =
    broadcast_lem cluster 5 (codes "Commit") (commit_request vote) (calls_commit vote) network refl

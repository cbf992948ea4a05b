-- ===== src/Node/Stable.antt =====
-- What a node forgets when a checkpoint becomes stable.
use adaptive_leader.Base.{
  ◌≡◌, refl, none, some, lookup, lookup-delete_if, leb, if◌then◌else◌, nat_eq,
}
use adaptive_leader.Base.Int64.{Int64}
use adaptive_leader.Messages.{CheckpointRequest}
use adaptive_leader.Store.{add_checkpoint_request}
use adaptive_leader.Node.Defs.{Node, set_view, set_store}
use adaptive_leader.Node.Commits.{handle_checkpoint_request, forget_stable}

-- When a checkpoint message makes a checkpoint stable, the node forgets the transactions up to its
-- number and counts their numbers as no longer in progress, and keeps all the others; its store is
-- the one that AddCheckpointRequest gives, it sends nothing, and its pending requests stay.
pub handle_checkpoint_request_lem :
    (n : Node) (msg : CheckpointRequest) (stable k : Int64)
    → (add_checkpoint_request n.config n.store msg).1 ≡ some stable
    → let n' = handle_checkpoint_request n msg in
      (lookup k n'.view_data.transaction_states
        ≡ (if leb k stable then none else lookup k n.view_data.transaction_states))
      × (lookup k n'.view_data.in_progress_requests
          ≡ (if leb k stable then none else lookup k n.view_data.in_progress_requests))
      × (n'.store ≡ (add_checkpoint_request n.config n.store msg).0)
      × (n'.sent ≡ n.sent)
      × (n'.pending_requests ≡ n.pending_requests)
unfolding handle_checkpoint_request forget_stable set_view set_store
handle_checkpoint_request_lem n msg stable k e =
    rw (e, handle_checkpoint_request)
      (
        lookup-delete_if (λ j. leb j stable) k n.view_data.transaction_states,
        lookup-delete_if (λ j. leb j stable) k n.view_data.in_progress_requests,
        refl,
        refl,
        refl,
      )

-- ===== src/ViewChanger/Steps.antt =====
-- What can happen to a view changer: messages, its timer, the node's calls, and its goroutines, which
-- run at any time after they are started.
use adaptive_leader.Base.{take_at, ℕ, List, [], ◌∷◌, Option, some, ◌>>=◌}
use adaptive_leader.Base.Int64.{Int64}
use adaptive_leader.Messages.{ViewChangePreparedMessage, ViewChangeRequest, NewViewRequest}
use adaptive_leader.Store.{CheckpointProof}
use adaptive_leader.ViewChanger.Defs.{
  PbftViewChange, Task, votes, election_ends, request_executed, timer_fires, handle_new_view,
  handle_view_change, vote_view_change, end_election,
}

-- A goroutine reads the stable checkpoint and the prepared requests when it runs.
pub data Event : Type 0 where
  view_change_arrives : ViewChangeRequest → Event
  new_view_arrives : NewViewRequest → Event
  timer_expires : Event
  execution_reported : Int64 → Event
  task_runs : ℕ → Option CheckpointProof → List ViewChangePreparedMessage → Event

unfoldable pub run_task :
    PbftViewChange
    → Task
    → Option CheckpointProof
    → List ViewChangePreparedMessage
    → Option PbftViewChange
unfolding vote_view_change end_election
run_task p (votes view_id) stable prepared = vote_view_change p view_id stable prepared
run_task p (election_ends view_id leader_id) stable prepared = end_election p view_id leader_id

-- `none`: the view changer has crashed, or it takes no such step.
unfoldable pub step : PbftViewChange → Event → Option PbftViewChange
unfolding handle_view_change handle_new_view timer_fires request_executed run_task
step p (view_change_arrives msg) = handle_view_change p msg
step p (new_view_arrives msg) = some (handle_new_view p msg)
step p timer_expires = timer_fires p
step p (execution_reported view_id) = some (request_executed p view_id)
step p (task_runs i stable prepared) = do
  (t, rest) ← take_at i p.spawned
  run_task (record p { spawned = rest }) t stable prepared

unfoldable pub run : PbftViewChange → List Event → Option PbftViewChange
unfolding step
run p [] = some p
run p (e ∷ es) = do p' ← step p e; run p' es

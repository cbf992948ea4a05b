-- ===== src/ViewChanger/Service.antt =====
-- pbft/view_changer/service.go: the calls of other replicas at a view changer, and the loop of Run in
-- pbft/view_changer/view_changer.go that takes what they send. The channel between them has no buffer:
-- a call is blocked until the loop takes its message, in any order.
pub mod Refinement
mod Examples
use adaptive_leader.Base.{
  take_at, ℕ, Bool, not, List, [], ◌∷◌, ◌++◌, Option, none, some, if◌then◌else◌, ◌>>=◌,
}
use adaptive_leader.Base.Int64.{Int64}
use adaptive_leader.Config.{Config}
use adaptive_leader.Messages.{ViewChangePreparedMessage, ViewChangeRequest, NewViewRequest}
use adaptive_leader.Store.{CheckpointProof}
use adaptive_leader.ViewChanger.Defs.{PbftViewChange}
use adaptive_leader.ViewChanger.Steps
use adaptive_leader.ViewChanger.Steps.{
  view_change_arrives, new_view_arrives, timer_expires, execution_reported, task_runs,
}

pub data Message : Type 0 where
  view_change : ViewChangeRequest → Message
  new_view : NewViewRequest → Message

-- A view changer with its service. `callers` holds the messages of the calls that are blocked.
pub record Endpoint : Type 0 where
  pub enabled : Bool
  pub callers : List Message
  pub changer : PbftViewChange

unfoldable pub new_endpoint : Config → PbftViewChange → Endpoint
new_endpoint c p = record { enabled = c.general.enabled_by_default; callers = []; changer = p }

-- `s.viewChangeCh <- req`
abbrev put_message : Endpoint → Message → Endpoint
put_message s m = record s { callers = s.callers ++ m ∷ [] }

unfoldable pub receive_view_change : Endpoint → ViewChangeRequest → Endpoint
receive_view_change s m = if not s.enabled then s else put_message s (view_change m)

unfoldable pub receive_new_view : Endpoint → NewViewRequest → Endpoint
receive_new_view s m = if not s.enabled then s else put_message s (new_view m)

unfoldable pub receive_message : Endpoint → Message → Endpoint
unfolding receive_view_change receive_new_view
receive_message s (view_change m) = receive_view_change s m
receive_message s (new_view m) = receive_new_view s m

-- The switch of Run.
abbrev pub arrival : Message → Steps.Event
arrival (view_change m) = view_change_arrives m
arrival (new_view m) = new_view_arrives m

-- One round of Run's loop.
unfoldable pub take_message : Endpoint → ℕ → Option Endpoint
unfolding Steps.step
take_message s i = do
  (m, rest) ← take_at i s.callers
  p ← Steps.step s.changer (arrival m)
  some (record s { callers = rest; changer = p })

-- What can happen: calls from outside, rounds of the loop, the timer, the node's calls and goroutines.
pub data Event : Type 0 where
  message_comes : Message → Event
  message_taken : ℕ → Event
  timer_rings : Event
  node_reports : Int64 → Event
  goroutine_runs : ℕ → Option CheckpointProof → List ViewChangePreparedMessage → Event

abbrev on_changer : Endpoint → Option PbftViewChange → Option Endpoint
on_changer s p = p >>= λ p'. some (record s { changer = p' })

-- `none`: the view changer has crashed, or it takes no such step.
unfoldable pub step : Endpoint → Event → Option Endpoint
unfolding receive_message take_message Steps.step
step s (message_comes m) = some (receive_message s m)
step s (message_taken i) = take_message s i
step s timer_rings = on_changer s (Steps.step s.changer timer_expires)
step s (node_reports view_id) = on_changer s (Steps.step s.changer (execution_reported view_id))
step s (goroutine_runs i stable prepared) =
    on_changer s (Steps.step s.changer (task_runs i stable prepared))

unfoldable pub run : Endpoint → List Event → Option Endpoint
unfolding step
run s [] = some s
run s (e ∷ es) = do s' ← step s e; run s' es

-- ===== src/Service.antt =====
-- pbft/service.go and the channels of cmd/node/main.go: how calls of the remote procedures reach the
-- main loop of a node, and how its loop in pbft/node.go waits for them. The children prove.
pub mod Simulates
pub mod Calls
pub mod Refinement
pub mod Requests
pub mod Signals
pub mod Shut
mod Examples
use adaptive_leader.Base.{
  take_at, ℕ, Bool, true, false, not, List, [], ◌∷◌, ◌++◌, Option, none, some, length, ltb,
  if◌then◌else◌, ◌>>=◌,
}
use adaptive_leader.Config.{Config}
use adaptive_leader.Messages.{
  ClientRequest, PiggyBackedPrePareRequest, PrepareRequest, CommitRequest, CheckpointRequest,
  StatusRequest, StatusResponse, NewViewRequest,
}
use adaptive_leader.Node.Defs.{Node}
use adaptive_leader.Node.Steps
use adaptive_leader.Node.Steps.{
  Input, pre_prepare, prepare, commit_vote, checkpoint, status_request, status_response,
  handle_input, take_request, get_status, task_runs, view_change_begins, new_view_arrives,
}

-- Where the main loop is: at its `select`, at `<-n.EnableCh`, or between the two.
pub data Control : Type 0 where
  selecting waiting busy : Control

-- `requests` is the buffer of the request channel. The input channel has none: `senders` are the calls
-- that are blocked on it.
pub record Replica : Type 0 where
  pub service_enabled : Bool
  pub requests : List ClientRequest
  pub senders : List Input
  pub control : Control
  pub node : Node

abbrev pub request_capacity : ℕ
request_capacity = 50

-- GetStatus is broadcast before the loop.
unfoldable pub new_replica : Node → Replica
unfolding get_status
new_replica n = record {
  service_enabled = n.config.general.enabled_by_default;
  requests = [];
  senders = [];
  control = busy;
  node = get_status n;
}

-- `select { case channel <- value: ... default: }`: whether the send can proceed is up to the channel.
unfoldable pub put_or_ignore {ℓ} : {A : Type ℓ} → Bool → A → List A → List A × Bool
put_or_ignore ready value queue = if ready then (queue ++ value ∷ [], true) else (queue, false)

-- What a call of Request returns.
pub data Reply : Type 0 where
  done service_is_disabled request_channel_is_full : Reply

unfoldable pub request : Replica → ClientRequest → Replica × Reply
unfolding put_or_ignore
request s req =
    let (queue, is_put) = put_or_ignore (ltb (length s.requests) request_capacity) req s.requests in
    if not s.service_enabled
    then (s, service_is_disabled)
    else if not is_put
    then (s, request_channel_is_full)
    else (record s { requests = queue }, done)

-- `s.inputCh <- req`
abbrev put_input : Replica → Input → Replica
put_input s m = record s { senders = s.senders ++ m ∷ [] }

unfoldable pub receive_pre_prepare : Replica → PiggyBackedPrePareRequest → Replica
receive_pre_prepare s m = if not s.service_enabled then s else put_input s (pre_prepare m)

unfoldable pub receive_prepare : Replica → PrepareRequest → Replica
receive_prepare s m = if not s.service_enabled then s else put_input s (prepare m)

unfoldable pub receive_commit : Replica → CommitRequest → Replica
receive_commit s m = if not s.service_enabled then s else put_input s (commit_vote m)

unfoldable pub receive_checkpoint : Replica → CheckpointRequest → Replica
receive_checkpoint s m = if not s.service_enabled then s else put_input s (checkpoint m)

unfoldable pub receive_get_status : Replica → StatusRequest → Replica
receive_get_status s m = if not s.service_enabled then s else put_input s (status_request m)

unfoldable pub receive_status : Replica → StatusResponse → Replica
receive_status s m = if not s.service_enabled then s else put_input s (status_response m)

unfoldable pub receive : Replica → Input → Replica
unfolding receive_pre_prepare receive_prepare receive_commit receive_checkpoint receive_get_status
    receive_status
receive s (pre_prepare m) = receive_pre_prepare s m
receive s (prepare m) = receive_prepare s m
receive s (commit_vote m) = receive_commit s m
receive s (checkpoint m) = receive_checkpoint s m
receive s (status_request m) = receive_get_status s m
receive s (status_response m) = receive_status s m

abbrev pub is_busy : Control → Bool
is_busy busy = true
is_busy c = false

abbrev pub is_selecting : Control → Bool
is_selecting selecting = true
is_selecting c = false

abbrev pub is_waiting : Control → Bool
is_waiting waiting = true
is_waiting c = false

-- The loop goes on from `<-n.EnableCh`. No sender is ever blocked on the two signal channels, so
-- exhaustChannel finds nothing.
unfoldable pub wake : Replica → Replica
unfolding get_status
wake s = record s { control = busy; node = get_status (record s.node { enabled = true }) }

-- The loop takes `<-n.DisableCh`.
unfoldable pub sleep : Replica → Replica
sleep s = record s { control = busy; node = record s.node { enabled = false } }

-- The signal channels have no buffer: a signal is put only if the loop waits for it.
unfoldable pub enable : Replica → Replica
unfolding put_or_ignore wake
enable s =
    let (_, is_put) = put_or_ignore (is_waiting s.control) (tt {0}) [] in
    record (if is_put then wake s else s) { service_enabled = true }

unfoldable pub disable : Replica → Replica
unfolding put_or_ignore sleep
disable s =
    let (_, is_put) = put_or_ignore (is_selecting s.control) (tt {0}) [] in
    record (if is_put then sleep s else s) { service_enabled = false }

-- The head of the loop.
unfoldable pub loop : Replica → Replica
loop s = record s { control = if s.node.enabled then selecting else waiting }

unfoldable pub take_next_request : Replica → Option Replica
unfolding take_request
take_next_request s = elim s.requests [
  | [] ↦ none
  | m ∷ rest ↦ some (record s { requests = rest; control = busy; node = take_request s.node m })
]

unfoldable pub take_input : Replica → ℕ → Option Replica
unfolding handle_input
take_input s i = do
  (m, rest) ← take_at i s.senders
  n ← handle_input s.node m
  some (record s { senders = rest; control = busy; node = n })

-- What can happen to a replica: calls from outside, the steps of its loop, and those of its goroutines
-- and of its view changer.
pub data Event : Type 0 where
  request_comes : ClientRequest → Event
  input_comes : Input → Event
  enable_comes disable_comes : Event
  loops : Event
  request_taken : Event
  input_taken : ℕ → Event
  goroutine_runs : ℕ → Event
  view_changes : Event
  new_view_comes : NewViewRequest → Event

-- `none`: the replica has crashed, or it takes no such step.
abbrev on_node : Replica → Option Node → Option Replica
on_node s n = n >>= λ n'. some (record s { node = n' })

unfoldable pub step : Replica → Event → Option Replica
unfolding request receive enable disable loop take_next_request take_input Steps.step
step s (request_comes m) = some (request s m).0
step s (input_comes m) = some (receive s m)
step s enable_comes = some (enable s)
step s disable_comes = some (disable s)
step s loops = if is_busy s.control then some (loop s) else none
step s request_taken = if is_selecting s.control then take_next_request s else none
step s (input_taken i) = if is_selecting s.control then take_input s i else none
step s (goroutine_runs i) = on_node s (Steps.step s.node (task_runs i))
step s view_changes = on_node s (Steps.step s.node view_change_begins)
step s (new_view_comes m) = on_node s (Steps.step s.node (new_view_arrives m))

unfoldable pub run : Replica → List Event → Option Replica
unfolding step
run s [] = some s
run s (e ∷ es) = do s' ← step s e; run s' es

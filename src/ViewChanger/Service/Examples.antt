-- ===== src/ViewChanger/Service/Examples.antt =====
-- The theorem on a view changer's calls, at a replica of a cluster of four.
use adaptive_leader.Base.{[], ◌∷◌, refl, true}
use adaptive_leader.Samples.{node_2}
use adaptive_leader.ViewChanger.Defs.{handle_new_view}
use adaptive_leader.ViewChanger.Steps
use adaptive_leader.ViewChanger.Examples.{request}
use adaptive_leader.ViewChanger.Scenarios.{new, new_view}
use adaptive_leader.ViewChanger.Service
use adaptive_leader.ViewChanger.Service.{
  Message, view_change, Endpoint, message_comes, message_taken, receive_message,
  receive_view_change, receive_new_view, take_message, step, run,
}
use adaptive_leader.ViewChanger.Service.Refinement.{Moves, run-Moves}

abbrev vote : Message
vote = view_change (request node_2 [])

abbrev quiet : Endpoint
quiet = record { enabled = true; callers = []; changer = new }

-- The second call is served first.
abbrev later : Endpoint
later = record { enabled = true; callers = vote ∷ []; changer = handle_new_view new new_view }

run-Moves_example : Moves quiet later (vote ∷ Service.new_view new_view ∷ [])
unfolding receive_message receive_view_change receive_new_view take_message step run Steps.step
    handle_new_view
run-Moves_example =
    run-Moves quiet later
      (message_comes vote ∷ message_comes (Service.new_view new_view) ∷ message_taken 1 ∷ []) refl

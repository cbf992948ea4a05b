-- ===== src/ViewChanger/Scenarios.antt =====
-- The theorems on view changers, at a replica of a cluster of four.
use adaptive_leader.Base.{
  ◌<◌, ◌≡◌, All, refl, true, false, List, [], ◌∷◌, none, some, inl, inr, GoString, codes, lookup,
  insert, contains, arith,
}
use adaptive_leader.Base.Int64.{int64, IsInt64}
use adaptive_leader.Messages.{ViewChangeRequest, NewViewRequest}
use adaptive_leader.LeaderElection.{get_leader}
use adaptive_leader.Samples.{node_0, node_1, node_2, node_3}
use adaptive_leader.Store.{new_store}
use adaptive_leader.Node.Defs.{Node, new_view_data}
use adaptive_leader.Node.Views.{handle_new_view_request}
use adaptive_leader.ViewChanger.NewView.{
  get_sequence_range, extract_preprepare_requests, create_preprepare_messages, digest_for,
}
use adaptive_leader.ViewChanger.Defs.{
  PbftViewChange, new_pbft_view_change, broadcast_new_view, node_handles_new_view, handle_new_view,
  announce, tell, record_view_change, handle_view_change, request_executed, view_changes_for,
}
use adaptive_leader.ViewChanger.Steps.{Event, view_change_arrives, timer_expires, task_runs, run}
use adaptive_leader.ViewChanger.Justified.{HasQuorum}
use adaptive_leader.ViewChanger.Timeouts.{fire_times, timeouts_double}
use adaptive_leader.ViewChanger.Announcements.{announced_with_quorum}
use adaptive_leader.ViewChanger.Leaders.{
  gathered, leader_announces, old_leader_announces, old_new_view_splits,
}
use adaptive_leader.ViewChanger.Examples.{
  leader, election, digest, proof_of, request, requests, small,
}

-- What the tests compute with.
evaluation : Unit {0}
unfolding get_sequence_range extract_preprepare_requests create_preprepare_messages digest_for
    new_pbft_view_change run handle_new_view announce record_view_change handle_view_change
    view_changes_for get_leader lookup insert contains tell
evaluation = tt

-- A view changer of the second node, before anything happens.
abbrev pub new : PbftViewChange
new = record {
  id = node_1;
  base_view_change_timeout = int64 30000000000;
  request_timeout = int64 20000000000;
  leader_election = election;
  config = leader;
  leader_for_view = [];
  view_id = int64 0;
  in_view_change = false;
  current_view_change_timeout = int64 30000000000;
  view_timer = int64 30000000000;
  view_changes = [];
  sent = [];
  spawned = [];
}

created : new_pbft_view_change leader election ≡ some new
unfolding evaluation
created = refl

abbrev pub new_view : NewViewRequest
new_view = record {
  new_view_id = int64 1;
  view_change_proof = requests;
  preprepares =
      record { view_id = int64 1; sequence_number = int64 1; request_digest = codes "nil" }
      ∷ record { view_id = int64 1; sequence_number = int64 2; request_digest = digest }
      ∷ [];
  replica_id = node_1;
}

timeouts_double_example :
    (q : PbftViewChange) × (fire_times 3 new ≡ some q)
    × (q.view_id ≡ int64 3)
    × (q.in_view_change ≡ true)
    × (q.view_timer ≡ int64 120000000000)
    × ((handle_new_view q new_view).current_view_change_timeout ≡ int64 30000000000)
timeouts_double_example =
    timeouts_double 2 30000000000 0 new new_view (omega arith) refl (omega arith) refl (omega arith)

-- The timer fires, the election ends, and the votes of three replicas come in.
abbrev events : List Event
events =
    timer_expires
    ∷ task_runs 0 none []
    ∷ task_runs 0 none (proof_of (int64 2) ∷ [])
    ∷ view_change_arrives (request node_2 [])
    ∷ view_change_arrives (request node_3 [])
    ∷ []

announced_with_quorum_example : HasQuorum leader new_view
unfolding evaluation
announced_with_quorum_example =
    announced_with_quorum leader election new _ events new_view refl refl (inr (inr (inl refl)))

-- The second node leads its view, and waits for one more vote.
abbrev elected : PbftViewChange
elected = record new {
  leader_for_view = node_1;
  view_id = int64 1;
  in_view_change = true;
  view_changes =
      (
        int64 1,
        (node_1, request node_1 (proof_of (int64 2) ∷ [])) ∷ (node_2, request node_2 []) ∷ [],
      )
      ∷ [];
}

leader_announces_example :
    (p' : PbftViewChange) × (msg : NewViewRequest) × (handle_view_change elected (request node_3 [])
      ≡ some p')
    × (p'.sent ≡ broadcast_new_view msg ∷ node_handles_new_view msg ∷ [])
    × (msg.new_view_id ≡ int64 1)
    × (msg.view_change_proof ≡ gathered elected (request node_3 []))
    × (msg.replica_id ≡ node_1)
    × (p'.view_id ≡ int64 1)
    × (p'.in_view_change ≡ false)
    × (p'.view_timer ≡ int64 20000000000)
unfolding evaluation
leader_announces_example =
    leader_announces elected (request node_3 []) (int64 0) (int64 2) refl refl (omega arith) small
      refl (omega arith)

-- The node that led view 1 has three votes for view 2, which the third node announces; then the fourth
-- vote comes.
abbrev later : GoString → ViewChangeRequest
later id = record (request id []) { new_view_id = int64 2 }

abbrev led_before : PbftViewChange
led_before = record elected {
  in_view_change = false;
  view_changes =
      (int64 2, (node_2, later node_2) ∷ (node_3, later node_3) ∷ []) ∷ elected.view_changes;
}

abbrev view_2 : NewViewRequest
view_2 = record new_view { new_view_id = int64 2; preprepares = []; replica_id = node_2 }

later_small :
    All (λ vc. IsInt64 vc.last_stable_sequence_number) (gathered led_before (later node_0))
unfolding evaluation
later_small = (omega arith, (omega arith, (omega arith, tt)))

old_leader_announces_example :
    (p' : PbftViewChange) × (second : NewViewRequest) × (handle_view_change
        (handle_new_view led_before view_2)
        (later node_0)
      ≡ some p')
    × (p'.sent
        ≡ node_handles_new_view view_2
          ∷ broadcast_new_view second
          ∷ node_handles_new_view second
          ∷ [])
    × (second.new_view_id ≡ int64 2)
    × (second.view_change_proof ≡ gathered led_before (later node_0))
    × (second.replica_id ≡ node_1)
unfolding evaluation
old_leader_announces_example =
    old_leader_announces led_before view_2 (later node_0) (int64 0) (int64 0) refl refl
      (omega arith) later_small refl (omega arith)

abbrev in_view_2 : Node
in_view_2 = record {
  config = leader;
  store = new_store;
  leader_election = election;
  view_data = new_view_data (int64 2) (int64 0) node_2;
  pending_requests = [];
  enabled = true;
  heap = [];
  sent = [];
  spawned = [];
}

old_new_view_splits_example :
    (handle_new_view_request in_view_2 new_view ≡ some in_view_2)
    × ((handle_new_view led_before new_view).view_id < int64 2)
    × (request_executed (handle_new_view led_before new_view) (int64 2)
        ≡ handle_new_view led_before new_view)
unfolding new_view_data
old_new_view_splits_example = old_new_view_splits led_before in_view_2 new_view (omega arith)

-- ===== src/ViewChanger/Defs.antt =====
-- The state of the view changer and its handlers. Its calls on the sender and on the node are recorded
-- in `sent`, and its goroutines in `spawned`; the timer is the duration that it was last set to.
use adaptive_leader.Base.{
  ℕ, ◌+◌, ◌*◌, ◌%◌, ◌^◌, Bool, true, false, not, List, [], ◌∷◌, ◌++◌, Option, none, some, GoString,
  Map, length, values, lookup, insert, ◌==◌, ltb, if◌then◌else◌, nat_eq, string_eq, ◌>>=◌,
}
use adaptive_leader.Base.Int64.{Int64, int64, inc64, add64}
use adaptive_leader.Config.{Config, f}
use adaptive_leader.Messages.{ViewChangePreparedMessage, ViewChangeRequest, NewViewRequest}
use adaptive_leader.LeaderElection.{RoundRobin, get_leader}
use adaptive_leader.Store.{CheckpointProof, get_sequence_number, get_proof}
use adaptive_leader.ViewChanger.NewView.{create_preprepare_messages}

pub data Output : Type 0 where
  broadcast_view_change : ViewChangeRequest → Output
  broadcast_new_view : NewViewRequest → Output
  node_goes_to_view_change : Output
  node_handles_new_view : NewViewRequest → Output

pub data Task : Type 0 where
  votes : Int64 → Task
  election_ends : Int64 → GoString → Task

pub record PbftViewChange : Type 0 where
  pub id : GoString
  pub base_view_change_timeout : Int64
  pub request_timeout : Int64
  pub leader_election : RoundRobin
  pub config : Config
  pub leader_for_view : GoString
  pub view_id : Int64
  pub in_view_change : Bool
  pub current_view_change_timeout : Int64
  pub view_timer : Int64
  pub view_changes : Map Int64 (Map GoString ViewChangeRequest)
  pub sent : List Output
  pub spawned : List Task

-- `time.Duration(ms) * time.Millisecond`
milliseconds : ℕ → Int64
milliseconds ms = (ms * 1000000 + 2 ^ 63) % 2 ^ 64

-- `none` is log.Fatal: a node with no id.
unfoldable pub new_pbft_view_change : Config → RoundRobin → Option PbftViewChange
unfolding milliseconds
new_pbft_view_change c election =
    let timeout = milliseconds c.timers.view_change_timeout_ms in
    let p : PbftViewChange = record {
      id = c.id;
      base_view_change_timeout = timeout;
      request_timeout = milliseconds c.timers.request_timeout_ms;
      leader_election = election;
      config = c;
      leader_for_view = [];
      view_id = int64 0;
      in_view_change = false;
      current_view_change_timeout = timeout;
      view_timer = timeout;
      view_changes = [];
      sent = [];
      spawned = [];
    } in
    if c.id == [] then none else some p

unfoldable pub tell : Output → PbftViewChange → PbftViewChange
tell o p = record p { sent = p.sent ++ o ∷ [] }

unfoldable pub start_task : Task → PbftViewChange → PbftViewChange
start_task t p = record p { spawned = p.spawned ++ t ∷ [] }

-- An executed request restarts the timer, in the view that the node is in.
unfoldable pub request_executed : PbftViewChange → Int64 → PbftViewChange
request_executed p view_id =
    if p.in_view_change
    then p
    else if p.view_id == view_id
    then record p { view_timer = p.request_timeout }
    else p

-- The leader goes into a fresh channel, from which the goroutine takes it.
unfoldable pub start_leader_election : PbftViewChange → Int64 → Option PbftViewChange
unfolding start_task
start_leader_election p view_id = do
  leader ← get_leader p.leader_election view_id
  some (start_task (election_ends view_id leader) p)

-- One round of runTimer's loop.
unfoldable pub timer_fires : PbftViewChange → Option PbftViewChange
unfolding tell start_leader_election start_task
timer_fires p = do
  let view_id = inc64 p.view_id
  let moved = record p { in_view_change = true; view_id = view_id; leader_for_view = [] }
  q ← start_leader_election (tell node_goes_to_view_change moved) view_id
  let timeout = q.current_view_change_timeout
  some (record (start_task (votes view_id) q) {
    view_timer = timeout;
    current_view_change_timeout = add64 timeout timeout;
  })

unfoldable pub handle_new_view : PbftViewChange → NewViewRequest → PbftViewChange
unfolding tell
handle_new_view p msg = tell (node_handles_new_view msg) (record p {
  view_id = msg.new_view_id;
  in_view_change = false;
  view_timer = p.request_timeout;
  current_view_change_timeout = p.base_view_change_timeout;
})

-- The requests for a view, nil when there are none.
unfoldable pub view_changes_for : Int64 → PbftViewChange → Map GoString ViewChangeRequest
view_changes_for view_id p = elim (lookup view_id p.view_changes) [ none ↦ [] | some vcs ↦ vcs ]

unfoldable pub announce : PbftViewChange → Int64 → Option PbftViewChange
unfolding view_changes_for tell handle_new_view
announce p view_id = do
  let vcs = values (view_changes_for view_id p)
  preprepares ← create_preprepare_messages view_id vcs (f p.config)
  let msg : NewViewRequest = record {
    new_view_id = view_id;
    view_change_proof = vcs;
    preprepares = preprepares;
    replica_id = p.id;
  }
  some (handle_new_view (tell (broadcast_new_view msg) p) msg)

unfoldable pub try_announce_as_leader : PbftViewChange → Int64 → Option PbftViewChange
unfolding announce view_changes_for
try_announce_as_leader p view_id =
    if not (p.view_id == view_id)
    then some p
    else if ltb (length (view_changes_for view_id p)) (2 * f p.config + 1)
    then some p
    else announce p view_id

unfoldable pub record_view_change : PbftViewChange → ViewChangeRequest → PbftViewChange
unfolding view_changes_for
record_view_change p msg =
    let vcs = insert msg.replica_id msg (view_changes_for msg.new_view_id p) in
    record p { view_changes = insert msg.new_view_id vcs p.view_changes }

unfoldable pub handle_view_change : PbftViewChange → ViewChangeRequest → Option PbftViewChange
unfolding record_view_change try_announce_as_leader
handle_view_change p msg =
    let p' = record_view_change p msg in
    if ltb msg.new_view_id p.view_id
    then some p
    else if not (p'.leader_for_view == p'.id)
    then some p'
    else try_announce_as_leader p' msg.new_view_id

-- The node's stable checkpoint and prepared requests are read when the goroutine runs.
unfoldable pub vote_view_change :
    PbftViewChange
    → Int64
    → Option CheckpointProof
    → List ViewChangePreparedMessage
    → Option PbftViewChange
unfolding handle_view_change tell
vote_view_change p view_id stable prepared = do
  let msg : ViewChangeRequest = record {
    new_view_id = view_id;
    last_stable_sequence_number = get_sequence_number stable;
    checkpoint_proof = get_proof stable;
    prepared_proof = prepared;
    replica_id = p.id;
  }
  p' ← handle_view_change p msg
  some (tell (broadcast_view_change msg) p')

-- The goroutine that waits for the election.
unfoldable pub end_election : PbftViewChange → Int64 → GoString → Option PbftViewChange
unfolding try_announce_as_leader
end_election p view_id leader_id =
    let p' = record p { leader_for_view = leader_id } in
    if not (view_id == p.view_id)
    then some p
    else if p.id == leader_id
    then try_announce_as_leader p' view_id
    else some p'

-- ===== src/ViewChanger/Leaders.antt =====
-- When a view changer announces a new view, and what a new view of another does to it.
use adaptive_leader.Base.{
  ◌+◌, ◌*◌, ◌≤◌, ◌<◌, ◌≡◌, refl, ◌∙◌, true, false, not, List, [], ◌∷◌, ◌++◌, some, All, length,
  values, ◌==◌, ==_refl, ltb, le→ltb, if-of_false, nat_eq, string_eq, arith,
}
use adaptive_leader.Base.Int64.{Int64, IsInt64, max_int64}
use adaptive_leader.Config.{f}
use adaptive_leader.Messages.{ViewChangeRequest, NewViewRequest}
use adaptive_leader.ViewChanger.NewView.{get_sequence_range}
use adaptive_leader.ViewChanger.Proposals.{create_preprepare_messages_lem}
use adaptive_leader.ViewChanger.Defs.{
  PbftViewChange, broadcast_new_view, node_handles_new_view, tell, handle_new_view,
  view_changes_for, announce, try_announce_as_leader, record_view_change, handle_view_change,
  request_executed,
}
use adaptive_leader.Node.Defs.{Node}
use adaptive_leader.Node.Views.{handle_new_view_request}

-- The requests for a request's view, once it is recorded.
abbrev pub gathered : PbftViewChange → ViewChangeRequest → List ViewChangeRequest
gathered p msg = values (view_changes_for msg.new_view_id (record_view_change p msg))

-- In its own view, a view changer that counts as the leader announces at a quorum.
handles_as_leader :
    (p : PbftViewChange) (msg : ViewChangeRequest)
    → p.leader_for_view ≡ p.id
    → msg.new_view_id ≡ p.view_id
    → 2 * f p.config + 1 ≤ length (view_changes_for msg.new_view_id (record_view_change p msg))
    → handle_view_change p msg ≡ announce (record_view_change p msg) msg.new_view_id
unfolding handle_view_change try_announce_as_leader record_view_change
handles_as_leader p msg leads here many =
    let fresh : ltb msg.new_view_id p.view_id ≡ false =
      le→ltb msg.new_view_id p.view_id (omega arith) in
    let leader : not (p.leader_for_view == p.id) ≡ false = rw (leads, ==_refl p.id) refl in
    let same : not (p.view_id == msg.new_view_id) ≡ false = rw (here, ==_refl p.view_id) refl in
    let enough =
      le→ltb (length (view_changes_for msg.new_view_id (record_view_change p msg)))
        (2 * f p.config + 1) many in
    if-of_false _ _ fresh ∙ if-of_false _ _ leader ∙ if-of_false _ _ same ∙ if-of_false _ _ enough

-- A view changer that counts as the leader of its view, and records a view-change request for it
-- that makes a quorum, broadcasts the new view in its name, with the requests that it has gathered
-- for it, and enters it, when the stable checkpoints are in the range of int64 and the numbers have
-- a range under the greatest int64.
pub leader_announces :
    (p : PbftViewChange) (msg : ViewChangeRequest) (least greatest : Int64)
    → p.leader_for_view ≡ p.id
    → msg.new_view_id ≡ p.view_id
    → 2 * f p.config + 1 ≤ length (view_changes_for msg.new_view_id (record_view_change p msg))
    → All (λ vc. IsInt64 vc.last_stable_sequence_number) (gathered p msg)
    → get_sequence_range (gathered p msg) ≡ some (least, greatest)
    → greatest < max_int64
    → (p' : PbftViewChange) × (new_view : NewViewRequest) × (handle_view_change p msg ≡ some p')
      × (p'.sent
          ≡ (p.sent ++ broadcast_new_view new_view ∷ []) ++ node_handles_new_view new_view ∷ [])
      × (new_view.new_view_id ≡ p.view_id)
      × (new_view.view_change_proof ≡ gathered p msg)
      × (new_view.replica_id ≡ p.id)
      × (p'.view_id ≡ p.view_id)
      × (p'.in_view_change ≡ false)
      × (p'.view_timer ≡ p.request_timeout)
unfolding announce handle_new_view tell record_view_change
leader_announces p msg least greatest leads here many small range below =
    let vcs = gathered p msg in
    let created =
      create_preprepare_messages_lem msg.new_view_id vcs (f p.config) least greatest small range
        below in
    let (ms, e, _, _, _, _) = created in
    let new_view : NewViewRequest = record {
      new_view_id = msg.new_view_id;
      view_change_proof = vcs;
      preprepares = ms;
      replica_id = p.id;
    } in
    (
      handle_new_view (tell (broadcast_new_view new_view) (record_view_change p msg)) new_view,
      new_view,
      handles_as_leader p msg leads here many ∙ rw e refl,
      refl,
      here,
      refl,
      refl,
      here,
      refl,
      refl,
    )

-- A view changer that once became the leader of a view still counts as the leader after a new view
-- of another replica: a late view-change request for that view, when it holds a quorum of these,
-- makes it broadcast a second new view for it, in its own name and with the requests gathered, when
-- the stable checkpoints are in the range of int64 and the numbers have a range under the greatest
-- int64.
pub old_leader_announces :
    (p : PbftViewChange) (new_view : NewViewRequest) (late : ViewChangeRequest)
    (least greatest : Int64)
    → p.leader_for_view ≡ p.id
    → late.new_view_id ≡ new_view.new_view_id
    → 2 * f p.config + 1 ≤ length (view_changes_for late.new_view_id (record_view_change p late))
    → All (λ vc. IsInt64 vc.last_stable_sequence_number) (gathered p late)
    → get_sequence_range (gathered p late) ≡ some (least, greatest)
    → greatest < max_int64
    → (p' : PbftViewChange) × (second : NewViewRequest) × (handle_view_change
          (handle_new_view p new_view)
          late
        ≡ some p')
      × (p'.sent
          ≡ ((p.sent ++ node_handles_new_view new_view ∷ []) ++ broadcast_new_view second ∷ [])
            ++ node_handles_new_view second ∷ [])
      × (second.new_view_id ≡ new_view.new_view_id)
      × (second.view_change_proof ≡ gathered p late)
      × (second.replica_id ≡ p.id)
unfolding handle_new_view tell record_view_change view_changes_for
old_leader_announces p new_view late least greatest leads same many small range below =
    let (p', second, handled, sent, number, votes, sender, _, _, _) =
      leader_announces (handle_new_view p new_view) late least greatest leads same many small range
        below in
    (p', second, handled, sent, number, votes, sender)

-- A new view older than the node's view is ignored by the node, but not by the view changer: it
-- goes back to the old view, and a request that the node executes in its own view does not restart
-- its timer.
pub old_new_view_splits :
    (p : PbftViewChange) (n : Node) (new_view : NewViewRequest)
    → new_view.new_view_id < n.view_data.current_view
    → (handle_new_view_request n new_view ≡ some n)
      × ((handle_new_view p new_view).view_id < n.view_data.current_view)
      × (request_executed (handle_new_view p new_view) n.view_data.current_view
          ≡ handle_new_view p new_view)
unfolding handle_new_view_request handle_new_view tell request_executed
old_new_view_splits p n new_view old =
    let ignored : ltb new_view.new_view_id n.view_data.current_view ≡ true = ground arith in
    let other : (new_view.new_view_id == n.view_data.current_view) ≡ false = ground arith in
    (rw ignored refl, old, if-of_false _ _ other)

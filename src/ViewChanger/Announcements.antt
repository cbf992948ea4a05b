-- ===== src/ViewChanger/Announcements.antt =====
-- What stands behind a new view that a view changer broadcasts.
use adaptive_leader.Base.{
  take_at, Among-All, ◌≡◌, refl, sym, subst, inl, inr, true, not, List, [], ◌∷◌, Option, some,
  GoString, All, Among, ◌==◌, nat_eq, string_eq, arith, >>=-eq-some, Bool-cases,
}
use adaptive_leader.Base.Int64.{Int64, inc64}
use adaptive_leader.Config.{Config}
use adaptive_leader.Messages.{ViewChangeRequest, NewViewRequest, ViewChangePreparedMessage}
use adaptive_leader.LeaderElection.{RoundRobin, get_leader}
use adaptive_leader.Store.{CheckpointProof, get_sequence_number, get_proof}
use adaptive_leader.ViewChanger.Defs.{
  Task, votes, election_ends, broadcast_view_change, broadcast_new_view, node_goes_to_view_change,
  PbftViewChange, new_pbft_view_change, tell, start_task, request_executed, start_leader_election,
  timer_fires, handle_new_view, handle_view_change, vote_view_change, end_election,
}
use adaptive_leader.ViewChanger.Steps.{
  Event, view_change_arrives, new_view_arrives, timer_expires, execution_reported, task_runs,
  run_task, step, run,
}
use adaptive_leader.ViewChanger.Justified.{
  AreFor, HasQuorum, IsJustified, Inv, tell-Inv, handle_new_view-Inv, try_announce-Inv,
  handle_view_change-Inv, keeps-Inv, some-Inv, if-Inv,
}

module _ (c : Config) where
  timer_fires-Inv : (p p' : PbftViewChange) → Inv c p → timer_fires p ≡ some p' → Inv c p'
  unfolding timer_fires start_leader_election start_task tell
  timer_fires-Inv p p' v h =
      let moved = record p {
        in_view_change = true;
        view_id = inc64 p.view_id;
        leader_for_view = [];
      } in
      let told =
        tell-Inv c node_goes_to_view_change moved tt (keeps-Inv c p moved v refl refl refl refl) in
      let (q, e, on) =
        >>=-eq-some (start_leader_election (tell node_goes_to_view_change moved) (inc64 p.view_id))
          _ h in
      let (leader, _, made) = >>=-eq-some (get_leader p.leader_election (inc64 p.view_id)) _ e in
      let elected =
        start_task (election_ends (inc64 p.view_id) leader) (tell node_goes_to_view_change moved) in
      let q-Inv =
        some-Inv c elected q
          (keeps-Inv c (tell node_goes_to_view_change moved) elected told refl refl refl refl)
          made in
      some-Inv c _ p' (keeps-Inv c q _ q-Inv refl refl refl refl) on

  end_election-Inv :
      (p p' : PbftViewChange) (view_id : Int64) (leader_id : GoString)
      → Inv c p
      → end_election p view_id leader_id ≡ some p'
      → Inv c p'
  unfolding end_election
  end_election-Inv p p' view_id leader_id v h =
      let q = record p { leader_for_view = leader_id } in
      let q-Inv = keeps-Inv c p q v refl refl refl refl in
      elim (Bool-cases (not (view_id == p.view_id))) [
        | inl other ↦ subst (Inv c) (ground arith) v
        | inr same ↦ elim (Bool-cases (p.id == leader_id)) [
          | inl leads ↦ try_announce-Inv c q p' view_id q-Inv (ground arith)
          | inr follows ↦ subst (Inv c) (ground arith) q-Inv
        ]
      ]

  vote_view_change-Inv :
      (p p' : PbftViewChange) (view_id : Int64) (stable : Option CheckpointProof)
      (prepared : List ViewChangePreparedMessage)
      → Inv c p
      → vote_view_change p view_id stable prepared ≡ some p'
      → Inv c p'
  unfolding vote_view_change
  vote_view_change-Inv p p' view_id stable prepared v h =
      let msg : ViewChangeRequest = record {
        new_view_id = view_id;
        last_stable_sequence_number = get_sequence_number stable;
        checkpoint_proof = get_proof stable;
        prepared_proof = prepared;
        replica_id = p.id;
      } in
      let (q, e, on) = >>=-eq-some (handle_view_change p msg) _ h in
      let q-Inv = handle_view_change-Inv c p q msg v e in
      some-Inv c (tell (broadcast_view_change msg) q) p'
        (tell-Inv c (broadcast_view_change msg) q tt q-Inv) on

  request_executed-Inv :
      (p : PbftViewChange) (view_id : Int64) → Inv c p → Inv c (request_executed p view_id)
  unfolding request_executed
  request_executed-Inv p view_id v =
      let restarted = record p { view_timer = p.request_timeout } in
      if-Inv c p.in_view_change p _ v (
        if-Inv c (p.view_id == view_id) restarted p (keeps-Inv c p restarted v refl refl refl refl)
          v)

  run_task-Inv :
      (p p' : PbftViewChange) (t : Task) (stable : Option CheckpointProof)
      (prepared : List ViewChangePreparedMessage)
      → Inv c p
      → run_task p t stable prepared ≡ some p'
      → Inv c p'
  unfolding run_task
  run_task-Inv p p' (votes view_id) stable prepared v h =
      vote_view_change-Inv p p' view_id stable prepared v h
  run_task-Inv p p' (election_ends view_id leader_id) stable prepared v h =
      end_election-Inv p p' view_id leader_id v h

  step-Inv : (p p' : PbftViewChange) (e : Event) → Inv c p → step p e ≡ some p' → Inv c p'
  unfolding step
  step-Inv p p' (view_change_arrives msg) v h = handle_view_change-Inv c p p' msg v h
  step-Inv p p' (new_view_arrives msg) v h =
      some-Inv c (handle_new_view p msg) p' (handle_new_view-Inv c p msg v) h
  step-Inv p p' timer_expires v h = timer_fires-Inv p p' v h
  step-Inv p p' (execution_reported view_id) v h =
      some-Inv c (request_executed p view_id) p' (request_executed-Inv p view_id v) h
  step-Inv p p' (task_runs i stable prepared) v h =
      let ((t, rest), e, on) = >>=-eq-some (take_at i p.spawned) _ h in
      let q = record p { spawned = rest } in
      run_task-Inv q p' t stable prepared (keeps-Inv c p q v refl refl refl refl) on

  run-Inv : (p p' : PbftViewChange) (es : List Event) → Inv c p → run p es ≡ some p' → Inv c p'
  unfolding run
  run-Inv p p' [] v h = some-Inv c p p' v h
  run-Inv p p' (e ∷ es) v h =
      let (q, first, on) = >>=-eq-some (step p e) _ h in run-Inv q p' es (step-Inv p q e v first) on

  new-Inv :
      (election : RoundRobin) (p : PbftViewChange)
      → new_pbft_view_change c election ≡ some p
      → Inv c p
  unfolding new_pbft_view_change
  new-Inv election p h = elim (Bool-cases (c.id == [])) [
    | inl empty ↦ absurd (ground (arith, h, empty))
    | inr named ↦
        let same_changes : p.view_changes ≡ [] = ground (arith, h, named) in
        let same_sent : p.sent ≡ [] = ground (arith, h, named) in
        record {
          same_config = ground (arith, h, named);
          same_id = ground (arith, h, named);
          recorded = subst (All (λ e. AreFor e.0 e.1)) (sym same_changes) tt;
          justified = subst (All (IsJustified c)) (sym same_sent) tt;
        }
  ]

-- Whatever happens to a new view changer, each new view that it broadcasts carries the view-change
-- requests of at least 2f + 1 replicas, no two the same, each for that view and kept under its
-- sender, and the pre-prepares computed from them.
pub announced_with_quorum :
    (c : Config) (election : RoundRobin) (p p' : PbftViewChange) (es : List Event)
    (msg : NewViewRequest)
    → new_pbft_view_change c election ≡ some p
    → run p es ≡ some p'
    → Among (broadcast_new_view msg) p'.sent
    → HasQuorum c msg
announced_with_quorum c election p p' es msg new ran at =
    let v = run-Inv c p p' es (new-Inv c election p new) ran in
    Among-All (IsJustified c) (broadcast_new_view msg) p'.sent at v.justified

-- ===== src/Service/Refinement.antt =====
-- A replica's calls, channels and loop are a run of its node.
use adaptive_leader.Base.{
  take_at, take_at-Among, ℕ, ◌≡◌, ◌≢◌, refl, sym, subst, Bool, true, false, List, [], ◌∷◌, Option,
  none, some, inl, inr, Among, if◌then◌else◌, arith, >>=-eq-some, ◌>>=◌,
}
use adaptive_leader.Messages.{ClientRequest, NewViewRequest}
use adaptive_leader.Node.Defs.{Node, set_view}
use adaptive_leader.Node.Views.{go_to_view_change}
use adaptive_leader.Node.Flag.{run_task-Has, handle_new_view_request-Has}
use adaptive_leader.Node.Steps
use adaptive_leader.Node.Steps.{
  Input, pre_prepare, prepare, commit_vote, checkpoint, status_request, status_response,
  handle_input, take_request, get_status, request_arrives, input_arrives, disables, enables,
  task_runs, view_change_begins, new_view_arrives,
}
use adaptive_leader.Service.{
  selecting, waiting, busy, is_busy, is_selecting, Replica, request, receive, enable, disable, loop,
  take_next_request, take_input, Event, request_comes, input_comes, enable_comes, disable_comes,
  loops, request_taken, input_taken, goroutine_runs, view_changes, new_view_comes, step, run,
}
use adaptive_leader.Service.Simulates.{
  IsInStep, Simulates, inputs_of, inputs_in, IsReady, rests, one_step, then-Simulates,
}
use adaptive_leader.Service.Calls.{
  enabled_at, request-Simulates, receive-Simulates, enable-Simulates, disable-Simulates,
}

pub guarded :
    (t : Bool) (o : Option Replica) (s : Replica)
    → (if t then o else none) ≡ some s
    → (t ≡ true) × (o ≡ some s)
guarded true o s h = (refl, h)
guarded false o s h = absurd (ground arith)

loop-Simulates : (s : Replica) → Simulates s (loop s) []
unfolding loop
loop-Simulates s = rests s (loop s) [] (in_step s.node.enabled) refl (λ m at. inl at)
  where
    in_step : (b : Bool) → IsInStep (if b then selecting else waiting) b
    in_step true = refl
    in_step false = refl

take_next_request-Simulates :
    (s s' : Replica) → s.node.enabled ≡ true → take_next_request s ≡ some s' → Simulates s s' []
unfolding take_next_request Steps.step
take_next_request-Simulates s s' on h = taken s.requests refl
  where
    taken : (rs : List ClientRequest) → s.requests ≡ rs → Simulates s s' []
    taken [] none_left = absurd (ground arith)
    taken (m ∷ rest) e =
        let after = record s { requests = rest; control = busy; node = take_request s.node m } in
        let made : after ≡ s' = ground arith in
        subst (λ q. Simulates s q []) made
          (one_step s after (request_arrives m) tt (ground (arith, on)) (λ m. cc) refl)

input_arrives-inj : (m u : Input) → input_arrives m ≡ input_arrives u → m ≡ u
input_arrives-inj m u e = cc

take_input-Simulates :
    (s s' : Replica) (i : ℕ) → s.node.enabled ≡ true → take_input s i ≡ some s' → Simulates s s' []
unfolding take_input Steps.step Steps.run
take_input-Simulates s s' i on h =
    let ((m, rest), first, went) = >>=-eq-some (take_at i s.senders) _ h in
    let (n, handled, made) = >>=-eq-some (handle_input s.node m) _ went in
    let (here, others) = take_at-Among i s.senders rest m first in
    let after = record s { senders = rest; control = busy; node = n } in
    let same : after ≡ s' = ground (arith, made) in
    subst (λ q. Simulates s q []) same
      (
        input_arrives m ∷ [],
        ground (arith, on, handled),
        (λ u at. elim at [
          | inl is ↦ inl (subst (λ v. Among v s.senders) (sym (input_arrives-inj u m is)) here)
          | inr none_left ↦ absurd none_left
        ]),
        (λ u at. inl (others u at)),
        tt,
      )

on_node-Simulates :
    (s s' : Replica) (e : Steps.Event)
    → IsReady s
    → ((n : Node) → Steps.step s.node e ≡ some n → n.enabled ≡ s.node.enabled)
    → ((m : Input) → input_arrives m ≢ e)
    → (Steps.step s.node e >>= λ n. some (record s { node = n })) ≡ some s'
    → Simulates s s' []
on_node-Simulates s s' e ready keeps other h =
    let (n, taken, made) = >>=-eq-some (Steps.step s.node e) _ h in
    let same : record s { node = n } ≡ s' = ground (arith, made) in
    subst (λ q. Simulates s q []) same
      (one_step s (record s { node = n }) e (subst (IsInStep s.control) (sym (keeps n taken)) ready)
        taken other refl)

goroutine_keeps :
    (n n' : Node) (i : ℕ) → Steps.step n (task_runs i) ≡ some n' → n'.enabled ≡ n.enabled
unfolding Steps.step
goroutine_keeps n n' i h =
    let ((t, rest), _, on) = >>=-eq-some (take_at i n.spawned) _ h in
    run_task-Has n.enabled (record n { spawned = rest }) n' t refl on

view_change_keeps :
    (n n' : Node) → Steps.step n view_change_begins ≡ some n' → n'.enabled ≡ n.enabled
unfolding Steps.step go_to_view_change set_view
view_change_keeps n n' h = ground (arith, h)

new_view_keeps :
    (n n' : Node) (m : NewViewRequest)
    → Steps.step n (new_view_arrives m) ≡ some n'
    → n'.enabled ≡ n.enabled
unfolding Steps.step
new_view_keeps n n' m h = handle_new_view_request-Has n.enabled n n' m refl h

step-Simulates :
    (s s' : Replica) (e : Event) → IsReady s → step s e ≡ some s' → Simulates s s' (inputs_of e)
unfolding step
step-Simulates s s' (request_comes m) ready h =
    let same : (request s m).0 ≡ s' = ground (arith, h) in
    subst (λ q. Simulates s q []) same (request-Simulates s m ready)
step-Simulates s s' (input_comes m) ready h =
    let same : receive s m ≡ s' = ground (arith, h) in
    subst (λ q. Simulates s q (m ∷ [])) same (receive-Simulates s m ready)
step-Simulates s s' enable_comes ready h =
    let same : enable s ≡ s' = ground (arith, h) in
    subst (λ q. Simulates s q []) same (enable-Simulates s ready)
step-Simulates s s' disable_comes ready h =
    let same : disable s ≡ s' = ground (arith, h) in
    subst (λ q. Simulates s q []) same (disable-Simulates s ready)
step-Simulates s s' loops ready h =
    let (_, made) = guarded (is_busy s.control) (some (loop s)) s' h in
    let same : loop s ≡ s' = ground (arith, made) in
    subst (λ q. Simulates s q []) same (loop-Simulates s)
step-Simulates s s' request_taken ready h =
    let (selects, taken) = guarded (is_selecting s.control) (take_next_request s) s' h in
    take_next_request-Simulates s s' (enabled_at s.control s.node.enabled selects ready) taken
step-Simulates s s' (input_taken i) ready h =
    let (selects, taken) = guarded (is_selecting s.control) (take_input s i) s' h in
    take_input-Simulates s s' i (enabled_at s.control s.node.enabled selects ready) taken
step-Simulates s s' (goroutine_runs i) ready h =
    on_node-Simulates s s' (task_runs i) ready (λ n. goroutine_keeps s.node n i) (λ m. cc) h
step-Simulates s s' view_changes ready h =
    on_node-Simulates s s' view_change_begins ready (view_change_keeps s.node) (λ m. cc) h
step-Simulates s s' (new_view_comes m) ready h =
    on_node-Simulates s s' (new_view_arrives m) ready (λ n. new_view_keeps s.node n m) (λ m. cc) h

-- Whatever is called at a replica and however its loop, its goroutines and its view changer
-- interleave, its node takes a run of its own; each input that the node takes was blocked on the
-- channel at first or came in the run, and so was each that is blocked at the end; and the loop is
-- where the node's flag says, as it was at first.
pub run-Simulates :
    (s s' : Replica) (es : List Event)
    → IsInStep s.control s.node.enabled
    → run s es ≡ some s'
    → Simulates s s' (inputs_in es)
unfolding run
run-Simulates s s' [] ready h =
    let same : s ≡ s' = ground (arith, h) in
    subst (λ q. Simulates s q []) same (rests s s [] ready refl (λ m at. inl at))
run-Simulates s s' (e ∷ es) ready h =
    let (q, first, on) = >>=-eq-some (step s e) _ h in
    let here = step-Simulates s q e ready first in
    let (_, _, _, _, ready') = here in
    then-Simulates s q s' (inputs_of e) (inputs_in es) here (run-Simulates q s' es ready' on)

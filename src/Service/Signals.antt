-- ===== src/Service/Signals.antt =====
-- Enable and Disable: what happens when the loop is not where it would take the signal.
use adaptive_leader.Base.{
  ◌≡◌, refl, sym, ap, ◌∙◌, subst, Bool, true, false, not, List, [], ◌∷◌, Option, some, All,
  if◌then◌else◌, arith, inl, inr, >>=-eq-some, ◌>>=◌,
}
use adaptive_leader.Messages.{ClientRequest}
use adaptive_leader.Node.Defs.{Node}
use adaptive_leader.Node.Steps
use adaptive_leader.Node.Steps.{
  Input, pre_prepare, prepare, commit_vote, checkpoint, status_request, status_response,
  handle_input, task_runs, view_change_begins, new_view_arrives,
}
use adaptive_leader.Service.{
  selecting, waiting, is_busy, is_selecting, Replica, put_or_ignore, request, receive,
  receive_pre_prepare, receive_prepare, receive_commit, receive_checkpoint, receive_get_status,
  receive_status, sleep, enable, disable, loop, take_next_request, take_input, Event, request_comes,
  input_comes, enable_comes, disable_comes, loops, request_taken, input_taken, goroutine_runs,
  view_changes, new_view_comes, step, run,
}
use adaptive_leader.Service.Requests.{request_lem}
use adaptive_leader.Service.Refinement.{guarded}

-- Nobody calls Enable.
abbrev pub IsNotEnable : Event → Type 0
IsNotEnable enable_comes = ⊥
IsNotEnable e = Unit

if_control :
    (b : Bool) (s p q : Replica)
    → p.control ≡ s.control
    → q.control ≡ s.control
    → (if b then p else q).control ≡ s.control
if_control true s p q h k = h
if_control false s p q h k = k

receive_control : (s : Replica) (m : Input) → (receive s m).control ≡ s.control
unfolding receive receive_pre_prepare receive_prepare receive_commit receive_checkpoint
    receive_get_status receive_status
receive_control s (pre_prepare m) = if_control (not s.service_enabled) s s _ refl refl
receive_control s (prepare m) = if_control (not s.service_enabled) s s _ refl refl
receive_control s (commit_vote m) = if_control (not s.service_enabled) s s _ refl refl
receive_control s (checkpoint m) = if_control (not s.service_enabled) s s _ refl refl
receive_control s (status_request m) = if_control (not s.service_enabled) s s _ refl refl
receive_control s (status_response m) = if_control (not s.service_enabled) s s _ refl refl

request_control : (s : Replica) (m : ClientRequest) → (request s m).0.control ≡ s.control
request_control s m = elim (request_lem s m) [
  | inl (on, room, e) ↦ rw e refl
  | inr (inl (on, full, e)) ↦ rw e refl
  | inr (inr (off, e)) ↦ rw e refl
]

on_node_control :
    (s s' : Replica) (o : Option Node)
    → (o >>= λ n. some (record s { node = n })) ≡ some s'
    → s'.control ≡ s.control
on_node_control s s' o h = let (n, _, made) = >>=-eq-some o _ h in ground (arith, made)

-- A loop that waits goes on waiting.
disable_stays : (s : Replica) → s.control ≡ waiting → (disable s).control ≡ waiting
unfolding disable put_or_ignore
disable_stays s at = ground (arith, at)

step_stays :
    (s s' : Replica) (e : Event)
    → s.control ≡ waiting
    → IsNotEnable e
    → step s e ≡ some s'
    → s'.control ≡ waiting
unfolding step
step_stays s s' (request_comes m) at is h =
    let same : (request s m).0 ≡ s' = ground (arith, h) in
    sym (ap (λ q. q.control) same) ∙ request_control s m ∙ at
step_stays s s' (input_comes m) at is h =
    let same : receive s m ≡ s' = ground (arith, h) in
    sym (ap (λ q. q.control) same) ∙ receive_control s m ∙ at
step_stays s s' enable_comes at is h = absurd is
step_stays s s' disable_comes at is h =
    let same : disable s ≡ s' = ground (arith, h) in
    sym (ap (λ q. q.control) same) ∙ disable_stays s at
step_stays s s' loops at is h =
    let (working, _) = guarded (is_busy s.control) (some (loop s)) s' h in
    absurd (ground (arith, at, working))
step_stays s s' request_taken at is h =
    let (selects, _) = guarded (is_selecting s.control) (take_next_request s) s' h in
    absurd (ground (arith, at, selects))
step_stays s s' (input_taken i) at is h =
    let (selects, _) = guarded (is_selecting s.control) (take_input s i) s' h in
    absurd (ground (arith, at, selects))
step_stays s s' (goroutine_runs i) at is h =
    on_node_control s s' (Steps.step s.node (task_runs i)) h ∙ at
step_stays s s' view_changes at is h =
    on_node_control s s' (Steps.step s.node view_change_begins) h ∙ at
step_stays s s' (new_view_comes m) at is h =
    on_node_control s s' (Steps.step s.node (new_view_arrives m)) h ∙ at

run_stays :
    (s s' : Replica) (es : List Event)
    → s.control ≡ waiting
    → All IsNotEnable es
    → run s es ≡ some s'
    → s'.control ≡ waiting
unfolding run
run_stays s s' [] at none_comes h =
    let same : s ≡ s' = ground (arith, h) in subst (λ q. q.control ≡ waiting) same at
run_stays s s' (e ∷ es) at (is, none_comes) h =
    let (q, first, on) = >>=-eq-some (step s e) _ h in
    run_stays q s' es (step_stays s q e at is first) none_comes on

-- A loop that is at its select takes Disable, and Enable comes before the loop waits for it: the
-- service is then enabled and the node is not, and the loop waits, and goes on waiting whatever
-- else happens until Enable is called again.
pub enable_is_lost :
    (s : Replica)
    → s.control ≡ selecting
    → (q : Replica) × (run s (disable_comes ∷ enable_comes ∷ loops ∷ []) ≡ some q)
      × (q.service_enabled ≡ true)
      × (q.node.enabled ≡ false)
      × ((es : List Event) (s' : Replica)
          → All IsNotEnable es
          → run q es ≡ some s'
          → s'.control ≡ waiting)
unfolding run step enable disable loop put_or_ignore sleep
enable_is_lost s at =
    let q : Replica = record s {
      service_enabled = true;
      control = waiting;
      node = record s.node { enabled = false };
    } in
    (q, ground (arith, at), refl, refl, (λ es s' never h. run_stays q s' es refl never h))

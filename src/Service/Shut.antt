-- ===== src/Service/Shut.antt =====
-- A disabled service lets nothing in.
use adaptive_leader.Base.{
  take_at, take_at-Among, ℕ, ◌≡◌, refl, sym, ap, ◌∙◌, subst, Bool, true, false, List, [], ◌∷◌,
  Option, some, All, Among, if◌then◌else◌, arith, inl, inr, >>=-eq-some, ◌>>=◌,
}
use adaptive_leader.Messages.{ClientRequest}
use adaptive_leader.Node.Defs.{Node}
use adaptive_leader.Node.Steps
use adaptive_leader.Node.Steps.{
  Input, pre_prepare, prepare, commit_vote, checkpoint, status_request, status_response,
  handle_input, task_runs, view_change_begins, new_view_arrives,
}
use adaptive_leader.Service.{
  is_busy, is_selecting, Replica, Reply, put_or_ignore, request, receive, receive_pre_prepare,
  receive_prepare, receive_commit, receive_checkpoint, receive_get_status, receive_status, sleep,
  disable, loop, take_next_request, take_input, Event, request_comes, input_comes, enable_comes,
  disable_comes, loops, request_taken, input_taken, goroutine_runs, view_changes, new_view_comes,
  step, run,
}
use adaptive_leader.Service.Requests.{request_lem, if_done, accepted_by, accepted_in}
use adaptive_leader.Service.Refinement.{guarded}
use adaptive_leader.Service.Signals.{IsNotEnable}

-- What a disabled service leaves: it is disabled, and no request and no input has come in.
abbrev pub Shut : Replica → Replica → List ClientRequest → Type 0
Shut s s' accepted =
    (s'.service_enabled ≡ false)
    × (accepted ≡ [])
    × ((m : Input) → Among m s'.senders → Among m s.senders)

-- A change of other fields.
unchanged :
    (s s' : Replica)
    → s'.service_enabled ≡ s.service_enabled
    → s'.senders ≡ s.senders
    → s.service_enabled ≡ false
    → Shut s s' []
unchanged s s' flag same off = (flag ∙ off, refl, λ m at. subst (Among m) same at)

receive-Shut : (s : Replica) (m : Input) → s.service_enabled ≡ false → Shut s (receive s m) []
unfolding receive receive_pre_prepare receive_prepare receive_commit receive_checkpoint
    receive_get_status receive_status
receive-Shut s m off = subst (λ q. Shut s q []) (sym (ignored m)) (unchanged s s refl refl off)
  where
    ignored : (u : Input) → receive s u ≡ s
    ignored (pre_prepare u) = ground (arith, off)
    ignored (prepare u) = ground (arith, off)
    ignored (commit_vote u) = ground (arith, off)
    ignored (checkpoint u) = ground (arith, off)
    ignored (status_request u) = ground (arith, off)
    ignored (status_response u) = ground (arith, off)

disable-Shut : (s : Replica) → Shut s (disable s) []
unfolding disable put_or_ignore sleep
disable-Shut s = (
  refl,
  refl,
  λ m at. subst (Among m) (same (put_or_ignore (is_selecting s.control) (tt {0}) []).1) at,
)
  where
    same : (b : Bool) → (if b then sleep s else s).senders ≡ s.senders
    same true = refl
    same false = refl

request-Shut :
    (s : Replica) (m : ClientRequest)
    → s.service_enabled ≡ false
    → Shut s (request s m).0 (accepted_by s (request_comes m))
request-Shut s m off = elim (request_lem s m) [
  | inl (on, room, e) ↦ absurd (ground (arith, on, off))
  | inr (inl (on, full, e)) ↦ absurd (ground (arith, on, off))
  | inr (inr (_, e)) ↦ (
    ap (λ (r : Replica × Reply). r.0.service_enabled) e ∙ off,
    ap (λ (r : Replica × Reply). if_done r.1 m) e,
    λ u at. subst (λ (r : Replica × Reply). Among u r.0.senders) e at,
  )
]

take_next_request-Shut :
    (s s' : Replica) → s.service_enabled ≡ false → take_next_request s ≡ some s' → Shut s s' []
unfolding take_next_request
take_next_request-Shut s s' off h = taken s.requests refl
  where
    taken : (rs : List ClientRequest) → s.requests ≡ rs → Shut s s' []
    taken [] e = absurd (ground arith)
    taken (m ∷ rest) e = unchanged s s' (ground (arith, h, e)) (ground (arith, h, e)) off

take_input-Shut :
    (s s' : Replica) (i : ℕ) → s.service_enabled ≡ false → take_input s i ≡ some s' → Shut s s' []
unfolding take_input
take_input-Shut s s' i off h =
    let ((m, rest), first, went) = >>=-eq-some (take_at i s.senders) _ h in
    let (n, _, made) = >>=-eq-some (handle_input s.node m) _ went in
    let (_, others) = take_at-Among i s.senders rest m first in
    let left : rest ≡ s'.senders = ground (arith, made) in
    let flag : s'.service_enabled ≡ s.service_enabled = ground (arith, made) in
    (flag ∙ off, refl, λ u at. others u (subst (Among u) (sym left) at))

on_node-Shut :
    (s s' : Replica) (o : Option Node)
    → s.service_enabled ≡ false
    → (o >>= λ n. some (record s { node = n })) ≡ some s'
    → Shut s s' []
on_node-Shut s s' o off h =
    let (n, _, made) = >>=-eq-some o _ h in
    unchanged s s' (ground (arith, made)) (ground (arith, made)) off

loop-Shut : (s s' : Replica) → s.service_enabled ≡ false → some (loop s) ≡ some s' → Shut s s' []
unfolding loop
loop-Shut s s' off made = unchanged s s' (ground (arith, made)) (ground (arith, made)) off

step-Shut :
    (s s' : Replica) (e : Event)
    → s.service_enabled ≡ false
    → IsNotEnable e
    → step s e ≡ some s'
    → Shut s s' (accepted_by s e)
unfolding step
step-Shut s s' (request_comes m) off is h =
    let same : (request s m).0 ≡ s' = ground (arith, h) in
    subst (λ q. Shut s q (accepted_by s (request_comes m))) same (request-Shut s m off)
step-Shut s s' (input_comes m) off is h =
    let same : receive s m ≡ s' = ground (arith, h) in
    subst (λ q. Shut s q []) same (receive-Shut s m off)
step-Shut s s' enable_comes off is h = absurd is
step-Shut s s' disable_comes off is h =
    let same : disable s ≡ s' = ground (arith, h) in subst (λ q. Shut s q []) same (disable-Shut s)
step-Shut s s' loops off is h =
    let (_, made) = guarded (is_busy s.control) (some (loop s)) s' h in loop-Shut s s' off made
step-Shut s s' request_taken off is h =
    let (_, taken) = guarded (is_selecting s.control) (take_next_request s) s' h in
    take_next_request-Shut s s' off taken
step-Shut s s' (input_taken i) off is h =
    let (_, taken) = guarded (is_selecting s.control) (take_input s i) s' h in
    take_input-Shut s s' i off taken
step-Shut s s' (goroutine_runs i) off is h =
    on_node-Shut s s' (Steps.step s.node (task_runs i)) off h
step-Shut s s' view_changes off is h =
    on_node-Shut s s' (Steps.step s.node view_change_begins) off h
step-Shut s s' (new_view_comes m) off is h =
    on_node-Shut s s' (Steps.step s.node (new_view_arrives m)) off h

-- While a service is disabled and nobody calls Enable, no request is accepted and no input comes
-- in, whatever else happens; the service stays disabled.
pub disabled_service-Shut :
    (s s' : Replica) (es : List Event)
    → s.service_enabled ≡ false
    → All IsNotEnable es
    → run s es ≡ some s'
    → Shut s s' (accepted_in s es)
unfolding run accepted_in
disabled_service-Shut s s' [] off never h =
    let same : s ≡ s' = ground (arith, h) in
    subst (λ q. Shut s q []) same (unchanged s s refl refl off)
disabled_service-Shut s s' (e ∷ es) off (is, never) h =
    let (q, first, on) = >>=-eq-some (step s e) _ h in
    let (off', none_now, back) = step-Shut s q e off is first in
    let (off'', none_later, back') = disabled_service-Shut q s' es off' never on in
    rw (first, none_now) (off'', none_later, λ m at. back m (back' m at))

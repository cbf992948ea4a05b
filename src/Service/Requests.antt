-- ===== src/Service/Requests.antt =====
-- The request channel: what a call of Request does, and in which order the loop takes requests.
use adaptive_leader.Base.{
  take_at, ℕ, ◌≤◌, ◌<◌, ◌≡◌, ◌⊎◌, refl, sym, ap, ◌∙◌, subst, Bool, true, false, not, List, [], ◌∷◌,
  ◌++◌, Option, none, some, length, length-append, ltb, ltb→lt, ltb→le, if◌then◌else◌, arith,
  Bool-cases, inl, inr, >>=-eq-some, ◌>>=◌,
}
use adaptive_leader.Messages.{ClientRequest}
use adaptive_leader.Node.Defs.{Node}
use adaptive_leader.Node.Steps
use adaptive_leader.Node.Steps.{
  Input, pre_prepare, prepare, commit_vote, checkpoint, status_request, status_response,
  handle_input, take_request, task_runs, view_change_begins, new_view_arrives,
}
use adaptive_leader.Service.{
  is_busy, is_selecting, is_waiting, Replica, Reply, done, service_is_disabled,
  request_channel_is_full, request_capacity, put_or_ignore, request, receive, receive_pre_prepare,
  receive_prepare, receive_commit, receive_checkpoint, receive_get_status, receive_status, wake,
  sleep, enable, disable, loop, take_next_request, take_input, Event, request_comes, input_comes,
  enable_comes, disable_comes, loops, request_taken, input_taken, goroutine_runs, view_changes,
  new_view_comes, step, run,
}
use adaptive_leader.Service.Refinement.{guarded}

-- A call of Request succeeds exactly if the service is enabled and the channel has room; then the request
-- is last in the channel and nothing else changes. A call that fails changes nothing, and its error
-- says which of the two failed, the flag first.
pub request_lem :
    (s : Replica) (m : ClientRequest)
    → ((s.service_enabled ≡ true)
        × (length s.requests < request_capacity)
        × (request s m ≡ (record s { requests = s.requests ++ m ∷ [] }, done)))
      ⊎ ((s.service_enabled ≡ true)
          × (request_capacity ≤ length s.requests)
          × (request s m ≡ (s, request_channel_is_full)))
      ⊎ ((s.service_enabled ≡ false) × (request s m ≡ (s, service_is_disabled)))
unfolding request put_or_ignore
request_lem s m = elim (Bool-cases s.service_enabled) [
  | inr off ↦ inr (inr (off, ground (arith, off)))
  | inl on ↦ elim (Bool-cases (ltb (length s.requests) request_capacity)) [
    | inl room ↦ inl (on, ltb→lt _ _ room, ground (arith, on, room))
    | inr full ↦ inr (inl (on, ltb→le _ _ full, ground (arith, on, full)))
  ]
]

-- The requests that the channel took in, and those that the loop took out, in order.
abbrev pub if_done : Reply → ClientRequest → List ClientRequest
if_done done m = m ∷ []
if_done service_is_disabled m = []
if_done request_channel_is_full m = []

abbrev pub accepted_by : Replica → Event → List ClientRequest
accepted_by s (request_comes m) = if_done (request s m).1 m
accepted_by s e = []

abbrev taken_by : Replica → Event → List ClientRequest
taken_by s request_taken = elim s.requests [ [] ↦ [] | m ∷ rest ↦ m ∷ [] ]
taken_by s e = []

-- What the channel holds, after some steps.
unfoldable pub accepted_in : Replica → List Event → List ClientRequest
accepted_in s [] = []
accepted_in s (e ∷ es) =
    accepted_by s e ++ elim (step s e) [ none ↦ [] | some s' ↦ accepted_in s' es ]

unfoldable pub taken_in : Replica → List Event → List ClientRequest
taken_in s [] = []
taken_in s (e ∷ es) = taken_by s e ++ elim (step s e) [ none ↦ [] | some s' ↦ taken_in s' es ]

-- A step takes requests in at the channel's end, and out at its start.
abbrev Queues : Replica → Replica → List ClientRequest → List ClientRequest → Type 0
Queues s s' accepted taken =
    (s.requests ++ accepted ≡ taken ++ s'.requests)
    × (length s.requests ≤ request_capacity → length s'.requests ≤ request_capacity)

append_nil : {A : Type 0} (xs : List A) → xs ++ [] ≡ xs
append_nil [] = refl
append_nil (x ∷ xs) = ap (λ ys. x ∷ ys) (append_nil xs)

append_assoc : {A : Type 0} (xs ys zs : List A) → (xs ++ ys) ++ zs ≡ xs ++ (ys ++ zs)
append_assoc [] ys zs = refl
append_assoc (x ∷ xs) ys zs = ap (λ us. x ∷ us) (append_assoc xs ys zs)

-- The channel stays.
stays : (s s' : Replica) → s'.requests ≡ s.requests → Queues s s' [] []
stays s s' e =
    (append_nil s.requests ∙ sym e, λ fits. subst (λ q. length q ≤ request_capacity) (sym e) fits)

request-Queues :
    (s : Replica) (m : ClientRequest)
    → Queues s (request s m).0 (accepted_by s (request_comes m)) []
request-Queues s m =
    let queues : Replica × Reply → Type 0 = λ r. Queues s r.0 (if_done r.1 m) [] in
    elim (request_lem s m) [
      | inl (on, room, e) ↦
          subst queues (sym e)
            (refl, λ fits. omega (arith, length-append s.requests (m ∷ []), room))
      | inr (inl (on, full, e)) ↦ subst queues (sym e) (stays s s refl)
      | inr (inr (off, e)) ↦ subst queues (sym e) (stays s s refl)
    ]

if_requests :
    (b : Bool) (s p q : Replica)
    → p.requests ≡ s.requests
    → q.requests ≡ s.requests
    → (if b then p else q).requests ≡ s.requests
if_requests true s p q h k = h
if_requests false s p q h k = k

receive_requests : (s : Replica) (m : Input) → (receive s m).requests ≡ s.requests
unfolding receive receive_pre_prepare receive_prepare receive_commit receive_checkpoint
    receive_get_status receive_status
receive_requests s (pre_prepare m) = if_requests (not s.service_enabled) s _ _ refl refl
receive_requests s (prepare m) = if_requests (not s.service_enabled) s _ _ refl refl
receive_requests s (commit_vote m) = if_requests (not s.service_enabled) s _ _ refl refl
receive_requests s (checkpoint m) = if_requests (not s.service_enabled) s _ _ refl refl
receive_requests s (status_request m) = if_requests (not s.service_enabled) s _ _ refl refl
receive_requests s (status_response m) = if_requests (not s.service_enabled) s _ _ refl refl

enable_requests : (s : Replica) → (enable s).requests ≡ s.requests
unfolding enable put_or_ignore wake
enable_requests s =
    if_requests (put_or_ignore (is_waiting s.control) (tt {0}) []).1 s (wake s) s refl refl

disable_requests : (s : Replica) → (disable s).requests ≡ s.requests
unfolding disable put_or_ignore sleep
disable_requests s =
    if_requests (put_or_ignore (is_selecting s.control) (tt {0}) []).1 s (sleep s) s refl refl

take_input_requests : (s s' : Replica) (i : ℕ) → take_input s i ≡ some s' → s'.requests ≡ s.requests
unfolding take_input
take_input_requests s s' i h =
    let ((m, rest), _, went) = >>=-eq-some (take_at i s.senders) _ h in
    let (n, _, made) = >>=-eq-some (handle_input s.node m) _ went in ground (arith, made)

on_node_requests :
    (s s' : Replica) (o : Option Node)
    → (o >>= λ n. some (record s { node = n })) ≡ some s'
    → s'.requests ≡ s.requests
on_node_requests s s' o h = let (n, _, made) = >>=-eq-some o _ h in ground (arith, made)

take_next_request-Queues :
    (s s' : Replica) → take_next_request s ≡ some s' → Queues s s' [] (taken_by s request_taken)
unfolding take_next_request
take_next_request-Queues s s' h = taken s.requests refl
  where
    taken : (rs : List ClientRequest) → s.requests ≡ rs → Queues s s' [] (taken_by s request_taken)
    taken [] none_left = absurd (ground arith)
    taken (m ∷ rest) e =
        let left : rest ≡ s'.requests = ground arith in
        rw (e, sym left) (append_nil (m ∷ rest), λ fits. omega (arith, fits))

loop_requests : (s : Replica) → (loop s).requests ≡ s.requests
unfolding loop
loop_requests s = refl

step-Queues :
    (s s' : Replica) (e : Event) → step s e ≡ some s' → Queues s s' (accepted_by s e) (taken_by s e)
unfolding step
step-Queues s s' (request_comes m) h =
    let same : (request s m).0 ≡ s' = ground (arith, h) in
    subst (λ q. Queues s q (accepted_by s (request_comes m)) []) same (request-Queues s m)
step-Queues s s' (input_comes m) h =
    let same : receive s m ≡ s' = ground (arith, h) in
    stays s s' (sym (ap (λ q. q.requests) same) ∙ receive_requests s m)
step-Queues s s' enable_comes h =
    let same : enable s ≡ s' = ground (arith, h) in
    stays s s' (sym (ap (λ q. q.requests) same) ∙ enable_requests s)
step-Queues s s' disable_comes h =
    let same : disable s ≡ s' = ground (arith, h) in
    stays s s' (sym (ap (λ q. q.requests) same) ∙ disable_requests s)
step-Queues s s' loops h =
    let (_, made) = guarded (is_busy s.control) (some (loop s)) s' h in
    let same : loop s ≡ s' = ground (arith, made) in
    stays s s' (sym (ap (λ q. q.requests) same) ∙ loop_requests s)
step-Queues s s' request_taken h =
    let (_, taken) = guarded (is_selecting s.control) (take_next_request s) s' h in
    take_next_request-Queues s s' taken
step-Queues s s' (input_taken i) h =
    let (_, taken) = guarded (is_selecting s.control) (take_input s i) s' h in
    stays s s' (take_input_requests s s' i taken)
step-Queues s s' (goroutine_runs i) h =
    stays s s' (on_node_requests s s' (Steps.step s.node (task_runs i)) h)
step-Queues s s' view_changes h =
    stays s s' (on_node_requests s s' (Steps.step s.node view_change_begins) h)
step-Queues s s' (new_view_comes m) h =
    stays s s' (on_node_requests s s' (Steps.step s.node (new_view_arrives m)) h)

-- The loop takes requests in the order in which Request has accepted them, each once, and none is
-- lost: those in the channel at first and those accepted since are those taken, in order, and those
-- left. The channel never holds more than its capacity.
pub requests_in_order :
    (s s' : Replica) (es : List Event)
    → run s es ≡ some s'
    → length s.requests ≤ request_capacity
    → (s.requests ++ accepted_in s es ≡ taken_in s es ++ s'.requests)
      × (length s'.requests ≤ request_capacity)
unfolding run accepted_in taken_in
requests_in_order s s' [] h fits =
    let same : s ≡ s' = ground (arith, h) in
    (
      append_nil s.requests ∙ ap (λ q. q.requests) same,
      subst (λ q. length q.requests ≤ request_capacity) same fits,
    )
requests_in_order s s' (e ∷ es) h fits =
    let (q, first, on) = >>=-eq-some (step s e) _ h in
    let (moved, keeps) = step-Queues s q e first in
    let (later, fits') = requests_in_order q s' es on (keeps fits) in
    rw first (
      sym (append_assoc s.requests (accepted_by s e) (accepted_in q es))
          ∙ ap (λ xs. xs ++ accepted_in q es) moved
          ∙ append_assoc (taken_by s e) q.requests (accepted_in q es)
          ∙ ap (λ xs. taken_by s e ++ xs) later
          ∙ sym (append_assoc (taken_by s e) (taken_in q es) s'.requests),
      fits',
    )

-- ===== src/ViewChanger/Service/Refinement.antt =====
-- The calls at a view changer and the rounds of its loop are a run of the view changer.
use adaptive_leader.Base.{
  take_at, take_at-Among, ℕ, ◌≡◌, ◌≢◌, refl, sym, ap, ◌∙◌, subst, Bool, true, false, List, [], ◌∷◌,
  ◌++◌, Option, some, inl, inr, ◌⊎◌, Among, Among-split, Among-left, Among-right, if◌then◌else◌,
  arith, >>=-eq-some, ◌>>=◌,
}
use adaptive_leader.Base.Int64.{Int64}
use adaptive_leader.Messages.{ViewChangePreparedMessage}
use adaptive_leader.Store.{CheckpointProof}
use adaptive_leader.ViewChanger.Defs.{PbftViewChange}
use adaptive_leader.ViewChanger.Steps
use adaptive_leader.ViewChanger.Steps.{timer_expires, execution_reported, task_runs}
use adaptive_leader.ViewChanger.Service.{
  Message, view_change, new_view, Endpoint, receive_message, receive_view_change, receive_new_view,
  take_message, arrival, Event, message_comes, message_taken, timer_rings, node_reports,
  goroutine_runs, step, run,
}

-- The messages of the calls that a service lets in: all of them, or none.
abbrev pub accepted_of : Event → Bool → List Message
accepted_of (message_comes m) true = m ∷ []
accepted_of (message_comes m) false = []
accepted_of e enabled = []

abbrev pub accepted : List Event → Bool → List Message
accepted [] enabled = []
accepted (e ∷ es) enabled = accepted_of e enabled ++ accepted es enabled

-- What a step or a run is for the view changer: a run of some events, whose messages were blocked at
-- first or have been let in since.
abbrev pub Moves : Endpoint → Endpoint → List Message → Type 0
Moves s s' comes =
    (ts : List Steps.Event) × (Steps.run s.changer ts ≡ some s'.changer)
    × ((m : Message) → Among (arrival m) ts → Among m s.callers ⊎ Among m comes)
    × ((m : Message) → Among m s'.callers → Among m s.callers ⊎ Among m comes)
    × (s'.enabled ≡ s.enabled)

receive_lem :
    (s : Endpoint) (m : Message)
    → receive_message s m ≡ (if s.enabled then record s { callers = s.callers ++ m ∷ [] } else s)
unfolding receive_message receive_view_change receive_new_view
receive_lem s (view_change m) = ground arith
receive_lem s (new_view m) = ground arith

received-Moves :
    (b : Bool) (s : Endpoint) (m : Message)
    → Moves s
        (if b then record s { callers = s.callers ++ m ∷ [] } else s)
        (accepted_of (message_comes m) b)
unfolding Steps.run
received-Moves true s m =
    ([], refl, (λ u at. absurd at), (λ u. Among-split u s.callers (m ∷ [])), refl)
received-Moves false s m = ([], refl, (λ u at. absurd at), (λ u at. inl at), refl)

-- The view changer takes one step, and no caller comes.
one_step :
    (s s' : Endpoint) (t : Steps.Event)
    → Steps.step s.changer t ≡ some s'.changer
    → ((m : Message) → arrival m ≡ t → Among m s.callers)
    → ((m : Message) → Among m s'.callers → Among m s.callers)
    → s'.enabled ≡ s.enabled
    → Moves s s' []
unfolding Steps.run
one_step s s' t taken from others same = (
  t ∷ [],
  (let went : (Steps.step s.changer t >>= some) ≡ some s'.changer = ap (λ o. o >>= some) taken in
      went),
  (λ m at. elim at [ inl is ↦ inl (from m is) | inr none_left ↦ absurd none_left ]),
  (λ m at. inl (others m at)),
  same,
)

arrival-injective : (m u : Message) → arrival m ≡ arrival u → m ≡ u
arrival-injective (view_change x) (view_change y) h = ground (arith, h)
arrival-injective (view_change x) (new_view y) h = absurd (ground (arith, h))
arrival-injective (new_view x) (view_change y) h = absurd (ground (arith, h))
arrival-injective (new_view x) (new_view y) h = ground (arith, h)

take_message-Moves : (s s' : Endpoint) (i : ℕ) → take_message s i ≡ some s' → Moves s s' []
unfolding take_message
take_message-Moves s s' i h =
    let ((m, rest), e, on) = >>=-eq-some (take_at i s.callers) _ h in
    let (p, taken, made) = >>=-eq-some (Steps.step s.changer (arrival m)) _ on in
    let (at, others) = take_at-Among i s.callers rest m e in
    let same : record s { callers = rest; changer = p } ≡ s' = ground (arith, made) in
    subst (λ q. Moves s q []) same
      (one_step s (record s { callers = rest; changer = p }) (arrival m) taken
        (λ u is. subst (λ v. Among v s.callers) (sym (arrival-injective u m is)) at) others refl)

arrival-timer : (m : Message) → arrival m ≢ timer_expires
arrival-timer (view_change m) = cc
arrival-timer (new_view m) = cc

arrival-report : (view_id : Int64) (m : Message) → arrival m ≢ execution_reported view_id
arrival-report view_id (view_change m) = cc
arrival-report view_id (new_view m) = cc

arrival-task :
    (i : ℕ) (stable : Option CheckpointProof) (prepared : List ViewChangePreparedMessage)
    (m : Message)
    → arrival m ≢ task_runs i stable prepared
arrival-task i stable prepared (view_change m) = cc
arrival-task i stable prepared (new_view m) = cc

own_step-Moves :
    (s s' : Endpoint) (t : Steps.Event)
    → ((m : Message) → arrival m ≢ t)
    → (Steps.step s.changer t >>= λ p. some (record s { changer = p })) ≡ some s'
    → Moves s s' []
own_step-Moves s s' t other h =
    let (p, taken, made) = >>=-eq-some (Steps.step s.changer t) _ h in
    let same : record s { changer = p } ≡ s' = ground (arith, made) in
    subst (λ q. Moves s q []) same
      (one_step s (record s { changer = p }) t taken (λ m is. absurd (other m is)) (λ m at. at)
        refl)

step-Moves :
    (s s' : Endpoint) (e : Event) → step s e ≡ some s' → Moves s s' (accepted_of e s.enabled)
unfolding step
step-Moves s s' (message_comes m) h =
    let same : (if s.enabled then record s { callers = s.callers ++ m ∷ [] } else s) ≡ s' =
      sym (receive_lem s m) ∙ ground (arith, h) in
    subst (λ q. Moves s q (accepted_of (message_comes m) s.enabled)) same
      (received-Moves s.enabled s m)
step-Moves s s' (message_taken i) h = take_message-Moves s s' i h
step-Moves s s' timer_rings h = own_step-Moves s s' timer_expires arrival-timer h
step-Moves s s' (node_reports view_id) h =
    own_step-Moves s s' (execution_reported view_id) (arrival-report view_id) h
step-Moves s s' (goroutine_runs i stable prepared) h =
    own_step-Moves s s' (task_runs i stable prepared) (arrival-task i stable prepared) h

run-append :
    (p q : PbftViewChange) (ts us : List Steps.Event)
    → Steps.run p ts ≡ some q
    → Steps.run p (ts ++ us) ≡ Steps.run q us
unfolding Steps.run
run-append p q [] us h = let same : p ≡ q = ground (arith, h) in ap (λ d. Steps.run d us) same
run-append p q (t ∷ ts) us h =
    let (r, first, on) = >>=-eq-some (Steps.step p t) _ h in rw first (run-append r q ts us on)

-- Whatever is called at a view changer and however the rounds of its loop, its timer, its node and
-- its goroutines interleave, it takes a run of its own; each message that it takes was blocked at
-- first or is of a call since then, which the service let in, and so is each that is blocked at the
-- end. A service that is not enabled at first lets no message in, and stays so.
pub run-Moves :
    (s s' : Endpoint) (es : List Event) → run s es ≡ some s' → Moves s s' (accepted es s.enabled)
unfolding run Steps.run
run-Moves s s' [] h =
    let same : s ≡ s' = ground (arith, h) in
    subst (λ q. Moves s q []) same ([], refl, (λ m at. absurd at), (λ m at. inl at), refl)
run-Moves s s' (e ∷ es) h =
    let (q, first, on) = >>=-eq-some (step s e) _ h in
    let (ts, ran, froms, others, same) = step-Moves s q e first in
    let (us, ran', froms', others', same') =
      subst (λ b. Moves q s' (accepted es b)) same (run-Moves q s' es on) in
    let here = accepted_of e s.enabled in
    let later = accepted es s.enabled in
    let back : (m : Message)
        → Among m q.callers ⊎ Among m later
        → Among m s.callers ⊎ Among m (here ++ later) =
      λ m at. elim at [
        | inr late ↦ inr (Among-right m here later late)
        | inl blocked ↦ elim (others m blocked) [
          | inl old ↦ inl old
          | inr early ↦ inr (Among-left m here later early)
        ]
      ] in
    (
      ts ++ us,
      run-append s.changer q.changer ts us ran ∙ ran',
      (λ m at. elim (Among-split (arrival m) ts us at) [
        | inl taken ↦ elim (froms m taken) [
          | inl old ↦ inl old
          | inr early ↦ inr (Among-left m here later early)
        ]
        | inr taken ↦ back m (froms' m taken)
      ]),
      (λ m at. back m (others' m at)),
      same' ∙ same,
    )

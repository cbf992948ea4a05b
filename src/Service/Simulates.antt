-- ===== src/Service/Simulates.antt =====
-- What it means that a replica's steps are steps of its node.
use adaptive_leader.Base.{
  ◌≡◌, ◌≢◌, sym, ap, ◌∙◌, subst, Bool, true, false, List, [], ◌∷◌, ◌++◌, some, inl, inr, ◌⊎◌, Among,
  Among-split, Among-left, Among-right, arith, >>=-eq-some, ◌>>=◌,
}
use adaptive_leader.Node.Defs.{Node}
use adaptive_leader.Node.Steps
use adaptive_leader.Node.Steps.{
  Input, pre_prepare, prepare, commit_vote, checkpoint, status_request, status_response,
  handle_input, take_request, get_status, request_arrives, input_arrives, disables, enables,
  task_runs, view_change_begins, new_view_arrives,
}
use adaptive_leader.Service.{Control, selecting, waiting, busy, Replica, Event, input_comes}

-- The loop waits where the node's flag says.
abbrev pub IsInStep : Control → Bool → Type 0
IsInStep selecting enabled = enabled ≡ true
IsInStep waiting enabled = enabled ≡ false
IsInStep busy enabled = Unit

-- What a step or a run of a replica is for its node: a run of some events, whose inputs were blocked
-- at first or came in the meantime, and after which the loop is where the node's flag says.
abbrev pub Simulates : Replica → Replica → List Input → Type 0
Simulates s s' comes =
    (ns : List Steps.Event) × (Steps.run s.node ns ≡ some s'.node)
    × ((m : Input) → Among (input_arrives m) ns → Among m s.senders ⊎ Among m comes)
    × ((m : Input) → Among m s'.senders → Among m s.senders ⊎ Among m comes)
    × IsInStep s'.control s'.node.enabled

abbrev pub inputs_of : Event → List Input
inputs_of (input_comes m) = m ∷ []
inputs_of e = []

-- The inputs that come in a run.
abbrev pub inputs_in : List Event → List Input
inputs_in [] = []
inputs_in (e ∷ es) = inputs_of e ++ inputs_in es

abbrev pub IsReady : Replica → Type 0
IsReady s = IsInStep s.control s.node.enabled

-- The node stays as it is.
pub rests :
    (s s' : Replica) (comes : List Input)
    → IsReady s'
    → s'.node ≡ s.node
    → ((m : Input) → Among m s'.senders → Among m s.senders ⊎ Among m comes)
    → Simulates s s' comes
unfolding Steps.run
rests s s' comes ready same others = ([], ap some (sym same), (λ m at. absurd at), others, ready)

-- The node takes one step that is not an input, and the senders stay.
pub one_step :
    (s s' : Replica) (e : Steps.Event)
    → IsReady s'
    → Steps.step s.node e ≡ some s'.node
    → ((m : Input) → input_arrives m ≢ e)
    → s'.senders ≡ s.senders
    → Simulates s s' []
unfolding Steps.run
one_step s s' e ready taken other same = (
  e ∷ [],
  (let went : (Steps.step s.node e >>= some) ≡ some s'.node = ap (λ o. o >>= some) taken in went),
  (λ m at. elim at [ inl is ↦ absurd (other m is) | inr none_left ↦ absurd none_left ]),
  (λ m at. inl (subst (Among m) same at)),
  ready,
)

run-append :
    (n q : Node) (es fs : List Steps.Event)
    → Steps.run n es ≡ some q
    → Steps.run n (es ++ fs) ≡ Steps.run q fs
unfolding Steps.run
run-append n q [] fs h = let same : n ≡ q = ground (arith, h) in ap (λ d. Steps.run d fs) same
run-append n q (e ∷ es) fs h =
    let (r, first, on) = >>=-eq-some (Steps.step n e) _ h in rw first (run-append r q es fs on)

-- One run after another.
pub then-Simulates :
    (s q s' : Replica) (xs ys : List Input)
    → Simulates s q xs
    → Simulates q s' ys
    → Simulates s s' (xs ++ ys)
then-Simulates s q s' xs ys (ns, ran, froms, others, ready) (ms, ran', froms', others', ready') =
    let back : (m : Input)
        → Among m q.senders ⊎ Among m ys
        → Among m s.senders ⊎ Among m (xs ++ ys) =
      λ m at. elim at [
        | inr late ↦ inr (Among-right m xs ys late)
        | inl blocked ↦ elim (others m blocked) [
          | inl old ↦ inl old
          | inr early ↦ inr (Among-left m xs ys early)
        ]
      ] in
    (
      ns ++ ms,
      run-append s.node q.node ns ms ran ∙ ran',
      (λ m at. elim (Among-split (input_arrives m) ns ms at) [
        | inl first ↦ elim (froms m first) [
          | inl old ↦ inl old
          | inr early ↦ inr (Among-left m xs ys early)
        ]
        | inr second ↦ back m (froms' m second)
      ]),
      (λ m at. back m (others' m at)),
      ready',
    )

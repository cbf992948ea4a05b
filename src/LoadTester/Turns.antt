-- ===== src/LoadTester/Turns.antt =====
-- Which nodes the scenario of periodic failures disables, and when.
use native.Mathlib.Nat.{mod-lt, mod-add-mod, mod_self, zero-mod}
use adaptive_leader.Base.{
  ℕ, zero, suc, ◌+◌, ◌*◌, ◌%◌, ◌<◌, ◌≡◌, refl, sym, ap, ◌∙◌, subst, true, false, not, List, [], ◌∷◌,
  ◌++◌, Option, none, some, inl, inr, GoString, length, get_elem?, get_elem?-of_lt, ◌==◌, string_eq,
  ==_refl, if◌then◌else◌, arith, Bool-cases, >>=-eq-some, ◌>>=◌,
}
use adaptive_leader.LeaderElection.{sort, insert_sorted, string_le}
use adaptive_leader.LoadTester.{
  Toggle, enables, disables, PeriodicFailure, start, call, enable_turn, disable_turn, tick, ticks,
}

-- The nodes that are down after some calls, if every call gets through.
pub toggle : Toggle → List GoString → List GoString
toggle (disables id) down = id ∷ down
toggle (enables id) down = up down
  where
    up : List GoString → List GoString
    up [] = []
    up (d ∷ ds) = let rest = up ds in if d == id then rest else d ∷ rest

unfoldable pub down_after : List Toggle → List GoString → List GoString
down_after [] down = down
down_after (t ∷ ts) down = down_after ts (toggle t down)

down_after-snoc :
    (ts : List Toggle) (t : Toggle) (down : List GoString)
    → down_after (ts ++ t ∷ []) down ≡ toggle t (down_after ts down)
unfolding down_after
down_after-snoc [] t down = refl
down_after-snoc (u ∷ ts) t down = down_after-snoc ts t (toggle u down)

disables_lem : (id : GoString) → toggle (disables id) [] ≡ id ∷ []
unfolding toggle
disables_lem id = refl

enables_undo : (id : GoString) → toggle (enables id) (toggle (disables id) []) ≡ []
unfolding toggle
enables_undo id = rw (==_refl id) refl

-- The calls of the first rounds, each of which disables and enables one node, in the order of the ids and
-- from the first again after the last.
abbrev turn : Option GoString → List Toggle
turn none = []
turn (some id) = disables id ∷ enables id ∷ []

unfoldable pub turns : List GoString → ℕ → List Toggle
turns ids zero = []
turns ids (suc k) = turns ids k ++ turn (get_elem? ids (k % length ids))

-- A state after k rounds.
record AfterRounds (ids : List GoString) (k : ℕ) (s : PeriodicFailure) : Type 0 where
  pub same_ids : s.node_ids ≡ ids
  pub next : (s.cur_idx + 1) % length ids ≡ k % length ids
  pub turn_now : s.is_enable_turn ≡ false
  pub called : s.toggles ≡ turns ids k
  pub none_down : down_after s.toggles [] ≡ []

-- The next two ticks.
record Round (ids : List GoString) (k : ℕ) (s : PeriodicFailure) : Type 0 where
  pub id : GoString
  pub at : get_elem? ids (k % length ids) ≡ some id
  pub middle : PeriodicFailure
  pub disabled : tick s ≡ some middle
  pub called : middle.toggles ≡ turns ids k ++ disables id ∷ []
  pub one_down : down_after middle.toggles [] ≡ id ∷ []
  pub last : PeriodicFailure
  pub enabled : tick middle ≡ some last
  pub after : AfterRounds ids (suc k) last

append_pair : {A : Type 0} (xs : List A) (a b : A) → (xs ++ a ∷ []) ++ b ∷ [] ≡ xs ++ a ∷ b ∷ []
append_pair [] a b = refl
append_pair (x ∷ xs) a b = ap (λ ys. x ∷ ys) (append_pair xs a b)

disable_turn_lem :
    (s : PeriodicFailure) (n i : ℕ) (id : GoString)
    → 0 < n
    → (s.cur_idx + 1) % n ≡ i
    → get_elem? s.node_ids i ≡ some id
    → disable_turn s n ≡ some (call (disables id) (record s { cur_idx = i }))
disable_turn_lem s zero i id h here at = absurd (omega (arith, h))
disable_turn_lem s (suc n) i id h here at = rw (here, at) refl

round_lem :
    (ids : List GoString) (k : ℕ) (s : PeriodicFailure)
    → 0 < length ids
    → AfterRounds ids k s
    → Round ids k s
unfolding tick turns
round_lem ids k s some_nodes v =
    let n = length ids in
    let i = k % n in
    let (id, at) = get_elem?-of_lt ids i (mod-lt k some_nodes) in
    let middle : PeriodicFailure = record {
      node_ids = s.node_ids;
      cur_idx = i;
      is_enable_turn = true;
      toggles = s.toggles ++ disables id ∷ [];
    } in
    let last : PeriodicFailure = record {
      node_ids = s.node_ids;
      cur_idx = i;
      is_enable_turn = false;
      toggles = (s.toggles ++ disables id ∷ []) ++ enables id ∷ [];
    } in
    let down = down_after-snoc s.toggles (disables id) [] ∙ ap (toggle (disables id)) v.none_down in
    let at' = subst (λ xs. get_elem? xs i ≡ some id) (sym v.same_ids) at in
    record {
      id = id;
      at = at;
      middle = middle;
      disabled =
          ap (λ b. if b then enable_turn s else disable_turn s (length s.node_ids)) v.turn_now
          ∙ ap (disable_turn s) (ap length v.same_ids)
          ∙ disable_turn_lem s n i id some_nodes v.next at'
          ∙ ap (λ b. some (record middle { is_enable_turn = not b })) v.turn_now;
      called = ap (λ ts. ts ++ disables id ∷ []) v.called;
      one_down = down ∙ disables_lem id;
      last = last;
      enabled = rw at' refl;
      after = record {
        same_ids = v.same_ids;
        next = mod-add-mod k n 1 ∙ ap (λ j. j % n) (omega arith);
        turn_now = refl;
        called =
            append_pair s.toggles (disables id) (enables id)
            ∙ ap (λ ts. ts ++ disables id ∷ enables id ∷ []) v.called
            ∙ ap (λ o. turns ids k ++ turn o) (sym at);
        none_down =
            down_after-snoc (s.toggles ++ disables id ∷ []) (enables id) []
            ∙ ap (toggle (enables id)) down
            ∙ enables_undo id;
      };
    }

ticks_snoc :
    (n : ℕ) (s q r : PeriodicFailure)
    → ticks n s ≡ some q
    → tick q ≡ some r
    → ticks (suc n) s ≡ some r
unfolding ticks
ticks_snoc zero s q r h t =
    let same : s ≡ q = ground (arith, h) in ap (λ o. o >>= some) (ap tick same ∙ t)
ticks_snoc (suc n) s q r h t =
    let (p, first, on) = >>=-eq-some (tick s) _ h in
    ap (λ o. o >>= λ x. ticks (suc n) x) first ∙ ticks_snoc n p q r on t

length-insert_sorted :
    (s : GoString) (ts : List GoString) → length (insert_sorted s ts) ≡ suc (length ts)
unfolding insert_sorted
length-insert_sorted s [] = refl
length-insert_sorted s (t ∷ ts) = elim (Bool-cases (string_le s t)) [
  | inl le ↦ rw le refl
  | inr gt ↦ rw gt (ap suc (length-insert_sorted s ts))
]

length-sort : (ss : List GoString) → length (sort ss) ≡ length ss
unfolding sort
length-sort [] = refl
length-sort (s ∷ ss) = length-insert_sorted s (sort ss) ∙ ap suc (length-sort ss)

start-AfterRounds :
    (ids : List GoString) → 0 < length (sort ids) → AfterRounds (sort ids) 0 (start ids)
unfolding start turns down_after
start-AfterRounds ids h = record {
  same_ids = refl;
  next =
      ap (λ i. i % length (sort ids)) (omega (arith, h))
      ∙ mod_self (length (sort ids))
      ∙ sym (zero-mod (length (sort ids)));
  turn_now = refl;
  called = refl;
  none_down = refl;
}

after_rounds :
    (ids : List GoString) (k : ℕ)
    → 0 < length (sort ids)
    → (s : PeriodicFailure) × (ticks (2 * k) (start ids) ≡ some s) × AfterRounds (sort ids) k s
unfolding ticks
after_rounds ids zero h = (start ids, refl, start-AfterRounds ids h)
after_rounds ids (suc k) h =
    let (s, ran, v) = after_rounds ids k h in
    let round = round_lem (sort ids) k s h v in
    let twice = ticks_snoc (2 * k) (start ids) s round.middle ran round.disabled in
    let thrice = ticks_snoc (suc (2 * k)) (start ids) round.middle round.last twice round.enabled in
    (
      round.last,
      (let same : suc (suc (2 * k)) ≡ 2 * suc k = omega arith in
          subst (λ n. ticks n (start ids) ≡ some round.last) same thrice),
      round.after,
    )

-- The scenario of periodic failures does not panic if there is a node. After 2k ticks it has
-- disabled and enabled one node k times, in the order of the sorted ids and from the first again
-- after the last, and no node is down; the next tick disables the next node, and it alone is down.
-- Calls are taken to get through.
pub one_node_is_down :
    (ids : List GoString) (k : ℕ)
    → 0 < length ids
    → (s : PeriodicFailure) × (s' : PeriodicFailure) × (id : GoString) × (ticks (2 * k) (start ids)
        ≡ some s)
      × (s.toggles ≡ turns (sort ids) k)
      × (down_after s.toggles [] ≡ [])
      × (ticks (2 * k + 1) (start ids) ≡ some s')
      × (get_elem? (sort ids) (k % length (sort ids)) ≡ some id)
      × (s'.toggles ≡ turns (sort ids) k ++ disables id ∷ [])
      × (down_after s'.toggles [] ≡ id ∷ [])
one_node_is_down ids k h =
    let h' : 0 < length (sort ids) = omega (arith, h, length-sort ids) in
    let (s, ran, v) = after_rounds ids k h' in
    let round = round_lem (sort ids) k s h' v in
    (
      s,
      round.middle,
      round.id,
      ran,
      v.called,
      v.none_down,
      (let same : suc (2 * k) ≡ 2 * k + 1 = omega arith in
          subst (λ n. ticks n (start ids) ≡ some round.middle) same
            (ticks_snoc (2 * k) (start ids) s round.middle ran round.disabled)),
      round.at,
      round.called,
      round.one_down,
    )

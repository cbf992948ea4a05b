-- ===== src/Store/Values/Laws.antt =====
-- What an operation does to the values, and what a digest keeps of them.
use mathlib.Core.Bool.{false≢true}
use adaptive_leader.Base.{
  sym, ◌≡◌, refl, ◌∙◌, ◌≢◌, [], Option, none, some, GoString, Map, lookup, insert, ◌==◌,
  if◌then◌else◌, string_eq, string_beq_iff, lookup-insert, ==_refl, ≢→==, arith, Bool-cases, inl,
  inr,
}
use adaptive_leader.Base.Int64.{Int64, IsInt64, int64, add64, sub64, sub64-add64}
use adaptive_leader.Base.Decimal.{atoi, itoa, atoi-itoa, atoi-IsInt64}
use adaptive_leader.Messages.{Operation, OperationType, OperationResult}
use adaptive_leader.Store.Values.{
  State, empty_state, value_at, operand, change, result_at, apply_operand, apply, digest,
}

-- The value that an operation should leave under its key, from the value there before.
abbrev expected : OperationType → Option Int64 → Int64 → Int64
expected OperationType.add (some n) v = add64 v n
expected OperationType.sub (some n) v = sub64 v n
expected _ _ v = v

value_at-insert :
    (key other : GoString) (n : Int64) (m : Map GoString Int64)
    → value_at other (record { value = insert key n m })
      ≡ (if key == other then n else value_at other (record { value = m }))
unfolding value_at
value_at-insert key other n m = ground (arith, lookup-insert key other n m)

value_at-change :
    (t : OperationType) (key other : GoString) (n : Int64) (s : State)
    → value_at other (change t key n s)
      ≡ (if key == other then expected t (some n) (value_at key s) else value_at other s)
unfolding change
value_at-change OperationType.get key other n s = ground (arith, string_beq_iff key other)
value_at-change OperationType.add key other n s = value_at-insert key other _ s.value
value_at-change OperationType.sub key other n s = value_at-insert key other _ s.value
value_at-change (OperationType.other k) key other n s = ground (arith, string_beq_iff key other)

expected-none :
    (t : OperationType) (v : GoString) (w : Int64) → operand t v ≡ none → w ≡ expected t (atoi v) w
unfolding operand
expected-none OperationType.get v w h = refl
expected-none OperationType.add v w h = rw h
expected-none OperationType.sub v w h = rw h
expected-none (OperationType.other k) v w h = refl

expected-some :
    (t : OperationType) (v : GoString) (n w : Int64)
    → operand t v ≡ some n
    → expected t (some n) w ≡ expected t (atoi v) w
unfolding operand
expected-some OperationType.get v n w h = refl
expected-some OperationType.add v n w h = rw h
expected-some OperationType.sub v n w h = rw h
expected-some (OperationType.other k) v n w h = refl

-- What an operation promises of the state and the result that it leaves.
abbrev pub Performs : State → Operation → State × OperationResult → Type 0
Performs s op (s', result) =
    (result.value ≡ itoa (value_at op.key s'))
    × (value_at op.key s' ≡ expected op.type (atoi op.value) (value_at op.key s))
    × ((other : GoString) → op.key ≢ other → value_at other s' ≡ value_at other s)

apply_operand-Performs :
    (s : State) (op : Operation) (o : Option Int64)
    → operand op.type op.value ≡ o
    → Performs s op (apply_operand op s o)
unfolding apply_operand result_at
apply_operand-Performs s op none h =
    (refl, expected-none op.type op.value _ h, λ other different. refl)
apply_operand-Performs s op (some n) h = (
  refl,
  value_at-change op.type op.key op.key n s
      ∙ rw (==_refl op.key) (expected-some op.type op.value n _ h),
  λ other different. value_at-change op.type op.key other n s ∙ rw (≢→== op.key other different),
)

apply-eq : (s : State) (op : Operation) → apply s op ≡ apply_operand op s (operand op.type op.value)
unfolding apply
apply-eq s op = refl

-- An operation answers with the value under its key afterwards: the old value plus or minus its
-- operand, or the old value where it changes nothing, an operand that is no number included; every
-- other key keeps its value.
pub apply-Performs : (s : State) (op : Operation) → Performs s op (apply s op)
apply-Performs s op = rw (apply-eq s op) (apply_operand-Performs s op _ refl)

-- The values are int64 numbers.
abbrev InRange : State → Type 0
InRange s = (key : GoString) → IsInt64 (value_at key s)

empty_state-InRange : InRange empty_state
unfolding empty_state value_at lookup
empty_state-InRange key = omega arith

expected-IsInt64 :
    (t : OperationType) (o : Option Int64) (v : Int64) → IsInt64 v → IsInt64 (expected t o v)
expected-IsInt64 OperationType.add (some n) v h = omega arith
expected-IsInt64 OperationType.sub (some n) v h = omega arith
expected-IsInt64 OperationType.add none v h = h
expected-IsInt64 OperationType.sub none v h = h
expected-IsInt64 OperationType.get o v h = h
expected-IsInt64 (OperationType.other k) o v h = h

-- No operation takes a value out of the range of int64.
apply-InRange : (s : State) (op : Operation) → InRange s → InRange (apply s op).0
apply-InRange s op h key =
    let (_, new, others) = apply-Performs s op in
    elim (Bool-cases (op.key == key)) [
      | inl same ↦
          rw (← (string_beq_iff op.key key).0 same)
            (rw new (expected-IsInt64 op.type (atoi op.value) _ (h op.key)))
      | inr different ↦
          rw (others key (λ e. false≢true (sym different ∙ rw e (==_refl key)))) (h key)
    ]

value_at-empty : (key : GoString) → value_at key empty_state ≡ int64 0
unfolding value_at empty_state lookup
value_at-empty key = refl

digest_lem : (s : State) → digest s ≡ itoa (value_at [] s)
unfolding digest
digest_lem s = refl

-- A state restored from the digest of another, whose value under the empty key is an int64, has
-- that value under the empty key, and 0 under all other keys.
pub restore-digest :
    (s : State) (key : GoString)
    → IsInt64 (value_at [] s)
    → let restored =
        (apply empty_state (record { type = OperationType.add; key = []; value = digest s })).0 in
      (value_at [] restored ≡ value_at [] s) × ([] ≢ key → value_at key restored ≡ int64 0)
restore-digest s key h =
    let op : Operation = record { type = OperationType.add; key = []; value = digest s } in
    let (_, new, others) = apply-Performs empty_state op in
    let read : atoi (digest s) ≡ some (value_at [] s) = rw (digest_lem s) (atoi-itoa _ h) in
    let sum : add64 (int64 0) (value_at [] s) ≡ value_at [] s = omega arith in
    (new ∙ rw (read, value_at-empty []) sum, λ different. others key different ∙ value_at-empty key)

expected_undo :
    (o : Option Int64) (v : Int64)
    → ((n : Int64) → o ≡ some n → IsInt64 n)
    → IsInt64 v
    → expected OperationType.sub o (expected OperationType.add o v) ≡ v
expected_undo none v range h = refl
expected_undo (some n) v range h = sub64-add64 v n h (range n refl)

-- In a state of int64 values, an ADD undone by a SUB of the same operand, whatever it is, leaves
-- every value as it was.
apply_undo :
    (s : State) (key text other : GoString)
    → InRange s
    → let added = (apply s (record { type = OperationType.add; key = key; value = text })).0 in
      let undone = (apply added (record { type = OperationType.sub; key = key; value = text })).0 in
      value_at other undone ≡ value_at other s
apply_undo s key text other h =
    let (_, up, up_others) =
      apply-Performs s (record { type = OperationType.add; key = key; value = text }) in
    let added = (apply s (record { type = OperationType.add; key = key; value = text })).0 in
    let (_, down, down_others) =
      apply-Performs added (record { type = OperationType.sub; key = key; value = text }) in
    elim (Bool-cases (key == other)) [
      | inl same ↦
          rw (← (string_beq_iff key other).0 same)
            (down ∙ rw up (expected_undo (atoi text) _ (atoi-IsInt64 text) (h key)))
      | inr different ↦
          let ne : key ≢ other = λ e. false≢true (sym different ∙ (string_beq_iff key other).1 e) in
          down_others other ne ∙ up_others other ne
    ]

-- ===== src/Store/Values.antt =====
-- The map of values in pbft/store.go, and the operations on it.
pub mod Laws
use adaptive_leader.Base.{
  List, [], ◌∷◌, Option, none, some, GoString, Map, lookup, insert, string_eq,
}
use adaptive_leader.Base.Int64.{Int64, int64, add64, sub64}
use adaptive_leader.Base.Decimal.{atoi, itoa}
use adaptive_leader.Messages.{Operation, OperationType, OperationResult, ClientRequest}

pub record State : Type 0 where
  pub value : Map GoString Int64

unfoldable pub empty_state : State
empty_state = record { value = [] }

-- `s.value[key]`, 0 when it is missing.
unfoldable pub value_at : GoString → State → Int64
value_at key s = elim (lookup key s.value) [ none ↦ int64 0 | some n ↦ n ]

-- The number that an operation carries: only ADD and SUB read theirs, which may fail.
pub operand : OperationType → GoString → Option Int64
operand OperationType.get v = some (int64 0)
operand OperationType.add v = atoi v
operand OperationType.sub v = atoi v
operand (OperationType.other n) v = some (int64 0)

pub change : OperationType → GoString → Int64 → State → State
change OperationType.get key n s = s
change OperationType.add key n s = record s {
  value = insert key (add64 (value_at key s) n) s.value;
}
change OperationType.sub key n s = record s {
  value = insert key (sub64 (value_at key s) n) s.value;
}
change (OperationType.other k) key n s = s

pub result_at : GoString → State → OperationResult
result_at key s = record { value = itoa (value_at key s) }

pub apply_operand : Operation → State → Option Int64 → State × OperationResult
apply_operand op s none = (s, result_at op.key s)
apply_operand op s (some n) = let s' = change op.type op.key n s in (s', result_at op.key s')

unfoldable pub apply : State → Operation → State × OperationResult
unfolding apply_operand operand change result_at value_at
apply s op = apply_operand op s (operand op.type op.value)

-- The loop over a batch of requests.
unfoldable pub apply_all : State → List ClientRequest → State × List OperationResult
apply_all s [] = (s, [])
apply_all s (r ∷ rs) =
    let (s', result) = apply s r.operation in
    let (s'', results) = apply_all s' rs in (s'', result ∷ results)

unfoldable pub digest : State → GoString
unfolding value_at
digest s = itoa (value_at [] s)

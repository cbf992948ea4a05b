-- ===== src/Base/Decimal.antt =====
-- strconv.Atoi and strconv.Itoa of Go's standard library on an int of 64 bits: what the store's
-- operations and checkpoint digests go through.
use adaptive_leader.Base.Tests.{ltb, leb, nat_beq, if◌then◌else◌, Bool-cases, tests}
use adaptive_leader.Base.Equality.{GoString}
use adaptive_leader.Base.Int64.{Int64, IsInt64, int64, negative, magnitude, is_negative}
use mathlib.Core.Path.{◌≡◌, refl, ap, ◌∙◌}
use mathlib.Core.Logic.{inl, inr}
use mathlib.Core.Bool.{Bool, true, false, ◌&&◌}
use mathlib.Core.Option.{Option, none, some}
use mathlib.Core.List.{[], ◌∷◌}
use native.Mathlib.Nat.{pow-suc}
use native.Mathlib.Omega.{arith}
use Prim.Native.Nat.{ℕ, zero, suc, ◌+◌, ◌-◌, ◌*◌, ◌/◌, ◌%◌, ◌^◌, ◌<◌, ◌≤◌}

is_digit : ℕ → Bool
is_digit c = leb b'0' c && leb c b'9'

-- The value of a run of digits, after the digits already read.
read_digits : ℕ → GoString → Option ℕ
unfolding is_digit
read_digits n [] = some n
read_digits n (c ∷ cs) =
    let rest = read_digits (n * 10 + (c - b'0')) cs in if is_digit c then rest else none

-- A number has a digit at least.
read_unsigned : GoString → Option ℕ
unfolding read_digits
read_unsigned [] = none
read_unsigned (c ∷ cs) = read_digits 0 (c ∷ cs)

in_range : Bool → Option ℕ → Option Int64
in_range minus none = none
in_range true (some n) = if leb n (2 ^ 63) then some (negative n) else none
in_range false (some n) = if ltb n (2 ^ 63) then some (int64 n) else none

-- `none` is an error: no digits, another character, or out of range.
unfoldable pub atoi : GoString → Option Int64
unfolding read_unsigned in_range
atoi [] = none
atoi (c ∷ cs) =
    if nat_beq c b'-'
    then in_range true (read_unsigned cs)
    else if nat_beq c b'+'
    then in_range false (read_unsigned cs)
    else in_range false (read_unsigned (c ∷ cs))

-- The digits of a number before the digits already written; 20 rounds write any 64-bit number.
write_digits : ℕ → ℕ → GoString → GoString
write_digits zero n cs = cs
write_digits (suc fuel) n cs =
    let rest = write_digits fuel (n / 10) ((b'0' + n % 10) ∷ cs) in
    if ltb n 10 then (b'0' + n) ∷ cs else rest

digits_of : ℕ → GoString
unfolding write_digits
digits_of n = write_digits 20 n []

unfoldable pub itoa : Int64 → GoString
unfolding digits_of
itoa a = if is_negative a then b'-' ∷ digits_of (magnitude a) else digits_of (magnitude a)

read_digits-last :
    (n : ℕ) (cs : GoString) → read_digits (n / 10) ((b'0' + n % 10) ∷ cs) ≡ read_digits n cs
unfolding read_digits
read_digits-last n cs =
    let whole : n / 10 * 10 + (b'0' + n % 10 - b'0') ≡ n = omega arith in
    ground (arith, ap (λ m. read_digits m cs) whole)

read_digits-write_digits :
    (fuel n : ℕ) (cs : GoString)
    → n < 10 ^ fuel
    → read_digits 0 (write_digits fuel n cs) ≡ read_digits n cs
unfolding read_digits write_digits
read_digits-write_digits zero n cs h = ap (λ m. read_digits m cs) (omega arith)
read_digits-write_digits (suc fuel) n cs h = elim (Bool-cases (ltb n 10)) [
  | inl small ↦ rw small (ground arith)
  | inr large ↦ rw large (
      read_digits-write_digits fuel (n / 10) ((b'0' + n % 10) ∷ cs)
        (ground (arith, pow-suc 10 fuel))
      ∙ read_digits-last n cs)
]

-- What is written begins with a digit, so it is read as it stands, behind a minus or alone.
write_digits-head :
    (fuel n : ℕ) (cs : GoString)
    → (c : ℕ) × (ds : GoString) × (write_digits (suc fuel) n cs ≡ c ∷ ds) × (b'0' ≤ c)
unfolding write_digits
write_digits-head zero n cs = elim (Bool-cases (ltb n 10)) [
  | inl small ↦ (b'0' + n, cs, rw small, omega arith)
  | inr large ↦ (b'0' + n % 10, cs, rw large, omega arith)
]
write_digits-head (suc fuel) n cs = elim (Bool-cases (ltb n 10)) [
  | inl small ↦ (b'0' + n, cs, rw small, omega arith)
  | inr large ↦
      let (c, ds, e, h) = write_digits-head fuel (n / 10) ((b'0' + n % 10) ∷ cs) in
      (c, ds, rw large e, h)
]

read_unsigned-write_digits :
    (fuel n : ℕ) → n < 10 ^ suc fuel → read_unsigned (write_digits (suc fuel) n []) ≡ some n
unfolding read_unsigned
read_unsigned-write_digits fuel n h =
    let (c, ds, e, _) = write_digits-head fuel n [] in
    let read = read_digits-write_digits (suc fuel) n [] h in rw e (rw e at read)

atoi-head :
    (c : ℕ) (cs : GoString) → b'0' ≤ c → atoi (c ∷ cs) ≡ in_range false (read_unsigned (c ∷ cs))
unfolding atoi
atoi-head c cs h = ground arith

digits_of_lem : (n : ℕ) → digits_of n ≡ write_digits 20 n []
unfolding digits_of
digits_of_lem n = refl

digits_of-head : (n : ℕ) → (c : ℕ) × (ds : GoString) × (digits_of n ≡ c ∷ ds) × (b'0' ≤ c)
digits_of-head n =
    let (c, ds, e, low) = write_digits-head 19 n [] in (c, ds, digits_of_lem n ∙ e, low)

read_unsigned-digits_of : (n : ℕ) → n ≤ 2 ^ 63 → read_unsigned (digits_of n) ≡ some n
read_unsigned-digits_of n h = rw (digits_of_lem n) (read_unsigned-write_digits 19 n (omega arith))

atoi-digits_of : (n : ℕ) → n < 2 ^ 63 → atoi (digits_of n) ≡ some (int64 n)
unfolding in_range
atoi-digits_of n h =
    let (c, ds, e, low) = digits_of-head n in
    let read = read_unsigned-digits_of n (omega arith) in
    rw e (rw (atoi-head c ds low) (rw (rw e at read) (ground arith)))

atoi-minus : (cs : GoString) → atoi (b'-' ∷ cs) ≡ in_range true (read_unsigned cs)
unfolding atoi
atoi-minus cs = refl

atoi-minus_digits_of : (n : ℕ) → n ≤ 2 ^ 63 → atoi (b'-' ∷ digits_of n) ≡ some (negative n)
unfolding in_range
atoi-minus_digits_of n h =
    rw (atoi-minus (digits_of n)) (rw (read_unsigned-digits_of n h) (ground arith))

itoa-nonnegative : (a : Int64) → is_negative a ≡ false → itoa a ≡ digits_of (magnitude a)
unfolding itoa
itoa-nonnegative a h = rw h

itoa-negative : (a : Int64) → is_negative a ≡ true → itoa a ≡ b'-' ∷ digits_of (magnitude a)
unfolding itoa
itoa-negative a h = rw h

-- Reading back what was written gives the number.
pub atoi-itoa : (a : Int64) → IsInt64 a → atoi (itoa a) ≡ some a
atoi-itoa a h = elim (Bool-cases (is_negative a)) [
  | inl minus ↦
      rw (itoa-negative a minus)
        (atoi-minus_digits_of (magnitude a) (omega tests) ∙ ap some (omega tests))
  | inr plus ↦
      rw (itoa-nonnegative a plus)
        (atoi-digits_of (magnitude a) (omega tests) ∙ ap some (omega tests))
]

in_range-IsInt64 : (minus : Bool) (o : Option ℕ) (a : Int64) → in_range minus o ≡ some a → IsInt64 a
unfolding in_range
in_range-IsInt64 minus none a h = cc
in_range-IsInt64 true (some n) a h = ground arith
in_range-IsInt64 false (some n) a h = ground arith

-- A number that is read is in range.
pub atoi-IsInt64 : (s : GoString) (a : Int64) → atoi s ≡ some a → IsInt64 a
unfolding atoi
atoi-IsInt64 [] a h = cc
atoi-IsInt64 (c ∷ cs) a h = ground (
  arith,
  in_range-IsInt64 true (read_unsigned cs) a,
  in_range-IsInt64 false (read_unsigned cs) a,
  in_range-IsInt64 false (read_unsigned (c ∷ cs)) a,
)

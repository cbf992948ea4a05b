-- ===== src/Base/Equality.antt =====
-- Go's `==` as an interface: on numbers and on strings.
use Prim.Native.Nat.{ℕ}
use Prim.Native.Char.{code}
use Prim.Native.String.{String}
use mathlib.Core.Path.{◌≡◌, refl}
use mathlib.Core.Logic.{◌↔◌, ◌≢◌, inl, inr}
use mathlib.Core.Bool.{Bool, true, false}
use mathlib.Core.List.{List, [], ◌∷◌}
use native.Mathlib.Omega.{arith}
use adaptive_leader.Base.Tests.{if◌then◌else◌, nat_beq, nat_beq_iff, Bool-cases}

-- A comparison that decides equality.
pub record HasEq {ℓ} (K : Type ℓ) : Type ℓ where
  pub same : (a b : K) → Bool
  pub same_iff : (a b : K) → (same a b ≡ true) ↔ (a ≡ b)

infix 50 ◌==◌
abbrev pub ◌==◌ {ℓ} : {K : Type ℓ} ⦃keys : HasEq K⦄ (a b : K) → Bool
◌==◌ ⦃keys⦄ a b = keys.same a b

pub ==_refl {ℓ} : {A : Type ℓ} ⦃e : HasEq A⦄ (a : A) → (a == a) ≡ true
==_refl ⦃e⦄ a = (e.same_iff a a).1 refl

pub ≢→== {ℓ} : {A : Type ℓ} ⦃e : HasEq A⦄ (a b : A) → a ≢ b → (a == b) ≡ false
≢→== ⦃e⦄ a b h = elim (Bool-cases (a == b)) [
  | inl same ↦ absurd (h ((e.same_iff a b).0 same))
  | inr different ↦ different
]

-- A Go string is the list of its bytes.
abbrev pub GoString : Type 0
GoString = List ℕ

-- An ASCII literal.
abbrev pub codes : String → GoString
codes String.[] = []
codes (String.◌∷◌ letter letters) = code letter ∷ codes letters

abbrev pub string_beq : GoString → GoString → Bool
string_beq [] [] = true
string_beq (x ∷ xs) (y ∷ ys) = let rest = string_beq xs ys in if nat_beq x y then rest else false
string_beq _ _ = false

pub string_beq_iff : (s t : GoString) → (string_beq s t ≡ true) ↔ (s ≡ t)
string_beq_iff [] [] = ground arith
string_beq_iff [] (y ∷ ys) = ground arith
string_beq_iff (x ∷ xs) [] = ground arith
string_beq_iff (x ∷ xs) (y ∷ ys) = ground (arith, string_beq_iff xs ys)

instance abbrev pub nat_eq : HasEq ℕ
nat_eq = record { same = nat_beq; same_iff = nat_beq_iff }

instance abbrev pub string_eq : HasEq GoString
string_eq = record { same = string_beq; same_iff = string_beq_iff }

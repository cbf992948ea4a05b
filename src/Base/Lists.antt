-- ===== src/Base/Lists.antt =====
-- Lists measured and indexed by native numbers, under the library's names.
use Prim.Native.Nat.{ℕ, zero, suc, ◌+◌, ◌≤◌, ◌<◌}
use mathlib.Core.Path.{◌≡◌, refl, ap, sym, subst}
use mathlib.Core.Logic.{◌≢◌, ◌⊎◌, inl, inr}
use mathlib.Core.Bool.{Bool, true, false}
use mathlib.Core.List.{List, [], ◌∷◌, ◌++◌}
use mathlib.Core.Option.{Option, none, some}
use native.Mathlib.Omega.{arith}
use adaptive_leader.Base.Tests.{if◌then◌else◌, Option-cases}

module _ {ℓ} {A : Type ℓ} where
  abbrev pub length : List A → ℕ
  length [] = 0
  length (x ∷ xs) = suc (length xs)

  abbrev pub get_elem? : List A → ℕ → Option A
  get_elem? [] i = none
  get_elem? (x ∷ xs) zero = some x
  get_elem? (x ∷ xs) (suc i) = get_elem? xs i

  -- A write out of bounds changes nothing.
  abbrev pub set : List A → ℕ → A → List A
  set [] i v = []
  set (x ∷ xs) zero v = v ∷ xs
  set (x ∷ xs) (suc i) v = x ∷ set xs i v

  -- The entries that pass a test.
  abbrev pub keep : (A → Bool) → List A → List A
  keep p [] = []
  keep p (x ∷ xs) = let rest = keep p xs in if p x then x ∷ rest else rest

  abbrev pub any : (A → Bool) → List A → Bool
  any p [] = false
  any p (x ∷ xs) = let rest = any p xs in if p x then true else rest

  abbrev pub All {κ} : (A → Type κ) → List A → Type κ
  All P [] = Unit
  All P (x ∷ xs) = P x × All P xs

  -- The element at a place, and the others.
  abbrev pub take_at : ℕ → List A → Option (A × List A)
  take_at i [] = none
  take_at zero (x ∷ xs) = some (x, xs)
  take_at (suc i) (x ∷ xs) =
      let later = take_at i xs in elim later [ none ↦ none | some (y, rest) ↦ some (y, x ∷ rest) ]

  pub length-append : (xs ys : List A) → length (xs ++ ys) ≡ length xs + length ys
  length-append [] ys = omega arith
  length-append (x ∷ xs) ys = omega (arith, length-append xs ys)

module _ {ℓ} {A : Type ℓ} where
  pub length-set : (xs : List A) (i : ℕ) (v : A) → length (set xs i v) ≡ length xs
  length-set [] i v = refl
  length-set (x ∷ xs) zero v = refl
  length-set (x ∷ xs) (suc i) v = ap suc (length-set xs i v)

  get_elem?-set_self :
      (xs : List A) (i : ℕ) (v : A) → i < length xs → get_elem? (set xs i v) i ≡ some v
  get_elem?-set_self [] i v h = elim h [ ]
  get_elem?-set_self (x ∷ xs) zero v h = refl
  get_elem?-set_self (x ∷ xs) (suc i) v h = get_elem?-set_self xs i v (omega arith)

  get_elem?-set_ne :
      (xs : List A) {i j : ℕ} (v : A) → i ≢ j → get_elem? (set xs i v) j ≡ get_elem? xs j
  get_elem?-set_ne [] v h = refl
  get_elem?-set_ne (x ∷ xs) {i = zero} {j = zero} v h = absurd (h refl)
  get_elem?-set_ne (x ∷ xs) {i = zero} {j = suc j} v h = refl
  get_elem?-set_ne (x ∷ xs) {i = suc i} {j = zero} v h = refl
  get_elem?-set_ne (x ∷ xs) {i = suc i} {j = suc j} v h = get_elem?-set_ne xs v (λ e. h (ap suc e))

  pub get_elem?-append_length :
      (xs : List A) (v : A) → get_elem? (xs ++ v ∷ []) (length xs) ≡ some v
  get_elem?-append_length [] v = refl
  get_elem?-append_length (x ∷ xs) v = get_elem?-append_length xs v

  pub get_elem?-of_lt : (xs : List A) (i : ℕ) → i < length xs → (v : A) × (get_elem? xs i ≡ some v)
  get_elem?-of_lt [] i h = elim h [ ]
  get_elem?-of_lt (x ∷ xs) zero h = (x, refl)
  get_elem?-of_lt (x ∷ xs) (suc i) h = get_elem?-of_lt xs i (omega arith)

  length-keep-le : (p : A → Bool) (xs : List A) → length (keep p xs) ≤ length xs
  length-keep-le p [] = omega arith
  length-keep-le p (x ∷ xs) = ground (arith, length-keep-le p xs)

-- A value stands in a list.
abbrev pub Among : {A : Type 0} → A → List A → Type 0
Among a [] = ⊥
Among a (x ∷ xs) = (a ≡ x) ⊎ Among a xs

-- A value of a list has a property.
abbrev pub Any : {A : Type 0} → (A → Type 0) → List A → Type 0
Any P [] = ⊥
Any P (x ∷ xs) = P x ⊎ Any P xs

pub All-append {ℓ κ} :
    {A : Type ℓ} (P : A → Type κ) (xs ys : List A) → All P xs → All P ys → All P (xs ++ ys)
All-append P [] ys h k = k
All-append P (x ∷ xs) ys h k = (h.0, All-append P xs ys h.1 k)

pub Among-All : {A : Type 0} (P : A → Type 0) (a : A) (xs : List A) → Among a xs → All P xs → P a
Among-All P a [] at all = absurd at
Among-All P a (x ∷ xs) (inl e) all = subst P (sym e) all.0
Among-All P a (x ∷ xs) (inr at) all = Among-All P a xs at all.1

pub take_at-Among :
    {A : Type 0} (i : ℕ) (xs rest : List A) (a : A)
    → take_at i xs ≡ some (a, rest)
    → Among a xs × ((b : A) → Among b rest → Among b xs)
take_at-Among i [] rest a h = absurd (ground arith)
take_at-Among zero (x ∷ xs) rest a h =
    let same : x ≡ a = ground arith in
    let left : xs ≡ rest = ground arith in
    (inl (sym same), λ b at. inr (subst (Among b) (sym left) at))
take_at-Among (suc i) (x ∷ xs) rest a h = elim (Option-cases (take_at i xs)) [
  | inl e ↦ absurd (ground arith)
  | inr ((y, later), e) ↦
      let (here, others) = take_at-Among i xs later y e in
      let same : y ≡ a = ground arith in
      let kept : x ∷ later ≡ rest = ground arith in
      (
        inr (subst (λ b. Among b xs) same here),
        λ b at. elim (subst (Among b) (sym kept) at) [
          | inl is ↦ inl is
          | inr at' ↦ inr (others b at')
        ],
      )
]

pub take_at-All :
    {A : Type 0} (P : A → Type 0) (i : ℕ) (xs rest : List A) (a : A)
    → All P xs
    → take_at i xs ≡ some (a, rest)
    → P a × All P rest
take_at-All P i [] rest a all h = absurd (ground arith)
take_at-All P zero (x ∷ xs) rest a all h =
    (subst P (ground arith) all.0, subst (All P) (ground arith) all.1)
take_at-All P (suc i) (x ∷ xs) rest a all h = elim (Option-cases (take_at i xs)) [
  | inl e ↦ absurd (ground arith)
  | inr ((y, later), e) ↦
      let (here, others) = take_at-All P i xs later y all.1 e in
      let same : y ≡ a = ground arith in
      let kept : x ∷ later ≡ rest = ground arith in
      (subst P same here, subst (All P) kept (all.0, others))
]

pub Among-split :
    {A : Type 0} (a : A) (xs ys : List A) → Among a (xs ++ ys) → Among a xs ⊎ Among a ys
Among-split a [] ys at = inr at
Among-split a (x ∷ xs) ys (inl is) = inl (inl is)
Among-split a (x ∷ xs) ys (inr later) = elim (Among-split a xs ys later) [
  | inl here ↦ inl (inr here)
  | inr there ↦ inr there
]

pub Among-left : {A : Type 0} (a : A) (xs ys : List A) → Among a xs → Among a (xs ++ ys)
Among-left a [] ys at = absurd at
Among-left a (x ∷ xs) ys (inl is) = inl is
Among-left a (x ∷ xs) ys (inr later) = inr (Among-left a xs ys later)

pub Among-right : {A : Type 0} (a : A) (xs ys : List A) → Among a ys → Among a (xs ++ ys)
Among-right a [] ys at = at
Among-right a (x ∷ xs) ys at = inr (Among-right a xs ys at)

module _ {ℓ} {A : Type ℓ} where
  pub get_elem?-append :
      (xs ys : List A) (i : ℕ) (v : A) → get_elem? xs i ≡ some v → get_elem? (xs ++ ys) i ≡ some v
  get_elem?-append [] ys i v h = cc
  get_elem?-append (x ∷ xs) ys zero v h = h
  get_elem?-append (x ∷ xs) ys (suc i) v h = get_elem?-append xs ys i v h

  pub get_elem?-lt : (xs : List A) (i : ℕ) (v : A) → get_elem? xs i ≡ some v → i < length xs
  get_elem?-lt [] i v h = cc
  get_elem?-lt (x ∷ xs) zero v h = omega arith
  get_elem?-lt (x ∷ xs) (suc i) v h = omega (arith, get_elem?-lt xs i v h)

  -- An entry of a list with one more at its end.
  pub get_elem?-snoc :
      (xs : List A) (x v : A) (i : ℕ)
      → get_elem? (xs ++ x ∷ []) i ≡ some v
      → (get_elem? xs i ≡ some v) ⊎ ((i ≡ length xs) × (x ≡ v))
  get_elem?-snoc [] x v zero h = inr (refl, ground (arith, h))
  get_elem?-snoc [] x v (suc i) h = inl h
  get_elem?-snoc (y ∷ xs) x v zero h = inl h
  get_elem?-snoc (y ∷ xs) x v (suc i) h = elim (get_elem?-snoc xs x v i h) [
    | inl e ↦ inl e
    | inr (e, same) ↦ inr (ap suc e, same)
  ]

  pub get_elem?-set :
      (xs : List A) (i j : ℕ) (x v : A)
      → get_elem? (set xs i x) j ≡ some v
      → (get_elem? xs j ≡ some v) ⊎ ((i ≡ j) × (x ≡ v))
  get_elem?-set [] i j x v h = inl h
  get_elem?-set (y ∷ xs) zero zero x v h = inr (refl, ground (arith, h))
  get_elem?-set (y ∷ xs) zero (suc j) x v h = inl h
  get_elem?-set (y ∷ xs) (suc i) zero x v h = inl h
  get_elem?-set (y ∷ xs) (suc i) (suc j) x v h = elim (get_elem?-set xs i j x v h) [
    | inl e ↦ inl e
    | inr (e, same) ↦ inr (ap suc e, same)
  ]

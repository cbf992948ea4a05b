-- ===== src/Base/Maps.antt =====
-- Go maps as association lists. The list's order stands for the order in which `range` visits the
-- map, which Go leaves open: what is proved for every list holds for every order.
use Prim.Native.Nat.{suc, ◌+◌, ◌≤◌}
use mathlib.Core.Path.{◌≡◌, refl, sym, ap, subst}
use mathlib.Core.Logic.{inl, inr}
use mathlib.Core.Bool.{Bool, true, false}
use mathlib.Core.Option.{Option, none, some}
use mathlib.Core.List.{List, [], ◌∷◌}
use native.Mathlib.Omega.{arith}
use adaptive_leader.Base.Tests.{if◌then◌else◌, Bool-cases, is_some}
use adaptive_leader.Base.Lists.{length, All}
use adaptive_leader.Base.Equality.{HasEq, ◌==◌, ==_refl}

abbrev pub Map {ℓ κ} : Type ℓ → Type κ → Type (ℓ ⊔ κ)
Map K V = List (K × V)

module _ {ℓ κ} {K : Type ℓ} {V : Type κ} ⦃e : HasEq K⦄ where
  unfoldable pub lookup : K → Map K V → Option V
  lookup key [] = none
  lookup key ((i, w) ∷ rest) = if i == key then some w else lookup key rest

  -- m[k] = v
  unfoldable pub insert : K → V → Map K V → Map K V
  insert key v [] = (key, v) ∷ []
  insert key v ((i, w) ∷ rest) = if i == key then (i, v) ∷ rest else (i, w) ∷ insert key v rest

  -- delete(m, k)
  unfoldable pub delete : K → Map K V → Map K V
  delete k [] = []
  delete k ((j, v) ∷ m) = if j == k then delete k m else (j, v) ∷ delete k m

  -- `_, ok := m[k]`
  unfoldable pub contains : K → Map K V → Bool
  contains k [] = false
  contains k ((j, v) ∷ m) = if j == k then true else contains k m

  -- `for k, v := range m { if test(k, v) { delete(m, k) } }`
  unfoldable pub delete_if : (K → V → Bool) → Map K V → Map K V
  delete_if test [] = []
  delete_if test ((j, v) ∷ m) = if test j v then delete_if test m else (j, v) ∷ delete_if test m

  abbrev pub values : Map K V → List V
  values [] = []
  values ((j, v) ∷ m) = v ∷ values m

  abbrev pub keys : Map K V → List K
  keys [] = []
  keys ((j, v) ∷ m) = j ∷ keys m

  pub length-keys : (m : Map K V) → length (keys m) ≡ length m
  length-keys [] = refl
  length-keys ((j, v) ∷ m) = ap suc (length-keys m)

  -- No key stands twice, as in every Go map.
  abbrev pub HasDistinctKeys : Map K V → Type 0
  HasDistinctKeys [] = Unit
  HasDistinctKeys ((j, v) ∷ m) = (contains j m ≡ false) × HasDistinctKeys m

  pub lookup-insert :
      (key other : K) (v : V) (m : Map K V)
      → lookup other (insert key v m) ≡ (if key == other then some v else lookup other m)
  unfolding lookup insert
  lookup-insert key other v [] = refl
  lookup-insert key other v ((i, w) ∷ rest) =
      let at_key = e.same_iff i key in
      let at_other = e.same_iff i other in
      ground (arith, lookup-insert key other v rest, at_key, at_other, e.same_iff key other)

  pub lookup-insert_self : (k : K) (v : V) (m : Map K V) → lookup k (insert k v m) ≡ some v
  lookup-insert_self k v m = simp (lookup-insert, ==_refl)

  pub lookup-delete :
      (k j : K) (m : Map K V) → lookup j (delete k m) ≡ (if k == j then none else lookup j m)
  unfolding lookup delete
  lookup-delete k j [] = ground arith
  lookup-delete k j ((i, w) ∷ m) =
      ground (arith, e.same_iff k j, e.same_iff i k, e.same_iff i j, lookup-delete k j m)

  -- Deleting by a test on the key.
  pub lookup-delete_if :
      (test : K → Bool) (k : K) (m : Map K V)
      → lookup k (delete_if (λ j _. test j) m) ≡ (if test k then none else lookup k m)
  unfolding lookup delete_if
  lookup-delete_if test k [] = ground arith
  lookup-delete_if test k ((j, v) ∷ m) = elim (Bool-cases (j == k)) [
    | inl hit ↦
        let same = ap test ((e.same_iff j k).0 hit) in
        ground (arith, hit, same, lookup-delete_if test k m)
    | inr miss ↦ ground (arith, miss, lookup-delete_if test k m)
  ]

  pub contains-lookup : (k : K) (m : Map K V) → contains k m ≡ is_some (lookup k m)
  unfolding lookup contains
  contains-lookup k [] = refl
  contains-lookup k ((j, v) ∷ m) = ground (arith, contains-lookup k m)

  pub contains-insert :
      (k j : K) (v : V) (m : Map K V)
      → contains j (insert k v m) ≡ (if k == j then true else contains j m)
  unfolding contains insert
  contains-insert k j v [] = refl
  contains-insert k j v ((i, w) ∷ m) =
      ground (arith, e.same_iff k j, e.same_iff i k, e.same_iff i j, contains-insert k j v m)

  pub length-insert :
      (k : K) (v : V) (m : Map K V)
      → length (insert k v m) ≡ (if contains k m then length m else length m + 1)
  unfolding insert contains
  length-insert k v [] = refl
  length-insert k v ((j, w) ∷ m) = ground (arith, length-insert k v m)

  pub length-insert_pos : (k : K) (v : V) (m : Map K V) → 1 ≤ length (insert k v m)
  unfolding insert
  length-insert_pos k v [] = omega arith
  length-insert_pos k v ((j, w) ∷ m) = ground arith

  pub length-delete_if : (test : K → V → Bool) (m : Map K V) → length (delete_if test m) ≤ length m
  unfolding delete_if
  length-delete_if test [] = omega arith
  length-delete_if test ((j, v) ∷ m) = ground (arith, length-delete_if test m)

  contains-delete_if :
      (test : K → V → Bool) (k : K) (m : Map K V)
      → contains k m ≡ false
      → contains k (delete_if test m) ≡ false
  unfolding contains delete_if
  contains-delete_if test k [] h = refl
  contains-delete_if test k ((j, v) ∷ m) h = ground (arith, contains-delete_if test k m)

  pub insert-HasDistinctKeys :
      (k : K) (v : V) (m : Map K V) → HasDistinctKeys m → HasDistinctKeys (insert k v m)
  unfolding insert contains
  insert-HasDistinctKeys k v [] h = (refl, tt)
  insert-HasDistinctKeys k v ((j, w) ∷ m) h =
      ground (
        arith,
        insert-HasDistinctKeys k v m,
        contains-insert k j v m,
        e.same_iff j k,
        e.same_iff k j,
      )

  pub delete_if-HasDistinctKeys :
      (test : K → V → Bool) (m : Map K V) → HasDistinctKeys m → HasDistinctKeys (delete_if test m)
  unfolding delete_if
  delete_if-HasDistinctKeys test [] h = tt
  delete_if-HasDistinctKeys test ((j, v) ∷ m) h =
      ground (arith, delete_if-HasDistinctKeys test m h.1, contains-delete_if test j m h.0)

module _ {ℓ κ μ} {K : Type ℓ} {V : Type κ} ⦃e : HasEq K⦄ (P : K × V → Type μ) where
  pub All-insert : (k : K) (v : V) (m : Map K V) → P (k, v) → All P m → All P (insert k v m)
  unfolding insert
  All-insert k v [] p h = (p, tt)
  All-insert k v ((j, w) ∷ m) p h = elim (Bool-cases (j == k)) [
    | inl hit ↦ rw hit (subst (λ i. P (i, v)) (sym ((e.same_iff j k).0 hit)) p, h.1)
    | inr miss ↦ rw miss (h.0, All-insert k v m p h.1)
  ]

  pub All-lookup : (k : K) (v : V) (m : Map K V) → lookup k m ≡ some v → All P m → P (k, v)
  unfolding lookup
  All-lookup k v [] q h = cc
  All-lookup k v ((j, w) ∷ m) q h = elim (Bool-cases (j == k)) [
    | inl hit ↦
        let same : w ≡ v = ground (arith, hit) in
        subst (λ i. P (i, v)) ((e.same_iff j k).0 hit) (subst (λ u. P (j, u)) same h.0)
    | inr miss ↦ All-lookup k v m (ground (arith, miss)) h.1
  ]

  -- What stays failed the test.
  pub All-delete_if :
      (test : K → V → Bool) (m : Map K V)
      → All P m
      → All (λ e. P e × (test e.0 e.1 ≡ false)) (delete_if test m)
  unfolding delete_if
  All-delete_if test [] h = tt
  All-delete_if test ((j, v) ∷ m) h = elim (Bool-cases (test j v)) [
    | inl gone ↦ rw gone (All-delete_if test m h.1)
    | inr kept ↦ rw kept ((h.0, kept), All-delete_if test m h.1)
  ]

pub All-mono {ℓ κ μ} :
    {A : Type ℓ} (P : A → Type κ) (Q : A → Type μ) (imp : (a : A) → P a → Q a) (xs : List A)
    → All P xs
    → All Q xs
All-mono P Q imp [] h = tt
All-mono P Q imp (x ∷ xs) h = (imp x h.0, All-mono P Q imp xs h.1)

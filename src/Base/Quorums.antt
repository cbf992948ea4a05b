-- ===== src/Base/Quorums.antt =====
-- Maps whose keys stand in one list have keys in common, if they are large enough.
use Prim.Native.Nat.{suc, ◌+◌, ◌≤◌, ◌<◌}
use mathlib.Core.Path.{◌≡◌, refl, sym, ap, subst}
use mathlib.Core.Logic.{◌⊎◌, inl, inr}
use mathlib.Core.Bool.{Bool, true, false, not}
use mathlib.Core.List.{List, [], ◌∷◌}
use native.Mathlib.Omega.{arith}
use adaptive_leader.Base.Tests.{if◌then◌else◌, Bool-cases}
use adaptive_leader.Base.Lists.{length, All, Among}
use adaptive_leader.Base.Equality.{HasEq, ◌==◌}
use adaptive_leader.Base.Maps.{
  Map, keys, length-keys, contains, delete_if, HasDistinctKeys, delete_if-HasDistinctKeys,
}

module _ {K : Type 0} ⦃e : HasEq K⦄ where
  -- A list without one occurrence of a value.
  without : K → List K → List K
  without a [] = []
  without a (u ∷ us) = if u == a then us else u ∷ without a us

  length-without : (a : K) (us : List K) → Among a us → length us ≡ suc (length (without a us))
  unfolding without
  length-without a [] at = absurd at
  length-without a (u ∷ us) at = elim (Bool-cases (u == a)) [
    | inl hit ↦ rw (hit, without) refl
    | inr miss ↦ elim at [
      | inl is ↦ absurd (ground (arith, (e.same_iff u a).1 (sym is)))
      | inr later ↦ rw (miss, without) (ap suc (length-without a us later))
    ]
  ]

  Among-without : (a b : K) (us : List K) → (b == a) ≡ false → Among b us → Among b (without a us)
  unfolding without
  Among-without a b [] other at = absurd at
  Among-without a b (u ∷ us) other at = elim (Bool-cases (u == a)) [
    | inl hit ↦ elim at [
      | inl is ↦ absurd (ground (arith, subst (λ i. (i == a) ≡ false) is other))
      | inr later ↦ rw (hit, without) later
    ]
    | inr miss ↦ elim at [
      | inl is ↦ rw (miss, without) (inl is)
      | inr later ↦ rw (miss, without) (inr (Among-without a b us other later))
    ]
  ]

  among? : (a : K) (us : List K) → Among a us ⊎ (Among a us → ⊥)
  among? a [] = inr (λ at. at)
  among? a (u ∷ us) = elim (Bool-cases (a == u)) [
    | inl hit ↦ inl (inl ((e.same_iff a u).0 hit))
    | inr miss ↦ elim (among? a us) [
      | inl later ↦ inl (inr later)
      | inr never ↦ inr (λ at. elim at [
        | inl is ↦ absurd (ground (arith, (e.same_iff a u).1 is))
        | inr later ↦ never later
      ])
    ]
  ]

  module _ {V : Type 0} where
    abbrev pub KeysAmong : List K → Map K V → Type 0
    KeysAmong us m = All (λ (p : K × V). Among p.0 us) m

    -- A key that is not of a map is taken from a list that has its keys.
    KeysAmong-without :
        (a : K) (us : List K) (m : Map K V)
        → contains a m ≡ false
        → KeysAmong us m
        → KeysAmong (without a us) m
    unfolding contains
    KeysAmong-without a us [] absent h = tt
    KeysAmong-without a us ((k, v) ∷ m) absent h =
        let other : (k == a) ≡ false = ground arith in
        let rest : contains a m ≡ false = ground arith in
        (Among-without a k us other h.0, KeysAmong-without a us m rest h.1)

    length_distinct :
        (us : List K) (m : Map K V) → HasDistinctKeys m → KeysAmong us m → length m ≤ length us
    length_distinct us [] distinct h = omega arith
    length_distinct us ((k, v) ∷ m) distinct h =
        let shorter =
          length_distinct (without k us) m distinct.1 (KeysAmong-without k us m distinct.0 h.1) in
        omega (arith, shorter, length-without k us h.0)

    Among-delete_if :
        (test : K → V → Bool) (p : K × V) (m : Map K V)
        → Among p (delete_if test m)
        → Among p m × (test p.0 p.1 ≡ false)
    unfolding delete_if
    Among-delete_if test p [] at = absurd at
    Among-delete_if test p ((k, v) ∷ m) at = elim (Bool-cases (test k v)) [
      | inl gone ↦
          let (later, fails) = Among-delete_if test p m (rw (gone, delete_if) at at) in
          (inr later, fails)
      | inr kept ↦ elim (rw (kept, delete_if) at at) [
        | inl is ↦ (inl is, subst (λ (q : K × V). test q.0 q.1 ≡ false) (sym is) kept)
        | inr later ↦ let (later', fails) = Among-delete_if test p m later in (inr later', fails)
      ]
    ]

    -- More keys than a list is long: one of them is not in it.
    pub one_outside :
        (us : List K) (m : Map K V)
        → HasDistinctKeys m
        → length us < length m
        → (p : K × V) × Among p m × (Among p.0 us → ⊥)
    one_outside us m distinct many = elim (search_outside m) [
      | inl all ↦ absurd (omega (arith, length_distinct us m distinct all, many))
      | inr one ↦ one
    ]
      where
        search_outside :
            (rest : Map K V) → KeysAmong us rest ⊎ ((p : K × V) × Among p rest × (Among p.0 us → ⊥))
        search_outside [] = inl tt
        search_outside (p ∷ rest) = elim (among? p.0 us) [
          | inr never ↦ inr (p, inl refl, never)
          | inl here ↦ elim (search_outside rest) [
            | inl all ↦ inl (here, all)
            | inr (q, at, never) ↦ inr (q, inr at, never)
          ]
        ]

  module _ {W : Type 0} where
    contains_entry : (k : K) (m : Map K W) → contains k m ≡ true → (w : W) × Among (k, w) m
    unfolding contains
    contains_entry k [] h = absurd (ground arith)
    contains_entry k ((j, w) ∷ m) h = elim (Bool-cases (j == k)) [
      | inl hit ↦ (w, inl (ap (λ i. (i, w)) (sym ((e.same_iff j k).0 hit))))
      | inr miss ↦ let (u, at) = contains_entry k m (ground (arith, miss)) in (u, inr at)
    ]

  contains-keys : {W : Type 0} (k : K) (m : Map K W) → contains k m ≡ true → Among k (keys m)
  unfolding contains
  contains-keys k [] h = absurd (ground arith)
  contains-keys k ((j, w) ∷ m) h = elim (Bool-cases (j == k)) [
    | inl hit ↦ inl (sym ((e.same_iff j k).0 hit))
    | inr miss ↦ inr (contains-keys k m (ground (arith, miss)))
  ]

  module _ {V W : Type 0} (m' : Map K W) where
    KeysAmong-keys :
        (m : Map K V)
        → ((k : K) → contains k m ≡ true → contains k m' ≡ true)
        → KeysAmong (keys m') m
    unfolding contains
    KeysAmong-keys [] h = tt
    KeysAmong-keys ((k, v) ∷ m) h =
        let here : contains k ((k, v) ∷ m) ≡ true = rw ((e.same_iff k k).1 refl, contains) refl in
        (
          contains-keys k m' (h k here),
          KeysAmong-keys m (λ j at. h j (elim (Bool-cases (k == j)) [
            | inl hit ↦ rw (hit, contains) refl
            | inr miss ↦ rw (miss, contains) at
          ])),
        )

    -- A map with all the keys of another is as long, at least.
    pub length_mono :
        (m : Map K V)
        → HasDistinctKeys m
        → ((k : K) → contains k m ≡ true → contains k m' ≡ true)
        → length m ≤ length m'
    length_mono m distinct h =
        omega (arith, length_distinct (keys m') m distinct (KeysAmong-keys m h), length-keys m')

  module _ {V W : Type 0} where
    -- The entries of a map whose keys another map has too.
    abbrev pub common : Map K V → Map K W → Map K V
    common m m' = delete_if (λ k _. not (contains k m')) m

    -- Two maps share at least as many keys as they have more, together, than a list that has both's.
    pub length-common :
        (us : List K) (m : Map K V) (m' : Map K W)
        → HasDistinctKeys m
        → HasDistinctKeys m'
        → KeysAmong us m
        → KeysAmong us m'
        → length m + length m' ≤ length us + length (common m m')
    unfolding delete_if
    length-common us [] m' d d' h h' = omega (arith, length_distinct us m' d' h')
    length-common us ((k, v) ∷ m) m' d d' h h' = elim (Bool-cases (contains k m')) [
      | inl shared ↦
          let shorter = length-common us m m' d.1 d' h.1 h' in
          rw (shared, delete_if) (omega (arith, shorter))
      | inr alone ↦
          let less = KeysAmong-without k us m d.0 h.1 in
          let less' = KeysAmong-without k us m' alone h' in
          let shorter = length-common (without k us) m m' d.1 d' less less' in
          rw (alone, delete_if) (omega (arith, shorter, length-without k us h.0))
    ]

    -- If they share more than there are keys to leave aside, they share another one.
    pub quorums_meet :
        (us faulty : List K) (m : Map K V) (m' : Map K W)
        → HasDistinctKeys m
        → HasDistinctKeys m'
        → KeysAmong us m
        → KeysAmong us m'
        → length us + length faulty < length m + length m'
        → (k : K) × (v : V) × (w : W) × Among (k, v) m × Among (k, w) m' × (Among k faulty → ⊥)
    quorums_meet us faulty m m' d d' h h' many =
        let shared = common m m' in
        let enough : length faulty < length shared =
          omega (arith, length-common us m m' d d' h h', many) in
        let ((k, v), at, honest) =
          one_outside faulty shared (delete_if-HasDistinctKeys _ m d) enough in
        let (here, fails) = Among-delete_if _ (k, v) m at in
        let (w, there) = contains_entry k m' (ground (arith, fails)) in
        (k, v, w, here, there, honest)

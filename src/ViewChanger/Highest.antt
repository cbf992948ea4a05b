-- ===== src/ViewChanger/Highest.antt =====
-- The pre-prepare of the highest view for each number.
use adaptive_leader.Base.{
  ◌≤◌, ◌≡◌, refl, sym, ◌⊎◌, inl, inr, some, Map, lookup, insert, lookup-insert, lookup-insert_self,
  ◌==◌, ltb, nat_eq, string_eq, arith, Bool-cases, Option-cases, subst,
}
use adaptive_leader.Base.Int64.{Int64}
use adaptive_leader.Messages.{PrePrepareRequest}
use adaptive_leader.ViewChanger.NewView.{keep_highest}

-- A number has an entry, of the view at least.
abbrev pub AtLeast : Map Int64 PrePrepareRequest → Int64 → Int64 → Type 0
AtLeast highest k view_id =
    (m : PrePrepareRequest) × (lookup k highest ≡ some m) × (view_id ≤ m.view_id)

keep_highest-cases :
    (m : PrePrepareRequest) (highest : Map Int64 PrePrepareRequest)
    → ((keep_highest m highest ≡ highest) × AtLeast highest m.sequence_number m.view_id)
      ⊎ ((keep_highest m highest ≡ insert m.sequence_number m highest)
          × ((old : PrePrepareRequest)
              → lookup m.sequence_number highest ≡ some old
              → old.view_id ≤ m.view_id))
unfolding keep_highest
keep_highest-cases m highest = elim (Option-cases (lookup m.sequence_number highest)) [
  | inl e ↦ inr (rw (e, keep_highest) refl, λ old is. absurd cc)
  | inr (m', e) ↦ elim (Bool-cases (ltb m'.view_id m.view_id)) [
    | inl higher ↦ inr (
      rw (e, keep_highest, higher) refl,
      λ old is. let same : m' ≡ old = ground arith in ground arith,
    )
    | inr lower ↦ inl (rw (e, keep_highest, lower) refl, (m', e, ground arith))
  ]
]

pub keep_highest-AtLeast :
    (m : PrePrepareRequest) (highest : Map Int64 PrePrepareRequest) (k v : Int64)
    → AtLeast highest k v
    → AtLeast (keep_highest m highest) k v
keep_highest-AtLeast m highest k v (m', e, le) = elim (keep_highest-cases m highest) [
  | inl (same, _) ↦ rw same (m', e, le)
  | inr (put, lower) ↦ elim (Bool-cases (m.sequence_number == k)) [
    | inl hit ↦
        let at : m.sequence_number ≡ k = ground arith in
        let found = subst (λ i. lookup i highest ≡ some m') (sym at) e in
        let below = lower m' found in
        (m, rw (put, lookup-insert m.sequence_number k m highest, hit) refl, omega arith)
    | inr miss ↦ (m', rw (put, lookup-insert m.sequence_number k m highest, miss) e, le)
  ]
]

pub keep_highest_self :
    (m : PrePrepareRequest) (highest : Map Int64 PrePrepareRequest)
    → AtLeast (keep_highest m highest) m.sequence_number m.view_id
keep_highest_self m highest = elim (keep_highest-cases m highest) [
  | inl (same, at) ↦ rw same at
  | inr (put, _) ↦ (m, rw put (lookup-insert_self m.sequence_number m highest), omega arith)
]

pub keep_highest-or :
    (m : PrePrepareRequest) (highest : Map Int64 PrePrepareRequest) (k : Int64)
    (found : PrePrepareRequest)
    → lookup k (keep_highest m highest) ≡ some found
    → (lookup k highest ≡ some found) ⊎ ((found ≡ m) × (k ≡ m.sequence_number))
keep_highest-or m highest k found h = elim (keep_highest-cases m highest) [
  | inl (same, at) ↦ inl (rw (sym same) h)
  | inr (put, _) ↦
      let at = lookup-insert m.sequence_number k m highest in
      elim (Bool-cases (m.sequence_number == k)) [
        | inl hit ↦ inr (ground (arith, at, put), ground arith)
        | inr miss ↦ inl (ground (arith, at, put))
      ]
]

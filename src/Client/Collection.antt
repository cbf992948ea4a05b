-- ===== src/Client/Collection.antt =====
-- Which answers stand behind the result that a client takes.
use adaptive_leader.Base.{
  ℕ, ◌+◌, ◌≡◌, refl, sym, ap, ◌∙◌, ◌⊎◌, inl, inr, subst, false, List, [], ◌∷◌, Option, none, some,
  GoString, Map, All, All-insert, All-lookup, Among, Among-All, HasDistinctKeys,
  insert-HasDistinctKeys, length, lookup, insert, ◌==◌, ltb, nat_eq, string_eq, arith, Bool-cases,
  Option-cases,
}
use adaptive_leader.Config.{Address}
use adaptive_leader.Messages.{ClientResponse, OperationResult}
use adaptive_leader.Client.{
  Group, ResponseCollection, new_response_collection, group_of, add_response, max_size, get_size,
  largest, get_response, f, ready_result, collect,
}

-- The answers of a group: one of each replica, each with the group's result and a property.
abbrev pub AreAnswers : (ClientResponse → Type 0) → GoString → Group → Type 0
AreAnswers P value group =
    HasDistinctKeys group
    × All
        (λ (e : GoString × ClientResponse).
          (e.1.replica_id ≡ e.0) × (e.1.result.value ≡ value) × P e.1)
        group

module _ (P : ClientResponse → Type 0) where
  abbrev pub Grouped : ResponseCollection → Type 0
  Grouped rc = All (λ (e : GoString × Group). AreAnswers P e.0 e.1) rc.collection

  group_of-AreAnswers :
      (value : GoString) (rc : ResponseCollection)
      → Grouped rc
      → AreAnswers P value (group_of value rc)
  unfolding group_of
  group_of-AreAnswers value rc h = elim (Option-cases (lookup value rc.collection)) [
    | inl e ↦ rw (e, group_of) (tt, tt)
    | inr (group, e) ↦
        rw (e, group_of) (All-lookup (λ e. AreAnswers P e.0 e.1) value group rc.collection e h)
  ]

  pub add_response-Grouped :
      (rc : ResponseCollection) (r : ClientResponse)
      → P r
      → Grouped rc
      → Grouped (add_response rc r)
  unfolding add_response
  add_response-Grouped rc r is h =
      let value = r.result.value in
      let group = group_of value rc in
      let (distinct, all) = group_of-AreAnswers value rc h in
      let more : AreAnswers P value (insert r.replica_id r group) = (
        insert-HasDistinctKeys r.replica_id r group distinct,
        All-insert _ r.replica_id r group (refl, refl, is) all,
      ) in
      All-insert (λ e. AreAnswers P e.0 e.1) value (insert r.replica_id r group) rc.collection more
        h

  collect-Grouped :
      (rs : List ClientResponse) (rc : ResponseCollection)
      → All P rs
      → Grouped rc
      → Grouped (collect rc rs)
  unfolding collect
  collect-Grouped [] rc all h = h
  collect-Grouped (r ∷ rs) rc (is, all) h =
      collect-Grouped rs (add_response rc r) all (add_response-Grouped rc r is h)

-- The answer that is chosen comes first in a group of the greatest size.
abbrev Chosen : ℕ → Option ClientResponse → Map GoString Group → Type 0
Chosen max found groups =
    ((max_size max groups ≡ max) × (largest max found groups ≡ found))
    ⊎ ((value : GoString) × (group : Group) × (id : GoString) × (r : ClientResponse) × Among
          (value, group) groups
        × Among (id, r) group
        × (max_size max groups ≡ length group)
        × (largest max found groups ≡ some r))

largest_lem :
    (groups : Map GoString Group) (max : ℕ) (found : Option ClientResponse)
    → Chosen max found groups
unfolding max_size largest
largest_lem [] max found = inl (refl, refl)
largest_lem ((value, []) ∷ groups) max found =
    let smaller : ltb max 0 ≡ false = ground arith in
    elim (largest_lem groups max found) [
      | inl (size, same) ↦ inl (rw smaller size, rw smaller same)
      | inr (v, g, id, r, at, member, size, same) ↦
          inr (v, g, id, r, inr at, member, rw smaller size, rw smaller same)
    ]
largest_lem ((value, (i, answer) ∷ rest) ∷ groups) max found =
    let group = (i, answer) ∷ rest in
    elim (Bool-cases (ltb max (length group))) [
      | inl larger ↦ elim (largest_lem groups (length group) (some answer)) [
        | inl (size, same) ↦
            inr (value, group, i, answer, inl refl, inl refl, rw larger size, rw larger same)
        | inr (v, g, id, r, at, member, size, same) ↦
            inr (v, g, id, r, inr at, member, rw larger size, rw larger same)
      ]
      | inr smaller ↦ elim (largest_lem groups max found) [
        | inl (size, same) ↦ inl (rw smaller size, rw smaller same)
        | inr (v, g, id, r, at, member, size, same) ↦
            inr (v, g, id, r, inr at, member, rw smaller size, rw smaller same)
      ]
    ]

All-Among :
    (xs ys : List ClientResponse)
    → ((r : ClientResponse) → Among r xs → Among r ys)
    → All (λ r. Among r ys) xs
All-Among [] ys h = tt
All-Among (x ∷ xs) ys h = (h x (inl refl), All-Among xs ys (λ r at. h r (inr at)))

-- A result that is ready is that of F + 1 replicas.
pub Grouped-ready :
    (P : ClientResponse → Type 0) (nodes_address : Map GoString Address) (rc : ResponseCollection)
    (result : OperationResult)
    → Grouped P rc
    → ready_result nodes_address rc ≡ some result
    → (group : Group) × AreAnswers P result.value group × (length group ≡ f nodes_address + 1)
unfolding ready_result get_size get_response
Grouped-ready P nodes_address rc result grouped h =
    elim (Bool-cases (get_size rc == f nodes_address + 1)) [
      | inr other ↦ absurd (ground (arith, other, h))
      | inl ready ↦ elim (largest_lem rc.collection 0 none) [
        | inl (_, none_found) ↦ absurd (ground (arith, ready, none_found, h))
        | inr (value, group, id, r, at, member, size, found) ↦
            let (distinct, all) =
              Among-All (λ e. AreAnswers P e.0 e.1) (value, group) rc.collection at grouped in
            let (_, has_value, _) = Among-All _ (id, r) group member all in
            let same : r.result ≡ result = ground (arith, ready, found, h) in
            (
              group,
              subst (λ v. AreAnswers P v group) (sym has_value ∙ ap (λ o. o.value) same)
                  (distinct, all),
              ground (arith, ready, size),
            )
      ]
    ]

-- A result that a client hands on, from whatever answers it has collected in whatever order, was
-- given by F + 1 replicas, no two the same: it has their answers, each among those collected, with
-- this result.
ready_result_lem :
    (nodes_address : Map GoString Address) (rs : List ClientResponse) (result : OperationResult)
    → ready_result nodes_address (collect new_response_collection rs) ≡ some result
    → (group : Group) × AreAnswers (λ r. Among r rs) result.value group
      × (length group ≡ f nodes_address + 1)
unfolding new_response_collection
ready_result_lem nodes_address rs result h =
    let grouped =
      collect-Grouped (λ r. Among r rs) rs new_response_collection (All-Among rs rs (λ r at. at))
        tt in
    Grouped-ready (λ r. Among r rs) nodes_address (collect new_response_collection rs) result
      grouped h

-- ===== src/Client/Sizes.antt =====
-- The size of a collection only grows, and a client hands on a result at one size only.
use adaptive_leader.Base.{
  ℕ, ◌+◌, ◌≤◌, ◌<◌, ◌≡◌, refl, inl, inr, false, List, [], ◌∷◌, none, some, GoString, Map, length,
  lookup, insert, length-insert, ◌==◌, ltb, if◌then◌else◌, if-of_false, nat_eq, string_eq, arith,
  Bool-cases,
}
use adaptive_leader.Config.{Address}
use adaptive_leader.Messages.{ClientResponse}
use adaptive_leader.Client.{
  Group, ResponseCollection, group_of, add_response, max_size, get_size, f, ready_result, collect,
}

max_size_mono :
    (groups : Map GoString Group) (a b : ℕ) → a ≤ b → max_size a groups ≤ max_size b groups
unfolding max_size
max_size_mono [] a b h = h
max_size_mono ((value, group) ∷ groups) a b h =
    max_size_mono groups (if ltb a (length group) then length group else a)
      (if ltb b (length group) then length group else b) (ground arith)

-- A group that is replaced by one at least as large.
max_size-insert :
    (groups : Map GoString Group) (a : ℕ) (value : GoString) (group : Group)
    → ((old : Group) → lookup value groups ≡ some old → length old ≤ length group)
    → max_size a groups ≤ max_size a (insert value group groups)
unfolding max_size insert lookup
max_size-insert [] a value group larger = ground arith
max_size-insert ((j, w) ∷ groups) a value group larger = elim (Bool-cases (j == value)) [
  | inl hit ↦
      let le = larger w (rw hit refl) in
      rw hit (
        max_size_mono groups (if ltb a (length w) then length w else a)
          (if ltb a (length group) then length group else a) (ground arith))
  | inr miss ↦ rw miss (
      max_size-insert groups (if ltb a (length w) then length w else a) value group
        (λ old e. larger old (rw miss e)))
]

get_size-add_response :
    (rc : ResponseCollection) (r : ClientResponse) → get_size rc ≤ get_size (add_response rc r)
unfolding get_size add_response group_of
get_size-add_response rc r =
    max_size-insert rc.collection 0 r.result.value
      (insert r.replica_id r (group_of r.result.value rc))
      (λ old e.
        let same : group_of r.result.value rc ≡ old = rw (e, group_of) refl in
        rw same (ground (arith, length-insert r.replica_id r old)))

get_size-collect :
    (rs : List ClientResponse) (rc : ResponseCollection) → get_size rc ≤ get_size (collect rc rs)
unfolding collect
get_size-collect [] rc = omega arith
get_size-collect (r ∷ rs) rc =
    omega (arith, get_size-add_response rc r, get_size-collect rs (add_response rc r))

-- When more than F + 1 answers with one result have been collected, the client hands on no result,
-- whatever answers follow.
ready_result-of_more :
    (nodes_address : Map GoString Address) (rc : ResponseCollection) (rs : List ClientResponse)
    → f nodes_address + 1 < get_size rc
    → ready_result nodes_address (collect rc rs) ≡ none
unfolding ready_result
ready_result-of_more nodes_address rc rs more =
    let grows = get_size-collect rs rc in
    let missed : (get_size (collect rc rs) == f nodes_address + 1) ≡ false = ground arith in
    if-of_false _ _ missed

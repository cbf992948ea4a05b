-- ===== src/ViewChanger/Supporters.antt =====
-- Which replicas stand behind a prepared request: validatePrepareProof.
use adaptive_leader.Base.{
  ℕ, ◌*◌, ◌≤◌, ◌≡◌, ◌⊎◌, inl, inr, true, ◌&&◌, List, [], ◌∷◌, GoString, Map, Any, length, insert,
  contains, contains-insert, length_mono, if◌then◌else◌, HasDistinctKeys, insert-HasDistinctKeys,
  ◌==◌, nat_eq, string_eq, arith, Bool-cases,
}
use adaptive_leader.Base.Int64.{Int64}
use adaptive_leader.Messages.{PrePrepareRequest, PrepareRequest, ViewChangePreparedMessage}
use adaptive_leader.ViewChanger.NewView.{supporters, validate_prepare_proof}

-- A replica's prepare for a number and digest stands among the prepares.
abbrev Supports : Int64 → GoString → List PrepareRequest → GoString → Type 0
Supports k digest ms id =
    Any
      (λ (p : PrepareRequest).
        (p.replica_id ≡ id) × (p.sequence_number ≡ k) × (p.request_digest ≡ digest))
      ms

supporters_lem :
    (k : Int64) (digest : GoString) (ids : Map GoString (Unit {0})) (ms : List PrepareRequest)
    → HasDistinctKeys ids
    → HasDistinctKeys (supporters k digest ids ms)
      × ((id : GoString)
          → contains id (supporters k digest ids ms) ≡ true
          → (contains id ids ≡ true) ⊎ Supports k digest ms id)
unfolding supporters
supporters_lem k digest ids [] distinct = (distinct, λ id h. inl h)
supporters_lem k digest ids (p ∷ ms) distinct =
    elim (Bool-cases (p.sequence_number == k && p.request_digest == digest)) [
      | inl counted ↦
          let number : (p.sequence_number == k) ≡ true = ground arith in
          let same_digest : (p.request_digest == digest) ≡ true = ground arith in
          let at : p.sequence_number ≡ k = ground arith in
          let alike = (string_eq.same_iff p.request_digest digest).0 same_digest in
          let more = insert-HasDistinctKeys p.replica_id tt ids distinct in
          let (distinct', all) = supporters_lem k digest (insert p.replica_id tt ids) ms more in
          rw counted (
            distinct',
            λ id h. elim (all id h) [
              | inr later ↦ inr (inr later)
              | inl here ↦ elim (Bool-cases (p.replica_id == id)) [
                | inl is ↦ inr (inl ((string_eq.same_iff p.replica_id id).0 is, at, alike))
                | inr other ↦
                    inl (ground (arith, other, here, contains-insert p.replica_id id tt ids))
              ]
            ],
          )
      | inr not_counted ↦
          let (distinct', all) = supporters_lem k digest ids ms distinct in
          rw not_counted
            (distinct', λ id h. elim (all id h) [ inl old ↦ inl old | inr later ↦ inr (inr later) ])
    ]

-- Of at least a number of replicas, no two the same, a prepare stands among them.
abbrev pub Supported : Int64 → GoString → ℕ → List PrepareRequest → Type 0
Supported k digest n ms =
    (ids : Map GoString (Unit {0})) × HasDistinctKeys ids
    × (n ≤ length ids)
    × ((id : GoString) → contains id ids ≡ true → Supports k digest ms id)

pub validate_prepare_proof-Supported :
    (proof : ViewChangePreparedMessage) (k : Int64) (m : PrePrepareRequest) (f : ℕ)
    → validate_prepare_proof proof k m f ≡ true
    → Supported k m.request_digest (2 * f) proof.prepared_messages
unfolding validate_prepare_proof contains
validate_prepare_proof-Supported proof k m f valid =
    let (distinct, all) = supporters_lem k m.request_digest [] proof.prepared_messages tt in
    (
      supporters k m.request_digest [] proof.prepared_messages,
      distinct,
      ground arith,
      λ id h. elim (all id h) [ inl empty ↦ absurd cc | inr found ↦ found ],
    )

supporters-keeps :
    (k : Int64) (digest : GoString) (ids : Map GoString (Unit {0})) (ms : List PrepareRequest)
    (id : GoString)
    → contains id ids ≡ true
    → contains id (supporters k digest ids ms) ≡ true
unfolding supporters
supporters-keeps k digest ids [] id h = h
supporters-keeps k digest ids (p ∷ ms) id h =
    elim (Bool-cases (p.sequence_number == k && p.request_digest == digest)) [
      | inr skipped ↦ rw skipped (supporters-keeps k digest ids ms id h)
      | inl counted ↦ rw counted (
          supporters-keeps k digest (insert p.replica_id tt ids) ms id
            (ground (arith, h, contains-insert p.replica_id id tt ids)))
    ]

supporters-counts :
    (k : Int64) (digest : GoString) (ids : Map GoString (Unit {0})) (ms : List PrepareRequest)
    (id : GoString)
    → Supports k digest ms id
    → contains id (supporters k digest ids ms) ≡ true
unfolding supporters
supporters-counts k digest ids [] id h = absurd h
supporters-counts k digest ids (p ∷ ms) id (inr later) =
    supporters-counts k digest
      (if p.sequence_number == k && p.request_digest == digest
        then insert p.replica_id tt ids
        else ids)
      ms id later
supporters-counts k digest ids (p ∷ ms) id (inl (sender, at, alike)) =
    let number : (p.sequence_number == k) ≡ true = ground arith in
    let same_digest = (string_eq.same_iff p.request_digest digest).1 alike in
    let counted : (p.sequence_number == k && p.request_digest == digest) ≡ true =
      ground (arith, number, same_digest) in
    let is = (string_eq.same_iff p.replica_id id).1 sender in
    rw counted (
      supporters-keeps k digest (insert p.replica_id tt ids) ms id
        (ground (arith, is, contains-insert p.replica_id id tt ids)))

-- Enough replicas make a proof valid.
pub Supported-validate_prepare_proof :
    (proof : ViewChangePreparedMessage) (k : Int64) (m : PrePrepareRequest) (f : ℕ)
    → Supported k m.request_digest (2 * f) proof.prepared_messages
    → validate_prepare_proof proof k m f ≡ true
unfolding validate_prepare_proof
Supported-validate_prepare_proof proof k m f (ids, distinct, many, all) =
    let found = supporters k m.request_digest [] proof.prepared_messages in
    let more : length ids ≤ length found =
      length_mono found ids distinct
        (λ id h. supporters-counts k m.request_digest [] proof.prepared_messages id (all id h)) in
    let enough : 2 * f ≤ length found = omega (arith, many, more) in ground (arith, enough)

-- ===== src/ViewChanger/Prepared.antt =====
-- The pre-prepares that a new view takes over: extractPreprepareRequests.
use adaptive_leader.Base.{
  ℕ, ◌*◌, ◌<◌, ◌≡◌, refl, sym, ap, ◌⊎◌, ◌≢◌, ◌∙◌, inl, inr, true, false, not, ◌||◌, List, [], ◌∷◌,
  some, Map, Among, Any, lookup, leb, if◌then◌else◌, nat_eq, string_eq, arith, >>=-eq-some,
  Bool-cases, subst,
}
use adaptive_leader.Base.Int64.{Int64}
use adaptive_leader.Messages.{PrePrepareRequest, ViewChangePreparedMessage, ViewChangeRequest}
use adaptive_leader.ViewChanger.NewView.{
  validate_prepare_proof, keep_highest, extract_proofs, extract_from, extract_preprepare_requests,
}
use adaptive_leader.ViewChanger.Supporters.{
  Supported, validate_prepare_proof-Supported, Supported-validate_prepare_proof,
}
use adaptive_leader.ViewChanger.Highest.{
  AtLeast, keep_highest-AtLeast, keep_highest_self, keep_highest-or,
}

-- A proof for a number above the range's least, with prepares of 2f replicas for its pre-prepare.
abbrev IsProof : Int64 → ℕ → ViewChangePreparedMessage → PrePrepareRequest → Type 0
IsProof least f proof m =
    (proof.pre_prepare_request ≡ some m)
    × (least < m.sequence_number)
    × (validate_prepare_proof proof m.sequence_number m f ≡ true)

-- One map of pre-prepares comes from another by the proofs that a predicate names: no entry is lost to
-- a lower view, each of the proofs has an entry of its view at least, and each new entry has a proof.
abbrev Extends :
    Int64
    → ℕ
    → (ViewChangePreparedMessage → Type 0)
    → Map Int64 PrePrepareRequest
    → Map Int64 PrePrepareRequest
    → Type 0
Extends least f In a b =
    ((k v : Int64) → AtLeast a k v → AtLeast b k v)
    × ((proof : ViewChangePreparedMessage) (m : PrePrepareRequest)
        → In proof
        → IsProof least f proof m
        → AtLeast b m.sequence_number m.view_id)
    × ((k : Int64) (m : PrePrepareRequest)
        → lookup k b ≡ some m
        → (lookup k a ≡ some m)
          ⊎ ((k ≡ m.sequence_number)
              × ((proof : ViewChangePreparedMessage) × In proof × IsProof least f proof m)))

module _ (least : Int64) (f : ℕ) where
  Extends-none : (a : Map Int64 PrePrepareRequest) → Extends least f (λ p. ⊥) a a
  Extends-none a = (λ k v at. at, λ proof m at. absurd at, λ k m e. inl e)

  Extends-trans :
      {In In' : ViewChangePreparedMessage → Type 0} (a b c : Map Int64 PrePrepareRequest)
      → Extends least f In a b
      → Extends least f In' b c
      → Extends least f (λ p. In p ⊎ In' p) a c
  Extends-trans a b c (up, all, why) (up', all', why') = (
    λ k v at. up' k v (up k v at),
    λ proof m at is. elim at [
      | inl at ↦ up' m.sequence_number m.view_id (all proof m at is)
      | inr at ↦ all' proof m at is
    ],
    λ k m e. elim (why' k m e) [
      | inr (same, (proof, at, is)) ↦ inr (same, (proof, inr at, is))
      | inl e' ↦ elim (why k m e') [
        | inl e'' ↦ inl e''
        | inr (same, (proof, at, is)) ↦ inr (same, (proof, inl at, is))
      ]
    ],
  )

  -- The map after one proof.
  abbrev after :
      ViewChangePreparedMessage
      → PrePrepareRequest
      → Map Int64 PrePrepareRequest
      → Map Int64 PrePrepareRequest
  after proof m highest =
      let k = m.sequence_number in
      if leb k least || not (validate_prepare_proof proof k m f)
      then highest
      else keep_highest m highest

  IsProof-unique :
      (p proof : ViewChangePreparedMessage) (m m' : PrePrepareRequest)
      → proof.pre_prepare_request ≡ some m
      → p ≡ proof
      → IsProof least f p m'
      → m ≡ m'
  IsProof-unique p proof m m' e same is =
      let e' = subst (λ q. q.pre_prepare_request ≡ some m') same is.0 in ground (arith, e, e')

  IsProof-taken :
      (p proof : ViewChangePreparedMessage) (m m' : PrePrepareRequest)
      → proof.pre_prepare_request ≡ some m
      → p ≡ proof
      → IsProof least f p m'
      → (leb m.sequence_number least || not (validate_prepare_proof proof m.sequence_number m f))
        ≢ true
  IsProof-taken p proof m m' e same is skip =
      let one = IsProof-unique p proof m m' e same is in
      let (_, above, valid) =
        subst (IsProof least f proof) (sym one) (subst (λ q. IsProof least f q m') same is) in
      ground arith

  taken-IsProof :
      (proof : ViewChangePreparedMessage) (m : PrePrepareRequest)
      → (leb m.sequence_number least || not (validate_prepare_proof proof m.sequence_number m f))
        ≡ false
      → (least < m.sequence_number) × (validate_prepare_proof proof m.sequence_number m f ≡ true)
  taken-IsProof proof m take = ground arith

  after-Extends :
      (proof : ViewChangePreparedMessage) (m : PrePrepareRequest)
      (highest : Map Int64 PrePrepareRequest)
      → proof.pre_prepare_request ≡ some m
      → Extends least f (λ p. p ≡ proof) highest (after proof m highest)
  after-Extends proof m highest e =
      elim (Bool-cases
        (leb m.sequence_number least || not (validate_prepare_proof proof m.sequence_number m f))) [
          | inl skip ↦
              let same : after proof m highest ≡ highest = rw skip refl in
              (
                λ k v at. subst (λ h. AtLeast h k v) (sym same) at,
                λ p m' at is. absurd (IsProof-taken p proof m m' e at is skip),
                λ k m' at. inl (subst (λ h. lookup k h ≡ some m') same at),
              )
          | inr take ↦
              let same : after proof m highest ≡ keep_highest m highest = rw take refl in
              let (above, valid) = taken-IsProof proof m take in
              let is : IsProof least f proof m = (e, above, valid) in
              (
                λ k v at.
                    subst (λ h. AtLeast h k v) (sym same) (keep_highest-AtLeast m highest k v at),
                λ p m' at is'.
                    let one : m ≡ m' = IsProof-unique p proof m m' e at is' in
                    let mine =
                      subst (λ h. AtLeast h m.sequence_number m.view_id) (sym same)
                        (keep_highest_self m highest) in
                    subst (λ n. AtLeast (after proof m highest) n.sequence_number n.view_id) one
                      mine,
                λ k m' at.
                    elim (keep_highest-or m highest k m'
                      (subst (λ h. lookup k h ≡ some m') same at)) [
                        | inl old ↦ inl old
                        | inr (one, here) ↦ inr (
                          here ∙ ap (λ n. n.sequence_number) (sym one),
                          (proof, refl, subst (IsProof least f proof) (sym one) is),
                        )
                      ],
              )
        ]

  extract_proofs-Extends :
      (proofs : List ViewChangePreparedMessage) (a b : Map Int64 PrePrepareRequest)
      → extract_proofs least f a proofs ≡ some b
      → Extends least f (λ p. Among p proofs) a b
  unfolding extract_proofs
  extract_proofs-Extends [] a b h = subst (Extends least f _ a) (ground arith) (Extends-none a)
  extract_proofs-Extends (proof ∷ proofs) a b h =
      let (m, e, on) = >>=-eq-some proof.pre_prepare_request _ h in
      let one = after-Extends proof m a e in
      Extends-trans a (after proof m a) b one (extract_proofs-Extends proofs (after proof m a) b on)

  extract_from-Extends :
      (vcs : List ViewChangeRequest) (a b : Map Int64 PrePrepareRequest)
      → extract_from least f a vcs ≡ some b
      → Extends least f (λ p. Any (λ vc. Among p vc.prepared_proof) vcs) a b
  unfolding extract_from
  extract_from-Extends [] a b h = subst (Extends least f _ a) (ground arith) (Extends-none a)
  extract_from-Extends (vc ∷ vcs) a b h =
      let (c, e, on) = >>=-eq-some (extract_proofs least f a vc.prepared_proof) _ h in
      Extends-trans a c b (extract_proofs-Extends vc.prepared_proof a c e)
        (extract_from-Extends vcs c b on)

-- A pre-prepare that extractPreprepareRequests keeps for a number is about that number, which is
-- above the least, and some request holds it in a proof with prepares of at least 2f replicas, no
-- two the same, for its number and digest.
pub kept_has_proof :
    (vcs : List ViewChangeRequest) (least : Int64) (f : ℕ) (highest : Map Int64 PrePrepareRequest)
    (k : Int64) (m : PrePrepareRequest)
    → extract_preprepare_requests vcs least f ≡ some highest
    → lookup k highest ≡ some m
    → (k ≡ m.sequence_number)
      × (least < k)
      × ((proof : ViewChangePreparedMessage) × Any (λ vc. Among proof vc.prepared_proof) vcs
          × (proof.pre_prepare_request ≡ some m)
          × Supported k m.request_digest (2 * f) proof.prepared_messages)
unfolding extract_preprepare_requests lookup
kept_has_proof vcs least f highest k m h e =
    let (_, _, why) = extract_from-Extends least f vcs [] highest h in
    elim (why k m e) [
      | inl empty ↦ absurd cc
      | inr (same, (proof, at, (is, above, valid))) ↦
          let support = validate_prepare_proof-Supported proof m.sequence_number m f valid in
          let support' =
            subst (λ i. Supported i m.request_digest (2 * f) proof.prepared_messages) (sym same)
              support in
          (same, omega arith, (proof, at, is, support'))
    ]

-- A pre-prepare above the least that some request holds with prepares of at least 2f replicas, no
-- two the same, for its number and digest is not lost: for its number extractPreprepareRequests
-- keeps it, or one of a view at least as high.
pub proof_is_kept :
    (vcs : List ViewChangeRequest) (least : Int64) (f : ℕ) (highest : Map Int64 PrePrepareRequest)
    (proof : ViewChangePreparedMessage) (m : PrePrepareRequest)
    → extract_preprepare_requests vcs least f ≡ some highest
    → Any (λ vc. Among proof vc.prepared_proof) vcs
    → proof.pre_prepare_request ≡ some m
    → least < m.sequence_number
    → Supported m.sequence_number m.request_digest (2 * f) proof.prepared_messages
    → AtLeast highest m.sequence_number m.view_id
unfolding extract_preprepare_requests
proof_is_kept vcs least f highest proof m h at is above support =
    let (_, all, _) = extract_from-Extends least f vcs [] highest h in
    let valid = Supported-validate_prepare_proof proof m.sequence_number m f support in
    all proof m at (is, above, valid)

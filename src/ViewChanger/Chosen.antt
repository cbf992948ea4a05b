-- ===== src/ViewChanger/Chosen.antt =====
-- Which digest a new leader proposes for a number: the one of the prepared request of the highest view.
use adaptive_leader.Base.{
  ℕ, ◌*◌, ◌≤◌, ◌<◌, ◌≡◌, refl, sym, subst, inl, inr, ◌⊎◌, some, List, GoString, Map, Among, Any,
  codes, lookup, nat_eq, arith, Option-cases,
}
use adaptive_leader.Base.Int64.{Int64}
use adaptive_leader.Messages.{PrePrepareRequest, ViewChangePreparedMessage, ViewChangeRequest}
use adaptive_leader.ViewChanger.NewView.{digest_for, extract_preprepare_requests}
use adaptive_leader.ViewChanger.Supporters.{Supported}
use adaptive_leader.ViewChanger.Prepared.{kept_has_proof, proof_is_kept}

-- Some request holds a pre-prepare for a number with prepares of at least 2f replicas, no two the same.
abbrev pub HasProof : List ViewChangeRequest → ℕ → Int64 → PrePrepareRequest → Type 0
HasProof vcs f k m =
    (m.sequence_number ≡ k)
    × ((proof : ViewChangePreparedMessage) × Any (λ vc. Among proof vc.prepared_proof) vcs
        × (proof.pre_prepare_request ≡ some m)
        × Supported k m.request_digest (2 * f) proof.prepared_messages)

-- A digest is that of such a pre-prepare of the highest view, or "nil" if there is none.
abbrev pub IsChosen : List ViewChangeRequest → ℕ → Int64 → GoString → Type 0
IsChosen vcs f k digest =
    ((digest ≡ codes "nil") × ((m : PrePrepareRequest) → HasProof vcs f k m → ⊥))
    ⊎ ((m : PrePrepareRequest) × HasProof vcs f k m
        × (digest ≡ m.request_digest)
        × ((m' : PrePrepareRequest) → HasProof vcs f k m' → m'.view_id ≤ m.view_id))

module _ (vcs : List ViewChangeRequest) (least : Int64) (f : ℕ)
    (highest : Map Int64 PrePrepareRequest) (k : Int64)
    (extracted : extract_preprepare_requests vcs least f ≡ some highest) (above : least < k) where
  proof-kept :
      (m : PrePrepareRequest)
      → HasProof vcs f k m
      → (kept : PrePrepareRequest) × (lookup k highest ≡ some kept) × (m.view_id ≤ kept.view_id)
  proof-kept m (same, (proof, at, is, support)) =
      let above' = subst (λ i. least < i) (sym same) above in
      let support' =
        subst (λ i. Supported i m.request_digest (2 * f) proof.prepared_messages) (sym same)
          support in
      let (kept, found, le) =
        proof_is_kept vcs least f highest proof m extracted at is above' support' in
      (kept, subst (λ i. lookup i highest ≡ some kept) same found, le)

  pub digest_for-IsChosen : IsChosen vcs f k (digest_for k highest)
  unfolding digest_for
  digest_for-IsChosen = elim (Option-cases (lookup k highest)) [
    | inl missing ↦ inl (
      rw (missing, digest_for) refl,
      λ m has. let (kept, found, _) = proof-kept m has in absurd cc,
    )
    | inr (m, e) ↦
        let (same, _, has) = kept_has_proof vcs least f highest k m extracted e in
        inr (
          m,
          (sym same, has),
          rw (e, digest_for) refl,
          λ m' has'.
              let (kept, found, le) = proof-kept m' has' in
              let one : kept ≡ m = ground (arith, e, found) in
              subst (λ d. m'.view_id ≤ d.view_id) one le,
        )
  ]

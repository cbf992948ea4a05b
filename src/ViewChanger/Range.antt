-- ===== src/ViewChanger/Range.antt =====
-- The range of numbers that a new view covers.
use adaptive_leader.Base.{
  Among-All, ℕ, ◌≤◌, ◌≡◌, refl, sym, ◌∙◌, ◌⊎◌, inl, inr, List, [], ◌∷◌, none, some, All, All-mono,
  Among, ltb, if◌then◌else◌, arith, >>=-eq-some, Bool-cases, Option-cases,
}
use adaptive_leader.Base.Int64.{Int64, IsInt64, int64, max_int64}
use adaptive_leader.Messages.{PrePrepareRequest, ViewChangePreparedMessage, ViewChangeRequest}
use adaptive_leader.ViewChanger.NewView.{
  max_prepared, widen, get_sequence_range, create_preprepare_messages,
}

-- A proof has a pre-prepare, and its number is at most the bound.
abbrev pub PreparedUpTo : Int64 → ViewChangePreparedMessage → Type 0
PreparedUpTo top proof =
    (m : PrePrepareRequest) × (proof.pre_prepare_request ≡ some m) × (m.sequence_number ≤ top)

-- A request lies within a range: its stable checkpoint does, and its prepared requests end there.
abbrev pub Within : Int64 → Int64 → ViewChangeRequest → Type 0
Within least greatest vc =
    (least ≤ vc.last_stable_sequence_number)
    × (vc.last_stable_sequence_number ≤ greatest)
    × All (PreparedUpTo greatest) vc.prepared_proof

PreparedUpTo-mono :
    (a b : Int64)
    → a ≤ b
    → (proof : ViewChangePreparedMessage) → PreparedUpTo a proof
    → PreparedUpTo b proof
PreparedUpTo-mono a b h proof (m, e, k) = (m, e, omega arith)

max_prepared_lem :
    (proofs : List ViewChangePreparedMessage) (greatest top : Int64)
    → max_prepared greatest proofs ≡ some top
    → (greatest ≤ top) × All (PreparedUpTo top) proofs
unfolding max_prepared
max_prepared_lem [] greatest top h = (ground arith, tt)
max_prepared_lem (proof ∷ proofs) greatest top h =
    let (m, e, on) = >>=-eq-some proof.pre_prepare_request _ h in
    let next = if ltb greatest m.sequence_number then m.sequence_number else greatest in
    let (up, all) = max_prepared_lem proofs next top on in
    (ground arith, ((m, e, ground arith), all))

Within-mono :
    (a b c d : Int64) → c ≤ a → b ≤ d → (vc : ViewChangeRequest) → Within a b vc → Within c d vc
Within-mono a b c d p q vc (low, high, all) =
    (omega arith, omega arith, All-mono _ _ (PreparedUpTo-mono b d q) vc.prepared_proof all)

-- Whether a number is the least so far, or the stable checkpoint of a request.
abbrev IsLeast : Int64 → Int64 → List ViewChangeRequest → Type 0
IsLeast start least vcs =
    (least ≡ start)
    ⊎ ((vc : ViewChangeRequest) × Among vc vcs × (vc.last_stable_sequence_number ≡ least))

widen_lem :
    (vcs : List ViewChangeRequest) (a b least greatest : Int64)
    → widen a b vcs ≡ some (least, greatest)
    → (least ≤ a) × (b ≤ greatest) × All (Within least greatest) vcs × IsLeast a least vcs
unfolding widen
widen_lem [] a b least greatest h = ground arith
widen_lem (vc ∷ vcs) a b least greatest h =
    let stable = vc.last_stable_sequence_number in
    let a' = if ltb stable a then stable else a in
    let b' = if ltb b stable then stable else b in
    let (top, e, on) = >>=-eq-some (max_prepared b' vc.prepared_proof) _ h in
    let (up, all) = max_prepared_lem vc.prepared_proof b' top e in
    let (low, high, rest, is_least) = widen_lem vcs a' top least greatest on in
    let all' = All-mono _ _ (PreparedUpTo-mono top greatest high) vc.prepared_proof all in
    let here : Within least greatest vc = (ground arith, ground arith, all') in
    let least_here : IsLeast a least (vc ∷ vcs) = elim is_least [
      | inr (w, at, e) ↦ inr (w, inr at, e)
      | inl e ↦ elim (Bool-cases (ltb stable a)) [
        | inl hit ↦ inr (vc, inl refl, ground arith)
        | inr miss ↦ inl (ground arith)
      ]
    ] in
    (ground arith, ground arith, (here, rest), least_here)

max_prepared-or :
    (proofs : List ViewChangePreparedMessage) (greatest top : Int64)
    → max_prepared greatest proofs ≡ some top
    → (top ≡ greatest)
      ⊎ ((proof : ViewChangePreparedMessage) × (m : PrePrepareRequest) × Among proof proofs
          × (proof.pre_prepare_request ≡ some m)
          × (m.sequence_number ≡ top))
unfolding max_prepared
max_prepared-or [] greatest top h = inl (ground arith)
max_prepared-or (proof ∷ proofs) greatest top h =
    let (m, e, on) = >>=-eq-some proof.pre_prepare_request _ h in
    let next = if ltb greatest m.sequence_number then m.sequence_number else greatest in
    elim (max_prepared-or proofs next top on) [
      | inr (p, m', at, is, number) ↦ inr (p, m', inr at, is, number)
      | inl same ↦ elim (Bool-cases (ltb greatest m.sequence_number)) [
        | inl hit ↦ inr (proof, m, inl refl, e, ground arith)
        | inr miss ↦ inl (ground arith)
      ]
    ]

-- A number is the stable checkpoint of a request, or that of one of its prepared requests.
abbrev pub Reaches : Int64 → ViewChangeRequest → Type 0
Reaches greatest vc =
    (vc.last_stable_sequence_number ≡ greatest)
    ⊎ ((proof : ViewChangePreparedMessage) × (m : PrePrepareRequest) × Among proof vc.prepared_proof
        × (proof.pre_prepare_request ≡ some m)
        × (m.sequence_number ≡ greatest))

widen-greatest :
    (vcs : List ViewChangeRequest) (a b least greatest : Int64)
    → widen a b vcs ≡ some (least, greatest)
    → (greatest ≡ b) ⊎ ((vc : ViewChangeRequest) × Among vc vcs × Reaches greatest vc)
unfolding widen
widen-greatest [] a b least greatest h = inl (ground arith)
widen-greatest (vc ∷ vcs) a b least greatest h =
    let stable = vc.last_stable_sequence_number in
    let a' = if ltb stable a then stable else a in
    let b' = if ltb b stable then stable else b in
    let (top, e, on) = >>=-eq-some (max_prepared b' vc.prepared_proof) _ h in
    elim (widen-greatest vcs a' top least greatest on) [
      | inr (w, at, is) ↦ inr (w, inr at, is)
      | inl same ↦ elim (max_prepared-or vc.prepared_proof b' top e) [
        | inr (proof, m, at, is, number) ↦
            inr (vc, inl refl, inr (proof, m, at, is, number ∙ sym same))
        | inl kept ↦ elim (Bool-cases (ltb b stable)) [
          | inl hit ↦ inr (vc, inl refl, inl (ground arith))
          | inr miss ↦ inl (ground arith)
        ]
      ]
    ]

-- The greatest number of the range is 0, or a request reaches it.
pub get_sequence_range-greatest :
    (vcs : List ViewChangeRequest) (least greatest : Int64)
    → get_sequence_range vcs ≡ some (least, greatest)
    → (greatest ≡ int64 0) ⊎ ((vc : ViewChangeRequest) × Among vc vcs × Reaches greatest vc)
unfolding get_sequence_range
get_sequence_range-greatest [] least greatest h = cc
get_sequence_range-greatest (vc ∷ vcs) least greatest h =
    widen-greatest (vc ∷ vcs) max_int64 (int64 0) least greatest h

-- For requests whose stable checkpoints are in the range of int64, every request lies within the
-- range that getSequenceRange gives, and the least number of the range is the stable checkpoint of
-- one.
pub get_sequence_range_lem :
    (vcs : List ViewChangeRequest) (least greatest : Int64)
    → All (λ vc. IsInt64 vc.last_stable_sequence_number) vcs
    → get_sequence_range vcs ≡ some (least, greatest)
    → All (Within least greatest) vcs
      × ((vc : ViewChangeRequest) × Among vc vcs × (vc.last_stable_sequence_number ≡ least))
unfolding get_sequence_range
get_sequence_range_lem [] least greatest small h = cc
get_sequence_range_lem (vc ∷ vcs) least greatest small h =
    let (_, _, all, is_least) = widen_lem (vc ∷ vcs) max_int64 (int64 0) least greatest h in
    elim is_least [
      | inr found ↦ (all, found)
      | inl e ↦ (all, (vc, inl refl, omega (arith, small.0, all.0.0, e)))
    ]

-- A prepared request that came without its pre-prepare, in any of the view-change requests, stops
-- the new leader: createPreprepareMessages does not return.
pub create_preprepare_messages-of_nil :
    (view_id : Int64) (vcs : List ViewChangeRequest) (f : ℕ) (vc : ViewChangeRequest)
    (proof : ViewChangePreparedMessage)
    → Among vc vcs
    → Among proof vc.prepared_proof
    → proof.pre_prepare_request ≡ none
    → create_preprepare_messages view_id vcs f ≡ none
unfolding create_preprepare_messages get_sequence_range
create_preprepare_messages-of_nil view_id [] f vc proof at at' nil = absurd at
create_preprepare_messages-of_nil view_id (v ∷ vcs) f vc proof at at' nil =
    elim (Option-cases (widen max_int64 (int64 0) (v ∷ vcs))) [
      | inl e ↦ rw e refl
      | inr ((least, greatest), e) ↦
          let (_, _, all, _) = widen_lem (v ∷ vcs) max_int64 (int64 0) least greatest e in
          let (_, _, proofs) = Among-All (Within least greatest) vc (v ∷ vcs) at all in
          let (m, is, _) = Among-All (PreparedUpTo greatest) proof vc.prepared_proof at' proofs in
          absurd cc
    ]

-- ===== src/ViewChanger/Proposals.antt =====
-- What a new leader proposes: createPreprepareMessages.
use adaptive_leader.Base.{
  Among-All, ℕ, zero, suc, ◌+◌, ◌-◌, ◌≤◌, ◌<◌, ◌≡◌, refl, sym, ap, subst, inl, inr, ◌⊎◌, Among,
  true, not, ◌||◌, List, [], ◌∷◌, none, some, Map, All, leb, leb→le, if◌then◌else◌, arith,
  Bool-cases, Option-cases, is_some,
}
use adaptive_leader.Base.Int64.{Int64, IsInt64, int64, inc64, max_int64, inc64-of_lt}
use adaptive_leader.Messages.{PrePrepareRequest, ViewChangePreparedMessage, ViewChangeRequest}
use adaptive_leader.ViewChanger.NewView.{
  get_sequence_range, digest_for, fill, create_preprepare_messages, extract_preprepare_requests,
  extract_from, extract_proofs, keep_highest, validate_prepare_proof,
}
use adaptive_leader.ViewChanger.Range.{
  PreparedUpTo, Within, Reaches, get_sequence_range_lem, get_sequence_range-greatest,
}
use adaptive_leader.ViewChanger.Chosen.{IsChosen, digest_for-IsChosen}

-- The proposal of a view for a number.
abbrev pub proposal : Int64 → Map Int64 PrePrepareRequest → Int64 → PrePrepareRequest
proposal view_id highest k = record {
  view_id = view_id;
  sequence_number = k;
  request_digest = digest_for k highest;
}

-- The proposals that the loop makes from k on.
abbrev Fills : Int64 → Map Int64 PrePrepareRequest → Int64 → Int64 → List PrePrepareRequest → Type 0
Fills view_id highest k greatest [] = k ≡ greatest + 1
Fills view_id highest k greatest (m ∷ ms) =
    (m ≡ proposal view_id highest k) × Fills view_id highest (k + 1) greatest ms

-- The proposals for the numbers from k to the greatest, in order, each with the digest that the requests
-- call for.
abbrev pub ProposesFrom :
    Int64 → List ViewChangeRequest → ℕ → Int64 → Int64 → List PrePrepareRequest → Type 0
ProposesFrom view_id vcs f k greatest [] = k ≡ greatest + 1
ProposesFrom view_id vcs f k greatest (m ∷ ms) =
    (m.view_id ≡ view_id)
    × (m.sequence_number ≡ k)
    × IsChosen vcs f k m.request_digest
    × ProposesFrom view_id vcs f (k + 1) greatest ms

Fills-ProposesFrom :
    (view_id : Int64) (vcs : List ViewChangeRequest) (f : ℕ) (least k greatest : Int64)
    (highest : Map Int64 PrePrepareRequest) (ms : List PrePrepareRequest)
    → extract_preprepare_requests vcs least f ≡ some highest
    → least < k
    → Fills view_id highest k greatest ms
    → ProposesFrom view_id vcs f k greatest ms
Fills-ProposesFrom view_id vcs f least k greatest highest [] extracted above h = h
Fills-ProposesFrom view_id vcs f least k greatest highest (m ∷ ms) extracted above (is, on) = (
  ap (λ d. d.view_id) is,
  ap (λ d. d.sequence_number) is,
  subst (λ d. IsChosen vcs f k d.request_digest) (sym is)
      (digest_for-IsChosen vcs least f highest k extracted above),
  Fills-ProposesFrom view_id vcs f least (k + 1) greatest highest ms extracted
      (omega (arith, above)) on,
)

fill_lem :
    (fuel : ℕ) (view_id k greatest : Int64) (highest : Map Int64 PrePrepareRequest)
    → greatest < max_int64
    → k ≤ greatest + 1
    → greatest + 1 ≤ k + fuel
    → (ms : List PrePrepareRequest) × (fill (suc fuel) view_id k greatest highest ≡ some ms)
      × Fills view_id highest k greatest ms
unfolding fill
fill_lem zero view_id k greatest highest small low high = ([], ground arith, omega arith)
fill_lem (suc fuel) view_id k greatest highest small low high = elim (Bool-cases (leb k greatest)) [
  | inr past ↦ ([], rw past refl, ground arith)
  | inl more ↦
      let here = leb→le k greatest more in
      let on = fill_lem fuel view_id (k + 1) greatest highest small (omega arith) (omega arith) in
      let (ms, e, proposes) = on in
      let next = inc64-of_lt k (omega arith) in
      (proposal view_id highest k ∷ ms, rw (more, next, e) refl, (refl, proposes))
]

fill_endless :
    (fuel : ℕ) (view_id k : Int64) (highest : Map Int64 PrePrepareRequest)
    → IsInt64 k
    → fill fuel view_id k max_int64 highest ≡ none
unfolding fill
fill_endless zero view_id k highest small = refl
fill_endless (suc fuel) view_id k highest small =
    let on = fill_endless fuel view_id (inc64 k) highest (omega arith) in
    let more : leb k max_int64 ≡ true = ground arith in rw (more, on) refl

extract_proofs-some :
    (proofs : List ViewChangePreparedMessage) (least : Int64) (f : ℕ)
    (highest : Map Int64 PrePrepareRequest) (top : Int64)
    → All (PreparedUpTo top) proofs
    → is_some (extract_proofs least f highest proofs) ≡ true
unfolding extract_proofs
extract_proofs-some [] least f highest top all = refl
extract_proofs-some (proof ∷ proofs) least f highest top ((m, e, _), all) =
    let k = m.sequence_number in
    let skipped = leb k least || not (validate_prepare_proof proof k m f) in
    rw e (
      extract_proofs-some proofs least f (if skipped then highest else keep_highest m highest) top
        all)

extract_from-some :
    (vcs : List ViewChangeRequest) (least : Int64) (f : ℕ) (highest : Map Int64 PrePrepareRequest)
    (low top : Int64)
    → All (Within low top) vcs
    → is_some (extract_from least f highest vcs) ≡ true
unfolding extract_from
extract_from-some [] least f highest low top all = refl
extract_from-some (vc ∷ vcs) least f highest low top ((_, _, proofs), all) =
    let here = extract_proofs-some vc.prepared_proof least f highest top proofs in
    elim (Option-cases (extract_proofs least f highest vc.prepared_proof)) [
      | inl e ↦ absurd cc
      | inr (next, e) ↦ rw e (extract_from-some vcs least f next low top all)
    ]

composed :
    (view_id : Int64) (vcs : List ViewChangeRequest) (f : ℕ) (least greatest start : Int64)
    (highest : Map Int64 PrePrepareRequest) (ms : List PrePrepareRequest)
    → get_sequence_range vcs ≡ some (least, greatest)
    → extract_preprepare_requests vcs least f ≡ some highest
    → inc64 least ≡ start
    → fill (suc (greatest - least)) view_id start greatest highest ≡ some ms
    → create_preprepare_messages view_id vcs f ≡ some ms
unfolding create_preprepare_messages
composed view_id vcs f least greatest start highest ms range e next on = rw (range, e, next) on

-- For view-change requests with stable checkpoints in the range of int64 and a greatest number
-- under the greatest int64, a new leader proposes, for its view and in order, every number after
-- the least up to the greatest: with the digest of a pre-prepare for it that some request holds
-- with prepares of at least 2f replicas, of the highest view of these, or "nil" if there is none.
-- The least is a stable checkpoint of one and under none; the greatest is over all their
-- checkpoints and prepared requests, and is one of them or 0.
pub create_preprepare_messages_lem :
    (view_id : Int64) (vcs : List ViewChangeRequest) (f : ℕ) (least greatest : Int64)
    → All (λ vc. IsInt64 vc.last_stable_sequence_number) vcs
    → get_sequence_range vcs ≡ some (least, greatest)
    → greatest < max_int64
    → (ms : List PrePrepareRequest) × (create_preprepare_messages view_id vcs f ≡ some ms)
      × ProposesFrom view_id vcs f (least + 1) greatest ms
      × All (Within least greatest) vcs
      × ((vc : ViewChangeRequest) × Among vc vcs × (vc.last_stable_sequence_number ≡ least))
      × ((greatest ≡ int64 0) ⊎ ((vc : ViewChangeRequest) × Among vc vcs × Reaches greatest vc))
unfolding extract_preprepare_requests
create_preprepare_messages_lem view_id vcs f least greatest small range below =
    let (all, (vc, at, is)) = get_sequence_range_lem vcs least greatest small range in
    let (low, high, _) = Among-All (Within least greatest) vc vcs at all in
    let there = extract_from-some vcs least f [] least greatest all in
    let next = inc64-of_lt least (omega arith) in
    elim (Option-cases (extract_from least f [] vcs)) [
      | inl e ↦ absurd cc
      | inr (highest, e) ↦
          let (ms, on, fills) =
            fill_lem (greatest - least) view_id (least + 1) greatest highest below (omega arith)
              (omega arith) in
          (
            ms,
            composed view_id vcs f least greatest (least + 1) highest ms range e next on,
            Fills-ProposesFrom view_id vcs f least (least + 1) greatest highest ms e (omega arith)
                fills,
            all,
            (vc, at, is),
            get_sequence_range-greatest vcs least greatest range,
          )
    ]

-- When the greatest number of the range is the greatest int64, which one view-change request can
-- name, a new leader's loop over the numbers does not end, however many rounds it takes, and so
-- createPreprepareMessages does not return.
create_preprepare_messages-of_max :
    (view_id : Int64) (vcs : List ViewChangeRequest) (f : ℕ) (least : Int64) (rounds : ℕ)
    (highest : Map Int64 PrePrepareRequest)
    → get_sequence_range vcs ≡ some (least, max_int64)
    → (fill rounds view_id (inc64 least) max_int64 highest ≡ none)
      × (create_preprepare_messages view_id vcs f ≡ none)
unfolding create_preprepare_messages
create_preprepare_messages-of_max view_id vcs f least rounds highest range = (
  fill_endless rounds view_id (inc64 least) highest (omega arith),
  elim (Option-cases (extract_preprepare_requests vcs least f)) [
    | inl e ↦ rw (range, e) refl
    | inr (kept, e) ↦
        let fuel = suc (max_int64 - least) in
        rw (range, e, fill_endless fuel view_id (inc64 least) kept (omega arith)) refl
  ],
)

-- ===== src/ViewChanger/NewView.antt =====
-- The pre-prepares of a new view, from the view-change requests in the order that range visits them.
-- `none` is log.Fatal, a nil pre-prepare that is read, or a loop that does not end.
use adaptive_leader.Base.{
  ℕ, zero, suc, ◌*◌, ◌-◌, Bool, ◌&&◌, ◌||◌, not, List, [], ◌∷◌, Option, none, some, GoString, Map,
  length, lookup, insert, ◌==◌, ltb, leb, if◌then◌else◌, nat_eq, string_eq, codes, ◌>>=◌,
}
use adaptive_leader.Base.Int64.{Int64, int64, inc64, max_int64}
use adaptive_leader.Messages.{
  PrePrepareRequest, PrepareRequest, ViewChangePreparedMessage, ViewChangeRequest,
}

-- The highest number among the pre-prepares of the proofs, from the greatest so far.
unfoldable pub max_prepared : Int64 → List ViewChangePreparedMessage → Option Int64
max_prepared greatest [] = some greatest
max_prepared greatest (proof ∷ proofs) = do
  m ← proof.pre_prepare_request
  max_prepared (if ltb greatest m.sequence_number then m.sequence_number else greatest) proofs

unfoldable pub widen : Int64 → Int64 → List ViewChangeRequest → Option (Int64 × Int64)
unfolding max_prepared
widen least greatest [] = some (least, greatest)
widen least greatest (vc ∷ vcs) =
    let stable = vc.last_stable_sequence_number in
    let least' = if ltb stable least then stable else least in
    let greatest' = if ltb greatest stable then stable else greatest in
    do top ← max_prepared greatest' vc.prepared_proof; widen least' top vcs

-- With no request at all the program stops.
unfoldable pub get_sequence_range : List ViewChangeRequest → Option (Int64 × Int64)
unfolding widen
get_sequence_range [] = none
get_sequence_range (vc ∷ vcs) = widen max_int64 (int64 0) (vc ∷ vcs)

-- The replicas whose prepares support a pre-prepare.
unfoldable pub supporters :
    Int64 → GoString → Map GoString (Unit {0}) → List PrepareRequest → Map GoString (Unit {0})
supporters k digest ids [] = ids
supporters k digest ids (m ∷ ms) =
    let counted = m.sequence_number == k && m.request_digest == digest in
    supporters k digest (if counted then insert m.replica_id tt ids else ids) ms

unfoldable pub validate_prepare_proof :
    ViewChangePreparedMessage → Int64 → PrePrepareRequest → ℕ → Bool
unfolding supporters
validate_prepare_proof proof k m f =
    leb (2 * f) (length (supporters k m.request_digest [] proof.prepared_messages))

-- The pre-prepare of the highest view stays.
unfoldable pub keep_highest :
    PrePrepareRequest → Map Int64 PrePrepareRequest → Map Int64 PrePrepareRequest
keep_highest m highest =
    let replaced = insert m.sequence_number m highest in
    elim (lookup m.sequence_number highest) [
      | none ↦ replaced
      | some current ↦ if ltb current.view_id m.view_id then replaced else highest
    ]

unfoldable pub extract_proofs :
    Int64
    → ℕ
    → Map Int64 PrePrepareRequest
    → List ViewChangePreparedMessage
    → Option (Map Int64 PrePrepareRequest)
unfolding validate_prepare_proof keep_highest
extract_proofs least f highest [] = some highest
extract_proofs least f highest (proof ∷ proofs) = do
  m ← proof.pre_prepare_request
  let k = m.sequence_number
  let skipped = leb k least || not (validate_prepare_proof proof k m f)
  extract_proofs least f (if skipped then highest else keep_highest m highest) proofs

unfoldable pub extract_from :
    Int64
    → ℕ
    → Map Int64 PrePrepareRequest
    → List ViewChangeRequest
    → Option (Map Int64 PrePrepareRequest)
unfolding extract_proofs
extract_from least f highest [] = some highest
extract_from least f highest (vc ∷ vcs) = do
  highest' ← extract_proofs least f highest vc.prepared_proof
  extract_from least f highest' vcs

unfoldable pub extract_preprepare_requests :
    List ViewChangeRequest → Int64 → ℕ → Option (Map Int64 PrePrepareRequest)
unfolding extract_from
extract_preprepare_requests vcs least f = extract_from least f [] vcs

unfoldable pub digest_for : Int64 → Map Int64 PrePrepareRequest → GoString
digest_for k highest = elim (lookup k highest) [ none ↦ codes "nil" | some m ↦ m.request_digest ]

-- `for seqNo := ...; seqNo <= maxSeq; seqNo++`
unfoldable pub fill :
    ℕ → Int64 → Int64 → Int64 → Map Int64 PrePrepareRequest → Option (List PrePrepareRequest)
unfolding digest_for
fill zero view_id k greatest highest = none
fill (suc fuel) view_id k greatest highest =
    let m : PrePrepareRequest = record {
      view_id = view_id;
      sequence_number = k;
      request_digest = digest_for k highest;
    } in
    let on = fill fuel view_id (inc64 k) greatest highest >>= λ ms. some (m ∷ ms) in
    if leb k greatest then on else some []

-- The numbers from least + 1 to greatest take greatest - least rounds.
unfoldable pub create_preprepare_messages :
    Int64 → List ViewChangeRequest → ℕ → Option (List PrePrepareRequest)
unfolding get_sequence_range extract_preprepare_requests fill
create_preprepare_messages view_id vcs f = do
  (least, greatest) ← get_sequence_range vcs
  highest ← extract_preprepare_requests vcs least f
  fill (suc (greatest - least)) view_id (inc64 least) greatest highest

-- ===== src/Store/Checkpoints.antt =====
-- Checkpoint messages: what a proof holds, and when a checkpoint becomes stable.
use adaptive_leader.Base.{
  ℕ, ◌+◌, ◌*◌, ◌≤◌, ◌<◌, ◌≡◌, refl, ◌≢◌, false, List, [], ◌∷◌, Option, none, some, length, lookup,
  insert, ◌==◌, ltb, leb, if◌then◌else◌, nat_eq, arith, ◌⊎◌, Bool-cases, Option-cases, inl, inr,
  All, All-insert, All-delete_if, All-lookup, All-mono, All-append, lookup-delete_if, ◌++◌, ltb→lt,
  ltb→le,
}
use adaptive_leader.Base.Int64.{Int64}
use adaptive_leader.Config.{Config, f}
use adaptive_leader.Messages.{CheckpointRequest}
use adaptive_leader.Store.{
  Store, CheckpointProof, CheckpointId, id_eq, proof, get_sequence_number, new_store,
  new_checkpoint_id, append_proof, add_checkpoint_request, stabilize_checkpoint,
}

-- All messages of a proof are about one checkpoint.
abbrev AllFor : CheckpointId → CheckpointProof → Type 0
AllFor id p = All (λ m. new_checkpoint_id m ≡ id) (proof p)

-- Every gathering proof holds only messages for the checkpoint that it is kept under.
abbrev Gathers : Store → Type 0
Gathers s = All (λ e. AllFor e.0 e.1) s.unstable_checkpoints

new_store-Gathers : Gathers new_store
unfolding new_store
new_store-Gathers = tt

-- The messages gathered for a checkpoint.
abbrev pub gathered : Store → CheckpointId → List CheckpointRequest
gathered s id = elim (lookup id s.unstable_checkpoints) [ none ↦ [] | some p ↦ proof p ]

append_proof_lem :
    (s : Store) (m : CheckpointRequest) (id : CheckpointId)
    → proof (append_proof (lookup id s.unstable_checkpoints) m) ≡ gathered s id ++ m ∷ []
append_proof_lem s m id = elim (Option-cases (lookup id s.unstable_checkpoints)) [
  | inl missing ↦ rw (missing, gathered) refl
  | inr (p, there) ↦ rw (there, gathered) refl
]

append_proof-AllFor :
    (s : Store) (m : CheckpointRequest)
    → Gathers s
    → AllFor
        (new_checkpoint_id m)
        (append_proof (lookup (new_checkpoint_id m) s.unstable_checkpoints) m)
append_proof-AllFor s m g =
    elim (Option-cases (lookup (new_checkpoint_id m) s.unstable_checkpoints)) [
      | inl missing ↦ rw missing (refl, tt)
      | inr (p, there) ↦
          let old = All-lookup (λ e. AllFor e.0 e.1) _ p s.unstable_checkpoints there g in
          rw there (old.0, All-append _ p.rest (m ∷ []) old.1 (refl, tt))
    ]

stabilize_checkpoint-Gathers :
    (s : Store) (p : CheckpointProof) → Gathers s → Gathers (stabilize_checkpoint s p)
unfolding stabilize_checkpoint
stabilize_checkpoint-Gathers s p g =
    elim (Bool-cases (leb p.first.sequence_number (get_sequence_number s.last_stable_checkpoint))) [
      | inl old ↦ rw old g
      | inr newer ↦ rw newer (
          All-mono _ _ (λ e h. h.0) _
            (All-delete_if (λ e. AllFor e.0 e.1) _ s.unstable_checkpoints g))
    ]

-- What a checkpoint message does, by cases: it is stale, it is kept, or it completes 2f + 1.
data Adds (c : Config) (s : Store) (m : CheckpointRequest) : Store × Option Int64 → Type 0 where
  stale : m.sequence_number < get_sequence_number s.last_stable_checkpoint → Adds c s m (s, none)
  kept :
      (p : CheckpointProof)
      → get_sequence_number s.last_stable_checkpoint ≤ m.sequence_number
      → (proof p ≡ gathered s (new_checkpoint_id m) ++ m ∷ [])
      → AllFor (new_checkpoint_id m) p
      → length (proof p) ≢ 2 * f c + 1
      → Adds c s m (
        record s { unstable_checkpoints = insert (new_checkpoint_id m) p s.unstable_checkpoints },
        none,
      )
  complete :
      (p : CheckpointProof)
      → get_sequence_number s.last_stable_checkpoint ≤ m.sequence_number
      → (proof p ≡ gathered s (new_checkpoint_id m) ++ m ∷ [])
      → AllFor (new_checkpoint_id m) p
      → length (proof p) ≡ 2 * f c + 1
      → Adds c s m (
        stabilize_checkpoint
            (record s {
              unstable_checkpoints = insert (new_checkpoint_id m) p s.unstable_checkpoints;
            })
            p,
        some p.first.sequence_number,
      )

add_checkpoint_request-Adds :
    (c : Config) (s : Store) (m : CheckpointRequest)
    → Gathers s
    → Adds c s m (add_checkpoint_request c s m)
unfolding add_checkpoint_request
add_checkpoint_request-Adds c s m g =
    let p = append_proof (lookup (new_checkpoint_id m) s.unstable_checkpoints) m in
    let all = append_proof-AllFor s m g in
    let added = append_proof_lem s m (new_checkpoint_id m) in
    elim (Bool-cases (ltb m.sequence_number (get_sequence_number s.last_stable_checkpoint))) [
      | inl old ↦ rw old (stale (ltb→lt _ _ old))
      | inr new ↦ rw new (elim (Bool-cases (length (proof p) == 2 * f c + 1)) [
        | inl full ↦ rw full (complete p (ltb→le _ _ new) added all (ground (arith, full)))
        | inr more ↦ rw more (kept p (ltb→le _ _ new) added all (ground (arith, more)))
      ])
    ]

not_old : (a b : ℕ) → a < b → leb b a ≡ false
not_old a b h = ground arith

not_leb : (a b : ℕ) → leb a b ≡ false → b < a
not_leb a b h = ground arith

All-Unit {ℓ} : {A : Type ℓ} (xs : List A) → All (λ _. Unit {0}) xs
All-Unit [] = tt
All-Unit (x ∷ xs) = (tt, All-Unit xs)

-- What replacing the stable checkpoint by a newer one does.
stabilize_checkpoint_lem :
    (s : Store) (p : CheckpointProof)
    → get_sequence_number s.last_stable_checkpoint < p.first.sequence_number
    → let s' = stabilize_checkpoint s p in
      let n = p.first.sequence_number in
      (s'.last_stable_checkpoint ≡ some p)
      × (n ≤ s'.last_applied_sequence_number)
      × ((k : Int64)
          → (lookup k s'.requests ≡ (if leb k n then none else lookup k s.requests))
            × (lookup k s'.committed_requests
                ≡ (if leb k n then none else lookup k s.committed_requests)))
      × All (λ e. n < e.1.first.sequence_number) s'.unstable_checkpoints
unfolding stabilize_checkpoint
stabilize_checkpoint_lem s p newer =
    let n = p.first.sequence_number in
    rw (not_old _ _ newer) (
      refl,
      ground arith,
      (λ k. (
        lookup-delete_if (λ j. leb j n) k s.requests,
        lookup-delete_if (λ j. leb j n) k s.committed_requests,
      )),
      All-mono _ _ (λ e h. not_leb _ n h.1) _
          (All-delete_if (λ _. Unit {0}) _ s.unstable_checkpoints
            (All-Unit s.unstable_checkpoints)),
    )

pub stabilize_checkpoint-stable :
    (s : Store) (p : CheckpointProof)
    → (stabilize_checkpoint s p).last_stable_checkpoint ≡ (
        if leb p.first.sequence_number (get_sequence_number s.last_stable_checkpoint)
        then s.last_stable_checkpoint
        else some p)
unfolding stabilize_checkpoint
stabilize_checkpoint-stable s p = ground arith

-- The outcome of a checkpoint message: it is stale; or it is gathered, the last of its checkpoint, and
-- these are not 2f + 1; or with it they are, all about its checkpoint, and are the proof.
abbrev pub StableByQuorum : Config → Store → CheckpointRequest → Store × Option Int64 → Type 0
StableByQuorum c s m (s', returned) =
    let id = new_checkpoint_id m in
    let stable = get_sequence_number s.last_stable_checkpoint in
    ((m.sequence_number < stable) × (s' ≡ s) × (returned ≡ none))
    ⊎ (((stable ≤ m.sequence_number)
          × (s'.last_stable_checkpoint ≡ s.last_stable_checkpoint)
          × (returned ≡ none)
          × (gathered s' id ≡ gathered s id ++ m ∷ [])
          × (length (gathered s id) ≢ 2 * f c))
        ⊎ ((p : CheckpointProof) × (stable ≤ m.sequence_number)
            × (proof p ≡ gathered s id ++ m ∷ [])
            × (length (gathered s id) ≡ 2 * f c)
            × AllFor id p
            × (returned ≡ some m.sequence_number)
            × (s'.last_stable_checkpoint
                ≡ (if leb m.sequence_number stable then s.last_stable_checkpoint else some p))))

insert-Gathers :
    (s : Store) (id : CheckpointId) (p : CheckpointProof)
    → Gathers s
    → AllFor id p
    → Gathers (record s { unstable_checkpoints = insert id p s.unstable_checkpoints })
insert-Gathers s id p g all = All-insert (λ e. AllFor e.0 e.1) id p s.unstable_checkpoints all g

Adds-Gathers :
    (c : Config) (s : Store) (m : CheckpointRequest) {r : Store × Option Int64}
    → Gathers s
    → Adds c s m r
    → Gathers r.0
Adds-Gathers c s m g (stale h) = g
Adds-Gathers c s m g (kept p le added all h) = insert-Gathers s _ p g all
Adds-Gathers c s m g (complete p h added all full) =
    stabilize_checkpoint-Gathers _ p (insert-Gathers s _ p g all)

-- Whatever checkpoint messages arrive, proofs stay separate: each holds one checkpoint's messages.
add_checkpoint_request-Gathers :
    (c : Config) (s : Store) (m : CheckpointRequest)
    → Gathers s
    → Gathers (add_checkpoint_request c s m).0
add_checkpoint_request-Gathers c s m g = Adds-Gathers c s m g (add_checkpoint_request-Adds c s m g)

-- ===== src/Store/Stability.antt =====
-- Where making a checkpoint stable goes astray: one replica's messages suffice, and the values of a
-- replica that is ahead are set back.
use native.Mathlib.Numerals.{add-one}
use adaptive_leader.Base.{
  ℕ, zero, suc, ◌+◌, ◌*◌, ◌≤◌, ◌<◌, ◌≡◌, refl, ap, ◌∙◌, ◌≢◌, true, false, [], ◌∷◌, Option, none,
  some, GoString, length, length-append, lookup, insert, lookup-insert_self, ltb, leb, nat_eq,
  arith, ≢→==, nat_beq_iff, le→ltb,
}
use adaptive_leader.Base.Int64.{IsInt64, int64}
use adaptive_leader.Config.{Config, f}
use adaptive_leader.Messages.{OperationType, CheckpointRequest}
use adaptive_leader.Store.Values.{State, empty_state, apply, value_at, digest}
use adaptive_leader.Store.Values.Laws.{restore-digest}
use adaptive_leader.Store.{
  Store, CheckpointProof, id_eq, proof, get_sequence_number, new_checkpoint_id, append_proof,
  add_checkpoint_request, stabilize_checkpoint, has_stale, restore,
}
use adaptive_leader.Store.Checkpoints.{stabilize_checkpoint-stable}

-- The same message, n times.
pub add_repeatedly : ℕ → Config → Store → CheckpointRequest → Store
add_repeatedly zero c s m = s
add_repeatedly (suc n) c s m = (add_checkpoint_request c (add_repeatedly n c s m) m).0

-- The proof that n copies of a message gather.
copies : ℕ → CheckpointRequest → Option CheckpointProof
copies zero m = none
copies (suc n) m = some (append_proof (copies n m) m)

append_copies :
    (n : ℕ) (m : CheckpointRequest)
    → let p = append_proof (copies n m) m in (p.first ≡ m) × (length (proof p) ≡ suc n)
unfolding copies
append_copies zero m = (refl, refl)
append_copies (suc n) m =
    let (first, len) = append_copies n m in
    (first, omega (arith, len, length-append (append_proof (copies n m) m).rest (m ∷ [])))

not_leb : (a b : ℕ) → a < b → leb b a ≡ false
not_leb a b h = ground arith

not_stale : (a b : ℕ) → a < b → ltb b a ≡ false
not_stale a b h = ground arith

-- Below 2f + 1 copies are gathered.
add_kept :
    (c : Config) (s : Store) (m : CheckpointRequest)
    → get_sequence_number s.last_stable_checkpoint < m.sequence_number
    → let p = append_proof (lookup (new_checkpoint_id m) s.unstable_checkpoints) m in
      length (proof p) ≢ 2 * f c + 1
      → (add_checkpoint_request c s m).0
        ≡ record s { unstable_checkpoints = insert (new_checkpoint_id m) p s.unstable_checkpoints }
unfolding add_checkpoint_request
add_kept c s m newer h = rw (not_stale _ _ newer) (
    rw (
      ≢→== (length (proof (append_proof (lookup (new_checkpoint_id m) s.unstable_checkpoints) m)))
        (2 * f c + 1) h))

add_complete :
    (c : Config) (s : Store) (m : CheckpointRequest)
    → get_sequence_number s.last_stable_checkpoint < m.sequence_number
    → let p = append_proof (lookup (new_checkpoint_id m) s.unstable_checkpoints) m in
      length (proof p) ≡ 2 * f c + 1
      → (add_checkpoint_request c s m).0
        ≡ stabilize_checkpoint
            (record s {
              unstable_checkpoints = insert (new_checkpoint_id m) p s.unstable_checkpoints;
            })
            p
unfolding add_checkpoint_request
add_complete c s m newer h = rw (not_stale _ _ newer) (
    rw (
      (nat_beq_iff
          (length (proof (append_proof (lookup (new_checkpoint_id m) s.unstable_checkpoints) m)))
          (2 * f c + 1)).1
        h))

record Repeated (n : ℕ) (s s' : Store) (m : CheckpointRequest) : Type 0 where
  stable : s'.last_stable_checkpoint ≡ s.last_stable_checkpoint
  there : lookup (new_checkpoint_id m) s'.unstable_checkpoints ≡ copies n m

module _ (c : Config) (s : Store) (m : CheckpointRequest)
    (fresh : lookup (new_checkpoint_id m) s.unstable_checkpoints ≡ none)
    (newer : get_sequence_number s.last_stable_checkpoint < m.sequence_number) where
  add_repeatedly-Repeated : (n : ℕ) → n ≤ 2 * f c → Repeated n s (add_repeatedly n c s m) m
  unfolding add_repeatedly copies
  add_repeatedly-Repeated zero h = record { stable = refl; there = fresh }
  add_repeatedly-Repeated (suc n) h =
      let s' = add_repeatedly n c s m in
      let r = add_repeatedly-Repeated n (omega arith) in
      let newer' = rw (← r.stable) at newer in
      let (_, len) = append_copies n m in
      let step = add_kept c s' m newer' (rw r.there (omega (arith, len))) in
      rw step (record {
        stable = r.stable;
        there = lookup-insert_self (new_checkpoint_id m) _ s'.unstable_checkpoints ∙ rw r.there;
      })

  -- With no proof for it and the stable checkpoint older, 2f + 1 copies of one message, from one
  -- replica, make its checkpoint stable, whatever its digest.
  pub one_replica_stabilizes :
      get_sequence_number (add_repeatedly (2 * f c + 1) c s m).last_stable_checkpoint
      ≡ m.sequence_number
  unfolding add_repeatedly
  one_replica_stabilizes =
      let s' = add_repeatedly (2 * f c) c s m in
      let r = add_repeatedly-Repeated (2 * f c) (omega arith) in
      let newer' = rw (← r.stable) at newer in
      let (first, len) = append_copies (2 * f c) m in
      let number = ap (λ (q : CheckpointRequest). q.sequence_number) first in
      let full = add_complete c s' m newer' (rw r.there (omega (arith, len))) in
      rw add-one (
        rw full (
          rw (stabilize_checkpoint-stable _ _)
            (rw r.there (rw number (rw (not_leb _ _ newer') number)))))

restore_lem :
    (d : GoString)
    → restore d ≡ (apply empty_state (record { type = OperationType.add; key = []; value = d })).0
unfolding restore
restore_lem d = refl

restored :
    (t : State) (key : GoString)
    → IsInt64 (value_at [] t)
    → (value_at [] (restore (digest t)) ≡ value_at [] t)
      × ([] ≢ key → value_at key (restore (digest t)) ≡ int64 0)
restored t key range = rw (restore_lem (digest t)) (restore-digest t key range)

-- A replica that has applied at least as much as a newer checkpoint, and holds committed requests
-- up to it, takes the value of the checkpoint's digest under the empty key and 0 under all others,
-- while the number of the last one applied stays.
pub stabilize_sets_back :
    (s : Store) (p : CheckpointProof) (t : State) (key : GoString)
    → get_sequence_number s.last_stable_checkpoint < p.first.sequence_number
    → p.first.sequence_number ≤ s.last_applied_sequence_number
    → has_stale p.first.sequence_number s.committed_requests ≡ true
    → p.first.state_digest ≡ digest t
    → IsInt64 (value_at [] t)
    → let s' = stabilize_checkpoint s p in
      (s'.last_applied_sequence_number ≡ s.last_applied_sequence_number)
      × (value_at [] s'.state ≡ value_at [] t)
      × ([] ≢ key → value_at key s'.state ≡ int64 0)
unfolding stabilize_checkpoint
stabilize_sets_back s p t key newer ahead held same range =
    rw (not_leb _ _ newer)
      (rw (le→ltb _ _ ahead, held, same) (refl, (restored t key range).0, (restored t key range).1))

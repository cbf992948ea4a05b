-- ===== src/Transaction/Repeats.antt =====
-- Where the vote counting goes astray: a repeated vote, and a cluster too small for a fault.
use adaptive_leader.Base.{
  ◌*◌, ◌≡◌, refl, true, false, List, [], ◌∷◌, Option, none, some, length, contains, string_eq,
  nat_eq, arith, length-insert, length-insert_pos, ◌≤◌,
}
use adaptive_leader.Config.{Config, f}
use adaptive_leader.Messages.{PrePrepareRequest, PrepareRequest}
use adaptive_leader.Transaction.{
  TransactionState, new_transaction_state, add_pre_prepare, mismatch, add_prepare, add_commit, fire,
  check_callbacks, Event, pre_prepare_added, prepare_added, commit_added, callbacks_checked, step,
  run,
}
use adaptive_leader.Transaction.Liveness.{prepared_started, prepared_started-append}

-- A prepare that a replica sends again, while exactly 2f replicas have voted and the digest does
-- not differ, raises the flag once more, also after its callback was started.
prepare_again :
    (c : Config) (t : TransactionState) (m : PrepareRequest)
    → contains m.replica_id t.prepares ≡ true
    → length t.prepares ≡ 2 * f c
    → mismatch t.digest m.request_digest ≡ false
    → (add_prepare c t m).0.prepared ≡ true
unfolding add_prepare
prepare_again c t m old full same = ground (arith, length-insert m.replica_id m t.prepares)

-- With f = 0 the flag of the prepares is never raised.
fire-unprepared :
    (c : Config) (o : Option PrePrepareRequest) (t : TransactionState)
    → t.prepared ≡ false
    → ((fire c o t).0.prepared ≡ false) × (prepared_started (fire c o t).1 ≡ false)
unfolding fire
fire-unprepared c none t h = ground arith
fire-unprepared c (some m) t h = ground arith

step-unprepared :
    (c : Config) (t : TransactionState) (e : Event)
    → f c ≡ 0
    → t.prepared ≡ false
    → ((step c t e).0.prepared ≡ false) × (prepared_started (step c t e).1 ≡ false)
unfolding step add_pre_prepare add_prepare add_commit check_callbacks
step-unprepared c t (pre_prepare_added m) small h = ground arith
step-unprepared c t (prepare_added m) small h =
    ground (arith, length-insert_pos m.replica_id m t.prepares)
step-unprepared c t (commit_added m) small h = ground arith
step-unprepared c t callbacks_checked small h = fire-unprepared c t.preprepare t h

run-unprepared :
    (c : Config) (t : TransactionState) (es : List Event)
    → f c ≡ 0
    → t.prepared ≡ false
    → prepared_started (run c t es).1 ≡ false
unfolding run
run-unprepared c t [] small h = refl
run-unprepared c t (e ∷ es) small h =
    let (h', quiet) = step-unprepared c t e small h in
    let later = run-unprepared c (step c t e).0 es small h' in
    rw (prepared_started-append (step c t e).1 (run c (step c t e).0 es).1) (ground arith)

-- In a cluster of at most three peers no transaction ever starts its prepared callback, whatever
-- calls are made.
never_prepared :
    (c : Config) (es : List Event)
    → length c.peers_address ≤ 3
    → prepared_started (run c new_transaction_state es).1 ≡ false
unfolding new_transaction_state
never_prepared c es small = run-unprepared c _ es (omega arith) refl

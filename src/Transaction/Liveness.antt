-- ===== src/Transaction/Liveness.antt =====
-- A quorum of votes is noticed, in whatever order the votes and the pre-prepare arrive.
use adaptive_leader.Base.{
  ◌+◌, ◌*◌, ◌≤◌, ◌≡◌, refl, ◌⊎◌, Bool, true, false, ◌||◌, not, List, [], ◌∷◌, ◌++◌, Option, none,
  some, length, ◌==◌, string_eq, arith, length-insert, length-delete_if, is_some,
}
use adaptive_leader.Config.{Config, f}
use adaptive_leader.Messages.{PrePrepareRequest, PrepareRequest, CommitRequest}
use adaptive_leader.Transaction.{
  TransactionState, Callback, prepared_callback, committed_callback, new_transaction_state,
  add_pre_prepare, add_prepare, add_commit, fire, check_callbacks, Event, pre_prepare_added,
  prepare_added, commit_added, callbacks_checked, step, run,
}

-- Whether a prepared, or a committed, callback is among those started.
abbrev pub prepared_started : List Callback → Bool
prepared_started [] = false
prepared_started (prepared_callback m ∷ fs) = true
prepared_started (committed_callback n ∷ fs) = prepared_started fs

abbrev committed_started : List Callback → Bool
committed_started [] = false
committed_started (prepared_callback m ∷ fs) = committed_started fs
committed_started (committed_callback n ∷ fs) = true

-- A quorum is marked by the raised flag until its callback is started.
record Noticed (c : Config) (t : TransactionState) (prepared committed : Bool) : Type 0 where
  prepares : 2 * f c ≤ length t.prepares → (t.prepared ≡ true) ⊎ (prepared ≡ true)
  commits : 2 * f c + 1 ≤ length t.commits → (t.committed ≡ true) ⊎ (committed ≡ true)

module _ (c : Config) (big : 1 ≤ f c) (t : TransactionState) (p q : Bool)
    (v : Noticed c t p q) where
  add_prepare-Noticed : (m : PrepareRequest) → Noticed c (add_prepare c t m).0 p q
  unfolding add_prepare
  add_prepare-Noticed m = record {
    prepares = ground (arith, v.prepares, length-insert m.replica_id m t.prepares);
    commits = ground (arith, v.commits);
  }

  add_commit-Noticed : (m : CommitRequest) → Noticed c (add_commit c t m).0 p q
  unfolding add_commit
  add_commit-Noticed m = record {
    prepares = ground (arith, v.prepares);
    commits = ground (arith, v.commits, length-insert m.replica_id m t.commits);
  }

  add_pre_prepare-Noticed : (m : PrePrepareRequest) → Noticed c (add_pre_prepare c t m) p q
  unfolding add_pre_prepare
  add_pre_prepare-Noticed m = record {
    prepares = ground (
      arith,
      v.prepares,
      length-delete_if (λ _ (v : PrepareRequest). not (m.request_digest == v.request_digest))
          t.prepares,
    );
    commits = ground (
      arith,
      v.commits,
      length-delete_if (λ _ (v : CommitRequest). not (m.request_digest == v.request_digest))
          t.commits,
    );
  }

or_false : (b : Bool) → b || false ≡ b
or_false b = ground arith

or_assoc : (a b c : Bool) → (a || b) || c ≡ a || (b || c)
or_assoc a b c = ground arith

fire-Noticed :
    (c : Config) (o : Option PrePrepareRequest) (t : TransactionState) (p q : Bool)
    → Noticed c t p q
    → let (t', fs) = fire c o t in
      Noticed c t' (p || prepared_started fs) (q || committed_started fs)
unfolding fire
fire-Noticed c none t p q v = record {
  prepares = ground (arith, v.prepares);
  commits = ground (arith, v.commits);
}
fire-Noticed c (some m) t p q v = record {
  prepares = ground (arith, v.prepares);
  commits = ground (arith, v.commits);
}

step-Noticed :
    (c : Config) (t : TransactionState) (p q : Bool) (e : Event)
    → 1 ≤ f c
    → Noticed c t p q
    → let (t', fs) = step c t e in
      Noticed c t' (p || prepared_started fs) (q || committed_started fs)
unfolding step check_callbacks
step-Noticed c t p q (pre_prepare_added m) big v =
    rw (or_false, or_false) (add_pre_prepare-Noticed c big t p q v m)
step-Noticed c t p q (prepare_added m) big v =
    rw (or_false, or_false) (add_prepare-Noticed c big t p q v m)
step-Noticed c t p q (commit_added m) big v =
    rw (or_false, or_false) (add_commit-Noticed c big t p q v m)
step-Noticed c t p q callbacks_checked big v = fire-Noticed c t.preprepare t p q v

pub prepared_started-append :
    (fs gs : List Callback)
    → prepared_started (fs ++ gs) ≡ prepared_started fs || prepared_started gs
prepared_started-append [] gs = refl
prepared_started-append (prepared_callback m ∷ fs) gs = refl
prepared_started-append (committed_callback n ∷ fs) gs = prepared_started-append fs gs

committed_started-append :
    (fs gs : List Callback)
    → committed_started (fs ++ gs) ≡ committed_started fs || committed_started gs
committed_started-append [] gs = refl
committed_started-append (prepared_callback m ∷ fs) gs = committed_started-append fs gs
committed_started-append (committed_callback n ∷ fs) gs = refl

run-Noticed :
    (c : Config) (t : TransactionState) (p q : Bool) (es : List Event)
    → 1 ≤ f c
    → Noticed c t p q
    → let (t', fs) = run c t es in
      Noticed c t' (p || prepared_started fs) (q || committed_started fs)
unfolding run
run-Noticed c t p q [] big v = rw (or_false, or_false) v
run-Noticed c t p q (e ∷ es) big v =
    let (t', fs) = step c t e in
    let (t'', gs) = run c t' es in
    let later = run-Noticed c t' _ _ es big (step-Noticed c t p q e big v) in
    rw (prepared_started-append fs gs, committed_started-append fs gs)
      (rw (or_assoc, or_assoc) at later)

new-Noticed : (c : Config) → 1 ≤ f c → Noticed c new_transaction_state false false
unfolding new_transaction_state
new-Noticed c big = record { prepares = ground arith; commits = ground arith }

fire-prepared_started :
    (c : Config) (o : Option PrePrepareRequest) (t : TransactionState)
    → is_some o ≡ true
    → t.prepared ≡ true
    → prepared_started (fire c o t).1 ≡ true
unfolding fire
fire-prepared_started c none t known flag = cc
fire-prepared_started c (some m) t known flag = ground arith

fire-committed_started :
    (c : Config) (o : Option PrePrepareRequest) (t : TransactionState)
    → is_some o ≡ true
    → t.committed ≡ true
    → committed_started (fire c o t).1 ≡ true
unfolding fire
fire-committed_started c none t known flag = cc
fire-committed_started c (some m) t known flag = ground arith

-- A quorum of votes has had its callback started, or the next checkCallbacks starts it.
abbrev pub QuorumNoticed : Config → TransactionState × List Callback → Type 0
QuorumNoticed c (t, fs) =
    (2 * f c ≤ length t.prepares
      → (prepared_started fs ≡ true) ⊎ (prepared_started (check_callbacks c t).1 ≡ true))
    × (2 * f c + 1 ≤ length t.commits
        → (committed_started fs ≡ true) ⊎ (committed_started (check_callbacks c t).1 ≡ true))

-- With f ≥ 1, once a transaction holds its pre-prepare and prepares of 2f replicas, the prepared
-- callback has been started or the next checkCallbacks starts it, in whatever order the calls came;
-- and so the committed callback with commits of 2f + 1 replicas.
pub quorum_noticed :
    (c : Config) (es : List Event)
    → 1 ≤ f c
    → is_some (run c new_transaction_state es).0.preprepare ≡ true
    → QuorumNoticed c (run c new_transaction_state es)
unfolding check_callbacks
quorum_noticed c es big known =
    let (t, fs) = run c new_transaction_state es in
    let v = run-Noticed c new_transaction_state false false es big (new-Noticed c big) in
    (
      (λ h. ground (arith, v.prepares h, fire-prepared_started c t.preprepare t)),
      (λ h. ground (arith, v.commits h, fire-committed_started c t.preprepare t)),
    )

-- ===== src/Transaction/Quorum.antt =====
-- Votes form quorum certificates: what holds of a transaction after any sequence of its methods.
use adaptive_leader.Base.{
  ◌+◌, ◌*◌, ◌≤◌, ◌≡◌, refl, ◌≢◌, true, false, not, List, [], ◌∷◌, Option, none, some, GoString, Map,
  length, ◌==◌, string_eq, string_beq_iff, Bool-cases, inl, inr, All, HasDistinctKeys,
  insert-HasDistinctKeys, delete_if-HasDistinctKeys, All-insert, All-delete_if, All-mono,
  length-insert, arith,
}
use adaptive_leader.Config.{Config, f}
use adaptive_leader.Messages.{PrePrepareRequest, PrepareRequest, CommitRequest}
use adaptive_leader.Transaction.{
  TransactionState, new_transaction_state, change_digest, add_pre_prepare, mismatch, add_prepare,
  add_commit, fire, check_callbacks, Event, pre_prepare_added, prepare_added, commit_added,
  callbacks_checked, step, run,
}

abbrev pub Prepares : GoString → Map GoString PrepareRequest → Type 0
Prepares digest m =
    All (λ e. (e.0 ≡ e.1.replica_id) × (digest ≢ [] → e.1.request_digest ≡ digest)) m

abbrev pub Commits : GoString → Map GoString CommitRequest → Type 0
Commits digest m = All (λ e. (e.0 ≡ e.1.replica_id) × (digest ≢ [] → e.1.request_digest ≡ digest)) m

pub record Inv (c : Config) (t : TransactionState) : Type 0 where
  pub prepares_distinct : HasDistinctKeys t.prepares
  pub commits_distinct : HasDistinctKeys t.commits
  pub prepares_match : Prepares t.digest t.prepares
  pub commits_match : Commits t.digest t.commits
  pub prepared_quorum : t.prepared ≡ true → 2 * f c ≤ length t.prepares
  pub committed_quorum : t.committed ≡ true → 2 * f c + 1 ≤ length t.commits
  pub digest_agrees : (m : PrePrepareRequest) → t.preprepare ≡ some m → t.digest ≡ m.request_digest

pub new-Inv : (c : Config) → Inv c new_transaction_state
unfolding new_transaction_state
new-Inv c = record {
  prepares_distinct = tt;
  commits_distinct = tt;
  prepares_match = tt;
  commits_match = tt;
  prepared_quorum = λ p. cc;
  committed_quorum = λ p. cc;
  digest_agrees = λ m p. cc;
}

mismatch_lem :
    (digest other : GoString) → mismatch digest other ≡ false → digest ≢ [] → other ≡ digest
unfolding mismatch
mismatch_lem [] other h n = absurd (n refl)
mismatch_lem (x ∷ xs) other h n = ground (arith, string_beq_iff (x ∷ xs) other)

pub add_prepare-Inv :
    (c : Config) (t : TransactionState) (m : PrepareRequest) → Inv c t → Inv c (add_prepare c t m).0
unfolding add_prepare
add_prepare-Inv c t m v = elim (Bool-cases (mismatch t.digest m.request_digest)) [
  | inl refused ↦ rw refused v
  | inr accepted ↦ rw accepted (record {
    prepares_distinct = insert-HasDistinctKeys m.replica_id m t.prepares v.prepares_distinct;
    commits_distinct = v.commits_distinct;
    prepares_match =
        All-insert _ m.replica_id m t.prepares (refl, mismatch_lem _ _ accepted) v.prepares_match;
    commits_match = v.commits_match;
    prepared_quorum = ground (arith, v.prepared_quorum, length-insert m.replica_id m t.prepares);
    committed_quorum = v.committed_quorum;
    digest_agrees = v.digest_agrees;
  })
]

pub add_commit-Inv :
    (c : Config) (t : TransactionState) (m : CommitRequest) → Inv c t → Inv c (add_commit c t m).0
unfolding add_commit
add_commit-Inv c t m v = elim (Bool-cases (mismatch t.digest m.request_digest)) [
  | inl refused ↦ rw refused v
  | inr accepted ↦ rw accepted (record {
    prepares_distinct = v.prepares_distinct;
    commits_distinct = insert-HasDistinctKeys m.replica_id m t.commits v.commits_distinct;
    prepares_match = v.prepares_match;
    commits_match =
        All-insert _ m.replica_id m t.commits (refl, mismatch_lem _ _ accepted) v.commits_match;
    prepared_quorum = v.prepared_quorum;
    committed_quorum = ground (arith, v.committed_quorum, length-insert m.replica_id m t.commits);
    digest_agrees = v.digest_agrees;
  })
]

kept_digest : (d d' : GoString) → not (d == d') ≡ false → d' ≡ d
kept_digest d d' h = ground (arith, string_beq_iff d d')

change_digest-Inv :
    (c : Config) (t : TransactionState) (m : PrePrepareRequest)
    → Inv c t
    → Inv c (record (change_digest c m.request_digest t) { preprepare = some m })
unfolding change_digest
change_digest-Inv c t m v = record {
  prepares_distinct = delete_if-HasDistinctKeys _ t.prepares v.prepares_distinct;
  commits_distinct = delete_if-HasDistinctKeys _ t.commits v.commits_distinct;
  prepares_match =
      All-mono _ _ (λ e h. (h.0.0, λ _. kept_digest _ _ h.1)) _
        (All-delete_if _ _ t.prepares v.prepares_match);
  commits_match =
      All-mono _ _ (λ e h. (h.0.0, λ _. kept_digest _ _ h.1)) _
        (All-delete_if _ _ t.commits v.commits_match);
  prepared_quorum = ground arith;
  committed_quorum = ground arith;
  digest_agrees = λ m' e. cc;
}

pub fire-Inv :
    (c : Config) (p : Option PrePrepareRequest) (t : TransactionState)
    → Inv c t
    → Inv c (fire c p t).0
unfolding fire
fire-Inv c none t v = v
fire-Inv c (some m) t v = record {
  prepares_distinct = v.prepares_distinct;
  commits_distinct = v.commits_distinct;
  prepares_match = v.prepares_match;
  commits_match = v.commits_match;
  prepared_quorum = λ e. cc;
  committed_quorum = λ e. cc;
  digest_agrees = v.digest_agrees;
}

pub add_pre_prepare-Inv :
    (c : Config) (t : TransactionState) (m : PrePrepareRequest)
    → Inv c t
    → Inv c (add_pre_prepare c t m)
unfolding add_pre_prepare
add_pre_prepare-Inv c t m v = elim (Bool-cases (t.digest == m.request_digest)) [
  | inl same ↦ rw same (record {
    prepares_distinct = v.prepares_distinct;
    commits_distinct = v.commits_distinct;
    prepares_match = v.prepares_match;
    commits_match = v.commits_match;
    prepared_quorum = v.prepared_quorum;
    committed_quorum = v.committed_quorum;
    digest_agrees = λ m' e. ground (arith, string_beq_iff t.digest m.request_digest);
  })
  | inr other ↦ rw other (change_digest-Inv c t m v)
]

step-Inv : (c : Config) (t : TransactionState) (e : Event) → Inv c t → Inv c (step c t e).0
unfolding step check_callbacks
step-Inv c t (pre_prepare_added m) v = add_pre_prepare-Inv c t m v
step-Inv c t (prepare_added m) v = add_prepare-Inv c t m v
step-Inv c t (commit_added m) v = add_commit-Inv c t m v
step-Inv c t callbacks_checked v = fire-Inv c t.preprepare t v

-- Any calls, in any order, keep the invariant.
pub run-Inv : (c : Config) (t : TransactionState) (es : List Event) → Inv c t → Inv c (run c t es).0
unfolding run
run-Inv c t [] v = v
run-Inv c t (e ∷ es) v = run-Inv c (step c t e).0 es (step-Inv c t e v)

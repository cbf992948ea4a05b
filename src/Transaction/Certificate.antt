-- ===== src/Transaction/Certificate.antt =====
-- What stands behind a callback that checkCallbacks starts.
use adaptive_leader.Base.{
  ◌+◌, ◌*◌, ◌≤◌, ◌≡◌, refl, true, List, Option, none, some, length, HasDistinctKeys, string_eq,
  arith, Among,
}
use adaptive_leader.Base.Int64.{Int64}
use adaptive_leader.Config.{Config, f}
use adaptive_leader.Messages.{PrePrepareRequest, CommitRequest}
use adaptive_leader.Transaction.{
  TransactionState, prepared_callback, committed_callback, new_transaction_state, fire,
  check_callbacks, commit_message, Event, run,
}
use adaptive_leader.Transaction.Quorum.{Prepares, Commits, Inv, new-Inv, run-Inv}

-- A callback that is started comes from a raised flag and a pre-prepare.
fire-prepared :
    (c : Config) (p : Option PrePrepareRequest) (t : TransactionState) (m : CommitRequest)
    → Among (prepared_callback m) (fire c p t).1
    → (pp : PrePrepareRequest) × (p ≡ some pp) × (t.prepared ≡ true) × (m ≡ commit_message c pp)
unfolding fire
fire-prepared c none t m h = absurd h
fire-prepared c (some pp) t m h = (pp, refl, ground arith, ground arith)

fire-committed :
    (c : Config) (p : Option PrePrepareRequest) (t : TransactionState) (n : Int64)
    → Among (committed_callback n) (fire c p t).1
    → (pp : PrePrepareRequest) × (p ≡ some pp) × (t.committed ≡ true) × (n ≡ pp.sequence_number)
unfolding fire
fire-committed c none t n h = absurd h
fire-committed c (some pp) t n h = (pp, refl, ground arith, ground arith)

-- A commit message stands for the pre-prepare at hand, and for prepares of at least 2f distinct
-- replicas, each kept under its sender, all for its digest if that is not empty.
abbrev pub PreparedBy : Config → TransactionState → CommitRequest → Type 0
PreparedBy c t m =
    (pp : PrePrepareRequest) × (t.preprepare ≡ some pp)
    × (m ≡ record {
      view_id = pp.view_id;
      sequence_number = pp.sequence_number;
      request_digest = pp.request_digest;
      replica_id = c.id;
    })
    × (2 * f c ≤ length t.prepares)
    × HasDistinctKeys t.prepares
    × Prepares pp.request_digest t.prepares

abbrev pub CommittedBy : Config → TransactionState → Int64 → Type 0
CommittedBy c t n =
    (pp : PrePrepareRequest) × (t.preprepare ≡ some pp)
    × (n ≡ pp.sequence_number)
    × (2 * f c + 1 ≤ length t.commits)
    × HasDistinctKeys t.commits
    × Commits pp.request_digest t.commits

pub Inv-PreparedBy :
    (c : Config) (t : TransactionState) (m : CommitRequest)
    → Inv c t
    → Among (prepared_callback m) (check_callbacks c t).1
    → PreparedBy c t m
unfolding check_callbacks commit_message
Inv-PreparedBy c t m v h =
    let (pp, e, flag, made) = fire-prepared c t.preprepare t m h in
    (
      pp,
      e,
      made,
      v.prepared_quorum flag,
      v.prepares_distinct,
      rw (v.digest_agrees pp e) at v.prepares_match,
    )

pub Inv-CommittedBy :
    (c : Config) (t : TransactionState) (n : Int64)
    → Inv c t
    → Among (committed_callback n) (check_callbacks c t).1
    → CommittedBy c t n
unfolding check_callbacks
Inv-CommittedBy c t n v h =
    let (pp, e, flag, made) = fire-committed c t.preprepare t n h in
    (
      pp,
      e,
      made,
      v.committed_quorum flag,
      v.commits_distinct,
      rw (v.digest_agrees pp e) at v.commits_match,
    )

-- After any calls, in any order, checkCallbacks starts the prepared callback only for the pre-prepare
-- at hand, whose numbers the commit message carries, and with prepares of at least 2f distinct
-- replicas, all for its digest if that is not empty.
prepared_certificate :
    (c : Config) (es : List Event) (m : CommitRequest)
    → Among (prepared_callback m) (check_callbacks c (run c new_transaction_state es).0).1
    → PreparedBy c (run c new_transaction_state es).0 m
prepared_certificate c es m h =
    let t = (run c new_transaction_state es).0 in
    Inv-PreparedBy c t m (run-Inv c new_transaction_state es (new-Inv c)) h

-- After any calls, in any order, checkCallbacks starts the committed callback only for the sequence
-- number of the pre-prepare at hand, and with commits of at least 2f + 1 distinct replicas, all for
-- its digest if that is not empty.
committed_certificate :
    (c : Config) (es : List Event) (n : Int64)
    → Among (committed_callback n) (check_callbacks c (run c new_transaction_state es).0).1
    → CommittedBy c (run c new_transaction_state es).0 n
committed_certificate c es n h =
    let t = (run c new_transaction_state es).0 in
    Inv-CommittedBy c t n (run-Inv c new_transaction_state es (new-Inv c)) h

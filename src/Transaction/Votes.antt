-- ===== src/Transaction/Votes.antt =====
-- The votes that a transaction holds are votes that were added to it.
use adaptive_leader.Base.{
  ◌≡◌, subst, Option, none, some, GoString, ◌==◌, string_eq, Bool-cases, inl, inr, All, All-insert,
  All-delete_if, All-mono, arith,
}
use adaptive_leader.Config.{Config}
use adaptive_leader.Messages.{PrePrepareRequest, PrepareRequest, CommitRequest}
use adaptive_leader.Transaction.{
  TransactionState, new_transaction_state, change_digest, add_pre_prepare, mismatch, add_prepare,
  add_commit, fire, check_callbacks,
}

-- What holds of every prepare, every commit and the pre-prepare of a transaction.
pub record HasVotes (P : PrepareRequest → Type 0) (C : CommitRequest → Type 0)
    (D : PrePrepareRequest → Type 0) (t : TransactionState) : Type 0 where
  pub prepares_hold : All (λ (e : GoString × PrepareRequest). P e.1) t.prepares
  pub commits_hold : All (λ (e : GoString × CommitRequest). C e.1) t.commits
  pub preprepare_holds : (m : PrePrepareRequest) → t.preprepare ≡ some m → D m

module _ (P : PrepareRequest → Type 0) (C : CommitRequest → Type 0)
    (D : PrePrepareRequest → Type 0) where
  pub new-HasVotes : HasVotes P C D new_transaction_state
  unfolding new_transaction_state
  new-HasVotes = record { prepares_hold = tt; commits_hold = tt; preprepare_holds = λ m e. cc }

  module _ (c : Config) (t : TransactionState) (v : HasVotes P C D t) where
    pub add_prepare-HasVotes : (m : PrepareRequest) → P m → HasVotes P C D (add_prepare c t m).0
    unfolding add_prepare
    add_prepare-HasVotes m is = elim (Bool-cases (mismatch t.digest m.request_digest)) [
      | inl refused ↦ rw refused v
      | inr accepted ↦ rw accepted (record {
        prepares_hold = All-insert _ m.replica_id m t.prepares is v.prepares_hold;
        commits_hold = v.commits_hold;
        preprepare_holds = v.preprepare_holds;
      })
    ]

    pub add_commit-HasVotes : (m : CommitRequest) → C m → HasVotes P C D (add_commit c t m).0
    unfolding add_commit
    add_commit-HasVotes m is = elim (Bool-cases (mismatch t.digest m.request_digest)) [
      | inl refused ↦ rw refused v
      | inr accepted ↦ rw accepted (record {
        prepares_hold = v.prepares_hold;
        commits_hold = All-insert _ m.replica_id m t.commits is v.commits_hold;
        preprepare_holds = v.preprepare_holds;
      })
    ]

    pub add_pre_prepare-HasVotes :
        (m : PrePrepareRequest) → D m → HasVotes P C D (add_pre_prepare c t m)
    unfolding add_pre_prepare change_digest
    add_pre_prepare-HasVotes m is =
        let here : (m' : PrePrepareRequest) → some m ≡ some m' → D m' =
          λ m' e. subst D (ground arith) is in
        elim (Bool-cases (t.digest == m.request_digest)) [
          | inl same ↦ rw same (record {
            prepares_hold = v.prepares_hold;
            commits_hold = v.commits_hold;
            preprepare_holds = here;
          })
          | inr other ↦ rw other (record {
            prepares_hold =
                All-mono _ _ (λ e h. h.0) _ (All-delete_if _ _ t.prepares v.prepares_hold);
            commits_hold = All-mono _ _ (λ e h. h.0) _ (All-delete_if _ _ t.commits v.commits_hold);
            preprepare_holds = here;
          })
        ]

    pub check_callbacks-HasVotes : HasVotes P C D (check_callbacks c t).0
    unfolding check_callbacks fire
    check_callbacks-HasVotes = fire-HasVotes t.preprepare
      where
        fire-HasVotes : (p : Option PrePrepareRequest) → HasVotes P C D (fire c p t).0
        fire-HasVotes none = v
        fire-HasVotes (some m) = record {
          prepares_hold = v.prepares_hold;
          commits_hold = v.commits_hold;
          preprepare_holds = v.preprepare_holds;
        }

-- ===== src/Transaction/Examples.antt =====
-- The theorems on transactions at a cluster of four.
use adaptive_leader.Base.{refl, List, [], ◌∷◌, GoString, contains, insert, delete_if, arith}
use adaptive_leader.Base.Int64.{int64}
use adaptive_leader.Messages.{PrePrepareRequest, PrepareRequest, CommitRequest}
use adaptive_leader.Samples.{cluster, node_1, node_2, node_3}
use adaptive_leader.Transaction.{
  new_transaction_state, add_pre_prepare, add_prepare, add_commit, check_callbacks, Event,
  pre_prepare_added, prepare_added, commit_added, callbacks_checked, step, run,
}
use adaptive_leader.Transaction.Liveness.{QuorumNoticed, quorum_noticed}

-- What the tests compute with.
evaluation : Unit {0}
unfolding run step new_transaction_state add_pre_prepare add_prepare add_commit check_callbacks
    insert delete_if contains
evaluation = tt

abbrev pre_prepare : PrePrepareRequest
pre_prepare = record { view_id = int64 0; sequence_number = int64 1; request_digest = [] }

abbrev prepare : GoString → PrepareRequest
prepare id = record {
  view_id = int64 0;
  sequence_number = int64 1;
  request_digest = [];
  replica_id = id;
}

abbrev commit : GoString → CommitRequest
commit id = record {
  view_id = int64 0;
  sequence_number = int64 1;
  request_digest = [];
  replica_id = id;
}

-- The votes come before the pre-prepare.
abbrev early_votes : List Event
early_votes =
    prepare_added (prepare node_1)
    ∷ prepare_added (prepare node_2)
    ∷ commit_added (commit node_1)
    ∷ callbacks_checked
    ∷ commit_added (commit node_2)
    ∷ commit_added (commit node_3)
    ∷ pre_prepare_added pre_prepare
    ∷ []

quorum_noticed_example : QuorumNoticed cluster (run cluster new_transaction_state early_votes)
unfolding evaluation
quorum_noticed_example = quorum_noticed cluster early_votes (omega arith) refl

-- ===== src/Store/Examples.antt =====
-- The theorems on the store at a cluster of four, with a checkpoint at every second number.
use adaptive_leader.Base.{
  ℕ, ◌≡◌, ◌≢◌, refl, [], ◌∷◌, none, some, GoString, codes, lookup, insert, delete_if, arith,
}
use adaptive_leader.Base.Int64.{Int64, int64}
use adaptive_leader.Base.Decimal.{itoa, atoi}
use adaptive_leader.Messages.{Operation, OperationType, ClientRequest, CheckpointRequest}
use adaptive_leader.Samples.{cluster, node_1, node_2, node_3}
use adaptive_leader.Store.Values.{empty_state, apply, apply_all, value_at, digest}
use adaptive_leader.Store.Values.Laws.{Performs, apply-Performs, restore-digest}
use adaptive_leader.Store.{
  Store, CheckpointProof, Executed, get_sequence_number, new_store, new_checkpoint_id, add_requests,
  add_checkpoint_request, stabilize_checkpoint, has_stale, batch_at, commit, start,
}
use adaptive_leader.Store.Execution.{Executes, commit-Executes}
use adaptive_leader.Store.Termination.{commit-returns, commit-stuck}
use adaptive_leader.Store.Stability.{add_repeatedly, one_replica_stabilizes, stabilize_sets_back}

-- What the tests compute with.
evaluation : Unit {0}
unfolding new_store add_requests commit start apply_all apply value_at digest itoa atoi
    add_checkpoint_request stabilize_checkpoint insert delete_if lookup new_checkpoint_id batch_at
    has_stale
evaluation = tt

abbrev add_seven : Operation
add_seven = record { type = OperationType.add; key = []; value = codes "7" }

abbrev request : ClientRequest
request = record {
  client_id = codes "c";
  timestamp_ns = int64 1;
  operation = add_seven;
  callback = codes "localhost:1";
}

-- Numbers 1 and 2 are stored; 2 is committed.
abbrev waiting : Store
waiting = record {
  unstable_checkpoints = [];
  last_stable_checkpoint = none;
  state = record { value = [] };
  requests = (int64 1, request ∷ []) ∷ (int64 2, request ∷ []) ∷ [];
  last_applied_sequence_number = int64 0;
  committed_requests = (int64 2, request ∷ []) ∷ [];
}

abbrev checkpoint : Int64 → GoString → CheckpointRequest
checkpoint n digest = record {
  sequence_number = n;
  state_digest = digest;
  replica_id = node_1;
  view_id = int64 0;
}

-- What committing 1 leaves: both are applied.
abbrev both_applied : Executed
both_applied = record {
  store = record waiting {
    state = record { value = ([], int64 14) ∷ [] };
    last_applied_sequence_number = int64 2;
    committed_requests = (int64 2, request ∷ []) ∷ (int64 1, request ∷ []) ∷ [];
  };
  reqs = request ∷ request ∷ [];
  results = record { value = codes "7" } ∷ record { value = codes "14" } ∷ [];
  checkpoints = record (checkpoint (int64 2) (codes "14")) { replica_id = cluster.id } ∷ [];
}

commits : commit cluster waiting (int64 1) ≡ some both_applied
unfolding evaluation
commits = refl

commit-Executes_example : (n : ℕ) × Executes cluster n (start waiting (int64 1)) both_applied
commit-Executes_example = commit-Executes cluster waiting (int64 1) both_applied commits

commit-returns_example : commit cluster waiting (int64 1) ≢ none
unfolding evaluation
commit-returns_example = commit-returns cluster waiting (int64 1) (omega arith) (omega arith) refl

-- Number 1 was never received with its requests.
abbrev gap : Store
gap = record waiting { requests = (int64 2, request ∷ []) ∷ [] }

commit-stuck_example : commit cluster gap (int64 1) ≡ some (start gap (int64 1))
unfolding evaluation
commit-stuck_example = commit-stuck cluster gap (int64 1) refl refl

-- Two replicas' messages for the checkpoint of 2 have been gathered, and the third completes them.
abbrev gathering : Store
gathering = record both_applied.store {
  unstable_checkpoints =
      (
        record { sequence_number = int64 2; digest = codes "14" },
        record {
          first = checkpoint (int64 2) (codes "14");
          rest = record (checkpoint (int64 2) (codes "14")) { replica_id = node_2 } ∷ [];
        },
      )
      ∷ [];
}

abbrev third : CheckpointRequest
third = record (checkpoint (int64 2) (codes "14")) { replica_id = node_3 }

completed : (add_checkpoint_request cluster gathering third).1 ≡ some (int64 2)
unfolding evaluation
completed = refl

abbrev proof_at : Int64 → GoString → CheckpointProof
proof_at n digest = record {
  first = checkpoint n digest;
  rest = checkpoint n digest ∷ checkpoint n digest ∷ [];
}

one_replica_stabilizes_example :
    get_sequence_number
      (add_repeatedly 3 cluster waiting (checkpoint (int64 8) (codes "99"))).last_stable_checkpoint
    ≡ int64 8
unfolding evaluation
one_replica_stabilizes_example =
    one_replica_stabilizes cluster waiting (checkpoint (int64 8) (codes "99")) refl (omega arith)

-- The replica has applied 2; the checkpoint of 1, at which the value was 7, sets it back from 14.
stabilize_sets_back_example :
    let s = stabilize_checkpoint both_applied.store (proof_at (int64 1) (codes "7")) in
    (s.last_applied_sequence_number ≡ int64 2)
    × (value_at [] s.state ≡ int64 7)
    × ([] ≢ node_1 → value_at node_1 s.state ≡ int64 0)
unfolding evaluation
stabilize_sets_back_example =
    stabilize_sets_back both_applied.store (proof_at (int64 1) (codes "7"))
      (record { value = ([], int64 7) ∷ [] }) node_1 (omega arith) (omega arith) refl refl
      (omega arith)

apply-Performs_example : Performs empty_state add_seven (apply empty_state add_seven)
apply-Performs_example = apply-Performs empty_state add_seven

restore-digest_example :
    let restored =
      (apply empty_state (record {
        type = OperationType.add;
        key = [];
        value = digest (record { value = ([], int64 14) ∷ [] });
      })).0 in
    (value_at [] restored ≡ int64 14) × ([] ≢ node_1 → value_at node_1 restored ≡ int64 0)
unfolding evaluation
restore-digest_example =
    restore-digest (record { value = ([], int64 14) ∷ [] }) node_1 (omega arith)

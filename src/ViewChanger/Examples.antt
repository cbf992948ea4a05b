-- ===== src/ViewChanger/Examples.antt =====
-- The theorems on new views at a cluster of four.
use adaptive_leader.Base.{
  Bool-cases, ◌==◌, ◌⊎◌, inr, contains, string_eq, ◌+◌, ◌<◌, ◌≡◌, refl, List, [], ◌∷◌, some, inl,
  GoString, codes, All, Any, Among, lookup, insert, contains, arith,
}
use adaptive_leader.Base.Int64.{Int64, IsInt64, int64}
use adaptive_leader.Config.{Config}
use adaptive_leader.Messages.{
  PrePrepareRequest, PrepareRequest, ViewChangePreparedMessage, ViewChangeRequest,
}
use adaptive_leader.LeaderElection.{RoundRobin, get_leader}
use adaptive_leader.Samples.{cluster, node_0, node_1, node_2, node_3}
use adaptive_leader.ViewChanger.NewView.{
  get_sequence_range, extract_preprepare_requests, create_preprepare_messages, digest_for,
}
use adaptive_leader.ViewChanger.Defs.{
  new_pbft_view_change, handle_new_view, announce, tell, record_view_change, handle_view_change,
  view_changes_for,
}
use adaptive_leader.ViewChanger.Steps.{run}
use adaptive_leader.ViewChanger.Prepared.{kept_has_proof, proof_is_kept}
use adaptive_leader.ViewChanger.Supporters.{Supported}
use adaptive_leader.ViewChanger.Highest.{AtLeast}
use adaptive_leader.ViewChanger.Range.{Within, Reaches}
use adaptive_leader.ViewChanger.Proposals.{ProposesFrom, create_preprepare_messages_lem}

-- What the tests compute with.
evaluation : Unit {0}
unfolding get_sequence_range extract_preprepare_requests create_preprepare_messages digest_for
    new_pbft_view_change run handle_new_view announce record_view_change handle_view_change
    view_changes_for get_leader lookup insert contains tell
evaluation = tt

-- The leader of view 1.
abbrev pub leader : Config
leader = record cluster { id = node_1 }

abbrev pub election : RoundRobin
election = record { peer_ids = node_0 ∷ node_1 ∷ node_2 ∷ node_3 ∷ [] }

abbrev pub digest : GoString
digest = codes "d"

abbrev prepared : Int64 → PrePrepareRequest
prepared k = record { view_id = int64 0; sequence_number = k; request_digest = digest }

abbrev prepare : Int64 → GoString → PrepareRequest
prepare k id = record {
  view_id = int64 0;
  sequence_number = k;
  request_digest = digest;
  replica_id = id;
}

abbrev pub proof_of : Int64 → ViewChangePreparedMessage
proof_of k = record {
  pre_prepare_request = some (prepared k);
  prepared_messages = prepare k node_1 ∷ prepare k node_2 ∷ [];
}

abbrev pub request : GoString → List ViewChangePreparedMessage → ViewChangeRequest
request id proofs = record {
  new_view_id = int64 1;
  last_stable_sequence_number = int64 0;
  checkpoint_proof = [];
  prepared_proof = proofs;
  replica_id = id;
}

-- A quorum in which one replica has prepared number 2.
abbrev pub requests : List ViewChangeRequest
requests = request node_1 (proof_of (int64 2) ∷ []) ∷ request node_2 [] ∷ request node_3 [] ∷ []

pub small : All (λ vc. IsInt64 vc.last_stable_sequence_number) requests
small = (omega arith, (omega arith, (omega arith, tt)))

create_preprepare_messages_lem_example :
    (ms : List PrePrepareRequest) × (create_preprepare_messages (int64 1) requests 1 ≡ some ms)
    × ProposesFrom (int64 1) requests 1 (int64 0 + 1) (int64 2) ms
    × All (Within (int64 0) (int64 2)) requests
    × ((vc : ViewChangeRequest) × Among vc requests × (vc.last_stable_sequence_number ≡ int64 0))
    × ((int64 2 ≡ int64 0) ⊎ ((vc : ViewChangeRequest) × Among vc requests × Reaches (int64 2) vc))
unfolding evaluation
create_preprepare_messages_lem_example =
    create_preprepare_messages_lem (int64 1) requests 1 (int64 0) (int64 2) small refl (omega arith)

-- The gap is filled with a no-op.
proposes :
    create_preprepare_messages (int64 1) requests 1
    ≡ some (
        record { view_id = int64 1; sequence_number = int64 1; request_digest = codes "nil" }
        ∷ record { view_id = int64 1; sequence_number = int64 2; request_digest = digest }
        ∷ [])
unfolding evaluation
proposes = refl

abbrev kept : List (Int64 × PrePrepareRequest)
kept = (int64 2, prepared (int64 2)) ∷ []

kept_has_proof_example :
    (int64 2 ≡ int64 2)
    × (int64 0 < int64 2)
    × ((proof : ViewChangePreparedMessage) × Any (λ vc. Among proof vc.prepared_proof) requests
        × (proof.pre_prepare_request ≡ some (prepared (int64 2)))
        × Supported (int64 2) digest 2 proof.prepared_messages)
unfolding evaluation
kept_has_proof_example =
    kept_has_proof requests (int64 0) 1 kept (int64 2) (prepared (int64 2)) refl refl

proof_is_kept_example : AtLeast kept (int64 2) (int64 0)
unfolding evaluation
proof_is_kept_example =
    proof_is_kept requests (int64 0) 1 kept (proof_of (int64 2)) (prepared (int64 2)) refl
      (inl (inl refl)) refl (omega arith)
      (
        (node_1, tt {0}) ∷ (node_2, tt {0}) ∷ [],
        (refl, (refl, tt)),
        omega arith,
        λ id h. elim (Bool-cases (node_1 == id)) [
          | inl hit ↦ inl ((string_eq.same_iff node_1 id).0 hit, refl, refl)
          | inr miss ↦
              inr (inl ((string_eq.same_iff node_2 id).0 (ground (arith, h, miss)), refl, refl))
        ],
      )

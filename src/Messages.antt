-- ===== src/Messages.antt =====
-- The protocol's messages: proto/pbft.proto, proto/view_change.proto and proto/client.proto. A
-- decoded repeated field is nil exactly when it is empty, so a slice of messages is a list and nil
-- is []. Submessages that every sender fills in are taken to be present; the pre-prepare of a
-- view-change proof is the one that the program itself can leave nil.
use adaptive_leader.Base.{ℕ, List, Option, GoString}
use adaptive_leader.Base.Int64.{Int64}

-- Enums are open: `other` is a number that names no type.
pub data OperationType : Type 0 where
  get add sub : OperationType
  other : ℕ → OperationType

pub record Operation : Type 0 where
  pub type : OperationType
  pub key : GoString
  pub value : GoString

pub record ClientRequest : Type 0 where
  pub client_id : GoString
  pub timestamp_ns : Int64
  pub operation : Operation
  pub callback : GoString

pub record OperationResult : Type 0 where
  pub value : GoString

pub record ClientResponse : Type 0 where
  pub view_id : Int64
  pub timestamp_ns : Int64
  pub client_id : GoString
  pub replica_id : GoString
  pub result : OperationResult

pub record PrePrepareRequest : Type 0 where
  pub view_id : Int64
  pub sequence_number : Int64
  pub request_digest : GoString

pub record PiggyBackedPrePareRequest : Type 0 where
  pub pre_prepare_request : PrePrepareRequest
  pub requests : List ClientRequest

pub record PrepareRequest : Type 0 where
  pub view_id : Int64
  pub sequence_number : Int64
  pub request_digest : GoString
  pub replica_id : GoString

pub record CommitRequest : Type 0 where
  pub view_id : Int64
  pub sequence_number : Int64
  pub request_digest : GoString
  pub replica_id : GoString

pub record CheckpointRequest : Type 0 where
  pub sequence_number : Int64
  pub state_digest : GoString
  pub replica_id : GoString
  pub view_id : Int64

pub record StatusRequest : Type 0 where
  pub replica_id : GoString

pub record StatusResponse : Type 0 where
  pub last_stable_sequence_number : Int64
  pub checkpoint_proof : List CheckpointRequest

pub record ViewChangePreparedMessage : Type 0 where
  pub pre_prepare_request : Option PrePrepareRequest
  pub prepared_messages : List PrepareRequest

pub record ViewChangeRequest : Type 0 where
  pub new_view_id : Int64
  pub last_stable_sequence_number : Int64
  pub checkpoint_proof : List CheckpointRequest
  pub prepared_proof : List ViewChangePreparedMessage
  pub replica_id : GoString

pub record NewViewRequest : Type 0 where
  pub new_view_id : Int64
  pub view_change_proof : List ViewChangeRequest
  pub preprepares : List PrePrepareRequest
  pub replica_id : GoString

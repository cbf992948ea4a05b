-- ===== src/Node/Invariant.antt =====
-- A node whose transactions hold votes for their own number, and that acts on quorums only. The map of
-- transactions points into the heap, whose transactions each stand for one number.
use adaptive_leader.Base.{
  ℕ, ◌≡◌, List, [], ◌∷◌, Option, some, GoString, All, length, get_elem?, ◌⊎◌,
}
use adaptive_leader.Base.Int64.{Int64}
use adaptive_leader.Config.{Config}
use adaptive_leader.Messages.{PrePrepareRequest, PrepareRequest, CommitRequest}
use adaptive_leader.Transaction.{TransactionState}
use adaptive_leader.Transaction.Quorum
use adaptive_leader.Transaction.Certificate.{PreparedBy, CommittedBy}
use adaptive_leader.Transaction.Votes.{HasVotes}
use adaptive_leader.Node.Defs.{
  Node, TxnRef, Output, Task, broadcast_get_status, broadcast_pre_prepare, broadcast_prepare,
  broadcast_commit, broadcast_checkpoint, request_to_peer, status_to_peer, response_to_client,
  request_executed, adds_to_store, adds_pre_prepare, adds_prepare, adds_commit, checks_callbacks,
  handles_prepared, handles_committed, handles_commit, handles_checkpoint, handles_client_request,
}
pub mod Heap
pub mod Calls
pub mod Handlers
pub mod Commits
pub mod Inputs
pub mod Runs

-- A configuration, and what holds of every prepare and every commit that a node counts, and of every
-- transaction whose callbacks it checks.
module _ (c : Config) (P : PrepareRequest → Type 0) (C : CommitRequest → Type 0)
    (H : TransactionState → Type 0) where
  abbrev pub PrepareFor : Int64 → PrepareRequest → Type 0
  PrepareFor k m = (m.sequence_number ≡ k) × P m

  abbrev pub CommitFor : Int64 → CommitRequest → Type 0
  CommitFor k m = (m.sequence_number ≡ k) × C m

  -- A transaction for a number.
  pub record IsFor (k : Int64) (t : TransactionState) : Type 0 where
    pub quorums : Quorum.Inv c t
    pub votes : HasVotes (PrepareFor k) (CommitFor k) (λ m. m.sequence_number ≡ k) t

  -- A commit message with a quorum of prepares for its number.
  abbrev pub IsPrepared : CommitRequest → Type 0
  IsPrepared m =
      (t : TransactionState) × H t
      × PreparedBy c t m
      × All (λ (e : GoString × PrepareRequest). PrepareFor m.sequence_number e.1) t.prepares

  -- A number with a quorum of commits for it.
  abbrev pub IsCommitted : Int64 → Type 0
  IsCommitted k =
      (t : TransactionState) × H t
      × CommittedBy c t k
      × All (λ (e : GoString × CommitRequest). CommitFor k e.1) t.commits

  -- A goroutine, given the numbers of the transactions in the heap.
  abbrev pub IsDue : List Int64 → Task → Type 0
  IsDue numbers (adds_to_store r msgs) = Unit
  IsDue numbers (adds_pre_prepare r m) = get_elem? numbers r ≡ some m.sequence_number
  IsDue numbers (adds_prepare r m) = (get_elem? numbers r ≡ some m.sequence_number) × P m
  IsDue numbers (adds_commit r m) = (get_elem? numbers r ≡ some m.sequence_number) × C m
  IsDue numbers (checks_callbacks r) = Unit
  IsDue numbers (handles_prepared m) = IsPrepared m
  IsDue numbers (handles_committed k) = IsCommitted k
  IsDue numbers (handles_commit m) = C m
  IsDue numbers (handles_checkpoint m) = Unit
  IsDue numbers (handles_client_request m) = Unit

  abbrev pub IsBacked : Output → Type 0
  IsBacked (broadcast_get_status m) = Unit
  IsBacked (broadcast_pre_prepare m) = Unit
  IsBacked (broadcast_prepare m) = Unit
  IsBacked (broadcast_commit m) = IsPrepared m
  IsBacked (broadcast_checkpoint m) = Unit
  IsBacked (request_to_peer id m) = Unit
  IsBacked (status_to_peer id m) = Unit
  IsBacked (response_to_client address m) = Unit
  IsBacked (request_executed view_id) = Unit

  pub record Inv (numbers : List Int64) (n : Node) : Type 0 where
    pub same_config : n.config ≡ c
    pub one_each : length numbers ≡ length n.heap
    pub known :
        All
          (λ (e : Int64 × TxnRef). get_elem? numbers e.1 ≡ some e.0)
          n.view_data.transaction_states
    pub due : All (IsDue numbers) n.spawned
    pub backed : All IsBacked n.sent
    pub kept :
        (r : TxnRef) (k : Int64) (t : TransactionState)
        → get_elem? numbers r ≡ some k
        → get_elem? n.heap r ≡ some t
        → IsFor k t

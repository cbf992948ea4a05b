-- ===== src/Transaction.antt =====
-- pbft/transaction_state.go: the votes that one sequence number has gathered. The lock of each method
-- makes it one step. A method that reaches `go t.checkCallbacks()` says so by its flag; the two
-- callbacks, which checkCallbacks starts as goroutines, are values here.
pub mod Quorum
pub mod Certificate
pub mod Liveness
pub mod Repeats
pub mod Votes
mod Examples
use adaptive_leader.Base.{
  ℕ, suc, ◌+◌, ◌*◌, Bool, true, false, ◌&&◌, not, List, [], ◌∷◌, ◌++◌, Option, none, some, GoString,
  Map, length, values, insert, delete_if, ◌==◌, ltb, leb, if◌then◌else◌, string_eq, nat_eq, is_some,
}
use adaptive_leader.Base.Int64.{Int64}
use adaptive_leader.Config.{Config, f}
use adaptive_leader.Messages.{PrePrepareRequest, PrepareRequest, CommitRequest}

pub record TransactionState : Type 0 where
  pub digest : GoString
  pub preprepare : Option PrePrepareRequest
  pub prepares : Map GoString PrepareRequest
  pub commits : Map GoString CommitRequest
  pub prepared : Bool
  pub committed : Bool

unfoldable pub new_transaction_state : TransactionState
new_transaction_state = record {
  digest = [];
  preprepare = none;
  prepares = [];
  commits = [];
  prepared = false;
  committed = false;
}

-- The branch that a new digest takes: votes for another digest go, and the flags with them.
pub change_digest : Config → GoString → TransactionState → TransactionState
change_digest c digest t =
    let prepares = delete_if (λ _ v. not (digest == v.request_digest)) t.prepares in
    let commits = delete_if (λ _ v. not (digest == v.request_digest)) t.commits in
    record {
      digest = digest;
      preprepare = t.preprepare;
      prepares = prepares;
      commits = commits;
      prepared = if ltb (length prepares) (2 * f c) then false else t.prepared;
      committed = if leb (length commits) (2 * f c) then false else t.committed;
    }

-- checkCallbacks is always started.
unfoldable pub add_pre_prepare : Config → TransactionState → PrePrepareRequest → TransactionState
unfolding change_digest
add_pre_prepare c t preprepare =
    let same = t.digest == preprepare.request_digest in
    let t' = if same then t else change_digest c preprepare.request_digest t in
    record t' { preprepare = some preprepare }

-- With a digest known, a vote for another one is refused.
pub mismatch : GoString → GoString → Bool
mismatch [] digest = false
mismatch (x ∷ xs) digest = not ((x ∷ xs) == digest)

unfoldable pub add_prepare : Config → TransactionState → PrepareRequest → TransactionState × Bool
unfolding mismatch
add_prepare c t prepare =
    let prepares = insert prepare.replica_id prepare t.prepares in
    let reached = length prepares == 2 * f c in
    if mismatch t.digest prepare.request_digest
    then (t, false)
    else (record t { prepares = prepares; prepared = if reached then true else t.prepared }, true)

unfoldable pub add_commit : Config → TransactionState → CommitRequest → TransactionState × Bool
unfolding mismatch
add_commit c t commit =
    let commits = insert commit.replica_id commit t.commits in
    let reached = length commits == 2 * f c + 1 in
    if mismatch t.digest commit.request_digest
    then (t, false)
    else (record t { commits = commits; committed = if reached then true else t.committed }, true)

unfoldable pub is_prepared : Config → TransactionState → Bool
is_prepared c t = leb (2 * f c) (length t.prepares)

unfoldable pub get_prepares : TransactionState → List PrepareRequest
get_prepares t = values t.prepares

pub data Callback : Type 0 where
  prepared_callback : CommitRequest → Callback
  committed_callback : Int64 → Callback

unfoldable pub commit_message : Config → PrePrepareRequest → CommitRequest
commit_message c preprepare = record {
  view_id = preprepare.view_id;
  sequence_number = preprepare.sequence_number;
  request_digest = preprepare.request_digest;
  replica_id = c.id;
}

-- With no pre-prepare nothing happens; otherwise each raised flag is lowered and its callback started.
pub fire : Config → Option PrePrepareRequest → TransactionState → TransactionState × List Callback
unfolding commit_message
fire c none t = (t, [])
fire c (some preprepare) t =
    let on_prepared =
      if t.prepared then prepared_callback (commit_message c preprepare) ∷ [] else [] in
    let on_committed =
      if t.committed then committed_callback preprepare.sequence_number ∷ [] else [] in
    (record t { prepared = false; committed = false }, on_prepared ++ on_committed)

unfoldable pub check_callbacks : Config → TransactionState → TransactionState × List Callback
unfolding fire
check_callbacks c t = fire c t.preprepare t

-- The calls of a transaction's methods.
pub data Event : Type 0 where
  pre_prepare_added : PrePrepareRequest → Event
  prepare_added : PrepareRequest → Event
  commit_added : CommitRequest → Event
  callbacks_checked : Event

pub step : Config → TransactionState → Event → TransactionState × List Callback
step c t (pre_prepare_added m) = (add_pre_prepare c t m, [])
step c t (prepare_added m) = ((add_prepare c t m).0, [])
step c t (commit_added m) = ((add_commit c t m).0, [])
step c t callbacks_checked = check_callbacks c t

-- The state after some calls, and the callbacks that they started.
pub run : Config → TransactionState → List Event → TransactionState × List Callback
run c t [] = (t, [])
run c t (e ∷ es) =
    let (t', fired) = step c t e in let (t'', later) = run c t' es in (t'', fired ++ later)

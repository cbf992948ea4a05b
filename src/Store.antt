-- ===== src/Store.antt =====
-- pbft/store.go: checkpoints, requests and their execution. The lock of each method makes it one
-- step; its gauges and logs are left out. The map of values is in Store/Values.antt.
pub mod Values
pub mod Execution
pub mod Termination
pub mod Checkpoints
pub mod Stability
mod Examples
use adaptive_leader.Base.{
  ℕ, zero, suc, ◌+◌, ◌*◌, ◌%◌, Bool, true, false, ◌&&◌, List, [], ◌∷◌, ◌++◌, Option, none, some,
  GoString, Map, HasEq, length, lookup, insert, delete_if, ◌==◌, ltb, leb, if◌then◌else◌, nat_eq,
  string_eq, arith, nat_beq, string_beq, nat_beq_iff, string_beq_iff, ◌≡◌, ◌↔◌,
}
use adaptive_leader.Base.Int64.{Int64, int64, inc64, magnitude}
use adaptive_leader.Config.{Config, f}
use adaptive_leader.Messages.{ClientRequest, OperationResult, CheckpointRequest, OperationType}
use Values.{State, empty_state, apply, apply_all, digest}

-- A list of checkpoint messages that is never empty: `proof[0]` is `first`.
pub record CheckpointProof : Type 0 where
  pub first : CheckpointRequest
  pub rest : List CheckpointRequest

abbrev pub proof : CheckpointProof → List CheckpointRequest
proof p = p.first ∷ p.rest

-- The methods take a nil proof as well.
abbrev pub get_sequence_number : Option CheckpointProof → Int64
get_sequence_number none = int64 0
get_sequence_number (some p) = p.first.sequence_number

abbrev pub get_proof : Option CheckpointProof → List CheckpointRequest
get_proof none = []
get_proof (some p) = proof p

pub record CheckpointId : Type 0 where
  pub sequence_number : Int64
  pub digest : GoString

abbrev id_beq : CheckpointId → CheckpointId → Bool
id_beq a b =
    if nat_beq a.sequence_number b.sequence_number then string_beq a.digest b.digest else false

pub id_beq_iff : (a b : CheckpointId) → (id_beq a b ≡ true) ↔ (a ≡ b)
id_beq_iff a b = ground (arith, string_beq_iff a.digest b.digest)

instance abbrev pub id_eq : HasEq CheckpointId
id_eq = record { same = id_beq; same_iff = id_beq_iff }

pub record Store : Type 0 where
  pub unstable_checkpoints : Map CheckpointId CheckpointProof
  pub last_stable_checkpoint : Option CheckpointProof
  pub state : State
  pub requests : Map Int64 (List ClientRequest)
  pub last_applied_sequence_number : Int64
  pub committed_requests : Map Int64 (List ClientRequest)

unfoldable pub new_store : Store
unfolding empty_state
new_store = record {
  unstable_checkpoints = [];
  last_stable_checkpoint = none;
  state = empty_state;
  requests = [];
  last_applied_sequence_number = int64 0;
  committed_requests = [];
}

unfoldable pub new_checkpoint_id : CheckpointRequest → CheckpointId
new_checkpoint_id m = record { sequence_number = m.sequence_number; digest = m.state_digest }

newer_proof : Option CheckpointProof → CheckpointProof → CheckpointProof
newer_proof none new = new
newer_proof (some old) new =
    if ltb old.first.sequence_number new.first.sequence_number then new else old

-- `none` is a panic: an empty proof has no `proof[0]`.
unfoldable pub update_last_stable_checkpoint : Store → List CheckpointRequest → Option Store
unfolding newer_proof
update_last_stable_checkpoint s [] = none
update_last_stable_checkpoint s (m ∷ ms) =
    let applied = s.last_applied_sequence_number in
    some (record s {
      last_stable_checkpoint =
          some (newer_proof s.last_stable_checkpoint (record { first = m; rest = ms }));
      last_applied_sequence_number =
          if ltb applied m.sequence_number then m.sequence_number else applied;
    })

-- `for key := range m { if key <= n { ... } }` found a key.
pub has_stale : Int64 → Map Int64 (List ClientRequest) → Bool
has_stale n [] = false
has_stale n ((k, batch) ∷ m) = if leb k n then true else has_stale n m

drop_stale : Int64 → Map Int64 (List ClientRequest) → Map Int64 (List ClientRequest)
drop_stale n = delete_if (λ k _. leb k n)

pub restore : GoString → State
unfolding empty_state
restore digest =
    (apply empty_state (record { type = OperationType.add; key = []; value = digest })).0

unfoldable pub stabilize_checkpoint : Store → CheckpointProof → Store
unfolding has_stale drop_stale restore
stabilize_checkpoint s p =
    let n = p.first.sequence_number in
    let applied = s.last_applied_sequence_number in
    let stable = record s {
      last_stable_checkpoint = some p;
      unstable_checkpoints =
          delete_if (λ _ q. leb q.first.sequence_number n) s.unstable_checkpoints;
      requests = drop_stale n s.requests;
      committed_requests = drop_stale n s.committed_requests;
      state = if has_stale n s.committed_requests then restore p.first.state_digest else s.state;
      last_applied_sequence_number = if ltb applied n then n else applied;
    } in
    if leb n (get_sequence_number s.last_stable_checkpoint) then s else stable

abbrev pub append_proof : Option CheckpointProof → CheckpointRequest → CheckpointProof
append_proof none m = record { first = m; rest = [] }
append_proof (some p) m = record p { rest = p.rest ++ m ∷ [] }

-- Returns the sequence number of the checkpoint that 2f + 1 messages have made stable.
unfoldable pub add_checkpoint_request : Config → Store → CheckpointRequest → Store × Option Int64
unfolding stabilize_checkpoint new_checkpoint_id
add_checkpoint_request c s m =
    let id = new_checkpoint_id m in
    let p = append_proof (lookup id s.unstable_checkpoints) m in
    let s' = record s { unstable_checkpoints = insert id p s.unstable_checkpoints } in
    if ltb m.sequence_number (get_sequence_number s.last_stable_checkpoint)
    then (s, none)
    else if length (proof p) == 2 * f c + 1
    then (stabilize_checkpoint s' p, some p.first.sequence_number)
    else (s', none)

unfoldable pub add_requests : Store → Int64 → List ClientRequest → Store
add_requests s n batch = record s { requests = insert n batch s.requests }

-- `m[n]`, nil when it is missing.
pub batch_at : Int64 → Map Int64 (List ClientRequest) → List ClientRequest
batch_at n m = elim (lookup n m) [ none ↦ [] | some batch ↦ batch ]

abbrev pub is_nil : List ClientRequest → Bool
is_nil [] = true
is_nil (r ∷ rs) = false

-- The variables of Commit's loop.
pub record Executed : Type 0 where
  pub store : Store
  pub reqs : List ClientRequest
  pub results : List OperationResult
  pub checkpoints : List CheckpointRequest

pub new_checkpoint : Config → Int64 → State → CheckpointRequest
new_checkpoint c n state = record {
  sequence_number = n;
  state_digest = digest state;
  replica_id = c.id;
  view_id = int64 0;
}

-- The loop's body and its `lastAppliedSequenceNumber++`.
pub execute_next : Config → Executed → Executed
unfolding batch_at new_checkpoint
execute_next c e =
    let s = e.store in
    let n = inc64 s.last_applied_sequence_number in
    let batch = batch_at n s.requests in
    let (state, results) = apply_all s.state batch in
    let due = magnitude n % c.general.checkpoint_interval == 0 in
    record {
      store = record s { state = state; last_applied_sequence_number = n };
      reqs = e.reqs ++ batch;
      results = e.results ++ results;
      checkpoints = e.checkpoints ++ (if due then new_checkpoint c n state ∷ [] else []);
    }

-- `none`: the fuel ran out, or the interval is 0 and `%` panics.
pub commit_loop : ℕ → Config → Executed → Option Executed
unfolding batch_at
commit_loop zero c e = none
commit_loop (suc fuel) c e =
    let s = e.store in
    let next = batch_at (inc64 s.last_applied_sequence_number) s.committed_requests in
    let on = commit_loop fuel c (execute_next c e) in
    if is_nil next then some e else if c.general.checkpoint_interval == 0 then none else on

-- Commit's first write, and the loop's variables before the first round.
pub start : Store → Int64 → Executed
unfolding batch_at
start s n = record {
  store = record s { committed_requests = insert n (batch_at n s.requests) s.committed_requests };
  reqs = [];
  results = [];
  checkpoints = [];
}

-- A round passes each committed sequence number once, so their count is fuel enough.
unfoldable pub commit : Config → Store → Int64 → Option Executed
unfolding commit_loop execute_next start
commit c s n = commit_loop (suc (length (start s n).store.committed_requests)) c (start s n)

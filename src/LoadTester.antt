-- ===== src/LoadTester.antt =====
-- load_tester/scenarios/periodic_failure.go and the results of load_tester/load_tester.go: the scenario
-- that disables and enables one node after the other. Tickers and calls over gRPC are outside: a tick
-- is a step, and the calls are recorded.
pub mod Turns
mod Examples
use adaptive_leader.Base.{
  ℕ, zero, suc, ◌+◌, ◌-◌, ◌%◌, Bool, true, false, not, List, [], ◌∷◌, ◌++◌, Option, none, some,
  GoString, Map, keys, length, get_elem?, if◌then◌else◌, ◌>>=◌,
}
use adaptive_leader.Config.{Address}
use adaptive_leader.LeaderElection.{sort}

pub record ClientResult : Type 0 where
  pub sent : ℕ
  pub done : ℕ
  pub failed : ℕ

pub add : ClientResult → ClientResult → ClientResult
add r other = record {
  sent = r.sent + other.sent;
  done = r.done + other.done;
  failed = r.failed + other.failed;
}

-- A call of Enable or of Disable at a node.
pub data Toggle : Type 0 where
  enables disables : GoString → Toggle

-- The loop's variables, and the calls so far. Go's `curIdx` starts at -1 if there are no nodes, and here
-- at 0; the first tick then panics.
pub record PeriodicFailure : Type 0 where
  pub node_ids : List GoString
  pub cur_idx : ℕ
  pub is_enable_turn : Bool
  pub toggles : List Toggle

unfoldable pub start : List GoString → PeriodicFailure
unfolding sort
start ids = record {
  node_ids = sort ids;
  cur_idx = length (sort ids) - 1;
  is_enable_turn = false;
  toggles = [];
}

abbrev pub call : Toggle → PeriodicFailure → PeriodicFailure
call t s = record s { is_enable_turn = not s.is_enable_turn; toggles = s.toggles ++ t ∷ [] }

-- The node of an index is called; `none` is the panic of an index out of range.
abbrev pub enable_turn : PeriodicFailure → Option PeriodicFailure
enable_turn s = get_elem? s.node_ids s.cur_idx >>= λ id. some (call (enables id) s)

-- `none` is also the panic of a division by zero nodes.
abbrev pub disable_turn : PeriodicFailure → ℕ → Option PeriodicFailure
disable_turn s zero = none
disable_turn s (suc n) =
    let next = (s.cur_idx + 1) % suc n in
    get_elem? s.node_ids next >>= λ id. some (call (disables id) (record s { cur_idx = next }))

unfoldable pub tick : PeriodicFailure → Option PeriodicFailure
tick s = if s.is_enable_turn then enable_turn s else disable_turn s (length s.node_ids)

unfoldable pub ticks : ℕ → PeriodicFailure → Option PeriodicFailure
unfolding tick
ticks zero s = some s
ticks (suc n) s = do s' ← tick s; ticks n s'

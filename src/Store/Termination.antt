-- ===== src/Store/Termination.antt =====
-- Commit's loop ends, and what it returns fits together.
use mathlib.Core.Bool.{false≢true}
use adaptive_leader.Base.{
  ℕ, zero, suc, ◌+◌, ◌≤◌, ◌<◌, ◌≡◌, refl, sym, ap, ◌∙◌, ◌≢◌, true, false, List, [], ◌∷◌, none, some,
  Map, length, lookup, insert, lookup-insert, ◌==◌, ltb, if◌then◌else◌, nat_eq, arith, Bool-cases,
  inl, inr, ltb→lt, ltb→le, ≢→==,
}
use adaptive_leader.Base.Int64.{Int64, IsInt64, inc64, inc64-of_lt, min_int64, max_int64}
use adaptive_leader.Config.{Config}
use adaptive_leader.Messages.{ClientRequest}
use adaptive_leader.Store.Values.{State, apply, apply_all}
use adaptive_leader.Store.{
  Store, Executed, batch_at, is_nil, execute_next, commit_loop, commit, start,
}
use adaptive_leader.Store.Execution.{
  batches, next_batch, commit_loop-suc, commit-eq, commit-Executes,
}

-- How many entries have a key above l.
above : Int64 → Map Int64 (List ClientRequest) → ℕ
above l [] = 0
above l ((k, batch) ∷ m) = let rest = above l m in if ltb l k then suc rest else rest

above-le-length : (l : Int64) (m : Map Int64 (List ClientRequest)) → above l m ≤ length m
unfolding above
above-le-length l [] = omega arith
above-le-length l ((k, batch) ∷ m) = ground (arith, above-le-length l m)

above-suc-le : (l : Int64) (m : Map Int64 (List ClientRequest)) → above (l + 1) m ≤ above l m
unfolding above
above-suc-le l [] = omega arith
above-suc-le l ((k, batch) ∷ m) = ground (arith, above-suc-le l m)

-- Passing a number that is there leaves fewer above.
above-suc-lt :
    (l : Int64) (m : Map Int64 (List ClientRequest))
    → is_nil (batch_at (l + 1) m) ≡ false
    → above (l + 1) m < above l m
unfolding above batch_at lookup
above-suc-lt l [] h = cc
above-suc-lt l ((k, batch) ∷ m) h = ground (arith, above-suc-lt l m, above-suc-le l m)

-- If the next number is there, the count has not wrapped.
next-above :
    (l : Int64) (m : Map Int64 (List ClientRequest))
    → IsInt64 l
    → is_nil (batch_at min_int64 m) ≡ true
    → is_nil (batch_at (inc64 l) m) ≡ false
    → inc64 l ≡ l + 1
next-above l m range low h = elim (Bool-cases (ltb l max_int64)) [
  | inl below ↦ inc64-of_lt l (ltb→lt l max_int64 below)
  | inr top ↦
      let wrapped : inc64 l ≡ min_int64 = omega (arith, ltb→le l max_int64 top) in
      absurd (false≢true (sym h ∙ ap (λ k. is_nil (batch_at k m)) wrapped ∙ low))
]

execute_next_lem :
    (c : Config) (e : Executed)
    → ((execute_next c e).store.last_applied_sequence_number
        ≡ inc64 e.store.last_applied_sequence_number)
      × ((execute_next c e).store.committed_requests ≡ e.store.committed_requests)
unfolding execute_next
execute_next_lem c e = (refl, refl)

commit_loop-returns :
    (fuel : ℕ) (c : Config) (e : Executed)
    → c.general.checkpoint_interval ≢ 0
    → IsInt64 e.store.last_applied_sequence_number
    → is_nil (batch_at min_int64 e.store.committed_requests) ≡ true
    → above e.store.last_applied_sequence_number e.store.committed_requests < fuel
    → commit_loop fuel c e ≢ none
commit_loop-returns zero c e i range low h = absurd (omega arith)
commit_loop-returns (suc fuel) c e i range low h =
    let l = e.store.last_applied_sequence_number in
    let m = e.store.committed_requests in
    elim (Bool-cases (is_nil (next_batch e))) [
      | inl done ↦ rw (commit_loop-suc fuel c e, done) (λ p. cc)
      | inr more ↦
          let step = next-above l m range low more in
          let fewer = above-suc-lt l m (rw step at more) in
          let (applied, kept) = execute_next_lem c e in
          let on =
            commit_loop-returns fuel c (execute_next c e) i (rw applied (omega arith)) (rw kept low)
              (rw (applied, kept, step) (omega arith)) in
          rw (commit_loop-suc fuel c e, more, ≢→== c.general.checkpoint_interval 0 i) on
    ]

nat_beq→≡ : (a b : ℕ) → (a == b) ≡ true → a ≡ b
nat_beq→≡ a b h = ground arith

start-range :
    (s : Store) (k : Int64)
    → IsInt64 s.last_applied_sequence_number
    → IsInt64 (start s k).store.last_applied_sequence_number
unfolding start
start-range s k h = h

batch_at-insert :
    (k j : Int64) (batch : List ClientRequest) (m : Map Int64 (List ClientRequest))
    → batch_at j (insert k batch m) ≡ (if k == j then batch else batch_at j m)
unfolding batch_at
batch_at-insert k j batch m = ground (arith, lookup-insert k j batch m)

nothing_next :
    (s : Store) (k : Int64)
    → is_nil (batch_at (inc64 s.last_applied_sequence_number) s.requests) ≡ true
    → is_nil (batch_at (inc64 s.last_applied_sequence_number) s.committed_requests) ≡ true
    → is_nil (next_batch (start s k)) ≡ true
unfolding start
nothing_next s k r m =
    let next = inc64 s.last_applied_sequence_number in
    rw (batch_at-insert k next (batch_at k s.requests) s.committed_requests)
      (elim (Bool-cases (k == next)) [
        | inl same ↦ rw (same, nat_beq→≡ k next same) r
        | inr different ↦ rw different m
      ])

-- Commit returns, with a checkpoint interval that is not 0, a last applied number in the range of
-- int64 and nothing committed under the smallest int64.
pub commit-returns :
    (c : Config) (s : Store) (k : Int64)
    → c.general.checkpoint_interval ≢ 0
    → IsInt64 s.last_applied_sequence_number
    → is_nil (batch_at min_int64 (start s k).store.committed_requests) ≡ true
    → commit c s k ≢ none
commit-returns c s k i range low = rw (commit-eq c s k) (
    commit_loop-returns _ c (start s k) i (start-range s k range) low (
      omega (
        arith,
        above-le-length (start s k).store.last_applied_sequence_number
            (start s k).store.committed_requests,
      )))

length-apply_all : (s : State) (rs : List ClientRequest) → length (apply_all s rs).1 ≡ length rs
unfolding apply_all
length-apply_all s [] = refl
length-apply_all s (r ∷ rs) = ap suc (length-apply_all (apply s r.operation).0 rs)

-- When Commit returns, it returns as many results as requests.
pub commit-length :
    (c : Config) (s : Store) (k : Int64) (e : Executed)
    → commit c s k ≡ some e
    → length e.results ≡ length e.reqs
unfolding start
commit-length c s k e h =
    let (n, x) = commit-Executes c s k e h in
    let reqs = batches n s.last_applied_sequence_number s.requests in
    rw (x.results, x.reqs) (length-apply_all s.state reqs)

-- While the number after the last applied one has no requests, stored or committed, no Commit
-- executes anything, whichever number it is called with.
pub commit-stuck :
    (c : Config) (s : Store) (k : Int64)
    → is_nil (batch_at (inc64 s.last_applied_sequence_number) s.requests) ≡ true
    → is_nil (batch_at (inc64 s.last_applied_sequence_number) s.committed_requests) ≡ true
    → commit c s k ≡ some (start s k)
commit-stuck c s k r m =
    rw (commit-eq c s k) (rw (commit_loop-suc _ c (start s k), nothing_next s k r m))

-- ===== src/Store/Execution.antt =====
-- Commit executes exactly the unbroken run of committed sequence numbers above the last applied one.
use mathlib.Core.List.{append-nil, append_assoc}
use adaptive_leader.Base.{
  ℕ, zero, suc, ◌%◌, ◌≡◌, refl, sym, ap, ◌∙◌, true, false, List, [], ◌∷◌, ◌++◌, Option, none, some,
  Map, length, ◌==◌, if◌then◌else◌, nat_eq, arith, Bool-cases, inl, inr, subst,
}
use adaptive_leader.Base.Int64.{Int64, inc64, magnitude}
use adaptive_leader.Config.{Config}
use adaptive_leader.Messages.{ClientRequest, CheckpointRequest}
use adaptive_leader.Store.Values.{State, apply, apply_all}
use adaptive_leader.Store.{
  Store, Executed, batch_at, is_nil, execute_next, commit_loop, commit, new_checkpoint, start,
}

-- The sequence number n steps on.
abbrev advance : ℕ → Int64 → Int64
advance zero l = l
advance (suc n) l = advance n (inc64 l)

-- The batches of the n numbers after l, in order.
pub batches : ℕ → Int64 → Map Int64 (List ClientRequest) → List ClientRequest
batches zero l m = []
batches (suc n) l m = batch_at (inc64 l) m ++ batches n (inc64 l) m

-- The n numbers after l all have a batch.
abbrev AllThere : ℕ → Int64 → Map Int64 (List ClientRequest) → Type 0
AllThere zero l m = Unit
AllThere (suc n) l m = (is_nil (batch_at (inc64 l) m) ≡ false) × AllThere n (inc64 l) m

-- The checkpoints due among the n numbers after l, each with the state after its batch.
pub due_checkpoints :
    Config → ℕ → Int64 → State → Map Int64 (List ClientRequest) → List CheckpointRequest
due_checkpoints c zero l s m = []
due_checkpoints c (suc n) l s m =
    let next = inc64 l in
    let s' = (apply_all s (batch_at next m)).0 in
    let rest = due_checkpoints c n next s' m in
    (if magnitude next % c.general.checkpoint_interval == 0
      then new_checkpoint c next s' ∷ []
      else [])
    ++ rest

-- `after` comes from `before` by executing the n numbers that follow the last applied one.
pub record Executes (c : Config) (n : ℕ) (before after : Executed) : Type 0 where
  pub applied :
      after.store.last_applied_sequence_number ≡ advance n before.store.last_applied_sequence_number
  pub there : AllThere n before.store.last_applied_sequence_number before.store.committed_requests
  pub stops :
      is_nil
        (batch_at (inc64 after.store.last_applied_sequence_number) before.store.committed_requests)
      ≡ true
  pub reqs :
      after.reqs
      ≡ before.reqs ++ batches n before.store.last_applied_sequence_number before.store.requests
  pub state :
      after.store.state
      ≡ (apply_all before.store.state
          (batches n before.store.last_applied_sequence_number before.store.requests)).0
  pub results :
      after.results
      ≡ before.results
        ++ (apply_all before.store.state
            (batches n before.store.last_applied_sequence_number before.store.requests)).1
  pub checkpoints :
      after.checkpoints
      ≡ before.checkpoints
        ++ due_checkpoints c n before.store.last_applied_sequence_number before.store.state
            before.store.requests
  rest_kept :
      (after.store.requests ≡ before.store.requests)
      × (after.store.committed_requests ≡ before.store.committed_requests)
      × (after.store.last_stable_checkpoint ≡ before.store.last_stable_checkpoint)
      × (after.store.unstable_checkpoints ≡ before.store.unstable_checkpoints)

apply_all-append :
    (s : State) (xs ys : List ClientRequest)
    → apply_all s (xs ++ ys) ≡ (
      (apply_all (apply_all s xs).0 ys).0,
      (apply_all s xs).1 ++ (apply_all (apply_all s xs).0 ys).1,
    )
unfolding apply_all
apply_all-append s [] ys = refl
apply_all-append s (x ∷ xs) ys = rw (apply_all-append (apply s x.operation).0 xs ys)

Executes-zero :
    (c : Config) (e : Executed)
    → is_nil (batch_at (inc64 e.store.last_applied_sequence_number) e.store.committed_requests)
      ≡ true
    → Executes c 0 e e
unfolding batches due_checkpoints apply_all
Executes-zero c e h = record {
  applied = refl;
  there = tt;
  stops = h;
  reqs = sym (append-nil _);
  state = refl;
  results = sym (append-nil _);
  checkpoints = sym (append-nil _);
  rest_kept = (refl, refl, refl, refl);
}

Executes-suc :
    (c : Config) (n : ℕ) (e e' : Executed)
    → is_nil (batch_at (inc64 e.store.last_applied_sequence_number) e.store.committed_requests)
      ≡ false
    → Executes c n (execute_next c e) e'
    → Executes c (suc n) e e'
unfolding batches due_checkpoints execute_next
Executes-suc c n e e' h x =
    let l = e.store.last_applied_sequence_number in
    let batch = batch_at (inc64 l) e.store.requests in
    let rest = batches n (inc64 l) e.store.requests in
    let (state', results') = apply_all e.store.state batch in
    let twice = apply_all-append e.store.state batch rest in
    record {
      applied = x.applied;
      there = (h, x.there);
      stops = x.stops;
      reqs = x.reqs ∙ append_assoc e.reqs batch rest;
      state = x.state ∙ sym (ap (λ p. p.0) twice);
      results =
          x.results
          ∙ append_assoc e.results results' (apply_all state' rest).1
          ∙ ap (λ r. e.results ++ r) (sym (ap (λ p. p.1) twice));
      checkpoints =
          x.checkpoints
          ∙ append_assoc e.checkpoints
              (if magnitude (inc64 l) % c.general.checkpoint_interval == 0
                then new_checkpoint c (inc64 l) state' ∷ []
                else [])
              (due_checkpoints c n (inc64 l) state' e.store.requests);
      rest_kept = x.rest_kept;
    }

abbrev pub next_batch : Executed → List ClientRequest
next_batch e = batch_at (inc64 e.store.last_applied_sequence_number) e.store.committed_requests

pub commit_loop-suc :
    (fuel : ℕ) (c : Config) (e : Executed)
    → commit_loop (suc fuel) c e ≡ (
        if is_nil (next_batch e)
        then some e
        else if c.general.checkpoint_interval == 0
        then none
        else commit_loop fuel c (execute_next c e))
unfolding commit_loop
commit_loop-suc fuel c e = refl

some-eq {ℓ} : {A : Type ℓ} {a b : A} → some a ≡ some b → a ≡ b
some-eq h = cc

commit_loop-on :
    (c : Config) (o : Option Executed) {e : Executed}
    → (if c.general.checkpoint_interval == 0 then none else o) ≡ some e
    → o ≡ some e
commit_loop-on c o h = ground arith

commit_loop-Executes :
    (fuel : ℕ) (c : Config) (e e' : Executed)
    → commit_loop fuel c e ≡ some e'
    → (n : ℕ) × Executes c n e e'
unfolding commit_loop
commit_loop-Executes zero c e e' h = cc
commit_loop-Executes (suc fuel) c e e' h = elim (Bool-cases (is_nil (next_batch e))) [
  | inl done ↦
      let same = some-eq (rw (commit_loop-suc fuel c e, done) at h) in
      (0, subst (Executes c 0 e) same (Executes-zero c e done))
  | inr more ↦
      let on =
        commit_loop-on c (commit_loop fuel c (execute_next c e))
          (rw (commit_loop-suc fuel c e, more) at h) in
      let (n, x) = commit_loop-Executes fuel c (execute_next c e) e' on in
      (suc n, Executes-suc c n e e' more x)
]

pub commit-eq :
    (c : Config) (s : Store) (k : Int64)
    → commit c s k ≡ commit_loop (suc (length (start s k).store.committed_requests)) c (start s k)
unfolding commit
commit-eq c s k = refl

-- Whatever Commit returns comes from executing, in order, the committed numbers right after the
-- last applied one, up to the first that is missing: their requests as stored, the values and
-- results of applying these, and a checkpoint with the digest of its moment at every multiple of
-- the interval; the rest of the store stays.
pub commit-Executes :
    (c : Config) (s : Store) (k : Int64) (e : Executed)
    → commit c s k ≡ some e
    → (n : ℕ) × Executes c n (start s k) e
commit-Executes c s k e h = commit_loop-Executes _ c (start s k) e (rw (commit-eq c s k) at h)

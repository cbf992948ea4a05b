-- ===== src/ViewChanger/Timeouts.antt =====
-- The timeouts of a view changer whose timer fires again and again.
use native.Mathlib.Nat.{one-le-pow, le-mul_of_pos_right}
use native.Mathlib.Omega.{pow_step}
use adaptive_leader.Base.{
  ℕ, zero, suc, ◌+◌, ◌-◌, ◌*◌, ◌^◌, ◌≤◌, ◌<◌, ◌≡◌, refl, sym, ap, ◌∙◌, inl, inr, GoString, ◌++◌, [],
  ◌∷◌, Option, some, true, length, arith, ◌>>=◌, Option-cases,
}
use adaptive_leader.Base.Int64.{Int64, int64, inc64, add64}
use adaptive_leader.Messages.{NewViewRequest}
use adaptive_leader.LeaderElection.{get_leader}
use adaptive_leader.LeaderElection.Rotation.{get_leader_periodic}
use adaptive_leader.ViewChanger.Defs.{
  PbftViewChange, timer_fires, start_leader_election, handle_new_view, node_goes_to_view_change,
  votes, election_ends, tell, start_task,
}

unfoldable pub fire_times : ℕ → PbftViewChange → Option PbftViewChange
unfolding timer_fires
fire_times zero p = some p
fire_times (suc k) p = timer_fires p >>= fire_times k

-- A view changer that waits in a view change since some firings of its timer.
pub record Waiting (p q : PbftViewChange) (n v k : ℕ) : Type 0 where
  pub fired : fire_times k p ≡ some q
  pub in_view : q.view_id ≡ int64 (v + k)
  pub next_timeout : q.current_view_change_timeout ≡ int64 (n * 2 ^ k)
  pub same_base : q.base_view_change_timeout ≡ p.base_view_change_timeout
  pub resets :
      (msg : NewViewRequest)
      → (handle_new_view q msg).current_view_change_timeout ≡ p.base_view_change_timeout
  pub waits : 0 < k → (q.view_timer ≡ int64 (n * 2 ^ (k - 1))) × (q.in_view_change ≡ true)

-- The view changer of a view that its timer began.
abbrev after_firing : PbftViewChange → Int64 → GoString → PbftViewChange
after_firing p view_id leader = record p {
  in_view_change = true;
  view_id = view_id;
  leader_for_view = [];
  sent = p.sent ++ node_goes_to_view_change ∷ [];
  spawned = (p.spawned ++ election_ends view_id leader ∷ []) ++ votes view_id ∷ [];
  view_timer = p.current_view_change_timeout;
  current_view_change_timeout = add64 p.current_view_change_timeout p.current_view_change_timeout;
}

fires_once :
    (p : PbftViewChange) (n v : ℕ)
    → 0 < length p.leader_election.peer_ids
    → p.view_id ≡ int64 v
    → v + 1 < 2 ^ 63
    → p.current_view_change_timeout ≡ int64 n
    → 2 * n < 2 ^ 63
    → (q : PbftViewChange) × (timer_fires p ≡ some q)
      × (q.view_id ≡ int64 (v + 1))
      × (q.leader_election ≡ p.leader_election)
      × (q.current_view_change_timeout ≡ int64 (2 * n))
      × (q.base_view_change_timeout ≡ p.base_view_change_timeout)
      × (q.view_timer ≡ int64 n)
      × (q.in_view_change ≡ true)
unfolding timer_fires start_leader_election tell start_task
fires_once p n v peers at small timeout fits =
    let next : inc64 p.view_id ≡ int64 (v + 1) = omega arith in
    let doubled : add64 p.current_view_change_timeout p.current_view_change_timeout
        ≡ int64 (2 * n) =
      omega arith in
    elim (Option-cases (get_leader p.leader_election (int64 (v + 1)))) [
      | inl e ↦ absurd ((get_leader_periodic p.leader_election (v + 1) peers).0 e)
      | inr (leader, e) ↦ (
        after_firing p (int64 (v + 1)) leader,
        rw (next, e) refl,
        refl,
        refl,
        doubled,
        refl,
        timeout,
        refl,
      )
    ]

doubled_pow : (n k : ℕ) → n * 2 ^ suc k ≡ 2 * n * 2 ^ k
doubled_pow n k = ap (λ m. n * m) (pow_step 2 k) ∙ omega arith

waits_on :
    (k n : ℕ) (p q : PbftViewChange)
    → p.view_timer ≡ int64 n
    → p.in_view_change ≡ true
    → fire_times k p ≡ some q
    → (0 < k → (q.view_timer ≡ int64 (2 * n * 2 ^ (k - 1))) × (q.in_view_change ≡ true))
    → (q.view_timer ≡ int64 (n * 2 ^ (suc k - 1))) × (q.in_view_change ≡ true)
unfolding fire_times
waits_on zero n p q timer waiting fired waits =
    let same : p ≡ q = ground arith in
    (
      sym (ap (λ r. r.view_timer) same) ∙ timer ∙ ap int64 (omega arith),
      sym (ap (λ r. r.in_view_change) same) ∙ waiting,
    )
waits_on (suc k) n p q timer waiting fired waits =
    let (timer', waiting') = waits (omega arith) in
    let less_one : suc k - 1 ≡ k = omega arith in
    let more_one : suc (suc k) - 1 ≡ suc k = omega arith in
    (
      timer'
          ∙ ap (λ i. int64 (2 * n * 2 ^ i)) less_one
          ∙ ap int64 (sym (doubled_pow n k))
          ∙ ap (λ i. int64 (n * 2 ^ i)) (sym more_one),
      waiting',
    )

timeouts_lem :
    (k n v : ℕ) (p : PbftViewChange)
    → 0 < length p.leader_election.peer_ids
    → p.view_id ≡ int64 v
    → v + k < 2 ^ 63
    → p.current_view_change_timeout ≡ int64 n
    → n * 2 ^ k < 2 ^ 63
    → (q : PbftViewChange) × Waiting p q n v k
unfolding fire_times handle_new_view tell
timeouts_lem zero n v p peers at small timeout fits = (
  p,
  record {
    fired = refl;
    in_view = at ∙ ap int64 (omega arith);
    next_timeout = timeout ∙ ap int64 (omega arith);
    same_base = refl;
    resets = λ msg. refl;
    waits = λ h. absurd (omega arith);
  },
)
timeouts_lem (suc k) n v p peers at small timeout fits =
    let grows : n * 2 ^ (suc k) ≡ 2 * n * 2 ^ k = doubled_pow n k in
    let pos : 0 < 2 ^ k = one-le-pow k 2 (omega arith) in
    let fits_once : 2 * n ≤ 2 * n * 2 ^ k = le-mul_of_pos_right (2 * n) pos in
    let (p', e, at', same, timeout', base, timer, waiting) =
      fires_once p n v peers at (omega arith) timeout (omega arith) in
    let (q, w) =
      timeouts_lem k (2 * n) (v + 1) p' (rw same peers) at' (omega arith) timeout' (omega arith) in
    (
      q,
      record {
        fired = rw e w.fired;
        in_view = w.in_view ∙ ap int64 (omega arith);
        next_timeout = w.next_timeout ∙ ap int64 (sym grows);
        same_base = w.same_base ∙ base;
        resets = λ msg. w.resets msg ∙ base;
        waits = λ _. waits_on k n p' q timer waiting w.fired w.waits;
      },
    )

-- A timer that fires k + 1 times in a row, with no new view between, takes a view changer k + 1
-- views on, and it then waits 2 ^ k times the timeout that there was at first; a new view sets the
-- timeout back to the base. There is a peer, and the views and the timeouts stay in the range of
-- int64.
pub timeouts_double :
    (k n v : ℕ) (p : PbftViewChange) (msg : NewViewRequest)
    → 0 < length p.leader_election.peer_ids
    → p.view_id ≡ int64 v
    → v + suc k < 2 ^ 63
    → p.current_view_change_timeout ≡ int64 n
    → n * 2 ^ suc k < 2 ^ 63
    → (q : PbftViewChange) × (fire_times (suc k) p ≡ some q)
      × (q.view_id ≡ int64 (v + suc k))
      × (q.in_view_change ≡ true)
      × (q.view_timer ≡ int64 (n * 2 ^ k))
      × ((handle_new_view q msg).current_view_change_timeout ≡ p.base_view_change_timeout)
timeouts_double k n v p msg peers at small timeout fits =
    let (q, w) = timeouts_lem (suc k) n v p peers at small timeout fits in
    let (timer, waiting) = w.waits (omega arith) in
    let less_one : suc k - 1 ≡ k = omega arith in
    (q, w.fired, w.in_view, waiting, timer ∙ ap (λ i. int64 (n * 2 ^ i)) less_one, w.resets msg)

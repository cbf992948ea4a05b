-- ===== src/LeaderElection/Rotation.antt =====
-- Leadership goes round: every peer leads one of any n consecutive views.
use native.Mathlib.Nat.{mod-lt, mod-eq_of_lt, mod-add-mod, add-mod-mod, add-mod_right}
use adaptive_leader.Base.{
  ℕ, ◌+◌, ◌-◌, ◌%◌, ◌^◌, ◌<◌, ◌≡◌, ap, ◌∙◌, ◌≢◌, none, length, get_elem?, get_elem?-of_lt, arith,
  sym,
}
use adaptive_leader.Base.Int64.{int64}
use adaptive_leader.LeaderElection.{RoundRobin, get_leader}

get_leader-int64 :
    (r : RoundRobin) (v : ℕ)
    → 0 < length r.peer_ids
    → get_leader r (int64 v) ≡ get_elem? r.peer_ids (v % length r.peer_ids)
unfolding get_leader
get_leader-int64 r v h =
    let plain : (v + 2 ^ 63 - 2 ^ 63) + (2 ^ 63 - (v + 2 ^ 63)) ≡ v = omega arith in
    ground (arith, ap (λ m. m % length r.peer_ids) plain)

-- With a peer at least, a view has a leader, and n views later the same peer leads again.
pub get_leader_periodic :
    (r : RoundRobin) (v : ℕ)
    → 0 < length r.peer_ids
    → (get_leader r (int64 v) ≢ none)
      × (get_leader r (int64 (v + length r.peer_ids)) ≡ get_leader r (int64 v))
get_leader_periodic r v h =
    let (leader, e) = get_elem?-of_lt r.peer_ids (v % length r.peer_ids) (mod-lt v h) in
    (
      rw (get_leader-int64 r v h, e) (λ p. cc),
      rw (
        get_leader-int64 r (v + length r.peer_ids) h,
        get_leader-int64 r v h,
        add-mod_right v (length r.peer_ids),
      ),
    )

-- How many views after v the peer at an index leads.
wait : ℕ → ℕ → ℕ → ℕ
wait n v i = (i + (n - v % n)) % n

wait_lem : (n v i : ℕ) → i < n → (v + wait n v i) % n ≡ i
unfolding wait
wait_lem n v i h =
    let small = mod-lt v {m = n} (omega arith) in
    let regroup : v % n + (i + (n - v % n)) ≡ i + n = omega arith in
    add-mod-mod v (i + (n - v % n)) n
    ∙ sym (mod-add-mod v n (i + (n - v % n)))
    ∙ ap (λ m. m % n) regroup
    ∙ add-mod_right i n
    ∙ mod-eq_of_lt h

-- From any view on, every peer becomes the leader within n views, for n peers.
every_peer_leads :
    (r : RoundRobin) (v i : ℕ)
    → i < length r.peer_ids
    → (j : ℕ) × (j < length r.peer_ids) × (get_leader r (int64 (v + j)) ≡ get_elem? r.peer_ids i)
unfolding wait
every_peer_leads r v i h =
    let n = length r.peer_ids in
    let some_peer : 0 < n = omega arith in
    (
      wait n v i,
      mod-lt _ some_peer,
      get_leader-int64 r (v + wait n v i) some_peer ∙ ap (get_elem? r.peer_ids) (wait_lem n v i h),
    )

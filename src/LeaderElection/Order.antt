-- ===== src/LeaderElection/Order.antt =====
-- The order in which the peers' map is visited does not matter: the sorted ids are the same.
use adaptive_leader.Base.{◌≡◌, refl, ap, ◌∙◌, true, false, List, [], ◌∷◌, GoString, arith}
use adaptive_leader.Config.{Config}
use adaptive_leader.LeaderElection.{
  string_le, insert_sorted, sort, ids, RoundRobin, new_round_robin_leader_election,
}
use native.Mathlib.Decide.{ℕ_discrete}
use mathlib.Core.Path.{ap₂}
use mathlib.Core.List.{Perm, Permᴰ}
use mathlib.Core.Logic.{∥∥₁_elim}

string_le_antisym : (s t : GoString) → string_le s t ≡ true → string_le t s ≡ true → s ≡ t
unfolding string_le
string_le_antisym [] [] p q = refl
string_le_antisym [] (y ∷ ys) p q = cc
string_le_antisym (x ∷ xs) [] p q = cc
string_le_antisym (x ∷ xs) (y ∷ ys) p q = ground (arith, string_le_antisym xs ys)

string_le_total : (s t : GoString) → string_le s t ≡ false → string_le t s ≡ true
unfolding string_le
string_le_total [] t p = cc
string_le_total (x ∷ xs) [] p = refl
string_le_total (x ∷ xs) (y ∷ ys) p = ground (arith, string_le_total xs ys)

string_le_trans :
    (s t u : GoString) → string_le s t ≡ true → string_le t u ≡ true → string_le s u ≡ true
unfolding string_le
string_le_trans [] t u p q = refl
string_le_trans (x ∷ xs) [] u p q = cc
string_le_trans (x ∷ xs) (y ∷ ys) [] p q = cc
string_le_trans (x ∷ xs) (y ∷ ys) (z ∷ zs) p q = ground (arith, string_le_trans xs ys zs)

insert_sorted_comm :
    (s t : GoString) (us : List GoString)
    → insert_sorted s (insert_sorted t us) ≡ insert_sorted t (insert_sorted s us)
unfolding insert_sorted
insert_sorted_comm s t [] = ground (arith, string_le_antisym s t, string_le_total s t)
insert_sorted_comm s t (u ∷ us) = ground (
  arith,
  string_le_antisym s t,
  string_le_total s t,
  string_le_trans s t u,
  string_le_trans t s u,
  string_le_total s u,
  string_le_total t u,
  insert_sorted_comm s t us,
)

sort-Permᴰ : {xs ys : List GoString} → Permᴰ xs ys → sort xs ≡ sort ys
unfolding sort
sort-Permᴰ Permᴰ.nil = refl
sort-Permᴰ (Permᴰ.cons e p) = ap₂ insert_sorted e (sort-Permᴰ p)
sort-Permᴰ (Permᴰ.swap {a = s} {b = t} {l = us} e e') =
    rw (← e, ← e') (insert_sorted_comm s t (sort us))
sort-Permᴰ (Permᴰ.trans p q) = sort-Permᴰ p ∙ sort-Permᴰ q

RoundRobin-set : IsSet RoundRobin
RoundRobin-set = hlevel ℕ_discrete

-- Two replicas whose configurations list the same peers, in whatever order their maps are visited,
-- build the same election.
pub new_round_robin-of_perm :
    (c d : Config)
    → Perm (ids c.peers_address) (ids d.peers_address)
    → new_round_robin_leader_election c ≡ new_round_robin_leader_election d
unfolding new_round_robin_leader_election
new_round_robin-of_perm c d p =
    ∥∥₁_elim p (RoundRobin-set _ _) (λ q. ap (λ ss. record { peer_ids = ss }) (sort-Permᴰ q))

-- ===== src/Config/Replicas.antt =====
-- The ids and addresses of the replicas.
use adaptive_leader.Base.{
  suc, ◌≡◌, refl, ◌≢◌, true, false, [], ◌∷◌, GoString, Map, length, contains, string_eq,
  string_beq_iff, All, HasDistinctKeys, arith,
}
use adaptive_leader.Config.{Config, Address, other_ids, replica_ids}

-- The node's own id is not among the others.
other_ids-ne :
    (self : GoString) (peers : Map GoString Address) → All (λ id. id ≢ self) (other_ids self peers)
unfolding other_ids
other_ids-ne self [] = tt
other_ids-ne self ((id, address) ∷ peers) =
    ground (arith, string_beq_iff id self, other_ids-ne self peers)

other_ids-length :
    (self : GoString) (peers : Map GoString Address)
    → contains self peers ≡ false
    → length (other_ids self peers) ≡ length peers
unfolding other_ids contains
other_ids-length self [] h = refl
other_ids-length self ((id, address) ∷ peers) h = ground (arith, other_ids-length self peers)

other_ids-length_member :
    (self : GoString) (peers : Map GoString Address)
    → HasDistinctKeys peers
    → contains self peers ≡ true
    → suc (length (other_ids self peers)) ≡ length peers
unfolding other_ids contains
other_ids-length_member self [] d h = ground arith
other_ids-length_member self ((id, address) ∷ peers) d h = ground (
  arith,
  string_beq_iff id self,
  other_ids-length self peers,
  other_ids-length_member self peers d.1,
)

-- A node that is one of its peers lists each of the n replicas once: itself, then the n - 1 others.
length-replica_ids :
    (c : Config)
    → HasDistinctKeys c.peers_address
    → contains c.id c.peers_address ≡ true
    → (length (replica_ids c) ≡ length c.peers_address)
      × All (λ id. id ≢ c.id) (other_ids c.id c.peers_address)
unfolding replica_ids
length-replica_ids c d h =
    (other_ids-length_member c.id c.peers_address d h, other_ids-ne c.id c.peers_address)

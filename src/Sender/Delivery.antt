-- ===== src/Sender/Delivery.antt =====
-- Where a broadcast goes, and how often it is tried.
use adaptive_leader.Base.{
  ℕ, ◌≡◌, refl, sym, ap, ◌∙◌, Bool, true, List, [], ◌∷◌, GoString, Map, keys, contains,
  contains-lookup, is_some, lookup, ==_refl, All, All-mono, ◌==◌, string_eq, arith, Bool-cases, inl,
  inr,
}
use adaptive_leader.Config.{Config, Address, other_ids}
use adaptive_leader.Sender.Retries.{Ends, send_to_peer_lem}
use adaptive_leader.Sender.{
  Message, Call, calls, dispatch, Attempt, other_nodes, Sender, new_sender, broadcast, broadcast_to,
}

-- A broadcast goes to every peer but the node itself, each once.
other_nodes-keys :
    (self : GoString) (peers : Map GoString Address)
    → keys (other_nodes self peers) ≡ other_ids self peers
unfolding other_nodes other_ids
other_nodes-keys self [] = refl
other_nodes-keys self ((id, address) ∷ peers) = elim (Bool-cases (id == self)) [
  | inl own ↦ rw own (other_nodes-keys self peers)
  | inr other ↦ rw other (ap (λ ids. id ∷ ids) (other_nodes-keys self peers))
]

broadcast_to-keys :
    (s : Sender) (nodes : Map GoString Address) (method : GoString) (message : Message)
    (succeeds : GoString → ℕ → Call → Bool)
    → keys (broadcast_to s nodes method message succeeds) ≡ keys nodes
unfolding broadcast_to
broadcast_to-keys s [] method message succeeds = refl
broadcast_to-keys s ((id, address) ∷ nodes) method message succeeds =
    ap (λ ids. id ∷ ids) (broadcast_to-keys s nodes method message succeeds)

-- A map has its keys.
contains_keys :
    {V : Type 0} (m : Map GoString V) → All (λ (e : GoString × V). contains e.0 m ≡ true) m
unfolding contains
contains_keys [] = tt
contains_keys ((k, v) ∷ m) =
    (rw (==_refl k) refl, All-mono _ _ (λ e h. ground (arith, h)) m (contains_keys m))

module _ (method : GoString) (message : Message) (c : Call)
    (typed : dispatch method message ≡ calls c) (succeeds : GoString → ℕ → Call → Bool)
    (s : Sender) where
  broadcast_to-Ends :
      (nodes : Map GoString Address)
      → All (λ (e : GoString × Address). contains e.0 s.nodes ≡ true) nodes
      → All
          (λ (e : GoString × List Attempt). Ends c (succeeds e.0) s.max_retries 0 e.1)
          (broadcast_to s nodes method message succeeds)
  unfolding broadcast_to
  broadcast_to-Ends [] h = tt
  broadcast_to-Ends ((id, address) ∷ nodes) (known, h) =
      let present : is_some (lookup id s.nodes) ≡ true = sym (contains-lookup id s.nodes) ∙ known in
      (
        elim (send_to_peer_lem method message c (succeeds id) typed s id) [
          | inl (missing, made) ↦ absurd (ground (arith, present, missing))
          | inr (client, here, made) ↦ made
        ],
        broadcast_to-Ends nodes h,
      )

-- A broadcast by a new sender of a message that passes its switch goes to every peer but the node
-- itself, in the map's order; to each it is tried until an attempt succeeds, and as many times as
-- there are retries if none does.
pub broadcast_lem :
    (config : Config) (max_retries : ℕ) (method : GoString) (message : Message) (c : Call)
    (succeeds : GoString → ℕ → Call → Bool)
    → dispatch method message ≡ calls c
    → let sent = broadcast (new_sender config max_retries) method message succeeds in
      (keys sent ≡ other_ids config.id config.peers_address)
      × All (λ (e : GoString × List Attempt). Ends c (succeeds e.0) max_retries 0 e.1) sent
unfolding broadcast new_sender
broadcast_lem config max_retries method message c succeeds typed =
    let s = new_sender config max_retries in
    let nodes = other_nodes config.id config.peers_address in
    (
      broadcast_to-keys s nodes method message succeeds
          ∙ other_nodes-keys config.id config.peers_address,
      broadcast_to-Ends method message c typed succeeds s nodes (contains_keys nodes),
    )

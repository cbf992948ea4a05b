-- ===== src/ViewChanger/Sender/Ports.antt =====
-- The ports that the view changer's connections lead to.
use adaptive_leader.Base.{
  ◌+◌, ◌≡◌, ◌≢◌, refl, sym, ap, ◌∙◌, subst, true, false, List, [], ◌∷◌, Option, none, some, inl,
  inr, ◌⊎◌, GoString, Map, All, keys, lookup, lookup-insert, lookup-insert_self, insert, ◌==◌,
  if◌then◌else◌, string_eq, arith, Bool-cases, Option-cases,
}
use adaptive_leader.Config.{Address}
use adaptive_leader.ViewChanger.Sender.{
  Heap, Sender, Sent, Message, new_sender, add_1000, get_client, calls_to, send_request, is_of_type,
  send_rpc_to_peer, broadcast_to, broadcast,
}

-- The ids but one, in order.
pub others : GoString → List GoString → List GoString
others self [] = []
others self (id ∷ ids) = if id == self then others self ids else id ∷ others self ids

some-inj : {A : Type 0} {a b : A} → some a ≡ some b → a ≡ b
some-inj e = cc

abbrev plus_1000 : Address → Address
plus_1000 a = record a { port = a.port + 1000 }

-- A sender that alone uses its configuration: it has connected to a replica at its service's port, 1000
-- above the configured one, and has moved the port of the record with it; or it has done neither.
abbrev pub Alone : Heap → Sender → Heap → Type 0
Alone base s heap =
    (id : GoString)
    → ((lookup id s.conns ≡ none) × (lookup id heap ≡ lookup id base))
      ⊎ ((a : Address) × (lookup id base ≡ some a)
          × (lookup id s.conns ≡ some (plus_1000 a))
          × (lookup id heap ≡ some (plus_1000 a)))

pub new-Alone :
    (self : GoString) (ids : List GoString) (base : Heap) → Alone base (new_sender self ids) base
unfolding new_sender lookup
new-Alone self ids base id = inl (refl, refl)

-- A key is inserted, and others stay.
lookup-insert_ne :
    (id other : GoString) (a : Address) (m : Map GoString Address)
    → (id == other) ≡ false
    → lookup other (insert id a m) ≡ lookup other m
lookup-insert_ne id other a m ne = lookup-insert id other a m ∙ ground (arith, ne)

-- A first connection to a replica.
connect-Alone :
    (base : Heap) (s : Sender) (heap : Heap) (id : GoString) (a : Address)
    → Alone base s heap
    → lookup id base ≡ some a
    → Alone base (record s { conns = insert id (plus_1000 a) s.conns }) (add_1000 id a heap)
unfolding add_1000
connect-Alone base s heap id a v at other = elim (Bool-cases (id == other)) [
  | inl here ↦
      let same : id ≡ other = (string_eq.same_iff id other).0 here in
      inr (
        a,
        subst (λ i. lookup i base ≡ some a) same at,
        subst (λ i. lookup i (insert id (plus_1000 a) s.conns) ≡ some (plus_1000 a)) same
            (lookup-insert_self id (plus_1000 a) s.conns),
        subst (λ i. lookup i (insert id (plus_1000 a) heap) ≡ some (plus_1000 a)) same
            (lookup-insert_self id (plus_1000 a) heap),
      )
  | inr ne ↦ elim (v other) [
    | inl (no_conn, same) ↦ inl (
      lookup-insert_ne id other (plus_1000 a) s.conns ne ∙ no_conn,
      lookup-insert_ne id other (plus_1000 a) heap ne ∙ same,
    )
    | inr (b, there, conn, moved) ↦ inr (
      b,
      there,
      lookup-insert_ne id other (plus_1000 a) s.conns ne ∙ conn,
      lookup-insert_ne id other (plus_1000 a) heap ne ∙ moved,
    )
  ]
]

-- Every target, if NewClient takes it, is that of the replica's view-change service.
abbrev IsReached : Heap → GoString → Option Address → Type 0
IsReached base id client =
    ((lookup id base ≡ none) × (client ≡ none))
    ⊎ ((a : Address) × (lookup id base ≡ some a) × (client ≡ some (plus_1000 a)))

pub get_client-Alone :
    (base : Heap) (s : Sender) (heap : Heap) (id : GoString)
    → Alone base s heap
    → let ((s', heap'), client) = get_client (λ _. true) s heap id in
      Alone base s' heap' × (s'.id ≡ s.id) × IsReached base id client
unfolding get_client
get_client-Alone base s heap id v = elim (v id) [
  | inr (a, at, conn, moved) ↦ rw (conn, get_client) (v, refl, inr (a, at, refl))
  | inl (no_conn, same) ↦ elim (Option-cases (lookup id base)) [
    | inl missing ↦ rw (no_conn, get_client, same, missing) (v, refl, inl (refl, refl))
    | inr (a, at) ↦
        rw (no_conn, get_client, same, at)
          (connect-Alone base s heap id a v at, refl, inr (a, refl, refl))
  ]
]

-- What is sent to a replica: the message, once, to its view-change service, if it has an address.
abbrev pub Reaches : Heap → Message → GoString → List Sent → Type 0
Reaches base msg id sent =
    ((lookup id base ≡ none) × (sent ≡ []))
    ⊎ ((a : Address) × (lookup id base ≡ some a) × (sent ≡ (plus_1000 a, msg) ∷ []))

module _ (base : Heap) (msg_type : GoString) (msg : Message)
    (typed : is_of_type msg_type msg ≡ true) where
  send-Alone :
      (s : Sender) (heap : Heap) (id : GoString)
      → Alone base s heap
      → let ((s', heap'), sent) = send_rpc_to_peer (λ _. true) s heap id msg_type msg in
        Alone base s' heap' × (s'.id ≡ s.id) × Reaches base msg id sent
  unfolding send_rpc_to_peer send_request
  send-Alone s heap id v =
      let (alone, same, reached) = get_client-Alone base s heap id v in
      rw (typed, send_rpc_to_peer)
        (
          alone,
          same,
          elim reached [
            | inl (missing, e) ↦ inl (missing, ap (calls_to msg) e)
            | inr (a, at, e) ↦ inr (a, at, ap (calls_to msg) e)
          ],
        )

  broadcast_to-Alone :
      (ids : List GoString) (s : Sender) (heap : Heap)
      → Alone base s heap
      → let ((s', heap'), sent) = broadcast_to (λ _. true) ids s heap msg_type msg in
        Alone base s' heap'
        × (keys sent ≡ others s.id ids)
        × All (λ (e : GoString × List Sent). Reaches base msg e.0 e.1) sent
  unfolding broadcast_to others
  broadcast_to-Alone [] s heap v = (v, refl, tt)
  broadcast_to-Alone (id ∷ ids) s heap v = elim (Bool-cases (id == s.id)) [
    | inl own ↦ rw own (broadcast_to-Alone ids s heap v)
    | inr other ↦
        let ((s₁, heap₁), sent) = send_rpc_to_peer (λ _. true) s heap id msg_type msg in
        let (v₁, same, reaches) = send-Alone s heap id v in
        let (v₂, reached, all) = broadcast_to-Alone ids s₁ heap₁ v₁ in
        rw other (v₂, ap (λ is. id ∷ is) (reached ∙ ap (λ i. others i ids) same), (reaches, all))
  ]

-- While one sender alone uses a configuration, a broadcast of a message of its type goes to every
-- replica that it lists but itself, once and in order, each time to the port 1000 above the
-- configured one; and it leaves things so that this holds of the next broadcast. A replica with no
-- address gets nothing. NewClient is taken to accept every target.
pub broadcast-Alone :
    (base : Heap) (s : Sender) (heap : Heap) (msg_type : GoString) (msg : Message)
    → is_of_type msg_type msg ≡ true
    → Alone base s heap
    → let ((s', heap'), sent) = broadcast (λ _. true) s heap msg_type msg in
      Alone base s' heap'
      × (keys sent ≡ others s.id s.ids)
      × All (λ (e : GoString × List Sent). Reaches base msg e.0 e.1) sent
unfolding broadcast
broadcast-Alone base s heap msg_type msg typed v =
    broadcast_to-Alone base msg_type msg typed s.ids s heap v

-- Two senders share a configuration, and one has connected to a replica: the other, when it first
-- connects to it, gets a port 2000 above the configured one.
pub second_sender_misses :
    (base : Heap) (s t : Sender) (heap : Heap) (id : GoString) (a : Address)
    → Alone base s heap
    → lookup id base ≡ some a
    → lookup id s.conns ≢ none
    → lookup id t.conns ≡ none
    → (get_client (λ _. true) t heap id).1 ≡ some (plus_1000 (plus_1000 a))
unfolding get_client
second_sender_misses base s t heap id a v at connected fresh = elim (v id) [
  | inl (no_conn, same) ↦ absurd (connected no_conn)
  | inr (b, there, conn, moved) ↦
      let alike : a ≡ b = some-inj (sym at ∙ there) in
      rw (fresh, get_client, moved) (ap (λ x. some (plus_1000 (plus_1000 x))) (sym alike))
]

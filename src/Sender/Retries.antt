-- ===== src/Sender/Retries.antt =====
-- The loop of SendRPCToPeer.
use adaptive_leader.Base.{
  ℕ, zero, suc, ◌+◌, ◌<◌, ◌≡◌, refl, ap, ◌∙◌, subst, Bool, true, false, List, [], ◌∷◌, ◌++◌, none,
  some, inl, inr, ◌⊎◌, GoString, lookup, arith, Bool-cases, Option-cases, string_eq,
}
use adaptive_leader.Config.{Address}
use adaptive_leader.Sender.{
  Message, Call, calls, dispatch, Attempt, called, refused, send_rpc_to_peer, attempts, Sender,
  send_to_peer,
}

pub replicate : {A : Type 0} → ℕ → A → List A
replicate zero a = []
replicate (suc n) a = a ∷ replicate n a

-- The attempts of a call from the i-th on: failures up to a success, which is the last, or as many
-- failures as there are attempts left.
abbrev pub Ends : Call → (ℕ → Call → Bool) → ℕ → ℕ → List Attempt → Type 0
Ends c succeeds left i made =
    ((j : ℕ) × (j < left)
      × (succeeds (i + j) c ≡ true)
      × (made ≡ replicate j (called c false) ++ called c true ∷ []))
    ⊎ (((j : ℕ) → j < left → succeeds (i + j) c ≡ false) × (made ≡ replicate left (called c false)))

module _ (method : GoString) (message : Message) (c : Call) (succeeds : ℕ → Call → Bool)
    (typed : dispatch method message ≡ calls c) where
  one_attempt :
      (client : Address) (i : ℕ)
      → send_rpc_to_peer (some client) method message (succeeds i) ≡ called c (succeeds i c)
  unfolding send_rpc_to_peer
  one_attempt client i = rw (typed, send_rpc_to_peer) refl

  attempts-Ends :
      (client : Address) (left i : ℕ)
      → Ends c succeeds left i (attempts left i (some client) method message succeeds)
  unfolding attempts replicate
  attempts-Ends client zero i = inr ((λ j h. absurd (omega (arith, h))), refl)
  attempts-Ends client (suc left) i = elim (Bool-cases (succeeds i c)) [
    | inl ok ↦ inl (
      0,
      omega arith,
      subst (λ k. succeeds k c ≡ true) (omega arith) ok,
      ground (arith, one_attempt client i, ok),
    )
    | inr fails ↦
        let here = one_attempt client i ∙ ap (called c) fails in
        elim (attempts-Ends client left (i + 1)) [
          | inl (j, below, ok, made) ↦ inl (
            suc j,
            omega (arith, below),
            subst (λ k. succeeds k c ≡ true) (omega arith) ok,
            rw here (ap (λ xs. called c false ∷ xs) made),
          )
          | inr (never, made) ↦
              inr ((λ j h. later j h fails never), rw here (ap (λ xs. called c false ∷ xs) made))
        ]
  ]
    where
      later :
          (j : ℕ)
          → j < suc left
          → succeeds i c ≡ false
          → ((k : ℕ) → k < left → succeeds (i + 1 + k) c ≡ false)
          → succeeds (i + j) c ≡ false
      later zero h fails never = subst (λ k. succeeds k c ≡ false) (omega arith) fails
      later (suc j) h fails never =
          subst (λ k. succeeds k c ≡ false) (omega arith) (never j (omega (arith, h)))

  attempts_nil :
      (left i : ℕ) → attempts left i none method message succeeds ≡ replicate left refused
  unfolding attempts replicate send_rpc_to_peer
  attempts_nil zero i = refl
  attempts_nil (suc left) i = ap (λ xs. refused ∷ xs) (attempts_nil left (i + 1))

  pub send_to_peer_lem :
      (s : Sender) (id : GoString)
      → ((lookup id s.nodes ≡ none)
          × (send_to_peer s id method message succeeds ≡ replicate s.max_retries refused))
        ⊎ ((client : Address) × (lookup id s.nodes ≡ some client)
            × Ends c succeeds s.max_retries 0 (send_to_peer s id method message succeeds))
  unfolding send_to_peer
  send_to_peer_lem s id = elim (Option-cases (lookup id s.nodes)) [
    | inl missing ↦ inl (missing, rw missing (attempts_nil s.max_retries 0))
    | inr (client, e) ↦ inr (client, e, rw e (attempts-Ends client s.max_retries 0))
  ]

-- ===== src/Node/Prepared.antt =====
-- The prepared requests that a node gives to its view changer.
use adaptive_leader.Base.{
  ℕ, ◌*◌, ◌≤◌, ◌≡◌, refl, sym, subst, true, List, [], ◌∷◌, ◌++◌, none, some, inl, inr, Map, Among,
  length, get_elem?, Option-cases, leb, arith,
}
use adaptive_leader.Base.Int64.{Int64}
use adaptive_leader.Config.{Config, f}
use adaptive_leader.Messages.{ViewChangePreparedMessage, ViewChangeRequest}
use adaptive_leader.Transaction.{TransactionState, is_prepared, get_prepares}
use adaptive_leader.Node.Defs.{Node, TxnRef}
use adaptive_leader.Node.Views.{prepared_message, prepared_messages, get_current_prepared_requests}
use adaptive_leader.ViewChanger.NewView.{create_preprepare_messages}
use adaptive_leader.ViewChanger.Range.{create_preprepare_messages-of_nil}

-- The message about a prepared transaction.
abbrev message_of : TransactionState → ViewChangePreparedMessage
message_of t = record { pre_prepare_request = t.preprepare; prepared_messages = get_prepares t }

Among-append_right : {A : Type 0} (a : A) (xs ys : List A) → Among a ys → Among a (xs ++ ys)
Among-append_right a [] ys at = at
Among-append_right a (x ∷ xs) ys at = inr (Among-append_right a xs ys at)

prepared_messages-Among :
    (c : Config) (heap : List TransactionState) (txns : Map Int64 TxnRef) (k : Int64) (r : TxnRef)
    (t : TransactionState)
    → Among (k, r) txns
    → get_elem? heap r ≡ some t
    → is_prepared c t ≡ true
    → Among (message_of t) (prepared_messages c heap txns)
unfolding prepared_messages prepared_message
prepared_messages-Among c heap [] k r t at e prepared = absurd at
prepared_messages-Among c heap ((j, q) ∷ txns) k r t (inl same) e prepared =
    let found : get_elem? heap q ≡ some t =
      subst (λ (i : Int64 × TxnRef). get_elem? heap i.1 ≡ some t) same e in
    rw (found, prepared_messages, prepared) (inl refl)
prepared_messages-Among c heap ((j, q) ∷ txns) k r t (inr at) e prepared =
    let later = prepared_messages-Among c heap txns k r t at e prepared in
    elim (Option-cases (get_elem? heap q)) [
      | inl none_here ↦ rw (none_here, prepared_messages) later
      | inr (u, here) ↦
          rw (here, prepared_messages)
            (Among-append_right (message_of t) (prepared_message c u)
              (prepared_messages c heap txns) later)
    ]

-- A node whose transaction has prepares of 2f replicas, but no pre-prepare yet, counts it as
-- prepared; a view-change request with the prepared requests of this node, among those that a new
-- leader has gathered, keeps the leader from proposing.
pub prepared_without_pre_prepare :
    (n : Node) (k : Int64) (r : TxnRef) (t : TransactionState) (view_id : Int64)
    (vc : ViewChangeRequest) (vcs : List ViewChangeRequest) (f' : ℕ)
    → Among (k, r) n.view_data.transaction_states
    → get_elem? n.heap r ≡ some t
    → t.preprepare ≡ none
    → 2 * f n.config ≤ length t.prepares
    → vc.prepared_proof ≡ get_current_prepared_requests n
    → Among vc vcs
    → create_preprepare_messages view_id vcs f' ≡ none
unfolding get_current_prepared_requests is_prepared
prepared_without_pre_prepare n k r t view_id vc vcs f' at e nil many proofs among =
    let prepared : leb (2 * f n.config) (length t.prepares) ≡ true = ground arith in
    let in_proofs =
      prepared_messages-Among n.config n.heap n.view_data.transaction_states k r t at e prepared in
    let in_request = subst (λ ps. Among (message_of t) ps) (sym proofs) in_proofs in
    create_preprepare_messages-of_nil view_id vcs f' vc (message_of t) among in_request nil

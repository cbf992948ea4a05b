-- ===== src/Node/Invariant/Heap.antt =====
-- How the steps of which a node's handlers are made keep the invariant.
use adaptive_leader.Base.{
  ◌+◌, ◌≡◌, sym, ap, ◌∙◌, subst, List, [], ◌∷◌, ◌++◌, some, inl, inr, All, All-append, All-insert,
  All-lookup, All-mono, length, length-append, length-set, get_elem?, get_elem?-append,
  get_elem?-append_length, get_elem?-snoc, get_elem?-set, get_elem?-lt, set, lookup, nat_eq, arith,
  Option-cases,
}
use adaptive_leader.Base.Int64.{Int64}
use adaptive_leader.Config.{Config}
use adaptive_leader.Messages.{PrepareRequest, CommitRequest}
use adaptive_leader.Transaction.{TransactionState, new_transaction_state}
use adaptive_leader.Transaction.Quorum
use adaptive_leader.Transaction.Votes.{new-HasVotes}
use adaptive_leader.Node.Defs.{
  Node, TxnRef, Output, Task, adds_to_store, adds_pre_prepare, adds_prepare, adds_commit,
  checks_callbacks, handles_prepared, handles_committed, handles_commit, handles_checkpoint,
  handles_client_request, send, spawn, set_view, new_txn, find_or_new_txn,
}
use adaptive_leader.Node.Invariant.{IsFor, IsDue, IsBacked, Inv}

module _ (c : Config) (P : PrepareRequest → Type 0) (C : CommitRequest → Type 0)
    (H : TransactionState → Type 0) where
  abbrev pub Keeps : List Int64 → Node → Type 0
  Keeps numbers n = Inv c P C H numbers n

  -- A change that leaves alone what the invariant reads, but for the map of transactions.
  pub unread-Inv :
      (ns : List Int64) (n n' : Node)
      → Keeps ns n
      → n'.config ≡ n.config
      → n'.heap ≡ n.heap
      → n'.spawned ≡ n.spawned
      → n'.sent ≡ n.sent
      → All (λ (e : Int64 × TxnRef). get_elem? ns e.1 ≡ some e.0) n'.view_data.transaction_states
      → Keeps ns n'
  unread-Inv ns n n' v same_config same_heap same_spawned same_sent known = record {
    same_config = same_config ∙ v.same_config;
    one_each = v.one_each ∙ ap length (sym same_heap);
    known = known;
    due = subst (All (IsDue c P C H ns)) (sym same_spawned) v.due;
    backed = subst (All (IsBacked c P C H)) (sym same_sent) v.backed;
    kept = λ r k t e at. v.kept r k t e (subst (λ h. get_elem? h r ≡ some t) same_heap at);
  }

  pub send-Inv :
      (ns : List Int64) (o : Output) (n : Node)
      → IsBacked c P C H o
      → Keeps ns n
      → Keeps ns (send o n)
  unfolding send
  send-Inv ns o n is v = record {
    same_config = v.same_config;
    one_each = v.one_each;
    known = v.known;
    due = v.due;
    backed = All-append (IsBacked c P C H) n.sent (o ∷ []) v.backed (is, tt);
    kept = v.kept;
  }

  pub spawn-Inv :
      (ns : List Int64) (t : Task) (n : Node)
      → IsDue c P C H ns t
      → Keeps ns n
      → Keeps ns (spawn t n)
  unfolding spawn
  spawn-Inv ns t n is v = record {
    same_config = v.same_config;
    one_each = v.one_each;
    known = v.known;
    due = All-append (IsDue c P C H ns) n.spawned (t ∷ []) v.due (is, tt);
    backed = v.backed;
    kept = v.kept;
  }

  IsDue-append : (ns ms : List Int64) (t : Task) → IsDue c P C H ns t → IsDue c P C H (ns ++ ms) t
  IsDue-append ns ms (adds_to_store r msgs) h = tt
  IsDue-append ns ms (adds_pre_prepare r m) h = get_elem?-append ns ms r m.sequence_number h
  IsDue-append ns ms (adds_prepare r m) h = (get_elem?-append ns ms r m.sequence_number h.0, h.1)
  IsDue-append ns ms (adds_commit r m) h = (get_elem?-append ns ms r m.sequence_number h.0, h.1)
  IsDue-append ns ms (checks_callbacks r) h = tt
  IsDue-append ns ms (handles_prepared m) h = h
  IsDue-append ns ms (handles_committed k) h = h
  IsDue-append ns ms (handles_commit m) h = h
  IsDue-append ns ms (handles_checkpoint m) h = tt
  IsDue-append ns ms (handles_client_request m) h = tt

  new-IsFor : (k : Int64) → IsFor c P C H k new_transaction_state
  new-IsFor k = record { quorums = Quorum.new-Inv c; votes = new-HasVotes _ _ _ }

  pub new_txn-Inv :
      (ns : List Int64) (k : Int64) (n : Node) → Keeps ns n → Keeps (ns ++ k ∷ []) (new_txn k n)
  unfolding new_txn set_view
  new_txn-Inv ns k n v = record {
    same_config = v.same_config;
    one_each =
        length-append ns (k ∷ [])
        ∙ ap (λ i. i + 1) v.one_each
        ∙ sym (length-append n.heap (new_transaction_state ∷ []));
    known =
        All-insert _ k (length n.heap) n.view_data.transaction_states
          (subst (λ r. get_elem? (ns ++ k ∷ []) r ≡ some k) v.one_each
            (get_elem?-append_length ns k))
          (All-mono _ _ (λ e h. get_elem?-append ns (k ∷ []) e.1 e.0 h) _ v.known);
    due = All-mono _ _ (IsDue-append ns (k ∷ [])) n.spawned v.due;
    backed = v.backed;
    kept = λ r j t e at. elim (get_elem?-snoc ns k j r e) [
      | inl old ↦ elim (get_elem?-snoc n.heap new_transaction_state t r at) [
        | inl there ↦ v.kept r j t old there
        | inr (last, _) ↦ absurd (omega (arith, get_elem?-lt ns r j old, v.one_each, last))
      ]
      | inr (last, same) ↦ elim (get_elem?-snoc n.heap new_transaction_state t r at) [
        | inl there ↦ absurd (omega (arith, get_elem?-lt n.heap r t there, v.one_each, last))
        | inr (_, made) ↦ subst (IsFor c P C H j) made (new-IsFor j)
      ]
    ];
  }

  pub find_or_new_txn-Inv :
      (ns : List Int64) (k : Int64) (n : Node)
      → Keeps ns n
      → (ns' : List Int64) × Keeps ns' (find_or_new_txn k n).0
        × (get_elem? ns' (find_or_new_txn k n).1 ≡ some k)
  unfolding find_or_new_txn
  find_or_new_txn-Inv ns k n v = elim (Option-cases (lookup k n.view_data.transaction_states)) [
    | inl e ↦
        rw (e, find_or_new_txn)
          (
            ns ++ k ∷ [],
            new_txn-Inv ns k n v,
            subst (λ r. get_elem? (ns ++ k ∷ []) r ≡ some k) v.one_each
                (get_elem?-append_length ns k),
          )
    | inr (r, e) ↦
        rw (e, find_or_new_txn)
          (ns, v, All-lookup (λ e. get_elem? ns e.1 ≡ some e.0) k r _ e v.known)
  ]

  -- A transaction is replaced by another for its number.
  pub set-Inv :
      (ns : List Int64) (n : Node) (r : TxnRef) (t : TransactionState)
      → ((k : Int64) → get_elem? ns r ≡ some k → IsFor c P C H k t)
      → Keeps ns n
      → Keeps ns (record n { heap = set n.heap r t })
  set-Inv ns n r t is v = record {
    same_config = v.same_config;
    one_each = v.one_each ∙ sym (length-set n.heap r t);
    known = v.known;
    due = v.due;
    backed = v.backed;
    kept = λ q k u e at. elim (get_elem?-set n.heap r q t u at) [
      | inl old ↦ v.kept q k u e old
      | inr (same, made) ↦ subst (IsFor c P C H k) made (is k (ap (get_elem? ns) same ∙ e))
    ];
  }

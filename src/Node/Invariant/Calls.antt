-- ===== src/Node/Invariant/Calls.antt =====
-- How the calls of a transaction's methods keep the invariant.
use adaptive_leader.Base.{
  ◌≡◌, refl, sym, ◌∙◌, ap, subst, GoString, All, Bool, true, false, List, [], ◌∷◌, some, inl, inr,
  Among, get_elem?, get_elem?-lt, get_elem?-of_lt, set, if◌then◌else◌, arith, Option-cases,
}
use adaptive_leader.Base.Int64.{Int64}
use adaptive_leader.Config.{Config}
use adaptive_leader.Messages.{PrePrepareRequest, PrepareRequest, CommitRequest}
use adaptive_leader.Transaction.{
  TransactionState, Callback, commit_message, prepared_callback, committed_callback,
  add_pre_prepare, add_prepare, add_commit, check_callbacks,
}
use adaptive_leader.Transaction.Quorum.{
  add_prepare-Inv, add_commit-Inv, add_pre_prepare-Inv, fire-Inv,
}
use adaptive_leader.Transaction.Certificate.{Inv-PreparedBy, Inv-CommittedBy}
use adaptive_leader.Transaction.Votes.{
  add_prepare-HasVotes, add_commit-HasVotes, add_pre_prepare-HasVotes, check_callbacks-HasVotes,
}
use adaptive_leader.Node.Defs.{
  Node, TxnRef, checks_callbacks, handles_prepared, handles_committed, spawn, call_add_pre_prepare,
  call_add_prepare,
}
use adaptive_leader.Node.Steps.{call_add_commit, call_check_callbacks, start_callbacks}
use adaptive_leader.Node.Invariant.{IsFor, PrepareFor, CommitFor, IsPrepared, IsCommitted}
use adaptive_leader.Node.Invariant.Heap.{Keeps, spawn-Inv, set-Inv}

module _ (c : Config) (P : PrepareRequest → Type 0) (C : CommitRequest → Type 0)
    (H : TransactionState → Type 0) where
  -- A transaction of the heap stands for a number.
  number_of :
      (ns : List Int64) (n : Node) (r : TxnRef) (t : TransactionState)
      → Keeps c P C H ns n
      → get_elem? n.heap r ≡ some t
      → (k : Int64) × (get_elem? ns r ≡ some k) × IsFor c P C H k t
  number_of ns n r t v at =
      let (k, e) = get_elem?-of_lt ns r (omega (arith, v.one_each, get_elem?-lt n.heap r t at)) in
      (k, e, v.kept r k t e at)

  -- A transaction is replaced, and its callbacks are checked later if need be.
  replace-Inv :
      (ns : List Int64) (n : Node) (r : TxnRef) (t : TransactionState) (k : Int64) (checks : Bool)
      → get_elem? ns r ≡ some k
      → IsFor c P C H k t
      → Keeps c P C H ns n
      → Keeps c P C H ns (
          if checks
          then spawn (checks_callbacks r) (record n { heap = set n.heap r t })
          else record n { heap = set n.heap r t })
  replace-Inv ns n r t k checks e is v =
      let same : (j : Int64) → get_elem? ns r ≡ some j → IsFor c P C H j t =
        λ j e'. subst (λ i. IsFor c P C H i t) (ground (arith, e, e')) is in
      let replaced = set-Inv c P C H ns n r t same v in kept checks replaced
    where
      kept :
          (b : Bool)
          → Keeps c P C H ns (record n { heap = set n.heap r t })
          → Keeps c P C H ns (
              if b
              then spawn (checks_callbacks r) (record n { heap = set n.heap r t })
              else record n { heap = set n.heap r t })
      kept true w = spawn-Inv c P C H ns (checks_callbacks r) _ tt w
      kept false w = w

  module _ (ns : List Int64) (n : Node) (r : TxnRef) (v : Keeps c P C H ns n) where
    pub call_add_prepare-Inv :
        (m : PrepareRequest)
        → get_elem? ns r ≡ some m.sequence_number
        → P m
        → Keeps c P C H ns (call_add_prepare r m n)
    unfolding call_add_prepare
    call_add_prepare-Inv m e is = elim (Option-cases (get_elem? n.heap r)) [
      | inl missing ↦ rw (missing, call_add_prepare) v
      | inr (t, at) ↦
          let before = v.kept r m.sequence_number t e at in
          let after : IsFor c P C H m.sequence_number (add_prepare n.config t m).0 =
            subst (λ d. IsFor c P C H m.sequence_number (add_prepare d t m).0) (sym v.same_config)
              (record {
                quorums = add_prepare-Inv c t m before.quorums;
                votes = add_prepare-HasVotes _ _ _ c t before.votes m (refl, is);
              }) in
          rw (at, call_add_prepare)
            (replace-Inv ns n r (add_prepare n.config t m).0 m.sequence_number
              (add_prepare n.config t m).1 e after v)
    ]

    pub call_add_commit-Inv :
        (m : CommitRequest)
        → get_elem? ns r ≡ some m.sequence_number
        → C m
        → Keeps c P C H ns (call_add_commit r m n)
    unfolding call_add_commit
    call_add_commit-Inv m e is = elim (Option-cases (get_elem? n.heap r)) [
      | inl missing ↦ rw (missing, call_add_commit) v
      | inr (t, at) ↦
          let before = v.kept r m.sequence_number t e at in
          let after : IsFor c P C H m.sequence_number (add_commit n.config t m).0 =
            subst (λ d. IsFor c P C H m.sequence_number (add_commit d t m).0) (sym v.same_config)
              (record {
                quorums = add_commit-Inv c t m before.quorums;
                votes = add_commit-HasVotes _ _ _ c t before.votes m (refl, is);
              }) in
          rw (at, call_add_commit)
            (replace-Inv ns n r (add_commit n.config t m).0 m.sequence_number
              (add_commit n.config t m).1 e after v)
    ]

    pub call_add_pre_prepare-Inv :
        (m : PrePrepareRequest)
        → get_elem? ns r ≡ some m.sequence_number
        → Keeps c P C H ns (call_add_pre_prepare r m n)
    unfolding call_add_pre_prepare
    call_add_pre_prepare-Inv m e = elim (Option-cases (get_elem? n.heap r)) [
      | inl missing ↦ rw (missing, call_add_pre_prepare) v
      | inr (t, at) ↦
          let before = v.kept r m.sequence_number t e at in
          let after : IsFor c P C H m.sequence_number (add_pre_prepare n.config t m) =
            subst (λ d. IsFor c P C H m.sequence_number (add_pre_prepare d t m)) (sym v.same_config)
              (record {
                quorums = add_pre_prepare-Inv c t m before.quorums;
                votes = add_pre_prepare-HasVotes _ _ _ c t before.votes m refl;
              }) in
          rw (at, call_add_pre_prepare)
            (replace-Inv ns n r (add_pre_prepare n.config t m) m.sequence_number true e after v)
    ]

  -- What a callback will run.
  IsReady : Callback → Type 0
  IsReady (prepared_callback m) = IsPrepared c P C H m
  IsReady (committed_callback k) = IsCommitted c P C H k

  start_callbacks-Inv :
      (ns : List Int64) (fs : List Callback) (n : Node)
      → ((f : Callback) → Among f fs → IsReady f)
      → Keeps c P C H ns n
      → Keeps c P C H ns (start_callbacks fs n)
  unfolding start_callbacks IsReady
  start_callbacks-Inv ns [] n ready v = v
  start_callbacks-Inv ns (prepared_callback m ∷ fs) n ready v =
      start_callbacks-Inv ns fs _ (λ f h. ready f (inr h))
        (spawn-Inv c P C H ns (handles_prepared m) n (ready (prepared_callback m) (inl refl)) v)
  start_callbacks-Inv ns (committed_callback k ∷ fs) n ready v =
      start_callbacks-Inv ns fs _ (λ f h. ready f (inr h))
        (spawn-Inv c P C H ns (handles_committed k) n (ready (committed_callback k) (inl refl)) v)

  callback-IsReady :
      (t : TransactionState) (k : Int64)
      → IsFor c P C H k t
      → H t
      → (f : Callback) → Among f (check_callbacks c t).1
      → IsReady f
  unfolding commit_message IsReady
  callback-IsReady t k is held (prepared_callback m) h =
      let quorum = Inv-PreparedBy c t m is.quorums h in
      let (pp, e, made, _, _, _) = quorum in
      let number : k ≡ m.sequence_number =
        sym (ap (λ d. d.sequence_number) made ∙ is.votes.preprepare_holds pp e) in
      let votes = is.votes.prepares_hold in
      (
        t,
        held,
        quorum,
        subst (λ i. All (λ (e : GoString × PrepareRequest). PrepareFor c P C H i e.1) t.prepares)
            number votes,
      )
  callback-IsReady t k is held (committed_callback j) h =
      let quorum = Inv-CommittedBy c t j is.quorums h in
      let (pp, e, made, _, _, _) = quorum in
      let number : k ≡ j = sym (made ∙ is.votes.preprepare_holds pp e) in
      let votes = is.votes.commits_hold in
      (
        t,
        held,
        quorum,
        subst (λ i. All (λ (e : GoString × CommitRequest). CommitFor c P C H i e.1) t.commits)
            number votes,
      )

  pub call_check_callbacks-Inv :
      (ns : List Int64) (n : Node) (r : TxnRef)
      → ((t : TransactionState) → get_elem? n.heap r ≡ some t → H t)
      → Keeps c P C H ns n
      → Keeps c P C H ns (call_check_callbacks r n)
  unfolding call_check_callbacks check_callbacks
  call_check_callbacks-Inv ns n r holds v = elim (Option-cases (get_elem? n.heap r)) [
    | inl missing ↦ rw (missing, call_check_callbacks) v
    | inr (t, at) ↦
        let (k, e, is) = number_of ns n r t v at in
        let checked : IsFor c P C H k (check_callbacks c t).0 = record {
          quorums = fire-Inv c t.preprepare t is.quorums;
          votes = check_callbacks-HasVotes _ _ _ c t is.votes;
        } in
        let same : (j : Int64) → get_elem? ns r ≡ some j → IsFor c P C H j (check_callbacks c t).0 =
          λ j e'.
            subst (λ i. IsFor c P C H i (check_callbacks c t).0) (ground (arith, e, e')) checked in
        let replaced = set-Inv c P C H ns n r (check_callbacks c t).0 same v in
        let started =
          start_callbacks-Inv ns (check_callbacks c t).1 _ (callback-IsReady t k is (holds t at))
            replaced in
        rw (at, call_check_callbacks)
          (subst
            (λ d. Keeps c P C H ns (
              start_callbacks (check_callbacks d t).1
                (record n { heap = set n.heap r (check_callbacks d t).0 })))
            (sym v.same_config) started)
  ]

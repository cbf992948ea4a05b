-- ===== src/ViewChanger/Justified.antt =====
-- View changers whose recorded requests and broadcasts are in order: what handlers keep.
use adaptive_leader.Base.{
  ◌+◌, ◌*◌, ◌≤◌, ◌≡◌, refl, sym, ◌∙◌, subst, inl, inr, Bool, true, false, not, [], ◌∷◌, some,
  GoString, Map, All, All-append, All-insert, All-lookup, HasDistinctKeys, insert-HasDistinctKeys,
  length, values, lookup, insert, ◌==◌, ltb, if◌then◌else◌, nat_eq, string_eq, arith, >>=-eq-some,
  Bool-cases, Option-cases, ltb→le,
}
use adaptive_leader.Base.Int64.{Int64}
use adaptive_leader.Config.{Config, f}
use adaptive_leader.Messages.{ViewChangeRequest, NewViewRequest}
use adaptive_leader.ViewChanger.NewView.{create_preprepare_messages}
use adaptive_leader.ViewChanger.Defs.{
  Output, broadcast_view_change, broadcast_new_view, node_goes_to_view_change,
  node_handles_new_view, PbftViewChange, tell, handle_new_view, view_changes_for, announce,
  try_announce_as_leader, record_view_change, handle_view_change,
}

-- The requests kept for a view: one of each sender, each for that view.
abbrev pub AreFor : Int64 → Map GoString ViewChangeRequest → Type 0
AreFor view_id vcs =
    HasDistinctKeys vcs
    × All
        (λ (e : GoString × ViewChangeRequest). (e.1.new_view_id ≡ view_id) × (e.1.replica_id ≡ e.0))
        vcs

-- A new view of a quorum: it carries the view-change requests of at least 2f + 1 replicas, no two the
-- same, all for its view, and the pre-prepares that are computed from these.
abbrev pub HasQuorum : Config → NewViewRequest → Type 0
HasQuorum c msg =
    (vcs : Map GoString ViewChangeRequest) × AreFor msg.new_view_id vcs
    × (2 * f c + 1 ≤ length vcs)
    × (msg.view_change_proof ≡ values vcs)
    × (create_preprepare_messages msg.new_view_id (values vcs) (f c) ≡ some msg.preprepares)
    × (msg.replica_id ≡ c.id)

abbrev pub IsJustified : Config → Output → Type 0
IsJustified c (broadcast_view_change msg) = Unit
IsJustified c (broadcast_new_view msg) = HasQuorum c msg
IsJustified c node_goes_to_view_change = Unit
IsJustified c (node_handles_new_view msg) = Unit

pub record Inv (c : Config) (p : PbftViewChange) : Type 0 where
  pub same_config : p.config ≡ c
  pub same_id : p.id ≡ c.id
  pub recorded : All (λ (e : Int64 × Map GoString ViewChangeRequest). AreFor e.0 e.1) p.view_changes
  pub justified : All (IsJustified c) p.sent

module _ (c : Config) where
  pub tell-Inv : (o : Output) (p : PbftViewChange) → IsJustified c o → Inv c p → Inv c (tell o p)
  unfolding tell
  tell-Inv o p is v = record {
    same_config = v.same_config;
    same_id = v.same_id;
    recorded = v.recorded;
    justified = All-append (IsJustified c) p.sent (o ∷ []) v.justified (is, tt);
  }

  view_changes_for-AreFor :
      (view_id : Int64) (p : PbftViewChange) → Inv c p → AreFor view_id (view_changes_for view_id p)
  unfolding view_changes_for
  view_changes_for-AreFor view_id p v = elim (Option-cases (lookup view_id p.view_changes)) [
    | inl e ↦ rw (e, view_changes_for) (tt, tt)
    | inr (vcs, e) ↦
        rw (e, view_changes_for)
          (All-lookup (λ e. AreFor e.0 e.1) view_id vcs p.view_changes e v.recorded)
  ]

  pub handle_new_view-Inv :
      (p : PbftViewChange) (msg : NewViewRequest) → Inv c p → Inv c (handle_new_view p msg)
  unfolding handle_new_view
  handle_new_view-Inv p msg v = tell-Inv (node_handles_new_view msg) _ tt (record {
    same_config = v.same_config;
    same_id = v.same_id;
    recorded = v.recorded;
    justified = v.justified;
  })

  announce-Inv :
      (p p' : PbftViewChange) (view_id : Int64)
      → Inv c p
      → 2 * f c + 1 ≤ length (view_changes_for view_id p)
      → announce p view_id ≡ some p'
      → Inv c p'
  unfolding announce
  announce-Inv p p' view_id v many h =
      let vcs = view_changes_for view_id p in
      let (ms, e, on) =
        >>=-eq-some (create_preprepare_messages view_id (values vcs) (f p.config)) _ h in
      let computed =
        subst (λ d. create_preprepare_messages view_id (values vcs) (f d) ≡ some ms) v.same_config
          e in
      let msg : NewViewRequest = record {
        new_view_id = view_id;
        view_change_proof = values vcs;
        preprepares = ms;
        replica_id = p.id;
      } in
      let quorum : HasQuorum c msg =
        (vcs, view_changes_for-AreFor view_id p v, many, refl, computed, v.same_id) in
      let told = tell-Inv (broadcast_new_view msg) p quorum v in
      let made : handle_new_view (tell (broadcast_new_view msg) p) msg ≡ p' = ground (arith, on) in
      subst (Inv c) made (handle_new_view-Inv (tell (broadcast_new_view msg) p) msg told)

  pub try_announce-Inv :
      (p p' : PbftViewChange) (view_id : Int64)
      → Inv c p
      → try_announce_as_leader p view_id ≡ some p'
      → Inv c p'
  unfolding try_announce_as_leader
  try_announce-Inv p p' view_id v h = elim (Bool-cases (not (p.view_id == view_id))) [
    | inl other ↦ subst (Inv c) (ground arith) v
    | inr here ↦
        elim (Bool-cases (ltb (length (view_changes_for view_id p)) (2 * f p.config + 1))) [
          | inl few ↦ subst (Inv c) (ground arith) v
          | inr many ↦
              let enough = ltb→le (length (view_changes_for view_id p)) (2 * f p.config + 1) many in
              let enough' =
                subst (λ d. 2 * f d + 1 ≤ length (view_changes_for view_id p)) v.same_config
                  enough in
              announce-Inv p p' view_id v enough' (ground arith)
        ]
  ]

  record_view_change-Inv :
      (p : PbftViewChange) (msg : ViewChangeRequest) → Inv c p → Inv c (record_view_change p msg)
  unfolding record_view_change
  record_view_change-Inv p msg v =
      let old = view_changes_for msg.new_view_id p in
      let (distinct, all) = view_changes_for-AreFor msg.new_view_id p v in
      let vcs = insert msg.replica_id msg old in
      let are : AreFor msg.new_view_id vcs = (
        insert-HasDistinctKeys msg.replica_id msg old distinct,
        All-insert _ msg.replica_id msg old (refl, refl) all,
      ) in
      record {
        same_config = v.same_config;
        same_id = v.same_id;
        recorded =
            All-insert (λ e. AreFor e.0 e.1) msg.new_view_id vcs p.view_changes are v.recorded;
        justified = v.justified;
      }

  pub handle_view_change-Inv :
      (p p' : PbftViewChange) (msg : ViewChangeRequest)
      → Inv c p
      → handle_view_change p msg ≡ some p'
      → Inv c p'
  unfolding handle_view_change
  handle_view_change-Inv p p' msg v h =
      let r = record_view_change p msg in
      let r-Inv = record_view_change-Inv p msg v in
      elim (Bool-cases (ltb msg.new_view_id p.view_id)) [
        | inl old ↦ subst (Inv c) (ground arith) v
        | inr fresh ↦ elim (Bool-cases (not (r.leader_for_view == r.id))) [
          | inl follower ↦ subst (Inv c) (ground arith) r-Inv
          | inr leader ↦ try_announce-Inv r p' msg.new_view_id r-Inv (ground arith)
        ]
      ]

  -- Changes of other fields.
  pub keeps-Inv :
      (p p' : PbftViewChange)
      → Inv c p
      → p'.config ≡ p.config
      → p'.id ≡ p.id
      → p'.view_changes ≡ p.view_changes
      → p'.sent ≡ p.sent
      → Inv c p'
  keeps-Inv p p' v same_config same_id same_changes same_sent = record {
    same_config = same_config ∙ v.same_config;
    same_id = same_id ∙ v.same_id;
    recorded = subst (All (λ e. AreFor e.0 e.1)) (sym same_changes) v.recorded;
    justified = subst (All (IsJustified c)) (sym same_sent) v.justified;
  }

  pub some-Inv : (p p' : PbftViewChange) → Inv c p → some p ≡ some p' → Inv c p'
  some-Inv p p' v e = subst (Inv c) (ground arith) v

  pub if-Inv : (b : Bool) (p q : PbftViewChange) → Inv c p → Inv c q → Inv c (if b then p else q)
  if-Inv true p q v w = v
  if-Inv false p q v w = w

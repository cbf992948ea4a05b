-- ===== src/Client/Answers.antt =====
-- What a client's steps keep of the answers that it has collected and of the results that it has sent.
use adaptive_leader.Base.{
  ℕ, zero, suc, ◌+◌, ◌≡◌, refl, sym, ◌∙◌, subst, List, [], ◌∷◌, Option, none, some, inl, inr,
  GoString, Map, All, All-append, All-insert, All-lookup, length, lookup, insert, nat_eq, arith,
  Option-cases, get_elem?, >>=-eq-some,
}
use adaptive_leader.Base.Int64.{Int64}
use adaptive_leader.Config.{Address}
use adaptive_leader.Messages.{Operation, OperationResult, ClientResponse}
use adaptive_leader.Client.{Group, ResponseCollection, new_response_collection, ready_result, f}
use adaptive_leader.Client.Collection.{AreAnswers, Grouped, add_response-Grouped, Grouped-ready}
use adaptive_leader.Client.Calls.{
  ChannelRef, Handler, Delivery, Client, send_request, collection_at, take_response, deliver,
  take_handler, finish_response, Event, request_is_sent, response_comes, handler_ends, step, run,
}

-- F + 1 replicas, no two the same, have answered a request with a result.
abbrev pub AgreeOn :
    Map GoString Address → (ClientResponse → Type 0) → Int64 → OperationResult → Type 0
AgreeOn nodes P timestamp result =
    (group : Group) × AreAnswers (λ r. (r.timestamp_ns ≡ timestamp) × P r) result.value group
    × (length group ≡ f nodes + 1)

-- The nodes, what holds of every answer, and of every request's time and channel.
module _ (nodes : Map GoString Address) (P : ClientResponse → Type 0)
    (Q : Int64 → ChannelRef → Type 0) where
  abbrev IsRegistered : Handler → Type 0
  IsRegistered h = (ch : ChannelRef) → h.operation_results ≡ some ch → Q h.timestamp_ns ch

  abbrev pub IsBacked : Delivery → Type 0
  IsBacked d = Q d.timestamp_ns d.channel × AgreeOn nodes P d.timestamp_ns d.result

  pub record Inv (c : Client) : Type 0 where
    pub same_nodes : c.nodes_address ≡ nodes
    pub collected :
        All
          (λ (e : Int64 × ResponseCollection). Grouped (λ r. (r.timestamp_ns ≡ e.0) × P r) e.1)
          c.collected_response
    pub registered : All (λ (e : Int64 × ChannelRef). Q e.0 e.1) c.callback_channels
    pub handling : All IsRegistered c.handlers
    pub backed : All IsBacked c.delivered

  collection_at-Grouped :
      (timestamp : Int64) (c : Client)
      → Inv c
      → Grouped
          (λ r. (r.timestamp_ns ≡ timestamp) × P r)
          (collection_at timestamp c.collected_response)
  unfolding collection_at new_response_collection
  collection_at-Grouped timestamp c v =
      elim (Option-cases (lookup timestamp c.collected_response)) [
        | inl e ↦ rw (e, collection_at) tt
        | inr (rc, e) ↦
            rw (e, collection_at)
              (All-lookup
                (λ (e : Int64 × ResponseCollection).
                  Grouped (λ r. (r.timestamp_ns ≡ e.0) × P r) e.1)
                timestamp rc c.collected_response e v.collected)
      ]

  take_response-Inv : (c : Client) (r : ClientResponse) → P r → Inv c → Inv (take_response c r)
  unfolding take_response
  take_response-Inv c r is v =
      let k = r.timestamp_ns in
      let before = collection_at-Grouped k c v in
      let after =
        add_response-Grouped (λ r. (r.timestamp_ns ≡ k) × P r)
          (collection_at k c.collected_response) r (refl, is) before in
      let handler : Handler = record {
        timestamp_ns = k;
        operation_results = lookup k c.callback_channels;
      } in
      record {
        same_nodes = v.same_nodes;
        collected =
            All-insert
              (λ (e : Int64 × ResponseCollection). Grouped (λ r. (r.timestamp_ns ≡ e.0) × P r) e.1)
              k _ c.collected_response after v.collected;
        registered = v.registered;
        handling = All-append IsRegistered c.handlers (handler ∷ []) v.handling (
          (λ ch e.
              All-lookup (λ (e : Int64 × ChannelRef). Q e.0 e.1) k ch c.callback_channels e
                v.registered),
          tt,
        );
        backed = v.backed;
      }

  take_handler-All :
      (i : ℕ) (hs rest : List Handler) (h : Handler)
      → All IsRegistered hs
      → take_handler i hs ≡ some (h, rest)
      → IsRegistered h × All IsRegistered rest
  unfolding take_handler
  take_handler-All i [] rest h all e = absurd (ground arith)
  take_handler-All zero (u ∷ hs) rest h all e =
      let same : u ≡ h = ground arith in
      let left : hs ≡ rest = ground arith in
      (subst IsRegistered same all.0, subst (All IsRegistered) left all.1)
  take_handler-All (suc i) (u ∷ hs) rest h all e = elim (Option-cases (take_handler i hs)) [
    | inl none_left ↦ absurd (ground arith)
    | inr ((w, later), taken) ↦
        let (here, others) = take_handler-All i hs later w all.1 taken in
        let same : w ≡ h = ground arith in
        let kept : u ∷ later ≡ rest = ground arith in
        (subst IsRegistered same here, subst (All IsRegistered) kept (all.0, others))
  ]

  deliver-Inv :
      (c : Client) (h : Handler) (result : Option OperationResult)
      → IsRegistered h
      → ((r : OperationResult) → result ≡ some r → AgreeOn nodes P h.timestamp_ns r)
      → Inv c
      → Inv (deliver c h result)
  unfolding deliver
  deliver-Inv c h none is agree v = v
  deliver-Inv c h (some result) is agree v = elim (Option-cases h.operation_results) [
    | inl nil ↦ rw (nil, deliver) v
    | inr (ch, e) ↦
        rw (e, deliver)
          (record {
            same_nodes = v.same_nodes;
            collected = v.collected;
            registered = v.registered;
            handling = v.handling;
            backed =
                All-append IsBacked c.delivered
                  (record { channel = ch; timestamp_ns = h.timestamp_ns; result = result } ∷ [])
                  v.backed ((is ch e, agree result refl), tt);
          })
  ]

  finish_response-Inv : (c c' : Client) (i : ℕ) → Inv c → finish_response c i ≡ some c' → Inv c'
  unfolding finish_response
  finish_response-Inv c c' i v e =
      let ((h, rest), taken, on) = >>=-eq-some (take_handler i c.handlers) _ e in
      let (is, others) = take_handler-All i c.handlers rest h v.handling taken in
      let rc = collection_at h.timestamp_ns c.collected_response in
      let grouped = collection_at-Grouped h.timestamp_ns c v in
      let left = record c { handlers = rest } in
      let left-Inv : Inv left = record {
        same_nodes = v.same_nodes;
        collected = v.collected;
        registered = v.registered;
        handling = others;
        backed = v.backed;
      } in
      let agree : (r : OperationResult)
          → ready_result c.nodes_address rc ≡ some r
          → AgreeOn nodes P h.timestamp_ns r =
        λ r ready.
          Grouped-ready (λ r. (r.timestamp_ns ≡ h.timestamp_ns) × P r) nodes rc r grouped
            (subst (λ d. ready_result d rc ≡ some r) v.same_nodes ready) in
      let made : deliver left h (ready_result c.nodes_address rc) ≡ c' = ground (arith, on) in
      subst Inv made (deliver-Inv left h (ready_result c.nodes_address rc) is agree left-Inv)

  send_request-Inv :
      (c c' : Client) (op : Operation) (ch : ChannelRef) (now : Int64) (pick : ℕ)
      → Q now ch
      → Inv c
      → send_request c op ch now pick ≡ some c'
      → Inv c'
  unfolding send_request
  send_request-Inv c c' op ch now pick is v e =
      let (next, _, made) = >>=-eq-some (get_elem? c.node_names pick) _ e in
      let nodes' : c'.nodes_address ≡ c.nodes_address = ground (arith, made) in
      let collected' : c'.collected_response ≡ c.collected_response = ground (arith, made) in
      let channels' : c'.callback_channels ≡ insert now ch c.callback_channels =
        ground (arith, made) in
      let handlers' : c'.handlers ≡ c.handlers = ground (arith, made) in
      let delivered' : c'.delivered ≡ c.delivered = ground (arith, made) in
      record {
        same_nodes = nodes' ∙ v.same_nodes;
        collected = subst (All _) (sym collected') v.collected;
        registered = subst (All (λ (e : Int64 × ChannelRef). Q e.0 e.1)) (sym channels') (
            All-insert (λ (e : Int64 × ChannelRef). Q e.0 e.1) now ch c.callback_channels is
              v.registered);
        handling = subst (All IsRegistered) (sym handlers') v.handling;
        backed = subst (All IsBacked) (sym delivered') v.backed;
      }

  -- What an event brings in.
  abbrev pub IsCounted : Event → Type 0
  IsCounted (request_is_sent op ch now pick) = Q now ch
  IsCounted (response_comes r) = P r
  IsCounted (handler_ends i) = Unit

  pub run-Inv :
      (c c' : Client) (es : List Event) → All IsCounted es → Inv c → run c es ≡ some c' → Inv c'
  unfolding run step
  run-Inv c c' [] all v h = let same : c ≡ c' = ground (arith, h) in subst Inv same v
  run-Inv c c' (request_is_sent op ch now pick ∷ es) (is, all) v h =
      let (q, first, on) = >>=-eq-some (send_request c op ch now pick) _ h in
      run-Inv q c' es all (send_request-Inv c q op ch now pick is v first) on
  run-Inv c c' (response_comes r ∷ es) (is, all) v h =
      run-Inv (take_response c r) c' es all (take_response-Inv c r is v) h
  run-Inv c c' (handler_ends i ∷ es) (is, all) v h =
      let (q, first, on) = >>=-eq-some (finish_response c i) _ h in
      run-Inv q c' es all (finish_response-Inv c q i v first) on

-- ===== src/Client/Deliveries.antt =====
-- What a client sends on a request's channel, however its handlers interleave.
use adaptive_leader.Base.{
  ◌≡◌, refl, sym, subst, List, [], ◌∷◌, ◌++◌, some, inl, inr, GoString, Map, All, Among, Among-All,
  nat_eq,
}
use adaptive_leader.Base.Int64.{Int64}
use adaptive_leader.Config.{Address}
use adaptive_leader.Messages.{ClientResponse}
use adaptive_leader.Client.Calls.{
  ChannelRef, Delivery, Client, Event, request_is_sent, response_comes, handler_ends, run,
}
use adaptive_leader.Client.Answers.{AgreeOn, Inv, IsCounted, run-Inv}

abbrev answers_of : Event → List ClientResponse
answers_of (response_comes r) = r ∷ []
answers_of e = []

abbrev channels_of : Event → List (Int64 × ChannelRef)
channels_of (request_is_sent op ch now pick) = (now, ch) ∷ []
channels_of e = []

-- The answers that come in a run, and the times and channels of its requests.
abbrev pub answers_in : List Event → List ClientResponse
answers_in [] = []
answers_in (e ∷ es) = answers_of e ++ answers_in es

abbrev pub channels_in : List Event → List (Int64 × ChannelRef)
channels_in [] = []
channels_in (e ∷ es) = channels_of e ++ channels_in es

-- All that an event brings in is among what comes in all.
counted :
    (P : ClientResponse → Type 0) (Q : Int64 → ChannelRef → Type 0) (nodes : Map GoString Address)
    (es : List Event)
    → ((r : ClientResponse) → Among r (answers_in es) → P r)
    → ((k : Int64) (ch : ChannelRef) → Among (k, ch) (channels_in es) → Q k ch)
    → All (IsCounted nodes P Q) es
counted P Q nodes [] p q = tt
counted P Q nodes (request_is_sent op ch now pick ∷ es) p q =
    (q now ch (inl refl), counted P Q nodes es p (λ k c at. q k c (inr at)))
counted P Q nodes (response_comes r ∷ es) p q =
    (p r (inl refl), counted P Q nodes es (λ u at. p u (inr at)) q)
counted P Q nodes (handler_ends i ∷ es) p q = (tt, counted P Q nodes es p q)

-- A client that has done nothing.
abbrev IsFresh : Client → Type 0
IsFresh c =
    (c.collected_response ≡ [])
    × (c.callback_channels ≡ [])
    × (c.handlers ≡ [])
    × (c.delivered ≡ [])

-- However the handlers of a client interleave, a result that it sends on a channel is for a request
-- that was sent with this channel and time, and F + 1 replicas, no two the same, have answered the
-- request of this time with this result.
pub delivery_is_backed :
    (c c' : Client) (es : List Event) (d : Delivery)
    → IsFresh c
    → run c es ≡ some c'
    → Among d c'.delivered
    → Among (d.timestamp_ns, d.channel) (channels_in es)
      × AgreeOn c.nodes_address (λ r. Among r (answers_in es)) d.timestamp_ns d.result
delivery_is_backed c c' es d (no_answers, no_channels, no_handlers, nothing) ran at =
    let P : ClientResponse → Type 0 = λ r. Among r (answers_in es) in
    let Q : Int64 → ChannelRef → Type 0 = λ k ch. Among (k, ch) (channels_in es) in
    let fresh : Inv c.nodes_address P Q c = record {
      same_nodes = refl;
      collected = subst (All _) (sym no_answers) tt;
      registered = subst (All _) (sym no_channels) tt;
      handling = subst (All _) (sym no_handlers) tt;
      backed = subst (All _) (sym nothing) tt;
    } in
    let v =
      run-Inv c.nodes_address P Q c c' es
        (counted P Q c.nodes_address es (λ r at. at) (λ k ch at. at)) fresh ran in
    Among-All _ d c'.delivered at v.backed

-- ===== src/Client/Repeats.antt =====
-- Two handlers that see the same size.
use adaptive_leader.Base.{◌≡◌, refl, ap, ◌∙◌, List, [], ◌∷◌, ◌++◌, some, nat_eq, ◌>>=◌}
use adaptive_leader.Base.Int64.{Int64}
use adaptive_leader.Messages.{OperationResult}
use adaptive_leader.Client.{ready_result}
use adaptive_leader.Client.Calls.{
  ChannelRef, Handler, Delivery, Client, collection_at, deliver, take_handler, finish_response,
  handler_ends, step, run,
}

append_twice : {A : Type 0} (xs : List A) (a : A) → (xs ++ a ∷ []) ++ a ∷ [] ≡ xs ++ a ∷ a ∷ []
append_twice [] a = refl
append_twice (x ∷ xs) a = ap (λ ys. x ∷ ys) (append_twice xs a)

finish_first :
    (c : Client) (k : Int64) (ch : ChannelRef) (rest : List Handler) (result : OperationResult)
    → c.handlers ≡ record { timestamp_ns = k; operation_results = some ch } ∷ rest
    → ready_result c.nodes_address (collection_at k c.collected_response) ≡ some result
    → finish_response c 0
      ≡ some (record c {
        handlers = rest;
        delivered = c.delivered ++ record { channel = ch; timestamp_ns = k; result = result } ∷ [];
      })
unfolding finish_response take_handler deliver
finish_first c k ch rest result e ready = rw (e, finish_response, ready) refl

-- Two handlers of answers to one request have both added theirs before either compares the size,
-- and the greatest group has F + 1 answers: both send the result on the request's channel.
pub ready_is_sent_twice :
    (c : Client) (k : Int64) (ch : ChannelRef) (rest : List Handler) (result : OperationResult)
    → c.handlers
      ≡ record { timestamp_ns = k; operation_results = some ch }
        ∷ record { timestamp_ns = k; operation_results = some ch }
        ∷ rest
    → ready_result c.nodes_address (collection_at k c.collected_response) ≡ some result
    → (c' : Client) × (run c (handler_ends 0 ∷ handler_ends 0 ∷ []) ≡ some c')
      × (c'.delivered
          ≡ c.delivered
            ++ record { channel = ch; timestamp_ns = k; result = result }
              ∷ record { channel = ch; timestamp_ns = k; result = result }
              ∷ [])
unfolding run step
ready_is_sent_twice c k ch rest result e ready =
    let h : Handler = record { timestamp_ns = k; operation_results = some ch } in
    let d : Delivery = record { channel = ch; timestamp_ns = k; result = result } in
    let q = record c { handlers = h ∷ rest; delivered = c.delivered ++ d ∷ [] } in
    let c' = record q { handlers = rest; delivered = (c.delivered ++ d ∷ []) ++ d ∷ [] } in
    let first = finish_first c k ch (h ∷ rest) result e ready in
    let second = finish_first q k ch rest result refl ready in
    (
      c',
      ap (λ o. o >>= λ x. step x (handler_ends 0) >>= some) first ∙ ap (λ o. o >>= some) second,
      append_twice c.delivered d,
    )

-- ===== src/Client/Http.antt =====
-- client/http_server.go: which operation a request to the client's web server submits, and what it
-- answers. Forms are parsed by net/http: a form is its value, or none if ParseForm fails.
use adaptive_leader.Base.{
  ℕ, ◌≡◌, ◌≢◌, refl, sym, ap, ◌∙◌, subst, not, [], ◌∷◌, ◌++◌, Option, none, some, inl, inr, ◌⊎◌,
  GoString, codes, ◌==◌, string_eq, nat_eq, get_elem?, if◌then◌else◌, arith, Bool-cases,
  >>=-eq-some, ◌>>=◌,
}
use adaptive_leader.Base.Int64.{Int64}
use adaptive_leader.Messages.{OperationType, Operation, OperationResult}
use adaptive_leader.Client.Calls.{ChannelRef, Client, send_request}

pub data WebPath : Type 0 where
  page get add sub : WebPath

pub record HttpRequest : Type 0 where
  pub path : WebPath
  pub method : GoString
  pub form : Option GoString

pub data Routed : Type 0 where
  serves_page : Routed
  fails : ℕ → Routed
  submits : Operation → Routed

abbrev pub operation : OperationType → GoString → Operation
operation type value = record { type = type; key = []; value = value }

-- /add and /sub.
abbrev with_form : OperationType → HttpRequest → Option GoString → Routed
with_form type r none = fails 400
with_form type r (some value) = submits (operation type value)

submit_form : OperationType → HttpRequest → Routed
submit_form type r = if not (r.method == codes "POST") then fails 405 else with_form type r r.form

route : HttpRequest → WebPath → Routed
unfolding submit_form
route r page = serves_page
route r get = submits (operation OperationType.get [])
route r add = submit_form OperationType.add r
route r sub = submit_form OperationType.sub r

pub data Answer : Type 0 where
  writes : GoString → Answer
  writes_error : ℕ → Answer
  writes_page : Answer

-- `result` is what the channel gives before the timer: none is the timeout. The error of SendRequest
-- is not looked at.
abbrev wait_for : Option OperationResult → Answer
wait_for none = writes_error 408
wait_for (some result) = writes result.value

-- `none`: a panic of SendRequest.
abbrev serve_routed :
    Client → Routed → ChannelRef → Int64 → ℕ → Option OperationResult → Option (Client × Answer)
serve_routed c serves_page ch now pick result = some (c, writes_page)
serve_routed c (fails status) ch now pick result = some (c, writes_error status)
serve_routed c (submits op) ch now pick result =
    send_request c op ch now pick >>= λ c'. some (c', wait_for result)

unfoldable pub serve :
    Client
    → HttpRequest
    → ChannelRef
    → Int64
    → ℕ
    → Option OperationResult
    → Option (Client × Answer)
unfolding route
serve c r ch now pick result = serve_routed c (route r r.path) ch now pick result

-- One more request, with an operation and the time and address of the client, to the current leader.
abbrev pub Requests : Client → Client → Operation → Int64 → Type 0
Requests c c' op now =
    c'.requests
    ≡ c.requests
      ++ (
        c.current_leader,
        record {
          client_id = c.client_id;
          timestamp_ns = now;
          operation = op;
          callback = c.callback_address;
        },
      )
        ∷ []

-- What a form that is sent to a path comes to.
abbrev ServesForm :
    OperationType → Client → Client → HttpRequest → Int64 → Option OperationResult → Answer → Type 0
ServesForm type c c' r now result answer =
    ((r.method ≢ codes "POST") × (c' ≡ c) × (answer ≡ writes_error 405))
    ⊎ ((r.method ≡ codes "POST") × (r.form ≡ none) × (c' ≡ c) × (answer ≡ writes_error 400))
    ⊎ ((value : GoString) × (r.method ≡ codes "POST")
        × (r.form ≡ some value)
        × Requests c c' (operation type value) now
        × (answer ≡ wait_for result))

abbrev Serves :
    WebPath → Client → Client → HttpRequest → Int64 → Option OperationResult → Answer → Type 0
Serves page c c' r now result answer = (c' ≡ c) × (answer ≡ writes_page)
Serves get c c' r now result answer =
    Requests c c' (operation OperationType.get []) now × (answer ≡ wait_for result)
Serves add c c' r now result answer = ServesForm OperationType.add c c' r now result answer
Serves sub c c' r now result answer = ServesForm OperationType.sub c c' r now result answer

send_request-Requests :
    (c c' : Client) (op : Operation) (ch : ChannelRef) (now : Int64) (pick : ℕ)
    → send_request c op ch now pick ≡ some c'
    → Requests c c' op now
unfolding send_request
send_request-Requests c c' op ch now pick h =
    let (next, _, made) = >>=-eq-some (get_elem? c.node_names pick) _ h in
    sym (ap (λ (o : Option Client). elim o [ none ↦ [] | some d ↦ d.requests ]) made)

submits-Requests :
    (c c' : Client) (op : Operation) (ch : ChannelRef) (now : Int64) (pick : ℕ)
    (result : Option OperationResult) (answer : Answer)
    → serve_routed c (submits op) ch now pick result ≡ some (c', answer)
    → Requests c c' op now × (answer ≡ wait_for result)
submits-Requests c c' op ch now pick result answer h =
    let (d, sent, made) = >>=-eq-some (send_request c op ch now pick) _ h in
    let same : d ≡ c' = ground (arith, made) in
    (
      subst (λ q. Requests c q op now) same (send_request-Requests c d op ch now pick sent),
      ground (arith, made),
    )

form-Serves :
    (type : OperationType) (c c' : Client) (r : HttpRequest) (ch : ChannelRef) (now : Int64)
    (pick : ℕ) (result : Option OperationResult) (answer : Answer)
    → serve_routed c (submit_form type r) ch now pick result ≡ some (c', answer)
    → ServesForm type c c' r now result answer
unfolding submit_form
form-Serves type c c' r ch now pick result answer h = elim (Bool-cases (r.method == codes "POST")) [
  | inr other ↦
      let went : some (c, writes_error 405) ≡ some (c', answer) =
        sym (
          ap
            (λ b.
              serve_routed c (if not b then fails 405 else with_form type r r.form) ch now pick
                result)
            other)
        ∙ h in
      inl (
        (λ is. absurd (ground (arith, other, (string_eq.same_iff r.method (codes "POST")).1 is))),
        ground (arith, went),
        ground (arith, went),
      )
  | inl post ↦
      let went : serve_routed c (with_form type r r.form) ch now pick result ≡ some (c', answer) =
        sym (
          ap
            (λ b.
              serve_routed c (if not b then fails 405 else with_form type r r.form) ch now pick
                result)
            post)
        ∙ h in
      parsed ((string_eq.same_iff r.method (codes "POST")).0 post) r.form refl went
]
  where
    parsed :
        r.method ≡ codes "POST"
        → (form : Option GoString) → r.form ≡ form
        → serve_routed c (with_form type r form) ch now pick result ≡ some (c', answer)
        → ServesForm type c c' r now result answer
    parsed post none e went = inr (inl (post, e, ground (arith, went), ground (arith, went)))
    parsed post (some value) e went =
        let (requested, waited) =
          submits-Requests c c' (operation type value) ch now pick result answer went in
        inr (inr (value, post, e, requested, waited))

-- What the web server does with a request, whatever its path. The page submits nothing. /get submits one
-- operation that reads; /add and /sub submit one with the form's value, if the method is POST and
-- the form can be parsed, and otherwise submit nothing and answer 405 or 400. After a submission the
-- answer is the result, or 408 if none comes in time.
serve_lem :
    (c c' : Client) (r : HttpRequest) (ch : ChannelRef) (now : Int64) (pick : ℕ)
    (result : Option OperationResult) (answer : Answer)
    → serve c r ch now pick result ≡ some (c', answer)
    → Serves r.path c c' r now result answer
unfolding serve route
serve_lem c c' r ch now pick result answer h = served r.path h
  where
    served :
        (p : WebPath)
        → serve_routed c (route r p) ch now pick result ≡ some (c', answer)
        → Serves p c c' r now result answer
    served page went = (ground (arith, went), ground (arith, went))
    served get went =
        submits-Requests c c' (operation OperationType.get []) ch now pick result answer went
    served add went = form-Serves OperationType.add c c' r ch now pick result answer went
    served sub went = form-Serves OperationType.sub c c' r ch now pick result answer went

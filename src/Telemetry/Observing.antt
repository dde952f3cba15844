-- ===== src/Telemetry/Observing.antt =====
-- What the middleware adds to a request.
use mathlib.Core.Bool.{true≢false}
use reddit_kafka.Base.{
  ◌≡◌, ◌≢◌, ◌≤◌, ◌<◌, ◌+◌, refl, ap, ◌∙◌, Bool, not, false, Option, none, some, str_eq_iff, sym, ℕ,
  true, false, ◌∷◌, String, len, arith, Bool-cases, inl, inr, str_eq, if◌then◌else◌,
}
use reddit_kafka.Errors.{Foreign, Error, Result, ok, err}
use reddit_kafka.Telemetry.Requests.{
  Request, Response, Counted, Telemetry, add_one, choose_request_id, is_probe, request_route,
  with_request_id, observed_status, observe_measured, observe_http_request,
}

-- the telemetry with which the handler is called, whether or not the request is measured
abbrev pub entered : String → Bool → Request → Telemetry → Telemetry
entered request_id measured r t =
    if measured
    then record t { request_id = request_id; increments = add_one r.http_method t.increments }
    else record t { request_id = request_id }

-- The identity that a request gets for its header: a new one for none and for a header that is too
-- long.
abbrev pub IsIdentity : String → String → String → Type 0
IsIdentity header new_id id =
    (header ≡ "" → id ≡ new_id)
    × (128 < len header → id ≡ new_id)
    × (header ≢ "" → len header ≤ 128 → id ≡ header)

-- The name under which the request of a route is counted.
abbrev pub IsRoute : Option String → String → Type 0
IsRoute route_path route =
    (route_path ≡ none → route ≡ "unmatched")
    × (route_path ≡ some "" → route ≡ "unmatched")
    × ((path : String) → route_path ≡ some path → path ≢ "" → route ≡ path)

-- Whether the requests of a path are measured: those of a probe are not.
abbrev pub IsMeasured : String → Bool → Type 0
IsMeasured path measured =
    (path ≡ "/health" → measured ≡ false)
    × (path ≡ "/ready" → measured ≡ false)
    × (path ≡ "/metrics" → measured ≡ false)
    × (path ≢ "/health" → path ≢ "/ready" → path ≢ "/metrics" → measured ≡ true)

choose_request_id-IsIdentity :
    (header new_id : String) → IsIdentity header new_id (choose_request_id header new_id)
unfolding choose_request_id
choose_request_id-IsIdentity header new_id = ground (arith, str_eq_iff header "")

request_route-IsRoute : (route_path : Option String) → IsRoute route_path (request_route route_path)
unfolding request_route
request_route-IsRoute none = (λ e. refl, λ e. absurd cc, λ p e ne. absurd cc)
request_route-IsRoute (some path) = ground (arith, str_eq_iff path "")

is_probe-IsMeasured : (path : String) → IsMeasured path (not (is_probe path))
unfolding is_probe
is_probe-IsMeasured path = (
  λ e. rw e refl,
  λ e. rw e refl,
  λ e. rw e refl,
  ground (arith, str_eq_iff path "/health", str_eq_iff path "/ready", str_eq_iff path "/metrics"),
)

-- the request that is counted, with the status of the response
abbrev counted : {f : Foreign} → Request → Result f ℕ → Counted
counted r result = record {
  http_method = r.http_method;
  route = request_route r.route_path;
  status_code = observed_status result;
}

-- As many requests of a method are in progress as before.
abbrev pub IsBalanced : Telemetry → Telemetry → Type 0
IsBalanced t t' = (k : String) → t'.increments k + t.decrements k ≡ t.increments k + t'.decrements k

add_one-balanced :
    (k j : String) (i d i' d' : String → ℕ)
    → i' j + d j ≡ add_one k i j + d' j
    → i' j + d j ≡ i j + add_one k d' j
add_one-balanced k j i d i' d' h = elim (Bool-cases (str_eq k j)) [
  | inl e ↦ ground (arith, e, h)
  | inr e ↦ ground (arith, e, h)
]

module _ {f : Foreign} (new_id : String) (r : Request)
    (call_next : Telemetry → Telemetry × Result f ℕ) (t : Telemetry) where
  probe_lem :
      is_probe r.path ≡ true
      → let id = choose_request_id r.header new_id in
        let (t1, result) = call_next (record t { request_id = id }) in
        observe_http_request new_id call_next r t
        ≡ (record t1 { request_id = t.request_id }, with_request_id id result)
  unfolding observe_http_request
  probe_lem e = rw e refl

  measured_lem :
      is_probe r.path ≡ false
      → let id = choose_request_id r.header new_id in
        let (t1, result) =
          call_next
            (record t { request_id = id; increments = add_one r.http_method t.increments }) in
        observe_http_request new_id call_next r t ≡ (
          record (observe_measured r t1 result) { request_id = t.request_id },
          with_request_id id result,
        )
  unfolding observe_http_request
  measured_lem e = rw e refl

  measured_all :
      (id : String) (handled : Telemetry × Result f ℕ)
      → IsBalanced
          (record t { request_id = id; increments = add_one r.http_method t.increments })
          handled.0
      → let t' = record (observe_measured r handled.0 handled.1) { request_id = t.request_id } in
        IsBalanced t t' × (t'.http_requests ≡ counted r handled.1 ∷ handled.0.http_requests)
  unfolding observe_measured
  measured_all id (t1, result) balanced = (
    λ k.
        add_one-balanced r.http_method k t.increments t.decrements t1.increments t1.decrements
          (balanced k),
    refl,
  )

  -- the telemetry and the answer, by what the handler has returned
  observed_lem :
      ((u : Telemetry) → IsBalanced u (call_next u).0)
      → let id = choose_request_id r.header new_id in
        let measured = not (is_probe r.path) in
        let (t1, result) = call_next (entered id measured r t) in
        let (t', answer) = observe_http_request new_id call_next r t in
        IsBalanced t t'
        × (t'.request_id ≡ t.request_id)
        × (answer ≡ with_request_id id result)
        × (measured ≡ false → t'.http_requests ≡ t1.http_requests)
        × (measured ≡ true → t'.http_requests ≡ counted r result ∷ t1.http_requests)
  observed_lem balanced =
      let id = choose_request_id r.header new_id in
      let inside = record t { request_id = id; increments = add_one r.http_method t.increments } in
      let law = measured_all id (call_next inside) (balanced inside) in
      elim (Bool-cases (is_probe r.path)) [
        | inl e ↦
            rw (probe_lem e, e)
              (
                balanced (record t { request_id = choose_request_id r.header new_id }),
                refl,
                refl,
                (λ unmeasured. refl),
                (λ measured. absurd (true≢false (sym measured))),
              )
        | inr e ↦
            rw (measured_lem e, e)
              (
                law.0,
                refl,
                refl,
                (λ unmeasured. absurd (true≢false unmeasured)),
                (λ measured. law.1),
              )
      ]

  -- what is answered and counted for a response, and for a handler that raises
  abbrev pub IsPassedOn :
      String → String → Bool → Telemetry → Result f ℕ → Telemetry → Result f Response → Type 0
  IsPassedOn id route measured t1 result t' answer =
      ((status : ℕ)
        → result ≡ ok status
        → (answer ≡ ok (record { status_code = status; request_id = id }))
          × (measured ≡ true
              → t'.http_requests
                ≡ record { http_method = r.http_method; route = route; status_code = status }
                  ∷ t1.http_requests))
      × ((e : Error f)
          → result ≡ err e
          → (answer ≡ err e)
            × (measured ≡ true
                → t'.http_requests
                  ≡ record { http_method = r.http_method; route = route; status_code = 500 }
                    ∷ t1.http_requests))
      × (measured ≡ false → t'.http_requests ≡ t1.http_requests)

  result-IsPassedOn :
      (id : String) (measured : Bool) (t1 t' : Telemetry) (result : Result f ℕ)
      (answer : Result f Response)
      → answer ≡ with_request_id id result
      → (measured ≡ false → t'.http_requests ≡ t1.http_requests)
      → (measured ≡ true → t'.http_requests ≡ counted r result ∷ t1.http_requests)
      → IsPassedOn id (request_route r.route_path) measured t1 result t' answer
  unfolding with_request_id observed_status
  result-IsPassedOn id measured t1 t' result answer answers unmeasured measures = (
    λ status e. (
      answers ∙ ap (with_request_id id) e,
      λ m. measures m ∙ ap (λ (x : Result f ℕ). counted r x ∷ t1.http_requests) e,
    ),
    λ x e. (
      answers ∙ ap (with_request_id id) e,
      λ m. measures m ∙ ap (λ (y : Result f ℕ). counted r y ∷ t1.http_requests) e,
    ),
    unmeasured,
  )

  -- For a handler that leaves as many requests of each method in progress as it found, whatever else
  -- it does: after the middleware as many are in progress as before, and the context variable of the
  -- request is as it was. A response is passed on with the identity of the request, which is its
  -- header, or a new one where the header is empty or has more than 128 characters; what the handler
  -- raises is raised. One request is counted, under its route or as unmatched, with the status of
  -- the response, or 500 where the handler raises; none is counted for /health, /ready and /metrics.
  pub observe_http_request_accounts :
      ((u : Telemetry) → IsBalanced u (call_next u).0)
      → (id route : String) × (measured : Bool) × IsIdentity r.header new_id id
        × IsRoute r.route_path route
        × IsMeasured r.path measured
        × let (t1, result) = call_next (entered id measured r t) in
          let (t', answer) = observe_http_request new_id call_next r t in
          IsBalanced t t'
          × (t'.request_id ≡ t.request_id)
          × IsPassedOn id route measured t1 result t' answer
  observe_http_request_accounts balanced =
      let id = choose_request_id r.header new_id in
      let measured = not (is_probe r.path) in
      let law = observed_lem balanced in
      let handled = call_next (entered id measured r t) in
      let observed = observe_http_request new_id call_next r t in
      (
        id,
        request_route r.route_path,
        measured,
        choose_request_id-IsIdentity r.header new_id,
        request_route-IsRoute r.route_path,
        is_probe-IsMeasured r.path,
        (
          law.0,
          law.1,
          result-IsPassedOn id measured handled.0 observed.0 handled.1 observed.1 law.2 law.3 law.4,
        ),
      )

-- The identity of a request has at most 128 characters, where a new one has, and is not empty.
pub choose_request_id-len :
    (header new_id : String)
    → 1 ≤ len new_id
    → len new_id ≤ 128
    → (1 ≤ len (choose_request_id header new_id)) × (len (choose_request_id header new_id) ≤ 128)
unfolding choose_request_id
choose_request_id-len String.[] new_id some_new short = (some_new, short)
choose_request_id-len (String.◌∷◌ c s) new_id some_new short = ground (arith, some_new, short)

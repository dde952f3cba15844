-- ===== src/Telemetry/Requests.antt =====
-- `observe_http_request`.
use reddit_kafka.Base.{
  ℕ, suc, Bool, ◌||◌, Option, none, some, List, ◌∷◌, String, str_eq, truthy, not, len, ltb,
  if◌then◌else◌,
}
use reddit_kafka.Errors.{Foreign, Result, ok, err}

-- What is read of a request: the header `x-request-id`, or the empty text, the path, the method, and
-- the path of the route that matched.
pub record Request : Type 0 where
  pub header : String
  pub path : String
  pub http_method : String
  pub route_path : Option String

pub record Response : Type 0 where
  pub status_code : ℕ
  pub request_id : String

-- One request that METRICS has counted.
pub record Counted : Type 0 where
  pub http_method : String
  pub route : String
  pub status_code : ℕ

-- The context variable `_request_id`, and the metrics of requests: a gauge is the number of its
-- increments and that of its decrements, by method.
pub record Telemetry : Type 0 where
  pub request_id : String
  pub increments : String → ℕ
  pub decrements : String → ℕ
  pub http_requests : List Counted

abbrev pub add_one : String → (String → ℕ) → String → ℕ
add_one k f j = if str_eq k j then suc (f j) else f j

-- the header, or a new identity
unfoldable pub choose_request_id : String → String → String
choose_request_id header new_id =
    if not (truthy header) then new_id else if ltb 128 (len header) then new_id else header

unfoldable pub is_probe : String → Bool
is_probe path = str_eq path "/health" || str_eq path "/ready" || str_eq path "/metrics"

-- `_request_route`
unfoldable pub request_route : Option String → String
request_route none = "unmatched"
request_route (some path) = if truthy path then path else "unmatched"

module _ {f : Foreign} where
  -- the response with its header, or what the handler raises
  unfoldable pub with_request_id : String → Result f ℕ → Result f Response
  with_request_id request_id (ok status) =
      ok (record { status_code = status; request_id = request_id })
  with_request_id request_id (err e) = err e

  -- `status_code`, which is 500 until there is a response
  unfoldable pub observed_status : Result f ℕ → ℕ
  observed_status (ok status) = status
  observed_status (err e) = 500

  -- the handler, with what it and other requests do to the telemetry; and the end of the outer `try`
  unfoldable pub observe_measured : Request → Telemetry → Result f ℕ → Telemetry
  unfolding request_route observed_status
  observe_measured r t result = record t {
    decrements = add_one r.http_method t.decrements;
    http_requests =
        record {
          http_method = r.http_method;
          route = request_route r.route_path;
          status_code = observed_status result;
        }
        ∷ t.http_requests;
  }

  unfoldable pub observe_http_request :
      String
      → (Telemetry → Telemetry × Result f ℕ)
      → Request
      → Telemetry
      → Telemetry × Result f Response
  unfolding choose_request_id is_probe with_request_id observe_measured
  observe_http_request new_id call_next r t =
      let request_id = choose_request_id r.header new_id in
      let set = record t { request_id = request_id } in
      if is_probe r.path
      then (let (t', result) = call_next set in
          (record t' { request_id = t.request_id }, with_request_id request_id result))
      else (let (t', result) =
            call_next (record set { increments = add_one r.http_method set.increments }) in
          (
            record (observe_measured r t' result) { request_id = t.request_id },
            with_request_id request_id result,
          ))

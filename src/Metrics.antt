-- ===== src/Metrics.antt =====
-- src/common/metrics: `MetricsService` and when the middleware records a request. A sum of seconds is a value of a type
-- of doubles that is a parameter, as are the texts of numbers; the text of the process's memory and uptime is given.
pub mod Laws
use Prim.Native.String
use text.Mathlib.Text
use hwala.Base.{
  ℕ, ◌+◌, ◌-◌, String, Bool, true, false, ◌||◌, Option, none, some, List, [], ◌∷◌, ◌++◌,
  if◌then◌else◌,
}

-- A `Map` by the texts of its keys, in the order in which they were set first.
abbrev pub Counters : Type 0 → Type 0
Counters A = List (String × A)

-- `map.get(key) || zero`
unfoldable pub get_or : {A : Type 0} → A → String → Counters A → A
get_or zero key [] = zero
get_or zero key ((k, a) ∷ rest) =
    let later = get_or zero key rest in if Text.◌==◌ k key then a else later

-- `map.set(key, …)`
unfoldable pub set : {A : Type 0} → String → A → Counters A → Counters A
set key a [] = (key, a) ∷ []
set key a ((k, b) ∷ rest) =
    let later = set key a rest in if Text.◌==◌ k key then (k, a) ∷ rest else (k, b) ∷ later

-- The doubles of the duration sums, and the texts of numbers.
pub record Seconds (D : Type 0) : Type 0 where
  pub zero : D
  pub add : D → D → D
  pub of_ms : ℕ → D
  pub to_fixed_4 : D → String
  pub text_of : ℕ → String

pub record HttpRequestMetric : Type 0 where
  pub method : String
  pub route : String
  pub status_code : ℕ
  pub duration_ms : ℕ

pub record MetricsState (D : Type 0) : Type 0 where
  pub http_requests_total : Counters ℕ
  pub http_request_duration_sum : Counters D
  pub http_request_duration_count : Counters ℕ
  pub transfers_total : Counters ℕ

abbrev pub joined_texts : List String → String
joined_texts [] = ""
joined_texts (s ∷ parts) = String.◌++◌ s (joined_texts parts)

module _ {D : Type 0} (num : Seconds D) where
  -- `method="…",route="…"`
  unfoldable pub count_key : HttpRequestMetric → String
  count_key metric =
      joined_texts ("method=\"" ∷ metric.method ∷ "\",route=\"" ∷ metric.route ∷ "\"" ∷ [])

  -- `method="…",route="…",status="…"`
  unfoldable pub request_key : HttpRequestMetric → String
  request_key metric = joined_texts (
      "method=\""
      ∷ metric.method
      ∷ "\",route=\""
      ∷ metric.route
      ∷ "\",status=\""
      ∷ num.text_of metric.status_code
      ∷ "\""
      ∷ [])

  -- `recordHttpRequest`
  unfoldable pub record_http_request : HttpRequestMetric → MetricsState D → MetricsState D
  record_http_request metric st =
      let key = request_key metric in
      let by_route = count_key metric in
      record st {
        http_requests_total =
            set key (get_or 0 key st.http_requests_total + 1) st.http_requests_total;
        http_request_duration_sum =
            set by_route
              (num.add (get_or num.zero by_route st.http_request_duration_sum)
                (num.of_ms metric.duration_ms))
              st.http_request_duration_sum;
        http_request_duration_count =
            set by_route (get_or 0 by_route st.http_request_duration_count + 1)
              st.http_request_duration_count;
      }

  -- `tenant="…",status="…"`
  unfoldable pub transfer_key : (tenant_id status : String) → String
  transfer_key tenant_id status =
      joined_texts ("tenant=\"" ∷ tenant_id ∷ "\",status=\"" ∷ status ∷ "\"" ∷ [])

  -- `recordTransfer`
  unfoldable pub record_transfer : (tenant_id status : String) → MetricsState D → MetricsState D
  record_transfer tenant_id status st =
      let key = transfer_key tenant_id status in
      record st {
        transfers_total = set key (get_or 0 key st.transfers_total + 1) st.transfers_total;
      }

  -- The response of a route has been sent: the middleware's callback. `route` is the path of the matched route, if there
  -- is one; times are in ms and do not go back.
  unfoldable pub on_finish :
      (method : String) (route : Option String) (path : String) (status_code start_time now : ℕ)
      → MetricsState D
      → MetricsState D
  unfolding record_http_request
  on_finish method route path status_code start_time now st =
      let r = route_of route path in
      if Text.◌==◌ r "/metrics" || Text.◌==◌ r "/health"
      then st
      else record_http_request
          (record {
            method = method;
            route = r;
            status_code = status_code;
            duration_ms = now - start_time;
          })
          st
    where
      route_of : Option String → String → String
      route_of none path = path
      route_of (some r) path = r

  -- One line for each key.
  abbrev pub lines_of : {A : Type 0} → String → (A → String) → Counters A → List String
  lines_of name show [] = []
  lines_of name show ((labels, a) ∷ rest) =
      joined_texts (name ∷ "{" ∷ labels ∷ "} " ∷ show a ∷ []) ∷ lines_of name show rest

  -- The lines of `getMetrics`, after those of the process.
  unfoldable pub get_metrics_lines : List String → MetricsState D → List String
  get_metrics_lines process_lines st =
      process_lines
      ++ ("# HELP nestjs_http_requests_total Total number of HTTP requests processed."
          ∷ "# TYPE nestjs_http_requests_total counter" ∷ [])
      ++ lines_of "nestjs_http_requests_total" num.text_of st.http_requests_total
      ++ ("# HELP nestjs_http_request_duration_seconds_sum Total duration of HTTP requests in seconds."
          ∷ "# TYPE nestjs_http_request_duration_seconds_sum counter" ∷ [])
      ++ lines_of "nestjs_http_request_duration_seconds_sum" num.to_fixed_4
          st.http_request_duration_sum
      ++ ("# HELP nestjs_http_request_duration_seconds_count Total count of HTTP requests measured."
          ∷ "# TYPE nestjs_http_request_duration_seconds_count counter" ∷ [])
      ++ lines_of "nestjs_http_request_duration_seconds_count" num.text_of
          st.http_request_duration_count
      ++ ("# HELP hwala_transfers_total Total financial transfers executed."
          ∷ "# TYPE hwala_transfers_total counter" ∷ [])
      ++ lines_of "hwala_transfers_total" num.text_of st.transfers_total

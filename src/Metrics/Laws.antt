-- ===== src/Metrics/Laws.antt =====
-- What the counters of the metrics (Metrics) count.
use text.Mathlib.Text
use text.Mathlib.TextEquality.{eq_iff}
use hwala.Base.{
  ℕ, arith, ◌+◌, String, true, false, List, [], ◌∷◌, ◌≡◌, refl, sym, ap, ◌∙◌, length, filter,
  Bool-cases, inl, inr, if◌then◌else◌,
}
use hwala.Metrics.{
  Counters, get_or, set, Seconds, HttpRequestMetric, MetricsState, count_key, request_key,
  record_http_request,
}

other_key : (i k j : String) → Text.◌==◌ i k ≡ false → Text.◌==◌ i j ≡ true → Text.◌==◌ k j ≡ false
other_key i k j e p = elim (Bool-cases (Text.◌==◌ k j)) [
  | inl q ↦
      let same : Text.◌==◌ i k ≡ true =
        (eq_iff i k).1 ((eq_iff i j).0 p ∙ sym ((eq_iff k j).0 q)) in
      ground arith
  | inr q ↦ q
]

get_or-set :
    {A : Type 0} (zero : A) (k j : String) (a : A) (c : Counters A)
    → get_or zero j (set k a c) ≡ (if Text.◌==◌ k j then a else get_or zero j c)
unfolding get_or set
get_or-set zero k j a [] = refl
get_or-set zero k j a ((i, b) ∷ rest) = elim (Bool-cases (Text.◌==◌ i k)) [
  | inl e ↦ let same : i ≡ k = (eq_iff i k).0 e in rw e (rw (sym same) (ground arith))
  | inr e ↦ rw e (elim (Bool-cases (Text.◌==◌ i j)) [
    | inl p ↦ rw p (rw (other_key i k j e p) refl)
    | inr p ↦ rw p (get_or-set zero k j a rest)
  ])
]

-- A key is written from its own old value.
get_or-update :
    {A : Type 0} (zero : A) (f : A → A) (k j : String) (c : Counters A)
    → get_or zero j (set k (f (get_or zero k c)) c)
      ≡ (if Text.◌==◌ k j then f (get_or zero j c) else get_or zero j c)
get_or-update zero f k j c =
    get_or-set zero k j (f (get_or zero k c)) c
    ∙ elim (Bool-cases (Text.◌==◌ k j)) [ inl e ↦ rw ((eq_iff k j).0 e) refl | inr e ↦ rw e refl ]

-- How many of the requests have a key.
abbrev pub counted : (HttpRequestMetric → String) → String → List HttpRequestMetric → ℕ
counted key k metrics = length (filter (λ (m : HttpRequestMetric). Text.◌==◌ (key m) k) metrics)

module _ {D : Type 0} (num : Seconds D) where
  -- Requests in the order in which they finish.
  abbrev pub record_all : List HttpRequestMetric → MetricsState D → MetricsState D
  record_all [] st = st
  record_all (m ∷ metrics) st = record_all metrics (record_http_request num m st)

  -- The seconds of a key after some more requests.
  abbrev pub seconds_of : String → List HttpRequestMetric → D → D
  seconds_of k [] d = d
  seconds_of k (m ∷ metrics) d =
      seconds_of k metrics
        (if Text.◌==◌ (count_key num m) k then num.add d (num.of_ms m.duration_ms) else d)

  -- After any requests, each counter has grown by the number of the requests with its labels, and each sum
  -- by their seconds in the order in which they finished; the transfers are as they were.
  record_all-counts :
      (metrics : List HttpRequestMetric) (k : String) (st : MetricsState D)
      → let st' = record_all metrics st in
        (get_or 0 k st'.http_requests_total
          ≡ get_or 0 k st.http_requests_total + counted (request_key num) k metrics)
        × (get_or 0 k st'.http_request_duration_count
            ≡ get_or 0 k st.http_request_duration_count + counted (count_key num) k metrics)
        × (get_or num.zero k st'.http_request_duration_sum
            ≡ seconds_of k metrics (get_or num.zero k st.http_request_duration_sum))
        × (st'.transfers_total ≡ st.transfers_total)
  unfolding record_http_request
  record_all-counts [] k st = (omega arith, omega arith, refl, refl)
  record_all-counts (m ∷ metrics) k st =
      let one = get_or-update 0 (λ n. n + 1) (request_key num m) k st.http_requests_total in
      let other = get_or-update 0 (λ n. n + 1) (count_key num m) k st.http_request_duration_count in
      let sum =
        get_or-update num.zero (λ d. num.add d (num.of_ms m.duration_ms)) (count_key num m) k
          st.http_request_duration_sum in
      let (a, b, c, d) = record_all-counts metrics k (record_http_request num m st) in
      (a ∙ ground (arith, one), b ∙ ground (arith, other), c ∙ ap (seconds_of k metrics) sum, d)

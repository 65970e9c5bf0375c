-- ===== src/Exchange.antt =====
-- `ExchangeService` of src/exchange/exchange.service.ts. What it takes from JavaScript, doubles, JSON and texts, is one
-- record of operations, and the HTTP call is an argument of each request. Redis is the list of the keys
-- below `fx:rates:`, and an entry expires at a second. Log messages are left out.
pub mod Laws
use Prim.Native.Char.{code}
use Prim.Native.String
use text.Mathlib.Text
use hwala.Base.{
  ℕ, ◌+◌, String, Bool, true, false, ◌&&◌, ◌||◌, Option, none, some, List, [], ◌∷◌, ltb, ◌==◌,
  if◌then◌else◌,
}
use hwala.Base.Result.{Result, ok, err, bad_request}

-- Rates by currency code.
abbrev pub Rates : Type 0 → Type 0
Rates W = List (String × W)

-- The part of JavaScript that the code uses: `decimal m k` is the literal `m / 10 ^ k`, `fixed n w` is
-- `Number(w.toFixed(n))`, and a text on which `JSON.parse` throws gives `none`.
pub record Js (W : Type 0) : Type 0 where
  pub decimal : (mantissa places : ℕ) → W
  pub is_truthy : W → Bool
  pub is_nan : W → Bool
  pub is_at_most_zero : W → Bool
  pub mul : W → W → W
  pub div : W → W → W
  pub fixed : ℕ → W → W
  pub to_upper_case : String → String
  pub trim : String → String
  pub encode_uri_component : String → String
  pub stringify : Rates W → String
  pub parse : String → Option (Rates W)

pub data Source : Type 0 where
  cache api fallback : Source

-- A field of the answer: falsy, a value that is no object, or the rates.
pub data Field (W : Type 0) : Type 0 where
  absent scalar : Field W
  object : Rates W → Field W

-- What the HTTP call comes to: it throws, its body is no JSON included, or the status is no success, or it has a body.
pub data Reply (W : Type 0) : Type 0 where
  threw refused : Reply W
  body : (rates conversion_rates : Field W) → Reply W

-- A setting that is left out is `none`.
pub record FxConfig : Type 0 where
  pub base_currency : Option String
  pub cache_ttl : Option ℕ
  pub api_url : Option String
  pub api_key : Option String

-- What one request meets: the seconds at which it reads and writes Redis, whether there is a client and the two
-- commands return, and the HTTP call.
pub record FxCall (W : Type 0) : Type 0 where
  pub read_at : ℕ
  pub written_at : ℕ
  pub has_client : Bool
  pub get_ok : Bool
  pub set_ok : Bool
  pub fetch : String → Reply W

pub record CacheEntry : Type 0 where
  pub text : String
  pub expires : ℕ

abbrev pub FxCache : Type 0
FxCache = List (String × CacheEntry)

-- The value of a key.
unfoldable pub value_of {ℓ} : {A : Type ℓ} → String → List (String × A) → Option A
value_of key [] = none
value_of key ((k, a) ∷ rest) =
    let later = value_of key rest in if Text.◌==◌ k key then some a else later

abbrev pub or_setting {ℓ} : {A : Type ℓ} → Option A → A → A
or_setting none d = d
or_setting (some a) d = a

-- `url.includes('?')`
unfoldable pub includes_mark : String → Bool
includes_mark String.[] = false
includes_mark (String.◌∷◌ c s) = let later = includes_mark s in code c == b'?' || later

abbrev pub is_blank : String → Bool
is_blank s = Text.◌==◌ s ""

module _ {W : Type 0} (js : Js W) (config : FxConfig) where
  -- `DEFAULT_FALLBACK_RATES`
  abbrev pub default_fallback_rates : Rates W
  default_fallback_rates =
      ("USD", js.decimal 1 0)
      ∷ ("EUR", js.decimal 92 2)
      ∷ ("GBP", js.decimal 79 2)
      ∷ ("AED", js.decimal 367 2)
      ∷ ("SAR", js.decimal 375 2)
      ∷ ("EGP", js.decimal 485 1)
      ∷ ("CAD", js.decimal 136 2)
      ∷ ("JPY", js.decimal 155 0)
      ∷ ("CHF", js.decimal 9 1)
      ∷ ("AUD", js.decimal 152 2)
      ∷ ("INR", js.decimal 835 1)
      ∷ []

  -- `code.toUpperCase().trim()`
  abbrev pub normal : String → String
  normal s = js.trim (js.to_upper_case s)

  -- The URL of `fetchLiveRates`.
  unfoldable pub request_url : String
  request_url =
      let url = or_setting config.api_url "https://open.er-api.com/v6/latest/USD" in
      let key = or_setting config.api_key "" in
      let separator = if includes_mark url then "&" else "?" in
      if is_blank key
      then url
      else String.◌++◌ url
          (String.◌++◌ separator (String.◌++◌ "apikey=" (js.encode_uri_component key)))

  -- `data.rates || data.conversion_rates`, if it is an object.
  abbrev pub rates_of : Field W → Field W → Option (Rates W)
  rates_of (Field.object r) _ = some r
  rates_of Field.scalar _ = none
  rates_of Field.absent (Field.object r) = some r
  rates_of Field.absent _ = none

  abbrev pub live_of : Reply W → Option (Rates W)
  live_of (Reply.body rates conversion_rates) = rates_of rates conversion_rates
  live_of _ = none

  -- `fetchLiveRates`; its argument does not reach the URL.
  unfoldable pub fetch_live_rates : FxCall W → String → Option (Rates W)
  fetch_live_rates call base_currency = live_of (call.fetch request_url)

  abbrev pub fresh_text : ℕ → Option CacheEntry → Option String
  fresh_text now none = none
  fresh_text now (some e) = if ltb now e.expires then some e.text else none

  -- No text and the empty text are a miss.
  abbrev pub parsed : Option String → Option (Rates W)
  parsed none = none
  parsed (some text) = if is_blank text then none else js.parse text

  abbrev pub read_cache : FxCall W → String → FxCache → Option (Rates W)
  read_cache call base entries =
      if call.has_client && call.get_ok
      then parsed (fresh_text call.read_at (value_of base entries))
      else none

  -- `SET fx:rates:<base> … EX ttl`
  abbrev pub write_cache : FxCall W → String → Rates W → FxCache → FxCache
  write_cache call base rates entries =
      if call.has_client && call.set_ok
      then (
        base,
        record {
          text = js.stringify rates;
          expires = call.written_at + or_setting config.cache_ttl 3600;
        },
      )
        ∷ entries
      else entries

  abbrev pub from_api :
      FxCall W → String → Option (Rates W) → FxCache → (Rates W × Source) × FxCache
  from_api call base (some rates) entries =
      ((rates, Source.api), write_cache call base rates entries)
  from_api call base none entries = ((default_fallback_rates, Source.fallback), entries)

  abbrev pub from_cache :
      FxCall W → String → Option (Rates W) → FxCache → (Rates W × Source) × FxCache
  from_cache call base (some rates) entries = ((rates, Source.cache), entries)
  from_cache call base none entries = from_api call base (fetch_live_rates call base) entries

  -- `getLatestRates`
  unfoldable pub get_latest_rates : FxCall W → String → FxCache → (Rates W × Source) × FxCache
  get_latest_rates call base_currency entries =
      let base = normal base_currency in from_cache call base (read_cache call base entries) entries

  -- A rate that is there and neither 0 nor NaN.
  abbrev pub usable : Option W → Option W
  usable none = none
  usable (some w) = if js.is_truthy w then some w else none

  abbrev pub cross_rate : Option W → Option W → Source → Result (W × Source)
  cross_rate none _ source = err (bad_request "Unsupported or unknown source currency")
  cross_rate (some _) none source = err (bad_request "Unsupported or unknown target currency")
  cross_rate (some from_rate) (some to_rate) source =
      ok (js.fixed 6 (js.div to_rate from_rate), source)

  abbrev pub configured_base : String
  configured_base = or_setting config.base_currency "USD"

  -- `getExchangeRate`
  unfoldable pub get_exchange_rate :
      FxCall W → (from_currency to_currency : String) → FxCache → Result (W × Source) × FxCache
  get_exchange_rate call from_currency to_currency entries =
      let from = normal from_currency in
      let to = normal to_currency in
      let ((rates, source), entries') = get_latest_rates call configured_base entries in
      if is_blank from || is_blank to
      then (err (bad_request "Currency codes must be non-empty strings"), entries)
      else if Text.◌==◌ from to
      then (ok (js.decimal 1 0, Source.cache), entries)
      else (cross_rate (usable (value_of from rates)) (usable (value_of to rates)) source, entries')

pub record FxConversionResult (W : Type 0) : Type 0 where
  pub amount : W
  pub from_currency : String
  pub to_currency : String
  pub exchange_rate : W
  pub converted_amount : W
  pub source : Source

module _ {W : Type 0} (js : Js W) (config : FxConfig) where
  abbrev pub converted :
      W → (from to : String) → Result (W × Source) → Result (FxConversionResult W)
  converted amount from to (err e) = err e
  converted amount from to (ok (rate, source)) = ok (record {
    amount = amount;
    from_currency = from;
    to_currency = to;
    exchange_rate = rate;
    converted_amount = js.fixed 4 (js.mul amount rate);
    source = source;
  })

  -- `convert`; the amount is a number.
  unfoldable pub convert :
      FxCall W
      → W
      → (from_currency to_currency : String) → FxCache
      → Result (FxConversionResult W) × FxCache
  convert call amount from_currency to_currency entries =
      let from = normal js config from_currency in
      let to = normal js config to_currency in
      let (rate, entries') = get_exchange_rate js config call from to entries in
      if js.is_nan amount || js.is_at_most_zero amount
      then (err (bad_request "Amount must be a positive number"), entries)
      else (converted amount from to rate, entries')

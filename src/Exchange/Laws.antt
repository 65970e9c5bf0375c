-- ===== src/Exchange/Laws.antt =====
-- Where the exchange rates (Exchange) come from, and when there is one.
use text.Mathlib.Text
use text.Mathlib.TextEquality.{eq_iff}
use hwala.Base.{
  arith, ◌+◌, ◌<◌, All, sym, every, not, String, Bool, true, false, ◌||◌, Option, none, some, [],
  ◌∷◌, ◌≡◌, ◌↔◌, ◌⊎◌, inl, inr, refl, Bool-cases, Option-cases, ◌∙◌, if◌then◌else◌,
}
use hwala.Base.Result.{Result, Error, ok, err}
use hwala.Exchange.{
  request_url, from_cache, write_cache, cross_rate, Rates, Js, Source, Reply, FxConfig, FxCall,
  FxCache, value_of, or_setting, is_blank, default_fallback_rates, normal, fetch_live_rates,
  read_cache, get_latest_rates, usable, configured_base, get_exchange_rate,
}

same_text : (s : String) → Text.◌==◌ s s ≡ true
same_text s = (eq_iff s s).1 refl

module _ {W : Type 0} (js : Js W) (config : FxConfig) where
  from_cache-api :
      (call : FxCall W) (base : String) (o : Option (Rates W)) (rates : Rates W)
      (entries entries' : FxCache)
      → from_cache js config call base o entries ≡ ((rates, Source.api), entries')
      → entries' ≡ write_cache js config call base rates entries
  from_cache-api call base (some r) rates entries entries' h = ground arith
  from_cache-api call base none rates entries entries' h =
      elim (Option-cases (fetch_live_rates js config call base)) [
        | inl n ↦ ground arith
        | inr (r, q) ↦ ground arith
      ]

  -- Rates that a request took from the API and wrote to Redis are what the next request for this base currency
  -- gets, from the cache and without another write, whatever the API then answers, if Redis answers it before the time
  -- to live is over, and the JSON text of the rates is not empty and is parsed back.
  pub get_latest_rates-cached :
      (call next : FxCall W) (base : String) (rates : Rates W) (entries entries' : FxCache)
      → is_blank (js.stringify rates) ≡ false
      → js.parse (js.stringify rates) ≡ some rates
      → get_latest_rates js config call base entries ≡ ((rates, Source.api), entries')
      → call.has_client ≡ true
      → call.set_ok ≡ true
      → next.has_client ≡ true
      → next.get_ok ≡ true
      → next.read_at < call.written_at + or_setting config.cache_ttl 3600
      → get_latest_rates js config next base entries' ≡ ((rates, Source.cache), entries')
  unfolding get_latest_rates value_of
  get_latest_rates-cached call next base rates entries entries' t p h c s c' g l =
      let written : entries'
          ≡ (
            normal js config base,
            record {
              text = js.stringify rates;
              expires = call.written_at + or_setting config.cache_ttl 3600;
            },
          )
            ∷ entries =
        from_cache-api call (normal js config base)
          (read_cache js config call (normal js config base) entries) rates entries entries' h
        ∙ rw c (rw s refl) in
      rw written (ground (arith, same_text (normal js config base), t, p))

  cross_rate-err_iff :
      (f t : Option W) (source : Source)
      → ((e : Error) × (cross_rate js config f t source ≡ err e)) ↔ ((f ≡ none) ⊎ (t ≡ none))
  cross_rate-err_iff none t source = (λ _. inl refl, λ _. (_, refl))
  cross_rate-err_iff (some f) none source = (λ _. inr refl, λ _. (_, refl))
  cross_rate-err_iff (some f) (some t) source = (λ h. ground arith, λ h. ground arith)

  -- The table has no rate under a code, or one that is 0 or NaN.
  abbrev pub IsMissing : String → Rates W → Type 0
  IsMissing code rates =
      (value_of code rates ≡ none)
      ⊎ ((w : W) × (value_of code rates ≡ some w) × (js.is_truthy w ≡ false))

  usable-none_iff :
      (o : Option W)
      → (usable js config o ≡ none)
        ↔ ((o ≡ none) ⊎ ((w : W) × (o ≡ some w) × (js.is_truthy w ≡ false)))
  usable-none_iff none = (λ _. inl refl, λ _. refl)
  usable-none_iff (some w) = elim (Bool-cases (js.is_truthy w)) [
    | inl e ↦ rw e (λ h. absurd (ground arith), λ h. absurd (missing_truthy w e h))
    | inr e ↦ rw e (λ _. inr (w, refl, e), λ _. refl)
  ]
    where
      missing_truthy :
          (w : W)
          → js.is_truthy w ≡ true
          → ¬ ((some w ≡ none) ⊎ ((v : W) × (some w ≡ some v) × (js.is_truthy v ≡ false)))
      missing_truthy w e (inl h) = absurd (ground arith)
      missing_truthy w e (inr (v, h, f)) = absurd (ground arith)

  either_iff : {P Q P' Q' : Type 0} → P ↔ P' → Q ↔ Q' → (P ⊎ Q) ↔ (P' ⊎ Q')
  either_iff i j = (
    λ h. elim h [ inl p ↦ inl (i.0 p) | inr q ↦ inr (j.0 q) ],
    λ h. elim h [ inl p ↦ inl (i.1 p) | inr q ↦ inr (j.1 q) ],
  )

  trans_iff : {P Q R : Type 0} → P ↔ Q → Q ↔ R → P ↔ R
  trans_iff i j = (λ h. j.0 (i.0 h), λ h. i.1 (j.1 h))

  checked-err_iff :
      {P : Type 0} (b c : Bool) (m : Error) (r : W × Source) (x : Result (W × Source))
      (es es' : FxCache)
      → ((e : Error) × (x ≡ err e)) ↔ P
      → let result : Result (W × Source) × FxCache =
          if b then (err m, es) else if c then (ok r, es) else (x, es') in
        ((e : Error) × (result.0 ≡ err e)) ↔ ((b ≡ true) ⊎ ((c ≡ false) × P))
  checked-err_iff true c m r x es es' i = (λ _. inl refl, λ _. (m, refl))
  checked-err_iff false true m r x es es' i = (λ h. ground arith, λ h. ground arith)
  checked-err_iff false false m r x es es' i =
      (λ h. inr (refl, i.0 h), λ h. elim h [ inl p ↦ ground arith | inr p ↦ i.1 p.1 ])

  -- A request for a rate fails just if a code is empty, or the codes differ and the table in use has no rate for one
  -- of them, or 0 or NaN.
  pub get_exchange_rate-err_iff :
      (call : FxCall W) (from_currency to_currency : String) (entries : FxCache)
      → let from = normal js config from_currency in
        let to = normal js config to_currency in
        let rates = (get_latest_rates js config call (configured_base js config) entries).0.0 in
        ((e : Error) × ((get_exchange_rate js config call from_currency to_currency entries).0
            ≡ err e))
        ↔ ((is_blank from || is_blank to ≡ true)
            ⊎ ((Text.◌==◌ from to ≡ false) × (IsMissing from rates ⊎ IsMissing to rates)))
  unfolding get_exchange_rate
  get_exchange_rate-err_iff call from_currency to_currency entries =
      checked-err_iff _ _ _ _ _ _ _
        (trans_iff (cross_rate-err_iff _ _ _) (either_iff (usable-none_iff _) (usable-none_iff _)))

  value_of-All :
      (code : String) (w : W) (rates : Rates W)
      → every (λ (row : String × W). not (is_blank row.0)) rates ≡ true
      → All (λ (row : String × W). js.is_truthy row.1 ≡ true) rates
      → value_of code rates ≡ some w
      → (is_blank code ≡ false) × (js.is_truthy w ≡ true)
  unfolding value_of
  value_of-All code w [] b h e = ground arith
  value_of-All code w ((k, v) ∷ rates) b h e = elim (Bool-cases (Text.◌==◌ k code)) [
    | inl q ↦
        let same : k ≡ code = (eq_iff k code).0 q in
        let value : v ≡ w = ground arith in rw (sym same) (rw (sym value) (ground arith, h.0))
    | inr q ↦ value_of-All code w rates (ground arith) h.1 (ground arith)
  ]

  -- Both down.
  get_latest_rates-fallback :
      (call : FxCall W) (base : String) (entries : FxCache)
      → call.get_ok ≡ false
      → call.fetch (request_url js config) ≡ Reply.threw
      → get_latest_rates js config call base entries
        ≡ ((default_fallback_rates js config, Source.fallback), entries)
  unfolding get_latest_rates fetch_live_rates
  get_latest_rates-fallback call base entries g a = elim (Bool-cases call.has_client) [
    | inl c ↦ rw c (rw g (rw a refl))
    | inr c ↦ rw c (rw a refl)
  ]

  -- When the literals of the fallback table are neither 0 nor NaN: with Redis and the API both down, there is still a
  -- rate between any two of the codes of that table, which `toUpperCase` and `trim` leave as they are; it
  -- is 1 for equal codes, and else the rounded quotient of the two rates of the table.
  get_exchange_rate-fallback :
      All (λ (row : String × W). js.is_truthy row.1 ≡ true) (default_fallback_rates js config)
      → (call : FxCall W) (from to : String) (f t : W) (entries : FxCache) → call.get_ok ≡ false
      → call.fetch (request_url js config) ≡ Reply.threw
      → normal js config from ≡ from
      → normal js config to ≡ to
      → value_of from (default_fallback_rates js config) ≡ some f
      → value_of to (default_fallback_rates js config) ≡ some t
      → get_exchange_rate js config call from to entries ≡ (
        if Text.◌==◌ from to
            then ok (js.decimal 1 0, Source.cache)
            else ok (js.fixed 6 (js.div t f), Source.fallback),
        entries,
      )
  unfolding get_exchange_rate
  get_exchange_rate-fallback d call from to f t entries g a n m p q =
      let rows = default_fallback_rates js config in
      let known_from = value_of-All from f rows refl d p in
      let known_to = value_of-All to t rows refl d q in
      rw n (
        rw m (
          rw (get_latest_rates-fallback call (configured_base js config) entries g a) (
            rw known_from.0
              (rw known_to.0 (rw p (rw q (rw known_from.1 (rw known_to.1 (ground arith)))))))))

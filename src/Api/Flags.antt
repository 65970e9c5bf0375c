-- ===== src/Api/Flags.antt =====
-- The route that changes the status of a risk flag: src/risk/risk.controller.ts behind the `ValidationPipe` of src/main.ts.
use hwala.Base.{
  ℕ, arith, ◌≡◌, refl, Bool, true, false, List, [], ◌∷◌, All, String, Bool-cases, inl, inr,
}
use hwala.Base.Result.{Error, Result, ok, err}
use hwala.Guards.{includes_scope}
use hwala.Auth.Jwt.{JwtUser}
use hwala.Webhook.Dlq.{DlqState}
use hwala.Api.{
  Outside, Credentials, ApiEnv, Route, UpdateRiskFlagStatusDto, respond, answer_guarded, guard_of,
  for_user, behind_token, user_of, valid_status, failed, invalid,
}

-- A body with a property that its class does not decorate is refused (`forbidNonWhitelisted`).
abbrev pub Forbids : ((decorated sent : List String) → Bool) → Type 0
Forbids whitelisted =
    (decorated sent : List String)
    → whitelisted decorated sent ≡ true
    → All (λ p. includes_scope decorated p ≡ true) sent

none_sent :
    (sent : List String) (p : String)
    → All (λ q. includes_scope [] q ≡ true) sent
    → includes_scope sent p ≡ false
none_sent [] p h = refl
none_sent (q ∷ sent) p h = absurd (ground arith)

module _ (o : Outside) (env : ApiEnv) (forbids : Forbids o.whitelisted) where
  invalid_status :
      (sent : List String) (dto : UpdateRiskFlagStatusDto)
      → includes_scope sent "status" ≡ true
      → valid_status o.is_email o.whitelisted sent dto ≡ false
  unfolding valid_status
  invalid_status sent dto h = elim (Bool-cases (o.whitelisted [] sent)) [
    | inl e ↦ let none_left = none_sent sent "status" (forbids [] sent e) in absurd (ground arith)
    | inr e ↦ e
  ]

  patch_flag-failed :
      (found : Result JwtUser) (id : ℕ) (sent : List String) (dto : UpdateRiskFlagStatusDto)
      (st : DlqState)
      → includes_scope sent "status" ≡ true
      → (e : Error) × (behind_token o env found (Route.patch_flag id sent dto) st ≡ (failed e, st))
  unfolding for_user
  patch_flag-failed (ok u) id sent dto st h = (invalid, rw (invalid_status sent dto h) refl)
  patch_flag-failed (err e) id sent dto st h = (e, refl)

  -- No status of a risk flag can be changed over HTTP: as no property of its class is decorated, every body that carries a
  -- status is refused, whoever sends it, and the flags stay as they are.
  pub patch_flag-refused :
      (c : Credentials) (id : ℕ) (sent : List String) (dto : UpdateRiskFlagStatusDto)
      (st : DlqState)
      → includes_scope sent "status" ≡ true
      → (e : Error) × (respond o env c (Route.patch_flag id sent dto) st ≡ (failed e, st))
  unfolding respond answer_guarded guard_of
  patch_flag-refused c id sent dto st h = patch_flag-failed (user_of o c) id sent dto st h

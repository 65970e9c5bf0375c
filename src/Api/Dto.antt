-- ===== src/Api/Dto.antt =====
-- The bodies of requests and their constraints: src/auth/dto, src/api-keys/dto, src/accounts/dto and
-- `UpdateRiskFlagStatusDto` of src/risk/risk.controller.ts, checked by the `ValidationPipe` of src/main.ts.
-- `sent` has the names of the properties in the body. Keys are numbers, so that the format of a UUID is not checked.
use hwala.Base.{
  ℕ, zero, suc, String, Bool, true, false, ◌&&◌, Option, none, some, List, [], ◌∷◌, leb,
}
use hwala.Base.Int.{ℤ, pos, leb_ℤ}
use hwala.Db.{Role, AccountType, RiskStatus}

pub record RegisterUserDto : Type 0 where
  pub tenant_id : ℕ
  pub email : String
  pub password : String
  pub role : Option Role

pub record LoginDto : Type 0 where
  pub email : String
  pub password : String

pub record CreateApiKeyDto : Type 0 where
  pub name : String
  pub scopes : Option (List String)

pub record CreateAccountDto : Type 0 where
  pub user_id : ℕ
  pub type : Option AccountType
  pub initial_balance : Option ℤ

pub record UpdateRiskFlagStatusDto : Type 0 where
  pub status : Option RiskStatus

abbrev size : String → ℕ
size String.[] = zero
size (String.◌∷◌ c s) = suc (size s)

-- `@IsNotEmpty()`
abbrev pub is_filled : String → Bool
is_filled String.[] = false
is_filled (String.◌∷◌ c s) = true

abbrev is_given : {A : Type 0} → Option A → Bool
is_given none = false
is_given (some a) = true

-- `@IsOptional()`, `@Min(0)`
abbrev not_negative : Option ℤ → Bool
not_negative none = true
not_negative (some n) = leb_ℤ (pos 0) n

-- What the validation library makes of a body: which texts are email addresses, and whether `whitelist` and
-- `forbidNonWhitelisted` let the properties of a body through, given those that its class decorates.
module _ (is_email : String → Bool) (whitelisted : (decorated sent : List String) → Bool) where
  unfoldable pub valid_login : List String → LoginDto → Bool
  valid_login sent dto =
      whitelisted ("email" ∷ "password" ∷ []) sent
      && (is_email dto.email && is_filled dto.email)
      && (is_filled dto.password && leb 6 (size dto.password))

  unfoldable pub valid_register : List String → RegisterUserDto → Bool
  valid_register sent dto =
      whitelisted ("tenantId" ∷ "email" ∷ "password" ∷ "role" ∷ []) sent
      && (is_email dto.email && is_filled dto.email)
      && (is_filled dto.password && leb 6 (size dto.password))

  unfoldable pub valid_api_key : List String → CreateApiKeyDto → Bool
  valid_api_key sent dto = whitelisted ("name" ∷ "scopes" ∷ []) sent && is_filled dto.name

  unfoldable pub valid_account : List String → CreateAccountDto → Bool
  valid_account sent dto =
      whitelisted ("userId" ∷ "type" ∷ "initialBalance" ∷ []) sent
      && is_given dto.type
      && not_negative dto.initial_balance

  -- No property of the class is decorated.
  unfoldable pub valid_status : List String → UpdateRiskFlagStatusDto → Bool
  valid_status sent dto = whitelisted [] sent

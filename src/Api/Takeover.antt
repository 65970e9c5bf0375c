-- ===== src/Api/Takeover.antt =====
-- What somebody without credentials can get from the open routes of src/auth/auth.controller.ts (Api).
use text.Mathlib.TextEquality.{eq_iff}
use hwala.Base.{
  ℕ, arith, ◌≡◌, refl, ap, true, false, Option, none, some, List, String, Bool-cases, inl, inr,
}
use hwala.Base.Result.{ok}
use hwala.Base.Table.{lookup, insert}
use hwala.Db.{Db, Tenant, Role, api_user}
use hwala.Auth.{Profile, profile_of, find_by_email, register, user_row, is_empty}
use hwala.Auth.Laws.{login-register}
use hwala.Auth.Jwt.{payload_of, jwt_guard}
use hwala.ApiKeys.{CreatedKey, create_api_key}
use hwala.ApiKeys.Laws.{NoMark}
use hwala.Guards.Laws.{api_key_guard-create_api_key}
use hwala.Webhook.Dlq.{DlqState}
use hwala.Api.{
  Outside, Credentials, ApiEnv, Route, RegisterUserDto, LoginDto, CreateApiKeyDto, respond,
  guard_of, answer_guarded, for_anyone, for_user, identity, valid_register, valid_login,
  valid_api_key, as_profile, as_session, as_key, scopes_or_none, is_filled,
}

-- What the routes rely on: the first segment of a key is told from the rest, bcrypt accepts what it has hashed, and passport
-- reads from a fresh token what was signed.
pub record IsFaithful (o : Outside) : Type 0 where
  pub unmarked : (id : ℕ) → NoMark (o.uuid_text id)
  pub read_back : (id : ℕ) → o.uuid_of (o.uuid_text id) ≡ some id
  pub accepted : (salt : ℕ) (text : String) → o.compare text (o.hash salt text) ≡ true
  pub verified : (p : Profile) → o.verify (o.sign p) ≡ some (payload_of p)

abbrev pub nobody : Credentials
nobody = record { api_key = none; token = none }

abbrev pub bearer : String → Credentials
bearer token = record { api_key = none; token = some token }

abbrev pub keyed : String → Credentials
keyed key = record { api_key = some key; token = none }

is_empty-filled : (s : String) → is_filled s ≡ true → is_empty s ≡ false
is_empty-filled s h = elim (Bool-cases (is_empty s)) [
  | inl e ↦
      let none_left : is_filled s ≡ false = ap is_filled ((eq_iff s "").0 e) in
      absurd (ground arith)
  | inr e ↦ e
]

module _ (o : Outside) where
  valid_register-filled :
      (sent : List String) (dto : RegisterUserDto)
      → valid_register o.is_email o.whitelisted sent dto ≡ true
      → (is_empty dto.email ≡ false) × (is_empty dto.password ≡ false)
  unfolding valid_register
  valid_register-filled sent dto v =
      (is_empty-filled dto.email (ground arith), is_empty-filled dto.password (ground arith))

  post_register-ok :
      (env : ApiEnv) (sent : List String) (dto : RegisterUserDto) (tenant : Tenant) (st : DlqState)
      → valid_register o.is_email o.whitelisted sent dto ≡ true
      → lookup dto.tenant_id st.db.tenants ≡ some tenant
      → find_by_email dto.email st.db.users ≡ none
      → lookup env.user_id st.db.users ≡ none
      → let row = user_row o.hash env.salt dto.tenant_id dto.email dto.password dto.role in
        let db' : Db = record st.db { users = insert env.user_id row st.db.users } in
        (register o.hash env.user_id env.salt
            (some dto.tenant_id)
            dto.email
            dto.password
            dto.role
            st.db
          ≡ (ok (profile_of env.user_id row), db'))
        × (respond o env nobody (Route.post_register sent dto) st
            ≡ (as_profile (profile_of env.user_id row), record st { db = db' }))
  unfolding respond answer_guarded guard_of for_anyone register
  post_register-ok env sent dto tenant st v t e i =
      let (n1, n2) = valid_register-filled sent dto v in
      rw v (rw n1 (rw n2 (rw t (rw e (rw i (refl, refl))))))

  module _ (faithful : IsFaithful o) (env : ApiEnv) where
    -- A login that follows a registration.
    post_login-register :
        (sent : List String) (dto : LoginDto) (tenant_id : ℕ) (role : Option Role) (st : DlqState)
        (profile : Profile) (db' : Db)
        → valid_login o.is_email o.whitelisted sent dto ≡ true
        → register o.hash env.user_id env.salt (some tenant_id) dto.email dto.password role st.db
          ≡ (ok profile, db')
        → respond o env nobody (Route.post_login sent dto) (record st { db = db' })
          ≡ (as_session (o.sign profile) profile, record st { db = db' })
    unfolding respond answer_guarded guard_of for_anyone
    post_login-register sent dto tenant_id role st profile db' v h = rw v (
        rw
          (login-register o.hash o.compare o.sign faithful.accepted env.user_id env.salt
            (some tenant_id) dto.email dto.password role st.db profile db' h)
          refl)

    -- The token of a profile opens the routes behind the guard for the tenant of the profile.
    post_key-bearer :
        (sent : List String) (dto : CreateApiKeyDto) (profile : Profile) (tenant : Tenant)
        (st : DlqState)
        → valid_api_key o.is_email o.whitelisted sent dto ≡ true
        → lookup profile.tenant_id st.db.tenants ≡ some tenant
        → lookup env.key.new_id st.db.api_keys ≡ none
        → let made =
            create_api_key o.uuid_text o.uuid_of o.hash o.compare env.key profile.tenant_id dto.name
              (scopes_or_none dto.scopes)
              st.db in
          (key : CreatedKey) × (made ≡ (ok key, made.1))
          × (respond o env (bearer (o.sign profile)) (Route.post_key sent dto) st
              ≡ (as_key key, record st { db = made.1 }))
    unfolding respond answer_guarded guard_of for_user jwt_guard create_api_key
    post_key-bearer sent dto profile tenant st v t i =
        rw (faithful.verified profile) (rw v (rw t (rw i (_, refl, refl))))

    -- Somebody without credentials gets an API key of any tenant, with any scopes: a registration that names the tenant, a
    -- login and a request for a key. The guards accept the key for the tenant and with these scopes. It takes
    -- bodies that pass the pipe, an email that is not registered yet, and generated keys that are not taken.
    pub takeover :
        (sent_user sent_login sent_key : List String) (dto : RegisterUserDto)
        (wish : CreateApiKeyDto) (tenant : Tenant) (st : DlqState)
        → let login_dto : LoginDto = record { email = dto.email; password = dto.password } in
          valid_register o.is_email o.whitelisted sent_user dto ≡ true
          → valid_login o.is_email o.whitelisted sent_login login_dto ≡ true
          → valid_api_key o.is_email o.whitelisted sent_key wish ≡ true
          → lookup dto.tenant_id st.db.tenants ≡ some tenant
          → find_by_email dto.email st.db.users ≡ none
          → lookup env.user_id st.db.users ≡ none
          → lookup env.key.new_id st.db.api_keys ≡ none
          → NoMark env.key.secret
          → let st1 = (respond o env nobody (Route.post_register sent_user dto) st).1 in
            (token : String) × (profile : Profile) × (key : CreatedKey) × (st2 : DlqState)
            × (respond o env nobody (Route.post_login sent_login login_dto) st1
                ≡ (as_session token profile, st1))
            × (respond o env (bearer token) (Route.post_key sent_key wish) st1 ≡ (as_key key, st2))
            × (identity o (keyed key.api_key) st2.db
                ≡ ok (record {
                  tenant_id = dto.tenant_id;
                  role = some api_user;
                  api_key_id = some key.id;
                  scopes = some (scopes_or_none wish.scopes);
                }))
    takeover sent_user sent_login sent_key dto wish tenant st v w x t e i j n =
        let (made, asked) = post_register-ok env sent_user dto tenant st v t e i in
        let row = user_row o.hash env.salt dto.tenant_id dto.email dto.password dto.role in
        let db1 : Db = record st.db { users = insert env.user_id row st.db.users } in
        let (key, created, given) =
          post_key-bearer sent_key wish (profile_of env.user_id row) tenant (record st { db = db1 })
            x t j in
        rw asked (
          o.sign (profile_of env.user_id row),
          profile_of env.user_id row,
          key,
          _,
          post_login-register sent_login (record { email = dto.email; password = dto.password })
              dto.tenant_id dto.role st (profile_of env.user_id row) db1 w made,
          given,
          api_key_guard-create_api_key o.uuid_text o.uuid_of o.hash o.compare faithful.unmarked
              faithful.read_back faithful.accepted env.key dto.tenant_id wish.name
              (scopes_or_none wish.scopes) db1 key _ n created,
        )

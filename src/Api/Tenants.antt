-- ===== src/Api/Tenants.antt =====
-- What a request with the credentials of one tenant leaves of the others (Api).
use hwala.Base.{ℕ, ◌≡◌, ◌≢◌, refl, Bool, true, false, Option, none, some, ◌==◌, String}
use hwala.Base.Result.{Result, ok, err}
use hwala.Base.Table.{lookup}
use hwala.Db.{Db}
use hwala.Auth.Jwt.{JwtUser, tenant_of_user}
use hwala.Guards.{Identity, tenant_of_key}
use hwala.Webhook.Dlq.{DlqState}
use hwala.Api.{
  Outside, Credentials, ApiEnv, Route, Answer, Guard, token_guard, key_guard, no_guard, guard_of,
  for_user, for_tenant, behind_token, behind_key, with_scope, answer_guarded, respond, update_flag,
  user_of, identity, read, write, checked_body, page_query,
}
use hwala.Api.Kept.{
  IsKept, IsKept-refl, create_api_key-IsKept, revoke_api_key-IsKept, update_risk_flag_status-IsKept,
  create_account-IsKept,
}

-- The tenant that the guards let a request act for.
abbrev pub caller : Outside → Credentials → Guard → Db → Option ℕ
caller o c token_guard db = tenant_of_user (user_of o c)
caller o c (key_guard scope) db = tenant_of_key (identity o c db)
caller o c no_guard db = none

-- The database keeps the rows of a tenant, and nothing is queued.
abbrev pub Leaves : ℕ → DlqState → DlqState → Type 0
Leaves t st st' = IsKept t st.db st'.db × (st'.queue ≡ st.queue)

Leaves-refl : (t : ℕ) (st : DlqState) → Leaves t st st
Leaves-refl t st = (IsKept-refl t st.db, refl)

write-Leaves :
    {A : Type 0} (t : ℕ) (f : A → Answer) (r : Result A × Db) (st : DlqState)
    → IsKept t st.db r.1
    → Leaves t st (write f r st).1
write-Leaves t f (ok a, db) st h = (h, refl)
write-Leaves t f (err e, db) st h = (h, refl)

read-Leaves :
    {A : Type 0} (t : ℕ) (f : A → Answer) (r : Result A) (st : DlqState)
    → Leaves t st (read f r st).1
read-Leaves t f (ok a) st = Leaves-refl t st
read-Leaves t f (err e) st = Leaves-refl t st

page_query-Leaves :
    (t : ℕ) (f : ℕ → ℕ → Answer) (limit offset : Result ℕ) (st : DlqState)
    → Leaves t st (page_query f limit offset st).1
page_query-Leaves t f (ok n) (ok m) st = Leaves-refl t st
page_query-Leaves t f (ok n) (err e) st = Leaves-refl t st
page_query-Leaves t f (err e) offset st = Leaves-refl t st

checked_body-Leaves :
    (t : ℕ) (b : Bool) (next : Answer × DlqState) (st : DlqState)
    → Leaves t st next.1
    → Leaves t st (checked_body b next st).1
checked_body-Leaves t true next st h = h
checked_body-Leaves t false next st h = Leaves-refl t st

update_flag-IsKept :
    (s t : ℕ) (id : ℕ) (status : Option hwala.Db.RiskStatus) (db : Db)
    → (s == t) ≡ false
    → IsKept t db (update_flag s id status db).1
update_flag-IsKept s t id none db other = IsKept-refl t db
update_flag-IsKept s t id (some status) db other =
    update_risk_flag_status-IsKept s t other id status db

module _ (o : Outside) (env : ApiEnv) (t : ℕ) (st : DlqState)
    (free : lookup env.key.audit_id st.db.audit_logs ≡ none) where
  for_user-Leaves :
      (u : JwtUser) (r : Route) → (u.tenant_id == t) ≡ false → Leaves t st (for_user o env u r st).1
  unfolding for_user
  for_user-Leaves u Route.get_me other = read-Leaves t _ _ st
  for_user-Leaves u (Route.post_key sent dto) other =
      checked_body-Leaves t _ _ st
        (write-Leaves t _ _ st (create_api_key-IsKept _ t other _ _ _ _ env.key _ _ st.db free))
  for_user-Leaves u Route.list_keys other = Leaves-refl t st
  for_user-Leaves u (Route.delete_key id) other =
      write-Leaves t _ _ st (revoke_api_key-IsKept _ t other env.key id st.db free)
  for_user-Leaves u (Route.get_logs user_id action limit offset) other =
      page_query-Leaves t _ _ _ st
  for_user-Leaves u (Route.get_log id) other = read-Leaves t _ _ st
  for_user-Leaves u (Route.get_flags account_id status limit offset) other =
      page_query-Leaves t _ _ _ st
  for_user-Leaves u (Route.patch_flag id sent dto) other =
      checked_body-Leaves t _ _ st
        (write-Leaves t _ _ st (update_flag-IsKept _ t id dto.status st.db other))
  for_user-Leaves u _ other = Leaves-refl t st

  for_tenant-Leaves :
      (s : ℕ) (r : Route) → (s == t) ≡ false → Leaves t st (for_tenant o env s r st).1
  unfolding for_tenant
  for_tenant-Leaves s (Route.post_account sent dto) other =
      checked_body-Leaves t _ _ st
        (write-Leaves t _ _ st (create_account-IsKept s t other env.account_id _ dto.type _ st.db))
  for_tenant-Leaves s Route.get_accounts other = Leaves-refl t st
  for_tenant-Leaves s Route.get_reconcile other = Leaves-refl t st
  for_tenant-Leaves s (Route.get_ledger id) other = read-Leaves t _ _ st
  for_tenant-Leaves s _ other = Leaves-refl t st

  with_scope-Leaves :
      (i : Identity) (checked : Result (Unit {0})) (r : Route)
      → (i.tenant_id == t) ≡ false
      → Leaves t st (with_scope o env i checked r st).1
  with_scope-Leaves i (ok _) r other = for_tenant-Leaves i.tenant_id r other
  with_scope-Leaves i (err e) r other = Leaves-refl t st

  behind_token-Leaves :
      (found : Result JwtUser) (r : Route)
      → ((s : ℕ) → tenant_of_user found ≡ some s → (s == t) ≡ false)
      → Leaves t st (behind_token o env found r st).1
  behind_token-Leaves (ok u) r other = for_user-Leaves u r (other u.tenant_id refl)
  behind_token-Leaves (err e) r other = Leaves-refl t st

  behind_key-Leaves :
      (scope : String) (found : Result Identity) (r : Route)
      → ((s : ℕ) → tenant_of_key found ≡ some s → (s == t) ≡ false)
      → Leaves t st (behind_key o env scope found r st).1
  behind_key-Leaves scope (ok i) r other = with_scope-Leaves i _ r (other i.tenant_id refl)
  behind_key-Leaves scope (err e) r other = Leaves-refl t st

  answer_guarded-Leaves :
      (c : Credentials) (g : Guard) (r : Route)
      → g ≢ no_guard
      → ((s : ℕ) → caller o c g st.db ≡ some s → (s == t) ≡ false)
      → Leaves t st (answer_guarded o env c g r st).1
  unfolding answer_guarded
  answer_guarded-Leaves c token_guard r guarded other = behind_token-Leaves _ r other
  answer_guarded-Leaves c (key_guard scope) r guarded other = behind_key-Leaves scope _ r other
  answer_guarded-Leaves c no_guard r guarded other = absurd (guarded refl)

  -- A request to a route with a guard, of the controllers other than that of transfers, whatever credentials it has:
  -- the API keys, accounts, risk flags and audit entries of every tenant but the one that the guards let it act for stay
  -- as they are, and so do all other tables and the queue, when the generated key of an audit entry is not taken.
  pub respond-Leaves :
      (c : Credentials) (r : Route)
      → guard_of r ≢ no_guard
      → ((s : ℕ) → caller o c (guard_of r) st.db ≡ some s → (s == t) ≡ false)
      → Leaves t st (respond o env c r st).1
  unfolding respond
  respond-Leaves c r guarded other = answer_guarded-Leaves c (guard_of r) r guarded other

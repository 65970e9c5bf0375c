-- ===== src/Bank/System/Books.antt =====
-- Which requests to the controllers other than that of transfers leave the books alone (Api).
use hwala.Base.{ℕ, arith, ◌≡◌, refl, String, Bool, true, false, Option, none, some, List}
use hwala.Base.Result.{Result, ok, err}
use hwala.Db.{Db, Role, RiskStatus}
use hwala.Auth.{register}
use hwala.Auth.Jwt.{JwtUser}
use hwala.ApiKeys.{KeyEnv, create_api_key, revoke_api_key}
use hwala.Risk.{update_risk_flag_status}
use hwala.Webhook.Dlq.{DlqState, retry_failed_webhook, dismiss_failed_webhook, RetryOutcome}
use hwala.Api.{
  Outside, ApiEnv, Route, Answer, for_user, for_tenant, for_anyone, update_flag, read, write,
  write_letter, checked_body, page_query,
}
use hwala.Bank.Requests.Isolation.{create_account-By}
use hwala.Bank.View.{owner}
use hwala.Bank.Tenant.{By, By-refl}

-- The accounts, the ledger and the outbox are untouched.
pub record SameBooks (db db' : Db) : Type 0 where
  pub accounts : db'.accounts ≡ db.accounts
  pub ledger : db'.ledger ≡ db.ledger
  pub outbox : db'.outbox ≡ db.outbox

SameBooks-refl : (db : Db) → SameBooks db db
SameBooks-refl db = record { accounts = refl; ledger = refl; outbox = refl }

pub SameBooks-By : (t : ℕ) (db db' : Db) → SameBooks db db' → By t db db'
unfolding owner
SameBooks-By t db db' b = record {
  owners = λ k s h. rw b.accounts h;
  sound = λ h. record { keys = rw b.accounts h.keys; owned = rw b.ledger (rw b.accounts h.owned) };
  others = λ u n. rw b.accounts (rw b.ledger (rw b.outbox refl));
}

create_api_key-SameBooks :
    (uuid_text : ℕ → String) (uuid_of : String → Option ℕ)
    (hash : (salt : ℕ) (raw_key : String) → String) (compare : (raw_key key_hash : String) → Bool)
    (env : KeyEnv) (s : ℕ) (name : String) (scopes : List String) (db : Db)
    → SameBooks db (create_api_key uuid_text uuid_of hash compare env s name scopes db).1
unfolding create_api_key
create_api_key-SameBooks uuid_text uuid_of hash compare env s name scopes db = record {
  accounts = ground arith;
  ledger = ground arith;
  outbox = ground arith;
}

revoke_api_key-SameBooks :
    (env : KeyEnv) (s id : ℕ) (db : Db) → SameBooks db (revoke_api_key env s id db).1
unfolding revoke_api_key
revoke_api_key-SameBooks env s id db = record {
  accounts = ground arith;
  ledger = ground arith;
  outbox = ground arith;
}

update_risk_flag_status-SameBooks :
    (s id : ℕ) (status : RiskStatus) (db : Db)
    → SameBooks db (update_risk_flag_status s id status db).1
unfolding update_risk_flag_status
update_risk_flag_status-SameBooks s id status db = record {
  accounts = ground arith;
  ledger = ground arith;
  outbox = ground arith;
}

register-SameBooks :
    (hash : (salt : ℕ) (text : String) → String) (id salt tenant_id : ℕ) (email password : String)
    (role : Option Role) (db : Db)
    → SameBooks db (register hash id salt (some tenant_id) email password role db).1
unfolding register
register-SameBooks hash id salt tenant_id email password role db = record {
  accounts = ground arith;
  ledger = ground arith;
  outbox = ground arith;
}

retry_failed_webhook-SameBooks :
    (o : RetryOutcome) (id : ℕ) (st : DlqState)
    → SameBooks st.db (retry_failed_webhook o id st).1.db
unfolding retry_failed_webhook
retry_failed_webhook-SameBooks o id st = record {
  accounts = ground arith;
  ledger = ground arith;
  outbox = ground arith;
}

dismiss_failed_webhook-SameBooks :
    (b : Bool) (id : ℕ) (st : DlqState) → SameBooks st.db (dismiss_failed_webhook b id st).1.db
unfolding dismiss_failed_webhook
dismiss_failed_webhook-SameBooks b id st = record {
  accounts = ground arith;
  ledger = ground arith;
  outbox = ground arith;
}

update_flag-SameBooks :
    (s id : ℕ) (status : Option RiskStatus) (db : Db) → SameBooks db (update_flag s id status db).1
update_flag-SameBooks s id none db = SameBooks-refl db
update_flag-SameBooks s id (some status) db = update_risk_flag_status-SameBooks s id status db

-- What holds of the databases before and after a service holds of those before and after its route.
module _ (P : Db → Db → Type 0) (same : (db : Db) → P db db) where
  write-keeps :
      {A : Type 0} (f : A → Answer) (r : Result A × Db) (st : DlqState)
      → P st.db r.1
      → P st.db (write f r st).1.db
  write-keeps f (ok a, db) st h = h
  write-keeps f (err e, db) st h = h

  read-keeps :
      {A : Type 0} (f : A → Answer) (r : Result A) (st : DlqState) → P st.db (read f r st).1.db
  read-keeps f (ok a) st = same st.db
  read-keeps f (err e) st = same st.db

  page_query-keeps :
      (f : ℕ → ℕ → Answer) (limit offset : Result ℕ) (st : DlqState)
      → P st.db (page_query f limit offset st).1.db
  page_query-keeps f (ok n) (ok m) st = same st.db
  page_query-keeps f (ok n) (err e) st = same st.db
  page_query-keeps f (err e) offset st = same st.db

  checked_body-keeps :
      (b : Bool) (next : Answer × DlqState) (st : DlqState)
      → P st.db next.1.db
      → P st.db (checked_body b next st).1.db
  checked_body-keeps true next st h = h
  checked_body-keeps false next st h = same st.db

  write_letter-keeps :
      (r : Result ℕ × DlqState) (st : DlqState) → P st.db r.1.db → P st.db (write_letter r).1.db
  write_letter-keeps (ok id, st') st h = h
  write_letter-keeps (err e, st') st h = h

module _ (o : Outside) (env : ApiEnv) (st : DlqState) where
  pub for_user-SameBooks : (u : JwtUser) (r : Route) → SameBooks st.db (for_user o env u r st).1.db
  unfolding for_user
  for_user-SameBooks u Route.get_me = read-keeps SameBooks SameBooks-refl _ _ st
  for_user-SameBooks u (Route.post_key sent dto) =
      checked_body-keeps SameBooks SameBooks-refl _ _ st (
        write-keeps SameBooks SameBooks-refl _ _ st
          (create_api_key-SameBooks _ _ _ _ env.key _ _ _ st.db))
  for_user-SameBooks u Route.list_keys = SameBooks-refl st.db
  for_user-SameBooks u (Route.delete_key id) =
      write-keeps SameBooks SameBooks-refl _ _ st (revoke_api_key-SameBooks env.key _ id st.db)
  for_user-SameBooks u (Route.get_logs user_id action limit offset) =
      page_query-keeps SameBooks SameBooks-refl _ _ _ st
  for_user-SameBooks u (Route.get_log id) = read-keeps SameBooks SameBooks-refl _ _ st
  for_user-SameBooks u (Route.get_flags account_id status limit offset) =
      page_query-keeps SameBooks SameBooks-refl _ _ _ st
  for_user-SameBooks u (Route.patch_flag id sent dto) =
      checked_body-keeps SameBooks SameBooks-refl _ _ st
        (write-keeps SameBooks SameBooks-refl _ _ st (update_flag-SameBooks _ id dto.status st.db))
  for_user-SameBooks u _ = SameBooks-refl st.db

  pub for_anyone-SameBooks : (r : Route) → SameBooks st.db (for_anyone o env r st).1.db
  unfolding for_anyone
  for_anyone-SameBooks (Route.post_register sent dto) =
      checked_body-keeps SameBooks SameBooks-refl _ _ st (
        write-keeps SameBooks SameBooks-refl _ _ st (
          register-SameBooks o.hash env.user_id env.salt dto.tenant_id dto.email dto.password
            dto.role st.db))
  for_anyone-SameBooks (Route.post_login sent dto) =
      checked_body-keeps SameBooks SameBooks-refl _ _ st
        (read-keeps SameBooks SameBooks-refl _ _ st)
  for_anyone-SameBooks (Route.post_retry id) =
      write_letter-keeps SameBooks SameBooks-refl _ st
        (retry_failed_webhook-SameBooks env.retry id st)
  for_anyone-SameBooks (Route.delete_failure id) =
      write_letter-keeps SameBooks SameBooks-refl _ st
        (dismiss_failed_webhook-SameBooks env.delete_ok id st)
  for_anyone-SameBooks (Route.get_failures tenant_id page limit) = SameBooks-refl st.db
  for_anyone-SameBooks Route.get_hello = SameBooks-refl st.db
  for_anyone-SameBooks _ = SameBooks-refl st.db

  pub for_tenant-By : (t : ℕ) (r : Route) → By t st.db (for_tenant o env t r st).1.db
  unfolding for_tenant
  for_tenant-By t (Route.post_account sent dto) = checked_body-keeps (By t) (By-refl t) _ _ st (
      write-keeps (By t) (By-refl t) _ _ st (create_account-By t env.account_id _ dto.type _ st.db))
  for_tenant-By t Route.get_accounts = By-refl t st.db
  for_tenant-By t Route.get_reconcile = By-refl t st.db
  for_tenant-By t (Route.get_ledger id) = read-keeps (By t) (By-refl t) _ _ st
  for_tenant-By t _ = By-refl t st.db

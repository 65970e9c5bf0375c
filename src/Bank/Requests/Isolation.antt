-- ===== src/Bank/Requests/Isolation.antt =====
-- No request of one tenant changes what another tenant sees.
use hwala.Base.{
  ℕ, ◌≡◌, refl, ◌≢◌, ◌∙◌, ap, Option, none, some, List, [], ◌∷◌, All, Bool-cases, inl, inr,
}
use hwala.Base.Int.{ℤ, pos, ltb_ℤ}
use hwala.Base.Result.{Result, ok, err}
use hwala.Base.Table.{lookup}
use hwala.Db.{Db, Account, AccountType, Tenant}
use hwala.Db.Tx.{account_create}
use hwala.Transfer.Execute.{Env, World, execute_transfer}
use hwala.Transfer.Hold.{hold_funds, release_hold}
use hwala.Transfer.Capture.{capture_hold}
use hwala.Accounts.{account_row, created, create_for, create_account}
use hwala.Bank.View.{view, IsSound}
use hwala.Bank.Tenant.{By, By-refl, account_create-By}
use hwala.Bank.Transfers.{execute_transfer-By}
use hwala.Bank.Holds.{hold_funds-By, release_hold-By, capture_hold-By}
use hwala.Bank.Requests.{
  Request, Call, handle, serve, serve_all, transfer, hold, capture, release, open_account,
}

created-By :
    (t id : ℕ) (a : Account) (db : Db) (res : Result (Unit {0} × Db))
    → a.tenant_id ≡ t
    → account_create id a db ≡ res
    → By t db (created id a db res).1
created-By t id a db (ok (u, db')) o h = (account_create-By t id a db u db' o h).0
created-By t id a db (err e) o h = By-refl t db

create_for-By :
    (t id : ℕ) (a : Account) (row : Option Tenant) (db : Db)
    → a.tenant_id ≡ t
    → By t db (create_for id a row db).1
create_for-By t id a none db o = By-refl t db
create_for-By t id a (some _) db o = created-By t id a db _ o refl

pub create_account-By :
    (t id : ℕ) (user : Option ℕ) (type : Option AccountType) (balance : ℤ) (db : Db)
    → By t db (create_account id (some t) user type balance db).1
unfolding create_account
create_account-By t id (some user) (some type) balance db =
    elim (Bool-cases (ltb_ℤ balance (pos 0))) [
      | inl e ↦ rw e (By-refl t db)
      | inr e ↦
          rw e (create_for-By t id (account_row t user type balance) (lookup t db.tenants) db refl)
    ]
create_account-By t id (some user) none balance db = By-refl t db
create_account-By t id none (some type) balance db = By-refl t db
create_account-By t id none none balance db = By-refl t db

handle-By :
    (env : Env) (t : ℕ) (q : Request) (w : World)
    → IsSound w.db
    → By t w.db (handle env (some t) q w).1.db
handle-By env t (transfer s r amount description) w sound =
    execute_transfer-By env t s r amount description w sound
handle-By env t (hold id amount description) w sound =
    hold_funds-By env t id amount description w.db
handle-By env t (capture hold_id r amount description) w sound =
    capture_hold-By env t hold_id r amount description w.db sound
handle-By env t (release hold_id amount description) w sound =
    release_hold-By env t hold_id amount description w.db sound
handle-By env t (open_account id user type balance) w sound =
    create_account-By t id user type balance w.db

-- A request without a tenant changes nothing.
handle-none : (env : Env) (q : Request) (w : World) → (handle env none q w).1 ≡ w
unfolding execute_transfer hold_funds capture_hold release_hold create_account
handle-none env (transfer s r amount description) w = refl
handle-none env (hold id amount description) w = refl
handle-none env (capture hold_id r amount description) w = refl
handle-none env (release hold_id amount description) w = refl
handle-none env (open_account id (some user) (some type) balance) w = refl
handle-none env (open_account id (some user) none balance) w = refl
handle-none env (open_account id none (some type) balance) w = refl
handle-none env (open_account id none none balance) w = refl

pub handle-Apart :
    (env : Env) (tenant : Option ℕ) (q : Request) (w : World) (u : ℕ)
    → IsSound w.db
    → IsSound (handle env tenant q w).1.db
      × (tenant ≢ some u → view u (handle env tenant q w).1.db ≡ view u w.db)
handle-Apart env none q w u sound = rw (handle-none env q w) (sound, λ n. refl)
handle-Apart env (some t) q w u sound =
    let b = handle-By env t q w sound in (b.sound sound, λ n. b.others u (λ e. n (ap some e)))

-- In a database where every key stands once and every ledger entry names an account of its own tenant, this
-- stays so, whatever requests are served.
pub serve_all-IsSound : (cs : List Call) (w : World) → IsSound w.db → IsSound (serve_all cs w).db
unfolding serve_all serve
serve_all-IsSound [] w sound = sound
serve_all-IsSound (c ∷ cs) w sound =
    serve_all-IsSound cs (serve c w).1 (handle-Apart c.env c.tenant c.request w 0 sound).0

-- Tenants are isolated: in a database where every key stands once and every ledger entry names an account of
-- its own tenant, whatever requests to the transfer and account services other tenants make, and in whatever
-- order, a tenant's accounts, ledger entries and outbox entries stay as they are.
pub serve_all-view :
    (u : ℕ) (cs : List Call) (w : World)
    → IsSound w.db
    → All (λ (c : Call). c.tenant ≢ some u) cs
    → view u (serve_all cs w).db ≡ view u w.db
unfolding serve_all serve
serve_all-view u [] w sound apart = refl
serve_all-view u (c ∷ cs) w sound apart =
    let (sound', same) = handle-Apart c.env c.tenant c.request w u sound in
    serve_all-view u cs (serve c w).1 sound' apart.1 ∙ same apart.0

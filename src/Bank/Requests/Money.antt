-- ===== src/Bank/Requests/Money.antt =====
-- What any sequence of requests does to the money, and what a refused request does.
use hwala.Base.{
  ℕ, ◌≡◌, refl, ◌∙◌, sym, ap, true, false, Option, none, some, List, [], ◌∷◌, arith, All,
  Bool-cases, inl, inr,
}
use hwala.Base.Int.{ℤ, pos, ◌+ℤ◌, ◌≤ℤ◌, ltb_ℤ, int_laws}
use hwala.Base.Result.{Result, ok, err, Error}
use hwala.Base.Table.{lookup, insert, lookup-insert, total, total-insert_new}
use hwala.Db.{Db, Account, AccountType, Tenant}
use hwala.Db.Tx.{account_create}
use hwala.Db.Tx.Runs.{account_create-ok}
use hwala.Db.Measure.{money, worth, balance_of, hold_of}
use hwala.Risk.Flags.{SameButFlags}
use hwala.Transfer.Execute.{Env, World, execute_transfer}
use hwala.Transfer.Hold.{hold_funds, release_hold}
use hwala.Transfer.Capture.{capture_hold}
use hwala.Transfer.Conserve.{execute_transfer-money}
use hwala.Transfer.HoldLaws.{hold_funds-money, release_hold-money}
use hwala.Transfer.CaptureLaws.{capture_hold-money}
use hwala.Transfer.Balances.{NonNeg, execute_transfer-NonNeg}
use hwala.Transfer.HoldNonNeg.{hold_funds-NonNeg, release_hold-NonNeg}
use hwala.Transfer.Failed.{execute_transfer_atomic}
use hwala.Transfer.HoldFailed.{hold_funds_atomic, release_hold_atomic, capture_hold_atomic}
use hwala.Accounts.{account_row, created, create_for, create_account}
use hwala.Bank.Requests.{
  Request, Call, Response, handle, serve, serve_all, opening, openings, is_error, is_refused,
  is_capture, transfer, hold, capture, release, open_account,
}

add_zero : (a : ℤ) → a +ℤ pos 0 ≡ a
add_zero a = omega int_laws

-- Opening an account: the row is new, or nothing has happened.
Opened : Result Account → Db → Db → Type 0
Opened (ok a) db db' =
    (id : ℕ) × (lookup id db.accounts ≡ none)
    × (a.hold_balance ≡ pos 0)
    × (pos 0 ≤ℤ a.balance)
    × (db' ≡ record db { accounts = insert id a db.accounts })
Opened (err _) db db' = db' ≡ db

created-Opened :
    (id : ℕ) (a : Account) (db : Db) (res : Result (Unit {0} × Db))
    → a.hold_balance ≡ pos 0
    → pos 0 ≤ℤ a.balance
    → account_create id a db ≡ res
    → let (r, db') = created id a db res in Opened r db db'
unfolding Opened
created-Opened id a db (ok (u, db')) e p h =
    let (free, same) = account_create-ok id a db u db' h in (id, free, e, p, same)
created-Opened id a db (err x) e p h = refl

create_for-Opened :
    (id : ℕ) (a : Account) (row : Option Tenant) (db : Db)
    → a.hold_balance ≡ pos 0
    → pos 0 ≤ℤ a.balance
    → let (r, db') = create_for id a row db in Opened r db db'
unfolding Opened
create_for-Opened id a none db e p = refl
create_for-Opened id a (some _) db e p = created-Opened id a db _ e p refl

create_account-Opened :
    (id : ℕ) (tenant user : Option ℕ) (type : Option AccountType) (balance : ℤ) (db : Db)
    → let (r, db') = create_account id tenant user type balance db in Opened r db db'
unfolding create_account Opened
create_account-Opened id (some t) (some user) (some type) balance db =
    elim (Bool-cases (ltb_ℤ balance (pos 0))) [
      | inl e ↦ rw e refl
      | inr e ↦ rw e (
          create_for-Opened id (account_row t user type balance) (lookup t db.tenants) db refl
            (ground arith))
    ]
create_account-Opened id (some t) (some user) none balance db = refl
create_account-Opened id (some t) none (some type) balance db = refl
create_account-Opened id (some t) none none balance db = refl
create_account-Opened id none (some user) (some type) balance db = refl
create_account-Opened id none (some user) none balance db = refl
create_account-Opened id none none (some type) balance db = refl
create_account-Opened id none none none balance db = refl

Opened-money :
    (res : Result Account) (db db' : Db)
    → Opened res db db'
    → money db' ≡ money db +ℤ opening (Response.opened res)
unfolding Opened money
Opened-money (ok a) db db' (id, free, e, p, same) = rw same (
    total-insert_new worth id a db.accounts free
    ∙ ap (λ h. total worth db.accounts +ℤ (a.balance +ℤ h)) e
    ∙ ap (λ x. total worth db.accounts +ℤ x) (add_zero a.balance))
Opened-money (err x) db db' same = rw same (sym (add_zero (money db)))

Opened-NonNeg : (res : Result Account) (db db' : Db) → Opened res db db' → NonNeg db → NonNeg db'
unfolding Opened balance_of hold_of
Opened-NonNeg (ok a) db db' (id, free, e, p, same) valid k = rw same (
  ground (arith, lookup-insert id k a db.accounts, valid k),
  ground (arith, lookup-insert id k a db.accounts, valid k),
)
Opened-NonNeg (err x) db db' same valid k = rw same (valid k)

handle-money :
    (env : Env) (tenant : Option ℕ) (q : Request) (w : World)
    → money (handle env tenant q w).1.db ≡ money w.db +ℤ opening (handle env tenant q w).0
handle-money env tenant (transfer s r amount description) w =
    execute_transfer-money env tenant s r amount description w ∙ sym (add_zero (money w.db))
handle-money env tenant (hold id amount description) w =
    hold_funds-money env tenant id amount description w.db ∙ sym (add_zero (money w.db))
handle-money env tenant (capture hold_id r amount description) w =
    capture_hold-money env tenant hold_id r amount description w.db ∙ sym (add_zero (money w.db))
handle-money env tenant (release hold_id amount description) w =
    release_hold-money env tenant hold_id amount description w.db ∙ sym (add_zero (money w.db))
handle-money env tenant (open_account id user type balance) w =
    Opened-money _ w.db _ (create_account-Opened id tenant user type balance w.db)

-- When all amounts are whole numbers of cents: whatever transfers, holds, captures, releases and account openings are
-- served, and in whatever order, the money in all accounts, available and held, grows by the initial balances of the accounts that were opened,
-- and by nothing else.
pub serve_all-money :
    (cs : List Call) (w : World) → money (serve_all cs w).db ≡ money w.db +ℤ openings cs w
unfolding serve_all openings serve
serve_all-money [] w = sym (add_zero (money w.db))
serve_all-money (c ∷ cs) w =
    let ih = serve_all-money cs (serve c w).1 in
    let step = handle-money c.env c.tenant c.request w in
    ih ∙ ap (λ x. x +ℤ openings cs (serve c w).1) step ∙ omega int_laws

handle-NonNeg :
    (env : Env) (tenant : Option ℕ) (q : Request) (w : World)
    → is_capture q ≡ false
    → NonNeg w.db
    → NonNeg (handle env tenant q w).1.db
handle-NonNeg env tenant (transfer s r amount description) w n valid =
    execute_transfer-NonNeg env tenant s r amount description w valid
handle-NonNeg env tenant (hold id amount description) w n valid =
    hold_funds-NonNeg env tenant id amount description w.db valid
handle-NonNeg env tenant (capture hold_id r amount description) w n valid = cc
handle-NonNeg env tenant (release hold_id amount description) w n valid =
    release_hold-NonNeg env tenant hold_id amount description w.db valid
handle-NonNeg env tenant (open_account id user type balance) w n valid =
    Opened-NonNeg _ w.db _ (create_account-Opened id tenant user type balance w.db) valid

-- Whatever requests other than captures are served, and in whatever order: if no account has a negative available or held
-- balance before, none has one after.
pub serve_all-NonNeg :
    (cs : List Call) (w : World)
    → All (λ (c : Call). is_capture c.request ≡ false) cs
    → NonNeg w.db
    → NonNeg (serve_all cs w).db
unfolding serve_all serve
serve_all-NonNeg [] w n valid = valid
serve_all-NonNeg (c ∷ cs) w n valid =
    serve_all-NonNeg cs (serve c w).1 n.1 (handle-NonNeg c.env c.tenant c.request w n.0 valid)

refused_db :
    {A : Type 0} (db : Db) (res : Result A × Db)
    → ((e : Error) (db' : Db) → res ≡ (err e, db') → db' ≡ db)
    → is_error res.0 ≡ true
    → SameButFlags db res.1
refused_db db (ok a, db') same h = cc
refused_db db (err e, db') same h = (db.risk_flags, same e db' refl)

refused_world :
    {A : Type 0} (db : Db) (res : Result A × World)
    → ((e : Error) (w' : World) → res ≡ (err e, w') → SameButFlags db w'.db)
    → is_error res.0 ≡ true
    → SameButFlags db res.1.db
refused_world db (ok a, w') same h = cc
refused_world db (err e, w') same h = same e w' refl

Opened-refused :
    (db : Db) (res : Result Account × Db)
    → Opened res.0 db res.1
    → is_error res.0 ≡ true
    → SameButFlags db res.1
unfolding Opened
Opened-refused db (ok a, db') o h = cc
Opened-refused db (err e, db') o h = (db.risk_flags, o)

handle-refused :
    (env : Env) (tenant : Option ℕ) (q : Request) (w : World)
    → is_refused (handle env tenant q w).0 ≡ true
    → SameButFlags w.db (handle env tenant q w).1.db
handle-refused env tenant (transfer s r amount description) w h =
    refused_world w.db (execute_transfer env tenant s r amount description w)
      (λ e w' p. execute_transfer_atomic env tenant s r amount description w e w' p) h
handle-refused env tenant (hold id amount description) w h =
    refused_db w.db (hold_funds env tenant id amount description w.db)
      (λ e db' p. hold_funds_atomic env tenant id amount description w.db e db' p) h
handle-refused env tenant (capture hold_id r amount description) w h =
    refused_db w.db (capture_hold env tenant hold_id r amount description w.db)
      (λ e db' p. capture_hold_atomic env tenant hold_id r amount description w.db e db' p) h
handle-refused env tenant (release hold_id amount description) w h =
    refused_db w.db (release_hold env tenant hold_id amount description w.db)
      (λ e db' p. release_hold_atomic env tenant hold_id amount description w.db e db' p) h
handle-refused env tenant (open_account id user type balance) w h =
    Opened-refused w.db (create_account id tenant user type balance w.db)
      (create_account-Opened id tenant user type balance w.db) h

-- A request that is answered with an error, for whatever reason, leaves the database as it was, but for the risk
-- flags that a transfer's risk check has written.
pub serve-refused :
    (c : Call) (w : World) → is_refused (serve c w).0 ≡ true → SameButFlags w.db (serve c w).1.db
unfolding serve
serve-refused c w h = handle-refused c.env c.tenant c.request w h

-- ===== src/Transfer/HoldRuns.antt =====
-- What `holdFunds` and `releaseHold` (src/transfer/transfer.service.ts) have checked and run when they
-- return.
use hwala.Base.{ℕ, ◌≡◌, refl, String, Option, none, some, arith, Bool-cases, Option-cases, inl, inr}
use hwala.Base.Int.{ℤ, pos, ◌≤ℤ◌, ◌<ℤ◌, leb_ℤ}
use hwala.Base.Result.{ok}
use hwala.Base.Table.{lookup}
use hwala.Db.{Db, Account, LedgerEntry}
use hwala.Transfer.Execute.{Env}
use hwala.Transfer.Hold.{
  HoldReceipt, ReleaseReceipt, find_hold, held_amount, check_available, write_hold, hold_body,
  check_release, write_release, release_body, hold_funds, release_hold,
}
use hwala.Transfer.Runs.{settle-ok}

-- The guards of `holdFunds`.
pub record Held (env : Env) (tenant : Option ℕ) (account_id : ℕ) (amount : ℤ) (description : String)
    (db : Db) (receipt : HoldReceipt) (db' : Db) : Type 0 where
  pub tenant_id : ℕ
  pub account : Account
  pub is_tenant : tenant ≡ some tenant_id
  pub positive : pos 0 <ℤ amount
  pub found : lookup account_id db.accounts ≡ some account
  pub own : account.tenant_id ≡ tenant_id
  pub covered : amount ≤ℤ account.balance
  pub written : write_hold env tenant_id account_id amount description db ≡ ok (receipt, db')

hold_body-ok :
    (env : Env) (tenant_id account_id : ℕ) (amount : ℤ) (description : String) (db : Db)
    (receipt : HoldReceipt) (db' : Db)
    → hold_body env tenant_id account_id amount description db ≡ ok (receipt, db')
    → (a : Account) × (lookup account_id db.accounts ≡ some a)
      × (a.tenant_id ≡ tenant_id)
      × (amount ≤ℤ a.balance)
      × (write_hold env tenant_id account_id amount description db ≡ ok (receipt, db'))
unfolding hold_body check_available
hold_body-ok env tenant_id account_id amount description db receipt db' h =
    elim (Option-cases (lookup account_id db.accounts)) [
      | inl e ↦ ground arith
      | inr (a, e) ↦ (a, e, ground arith, ground arith, ground arith)
    ]

pub hold_funds-Held :
    (env : Env) (tenant : Option ℕ) (account_id : ℕ) (amount : ℤ) (description : String) (db : Db)
    (receipt : HoldReceipt) (db' : Db)
    → hold_funds env tenant account_id amount description db ≡ (ok receipt, db')
    → Held env tenant account_id amount description db receipt db'
unfolding hold_funds
hold_funds-Held env none account_id amount description db receipt db' h = ground arith
hold_funds-Held env (some tenant_id) account_id amount description db receipt db' h =
    elim (Bool-cases (leb_ℤ amount (pos 0))) [
      | inl e ↦ ground arith
      | inr e ↦
          let (a, found, own, covered, written) =
            hold_body-ok env tenant_id account_id amount description db receipt db'
              (settle-ok _ _ _ _ _ _ (rw e at h)) in
          record {
            tenant_id = tenant_id;
            account = a;
            is_tenant = refl;
            positive = ground arith;
            found = found;
            own = own;
            covered = covered;
            written = written;
          }
    ]

-- The guards of `releaseHold`: a hold of the tenant under this id, which covers the amount, as does
-- the held balance of its account.
pub record Released (env : Env) (tenant : Option ℕ) (hold_id : ℕ) (amount : ℤ)
    (description : String) (db : Db) (receipt : ReleaseReceipt) (db' : Db) : Type 0 where
  pub tenant_id : ℕ
  pub hold_entry : LedgerEntry
  pub account : Account
  pub is_tenant : tenant ≡ some tenant_id
  pub positive : pos 0 <ℤ amount
  pub has_hold : find_hold tenant_id hold_id db.ledger ≡ some hold_entry
  pub found : lookup hold_entry.account_id db.accounts ≡ some account
  pub within_hold : amount ≤ℤ held_amount hold_entry
  pub covered : amount ≤ℤ account.hold_balance
  pub written :
      write_release env tenant_id hold_id hold_entry.account_id amount description db
      ≡ ok (receipt, db')

release_body-ok :
    (env : Env) (tenant_id hold_id : ℕ) (amount : ℤ) (description : String) (db : Db)
    (receipt : ReleaseReceipt) (db' : Db)
    → release_body env tenant_id hold_id amount description db ≡ ok (receipt, db')
    → (e : LedgerEntry) × (a : Account) × (find_hold tenant_id hold_id db.ledger ≡ some e)
      × (lookup e.account_id db.accounts ≡ some a)
      × (amount ≤ℤ held_amount e)
      × (amount ≤ℤ a.hold_balance)
      × (write_release env tenant_id hold_id e.account_id amount description db ≡ ok (receipt, db'))
unfolding release_body check_release
release_body-ok env tenant_id hold_id amount description db receipt db' h =
    elim (Option-cases (find_hold tenant_id hold_id db.ledger)) [
      | inl e ↦ ground arith
      | inr (e, p) ↦ elim (Option-cases (lookup e.account_id db.accounts)) [
        | inl q ↦ ground arith
        | inr (a, q) ↦ (e, a, p, q, ground arith, ground arith, ground arith)
      ]
    ]

pub release_hold-Released :
    (env : Env) (tenant : Option ℕ) (hold_id : ℕ) (amount : ℤ) (description : String) (db : Db)
    (receipt : ReleaseReceipt) (db' : Db)
    → release_hold env tenant hold_id amount description db ≡ (ok receipt, db')
    → Released env tenant hold_id amount description db receipt db'
unfolding release_hold
release_hold-Released env none hold_id amount description db receipt db' h = ground arith
release_hold-Released env (some tenant_id) hold_id amount description db receipt db' h =
    elim (Bool-cases (leb_ℤ amount (pos 0))) [
      | inl e ↦ ground arith
      | inr e ↦
          let (entry', a, has, found, within, covered, written) =
            release_body-ok env tenant_id hold_id amount description db receipt db'
              (settle-ok _ _ _ _ _ _ (rw e at h)) in
          record {
            tenant_id = tenant_id;
            hold_entry = entry';
            account = a;
            is_tenant = refl;
            positive = ground arith;
            has_hold = has;
            found = found;
            within_hold = within;
            covered = covered;
            written = written;
          }
    ]

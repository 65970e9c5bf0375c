-- ===== src/Transfer/HoldFailed.antt =====
-- Calls of `holdFunds`, `captureHold` and `releaseHold` (src/transfer/transfer.service.ts) that throw.
use hwala.Base.{ℕ, ◌≡◌, String, Option, none, some, arith, Bool-cases, inl, inr}
use hwala.Base.Int.{ℤ, pos, leb_ℤ}
use hwala.Base.Result.{err, Error}
use hwala.Db.{Db}
use hwala.Transfer.Execute.{Env}
use hwala.Transfer.Hold.{hold_funds, release_hold}
use hwala.Transfer.Capture.{capture_hold}
use hwala.Transfer.Runs.{settle-err}

-- A hold that throws, for whatever reason, leaves the database as it was.
pub hold_funds_atomic :
    (env : Env) (tenant : Option ℕ) (account_id : ℕ) (amount : ℤ) (description : String) (db : Db)
    (e : Error) (db' : Db)
    → hold_funds env tenant account_id amount description db ≡ (err e, db')
    → db' ≡ db
unfolding hold_funds
hold_funds_atomic env none account_id amount description db e db' h = ground arith
hold_funds_atomic env (some tenant_id) account_id amount description db e db' h =
    elim (Bool-cases (leb_ℤ amount (pos 0))) [
      | inl p ↦ ground arith
      | inr p ↦ settle-err _ _ _ _ e _ (rw p at h)
    ]

-- A release that throws, for whatever reason, leaves the database as it was.
pub release_hold_atomic :
    (env : Env) (tenant : Option ℕ) (hold_id : ℕ) (amount : ℤ) (description : String) (db : Db)
    (e : Error) (db' : Db)
    → release_hold env tenant hold_id amount description db ≡ (err e, db')
    → db' ≡ db
unfolding release_hold
release_hold_atomic env none hold_id amount description db e db' h = ground arith
release_hold_atomic env (some tenant_id) hold_id amount description db e db' h =
    elim (Bool-cases (leb_ℤ amount (pos 0))) [
      | inl p ↦ ground arith
      | inr p ↦ settle-err _ _ _ _ e _ (rw p at h)
    ]

-- A capture that throws, for whatever reason, leaves the database as it was.
pub capture_hold_atomic :
    (env : Env) (tenant : Option ℕ) (hold_id receiver_id : ℕ) (amount : ℤ) (description : String)
    (db : Db) (e : Error) (db' : Db)
    → capture_hold env tenant hold_id receiver_id amount description db ≡ (err e, db')
    → db' ≡ db
unfolding capture_hold
capture_hold_atomic env none hold_id receiver_id amount description db e db' h = ground arith
capture_hold_atomic env (some tenant_id) hold_id receiver_id amount description db e db' h =
    elim (Bool-cases (leb_ℤ amount (pos 0))) [
      | inl p ↦ ground arith
      | inr p ↦ settle-err _ _ _ _ e _ (rw p at h)
    ]

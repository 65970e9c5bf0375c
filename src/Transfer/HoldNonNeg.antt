-- ===== src/Transfer/HoldNonNeg.antt =====
-- The escrow operations of src/transfer/transfer.service.ts and overdrafts.
use mathlib.Core.Path.{subst}
use mathlib.Core.Option.{some-injective}
use hwala.Base.{ℕ, ◌≡◌, refl, sym, ap, ◌∙◌, String, Option, some, arith}
use hwala.Base.Int.{ℤ, pos, ◌+ℤ◌, ◌-ℤ◌, ◌≤ℤ◌, ◌<ℤ◌, int_laws}
use hwala.Base.Result.{Result, ok, err}
use hwala.Db.{Db, LedgerEntry}
use hwala.Db.Measure.{balance_of, hold_of, at, balance_of-some}
use hwala.Transfer.Execute.{Env}
use hwala.Transfer.Hold.{
  HoldReceipt, ReleaseReceipt, hold_funds, release_hold, held_amount, find_hold,
}
use hwala.Transfer.Capture.{CaptureReceipt, capture_hold}
use hwala.Transfer.HoldRuns.{hold_funds-Held}
use hwala.Transfer.HoldFailed.{hold_funds_atomic, release_hold_atomic, capture_hold_atomic}
use hwala.Transfer.HoldLaws.{hold_funds-effect, release_hold-effect}
use hwala.Transfer.CaptureLaws.{capture_hold-effect}
use hwala.Transfer.Balances.{NonNeg}

-- Moving a covered amount from one side of an account to the other keeps both sides from going
-- below zero.
at_self : (k : ℕ) (x : ℤ) → at k k x ≡ x
unfolding at
at_self k x = ground arith

shift_nonneg :
    (k id : ℕ) (amount : ℤ) (from to : ℕ → ℤ)
    → pos 0 ≤ℤ amount
    → amount ≤ℤ from id
    → pos 0 ≤ℤ from k
    → pos 0 ≤ℤ to k
    → (pos 0 ≤ℤ from k -ℤ at k id amount) × (pos 0 ≤ℤ to k +ℤ at k id amount)
unfolding at
shift_nonneg k id amount from to p c f t = (grind int_laws, grind int_laws)

after_hold :
    (env : Env) (tenant : Option ℕ) (id : ℕ) (amount : ℤ) (description : String) (db : Db)
    → NonNeg db
    → (res : Result HoldReceipt × Db) → hold_funds env tenant id amount description db ≡ res
    → NonNeg res.1
after_hold env tenant id amount description db valid (ok receipt, db') h k =
    let x = hold_funds-Held env tenant id amount description db receipt db' h in
    let (b, hd, _) = hold_funds-effect env tenant id amount description db receipt db' k h in
    rw (b, hd)
      (shift_nonneg k id amount (λ i. balance_of i db) (λ i. hold_of i db)
        (omega (int_laws, x.positive)) (rw (balance_of-some id x.account db x.found) x.covered)
        (valid k).0 (valid k).1)
after_hold env tenant id amount description db valid (err e, db') h k =
    rw (hold_funds_atomic env tenant id amount description db e db' h) (valid k)

-- Placing a hold overdraws no account.
pub hold_funds-NonNeg :
    (env : Env) (tenant : Option ℕ) (id : ℕ) (amount : ℤ) (description : String) (db : Db)
    → NonNeg db
    → NonNeg (hold_funds env tenant id amount description db).1
hold_funds-NonNeg env tenant id amount description db valid =
    after_hold env tenant id amount description db valid _ refl

after_release :
    (env : Env) (tenant : Option ℕ) (hold_id : ℕ) (amount : ℤ) (description : String) (db : Db)
    → NonNeg db
    → (res : Result ReleaseReceipt × Db)
    → release_hold env tenant hold_id amount description db ≡ res
    → NonNeg res.1
after_release env tenant hold_id amount description db valid (ok receipt, db') h k =
    let (e, _, _, _, _, covered, positive, moves) =
      release_hold-effect env tenant hold_id amount description db receipt db' h in
    let (hd, b) =
      shift_nonneg k e.account_id amount (λ i. hold_of i db) (λ i. balance_of i db)
        (omega (int_laws, positive)) covered (valid k).1 (valid k).0 in
    (rw ((moves k).0) b, rw ((moves k).1) hd)
after_release env tenant hold_id amount description db valid (err e, db') h k =
    rw (release_hold_atomic env tenant hold_id amount description db e db' h) (valid k)

-- Releasing a hold, in full or in part, overdraws no account.
pub release_hold-NonNeg :
    (env : Env) (tenant : Option ℕ) (hold_id : ℕ) (amount : ℤ) (description : String) (db : Db)
    → NonNeg db
    → NonNeg (release_hold env tenant hold_id amount description db).1
release_hold-NonNeg env tenant hold_id amount description db valid =
    after_release env tenant hold_id amount description db valid _ refl

-- The held balance of the hold's account covers the whole hold.
abbrev pub IsBacked : Option ℕ → ℕ → Db → Type 0
IsBacked tenant hold_id db =
    (tenant_id : ℕ) (e : LedgerEntry)
    → tenant ≡ some tenant_id
    → find_hold tenant_id hold_id db.ledger ≡ some e
    → held_amount e ≤ℤ hold_of e.account_id db

capture_balance :
    (k s r : ℕ) (amount held : ℤ) (balance held_balance : ℕ → ℤ)
    → pos 0 <ℤ amount
    → amount ≤ℤ held
    → held ≤ℤ held_balance s
    → pos 0 ≤ℤ balance k
    → pos 0 ≤ℤ held_balance k
    → (pos 0 ≤ℤ balance k +ℤ at k r amount +ℤ at k s (held -ℤ amount))
      × (pos 0 ≤ℤ held_balance k -ℤ at k s held)
unfolding at
capture_balance k s r amount held balance held_balance p w c b d = (grind int_laws, grind int_laws)

after_capture :
    (env : Env) (tenant : Option ℕ) (hold_id r : ℕ) (amount : ℤ) (description : String) (db : Db)
    → IsBacked tenant hold_id db
    → NonNeg db
    → (res : Result CaptureReceipt × Db)
    → capture_hold env tenant hold_id r amount description db ≡ res
    → NonNeg res.1
after_capture env tenant hold_id r amount description db backed valid (ok receipt, db') h k =
    let (e, tenant_id, is_tenant, has, within, _, positive, moves) =
      capture_hold-effect env tenant hold_id r amount description db receipt db' h in
    rw ((moves k).0, (moves k).1)
      (capture_balance k e.account_id r amount (held_amount e) (λ i. balance_of i db)
        (λ i. hold_of i db) positive within (backed tenant_id e is_tenant has) (valid k).0
        (valid k).1)
after_capture env tenant hold_id r amount description db backed valid (err e, db') h k =
    rw (capture_hold_atomic env tenant hold_id r amount description db e db' h) (valid k)

-- Capturing a hold that its account's held balance covers in full overdraws no account.
pub capture_hold-NonNeg :
    (env : Env) (tenant : Option ℕ) (hold_id r : ℕ) (amount : ℤ) (description : String) (db : Db)
    → IsBacked tenant hold_id db
    → NonNeg db
    → NonNeg (capture_hold env tenant hold_id r amount description db).1
capture_hold-NonNeg env tenant hold_id r amount description db backed valid =
    after_capture env tenant hold_id r amount description db backed valid _ refl

-- The guard of `captureHold` compares the held balance with the captured amount alone. Where the held
-- balance does not cover the whole hold, every capture that goes through leaves it below zero.
pub capture_hold-overdraws :
    (env : Env) (tenant_id hold_id r : ℕ) (amount : ℤ) (description : String) (db : Db)
    (receipt : CaptureReceipt) (db' : Db) (e : LedgerEntry)
    → capture_hold env (some tenant_id) hold_id r amount description db ≡ (ok receipt, db')
    → find_hold tenant_id hold_id db.ledger ≡ some e
    → hold_of e.account_id db <ℤ held_amount e
    → hold_of e.account_id db' <ℤ pos 0
capture_hold-overdraws env tenant_id hold_id r amount description db receipt db' e h has short =
    let (e', tenant', is_tenant, has', _, _, _, moves) =
      capture_hold-effect env (some tenant_id) hold_id r amount description db receipt db' h in
    let same : e' ≡ e = some-injective _ _ (
      sym has'
      ∙ ap (λ t. find_hold t hold_id db.ledger) (sym (some-injective _ _ is_tenant))
      ∙ has) in
    let taken : hold_of e.account_id db'
        ≡ hold_of e.account_id db -ℤ at e.account_id e.account_id (held_amount e) =
      subst
        (λ (x : LedgerEntry).
          hold_of e.account_id db'
          ≡ hold_of e.account_id db -ℤ at e.account_id x.account_id (held_amount x))
        same ((moves e.account_id).1) in
    rw (taken, at_self) (omega (int_laws, short))

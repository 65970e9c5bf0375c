-- ===== src/Transfer/CaptureRuns.antt =====
-- What `captureHold` (src/transfer/transfer.service.ts) has checked and run when it returns.
use hwala.Base.{
  ℕ, ◌≡◌, refl, ◌≢◌, String, Option, none, some, arith, Bool-cases, Option-cases, inl, inr,
}
use hwala.Base.Int.{ℤ, pos, ◌-ℤ◌, ◌≤ℤ◌, ◌<ℤ◌, leb_ℤ}
use hwala.Base.Result.{ok}
use hwala.Base.Table.{lookup}
use hwala.Db.{Db, Account, LedgerEntry}
use hwala.Transfer.Execute.{Env}
use hwala.Transfer.Hold.{find_hold, held_amount}
use hwala.Transfer.Capture.{
  CaptureReceipt, check_capture_sender, check_capture_receiver, write_capture, capture_body,
  capture_hold,
}
use hwala.Transfer.Runs.{settle-ok}

-- The guards of `captureHold`: a hold of the tenant under this id, on another account, which covers
-- the amount, as does the held balance of its account; and a receiver of the tenant.
pub record Captured (env : Env) (tenant : Option ℕ) (hold_id receiver_id : ℕ) (amount : ℤ)
    (description : String) (db : Db) (receipt : CaptureReceipt) (db' : Db) : Type 0 where
  pub tenant_id : ℕ
  pub hold_entry : LedgerEntry
  pub sender : Account
  pub receiver : Account
  pub is_tenant : tenant ≡ some tenant_id
  pub positive : pos 0 <ℤ amount
  pub has_hold : find_hold tenant_id hold_id db.ledger ≡ some hold_entry
  pub distinct_accounts : hold_entry.account_id ≢ receiver_id
  pub found_sender : lookup hold_entry.account_id db.accounts ≡ some sender
  pub within_hold : amount ≤ℤ held_amount hold_entry
  pub covered : amount ≤ℤ sender.hold_balance
  pub found_receiver : lookup receiver_id db.accounts ≡ some receiver
  pub receiver_tenant : receiver.tenant_id ≡ tenant_id
  pub written :
      write_capture env tenant_id hold_id hold_entry.account_id receiver_id amount
        (held_amount hold_entry -ℤ amount)
        description
        db
      ≡ ok (receipt, db')

capture_body-Captured :
    (env : Env) (tenant_id hold_id receiver_id : ℕ) (amount : ℤ) (description : String) (db : Db)
    (receipt : CaptureReceipt) (db' : Db)
    → pos 0 <ℤ amount
    → capture_body env tenant_id hold_id receiver_id amount description db ≡ ok (receipt, db')
    → Captured env (some tenant_id) hold_id receiver_id amount description db receipt db'
unfolding capture_body check_capture_sender check_capture_receiver
capture_body-Captured env tenant_id hold_id receiver_id amount description db receipt db' positive
      h =
    elim (Option-cases (find_hold tenant_id hold_id db.ledger)) [
      | inl p ↦ ground arith
      | inr (e, p) ↦ elim (Option-cases (lookup e.account_id db.accounts)) [
        | inl q ↦ ground arith
        | inr (a, q) ↦ elim (Option-cases (lookup receiver_id db.accounts)) [
          | inl r ↦ ground arith
          | inr (b, r) ↦ record {
            tenant_id = tenant_id;
            hold_entry = e;
            sender = a;
            receiver = b;
            is_tenant = refl;
            positive = positive;
            has_hold = p;
            distinct_accounts = ground arith;
            found_sender = q;
            within_hold = ground arith;
            covered = ground arith;
            found_receiver = r;
            receiver_tenant = ground arith;
            written = ground arith;
          }
        ]
      ]
    ]

pub capture_hold-Captured :
    (env : Env) (tenant : Option ℕ) (hold_id receiver_id : ℕ) (amount : ℤ) (description : String)
    (db : Db) (receipt : CaptureReceipt) (db' : Db)
    → capture_hold env tenant hold_id receiver_id amount description db ≡ (ok receipt, db')
    → Captured env tenant hold_id receiver_id amount description db receipt db'
unfolding capture_hold
capture_hold-Captured env none hold_id receiver_id amount description db receipt db' h =
    ground arith
capture_hold-Captured env (some tenant_id) hold_id receiver_id amount description db receipt db' h =
    elim (Bool-cases (leb_ℤ amount (pos 0))) [
      | inl e ↦ ground arith
      | inr e ↦
          capture_body-Captured env tenant_id hold_id receiver_id amount description db receipt db'
            (ground arith) (settle-ok _ _ _ _ _ _ (rw e at h))
    ]

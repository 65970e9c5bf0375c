-- ===== src/Bank/Holds.antt =====
-- `holdFunds`, `releaseHold` and `captureHold` of src/transfer/transfer.service.ts act for their tenant alone: in a
-- sound ledger the account of a tenant's hold is the tenant's.
use hwala.Base.{
  ℕ, ◌≡◌, refl, ◌∙◌, ap, String, some, List, [], ◌∷◌, ◌==◌, ◌&&◌, arith, All, Bool-cases, inl, inr,
}
use hwala.Base.Int.{ℤ, pos, ◌-ℤ◌, neg, ltb_ℤ}
use hwala.Base.Result.{Result, ok, err}
use hwala.Db.{Db, LedgerEntry, LedgerEntryType, is_hold}
use hwala.Db.Tx.{◌>>◌, account_update, ledger_create}
use hwala.Db.Tx.Runs.{continue-ok}
use hwala.Transfer.Execute.{Env, entry}
use hwala.Transfer.Hold.{
  HoldReceipt, ReleaseReceipt, find_hold, held_amount, write_hold, write_release, hold_funds,
  release_hold,
}
use hwala.Transfer.Capture.{CaptureReceipt, release_remainder, write_capture, capture_hold}
use hwala.Transfer.HoldRuns.{hold_funds-Held, release_hold-Released}
use hwala.Transfer.CaptureRuns.{capture_hold-Captured}
use hwala.Transfer.HoldFailed.{hold_funds_atomic, release_hold_atomic, capture_hold_atomic}
use hwala.Bank.View.{owner, IsSound}
use hwala.Bank.Tenant.{By, By-refl, By-trans, account_update-By, ledger_create-By, outbox_create-By}
use hwala.Bank.Transfers.{owner-some}

find_hold-owned :
    (t hold_id : ℕ) (e : LedgerEntry) (db : Db) (es : List LedgerEntry)
    → All (λ (x : LedgerEntry). owner x.account_id db ≡ some x.tenant_id) es
    → find_hold t hold_id es ≡ some e
    → owner e.account_id db ≡ some t
unfolding find_hold
find_hold-owned t hold_id e db [] p h = cc
find_hold-owned t hold_id e db (x ∷ es) p h =
    elim (Bool-cases (x.transaction_id == hold_id && (x.tenant_id == t && is_hold x.type))) [
      | inl q ↦
          let same : x ≡ e = ground arith in
          let own : x.tenant_id ≡ t = ground arith in rw (← same) (p.0 ∙ ap some own)
      | inr q ↦ find_hold-owned t hold_id e db es p.1 (rw q at h)
    ]

module _ (env : Env) (t : ℕ) where
  write_hold-By :
      (id : ℕ) (amount : ℤ) (description : String) (db : Db) (receipt : HoldReceipt) (db' : Db)
      → owner id db ≡ some t
      → write_hold env t id amount description db ≡ ok (receipt, db')
      → By t db db'
  unfolding write_hold
  write_hold-By id amount description db receipt db' o h =
      let (u1, m1, p, h1) = continue-ok _ _ _ _ h in
      let (u2, m2, q, h2) = continue-ok _ _ _ _ h1 in
      let (u3, m3, w, h3) = continue-ok _ _ _ _ h2 in
      let same : db' ≡ m3 = ground arith in
      let b1 = account_update-By t id (neg amount) amount db u1 m1 o p in
      let b2 = ledger_create-By t _ m1 u2 m2 ((refl, b1.owners id t o), tt) q in
      let b3 = outbox_create-By t env.outbox_id _ m2 u3 m3 refl w in
      rw same (By-trans t db m2 m3 (By-trans t db m1 m2 b1 b2) b3)

  write_release-By :
      (hold_id id : ℕ) (amount : ℤ) (description : String) (db : Db) (receipt : ReleaseReceipt)
      (db' : Db)
      → owner id db ≡ some t
      → write_release env t hold_id id amount description db ≡ ok (receipt, db')
      → By t db db'
  unfolding write_release
  write_release-By hold_id id amount description db receipt db' o h =
      let (u1, m1, p, h1) = continue-ok _ _ _ _ h in
      let (u2, m2, q, h2) = continue-ok _ _ _ _ h1 in
      let (u3, m3, w, h3) = continue-ok _ _ _ _ h2 in
      let same : db' ≡ m3 = ground arith in
      let b1 = account_update-By t id amount (neg amount) db u1 m1 o p in
      let b2 = ledger_create-By t _ m1 u2 m2 ((refl, b1.owners id t o), tt) q in
      let b3 = outbox_create-By t env.outbox_id _ m2 u3 m3 refl w in
      rw same (By-trans t db m2 m3 (By-trans t db m1 m2 b1 b2) b3)

  remainder_released :
      (id : ℕ) (remainder : ℤ) (db : Db) (u : Unit {0}) (db' : Db)
      → owner id db ≡ some t
      → (account_update id remainder (neg remainder)
            >> ledger_create (
                entry env t id remainder (pos 0) LedgerEntryType.release "Partial hold release"
                ∷ []))
          db
        ≡ ok (u, db')
      → By t db db'
  remainder_released id remainder db u db' o h =
      let (u1, m1, p, h1) = continue-ok _ _ _ _ h in
      let b1 = account_update-By t id remainder (neg remainder) db u1 m1 o p in
      By-trans t db m1 db' b1 (ledger_create-By t _ m1 u db' ((refl, b1.owners id t o), tt) h1)

  release_remainder-By :
      (id : ℕ) (remainder : ℤ) (db : Db) (u : Unit {0}) (db' : Db)
      → owner id db ≡ some t
      → release_remainder env t id remainder db ≡ ok (u, db')
      → By t db db'
  unfolding release_remainder
  release_remainder-By id remainder db u db' o h = elim (Bool-cases (ltb_ℤ (pos 0) remainder)) [
    | inl e ↦ remainder_released id remainder db u db' o (rw e at h)
    | inr e ↦ let same : db' ≡ db = ground arith in rw same (By-refl t db)
  ]

  write_capture-By :
      (hold_id s r : ℕ) (amount remainder : ℤ) (description : String) (db : Db)
      (receipt : CaptureReceipt) (db' : Db)
      → owner s db ≡ some t
      → owner r db ≡ some t
      → write_capture env t hold_id s r amount remainder description db ≡ ok (receipt, db')
      → By t db db'
  unfolding write_capture
  write_capture-By hold_id s r amount remainder description db receipt db' os or' h =
      let (u1, m1, p1, h1) = continue-ok _ _ _ _ h in
      let (u2, m2, p2, h2) = continue-ok _ _ _ _ h1 in
      let (u3, m3, p3, h3) = continue-ok _ _ _ _ h2 in
      let (u4, m4, p4, h4) = continue-ok _ _ _ _ h3 in
      let (u5, m5, p5, h5) = continue-ok _ _ _ _ h4 in
      let same : db' ≡ m5 = ground arith in
      let b1 = account_update-By t s (pos 0) (neg amount) db u1 m1 os p1 in
      let b2 =
        By-trans t db m1 m2 b1
          (account_update-By t r amount (pos 0) m1 u2 m2 (b1.owners r t or') p2) in
      let b3 =
        By-trans t db m2 m3 b2 (release_remainder-By s remainder m2 u3 m3 (b2.owners s t os) p3) in
      let b4 = By-trans t db m3 m4 b3 (
        ledger_create-By t _ m3 u4 m4 ((refl, b3.owners s t os), ((refl, b3.owners r t or'), tt))
          p4) in
      rw same (By-trans t db m4 m5 b4 (outbox_create-By t env.outbox_id _ m4 u5 m5 refl p5))

  held :
      (id : ℕ) (amount : ℤ) (description : String) (db : Db) (res : Result HoldReceipt × Db)
      → hold_funds env (some t) id amount description db ≡ res
      → By t db res.1
  held id amount description db (ok receipt, db') h =
      let x = hold_funds-Held env (some t) id amount description db receipt db' h in
      let e : x.tenant_id ≡ t = ground arith in
      write_hold-By id amount description db receipt db'
        (owner-some id t x.account db x.found (x.own ∙ e)) (rw e at (x.written))
  held id amount description db (err e, db') h =
      rw (hold_funds_atomic env (some t) id amount description db e db' h) (By-refl t db)

  released :
      (hold_id : ℕ) (amount : ℤ) (description : String) (db : Db) (res : Result ReleaseReceipt × Db)
      → IsSound db
      → release_hold env (some t) hold_id amount description db ≡ res
      → By t db res.1
  released hold_id amount description db (ok receipt, db') sound h =
      let x = release_hold-Released env (some t) hold_id amount description db receipt db' h in
      let e : x.tenant_id ≡ t = ground arith in
      write_release-By hold_id x.hold_entry.account_id amount description db receipt db'
        (find_hold-owned t hold_id x.hold_entry db db.ledger sound.owned (rw e at (x.has_hold)))
        (rw e at (x.written))
  released hold_id amount description db (err e, db') sound h =
      rw (release_hold_atomic env (some t) hold_id amount description db e db' h) (By-refl t db)

  captured :
      (hold_id r : ℕ) (amount : ℤ) (description : String) (db : Db)
      (res : Result CaptureReceipt × Db)
      → IsSound db
      → capture_hold env (some t) hold_id r amount description db ≡ res
      → By t db res.1
  captured hold_id r amount description db (ok receipt, db') sound h =
      let x = capture_hold-Captured env (some t) hold_id r amount description db receipt db' h in
      let e : x.tenant_id ≡ t = ground arith in
      write_capture-By hold_id x.hold_entry.account_id r amount (held_amount x.hold_entry -ℤ amount)
        description db receipt db'
        (find_hold-owned t hold_id x.hold_entry db db.ledger sound.owned (rw e at (x.has_hold)))
        (owner-some r t x.receiver db x.found_receiver (x.receiver_tenant ∙ e))
        (rw e at (x.written))
  captured hold_id r amount description db (err e, db') sound h =
      rw (capture_hold_atomic env (some t) hold_id r amount description db e db' h) (By-refl t db)

  pub hold_funds-By :
      (id : ℕ) (amount : ℤ) (description : String) (db : Db)
      → By t db (hold_funds env (some t) id amount description db).1
  hold_funds-By id amount description db = held id amount description db _ refl

  pub release_hold-By :
      (hold_id : ℕ) (amount : ℤ) (description : String) (db : Db)
      → IsSound db
      → By t db (release_hold env (some t) hold_id amount description db).1
  release_hold-By hold_id amount description db sound =
      released hold_id amount description db _ sound refl

  pub capture_hold-By :
      (hold_id r : ℕ) (amount : ℤ) (description : String) (db : Db)
      → IsSound db
      → By t db (capture_hold env (some t) hold_id r amount description db).1
  capture_hold-By hold_id r amount description db sound =
      captured hold_id r amount description db _ sound refl

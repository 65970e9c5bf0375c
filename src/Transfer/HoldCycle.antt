-- ===== src/Transfer/HoldCycle.antt =====
-- A hold from its placement to its end: `holdFunds`, then `releaseHold` or `captureHold`
-- (src/transfer/transfer.service.ts).
use hwala.Base.{
  ℕ, ◌≡◌, sym, ap, ◌∙◌, String, Bool, true, Option, none, some, List, [], ◌∷◌, ◌++◌, find, arith,
}
use hwala.Base.Int.{ℤ, pos, neg, abs, ◌+ℤ◌, ◌-ℤ◌, ◌<ℤ◌, int_laws}
use hwala.Base.Result.{ok}
use hwala.Db.{Db, LedgerEntry, LedgerEntryType}
use hwala.Db.Tx.Runs.{continue-ok, account_update-ok, ledger_create-ok, outbox_create-ok}
use hwala.Db.Measure.{balance_of, hold_of, drift, at, at_laws}
use hwala.Transfer.Execute.{Env, or_text, entry}
use hwala.Transfer.Hold.{
  HoldReceipt, ReleaseReceipt, find_hold, held_amount, hold_funds, write_hold, release_hold,
}
use hwala.Transfer.Capture.{CaptureReceipt, capture_hold}
use hwala.Transfer.HoldRuns.{hold_funds-Held}
use hwala.Transfer.HoldLaws.{hold_funds-effect, release_hold-effect}
use hwala.Transfer.CaptureLaws.{capture_hold-effect}

-- The first match of a list that is extended.
find-append :
    {A : Type 0} (q : A → Bool) (xs : List A) (y : A)
    → find q xs ≡ none
    → q y ≡ true
    → find q (xs ++ y ∷ []) ≡ some y
find-append q [] y h p = ground arith
find-append q (x ∷ xs) y h p = ground (arith, find-append q xs y)

abbrev ledger_of : Db → List LedgerEntry
ledger_of d = d.ledger

same_some : {A : Type 0} (o : Option A) (a b : A) → o ≡ some a → o ≡ some b → a ≡ b
same_some o a b p q = ground arith

abs-neg : (a : ℤ) → pos 0 <ℤ a → pos (abs (neg a)) ≡ a
unfolding neg
abs-neg a h = ground arith

module _ (env : Env) (tenant_id account_id : ℕ) (amount : ℤ) (description : String) where
  abbrev hold_entry : LedgerEntry
  hold_entry =
      entry env tenant_id account_id (neg amount) (pos 0) LedgerEntryType.hold
        (or_text description "Funds held")

  write_hold-ledger :
      (db : Db) (receipt : HoldReceipt) (db' : Db)
      → write_hold env tenant_id account_id amount description db ≡ ok (receipt, db')
      → (db'.ledger ≡ db.ledger ++ hold_entry ∷ []) × (receipt.hold_id ≡ env.transaction_id)
  unfolding write_hold
  write_hold-ledger db receipt db' h =
      let (u1, m1, p, h1) = continue-ok _ _ _ _ h in
      let (u2, m2, q, h2) = continue-ok _ _ _ _ h1 in
      let (u3, m3, w, h3) = continue-ok _ _ _ _ h2 in
      let same : db' ≡ m3 = ground arith in
      let (a, _, e1) = account_update-ok account_id (neg amount) amount db u1 m1 p in
      let e2 = ledger_create-ok (hold_entry ∷ []) m1 u2 m2 q in
      let (_, e3) = outbox_create-ok env.outbox_id _ m2 u3 m3 w in
      (
        ap ledger_of (same ∙ e3) ∙ ap ledger_of e2 ∙ ap (λ d. ledger_of d ++ hold_entry ∷ []) e1,
        ground arith,
      )

  -- The hold is found under the id of its receipt.
  write_hold-found :
      (db : Db) (receipt : HoldReceipt) (db' : Db)
      → write_hold env tenant_id account_id amount description db ≡ ok (receipt, db')
      → find_hold tenant_id env.transaction_id db.ledger ≡ none
      → find_hold tenant_id receipt.hold_id db'.ledger ≡ some hold_entry
  unfolding find_hold
  write_hold-found db receipt db' h fresh =
      let (l, i) = write_hold-ledger db receipt db' h in
      rw l (rw i (find-append _ db.ledger hold_entry fresh (ground arith)))

-- The next call for the hold finds the entry that the hold has written.
hold_funds-found :
    (env : Env) (tenant : Option ℕ) (account_id : ℕ) (amount : ℤ) (description : String)
    (db db1 : Db) (receipt : HoldReceipt) (t : ℕ) (e : LedgerEntry)
    → ((tenant_id : ℕ) → find_hold tenant_id env.transaction_id db.ledger ≡ none)
    → hold_funds env tenant account_id amount description db ≡ (ok receipt, db1)
    → tenant ≡ some t
    → find_hold t receipt.hold_id db1.ledger ≡ some e
    → (e.account_id ≡ account_id) × (held_amount e ≡ amount)
hold_funds-found env tenant account_id amount description db db1 receipt t e fresh h is_t found =
    let x = hold_funds-Held env tenant account_id amount description db receipt db1 h in
    let mine =
      write_hold-found env x.tenant_id account_id amount description db receipt db1 x.written
        (fresh x.tenant_id) in
    let same_tenant : x.tenant_id ≡ t = same_some tenant x.tenant_id t x.is_tenant is_t in
    let same : hold_entry env x.tenant_id account_id amount description ≡ e =
      same_some _ _ e (ap (λ i. find_hold i receipt.hold_id db1.ledger) (sym same_tenant) ∙ mine)
        found in
    (
      ap (λ (y : LedgerEntry). y.account_id) (sym same),
      ap held_amount (sym same) ∙ abs-neg amount x.positive,
    )

-- A hold of a whole number of cents that is released in full, next, leaves no trace but entries: the available and the held balance of every
-- account, and how far its books are off, are as before the hold, when no earlier hold has its id.
pub hold_funds-release_hold :
    (env env' : Env) (tenant : Option ℕ) (account_id : ℕ) (amount : ℤ) (description reason : String)
    (db db1 db2 : Db) (receipt : HoldReceipt) (receipt' : ReleaseReceipt) (k : ℕ)
    → ((tenant_id : ℕ) → find_hold tenant_id env.transaction_id db.ledger ≡ none)
    → hold_funds env tenant account_id amount description db ≡ (ok receipt, db1)
    → release_hold env' tenant receipt.hold_id amount reason db1 ≡ (ok receipt', db2)
    → (balance_of k db2 ≡ balance_of k db)
      × (hold_of k db2 ≡ hold_of k db)
      × (drift k db2 ≡ drift k db)
hold_funds-release_hold env env' tenant account_id amount description reason db db1 db2 receipt
      receipt' k fresh h g =
    let (b, l, d) = hold_funds-effect env tenant account_id amount description db receipt db1 k h in
    let (e, t, is_t, found, _, _, _, after) =
      release_hold-effect env' tenant receipt.hold_id amount reason db1 receipt' db2 g in
    let (place, _) =
      hold_funds-found env tenant account_id amount description db db1 receipt t e fresh h is_t
        found in
    let (b', l', d') = after k in
    (
      rw place at b' ∙ rw b (omega int_laws),
      rw place at l' ∙ rw l (omega int_laws),
      rw place at d' ∙ rw d (omega int_laws),
    )

-- When all amounts are whole numbers of cents: a hold that is captured next, in full or in part, moves the captured amount from the available balance of its account
-- to that of the receiver, and nothing stays held; but the ledger is charged twice: the books of the account
-- are off by the captured amount afterwards, when no earlier hold has its id.
pub hold_funds-capture_hold :
    (env env' : Env) (tenant : Option ℕ) (account_id receiver_id : ℕ) (amount captured : ℤ)
    (description reason : String) (db db1 db2 : Db) (receipt : HoldReceipt)
    (receipt' : CaptureReceipt) (k : ℕ)
    → ((tenant_id : ℕ) → find_hold tenant_id env.transaction_id db.ledger ≡ none)
    → hold_funds env tenant account_id amount description db ≡ (ok receipt, db1)
    → capture_hold env' tenant receipt.hold_id receiver_id captured reason db1 ≡ (ok receipt', db2)
    → (balance_of k db2 ≡ balance_of k db +ℤ at k receiver_id captured -ℤ at k account_id captured)
      × (hold_of k db2 ≡ hold_of k db)
      × (drift k db2 ≡ drift k db +ℤ at k account_id captured)
hold_funds-capture_hold env env' tenant account_id receiver_id amount captured description reason db
      db1 db2 receipt receipt' k fresh h g =
    let (b, l, d) = hold_funds-effect env tenant account_id amount description db receipt db1 k h in
    let (e, t, is_t, found, _, _, _, after) =
      capture_hold-effect env' tenant receipt.hold_id receiver_id captured reason db1 receipt' db2
        g in
    let (place, size) =
      hold_funds-found env tenant account_id amount description db db1 receipt t e fresh h is_t
        found in
    let (b', l', d') = after k in
    (
      (rw place at rw size at b') ∙ rw b (simp at_laws (omega int_laws)),
      (rw place at rw size at l') ∙ rw l (omega int_laws),
      (rw place at rw size at d') ∙ rw d (simp at_laws (omega int_laws)),
    )

-- ===== src/Db/Measure/Instances.antt =====
-- The measures: the money of all accounts, the two amounts of one account, the ledger of one account
-- and of one tenant.
use hwala.Base.{ℕ, ◌≡◌, refl, sym, ap, ◌∙◌, List, [], ◌∷◌, ◌++◌}
use hwala.Base.Int.{ℤ, pos, ◌+ℤ◌, ◌-ℤ◌, int_laws, +ℤ_assoc}
use hwala.Base.Table.{lookup, lookup-insert, total, total-insert, total-insert_new}
use hwala.Db.{Db, Account, LedgerEntry, WebhookOutbox}
use hwala.Db.Tx.{moved, account_update, account_create, ledger_create, outbox_create}
use hwala.Db.Tx.Runs.{account_update-ok, account_create-ok, ledger_create-ok, outbox_create-ok}
use hwala.Db.Measure.{
  Shifts, Measure, worth, money, balance_of, hold_of, or_zero, sum_for, sum_of_tenant, ledger_of,
  tenant_ledger, at, drift,
}

add_zero : (a : ℤ) → a ≡ a +ℤ pos 0
add_zero a = omega int_laws

worth-moved : (x y : ℤ) (a : Account) → worth (moved x y a) ≡ worth a +ℤ (x +ℤ y)
worth-moved x y a = omega int_laws

money-update : (id : ℕ) (x y : ℤ) → Shifts money (account_update id x y) (x +ℤ y)
unfolding money
money-update id x y db u db' h =
    let (a, found, e) = account_update-ok id x y db u db' h in
    rw e
      (grind (int_laws, total-insert worth id (moved x y a) a db.accounts found, worth-moved x y a))

money-create :
    (id : ℕ) (a : Account)
    → a.balance ≡ pos 0
    → a.hold_balance ≡ pos 0
    → Shifts money (account_create id a) (pos 0)
unfolding money
money-create id a p q db u db' h =
    let (new, e) = account_create-ok id a db u db' h in
    rw e (grind (int_laws, total-insert_new worth id a db.accounts new))

-- A measure of the accounts alone does not see the other writes.
module _ (ν : List (ℕ × Account) → ℤ) where
  accounts-ledger :
      (es : List LedgerEntry) → Shifts (λ db. ν db.accounts) (ledger_create es) (pos 0)
  accounts-ledger es db u db' h = rw (ledger_create-ok es db u db' h) (add_zero _)

  accounts-outbox :
      (id : ℕ) (w : WebhookOutbox) → Shifts (λ db. ν db.accounts) (outbox_create id w) (pos 0)
  accounts-outbox id w db u db' h = rw ((outbox_create-ok id w db u db' h).1) (add_zero _)

-- A measure of the ledger alone adds up the new entries.
module _ (ν : List LedgerEntry → ℤ) where
  ledger-update : (id : ℕ) (x y : ℤ) → Shifts (λ db. ν db.ledger) (account_update id x y) (pos 0)
  ledger-update id x y db u db' h =
      let (a, found, e) = account_update-ok id x y db u db' h in rw e (add_zero _)

  ledger-create : (id : ℕ) (a : Account) → Shifts (λ db. ν db.ledger) (account_create id a) (pos 0)
  ledger-create id a db u db' h = rw ((account_create-ok id a db u db' h).1) (add_zero _)

  ledger-outbox :
      (id : ℕ) (w : WebhookOutbox) → Shifts (λ db. ν db.ledger) (outbox_create id w) (pos 0)
  ledger-outbox id w db u db' h = rw ((outbox_create-ok id w db u db' h).1) (add_zero _)

pub money_measure : Measure money (λ id x y. x +ℤ y) (λ es. pos 0)
unfolding money
money_measure = record {
  on_update = money-update;
  on_create = money-create;
  on_ledger = accounts-ledger (total worth);
  on_flags = λ t db. refl;
  on_outbox = accounts-outbox (total worth);
}

sum_for-append :
    (id : ℕ) (xs ys : List LedgerEntry) → sum_for id (xs ++ ys) ≡ sum_for id xs +ℤ sum_for id ys
unfolding sum_for
sum_for-append id [] ys = omega int_laws
sum_for-append id (x ∷ xs) ys = rw (sum_for-append id xs ys) (sym (+ℤ_assoc _ _ _))

sum_of_tenant-append :
    (id : ℕ) (xs ys : List LedgerEntry)
    → sum_of_tenant id (xs ++ ys) ≡ sum_of_tenant id xs +ℤ sum_of_tenant id ys
unfolding sum_of_tenant
sum_of_tenant-append id [] ys = omega int_laws
sum_of_tenant-append id (x ∷ xs) ys = rw (sum_of_tenant-append id xs ys) (sym (+ℤ_assoc _ _ _))

-- One measure for each account.
module _ (k : ℕ) where
  balance-update : (id : ℕ) (x y : ℤ) → Shifts (balance_of k) (account_update id x y) (at k id x)
  unfolding balance_of at
  balance-update id x y db u db' h =
      let (a, found, e) = account_update-ok id x y db u db' h in
      rw (e, lookup-insert) (grind int_laws)

  hold-update : (id : ℕ) (x y : ℤ) → Shifts (hold_of k) (account_update id x y) (at k id y)
  unfolding hold_of at
  hold-update id x y db u db' h =
      let (a, found, e) = account_update-ok id x y db u db' h in
      rw (e, lookup-insert) (grind int_laws)

  balance-create :
      (id : ℕ) (a : Account)
      → a.balance ≡ pos 0
      → a.hold_balance ≡ pos 0
      → Shifts (balance_of k) (account_create id a) (pos 0)
  unfolding balance_of
  balance-create id a p q db u db' h =
      let (new, e) = account_create-ok id a db u db' h in rw (e, lookup-insert) (grind int_laws)

  hold-create :
      (id : ℕ) (a : Account)
      → a.balance ≡ pos 0
      → a.hold_balance ≡ pos 0
      → Shifts (hold_of k) (account_create id a) (pos 0)
  unfolding hold_of
  hold-create id a p q db u db' h =
      let (new, e) = account_create-ok id a db u db' h in rw (e, lookup-insert) (grind int_laws)

  pub balance_measure : Measure (balance_of k) (λ id x y. at k id x) (λ es. pos 0)
  unfolding balance_of
  balance_measure = record {
    on_update = balance-update;
    on_create = balance-create;
    on_ledger = accounts-ledger (λ t. or_zero (λ a. a.balance) (lookup k t));
    on_flags = λ t db. refl;
    on_outbox = accounts-outbox (λ t. or_zero (λ a. a.balance) (lookup k t));
  }

  pub hold_measure : Measure (hold_of k) (λ id x y. at k id y) (λ es. pos 0)
  unfolding hold_of
  hold_measure = record {
    on_update = hold-update;
    on_create = hold-create;
    on_ledger = accounts-ledger (λ t. or_zero (λ a. a.hold_balance) (lookup k t));
    on_flags = λ t db. refl;
    on_outbox = accounts-outbox (λ t. or_zero (λ a. a.hold_balance) (lookup k t));
  }

  pub ledger_measure : Measure (ledger_of k) (λ id x y. pos 0) (sum_for k)
  ledger_measure = record {
    on_update = ledger-update (sum_for k);
    on_create = λ id a p q. ledger-create (sum_for k) id a;
    on_ledger =
        λ es db u db' h. rw (ledger_create-ok es db u db' h) (sum_for-append k db.ledger es);
    on_flags = λ t db. refl;
    on_outbox = ledger-outbox (sum_for k);
  }

  pub tenant_measure : Measure (tenant_ledger k) (λ id x y. pos 0) (sum_of_tenant k)
  tenant_measure = record {
    on_update = ledger-update (sum_of_tenant k);
    on_create = λ id a p q. ledger-create (sum_of_tenant k) id a;
    on_ledger =
        λ es db u db' h. rw (ledger_create-ok es db u db' h) (sum_of_tenant-append k db.ledger es);
    on_flags = λ t db. refl;
    on_outbox = ledger-outbox (sum_of_tenant k);
  }

  drift-adds :
      (db db' : Db) (x y z : ℤ)
      → balance_of k db' ≡ balance_of k db +ℤ x
      → hold_of k db' ≡ hold_of k db +ℤ y
      → ledger_of k db' ≡ ledger_of k db +ℤ z
      → drift k db' ≡ drift k db +ℤ (x +ℤ y -ℤ z)
  unfolding drift
  drift-adds db db' x y z p q r = rw (p, q, r) (omega int_laws)

  pub drift_measure :
      Measure
        (drift k)
        (λ id x y. at k id x +ℤ at k id y -ℤ pos 0)
        (λ es. pos 0 +ℤ pos 0 -ℤ sum_for k es)
  unfolding drift balance_of hold_of
  drift_measure = record {
    on_update = λ id x y db u db' h.
        drift-adds db db' _ _ _ (balance_measure.on_update id x y db u db' h)
          (hold_measure.on_update id x y db u db' h) (ledger_measure.on_update id x y db u db' h);
    on_create = λ id a p q db u db' h.
        drift-adds db db' _ _ _ (balance_measure.on_create id a p q db u db' h)
          (hold_measure.on_create id a p q db u db' h)
          (ledger_measure.on_create id a p q db u db' h)
        ∙ ap (λ t. drift k db +ℤ t) (omega int_laws);
    on_ledger = λ es db u db' h.
        drift-adds db db' _ _ _ (balance_measure.on_ledger es db u db' h)
          (hold_measure.on_ledger es db u db' h) (ledger_measure.on_ledger es db u db' h);
    on_flags = λ t db. refl;
    on_outbox = λ id w db u db' h.
        drift-adds db db' _ _ _ (balance_measure.on_outbox id w db u db' h)
          (hold_measure.on_outbox id w db u db' h) (ledger_measure.on_outbox id w db u db' h)
        ∙ ap (λ t. drift k db +ℤ t) (omega int_laws);
  }

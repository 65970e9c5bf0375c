-- ===== src/Db/Tx/Runs.antt =====
-- What a transaction that has returned tells of its parts.
use hwala.Base.{
  ℕ, ◌≡◌, refl, Bool, true, false, Option, none, some, List, ◌++◌, arith, Option-cases, inl, inr,
}
use hwala.Base.Int.{ℤ}
use hwala.Base.Result.{Error, Result, ok, err}
use hwala.Base.Table.{lookup, insert}
use hwala.Db.{Db, Account, LedgerEntry, WebhookOutbox}
use hwala.Db.Tx.{
  Tx, continue, pure, or_throw, throw_if, moved, account_update, account_create, ledger_create,
  outbox_create,
}

-- Both parts of a sequence have returned.
pub continue-ok :
    {A B : Type 0} (r : Result (A × Db)) (f : A → Tx B) (b : B) (db' : Db)
    → continue r f ≡ ok (b, db')
    → (a : A) × (mid : Db) × (r ≡ ok (a, mid)) × (f a mid ≡ ok (b, db'))
continue-ok (ok (a, mid)) f b db' h = (a, mid, refl, h)
continue-ok (err e) f b db' h = cc

pub throw_if-ok :
    (test : Bool) (e : Error) (db : Db) (u : Unit {0}) (db' : Db)
    → throw_if test e db ≡ ok (u, db')
    → (test ≡ false) × (db' ≡ db)
throw_if-ok true e db u db' h = cc
throw_if-ok false e db u db' h = (refl, cc)

pub or_throw-ok :
    {A : Type 0} (o : Option A) (e : Error) (db : Db) (a : A) (db' : Db)
    → or_throw o e db ≡ ok (a, db')
    → (o ≡ some a) × (db' ≡ db)
or_throw-ok none e db a db' h = cc
or_throw-ok (some x) e db a db' h = (ground arith, ground arith)

-- A successful update has found the row and written the moved one, and nothing else.
pub account_update-ok :
    (id : ℕ) (x y : ℤ) (db : Db) (u : Unit {0}) (db' : Db)
    → account_update id x y db ≡ ok (u, db')
    → (a : Account) × (lookup id db.accounts ≡ some a)
      × (db' ≡ record db { accounts = insert id (moved x y a) db.accounts })
unfolding account_update
account_update-ok id x y db u db' h = elim (Option-cases (lookup id db.accounts)) [
  | inl e ↦ ground arith
  | inr (a, e) ↦ (a, e, ground arith)
]

pub account_create-ok :
    (id : ℕ) (a : Account) (db : Db) (u : Unit {0}) (db' : Db)
    → account_create id a db ≡ ok (u, db')
    → (lookup id db.accounts ≡ none) × (db' ≡ record db { accounts = insert id a db.accounts })
unfolding account_create
account_create-ok id a db u db' h = elim (Option-cases (lookup id db.accounts)) [
  | inl e ↦ (e, ground arith)
  | inr (b, e) ↦ ground arith
]

pub ledger_create-ok :
    (es : List LedgerEntry) (db : Db) (u : Unit {0}) (db' : Db)
    → ledger_create es db ≡ ok (u, db')
    → db' ≡ record db { ledger = db.ledger ++ es }
unfolding ledger_create
ledger_create-ok es db u db' h = ground arith

pub outbox_create-ok :
    (id : ℕ) (w : WebhookOutbox) (db : Db) (u : Unit {0}) (db' : Db)
    → outbox_create id w db ≡ ok (u, db')
    → (lookup id db.outbox ≡ none) × (db' ≡ record db { outbox = insert id w db.outbox })
unfolding outbox_create
outbox_create-ok id w db u db' h = elim (Option-cases (lookup id db.outbox)) [
  | inl e ↦ (e, ground arith)
  | inr (b, e) ↦ ground arith
]

-- The result of a call, with a value made of it.
pub continue-pure-ok :
    {A B : Type 0} (r : Result (A × Db)) (f : A → B) (b : B) (db' : Db)
    → continue r (λ a. pure (f a)) ≡ ok (b, db')
    → (a : A) × (r ≡ ok (a, db')) × (b ≡ f a)
continue-pure-ok (ok (a, mid)) f b db' h = (a, ground arith, ground arith)
continue-pure-ok (err e) f b db' h = cc

-- ===== src/Db/Tx.antt =====
-- The calls of the database inside one transaction, and `$transaction` itself with the `catch` around
-- it (src/transfer/transfer.service.ts): a body that throws leaves the database as it was.
pub mod Runs
use hwala.Base.{
  ℕ, ◌+◌, Bool, true, false, ◌&&◌, Option, none, some, List, ◌∷◌, [], ◌++◌, if◌then◌else◌, every,
  String,
}
use hwala.Base.Int.{ℤ, ◌+ℤ◌}
use hwala.Base.Result.{Error, Result, ok, err, fault}
use hwala.Base.Table.{lookup, insert}
use hwala.Db.{Db, Account, LedgerEntry, WebhookOutbox, fits}

-- A computation in a transaction.
abbrev pub Tx : Type 0 → Type 0
Tx A = Db → Result (A × Db)

abbrev pub continue : {A B : Type 0} → Result (A × Db) → (A → Tx B) → Result (B × Db)
continue (ok (a, db)) f = f a db
continue (err e) f = err e

infixl 5 ◌>>=◌ ◌>>◌
abbrev pub ◌>>=◌ : {A B : Type 0} → Tx A → (A → Tx B) → Tx B
◌>>=◌ m f db = continue (m db) f

abbrev pub ◌>>◌ : {A B : Type 0} → Tx A → Tx B → Tx B
m >> k = m >>= λ _. k

module _ {A : Type 0} where
  abbrev pub pure : A → Tx A
  pure a db = ok (a, db)

  abbrev pub throw : Error → Tx A
  throw e db = err e

  -- A read.
  abbrev pub gets : (Db → A) → Tx A
  gets f db = ok (f db, db)

  -- `if (!row) throw e`
  abbrev pub or_throw : Option A → Error → Tx A
  or_throw none e = throw e
  or_throw (some a) e = pure a

-- `if (test) throw e`
abbrev pub throw_if : Bool → Error → Tx (Unit {0})
throw_if test e db = if test then err e else ok (tt, db)

-- The row of an account after `balance: { increment: x }`, `holdBalance: { increment: y }` and
-- `version: { increment: 1 }`; a decrement is a negative increment.
abbrev pub moved : ℤ → ℤ → Account → Account
moved x y a = record a {
  balance = a.balance +ℤ x;
  hold_balance = a.hold_balance +ℤ y;
  version = a.version + 1;
}

-- A row fits its columns.
abbrev pub fits_row : Account → Bool
fits_row a = fits a.balance && fits a.hold_balance

abbrev pub update_row : ℕ → ℤ → ℤ → Option Account → Tx Unit
update_row id x y none db = err (fault "Record to update not found")
update_row id x y (some a) db =
    if fits_row (moved x y a)
    then ok (tt, record db { accounts = insert id (moved x y a) db.accounts })
    else err (fault "numeric field overflow")

-- `tx.account.update` by increments of whole cents, which its columns hold as they are (Transfer/Cents has the others).
unfoldable pub account_update : ℕ → ℤ → ℤ → Tx Unit
account_update id x y db = update_row id x y (lookup id db.accounts) db

abbrev pub create_row : ℕ → Account → Option Account → Tx Unit
create_row id a (some _) db = err (fault "Unique constraint failed")
create_row id a none db =
    if fits_row a
    then ok (tt, record db { accounts = insert id a db.accounts })
    else err (fault "numeric field overflow")

-- `tx.account.create` of a row whose generated key is `id`.
unfoldable pub account_create : ℕ → Account → Tx Unit
account_create id a db = create_row id a (lookup id db.accounts) db

-- `tx.ledgerEntry.createMany`, for entries of whole cents.
unfoldable pub ledger_create : List LedgerEntry → Tx Unit
ledger_create es db =
    if every (λ e. fits e.amount && fits e.fee_amount) es
    then ok (tt, record db { ledger = db.ledger ++ es })
    else err (fault "numeric field overflow")

abbrev pub outbox_row : ℕ → WebhookOutbox → Option WebhookOutbox → Tx Unit
outbox_row id w (some _) db = err (fault "Unique constraint failed")
outbox_row id w none db = ok (tt, record db { outbox = insert id w db.outbox })

-- `tx.webhookOutbox.create` of a row whose generated key is `id`.
unfoldable pub outbox_create : ℕ → WebhookOutbox → Tx Unit
outbox_create id w db = outbox_row id w (lookup id db.outbox) db

-- The `catch` clause: which errors it throws again, and the message of the 500 for the others.
abbrev pub rethrow : (Error → Bool) → String → Error → Error
rethrow keeps message e = if keeps e then e else Error.internal message

abbrev pub settle : {A : Type 0} → (Error → Bool) → String → Db → Result (A × Db) → Result A × Db
settle keeps message db (ok (a, db')) = (ok a, db')
settle keeps message db (err e) = (err (rethrow keeps message e), db)

-- `try { return await prisma.$transaction(body) } catch …`
abbrev pub transaction : {A : Type 0} → (Error → Bool) → String → Tx A → Db → Result A × Db
transaction keeps message body db = settle keeps message db (body db)

abbrev pub is_bad_request : Error → Bool
is_bad_request (Error.bad_request _) = true
is_bad_request _ = false

abbrev pub is_client_error : Error → Bool
is_client_error (Error.bad_request _) = true
is_client_error (Error.not_found _) = true
is_client_error _ = false

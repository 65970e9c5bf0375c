-- ===== src/Db/Measure.antt =====
-- Measures of a database: quantities that the writes of a transaction change by known amounts.
pub mod Rules
pub mod Instances
use hwala.Base.{ℕ, ◌≡◌, refl, Bool, ◌==◌, if◌then◌else◌, List, [], ◌∷◌, Option, none, some, arith}
use hwala.Base.Int.{ℤ, pos, ◌+ℤ◌, ◌-ℤ◌, neg, int_laws}
use hwala.Base.Result.{ok}
use hwala.Base.Table.{Table, lookup, total}
use hwala.Db.{Db, Account, LedgerEntry, RiskFlag, WebhookOutbox}
use hwala.Db.Tx.{Tx, account_update, account_create, ledger_create, outbox_create}

-- Whenever `m` returns, it has changed the measure by `x`.
abbrev pub Shifts : {A : Type 0} → (Db → ℤ) → Tx A → ℤ → Type 0
Shifts {A} μ m x = (db : Db) (a : A) (db' : Db) → m db ≡ ok (a, db') → μ db' ≡ μ db +ℤ x

-- A measure, with what an update and what new ledger entries add to it. A new account has no money
-- yet.
pub record Measure (μ : Db → ℤ) (delta : ℕ → ℤ → ℤ → ℤ) (posted : List LedgerEntry → ℤ)
    : Type 0 where
  pub on_update : (id : ℕ) (x y : ℤ) → Shifts μ (account_update id x y) (delta id x y)
  pub on_create :
      (id : ℕ) (a : Account)
      → a.balance ≡ pos 0
      → a.hold_balance ≡ pos 0
      → Shifts μ (account_create id a) (pos 0)
  pub on_ledger : (es : List LedgerEntry) → Shifts μ (ledger_create es) (posted es)
  pub on_flags : (t : Table RiskFlag) (db : Db) → μ (record db { risk_flags = t }) ≡ μ db
  pub on_outbox : (id : ℕ) (w : WebhookOutbox) → Shifts μ (outbox_create id w) (pos 0)

abbrev pub worth : Account → ℤ
worth a = a.balance +ℤ a.hold_balance

-- The money in all accounts, available and held.
unfoldable pub money : Db → ℤ
money db = total worth db.accounts

abbrev pub or_zero : (Account → ℤ) → Option Account → ℤ
or_zero f none = pos 0
or_zero f (some a) = f a

-- The available and the held money of one account; none if there is no such account.
unfoldable pub balance_of : ℕ → Db → ℤ
balance_of id db = or_zero (λ a. a.balance) (lookup id db.accounts)

unfoldable pub hold_of : ℕ → Db → ℤ
hold_of id db = or_zero (λ a. a.hold_balance) (lookup id db.accounts)

-- `x` at one account, nothing at the others.
unfoldable pub at : ℕ → ℕ → ℤ → ℤ
at k id x = if id == k then x else pos 0

-- The sum of the entries of one account, and of one tenant.
unfoldable pub sum_for : ℕ → List LedgerEntry → ℤ
sum_for id [] = pos 0
sum_for id (e ∷ es) = at id e.account_id e.amount +ℤ sum_for id es

unfoldable pub sum_of_tenant : ℕ → List LedgerEntry → ℤ
sum_of_tenant tenant_id [] = pos 0
sum_of_tenant tenant_id (e ∷ es) =
    (if e.tenant_id == tenant_id then e.amount else pos 0) +ℤ sum_of_tenant tenant_id es

abbrev pub ledger_of : ℕ → Db → ℤ
ledger_of id db = sum_for id db.ledger

abbrev pub tenant_ledger : ℕ → Db → ℤ
tenant_ledger tenant_id db = sum_of_tenant tenant_id db.ledger

-- How far the money of an account is ahead of the sum of its ledger entries.
unfoldable pub drift : ℕ → Db → ℤ
drift k db = balance_of k db +ℤ hold_of k db -ℤ ledger_of k db

pub at-add : (k id : ℕ) (x y : ℤ) → at k id (x +ℤ y) ≡ at k id x +ℤ at k id y
unfolding at
at-add k id x y = grind int_laws

pub at-neg : (k id : ℕ) (x : ℤ) → at k id (neg x) ≡ neg (at k id x)
unfolding at
at-neg k id x = grind int_laws

pub at-sub : (k id : ℕ) (x y : ℤ) → at k id (x -ℤ y) ≡ at k id x -ℤ at k id y
unfolding at
at-sub k id x y = grind int_laws

pub at-zero : (k id : ℕ) → at k id (pos 0) ≡ pos 0
unfolding at
at-zero k id = ground arith

pub ruleset at_laws = (at-add, at-sub, at-neg, at-zero)

pub balance_of-some :
    (id : ℕ) (a : Account) (db : Db) → lookup id db.accounts ≡ some a → balance_of id db ≡ a.balance
unfolding balance_of
balance_of-some id a db e = rw e

pub hold_of-some :
    (id : ℕ) (a : Account) (db : Db)
    → lookup id db.accounts ≡ some a
    → hold_of id db ≡ a.hold_balance
unfolding hold_of
hold_of-some id a db e = rw e

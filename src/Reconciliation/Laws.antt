-- ===== src/Reconciliation/Laws.antt =====
-- What the nightly reconciliation (src/reconciliation/reconciliation.service.ts) finds.
use mathlib.Core.List.{Mem, Memᴰ, mem-append_left}
use mathlib.Core.Option.{some-injective}
use hwala.Base.{
  ℕ, ◌≡◌, refl, sym, ap, ◌∙◌, ◌≢◌, ◌↔◌, true, false, some, List, [], ◌∷◌, ◌++◌, All, arith, ◌==◌,
  length, Bool-cases, inl, inr,
}
use hwala.Base.Int.{ℤ, ◌+ℤ◌, -ℤ_parts, eq_of_parts, int_laws}
use hwala.Base.Table.{Table, lookup, insert, lookup-insert}
use hwala.Db.{Db, Account, LedgerEntry}
use hwala.Db.Measure.{worth, sum_for, at, ledger_of}
use hwala.Reconciliation.{
  sum_or_zero, ledger_map, Alarm, mismatch, differs, check_accounts, is_some, check_orphans, Report,
  reconcile_ledger,
}

-- The grouped sums are the sums of the entries of each account.
pub lookup-ledger_map :
    (k : ℕ) (es : List LedgerEntry) → sum_or_zero (lookup k (ledger_map es)) ≡ sum_for k es
unfolding ledger_map lookup sum_for at
lookup-ledger_map k [] = refl
lookup-ledger_map k (e ∷ es) = grind (
  int_laws,
  lookup-ledger_map k es,
  lookup-insert e.account_id k (e.amount +ℤ sum_or_zero (lookup e.account_id (ledger_map es)))
      (ledger_map es),
)

differs→ne : (a b : ℤ) → differs a b ≡ true → a ≢ b
differs→ne a b h e = ground (arith, -ℤ_parts a b)

eq_of_same : (a b : ℤ) → differs a b ≡ false → a ≡ b
eq_of_same a b h = eq_of_parts a b (ground (arith, -ℤ_parts a b))

same_of_eq : (a b : ℤ) → a ≡ b → differs a b ≡ false
same_of_eq a b e = ground (arith, -ℤ_parts a b)

-- What the two loops leave unreported.
abbrev Agree : Table ℤ → Table Account → Type 0
Agree sums rows = All (λ (row : ℕ × Account). sum_or_zero (lookup row.0 sums) ≡ worth row.1) rows

abbrev Known : Table Account → Table ℤ → Type 0
Known accounts rows = All (λ (row : ℕ × ℤ). is_some (lookup row.0 accounts) ≡ true) rows

check_accounts-nil :
    (sums : Table ℤ) (rows : Table Account) → (check_accounts sums rows ≡ []) ↔ Agree sums rows
unfolding check_accounts
check_accounts-nil sums [] = (λ _. tt, λ _. refl)
check_accounts-nil sums ((id, a) ∷ rows) =
    let ih = check_accounts-nil sums rows in
    elim (Bool-cases (differs (sum_or_zero (lookup id sums)) (worth a))) [
      | inl e ↦ (λ h. cc (rw e at h), λ h. absurd (differs→ne _ _ e h.0))
      | inr e ↦ rw e (λ h. (eq_of_same _ _ e, ih.0 h), λ h. ih.1 h.1)
    ]

check_orphans-nil :
    (accounts : Table Account) (rows : Table ℤ)
    → (check_orphans accounts rows ≡ []) ↔ Known accounts rows
unfolding check_orphans
check_orphans-nil accounts [] = (λ _. tt, λ _. refl)
check_orphans-nil accounts ((id, x) ∷ rows) =
    let ih = check_orphans-nil accounts rows in
    elim (Bool-cases (is_some (lookup id accounts))) [
      | inl e ↦ rw e (λ h. (refl, ih.0 h), λ h. ih.1 h.1)
      | inr e ↦ (λ h. cc (rw e at h), λ h. cc (e, h.0))
    ]

Agree-by_ledger :
    (es : List LedgerEntry) (rows : Table Account)
    → Agree (ledger_map es) rows ↔ All (λ (row : ℕ × Account). sum_for row.0 es ≡ worth row.1) rows
Agree-by_ledger es [] = (λ _. tt, λ _. tt)
Agree-by_ledger es ((id, a) ∷ rows) =
    let ih = Agree-by_ledger es rows in
    (
      λ h. (sym (lookup-ledger_map id es) ∙ h.0, ih.0 h.1),
      λ h. (lookup-ledger_map id es ∙ h.0, ih.1 h.1),
    )

Known-insert :
    (accounts : Table Account) (k : ℕ) (v : ℤ) (t : Table ℤ)
    → Known accounts (insert k v t) ↔ ((is_some (lookup k accounts) ≡ true) × Known accounts t)
unfolding insert
Known-insert accounts k v [] = (λ h. h, λ h. h)
Known-insert accounts k v ((j, w) ∷ t) =
    let ih = Known-insert accounts k v t in
    elim (Bool-cases (j == k)) [
      | inl e ↦
          let same : j ≡ k = ground arith in
          rw e (λ h. (h.0, (rw same h.0, h.1)), λ h. (h.0, h.1.1))
      | inr e ↦ rw e (λ h. let q = ih.0 h.1 in (q.0, (h.0, q.1)), λ h. (h.1.0, ih.1 (h.0, h.1.1)))
    ]

Known-by_ledger :
    (accounts : Table Account) (es : List LedgerEntry)
    → Known accounts (ledger_map es)
      ↔ All (λ (e : LedgerEntry). is_some (lookup e.account_id accounts) ≡ true) es
unfolding ledger_map
Known-by_ledger accounts [] = (λ _. tt, λ _. tt)
Known-by_ledger accounts (e ∷ es) =
    let ih = Known-by_ledger accounts es in
    let step =
      Known-insert accounts e.account_id
        (e.amount +ℤ sum_or_zero (lookup e.account_id (ledger_map es))) (ledger_map es) in
    (λ h. ((step.0 h).0, ih.0 (step.0 h).1), λ h. step.1 (h.0, ih.1 h.1))

-- The books of a database agree with its accounts: every account holds the sum of its entries, and
-- every entry names an account.
abbrev pub BooksAgree : Db → Type 0
BooksAgree db =
    All (λ (row : ℕ × Account). sum_for row.0 db.ledger ≡ worth row.1) db.accounts
    × All (λ (e : LedgerEntry). is_some (lookup e.account_id db.accounts) ≡ true) db.ledger

append-nil_iff : (xs ys : List Alarm) → (xs ++ ys ≡ []) ↔ ((xs ≡ []) × (ys ≡ []))
append-nil_iff [] ys = (λ h. (refl, h), λ h. h.1)
append-nil_iff (x ∷ xs) ys = (λ h. cc, λ h. cc (h.0))

abbrev pub clean : Db → Report
clean db = record { accounts_checked = length db.accounts; mismatch_count = 0; alarms = [] }

-- The nightly job, when its queries return, reports no mismatch exactly when every account holds the sum of its ledger entries
-- and every entry names an account.
pub reconcile_ledger-clean_iff :
    (db : Db) → (reconcile_ledger true db ≡ some (clean db)) ↔ BooksAgree db
unfolding reconcile_ledger
reconcile_ledger-clean_iff db =
    let sums = ledger_map db.ledger in
    let split = append-nil_iff (check_accounts sums db.accounts) (check_orphans db.accounts sums) in
    (
      λ h.
          let none_left = split.0 (ap (λ r. r.alarms) (some-injective _ _ h)) in
          (
            (Agree-by_ledger db.ledger db.accounts).0
                ((check_accounts-nil sums db.accounts).0 none_left.0),
            (Known-by_ledger db.accounts db.ledger).0
                ((check_orphans-nil db.accounts sums).0 none_left.1),
          ),
      λ h. rw (
          split.1 (
            (check_accounts-nil sums db.accounts).1 ((Agree-by_ledger db.ledger db.accounts).1 h.0),
            (check_orphans-nil db.accounts sums).1 ((Known-by_ledger db.accounts db.ledger).1 h.1),
          )),
    )

check_accounts-reports :
    (sums : Table ℤ) (k : ℕ) (a : Account) (rows : Table Account)
    → lookup k rows ≡ some a
    → sum_or_zero (lookup k sums) ≢ worth a
    → Memᴰ (mismatch k (sum_or_zero (lookup k sums)) (worth a)) (check_accounts sums rows)
unfolding check_accounts lookup
check_accounts-reports sums k a [] found n = cc
check_accounts-reports sums k a ((j, b) ∷ rows) found n =
    let reported = differs (sum_or_zero (lookup j sums)) (worth b) in
    elim (Bool-cases (j == k)) [
      | inl e ↦
          let key : j ≡ k = ground arith in
          let row : b ≡ a = some-injective _ _ (rw e at found) in
          elim (Bool-cases reported) [
            | inl p ↦ rw p (Memᴰ.head (rw (key, row)))
            | inr p ↦ absurd (n (rw (key, row) at (eq_of_same _ _ p)))
          ]
      | inr e ↦
          let below = check_accounts-reports sums k a rows (rw e at found) n in
          elim (Bool-cases reported) [ inl p ↦ rw p (Memᴰ.tail below) | inr p ↦ rw p below ]
    ]

-- A job that runs reports every account whose money is not the sum of its entries, with both sums.
pub reconcile_ledger-reports :
    (db : Db) (k : ℕ) (a : Account) (report : Report)
    → lookup k db.accounts ≡ some a
    → ledger_of k db ≢ worth a
    → reconcile_ledger true db ≡ some report
    → Mem (mismatch k (ledger_of k db) (worth a)) report.alarms
unfolding reconcile_ledger
reconcile_ledger-reports db k a report found n h =
    let sums = ledger_map db.ledger in
    let same = lookup-ledger_map k db.ledger in
    rw (← some-injective _ _ h) (
      mem-append_left {s = check_accounts sums db.accounts} _ (
        rw (← same)
          (∣ check_accounts-reports sums k a db.accounts found (λ e. n (sym same ∙ e)) ∣₁)))

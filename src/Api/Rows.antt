-- ===== src/Api/Rows.antt =====
-- Whose rows the services show that the guarded routes call (Api).
use hwala.Base.{
  ℕ, arith, ◌≡◌, refl, Bool, true, false, ◌&&◌, ◌||◌, Option, none, some, List, [], ◌∷◌, ◌==◌,
  String, All, filter, Bool-cases, Option-cases, inl, inr, ◌⊎◌, ==-refl,
}
use hwala.Base.Int.{ℤ, pos, ltb_ℤ}
use hwala.Base.Pages.{keep}
use hwala.Base.Rows.{All-imp, filter-All, order_desc-All, page_rows-All, page_rows-All-of, map-All}
use hwala.Base.Result.{Result, ok, err}
use hwala.Base.Table.{Table, lookup}
use hwala.Db.{Db, ApiKey, Account, RiskFlag, RiskStatus, AuditLog, LedgerEntry, AccountType}
use hwala.ApiKeys.{list_api_keys, visible}
use hwala.Accounts.{
  list_accounts, get_account_ledger, create_account, created, account_of_tenant, ledger_of_account,
}
use hwala.Audit.{QueryAuditLogsOptions, get_audit_logs, get_audit_log_by_id, selected}
use hwala.Risk.{update_risk_flag_status, of_tenant}
use hwala.Base.Keys.{HasKeys, HasKeys-AreRows}
use hwala.Risk.Queries.{
  FlagRow, FlagAccount, shown_account, with_account, QueryRiskFlagsOptions, get_risk_flags,
  selected_flag,
}
use hwala.Webhook.Dlq.{DlqState}
use hwala.Api.{Answer, update_flag, read, write}

-- A row of the table of API keys, with its tenant.
abbrev pub has_key : (tenant_id id : ℕ) → Table ApiKey → Bool
has_key t id [] = false
has_key t id ((j, k) ∷ rows) = let rest = has_key t id rows in (j == id && k.tenant_id == t) || rest

-- A row of the table of accounts, with its tenant.
abbrev pub is_own : ℕ → Option Account → Bool
is_own t none = false
is_own t (some a) = a.tenant_id == t

-- The account that a flag is shown with.
abbrev pub IsOwnAccount : ℕ → Db → Option FlagAccount → Type 0
IsOwnAccount t db none = Unit
IsOwnAccount t db (some a) = is_own t (lookup a.id db.accounts) ≡ true

-- No flag of the tenant names an account of another.
abbrev pub HasOwnFlags : ℕ → Db → Type 0
HasOwnFlags t db =
    (id : ℕ) (f : RiskFlag) (a : Account)
    → lookup id db.risk_flags ≡ some f
    → f.tenant_id ≡ t
    → lookup f.account_id db.accounts ≡ some a
    → a.tenant_id ≡ t

-- Every account, ledger entry, audit entry, risk flag and API key in an answer is of a tenant, and so is the account that
-- a flag is shown with; keys are looked for in the
-- database that the request has read. The profile of the user, a new key and the figures of a reconciliation have no rows.
unfoldable pub OwnRows : ℕ → Db → Answer → Type 0
OwnRows t db (Answer.as_account a) = (a.tenant_id == t) ≡ true
OwnRows t db (Answer.as_accounts rows) =
    All (λ (row : ℕ × Account). (row.1.tenant_id == t) ≡ true) rows
OwnRows t db (Answer.as_ledger (a, es)) =
    ((a.tenant_id == t) ≡ true) × All (λ (e : LedgerEntry). (e.tenant_id == t) ≡ true) es
OwnRows t db (Answer.as_logs page) =
    All (λ (row : ℕ × AuditLog). (row.1.tenant_id == t) ≡ true) page.logs
OwnRows t db (Answer.as_log l) = (l.tenant_id == t) ≡ true
OwnRows t db (Answer.as_flags page) =
    All (λ (row : ℕ × FlagRow). ((row.1.0.tenant_id == t) ≡ true) × IsOwnAccount t db row.1.1)
      page.flags
OwnRows t db (Answer.as_flag f) = (f.tenant_id == t) ≡ true
OwnRows t db (Answer.as_keys rows) =
    All (λ (row : ℕ × (String × List String)). has_key t row.0 db.api_keys ≡ true) rows
OwnRows t db _ = Unit

-- The services.
module _ (t : ℕ) (db : Db) where
  pub list_accounts-Own : OwnRows t db (Answer.as_accounts (list_accounts t db))
  unfolding list_accounts OwnRows
  list_accounts-Own = filter-All _ _ (λ row e. e) db.accounts

  ledger_of_account-Own :
      (id : ℕ)
      → All (λ (e : LedgerEntry). (e.tenant_id == t) ≡ true) (ledger_of_account t id db.ledger)
  ledger_of_account-Own id = order_desc-All _ _ _ (filter-All _ _ (λ e p. ground arith) db.ledger)

  account_of_tenant-cases :
      (o : Option Account)
      → (account_of_tenant t o ≡ none)
        ⊎ ((a : Account) × (account_of_tenant t o ≡ some a) × ((a.tenant_id == t) ≡ true))
  account_of_tenant-cases none = inl refl
  account_of_tenant-cases (some a) = elim (Bool-cases (a.tenant_id == t)) [
    | inl e ↦ inr (a, rw e refl, e)
    | inr e ↦ inl (rw e refl)
  ]

  pub get_account_ledger-Own :
      (id : ℕ) (st : DlqState)
      → OwnRows t db (read Answer.as_ledger (get_account_ledger t id db) st).0
  unfolding get_account_ledger OwnRows
  get_account_ledger-Own id st = elim (account_of_tenant-cases (lookup id db.accounts)) [
    | inl e ↦ rw e tt
    | inr (a, e, mine) ↦ rw e (mine, ledger_of_account-Own id)
  ]

  pub get_audit_logs-Own :
      (options : QueryAuditLogsOptions)
      → OwnRows t db (Answer.as_logs (get_audit_logs t options db))
  unfolding get_audit_logs selected OwnRows
  get_audit_logs-Own options = page_rows-All _ _ _ _ _ (λ row e. ground arith) db.audit_logs

  shown_account-Own :
      (id : ℕ) (o : Option Account)
      → lookup id db.accounts ≡ o
      → ((a : Account) → o ≡ some a → a.tenant_id ≡ t)
      → IsOwnAccount t db (shown_account id o)
  shown_account-Own id none e h = tt
  shown_account-Own id (some a) e h = rw e (rw (h a refl) (==-refl t))

  with_account-Own :
      (row : ℕ × RiskFlag)
      → (row.1.tenant_id ≡ t) × (lookup row.0 db.risk_flags ≡ some row.1)
      → HasOwnFlags t db
      → let shown = with_account db.accounts row in
        ((shown.1.0.tenant_id == t) ≡ true) × IsOwnAccount t db shown.1.1
  with_account-Own (id, f) (mine, found) own = (
    rw mine (==-refl t),
    shown_account-Own f.account_id (lookup f.account_id db.accounts) refl
        (λ a e. own id f a found mine e),
  )

  pub get_risk_flags-Own :
      (options : QueryRiskFlagsOptions)
      → HasKeys db.risk_flags
      → HasOwnFlags t db
      → OwnRows t db (Answer.as_flags (get_risk_flags t options db))
  unfolding get_risk_flags selected_flag OwnRows
  get_risk_flags-Own options keys own =
      map-All _ _ (with_account db.accounts) (λ row h. with_account-Own row h own) _
        (page_rows-All-of
          (λ (row : ℕ × RiskFlag).
            (row.1.tenant_id ≡ t) × (lookup row.0 db.risk_flags ≡ some row.1))
          _ _ _ _ _ (λ row e p. (ground arith, p)) db.risk_flags
          (HasKeys-AreRows db.risk_flags keys))

  keep-cases :
      {V : Type 0} (q : V → Bool) (o : Option V)
      → (keep q o ≡ none) ⊎ ((v : V) × (keep q o ≡ some v) × (q v ≡ true))
  keep-cases q none = inl refl
  keep-cases q (some v) = elim (Bool-cases (q v)) [
    | inl e ↦ inr (v, rw e refl, e)
    | inr e ↦ inl (rw e refl)
  ]

  pub get_audit_log_by_id-Own :
      (id : ℕ) (st : DlqState)
      → OwnRows t db (read Answer.as_log (get_audit_log_by_id t id db) st).0
  unfolding get_audit_log_by_id OwnRows
  get_audit_log_by_id-Own id st =
      elim (keep-cases (λ (l : AuditLog). l.tenant_id == t) (lookup id db.audit_logs)) [
        | inl e ↦ rw e tt
        | inr (l, e, mine) ↦ rw e mine
      ]

  or_right : (a b : Bool) → b ≡ true → (a || b) ≡ true
  or_right a b e = ground arith

  has_key-visible :
      (rows : Table ApiKey)
      → All
          (λ (row : ℕ × (String × List String)). has_key t row.0 rows ≡ true)
          (visible (filter (λ (row : ℕ × ApiKey). row.1.tenant_id == t) rows))
  has_key-visible [] = tt
  has_key-visible ((j, k) ∷ rows) =
      let later : (b : Bool)
          → All
              (λ (row : ℕ × (String × List String)).
                (j == row.0 && b || has_key t row.0 rows) ≡ true)
              (visible (filter (λ (row : ℕ × ApiKey). row.1.tenant_id == t) rows)) =
        (λ b.
          All-imp _ _ (λ row e. or_right (j == row.0 && b) (has_key t row.0 rows) e) _
            (has_key-visible rows)) in
      elim (Bool-cases (k.tenant_id == t)) [
        | inl e ↦ rw e (rw (==-refl j) refl, later true)
        | inr e ↦ rw e (later false)
      ]

  pub list_api_keys-Own : OwnRows t db (Answer.as_keys (list_api_keys t db))
  unfolding list_api_keys OwnRows
  list_api_keys-Own = has_key-visible db.api_keys

  flag_of_tenant-cases :
      (o : Option RiskFlag)
      → (of_tenant t o ≡ none)
        ⊎ ((f : RiskFlag) × (of_tenant t o ≡ some f) × ((f.tenant_id == t) ≡ true))
  flag_of_tenant-cases none = inl refl
  flag_of_tenant-cases (some f) = elim (Bool-cases (f.tenant_id == t)) [
    | inl e ↦ inr (f, rw e refl, e)
    | inr e ↦ inl (rw e refl)
  ]

  pub update_flag-Own :
      (id : ℕ) (status : Option RiskStatus) (st : DlqState)
      → OwnRows t db (write Answer.as_flag (update_flag t id status db) st).0
  unfolding update_risk_flag_status OwnRows
  update_flag-Own id none st = elim (flag_of_tenant-cases (lookup id db.risk_flags)) [
    | inl e ↦ rw e tt
    | inr (f, e, mine) ↦ rw e mine
  ]
  update_flag-Own id (some status) st = elim (flag_of_tenant-cases (lookup id db.risk_flags)) [
    | inl e ↦ rw e tt
    | inr (f, e, mine) ↦ rw e mine
  ]

  created-Own :
      (id : ℕ) (a : Account) (r : Result (Unit {0} × Db)) (st : DlqState)
      → (a.tenant_id == t) ≡ true
      → OwnRows t db (write Answer.as_account (created id a db r) st).0
  unfolding OwnRows
  created-Own id a (ok (_, db')) st mine = mine
  created-Own id a (err e) st mine = tt

  pub create_account-Own :
      (id : ℕ) (user_id : Option ℕ) (type : Option AccountType) (balance : ℤ) (st : DlqState)
      → OwnRows t db
          (write Answer.as_account (create_account id (some t) user_id type balance db) st).0
  unfolding create_account OwnRows
  create_account-Own id none type balance st = tt
  create_account-Own id (some u) none balance st = tt
  create_account-Own id (some u) (some type) balance st =
      elim (Bool-cases (ltb_ℤ balance (pos 0))) [
        | inl e ↦ rw e tt
        | inr e ↦ rw e (elim (Option-cases (lookup t db.tenants)) [
          | inl p ↦ rw p tt
          | inr (_, p) ↦ rw p (created-Own id _ _ st (==-refl t))
        ])
      ]

-- ===== src/Api/Kept.antt =====
-- What the services that the guarded routes call for one tenant leave of the others (Api).
use hwala.Base.{
  ℕ, arith, ◌≡◌, refl, Bool, false, Option, none, some, List, ◌==◌, String, Bool-cases,
  Option-cases, inl, inr, ◌⊎◌,
}
use hwala.Base.Pages.{keep}
use hwala.Base.Table.{Table, lookup, insert, erase, lookup-insert, lookup-erase}
use hwala.Base.Int.{ℤ, pos, ltb_ℤ}
use hwala.Db.{Db, ApiKey, Account, RiskFlag, RiskStatus, AuditLog, AccountType}
use hwala.Db.Tx.{account_create, fits_row}
use hwala.ApiKeys.{KeyEnv, create_api_key, revoke_api_key, logged, key_of_tenant}
use hwala.Accounts.{create_account, created}
use hwala.Risk.{update_risk_flag_status, of_tenant}

-- The rows of a tenant in a table, by their keys.
abbrev pub Same : {V : Type 0} → (V → ℕ) → ℕ → Table V → Table V → Type 0
Same tenant_of t rows rows' =
    (id : ℕ)
    → keep (λ v. tenant_of v == t) (lookup id rows') ≡ keep (λ v. tenant_of v == t) (lookup id rows)

-- The rows of a tenant are the same in all tables that a guarded route writes, and the other tables are untouched.
pub record IsKept (t : ℕ) (db db' : Db) : Type 0 where
  pub keys : Same (λ (k : ApiKey). k.tenant_id) t db.api_keys db'.api_keys
  pub accounts : Same (λ (a : Account). a.tenant_id) t db.accounts db'.accounts
  pub flags : Same (λ (f : RiskFlag). f.tenant_id) t db.risk_flags db'.risk_flags
  pub logs : Same (λ (l : AuditLog). l.tenant_id) t db.audit_logs db'.audit_logs
  pub ledger : db'.ledger ≡ db.ledger
  pub outbox : db'.outbox ≡ db.outbox
  pub users : db'.users ≡ db.users
  pub tenants : db'.tenants ≡ db.tenants
  pub failures : db'.failures ≡ db.failures

module _ {V : Type 0} (tenant_of : V → ℕ) (t : ℕ) where
  -- A write under a key that is free, or that is taken by a row of another tenant.
  insert-Same :
      (k : ℕ) (v : V) (rows : Table V)
      → (tenant_of v == t) ≡ false
      → keep (λ w. tenant_of w == t) (lookup k rows) ≡ none
      → Same tenant_of t rows (insert k v rows)
  insert-Same k v rows p q id = ground (arith, lookup-insert k id v rows)

  erase-Same :
      (k : ℕ) (rows : Table V)
      → keep (λ w. tenant_of w == t) (lookup k rows) ≡ none
      → Same tenant_of t rows (erase k rows)
  erase-Same k rows q id = ground (arith, lookup-erase k id rows)

pub IsKept-refl : (t : ℕ) (db : Db) → IsKept t db db
IsKept-refl t db = record {
  keys = λ id. refl;
  accounts = λ id. refl;
  flags = λ id. refl;
  logs = λ id. refl;
  ledger = refl;
  outbox = refl;
  users = refl;
  tenants = refl;
  failures = refl;
}

-- A write to one table.
module _ (t : ℕ) (db : Db) where
  keys-IsKept :
      (rows : Table ApiKey)
      → Same (λ (k : ApiKey). k.tenant_id) t db.api_keys rows
      → IsKept t db (record db { api_keys = rows })
  keys-IsKept rows h = record {
    keys = h;
    accounts = λ id. refl;
    flags = λ id. refl;
    logs = λ id. refl;
    ledger = refl;
    outbox = refl;
    users = refl;
    tenants = refl;
    failures = refl;
  }

  accounts-IsKept :
      (rows : Table Account)
      → Same (λ (a : Account). a.tenant_id) t db.accounts rows
      → IsKept t db (record db { accounts = rows })
  accounts-IsKept rows h = record {
    keys = λ id. refl;
    accounts = h;
    flags = λ id. refl;
    logs = λ id. refl;
    ledger = refl;
    outbox = refl;
    users = refl;
    tenants = refl;
    failures = refl;
  }

  flags-IsKept :
      (rows : Table RiskFlag)
      → Same (λ (f : RiskFlag). f.tenant_id) t db.risk_flags rows
      → IsKept t db (record db { risk_flags = rows })
  flags-IsKept rows h = record {
    keys = λ id. refl;
    accounts = λ id. refl;
    flags = h;
    logs = λ id. refl;
    ledger = refl;
    outbox = refl;
    users = refl;
    tenants = refl;
    failures = refl;
  }

module _ (s t : ℕ) (other : (s == t) ≡ false) where
  -- The audit entry of a write to the keys of a tenant `s`.
  logged-IsKept :
      (env : KeyEnv) (action : String) (target_id : ℕ) (db : Db) (rows : Table ApiKey)
      → lookup env.audit_id db.audit_logs ≡ none
      → Same (λ (k : ApiKey). k.tenant_id) t db.api_keys rows
      → IsKept t db (logged env s action target_id (record db { api_keys = rows }))
  logged-IsKept env action target_id db rows free h = elim (Bool-cases env.has_audit) [
    | inl e ↦ rw e (record {
      keys = h;
      accounts = λ id. refl;
      flags = λ id. refl;
      logs =
          insert-Same (λ (l : AuditLog). l.tenant_id) t env.audit_id _ db.audit_logs other
            (rw free refl);
      ledger = refl;
      outbox = refl;
      users = refl;
      tenants = refl;
      failures = refl;
    })
    | inr e ↦ rw e (keys-IsKept t db rows h)
  ]

  key_of_other :
      (o : Option ApiKey)
      → (key_of_tenant s o ≡ none)
        ⊎ ((k : ApiKey) × (key_of_tenant s o ≡ some k)
            × (keep (λ (w : ApiKey). w.tenant_id == t) o ≡ none))
  key_of_other none = inl refl
  key_of_other (some k) = elim (Bool-cases (k.tenant_id == s)) [
    | inl e ↦ inr (k, rw e refl, ground arith)
    | inr e ↦ inl (rw e refl)
  ]

  flag_of_other :
      (o : Option RiskFlag)
      → (of_tenant s o ≡ none)
        ⊎ ((f : RiskFlag) × (of_tenant s o ≡ some f)
            × (f.tenant_id ≡ s)
            × (keep (λ (w : RiskFlag). w.tenant_id == t) o ≡ none))
  flag_of_other none = inl refl
  flag_of_other (some f) = elim (Bool-cases (f.tenant_id == s)) [
    | inl e ↦ inr (f, rw e refl, ground arith, ground arith)
    | inr e ↦ inl (rw e refl)
  ]

  pub create_api_key-IsKept :
      (uuid_text : ℕ → String) (uuid_of : String → Option ℕ)
      (hash : (salt : ℕ) (raw_key : String) → String) (compare : (raw_key key_hash : String) → Bool)
      (env : KeyEnv) (name : String) (scopes : List String) (db : Db)
      → lookup env.audit_id db.audit_logs ≡ none
      → IsKept t db (create_api_key uuid_text uuid_of hash compare env s name scopes db).1
  unfolding create_api_key
  create_api_key-IsKept uuid_text uuid_of hash compare env name scopes db free =
      elim (Option-cases (lookup s db.tenants)) [
        | inl e ↦ rw e (IsKept-refl t db)
        | inr (_, e) ↦ rw e (elim (Option-cases (lookup env.new_id db.api_keys)) [
          | inl p ↦ rw p (
              logged-IsKept env _ _ db _ free (
                insert-Same (λ (k : ApiKey). k.tenant_id) t env.new_id _ db.api_keys other
                  (rw p refl)))
          | inr (_, p) ↦ rw p (IsKept-refl t db)
        ])
      ]

  pub revoke_api_key-IsKept :
      (env : KeyEnv) (id : ℕ) (db : Db)
      → lookup env.audit_id db.audit_logs ≡ none
      → IsKept t db (revoke_api_key env s id db).1
  unfolding revoke_api_key
  revoke_api_key-IsKept env id db free = elim (key_of_other (lookup id db.api_keys)) [
    | inl e ↦ rw e (IsKept-refl t db)
    | inr (k, e, foreign) ↦ rw e (
        logged-IsKept env _ _ db _ free
          (erase-Same (λ (k : ApiKey). k.tenant_id) t id db.api_keys foreign))
  ]

  pub update_risk_flag_status-IsKept :
      (id : ℕ) (status : RiskStatus) (db : Db)
      → IsKept t db (update_risk_flag_status s id status db).1
  unfolding update_risk_flag_status
  update_risk_flag_status-IsKept id status db = elim (flag_of_other (lookup id db.risk_flags)) [
    | inl e ↦ rw e (IsKept-refl t db)
    | inr (f, e, mine, foreign) ↦ rw e (
        flags-IsKept t db _ (
          insert-Same (λ (f : RiskFlag). f.tenant_id) t id _ db.risk_flags (rw mine other) foreign))
  ]

  account_create-IsKept :
      (id : ℕ) (a : Account) (db : Db)
      → a.tenant_id ≡ s
      → IsKept t db (created id a db (account_create id a db)).1
  unfolding account_create
  account_create-IsKept id a db mine = elim (Option-cases (lookup id db.accounts)) [
    | inr (_, e) ↦ rw e (IsKept-refl t db)
    | inl e ↦ rw e (elim (Bool-cases (fits_row a)) [
      | inl p ↦ rw p (
          accounts-IsKept t db _ (
            insert-Same (λ (a : Account). a.tenant_id) t id a db.accounts (rw mine other)
              (rw e refl)))
      | inr p ↦ rw p (IsKept-refl t db)
    ])
  ]

  pub create_account-IsKept :
      (id : ℕ) (user_id : Option ℕ) (type : Option AccountType) (balance : ℤ) (db : Db)
      → IsKept t db (create_account id (some s) user_id type balance db).1
  unfolding create_account
  create_account-IsKept id none type balance db = IsKept-refl t db
  create_account-IsKept id (some u) none balance db = IsKept-refl t db
  create_account-IsKept id (some u) (some type) balance db =
      elim (Bool-cases (ltb_ℤ balance (pos 0))) [
        | inl e ↦ rw e (IsKept-refl t db)
        | inr e ↦ rw e (elim (Option-cases (lookup s db.tenants)) [
          | inl p ↦ rw p (IsKept-refl t db)
          | inr (_, p) ↦ rw p (account_create-IsKept id _ db refl)
        ])
      ]

-- ===== src/Risk/Flags.antt =====
-- Which part of the database the risk check (src/risk/risk.service.ts) writes.
use hwala.Base.{ℕ, ◌≡◌, refl, String, List, [], ◌∷◌, Bool-cases, inl, inr}
use hwala.Base.Int.{ℤ}
use hwala.Base.Table.{Table}
use hwala.Db.{Db, RiskFlag, RiskSeverity}
use hwala.Risk.{
  RiskEnv, triggered, get_account_transfer_velocity, create_flags, evaluate_transaction,
}

-- The risk check writes flags and nothing else of the database.
create_flags_only :
    (env : RiskEnv) (tenant_id account_id : ℕ) (flags : List (String × RiskSeverity)) (db : Db)
    → (t : Table RiskFlag) × ((create_flags env tenant_id account_id flags db).1
        ≡ record db { risk_flags = t })
unfolding create_flags
create_flags_only env tenant_id account_id [] db = (db.risk_flags, refl)
create_flags_only env tenant_id account_id ((reason, severity) ∷ flags) db =
    elim (Bool-cases (env.flag_saved severity)) [
      | inl e ↦ rw e (let (t, p) = create_flags_only env tenant_id account_id flags _ in (t, p))
      | inr e ↦ rw e (create_flags_only env tenant_id account_id flags db)
    ]

-- Two databases that differ at most in their risk flags.
abbrev pub SameButFlags : Db → Db → Type 0
SameButFlags db db' = (t : Table RiskFlag) × (db' ≡ record db { risk_flags = t })

pub evaluate_transaction_only :
    (env : RiskEnv) (tenant_id account_id : ℕ) (amount : ℤ) (db : Db) (sets : Table (List ℕ))
    → SameButFlags db (evaluate_transaction env tenant_id account_id amount db sets).1
unfolding evaluate_transaction
evaluate_transaction_only env tenant_id account_id amount db sets =
    create_flags_only env tenant_id account_id
      (triggered (get_account_transfer_velocity env account_id db sets).0 amount) db

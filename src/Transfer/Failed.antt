-- ===== src/Transfer/Failed.antt =====
-- A call of `executeTransfer` (src/transfer/transfer.service.ts) that throws.
use hwala.Base.{
  ℕ, ◌≡◌, ◌∙◌, String, Option, none, some, arith, ◌==◌, Bool-cases, if-true, if-false, inl, inr,
}
use hwala.Base.Int.{ℤ, pos, leb_ℤ}
use hwala.Base.Result.{Result, ok, err, Error}
use hwala.Risk.{RiskEvaluationResult, evaluate_transaction}
use hwala.Risk.Flags.{SameButFlags, evaluate_transaction_only}
use hwala.Transfer.Execute.{
  Env, World, run_transfer, after_risk, assess, after_velocity, enforce, execute_transfer,
}
use hwala.Transfer.Runs.{settle-err}

module _ (env : Env) (tenant_id s r : ℕ) (amount : ℤ) (description : String) where
  run_transfer-same :
      (w : World) (e : Error) (w' : World)
      → run_transfer env tenant_id s r amount description w ≡ (err e, w')
      → w'.db ≡ w.db
  run_transfer-same w e w' h = settle-err _ _ _ _ e _ (λ i. ((h i).0, (h i).1.db))

  after_risk-same :
      (w : World) (result : RiskEvaluationResult) (e : Error) (w' : World)
      → after_risk env tenant_id s r amount description w result ≡ (err e, w')
      → w'.db ≡ w.db
  after_risk-same w result e w' h = elim (Bool-cases result.blocked) [
    | inl p ↦ ground arith
    | inr p ↦ run_transfer-same w e w' (if-false _ _ _ _ p h)
  ]

  assess-flags :
      (w : World) (e : Error) (w' : World)
      → assess env tenant_id s r amount description w ≡ (err e, w')
      → SameButFlags w.db w'.db
  assess-flags w e w' h = elim (Bool-cases env.has_risk) [
    | inl p ↦
        let (t, same) = evaluate_transaction_only env.risk tenant_id s amount w.db w.risk_sets in
        (
          t,
          after_risk-same _ (evaluate_transaction env.risk tenant_id s amount w.db w.risk_sets).0 e
                w' (if-true _ _ _ _ p h)
              ∙ same,
        )
    | inr p ↦ (w.db.risk_flags, run_transfer-same w e w' (if-false _ _ _ _ p h))
  ]

  after_velocity-flags :
      (w : World) (verdict : Result (Unit {0})) (e : Error) (w' : World)
      → after_velocity env tenant_id s r amount description w verdict ≡ (err e, w')
      → SameButFlags w.db w'.db
  after_velocity-flags w (ok _) e w' h = assess-flags w e w' h
  after_velocity-flags w (err x) e w' h = (w.db.risk_flags, ground arith)

  enforce-flags :
      (w : World) (e : Error) (w' : World)
      → enforce env tenant_id s r amount description w ≡ (err e, w')
      → SameButFlags w.db w'.db
  enforce-flags w e w' h = elim (Bool-cases env.has_security) [
    | inl p ↦ after_velocity-flags _ _ e w' (if-true _ _ _ _ p h)
    | inr p ↦ assess-flags w e w' (if-false _ _ _ _ p h)
  ]

-- A transfer that throws, for whatever reason, leaves the database as it was, but for the risk flags
-- that its risk check has written.
pub execute_transfer_atomic :
    (env : Env) (tenant : Option ℕ) (s r : ℕ) (amount : ℤ) (description : String) (w : World)
    (e : Error) (w' : World)
    → execute_transfer env tenant s r amount description w ≡ (err e, w')
    → SameButFlags w.db w'.db
unfolding execute_transfer
execute_transfer_atomic env none s r amount description w e w' h = (w.db.risk_flags, ground arith)
execute_transfer_atomic env (some tenant_id) s r amount description w e w' h =
    elim (Bool-cases (leb_ℤ amount (pos 0))) [
      | inl p ↦ (w.db.risk_flags, ground arith)
      | inr p ↦ elim (Bool-cases (s == r)) [
        | inl q ↦ (w.db.risk_flags, ground arith)
        | inr q ↦ enforce-flags env tenant_id s r amount description w e w' (rw (p, q) at h)
      ]
    ]

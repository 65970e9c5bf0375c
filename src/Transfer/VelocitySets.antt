-- ===== src/Transfer/VelocitySets.antt =====
-- What `executeTransfer` of src/transfer/transfer.service.ts does to the sorted sets of the two velocity checks.
use hwala.Base.{
  ℕ, arith, ◌≡◌, refl, ap, ◌∙◌, Bool, true, false, Option, none, some, List, ltb, ◌==◌, ◌⊎◌, String,
  if◌then◌else◌, Bool-cases, inl, inr,
}
use hwala.Base.Int.{ℤ, pos, leb_ℤ}
use hwala.Base.Result.{Result, Error, ok, err}
use hwala.Base.Table.{Table}
use hwala.Db.{Db}
use hwala.Velocity.{pipeline, enforce_transfer_velocity}
use hwala.Risk.{
  RiskEnv, RiskEvaluationResult, get_account_transfer_velocity, evaluate_transaction,
  velocity_limit,
}
use hwala.Transfer.Execute.{
  Env, World, Receipt, execute_transfer, enforce, after_velocity, assess, after_risk, run_transfer,
}

if_both : {A : Type 0} (P : A → Type 0) (b : Bool) (x y : A) → P x → P y → P (if b then x else y)
if_both P true x y p q = p
if_both P false x y p q = q

if_holds :
    {A : Type 0} (P : A → Type 0) (b : Bool) (x y : A) → b ≡ true → P x → P (if b then x else y)
if_holds P true x y e p = p
if_holds P false x y e p = absurd (ground arith)

pub evaluate_transaction-counts :
    (env : RiskEnv) (tenant_id account_id : ℕ) (amount : ℤ) (db : Db) (sets : Table (List ℕ))
    → env.has_redis ≡ true
    → env.redis_up ≡ true
    → ((evaluate_transaction env tenant_id account_id amount db sets).0.blocked
        ≡ ltb velocity_limit (pipeline env.now account_id sets).0)
      × ((evaluate_transaction env tenant_id account_id amount db sets).2
          ≡ (pipeline env.now account_id sets).1)
unfolding evaluate_transaction get_account_transfer_velocity
evaluate_transaction-counts env tenant_id account_id amount db sets r u =
    (ground arith, ground arith)

-- What the security service comes to: Redis does not answer, or the attempt is logged.
enforce_transfer_velocity-cases :
    (up : Bool) (now id : ℕ) (sets : Table (List ℕ))
    → ((e : Error) × (enforce_transfer_velocity up now id sets ≡ (err e, sets)))
      ⊎ ((enforce_transfer_velocity up now id sets).1 ≡ (pipeline now id sets).1)
unfolding enforce_transfer_velocity
enforce_transfer_velocity-cases true now id sets = inr refl
enforce_transfer_velocity-cases false now id sets = inl (_, refl)

-- What a call of a sender does to both sets.
abbrev pub Moves : (now sender_id : ℕ) → World → World → Type 0
Moves now sender_id w w' =
    ((w'.risk_sets ≡ w.risk_sets)
      × ((w'.security_sets ≡ w.security_sets)
          ⊎ (w'.security_sets ≡ (pipeline now sender_id w.security_sets).1)))
    ⊎ ((w'.risk_sets ≡ (pipeline now sender_id w.risk_sets).1)
        × (w'.security_sets ≡ (pipeline now sender_id w.security_sets).1))

module _ (env : Env) (tenant_id sender_id receiver_id : ℕ) (amount : ℤ) (description : String) where
  run_transfer-sets :
      (w : World)
      → ((run_transfer env tenant_id sender_id receiver_id amount description w).1.security_sets
          ≡ w.security_sets)
        × ((run_transfer env tenant_id sender_id receiver_id amount description w).1.risk_sets
            ≡ w.risk_sets)
  run_transfer-sets w = (refl, refl)

  after_risk-sets :
      (w : World) (result : RiskEvaluationResult)
      → let w' = (after_risk env tenant_id sender_id receiver_id amount description w result).1 in
        (w'.security_sets ≡ w.security_sets) × (w'.risk_sets ≡ w.risk_sets)
  after_risk-sets w result = elim (Bool-cases result.blocked) [
    | inl e ↦ rw e (refl, refl)
    | inr e ↦ rw e (refl, refl)
  ]

  -- The risk engine leaves the sets of the security service, and counts the transfer if it is there.
  assess-sets :
      (w : World)
      → env.risk.has_redis ≡ true
      → env.risk.redis_up ≡ true
      → let w' = (assess env tenant_id sender_id receiver_id amount description w).1 in
        (w'.security_sets ≡ w.security_sets)
        × ((w'.risk_sets ≡ w.risk_sets)
            ⊎ (w'.risk_sets ≡ (pipeline env.risk.now sender_id w.risk_sets).1))
  assess-sets w r u =
      let (_, sets) =
        evaluate_transaction-counts env.risk tenant_id sender_id amount w.db w.risk_sets r u in
      let (result, db', sets') =
        evaluate_transaction env.risk tenant_id sender_id amount w.db w.risk_sets in
      let (a, b) = after_risk-sets (record w { db = db'; risk_sets = sets' }) result in
      if_both
        (λ (x : Result Receipt × World).
          (x.1.security_sets ≡ w.security_sets)
          × ((x.1.risk_sets ≡ w.risk_sets)
              ⊎ (x.1.risk_sets ≡ (pipeline env.risk.now sender_id w.risk_sets).1)))
        env.has_risk _ _ (a, inr (b ∙ sets)) (refl, inl refl)

  after_velocity-Moves :
      (w : World) (verdict : Result (Unit {0})) (sets : Table (List ℕ))
      → env.risk.has_redis ≡ true
      → env.risk.redis_up ≡ true
      → env.risk.now ≡ env.now
      → ((e : Error) × (Path
            (Result (Unit {0}) × Table (List ℕ))
            (verdict, sets)
            (err e, w.security_sets)))
        ⊎ (sets ≡ (pipeline env.now sender_id w.security_sets).1)
      → Moves env.now sender_id w
          (after_velocity env tenant_id sender_id receiver_id amount description
            (record w { security_sets = sets })
            verdict).1
  after_velocity-Moves w (err e) sets r u n (inl (_, s)) = inl (refl, inl (ap (λ x. x.1) s))
  after_velocity-Moves w (err e) sets r u n (inr s) = inl (refl, inr s)
  after_velocity-Moves w (ok _) sets r u n (inl (_, s)) = absurd (ground arith)
  after_velocity-Moves w (ok _) sets r u n (inr s) =
      let (a, b) = assess-sets (record w { security_sets = sets }) r u in
      elim b [
        | inl same ↦ inl (same, inr (a ∙ s))
        | inr more ↦ inr (more ∙ ap (λ t. (pipeline t sender_id w.risk_sets).1) n, a ∙ s)
      ]

  enforce-Moves :
      (w : World)
      → env.has_security ≡ true
      → env.risk.has_redis ≡ true
      → env.risk.redis_up ≡ true
      → env.risk.now ≡ env.now
      → Moves env.now sender_id w
          (enforce env tenant_id sender_id receiver_id amount description w).1
  enforce-Moves w c r u n =
      if_holds (λ (x : Result Receipt × World). Moves env.now sender_id w x.1) env.has_security _ _
        c
        (after_velocity-Moves w _ _ r u n
          (enforce_transfer_velocity-cases env.redis_up env.now sender_id w.security_sets))

module _ (env : Env) (sender_id receiver_id : ℕ) (amount : ℤ) (description : String) where
  pub execute_transfer-Moves :
      (tenant : Option ℕ) (w : World)
      → env.has_security ≡ true
      → env.risk.has_redis ≡ true
      → env.risk.redis_up ≡ true
      → env.risk.now ≡ env.now
      → Moves env.now sender_id w
          (execute_transfer env tenant sender_id receiver_id amount description w).1
  unfolding execute_transfer
  execute_transfer-Moves none w c r u n = inl (refl, inl refl)
  execute_transfer-Moves (some t) w c r u n =
      let P = λ (x : Result Receipt × World). Moves env.now sender_id w x.1 in
      if_both P (leb_ℤ amount (pos 0)) _ _ (inl (refl, inl refl)) (
        if_both P (sender_id == receiver_id) _ _ (inl (refl, inl refl))
          (enforce-Moves env t sender_id receiver_id amount description w c r u n))

-- ===== src/Transfer/Runs.antt =====
-- What a successful `executeTransfer` (src/transfer/transfer.service.ts) has checked and run, and which
-- part of the world a call leaves alone.
use hwala.Base.{
  ℕ, ◌≡◌, refl, ◌≢◌, String, Bool, Option, none, some, ◌==◌, arith, Option-cases, Bool-cases,
  if-true, if-false, inl, inr,
}
use hwala.Base.Int.{ℤ, pos, ◌+ℤ◌, ◌≤ℤ◌, ◌<ℤ◌, leb_ℤ}
use hwala.Base.Result.{Result, ok, err, Error}
use hwala.Base.Table.{lookup}
use hwala.Db.{Db, Account, Tenant}
use hwala.Db.Tx.{settle}
use hwala.Db.Tx.Runs.{continue-ok}
use hwala.Risk.{RiskEvaluationResult, evaluate_transaction}
use hwala.Risk.Flags.{SameButFlags, evaluate_transaction_only}
use hwala.Transfer.Fee.{total_fee}
use hwala.Transfer.Execute.{
  Env, World, Receipt, check_sender, check_receiver, revenue_account, fee_target, write_transfer,
  charged_transfer, transfer_body, run_transfer, after_risk, assess, after_velocity, enforce,
  execute_transfer,
}

pub check_sender-ok :
    (tenant_id sender_id : ℕ) (required : ℤ) (db : Db) (u : Unit {0}) (db' : Db)
    → check_sender tenant_id sender_id required db ≡ ok (u, db')
    → (a : Account) × (lookup sender_id db.accounts ≡ some a)
      × (a.tenant_id ≡ tenant_id)
      × (required ≤ℤ a.balance)
      × (db' ≡ db)
unfolding check_sender
check_sender-ok tenant_id sender_id required db u db' h =
    elim (Option-cases (lookup sender_id db.accounts)) [
      | inl e ↦ ground arith
      | inr (a, e) ↦ (a, e, ground arith, ground arith, ground arith)
    ]

pub check_receiver-ok :
    (tenant_id receiver_id : ℕ) (db : Db) (u : Unit {0}) (db' : Db)
    → check_receiver tenant_id receiver_id db ≡ ok (u, db')
    → (a : Account) × (lookup receiver_id db.accounts ≡ some a)
      × (a.tenant_id ≡ tenant_id)
      × (db' ≡ db)
unfolding check_receiver
check_receiver-ok tenant_id receiver_id db u db' h =
    elim (Option-cases (lookup receiver_id db.accounts)) [
      | inl e ↦ ground arith
      | inr (a, e) ↦ (a, e, ground arith, ground arith)
    ]

-- The stages of a transaction that has gone through: the tenant, the revenue account and the database
-- after that was prepared, and the guards.
pub record Stages (env : Env) (tenant_id sender_id receiver_id : ℕ) (amount : ℤ)
    (description : String) (db : Db) (receipt : Receipt) (db' : Db) : Type 0 where
  pub tenant : Tenant
  pub found : Option ℕ
  pub mid : Db
  pub sender : Account
  pub receiver : Account
  pub has_tenant : lookup tenant_id db.tenants ≡ some tenant
  pub prepared :
      revenue_account env.revenue_id tenant_id sender_id (total_fee tenant amount) db
      ≡ ok (found, mid)
  pub has_sender : lookup sender_id mid.accounts ≡ some sender
  pub sender_tenant : sender.tenant_id ≡ tenant_id
  pub covered : amount +ℤ total_fee tenant amount ≤ℤ sender.balance
  pub has_receiver : lookup receiver_id mid.accounts ≡ some receiver
  pub receiver_tenant : receiver.tenant_id ≡ tenant_id
  pub written :
      write_transfer env tenant_id sender_id receiver_id amount
        (total_fee tenant amount)
        (fee_target (total_fee tenant amount) found)
        description
        mid
      ≡ ok (receipt, db')

module _ (env : Env) (tenant_id sender_id receiver_id : ℕ) (amount : ℤ) (description : String)
    (receipt : Receipt) (db' : Db) where
  charged_transfer-Stages :
      (db : Db) (t : Tenant)
      → lookup tenant_id db.tenants ≡ some t
      → charged_transfer env tenant_id sender_id receiver_id amount description
          (total_fee t amount)
          db
        ≡ ok (receipt, db')
      → Stages env tenant_id sender_id receiver_id amount description db receipt db'
  unfolding charged_transfer
  charged_transfer-Stages db t e h =
      let fee = total_fee t amount in
      let (found, mid, p, h1) = continue-ok _ _ _ _ h in
      let (u2, m2, q, h2) = continue-ok _ _ _ _ h1 in
      let (a, has_a, a_tenant, cover, same2) = check_sender-ok tenant_id sender_id _ mid u2 m2 q in
      let (u3, m3, r, h3) = continue-ok _ _ _ _ h2 in
      let (b, has_b, b_tenant, same3) = check_receiver-ok tenant_id receiver_id m2 u3 m3 r in
      record {
        tenant = t;
        found = found;
        mid = mid;
        sender = a;
        receiver = b;
        has_tenant = e;
        prepared = p;
        has_sender = has_a;
        sender_tenant = a_tenant;
        covered = cover;
        has_receiver = rw same2 at has_b;
        receiver_tenant = b_tenant;
        written = rw (same3, same2) at h3;
      }

  pub transfer_body-Stages :
      (db : Db)
      → transfer_body env tenant_id sender_id receiver_id amount description db ≡ ok (receipt, db')
      → Stages env tenant_id sender_id receiver_id amount description db receipt db'
  unfolding transfer_body
  transfer_body-Stages db h = elim (Option-cases (lookup tenant_id db.tenants)) [
    | inl e ↦ cc (rw e at h)
    | inr (t, e) ↦ charged_transfer-Stages db t e (rw e at h)
  ]

-- A call that has returned: the guards on its arguments have passed, and its body has run on the
-- database that the risk check has left.
pub record Executed (env : Env) (tenant : Option ℕ) (sender_id receiver_id : ℕ) (amount : ℤ)
    (description : String) (w : World) (receipt : Receipt) (w' : World) : Type 0 where
  pub tenant_id : ℕ
  pub start : Db
  pub is_tenant : tenant ≡ some tenant_id
  pub positive : pos 0 <ℤ amount
  pub distinct_accounts : sender_id ≢ receiver_id
  pub flags_only : SameButFlags w.db start
  pub body :
      transfer_body env tenant_id sender_id receiver_id amount description start
      ≡ ok (receipt, w'.db)

pub settle-ok :
    {A : Type 0} (keeps : Error → Bool) (message : String) (db : Db) (r : Result (A × Db)) (a : A)
    (db' : Db)
    → settle keeps message db r ≡ (ok a, db')
    → r ≡ ok (a, db')
settle-ok keeps message db (ok (b, mid)) a db' h = ground arith
settle-ok keeps message db (err e) a db' h = ground arith

pub settle-err :
    {A : Type 0} (keeps : Error → Bool) (message : String) (db : Db) (r : Result (A × Db))
    (e : Error) (db' : Db)
    → settle keeps message db r ≡ (err e, db')
    → db' ≡ db
settle-err keeps message db (ok (b, mid)) e db' h = ground arith
settle-err keeps message db (err e') e db' h = ground arith

-- The stages of `executeTransfer` before its transaction.
module _ (env : Env) (tenant_id sender_id receiver_id : ℕ) (amount : ℤ) (description : String) where
  -- The transaction has run on a database that differs from `w`'s at most in its risk flags.
  abbrev pub Ran : World → Receipt → World → Type 0
  Ran w receipt w' =
      (start : Db) × SameButFlags w.db start
      × (transfer_body env tenant_id sender_id receiver_id amount description start
          ≡ ok (receipt, w'.db))

  run_transfer-body :
      (w : World) (receipt : Receipt) (w' : World)
      → run_transfer env tenant_id sender_id receiver_id amount description w ≡ (ok receipt, w')
      → transfer_body env tenant_id sender_id receiver_id amount description w.db
        ≡ ok (receipt, w'.db)
  run_transfer-body w receipt w' h = settle-ok _ _ _ _ _ _ (λ i. ((h i).0, (h i).1.db))

  after_risk-Ran :
      (w : World) (result : RiskEvaluationResult) (receipt : Receipt) (w' : World)
      → after_risk env tenant_id sender_id receiver_id amount description w result
        ≡ (ok receipt, w')
      → transfer_body env tenant_id sender_id receiver_id amount description w.db
        ≡ ok (receipt, w'.db)
  after_risk-Ran w result receipt w' h = elim (Bool-cases result.blocked) [
    | inl e ↦ ground arith
    | inr e ↦ run_transfer-body w receipt w' (rw e at h)
  ]

  assess-Ran :
      (w : World) (receipt : Receipt) (w' : World)
      → assess env tenant_id sender_id receiver_id amount description w ≡ (ok receipt, w')
      → Ran w receipt w'
  assess-Ran w receipt w' h = elim (Bool-cases env.has_risk) [
    | inl e ↦ (
      _,
      evaluate_transaction_only env.risk tenant_id sender_id amount w.db w.risk_sets,
      after_risk-Ran _ (evaluate_transaction env.risk tenant_id sender_id amount w.db w.risk_sets).0
          receipt w' (if-true _ _ _ _ e h),
    )
    | inr e ↦ (w.db, (w.db.risk_flags, refl), run_transfer-body w receipt w' (if-false _ _ _ _ e h))
  ]

  after_velocity-Ran :
      (w : World) (verdict : Result (Unit {0})) (receipt : Receipt) (w' : World)
      → after_velocity env tenant_id sender_id receiver_id amount description w verdict
        ≡ (ok receipt, w')
      → Ran w receipt w'
  after_velocity-Ran w (ok _) receipt w' h = assess-Ran w receipt w' h
  after_velocity-Ran w (err e) receipt w' h = ground arith

  enforce-Ran :
      (w : World) (receipt : Receipt) (w' : World)
      → enforce env tenant_id sender_id receiver_id amount description w ≡ (ok receipt, w')
      → Ran w receipt w'
  enforce-Ran w receipt w' h = elim (Bool-cases env.has_security) [
    | inl e ↦ after_velocity-Ran _ _ receipt w' (if-true _ _ _ _ e h)
    | inr e ↦ assess-Ran w receipt w' (if-false _ _ _ _ e h)
  ]

pub execute_transfer-Executed :
    (env : Env) (tenant : Option ℕ) (sender_id receiver_id : ℕ) (amount : ℤ) (description : String)
    (w : World) (receipt : Receipt) (w' : World)
    → execute_transfer env tenant sender_id receiver_id amount description w ≡ (ok receipt, w')
    → Executed env tenant sender_id receiver_id amount description w receipt w'
unfolding execute_transfer
execute_transfer-Executed env none s r amount description w receipt w' h = ground arith
execute_transfer-Executed env (some tenant_id) s r amount description w receipt w' h =
    elim (Bool-cases (leb_ℤ amount (pos 0))) [
      | inl e ↦ ground arith
      | inr e ↦ elim (Bool-cases (s == r)) [
        | inl e' ↦ ground arith
        | inr e' ↦
            let (start, only, ran) =
              enforce-Ran env tenant_id s r amount description w receipt w' (rw (e, e') at h) in
            record {
              tenant_id = tenant_id;
              start = start;
              is_tenant = refl;
              positive = ground arith;
              distinct_accounts = ground arith;
              flags_only = only;
              body = ran;
            }
      ]
    ]

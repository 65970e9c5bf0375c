-- ===== src/Transfer/Conserve.antt =====
-- What `executeTransfer` (src/transfer/transfer.service.ts) does to the money and to the ledger.
use hwala.Base.{ℕ, ◌≡◌, refl, ap, ◌∙◌, String, Option, none, some, List}
use hwala.Base.Int.{ℤ, pos, ◌+ℤ◌, ◌-ℤ◌, int_laws}
use hwala.Base.Result.{Result, ok, err}
use hwala.Db.{Db, LedgerEntry}
use hwala.Db.Measure.{Measure, money, tenant_ledger, sum_for, sum_of_tenant, drift, at_laws}
use hwala.Db.Measure.Instances.{money_measure, tenant_measure, drift_measure}
use hwala.Transfer.Execute.{Env, World, Receipt, ledger_entries, execute_transfer}
use hwala.Transfer.Effects.{balance_delta}
use hwala.Transfer.Summary.{execute_transfer-Done}
use hwala.Transfer.Failed.{execute_transfer_atomic}

add_zero : (a : ℤ) → a +ℤ pos 0 ≡ a
add_zero a = omega int_laws

-- A measure to which a successful transfer adds nothing is unchanged by every call.
module _ {μ : Db → ℤ} {delta : ℕ → ℤ → ℤ → ℤ} {posted : List LedgerEntry → ℤ}
    (M : Measure μ delta posted) where
  unchanged :
      (env : Env) (tenant : Option ℕ) (s r : ℕ) (amount : ℤ) (description : String) (w : World)
      → ((tenant_id : ℕ) (fee : ℤ) (revenue : Option ℕ)
          → (revenue ≡ none → fee ≡ pos 0)
          → balance_delta M s r amount fee revenue
              +ℤ posted (ledger_entries env tenant_id s r amount fee revenue description)
            ≡ pos 0)
      → (res : Result Receipt × World) → execute_transfer env tenant s r amount description w ≡ res
      → μ res.1.db ≡ μ w.db
  unchanged env tenant s r amount description w nothing (ok receipt, w') h =
      let (tenant_id, fee, paid, done) =
        execute_transfer-Done env tenant s r amount description w receipt w' h in
      done.adds M
      ∙ ap (λ t. μ w.db +ℤ t) (nothing tenant_id fee done.revenue done.no_fee)
      ∙ add_zero (μ w.db)
  unchanged env tenant s r amount description w nothing (err e, w') h =
      let (t, same) = execute_transfer_atomic env tenant s r amount description w e w' h in
      ap μ same ∙ M.on_flags t w.db

money_nothing :
    (amount fee : ℤ) (s r : ℕ) (revenue : Option ℕ)
    → (revenue ≡ none → fee ≡ pos 0)
    → balance_delta money_measure s r amount fee revenue +ℤ pos 0 ≡ pos 0
money_nothing amount fee s r none e = rw (e refl) (omega int_laws)
money_nothing amount fee s r (some id) e = omega int_laws

-- A transfer, whether it returns or throws, changes no money in total: what the sender pays is what
-- the receiver and the platform get.
pub execute_transfer-money :
    (env : Env) (tenant : Option ℕ) (s r : ℕ) (amount : ℤ) (description : String) (w : World)
    → money (execute_transfer env tenant s r amount description w).1.db ≡ money w.db
execute_transfer-money env tenant s r amount description w =
    unchanged money_measure env tenant s r amount description w
      (λ tenant_id fee revenue e. money_nothing amount fee s r revenue e) _ refl

entries_balance :
    (k : ℕ) (env : Env) (tenant_id s r : ℕ) (amount fee : ℤ) (revenue : Option ℕ)
    (description : String)
    → sum_of_tenant k (ledger_entries env tenant_id s r amount fee revenue description) ≡ pos 0
unfolding sum_of_tenant ledger_entries
entries_balance k env tenant_id s r amount fee none description = grind int_laws
entries_balance k env tenant_id s r amount fee (some id) description = grind int_laws

zero_delta :
    (k s r : ℕ) (amount fee : ℤ) (revenue : Option ℕ)
    → balance_delta (tenant_measure k) s r amount fee revenue ≡ pos 0
zero_delta k s r amount fee none = omega int_laws
zero_delta k s r amount fee (some id) = omega int_laws

-- Double entry: a transfer, whether it returns or throws, leaves the sum of all ledger entries of
-- every tenant as it was.
pub execute_transfer-ledger :
    (env : Env) (tenant : Option ℕ) (s r : ℕ) (amount : ℤ) (description : String) (w : World)
    (k : ℕ)
    → tenant_ledger k (execute_transfer env tenant s r amount description w).1.db
      ≡ tenant_ledger k w.db
execute_transfer-ledger env tenant s r amount description w k =
    unchanged (tenant_measure k) env tenant s r amount description w
      (λ tenant_id fee revenue e.
        rw
          (
            zero_delta k s r amount fee revenue,
            entries_balance k env tenant_id s r amount fee revenue description,
          )
          (omega int_laws))
      _ refl

drift_nothing :
    (k : ℕ) (env : Env) (tenant_id s r : ℕ) (amount fee : ℤ) (revenue : Option ℕ)
    (description : String)
    → (revenue ≡ none → fee ≡ pos 0)
    → balance_delta (drift_measure k) s r amount fee revenue
        +ℤ (pos 0
            +ℤ pos 0
            -ℤ sum_for k (ledger_entries env tenant_id s r amount fee revenue description))
      ≡ pos 0
unfolding sum_for ledger_entries
drift_nothing k env tenant_id s r amount fee none description e =
    rw (e refl) (simp at_laws (omega int_laws))
drift_nothing k env tenant_id s r amount fee (some id) description e = simp at_laws (omega int_laws)

-- The books of every account move with its money: a transfer of a whole number of cents, whether it returns or throws, leaves
-- the difference between the money of an account and the sum of its ledger entries as it was.
pub execute_transfer-drift :
    (env : Env) (tenant : Option ℕ) (s r : ℕ) (amount : ℤ) (description : String) (w : World)
    (k : ℕ)
    → drift k (execute_transfer env tenant s r amount description w).1.db ≡ drift k w.db
execute_transfer-drift env tenant s r amount description w k =
    unchanged (drift_measure k) env tenant s r amount description w
      (λ tenant_id fee revenue e.
        drift_nothing k env tenant_id s r amount fee revenue description e)
      _ refl

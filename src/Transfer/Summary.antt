-- ===== src/Transfer/Summary.antt =====
-- A successful `executeTransfer` (src/transfer/transfer.service.ts) in one equation for every measure.
use hwala.Base.{ℕ, ◌≡◌, ◌∙◌, ap, String, Option, none, List, arith, Bool-cases, inl, inr}
use hwala.Base.Int.{ℤ, pos, ◌+ℤ◌, ◌≤ℤ◌, ltb_ℤ, int_laws}
use hwala.Base.Result.{ok}
use hwala.Db.{Db, Tenant, LedgerEntry}
use hwala.Db.Measure.{Measure, balance_of, balance_of-some}
use hwala.Db.Measure.Instances.{balance_measure}
use hwala.Risk.Flags.{SameButFlags}
use hwala.Transfer.Fee.{total_fee}
use hwala.Transfer.Execute.{
  Env, World, Receipt, revenue_account, fee_target, ledger_entries, write_transfer,
  execute_transfer,
}
use hwala.Transfer.Runs.{Stages, transfer_body-Stages, execute_transfer-Executed}
use hwala.Transfer.Effects.{balance_delta, revenue_account-Shifts, write_transfer-Shifts}

-- The fee is never negative.
pub total_fee_nonneg : (t : Tenant) (amount : ℤ) → pos 0 ≤ℤ total_fee t amount
unfolding total_fee
total_fee_nonneg t amount = ground arith

-- The receipt tells the transaction and the fee.
write_transfer-receipt :
    (env : Env) (tenant_id s r : ℕ) (amount fee : ℤ) (revenue : Option ℕ) (description : String)
    (db : Db) (receipt : Receipt) (db' : Db)
    → write_transfer env tenant_id s r amount fee revenue description db ≡ ok (receipt, db')
    → receipt.fee ≡ fee
unfolding write_transfer
write_transfer-receipt env tenant_id s r amount fee revenue description db receipt db' h =
    ground arith

-- Without a revenue account there is no fee.
pub fee_target-none :
    (new_id tenant_id sender_id : ℕ) (fee : ℤ) (db : Db) (found : Option ℕ) (mid : Db)
    → pos 0 ≤ℤ fee
    → revenue_account new_id tenant_id sender_id fee db ≡ ok (found, mid)
    → fee_target fee found ≡ none
    → fee ≡ pos 0
unfolding revenue_account
fee_target-none new_id tenant_id sender_id fee db found mid nonneg h e =
    elim (Bool-cases (ltb_ℤ (pos 0) fee)) [ inl p ↦ ground arith | inr p ↦ ground arith ]

-- What a transfer has done, as far as measures see it.
pub record Done (env : Env) (tenant_id s r : ℕ) (amount : ℤ) (description : String) (db : Db)
    (fee : ℤ) (db' : Db) : Type 0 where
  pub revenue : Option ℕ
  pub fee_nonneg : pos 0 ≤ℤ fee
  pub covered : amount +ℤ fee ≤ℤ balance_of s db
  pub no_fee : revenue ≡ none → fee ≡ pos 0
  pub adds :
      {μ : Db → ℤ} {delta : ℕ → ℤ → ℤ → ℤ} {posted : List LedgerEntry → ℤ}
      (M : Measure μ delta posted)
      → μ db'
        ≡ μ db
          +ℤ (balance_delta M s r amount fee revenue
              +ℤ posted (ledger_entries env tenant_id s r amount fee revenue description))

add_zero : (a : ℤ) → a +ℤ pos 0 ≡ a
add_zero a = omega int_laws

Stages-Done :
    {env : Env} {tenant_id s r : ℕ} {amount : ℤ} {description : String} {start : Db}
    {receipt : Receipt} {db' : Db} (db : Db)
    → SameButFlags db start
    → Stages env tenant_id s r amount description start receipt db'
    → (fee : ℤ) × (receipt.fee ≡ fee) × Done env tenant_id s r amount description db fee db'
Stages-Done {env} {tenant_id} {s} {r} {amount} {description} {start} {receipt} {db'} db (t, same)
      st =
    let fee = total_fee st.tenant amount in
    let revenue = fee_target fee st.found in
    let sender_covered : amount +ℤ fee ≤ℤ balance_of s st.mid =
      rw (balance_of-some s st.sender st.mid st.has_sender) st.covered in
    let same_balance : balance_of s st.mid ≡ balance_of s db =
      revenue_account-Shifts (balance_measure s) env.revenue_id tenant_id s fee start st.found
        st.mid st.prepared
      ∙ add_zero (balance_of s start)
      ∙ ap (balance_of s) same
      ∙ (balance_measure s).on_flags t db in
    (
      fee,
      write_transfer-receipt env tenant_id s r amount fee revenue description st.mid receipt db'
          st.written,
      record {
        revenue = revenue;
        fee_nonneg = total_fee_nonneg st.tenant amount;
        covered = rw (← same_balance) sender_covered;
        no_fee =
            fee_target-none env.revenue_id tenant_id s fee start st.found st.mid
              (total_fee_nonneg st.tenant amount) st.prepared;
        adds = λ {μ} {delta} {posted} M.
            write_transfer-Shifts M env tenant_id s r amount fee revenue description st.mid receipt
              db' st.written
            ∙ ap
                (λ t.
                  t
                  +ℤ (balance_delta M s r amount fee revenue
                      +ℤ posted (ledger_entries env tenant_id s r amount fee revenue description)))
                (revenue_account-Shifts M env.revenue_id tenant_id s fee start st.found st.mid
                    st.prepared
                  ∙ add_zero (μ start)
                  ∙ ap μ same
                  ∙ M.on_flags t db);
      },
    )

-- Every successful call is such a transfer, with the fee that the receipt tells.
pub execute_transfer-Done :
    (env : Env) (tenant : Option ℕ) (s r : ℕ) (amount : ℤ) (description : String) (w : World)
    (receipt : Receipt) (w' : World)
    → execute_transfer env tenant s r amount description w ≡ (ok receipt, w')
    → (tenant_id : ℕ) × (fee : ℤ) × (receipt.fee ≡ fee)
      × Done env tenant_id s r amount description w.db fee w'.db
execute_transfer-Done env tenant s r amount description w receipt w' h =
    let x = execute_transfer-Executed env tenant s r amount description w receipt w' h in
    let (fee, paid, done) =
      Stages-Done w.db x.flags_only (
        transfer_body-Stages env x.tenant_id s r amount description receipt w'.db x.start x.body) in
    (x.tenant_id, fee, paid, done)

-- ===== src/Transfer/Effects.antt =====
-- What the writes of `executeTransfer` (src/transfer/transfer.service.ts) add to a measure of the database.
use hwala.Base.{
  ℕ, ◌≡◌, refl, ◌∙◌, String, Option, none, some, List, Bool-cases, Option-cases, inl, inr,
}
use hwala.Base.Int.{ℤ, pos, ◌+ℤ◌, neg, ltb_ℤ, int_laws}
use hwala.Base.Table.{lookup}
use hwala.Db.{Db, LedgerEntry}
use hwala.Db.Tx.{pure, account_update, account_create, ledger_create, outbox_create}
use hwala.Db.Measure.{Shifts, Measure}
use hwala.Db.Measure.Rules.{Shifts-bind, Shifts-pure, Shifts-cast}
use hwala.Transfer.Execute.{
  Env, find_revenue, prepare_revenue, revenue_account, revenue_row, credit_fee, update_balances,
  ledger_entries, write_transfer,
}

add_zeros : (a : ℤ) → a +ℤ (pos 0 +ℤ pos 0) ≡ a +ℤ pos 0
add_zeros a = omega int_laws

module _ {μ : Db → ℤ} {delta : ℕ → ℤ → ℤ → ℤ} {posted : List LedgerEntry → ℤ}
    (M : Measure μ delta posted) where
  prepare_revenue-Shifts :
      (new_id tenant_id sender_id : ℕ) (found : Option ℕ)
      → Shifts μ (prepare_revenue new_id tenant_id sender_id found) (pos 0)
  unfolding prepare_revenue
  prepare_revenue-Shifts new_id tenant_id sender_id (some id) db r db' h =
      Shifts-pure μ id db r db' h
  prepare_revenue-Shifts new_id tenant_id sender_id none db id db' h =
      elim (Option-cases (lookup sender_id db.accounts)) [
        | inl e ↦ cc (rw e at h)
        | inr (a, e) ↦
            Shifts-bind μ (account_create new_id (revenue_row tenant_id a)) (λ _. pure new_id)
              (pos 0) (pos 0) (M.on_create new_id (revenue_row tenant_id a) refl refl)
              (λ _. Shifts-pure μ new_id) db id db' (rw e at h)
            ∙ add_zeros (μ db)
      ]

  -- The search for the revenue account, and its creation, move no money.
  pub revenue_account-Shifts :
      (new_id tenant_id sender_id : ℕ) (fee : ℤ)
      → Shifts μ (revenue_account new_id tenant_id sender_id fee) (pos 0)
  unfolding revenue_account
  revenue_account-Shifts new_id tenant_id sender_id fee db r db' h =
      elim (Bool-cases (ltb_ℤ (pos 0) fee)) [
        | inl e ↦
            Shifts-bind μ
              (prepare_revenue new_id tenant_id sender_id (find_revenue tenant_id db.accounts))
              (λ id. pure (some id)) (pos 0) (pos 0)
              (prepare_revenue-Shifts new_id tenant_id sender_id
                (find_revenue tenant_id db.accounts))
              (λ id. Shifts-pure μ (some id)) db r db' (rw e at h)
            ∙ add_zeros (μ db)
        | inr e ↦ Shifts-pure μ none db r db' (rw e at h)
      ]

  abbrev pub fee_delta : ℤ → Option ℕ → ℤ
  fee_delta fee none = pos 0
  fee_delta fee (some id) = delta id fee (pos 0)

  credit_fee-Shifts :
      (fee : ℤ) (revenue : Option ℕ) → Shifts μ (credit_fee fee revenue) (fee_delta fee revenue)
  credit_fee-Shifts fee none = Shifts-pure μ tt
  credit_fee-Shifts fee (some id) = M.on_update id fee (pos 0)

  -- The balances: the sender pays amount and fee, the receiver and the revenue account get them.
  abbrev pub balance_delta : ℕ → ℕ → ℤ → ℤ → Option ℕ → ℤ
  balance_delta sender_id receiver_id amount fee revenue =
      delta sender_id (neg (amount +ℤ fee)) (pos 0)
      +ℤ (delta receiver_id amount (pos 0) +ℤ fee_delta fee revenue)

  update_balances-Shifts :
      (sender_id receiver_id : ℕ) (amount fee : ℤ) (revenue : Option ℕ)
      → Shifts μ
          (update_balances sender_id receiver_id amount fee revenue)
          (balance_delta sender_id receiver_id amount fee revenue)
  unfolding update_balances
  update_balances-Shifts s r amount fee revenue =
      Shifts-bind μ (account_update s (neg (amount +ℤ fee)) (pos 0)) _ _ _
        (M.on_update s (neg (amount +ℤ fee)) (pos 0))
        (λ _.
          Shifts-bind μ (account_update r amount (pos 0)) _ _ _ (M.on_update r amount (pos 0))
            (λ _. credit_fee-Shifts fee revenue))

  pub write_transfer-Shifts :
      (env : Env) (tenant_id sender_id receiver_id : ℕ) (amount fee : ℤ) (revenue : Option ℕ)
      (description : String)
      → Shifts μ
          (write_transfer env tenant_id sender_id receiver_id amount fee revenue description)
          (balance_delta sender_id receiver_id amount fee revenue
            +ℤ posted
                (ledger_entries env tenant_id sender_id receiver_id amount fee revenue description))
  unfolding write_transfer
  write_transfer-Shifts env t s r amount fee revenue description =
      Shifts-cast μ (write_transfer env t s r amount fee revenue description) _ _ (omega int_laws) (
        Shifts-bind μ (update_balances s r amount fee revenue) _ _ (posted _ +ℤ (pos 0 +ℤ pos 0))
          (update_balances-Shifts s r amount fee revenue)
          (λ _.
            Shifts-bind μ (ledger_create _) _ _ (pos 0 +ℤ pos 0)
              (M.on_ledger (ledger_entries env t s r amount fee revenue description))
              (λ _.
                Shifts-bind μ (outbox_create env.outbox_id _) _ _ (pos 0)
                  (M.on_outbox env.outbox_id _) (λ _. Shifts-pure μ _))))

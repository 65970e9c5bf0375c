-- ===== src/Transfer/Balances.antt =====
-- What `executeTransfer` (src/transfer/transfer.service.ts) does to the two amounts of every account.
use hwala.Base.{ℕ, ◌≡◌, ◌≢◌, ◌⊎◌, inl, inr, arith, refl, ap, ◌∙◌, String, Option, none, some}
use hwala.Base.Int.{ℤ, pos, ◌+ℤ◌, ◌-ℤ◌, ◌≤ℤ◌, int_laws}
use hwala.Base.Result.{Result, ok, err}
use hwala.Db.{Db}
use hwala.Db.Measure.{balance_of, hold_of, at, at_laws}
use hwala.Db.Measure.Instances.{balance_measure, hold_measure}
use hwala.Transfer.Execute.{Env, World, Receipt, execute_transfer}
use hwala.Transfer.Effects.{balance_delta}
use hwala.Transfer.Runs.{execute_transfer-Executed}
use hwala.Transfer.Summary.{execute_transfer-Done}
use hwala.Transfer.Failed.{execute_transfer_atomic}

-- The credit of the fee at account `k`.
abbrev pub fee_credit : ℕ → Option ℕ → ℤ → ℤ
fee_credit k none fee = pos 0
fee_credit k (some id) fee = at k id fee

balance_moves :
    (k s r : ℕ) (amount fee : ℤ) (revenue : Option ℕ) (old : ℤ)
    → old +ℤ (balance_delta (balance_measure k) s r amount fee revenue +ℤ pos 0)
      ≡ old -ℤ at k s (amount +ℤ fee) +ℤ at k r amount +ℤ fee_credit k revenue fee
balance_moves k s r amount fee none old = simp at_laws (omega int_laws)
balance_moves k s r amount fee (some id) old = simp at_laws (omega int_laws)

hold_stays :
    (k s r : ℕ) (amount fee : ℤ) (revenue : Option ℕ) (old : ℤ)
    → old +ℤ (balance_delta (hold_measure k) s r amount fee revenue +ℤ pos 0) ≡ old
hold_stays k s r amount fee none old = simp at_laws (omega int_laws)
hold_stays k s r amount fee (some id) old = simp at_laws (omega int_laws)

charged_or_free :
    (revenue : Option ℕ) {fee : ℤ}
    → (revenue ≡ none → fee ≡ pos 0)
    → (revenue ≢ none) ⊎ (fee ≡ pos 0)
charged_or_free none h = inr (h refl)
charged_or_free (some id) h = inl (λ e. ground arith)

-- A successful transfer of a whole number of cents takes the amount and the fee from the sender, who had as much available,
-- gives the amount to the receiver and the fee to one revenue account, and touches no other balance
-- and no held balance. Without a revenue account the fee is zero.
pub execute_transfer-balances :
    (env : Env) (tenant : Option ℕ) (s r : ℕ) (amount : ℤ) (description : String) (w : World)
    (receipt : Receipt) (w' : World)
    → execute_transfer env tenant s r amount description w ≡ (ok receipt, w')
    → (revenue : Option ℕ) × ((revenue ≢ none) ⊎ (receipt.fee ≡ pos 0))
      × (amount +ℤ receipt.fee ≤ℤ balance_of s w.db)
      × (pos 0 ≤ℤ receipt.fee)
      × ((k : ℕ)
          → (balance_of k w'.db
              ≡ balance_of k w.db
                -ℤ at k s (amount +ℤ receipt.fee)
                +ℤ at k r amount
                +ℤ fee_credit k revenue receipt.fee)
            × (hold_of k w'.db ≡ hold_of k w.db))
execute_transfer-balances env tenant s r amount description w receipt w' h =
    let (tenant_id, fee, paid, done) =
      execute_transfer-Done env tenant s r amount description w receipt w' h in
    rw paid (
      done.revenue,
      charged_or_free done.revenue done.no_fee,
      done.covered,
      done.fee_nonneg,
      λ k. (
        done.adds (balance_measure k)
            ∙ balance_moves k s r amount fee done.revenue (balance_of k w.db),
        done.adds (hold_measure k) ∙ hold_stays k s r amount fee done.revenue (hold_of k w.db),
      ),
    )

-- No account is overdrawn, neither in its available nor in its held balance.
abbrev pub NonNeg : Db → Type 0
NonNeg db = (k : ℕ) → (pos 0 ≤ℤ balance_of k db) × (pos 0 ≤ℤ hold_of k db)

still_nonneg :
    (k s r : ℕ) (amount fee : ℤ) (revenue : Option ℕ) (db : Db)
    → pos 0 ≤ℤ amount
    → pos 0 ≤ℤ fee
    → amount +ℤ fee ≤ℤ balance_of s db
    → pos 0 ≤ℤ balance_of k db
    → pos 0
      ≤ℤ balance_of k db -ℤ at k s (amount +ℤ fee) +ℤ at k r amount +ℤ fee_credit k revenue fee
unfolding at
still_nonneg k s r amount fee none db p q c h = grind int_laws
still_nonneg k s r amount fee (some id) db p q c h = grind int_laws

after-NonNeg :
    (env : Env) (tenant : Option ℕ) (s r : ℕ) (amount : ℤ) (description : String) (w : World)
    → NonNeg w.db
    → (res : Result Receipt × World) → execute_transfer env tenant s r amount description w ≡ res
    → NonNeg res.1.db
after-NonNeg env tenant s r amount description w valid (ok receipt, w') h k =
    let x = execute_transfer-Executed env tenant s r amount description w receipt w' h in
    let (revenue, _, covered, fee_nonneg, moves) =
      execute_transfer-balances env tenant s r amount description w receipt w' h in
    (
      rw ((moves k).0) (
          still_nonneg k s r amount receipt.fee revenue w.db (omega (int_laws, x.positive))
            fee_nonneg covered (valid k).0),
      rw ((moves k).1) ((valid k).1),
    )
after-NonNeg env tenant s r amount description w valid (err e, w') h k =
    let (t, same) = execute_transfer_atomic env tenant s r amount description w e w' h in
    (
      rw (ap (balance_of k) same ∙ (balance_measure k).on_flags t w.db) ((valid k).0),
      rw (ap (hold_of k) same ∙ (hold_measure k).on_flags t w.db) ((valid k).1),
    )

-- A transfer, whether it returns or throws, overdraws no account.
pub execute_transfer-NonNeg :
    (env : Env) (tenant : Option ℕ) (s r : ℕ) (amount : ℤ) (description : String) (w : World)
    → NonNeg w.db
    → NonNeg (execute_transfer env tenant s r amount description w).1.db
execute_transfer-NonNeg env tenant s r amount description w valid =
    after-NonNeg env tenant s r amount description w valid _ refl

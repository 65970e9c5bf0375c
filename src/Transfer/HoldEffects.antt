-- ===== src/Transfer/HoldEffects.antt =====
-- What the writes of `holdFunds`, `releaseHold` and `captureHold` (src/transfer/transfer.service.ts) add to a
-- measure of the database.
use hwala.Base.{ℕ, String, List, [], ◌∷◌, if◌then◌else◌, Bool-cases, inl, inr}
use hwala.Base.Int.{ℤ, pos, ◌+ℤ◌, neg, ltb_ℤ, int_laws}
use hwala.Db.{Db, LedgerEntry, LedgerEntryType}
use hwala.Db.Tx.{Tx, ◌>>◌, account_update, ledger_create, outbox_create}
use hwala.Db.Measure.{Shifts, Measure}
use hwala.Db.Measure.Rules.{Shifts-bind, Shifts-pure, Shifts-cast}
use hwala.Transfer.Execute.{Env, or_text, entry}
use hwala.Transfer.Hold.{write_hold, write_release}
use hwala.Transfer.Capture.{release_remainder, capture_entries, write_capture}

-- The writes of the three operations in a measure.
module _ {μ : Db → ℤ} {delta : ℕ → ℤ → ℤ → ℤ} {posted : List LedgerEntry → ℤ}
    (M : Measure μ delta posted) (env : Env) (tenant_id : ℕ) where
  -- An update, its ledger entries and its event.
  update_and_post :
      {A : Type 0} (id : ℕ) (x y : ℤ) (es : List LedgerEntry) (rest : Tx A)
      → Shifts μ rest (pos 0)
      → Shifts μ (account_update id x y >> (ledger_create es >> rest)) (delta id x y +ℤ posted es)
  update_and_post id x y es rest h =
      Shifts-cast μ (account_update id x y >> (ledger_create es >> rest))
        (delta id x y +ℤ (posted es +ℤ pos 0)) (delta id x y +ℤ posted es) (omega int_laws)
        (Shifts-bind μ (account_update id x y) (λ _. ledger_create es >> rest) _ _
          (M.on_update id x y)
          (λ _. Shifts-bind μ (ledger_create es) (λ _. rest) _ _ (M.on_ledger es) (λ _. h)))

  pub write_hold-Shifts :
      (account_id : ℕ) (amount : ℤ) (description : String)
      → Shifts μ (write_hold env tenant_id account_id amount description) (
          delta account_id (neg amount) amount
          +ℤ posted (
              entry env tenant_id account_id
                (neg amount)
                (pos 0)
                LedgerEntryType.hold
                (or_text description "Funds held")
              ∷ []))
  unfolding write_hold
  write_hold-Shifts account_id amount description =
      update_and_post account_id (neg amount) amount _ _ (
        Shifts-cast μ _ _ _ (omega int_laws) (
          Shifts-bind μ (outbox_create env.outbox_id _) _ _ (pos 0) (M.on_outbox env.outbox_id _)
            (λ _. Shifts-pure μ _)))

  pub write_release-Shifts :
      (hold_id account_id : ℕ) (amount : ℤ) (description : String)
      → Shifts μ (write_release env tenant_id hold_id account_id amount description) (
          delta account_id amount (neg amount)
          +ℤ posted (
              entry env tenant_id account_id amount
                (pos 0)
                LedgerEntryType.release
                (or_text description "Release of hold")
              ∷ []))
  unfolding write_release
  write_release-Shifts hold_id account_id amount description =
      update_and_post account_id amount (neg amount) _ _ (
        Shifts-cast μ _ _ _ (omega int_laws) (
          Shifts-bind μ (outbox_create env.outbox_id _) _ _ (pos 0) (M.on_outbox env.outbox_id _)
            (λ _. Shifts-pure μ _)))

  -- The remainder goes from the held to the available balance, with an entry of its own.
  abbrev pub remainder_delta : ℕ → ℤ → ℤ
  remainder_delta sender_id remainder =
      if ltb_ℤ (pos 0) remainder
      then delta sender_id remainder (neg remainder)
        +ℤ posted (
            entry env tenant_id sender_id remainder (pos 0) LedgerEntryType.release
              "Partial hold release"
            ∷ [])
      else pos 0

  release_remainder-Shifts :
      (sender_id : ℕ) (remainder : ℤ)
      → Shifts μ
          (release_remainder env tenant_id sender_id remainder)
          (remainder_delta sender_id remainder)
  unfolding release_remainder
  release_remainder-Shifts sender_id remainder db u db' h =
      elim (Bool-cases (ltb_ℤ (pos 0) remainder)) [
        | inl e ↦ rw e (
            Shifts-bind μ (account_update sender_id remainder (neg remainder)) _ _ _
              (M.on_update sender_id remainder (neg remainder)) (λ _. M.on_ledger _) db u db'
              (rw e at h))
        | inr e ↦ rw e (Shifts-pure μ tt db u db' (rw e at h))
      ]

  pub write_capture-Shifts :
      (hold_id sender_id receiver_id : ℕ) (amount remainder : ℤ) (description : String)
      → Shifts μ
          (write_capture env tenant_id hold_id sender_id receiver_id amount remainder description)
          (delta sender_id (pos 0) (neg amount)
            +ℤ (delta receiver_id amount (pos 0)
                +ℤ (remainder_delta sender_id remainder
                    +ℤ posted
                        (capture_entries env tenant_id sender_id receiver_id amount description))))
  unfolding write_capture
  write_capture-Shifts hold_id s r amount remainder description =
      Shifts-bind μ (account_update s (pos 0) (neg amount)) _ _ _
        (M.on_update s (pos 0) (neg amount))
        (λ _.
          Shifts-bind μ (account_update r amount (pos 0)) _ _ _ (M.on_update r amount (pos 0)) (λ _.
            Shifts-bind μ (release_remainder env tenant_id s remainder) _ _ _
              (release_remainder-Shifts s remainder)
              (λ _. Shifts-cast μ _ _ _ (omega int_laws) (
                Shifts-bind μ (ledger_create _) _ _ (pos 0 +ℤ pos 0)
                  (M.on_ledger (capture_entries env tenant_id s r amount description))
                  (λ _.
                    Shifts-bind μ (outbox_create env.outbox_id _) _ _ (pos 0)
                      (M.on_outbox env.outbox_id _) (λ _. Shifts-pure μ _))))))

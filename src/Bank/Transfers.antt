-- ===== src/Bank/Transfers.antt =====
-- `executeTransfer` of src/transfer/transfer.service.ts acts for its tenant alone.
use hwala.Base.{
  ℕ, ◌≡◌, refl, String, Option, none, some, [], ◌∷◌, ◌==◌, ◌&&◌, arith, All, Bool-cases,
  Option-cases, inl, inr,
}
use hwala.Base.Int.{ℤ, pos, ◌+ℤ◌, neg, ltb_ℤ}
use hwala.Base.Result.{Result, ok, err}
use hwala.Base.Keys.{HasKeys}
use hwala.Base.Table.{Table, lookup}
use hwala.Db.{Db, Account, is_revenue}
use hwala.Db.Tx.{account_create}
use hwala.Db.Tx.Runs.{continue-ok, continue-pure-ok}
use hwala.Transfer.Execute.{
  Env, World, Receipt, find_revenue, prepare_revenue, revenue_account, revenue_row, fee_target,
  credit_fee, update_balances, ledger_entries, write_transfer, execute_transfer,
}
use hwala.Transfer.Runs.{Stages, transfer_body-Stages, execute_transfer-Executed}
use hwala.Transfer.Fee.{total_fee}
use hwala.Transfer.Failed.{execute_transfer_atomic}
use hwala.Bank.View.{owner, IsSound}
use hwala.Bank.Tenant.{
  By, By-refl, By-trans, flags-By, account_update-By, account_create-By, ledger_create-By,
  outbox_create-By, Mine,
}

pub owner-some :
    (k s : ℕ) (a : Account) (db : Db)
    → lookup k db.accounts ≡ some a
    → a.tenant_id ≡ s
    → owner k db ≡ some s
unfolding owner
owner-some k s a db e h = ground arith

-- The revenue account that is found belongs to the tenant.
find_revenue-owner :
    (t id : ℕ) (rows : Table Account)
    → HasKeys rows
    → find_revenue t rows ≡ some id
    → (a : Account) × (lookup id rows ≡ some a) × (a.tenant_id ≡ t)
unfolding find_revenue lookup
find_revenue-owner t id [] k h = cc
find_revenue-owner t id ((j, a) ∷ rows) k h =
    elim (Bool-cases (a.tenant_id == t && is_revenue a.type)) [
      | inl e ↦ (a, ground arith, ground arith)
      | inr e ↦
          let (b, found, own) = find_revenue-owner t id rows k.1 (rw e at h) in
          (b, ground arith, own)
    ]

module _ (env : Env) (t : ℕ) where
  abbrev OwnsTarget : Option ℕ → Db → Type 0
  OwnsTarget none db = Unit
  OwnsTarget (some id) db = owner id db ≡ some t

  prepare_revenue-By :
      (sender_id : ℕ) (found : Option ℕ) (db : Db) (id : ℕ) (db' : Db)
      → OwnsTarget found db
      → prepare_revenue env.revenue_id t sender_id found db ≡ ok (id, db')
      → By t db db' × (owner id db' ≡ some t)
  unfolding prepare_revenue
  prepare_revenue-By sender_id (some r) db id db' o h =
      let same : db' ≡ db = ground arith in
      let e : id ≡ r = ground arith in rw (same, e) (By-refl t db, o)
  prepare_revenue-By sender_id none db id db' o h =
      elim (Option-cases (lookup sender_id db.accounts)) [
        | inl e ↦ cc (rw e at h)
        | inr (a, e) ↦
            let (u, p, e') =
              continue-pure-ok (account_create env.revenue_id (revenue_row t a) db)
                (λ _. env.revenue_id) id db' (rw e at h) in
            rw e' (account_create-By t env.revenue_id (revenue_row t a) db u db' refl p)
      ]

  found_target :
      (found : Option ℕ) (db : Db)
      → IsSound db
      → find_revenue t db.accounts ≡ found
      → OwnsTarget found db
  found_target none db s e = tt
  found_target (some id) db s e =
      let (a, p, own) = find_revenue-owner t id db.accounts s.keys e in owner-some id t a db p own

  -- Searching or opening the revenue account.
  revenue_account-By :
      (sender_id : ℕ) (fee : ℤ) (db : Db) (found : Option ℕ) (db' : Db)
      → IsSound db
      → revenue_account env.revenue_id t sender_id fee db ≡ ok (found, db')
      → By t db db' × OwnsTarget found db'
  unfolding revenue_account
  revenue_account-By sender_id fee db found db' s h = elim (Bool-cases (ltb_ℤ (pos 0) fee)) [
    | inl e ↦
        let (id, p, e') =
          continue-pure-ok
            (prepare_revenue env.revenue_id t sender_id (find_revenue t db.accounts) db)
            (λ id. some id) found db' (rw e at h) in
        rw e' (
          prepare_revenue-By sender_id (find_revenue t db.accounts) db id db'
            (found_target (find_revenue t db.accounts) db s refl) p)
    | inr e ↦
        let same : db' ≡ db = ground arith in
        let e' : found ≡ none = ground arith in rw (same, e') (By-refl t db, tt)
  ]

  credit_fee-By :
      (fee : ℤ) (revenue : Option ℕ) (db : Db) (u : Unit {0}) (db' : Db)
      → OwnsTarget revenue db
      → credit_fee fee revenue db ≡ ok (u, db')
      → By t db db'
  credit_fee-By fee none db u db' o h = let same : db' ≡ db = ground arith in rw same (By-refl t db)
  credit_fee-By fee (some id) db u db' o h = account_update-By t id fee (pos 0) db u db' o h

  OwnsTarget-By :
      (revenue : Option ℕ) (db db' : Db)
      → By t db db'
      → OwnsTarget revenue db
      → OwnsTarget revenue db'
  OwnsTarget-By none db db' b o = tt
  OwnsTarget-By (some id) db db' b o = b.owners id t o

  update_balances-By :
      (s r : ℕ) (amount fee : ℤ) (revenue : Option ℕ) (db : Db) (u : Unit {0}) (db' : Db)
      → owner s db ≡ some t
      → owner r db ≡ some t
      → OwnsTarget revenue db
      → update_balances s r amount fee revenue db ≡ ok (u, db')
      → By t db db'
  unfolding update_balances
  update_balances-By s r amount fee revenue db u db' os or' ov h =
      let (u1, m1, p, h1) = continue-ok _ _ _ _ h in
      let (u2, m2, q, h2) = continue-ok _ _ _ _ h1 in
      let b1 = account_update-By t s (neg (amount +ℤ fee)) (pos 0) db u1 m1 os p in
      let b2 = account_update-By t r amount (pos 0) m1 u2 m2 (b1.owners r t or') q in
      let b12 = By-trans t db m1 m2 b1 b2 in
      By-trans t db m2 db' b12
        (credit_fee-By fee revenue m2 u db' (OwnsTarget-By revenue db m2 b12 ov) h2)

  ledger_entries-Mine :
      (s r : ℕ) (amount fee : ℤ) (revenue : Option ℕ) (description : String) (db : Db)
      → owner s db ≡ some t
      → owner r db ≡ some t
      → OwnsTarget revenue db
      → All (Mine t db) (ledger_entries env t s r amount fee revenue description)
  unfolding ledger_entries
  ledger_entries-Mine s r amount fee none description db os or' ov = ((refl, os), ((refl, or'), tt))
  ledger_entries-Mine s r amount fee (some id) description db os or' ov =
      ((refl, os), ((refl, or'), ((refl, os), ((refl, ov), tt))))

  write_transfer-By :
      (s r : ℕ) (amount fee : ℤ) (revenue : Option ℕ) (description : String) (db : Db)
      (receipt : Receipt) (db' : Db)
      → owner s db ≡ some t
      → owner r db ≡ some t
      → OwnsTarget revenue db
      → write_transfer env t s r amount fee revenue description db ≡ ok (receipt, db')
      → By t db db'
  unfolding write_transfer
  write_transfer-By s r amount fee revenue description db receipt db' os or' ov h =
      let (u1, m1, p, h1) = continue-ok _ _ _ _ h in
      let (u2, m2, q, h2) = continue-ok _ _ _ _ h1 in
      let (u3, m3, w, h3) = continue-ok _ _ _ _ h2 in
      let same : db' ≡ m3 = ground arith in
      let b1 = update_balances-By s r amount fee revenue db u1 m1 os or' ov p in
      let b2 =
        ledger_create-By t (ledger_entries env t s r amount fee revenue description) m1 u2 m2
          (ledger_entries-Mine s r amount fee revenue description m1 (b1.owners s t os)
            (b1.owners r t or') (OwnsTarget-By revenue db m1 b1 ov))
          q in
      let b3 = outbox_create-By t env.outbox_id _ m2 u3 m3 refl w in
      rw same (By-trans t db m2 m3 (By-trans t db m1 m2 b1 b2) b3)

  fee_target-Owns :
      (fee : ℤ) (found : Option ℕ) (db : Db)
      → OwnsTarget found db
      → OwnsTarget (fee_target fee found) db
  fee_target-Owns fee found db o = elim (Bool-cases (ltb_ℤ (pos 0) fee)) [
    | inl e ↦ rw e o
    | inr e ↦ rw e tt
  ]

  Stages-By :
      (s r : ℕ) (amount : ℤ) (description : String) (db : Db) (receipt : Receipt) (db' : Db)
      → IsSound db
      → Stages env t s r amount description db receipt db'
      → By t db db'
  Stages-By s r amount description db receipt db' sound st =
      let fee = total_fee st.tenant amount in
      let (b, o) = revenue_account-By s fee db st.found st.mid sound st.prepared in
      By-trans t db st.mid db' b (
        write_transfer-By s r amount fee (fee_target fee st.found) description st.mid receipt db'
          (owner-some s t st.sender st.mid st.has_sender st.sender_tenant)
          (owner-some r t st.receiver st.mid st.has_receiver st.receiver_tenant)
          (fee_target-Owns fee st.found st.mid o) st.written)

  transferred :
      (s r : ℕ) (amount : ℤ) (description : String) (w : World) (res : Result Receipt × World)
      → IsSound w.db
      → execute_transfer env (some t) s r amount description w ≡ res
      → By t w.db res.1.db
  transferred s r amount description w (ok receipt, w') sound h =
      let x = execute_transfer-Executed env (some t) s r amount description w receipt w' h in
      let b = flags-By t w.db x.start x.flags_only in
      let e : x.tenant_id ≡ t = ground arith in
      By-trans t w.db x.start w'.db b (
        Stages-By s r amount description x.start receipt w'.db (b.sound sound) (
          rw e at (
            transfer_body-Stages env x.tenant_id s r amount description receipt w'.db x.start
              x.body)))
  transferred s r amount description w (err e, w') sound h =
      flags-By t w.db w'.db (execute_transfer_atomic env (some t) s r amount description w e w' h)

  pub execute_transfer-By :
      (s r : ℕ) (amount : ℤ) (description : String) (w : World)
      → IsSound w.db
      → By t w.db (execute_transfer env (some t) s r amount description w).1.db
  execute_transfer-By s r amount description w sound =
      transferred s r amount description w _ sound refl

-- ===== src/Bank/Tenant.antt =====
-- What a tenant's calls of the database do to the other tenants.
use hwala.Base.{
  ℕ, ◌≡◌, refl, ◌≢◌, ◌∙◌, sym, ap, false, some, List, [], ◌∷◌, ◌==◌, arith, filter, All, All-append,
  Option-cases, inl, inr,
}
use hwala.Base.Int.{ℤ}
use hwala.Base.Result.{ok}
use hwala.Base.Keys.{insert-HasKeys, filter-insert, filter-append}
use hwala.Base.Table.{lookup, insert, lookup-insert}
use hwala.Db.{Db, Account, LedgerEntry, WebhookOutbox}
use hwala.Db.Tx.{moved, account_update, account_create, ledger_create, outbox_create}
use hwala.Db.Tx.Runs.{account_update-ok, account_create-ok, ledger_create-ok, outbox_create-ok}
use hwala.Risk.Flags.{SameButFlags}
use hwala.Bank.View.{owner, view, IsSound}

-- From `db` to `db'` only the tenant has acted: no account changes hands, the database stays sound, and no
-- other tenant sees a difference.
pub record By (tenant_id : ℕ) (db db' : Db) : Type 0 where
  pub owners : (k s : ℕ) → owner k db ≡ some s → owner k db' ≡ some s
  pub sound : IsSound db → IsSound db'
  pub others : (u : ℕ) → tenant_id ≢ u → view u db' ≡ view u db

module _ (t : ℕ) where
  pub By-refl : (db : Db) → By t db db
  By-refl db = record { owners = λ k s h. h; sound = λ h. h; others = λ u n. refl }

  pub By-trans : (a b c : Db) → By t a b → By t b c → By t a c
  By-trans a b c p q = record {
    owners = λ k s h. q.owners k s (p.owners k s h);
    sound = λ h. q.sound (p.sound h);
    others = λ u n. q.others u n ∙ p.others u n;
  }

  pub flags-By : (db db' : Db) → SameButFlags db db' → By t db db'
  unfolding owner
  flags-By db db' (f, e) = rw e (record {
    owners = λ k s h. h;
    sound = λ h. record { keys = h.keys; owned = h.owned };
    others = λ u n. refl;
  })

  All-owned :
      (db db' : Db) (es : List LedgerEntry)
      → ((k s : ℕ) → owner k db ≡ some s → owner k db' ≡ some s)
      → All (λ (e : LedgerEntry). owner e.account_id db ≡ some e.tenant_id) es
      → All (λ (e : LedgerEntry). owner e.account_id db' ≡ some e.tenant_id) es
  All-owned db db' [] h p = tt
  All-owned db db' (e ∷ es) h p = (h e.account_id e.tenant_id p.0, All-owned db db' es h p.1)

  -- A row of the tenant is written, where no other tenant's row stood.
  insert-By :
      (db : Db) (id : ℕ) (a : Account)
      → a.tenant_id ≡ t
      → ((old : Account) → lookup id db.accounts ≡ some old → old.tenant_id ≡ t)
      → By t db (record db { accounts = insert id a db.accounts })
  unfolding owner
  insert-By db id a e h =
      let kept : (k s : ℕ)
          → owner k db ≡ some s
          → owner k (record db { accounts = insert id a db.accounts }) ≡ some s =
        λ k s p. elim (Option-cases (lookup id db.accounts)) [
          | inl q ↦ ground (arith, lookup-insert id k a db.accounts)
          | inr (old, q) ↦ ground (arith, lookup-insert id k a db.accounts, h old q)
        ] in
      record {
        owners = kept;
        sound = λ s. record {
          keys = insert-HasKeys id a db.accounts s.keys;
          owned =
              All-owned db (record db { accounts = insert id a db.accounts }) db.ledger kept
                s.owned;
        };
        others = λ u n.
            ap
              (λ rows. record {
                accounts = rows;
                entries = filter (λ (e : LedgerEntry). e.tenant_id == u) db.ledger;
                events = filter (λ (row : ℕ × WebhookOutbox). row.1.tenant_id == u) db.outbox;
              })
              (filter-insert (λ (x : Account). x.tenant_id == u) id a db.accounts (ground arith)
                (λ old q. ground (arith, h old q)));
      }

  pub account_update-By :
      (id : ℕ) (x y : ℤ) (db : Db) (r : Unit {0}) (db' : Db)
      → owner id db ≡ some t
      → account_update id x y db ≡ ok (r, db')
      → By t db db'
  unfolding owner
  account_update-By id x y db r db' o h =
      let (a, found, e) = account_update-ok id x y db r db' h in
      rw e (insert-By db id (moved x y a) (ground arith) (λ old q. ground arith))

  pub account_create-By :
      (id : ℕ) (a : Account) (db : Db) (r : Unit {0}) (db' : Db)
      → a.tenant_id ≡ t
      → account_create id a db ≡ ok (r, db')
      → By t db db' × (owner id db' ≡ some t)
  unfolding owner
  account_create-By id a db r db' o h =
      let (free, e) = account_create-ok id a db r db' h in
      rw e (insert-By db id a o (λ old q. cc), ground (arith, lookup-insert id id a db.accounts))

  abbrev pub Mine : Db → LedgerEntry → Type 0
  Mine db e = (e.tenant_id ≡ t) × (owner e.account_id db ≡ some t)

  others_entries :
      (u : ℕ) (db : Db) (es : List LedgerEntry)
      → t ≢ u
      → All (Mine db) es
      → All (λ (e : LedgerEntry). (e.tenant_id == u) ≡ false) es
  others_entries u db [] n h = tt
  others_entries u db (e ∷ es) n h = (ground arith, others_entries u db es n h.1)

  own_entries :
      (db : Db) (es : List LedgerEntry)
      → All (Mine db) es
      → All (λ (e : LedgerEntry). owner e.account_id db ≡ some e.tenant_id) es
  own_entries db [] h = tt
  own_entries db (e ∷ es) h = (h.0.1 ∙ ap some (sym (h.0.0)), own_entries db es h.1)

  pub ledger_create-By :
      (es : List LedgerEntry) (db : Db) (r : Unit {0}) (db' : Db)
      → All (Mine db) es
      → ledger_create es db ≡ ok (r, db')
      → By t db db'
  unfolding owner
  ledger_create-By es db r db' m h = rw (ledger_create-ok es db r db' h) (record {
    owners = λ k s p. p;
    sound = λ s. record {
      keys = s.keys;
      owned = All-append _ db.ledger es s.owned (own_entries db es m);
    };
    others = λ u n.
        ap
          (λ es'. record {
            accounts = filter (λ (row : ℕ × Account). row.1.tenant_id == u) db.accounts;
            entries = es';
            events = filter (λ (row : ℕ × WebhookOutbox). row.1.tenant_id == u) db.outbox;
          })
          (filter-append (λ (e : LedgerEntry). e.tenant_id == u) db.ledger es
            (others_entries u db es n m));
  })

  pub outbox_create-By :
      (id : ℕ) (w : WebhookOutbox) (db : Db) (r : Unit {0}) (db' : Db)
      → w.tenant_id ≡ t
      → outbox_create id w db ≡ ok (r, db')
      → By t db db'
  unfolding owner
  outbox_create-By id w db r db' o h =
      let (free, e) = outbox_create-ok id w db r db' h in
      rw e (record {
        owners = λ k s p. p;
        sound = λ s. record { keys = s.keys; owned = s.owned };
        others = λ u n.
            ap
              (λ rows. record {
                accounts = filter (λ (row : ℕ × Account). row.1.tenant_id == u) db.accounts;
                entries = filter (λ (e : LedgerEntry). e.tenant_id == u) db.ledger;
                events = rows;
              })
              (filter-insert (λ (x : WebhookOutbox). x.tenant_id == u) id w db.outbox (ground arith)
                (λ old q. cc));
      })

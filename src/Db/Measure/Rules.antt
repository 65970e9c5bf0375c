-- ===== src/Db/Measure/Rules.antt =====
-- How the parts of a transaction add up in a measure.
use hwala.Base.{◌≡◌, ap, ◌∙◌, arith}
use hwala.Base.Int.{ℤ, pos, ◌+ℤ◌, +ℤ_assoc, int_laws}
use hwala.Base.Result.{ok}
use hwala.Db.{Db}
use hwala.Db.Tx.{Tx, ◌>>=◌, pure}
use hwala.Db.Tx.Runs.{continue-ok}
use hwala.Db.Measure.{Shifts}

module _ (μ : Db → ℤ) where
  pub Shifts-bind :
      {A B : Type 0} (m : Tx A) (f : A → Tx B) (x y : ℤ)
      → Shifts μ m x
      → ((a : A) → Shifts μ (f a) y)
      → Shifts μ (m >>= f) (x +ℤ y)
  Shifts-bind m f x y hm hf db b db' h =
      let (a, mid, p, q) = continue-ok _ _ _ _ h in
      hf a mid b db' q ∙ ap (λ t. t +ℤ y) (hm db a mid p) ∙ +ℤ_assoc (μ db) x y

  pub Shifts-pure : {A : Type 0} (a : A) → Shifts μ (pure a) (pos 0)
  Shifts-pure a db b db' h = let e : db ≡ db' = ground arith in rw (← e) (omega int_laws)

  -- A part that reads and checks changes no measure.
  pub Shifts-same :
      {A : Type 0} (m : Tx A)
      → ((db : Db) (a : A) (db' : Db) → m db ≡ ok (a, db') → db' ≡ db)
      → Shifts μ m (pos 0)
  Shifts-same m same db a db' h = rw (same db a db' h) (omega int_laws)

  pub Shifts-cast : {A : Type 0} (m : Tx A) (x y : ℤ) → x ≡ y → Shifts μ m x → Shifts μ m y
  Shifts-cast m x y e h db a db' p = rw (← e) (h db a db' p)

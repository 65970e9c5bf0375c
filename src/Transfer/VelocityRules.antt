-- ===== src/Transfer/VelocityRules.antt =====
-- The two velocity rules together: that of src/security/security.service.ts and that of src/risk/risk.service.ts, over the transfers of
-- src/transfer/transfer.service.ts.
use hwala.Base.{ℕ, ◌≤◌, ◌≡◌, true, Option, List, [], ◌∷◌, All, length, String}
use hwala.Base.Int.{ℤ}
use hwala.Base.Table.{Table, lookup}
use hwala.Db.{Db}
use hwala.Velocity.{scores_of, remaining}
use hwala.Transfer.Execute.{Env, World, execute_transfer}

-- A call of `executeTransfer`.
pub record TransferCall : Type 0 where
  pub env : Env
  pub tenant : Option ℕ
  pub sender_id : ℕ
  pub receiver_id : ℕ
  pub amount : ℤ
  pub description : String

abbrev pub serve_call : TransferCall → World → World
serve_call c w =
    (execute_transfer c.env c.tenant c.sender_id c.receiver_id c.amount c.description w).1

-- The world after some calls, the latest first.
abbrev pub world_after : World → List TransferCall → World
world_after w [] = w
world_after w (c ∷ earlier) = serve_call c (world_after w earlier)

-- The security service is there, the risk engine reads the time of the transfer and its Redis answers.
pub record IsGuarded (c : TransferCall) : Type 0 where
  pub security : c.env.has_security ≡ true
  pub has_redis : c.env.risk.has_redis ≡ true
  pub redis_up : c.env.risk.redis_up ≡ true
  pub same_time : c.env.risk.now ≡ c.env.now

abbrev pub IsOrdered : List TransferCall → Type 0
IsOrdered [] = Unit
IsOrdered (c ∷ earlier) =
    All (λ (b : TransferCall). b.env.now ≤ c.env.now) earlier × IsOrdered earlier

abbrev counted : ℕ → ℕ → Table (List ℕ) → ℕ
counted t k sets = length (remaining t (scores_of (lookup k sets)))

-- From the time `now` on the risk engine counts no more than the security service.
abbrev Covers : ℕ → Table (List ℕ) → Table (List ℕ) → Type 0
Covers now security risk = (t k : ℕ) → now ≤ t → counted t k risk ≤ counted t k security

-- ===== src/Bank/Requests.antt =====
-- Requests to src/transfer/transfer.service.ts and src/accounts/accounts.service.ts, served one after another.
pub mod Isolation
pub mod Money
use hwala.Base.{ℕ, String, Bool, true, false, Option, none, some, List, [], ◌∷◌}
use hwala.Base.Int.{ℤ, pos, ◌+ℤ◌}
use hwala.Base.Result.{Result, ok, err}
use hwala.Db.{Db, Account, AccountType}
use hwala.Transfer.Execute.{Env, World, Receipt, execute_transfer}
use hwala.Transfer.Hold.{HoldReceipt, ReleaseReceipt, hold_funds, release_hold}
use hwala.Transfer.Capture.{CaptureReceipt, capture_hold}
use hwala.Accounts.{create_account}

pub data Request : Type 0 where
  transfer : (sender_id receiver_id : ℕ) (amount : ℤ) (description : String) → Request
  hold : (account_id : ℕ) (amount : ℤ) (description : String) → Request
  capture : (hold_id receiver_id : ℕ) (amount : ℤ) (description : String) → Request
  release : (hold_id : ℕ) (amount : ℤ) (description : String) → Request
  open_account :
      (new_id : ℕ) (user_id : Option ℕ) (type : Option AccountType) (initial_balance : ℤ) → Request

-- A request of a tenant, with what it draws from its environment.
pub record Call : Type 0 where
  pub env : Env
  pub tenant : Option ℕ
  pub request : Request

pub data Response : Type 0 where
  transferred : Result Receipt → Response
  held : Result HoldReceipt → Response
  captured : Result CaptureReceipt → Response
  released : Result ReleaseReceipt → Response
  opened : Result Account → Response

abbrev pub with_db : {A : Type 0} → (A → Response) → World → A × Db → Response × World
with_db f w (a, db) = (f a, record w { db = db })

abbrev pub with_world : {A : Type 0} → (A → Response) → A × World → Response × World
with_world f (a, w) = (f a, w)

abbrev pub handle : Env → Option ℕ → Request → World → Response × World
handle env tenant (transfer s r amount description) w =
    with_world Response.transferred (execute_transfer env tenant s r amount description w)
handle env tenant (hold id amount description) w =
    with_db Response.held w (hold_funds env tenant id amount description w.db)
handle env tenant (capture hold_id r amount description) w =
    with_db Response.captured w (capture_hold env tenant hold_id r amount description w.db)
handle env tenant (release hold_id amount description) w =
    with_db Response.released w (release_hold env tenant hold_id amount description w.db)
handle env tenant (open_account new_id user_id type initial_balance) w =
    with_db Response.opened w (create_account new_id tenant user_id type initial_balance w.db)

unfoldable pub serve : Call → World → Response × World
serve c w = handle c.env c.tenant c.request w

unfoldable pub serve_all : List Call → World → World
serve_all [] w = w
serve_all (c ∷ cs) w = serve_all cs (serve c w).1

-- What an answer says of new money: the initial balance of an account that was opened.
abbrev pub opening : Response → ℤ
opening (opened (ok a)) = a.balance
opening _ = pos 0

unfoldable pub openings : List Call → World → ℤ
openings [] w = pos 0
openings (c ∷ cs) w = opening (serve c w).0 +ℤ openings cs (serve c w).1

abbrev pub is_error : {A : Type 0} → Result A → Bool
is_error (ok _) = false
is_error (err _) = true

abbrev pub is_refused : Response → Bool
is_refused (transferred r) = is_error r
is_refused (held r) = is_error r
is_refused (captured r) = is_error r
is_refused (released r) = is_error r
is_refused (opened r) = is_error r

abbrev pub is_capture : Request → Bool
is_capture (capture _ _ _ _) = true
is_capture _ = false

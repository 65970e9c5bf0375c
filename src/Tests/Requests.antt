-- ===== src/Tests/Requests.antt =====
-- Requests to a bank with two tenants.
use hwala.Base.{arith, List, ◌≡◌, refl, some, true, [], ◌∷◌}
use hwala.Base.Int.{pos, ◌+ℤ◌, ◌-ℤ◌, ◌*ℤ◌, neg, int_laws}
use hwala.Base.Table.{lookup}
use hwala.Db.{Db, wallet, platform_revenue}
use hwala.Db.Measure.{money, balance_of, hold_of}
use hwala.Risk.Flags.{SameButFlags}
use hwala.Transfer.Balances.{NonNeg}
use hwala.Transfer.Hold.{hold_funds, hold_body, check_available}
use hwala.Bank.View.{owner, view, IsSound}
use hwala.Bank.Requests.{Request, Call, serve, serve_all, openings, is_refused}
use hwala.Bank.Requests.Isolation.{serve_all-view}
use hwala.Bank.Requests.Money.{serve_all-money, serve_all-NonNeg, serve-refused}
use hwala.Tests.{env, world, db_of, account, opening}

-- The small bank, and account 20 of tenant 2 with 5.00.
abbrev two_tenants : Db
two_tenants =
    db_of
      ((10, account wallet 100000 0)
        ∷ (11, account wallet 0 0)
        ∷ (12, account platform_revenue 0 0)
        ∷ (20, record (account wallet 500 0) { tenant_id = 2 })
        ∷ [])
      (opening 10 100000 ∷ record (opening 20 500) { tenant_id = 2 } ∷ [])

two_tenants-IsSound : IsSound two_tenants
unfolding lookup owner
two_tenants-IsSound = record {
  keys = (refl, (refl, (refl, (refl, tt))));
  owned = (refl, (refl, tt));
}

abbrev call : Request → Call
call q = record { env = env; tenant = some 1; request = q }

-- Tenant 1 pays, tries to take the money of tenant 2, and holds some.
abbrev calls : List Call
calls =
    call (Request.transfer 10 11 (pos 10000) "rent")
    ∷ call (Request.transfer 20 10 (pos 100) "theft")
    ∷ call (Request.hold 11 (pos 5000) "deposit")
    ∷ []

serve_all-view_example : view 2 (serve_all calls (world two_tenants)).db ≡ view 2 two_tenants
serve_all-view_example =
    serve_all-view 2 calls (world two_tenants) two_tenants-IsSound
      ((λ e. ground arith), ((λ e. ground arith), ((λ e. ground arith), tt)))

serve_all-money_example :
    money (serve_all calls (world two_tenants)).db
    ≡ money two_tenants +ℤ openings calls (world two_tenants)
serve_all-money_example = serve_all-money calls (world two_tenants)

two_tenants-NonNeg : NonNeg two_tenants
unfolding balance_of hold_of lookup
two_tenants-NonNeg k = (grind (int_laws, arith), grind (int_laws, arith))

serve_all-NonNeg_example : NonNeg (serve_all calls (world two_tenants)).db
serve_all-NonNeg_example =
    serve_all-NonNeg calls (world two_tenants) (refl, (refl, (refl, tt))) two_tenants-NonNeg

-- A hold that is not covered.
abbrev over_hold : Call
over_hold = call (Request.hold 11 (pos 5000) "deposit")

over_hold-refused : is_refused (serve over_hold (world two_tenants)).0 ≡ true
unfolding serve hold_funds hold_body check_available lookup ◌+ℤ◌ ◌-ℤ◌ ◌*ℤ◌ neg
over_hold-refused = refl

serve-refused_example : SameButFlags two_tenants (serve over_hold (world two_tenants)).1.db
serve-refused_example = serve-refused over_hold (world two_tenants) over_hold-refused

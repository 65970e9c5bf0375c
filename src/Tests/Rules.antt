-- ===== src/Tests/Rules.antt =====
-- The velocity rules over two transfers of the small bank.
use hwala.Base.{some, [], ◌∷◌}
use hwala.Base.Int.{pos}
use hwala.Transfer.Execute.{World}
use hwala.Transfer.VelocityRules.{TransferCall, world_after}
use hwala.Tests.{env, bank, world}

abbrev payment : TransferCall
payment = record {
  env = env;
  tenant = some 1;
  sender_id = 10;
  receiver_id = 11;
  amount = pos 1000;
  description = "coffee";
}

abbrev after_payment : World
after_payment = world_after (world bank) (payment ∷ [])

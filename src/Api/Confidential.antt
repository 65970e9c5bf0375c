-- ===== src/Api/Confidential.antt =====
-- Whose rows a request to a guarded route shows (Api).
use hwala.Base.Result.{Result}
use hwala.Db.{Db}

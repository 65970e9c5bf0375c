-- ===== src/Webhook/DeliveryLaws.antt =====
-- When the delivery worker (Webhook/Delivery) skips a job.
use hwala.Base.{String, Bool, none, ◌≡◌, ◌↔◌, arith}
use hwala.Base.Result.{ok}
use hwala.Db.{Db, Payload}
use hwala.Webhook.Delivery.{
  Delivery, process, destination, tenant_of, target_url_of, url_of, tenant_row, webhook_url_of,
  non_empty,
}

-- The worker skips a job exactly if neither of the URLs of the job nor the URL of its tenant is set.
pub process-skipped_iff :
    (hmac_hex : String → String → String) (json : Payload → String) (is_flaky : Bool) (p : Payload)
    (db : Db)
    → (process hmac_hex json is_flaky p db ≡ ok Delivery.skipped) ↔ (
        (non_empty (target_url_of p) ≡ none)
        × (non_empty (url_of p) ≡ none)
        × (webhook_url_of (tenant_row (tenant_of p) db) ≡ none))
unfolding process destination
process-skipped_iff hmac_hex json is_flaky p db = (λ h. ground arith, λ h. ground arith)

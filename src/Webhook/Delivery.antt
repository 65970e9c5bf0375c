-- ===== src/Webhook/Delivery.antt =====
-- `WebhookProcessor.process` of src/transfer/webhook.processor.ts. The signature of a text, HMAC-SHA256, and
-- the JSON text of a payload are parameters; so is whether the network fails.
use Prim.Native.String
use hwala.Base.{ℕ, String, Bool, Option, none, some, if◌then◌else◌}
use hwala.Base.Result.{Result, ok, err, fault}
use hwala.Base.Table.{lookup}
use hwala.Db.{Db, Tenant, Payload}

-- What a job's data says: `const { tenantId, targetUrl, url } = job.data`.
abbrev pub tenant_of : Payload → Option ℕ
tenant_of (Payload.transfer_completed t _ _ _ _ _ _) = some t
tenant_of (Payload.hold_created t _ _ _ _) = some t
tenant_of (Payload.hold_captured t _ _ _ _ _ _ _) = some t
tenant_of (Payload.hold_released t _ _ _ _ _) = some t
tenant_of (Payload.custom t _ _) = t

abbrev pub target_url_of : Payload → Option String
target_url_of (Payload.custom _ target_url _) = target_url
target_url_of _ = none

abbrev pub url_of : Payload → Option String
url_of (Payload.custom _ _ url) = url
url_of _ = none

pub data Delivery : Type 0 where
  skipped : Delivery
  delivered : (signature target_url : String) → Delivery

-- An empty text counts as no text.
abbrev pub non_empty : Option String → Option String
non_empty none = none
non_empty (some String.[]) = none
non_empty (some (String.◌∷◌ c s)) = some (String.◌∷◌ c s)

abbrev pub or_else : Option String → Option String → Option String
or_else none b = b
or_else (some a) b = some a

abbrev pub tenant_row : Option ℕ → Db → Option Tenant
tenant_row none db = none
tenant_row (some id) db = lookup id db.tenants

-- The tenant's secret, if it is set, else the empty text.
abbrev pub secret_of : Option Tenant → String
secret_of none = ""
secret_of (some t) = elim (t.webhook_secret) [ none ↦ "" | some s ↦ s ]

abbrev pub webhook_url_of : Option Tenant → Option String
webhook_url_of none = none
webhook_url_of (some t) = non_empty t.webhook_url

-- `customUrl || url || tenantWebhookUrl`
unfoldable pub destination : Payload → Option Tenant → Option String
destination p row =
    or_else (non_empty (target_url_of p)) (or_else (non_empty (url_of p)) (webhook_url_of row))

module _ (hmac_hex : (secret text : String) → String) (json : Payload → String) where
  abbrev pub signature_of : Option Tenant → Payload → String
  signature_of row p = String.◌++◌ "sha256=" (hmac_hex (secret_of row) (json p))

  abbrev pub dispatch : Bool → Option Tenant → Payload → Option String → Result Delivery
  dispatch is_flaky row p none = ok skipped
  dispatch is_flaky row p (some target) =
      if is_flaky
      then err (fault "Merchant API responded with 503 Service Unavailable")
      else ok (delivered (signature_of row p) target)

  -- `process`
  unfoldable pub process : Bool → Payload → Db → Result Delivery
  unfolding destination
  process is_flaky p db =
      let row = tenant_row (tenant_of p) db in dispatch is_flaky row p (destination p row)

-- ===== src/Health.antt =====
-- src/health: the three indicators and the health route. What the query and the pings come to is an argument, an error is
-- its message; the library that runs the indicators is a parameter.
use Prim.Native.String
use text.Mathlib.Text
use text.Mathlib.TextEquality.{eq_iff}
use hwala.Base.{◌≡◌, ◌↔◌, inl, inr, String, List, [], ◌∷◌, All, Bool-cases, if◌then◌else◌, arith}

-- What a call resolves to, or the message of the error that it throws.
data CallReply (A : Type 0) : Type 0 where
  resolved : A → CallReply A
  thrown : (message : String) → CallReply A

-- `getStatus(key, isHealthy, { message })`
data Status : Type 0 where
  up : (key : String) → Status
  down : (key cause message : String) → Status

-- `PrismaHealthIndicator.isHealthy`, for the reply of `SELECT 1`.
unfoldable prisma_health : String → CallReply (Unit {0}) → Status
prisma_health key (resolved _) = up key
prisma_health key (thrown message) = down key "Prisma check failed" message

abbrev ping_status : (key cause unexpected : String) → CallReply String → Status
ping_status key cause unexpected (resolved text) =
    if Text.◌==◌ text "PONG" then up key else down key cause (String.◌++◌ unexpected text)
ping_status key cause unexpected (thrown message) = down key cause message

-- `RedisHealthIndicator.isHealthy`, for the reply of the ping.
unfoldable redis_health : String → CallReply String → Status
redis_health key ping = ping_status key "Redis check failed" "Unexpected Redis ping response: " ping

-- `BullMQHealthIndicator.isHealthy`, for the reply of the ping through the client of the queue.
unfoldable bullmq_health : String → CallReply String → Status
bullmq_health key ping =
    ping_status key "BullMQ check failed" "Unexpected BullMQ Redis ping response: " ping

-- `HealthController.check`: the statuses of its indicators, in this order.
unfoldable indicators : CallReply (Unit {0}) → CallReply String → CallReply String → List Status
indicators query ping queue_ping =
    prisma_health "database" query
    ∷ redis_health "redis" ping
    ∷ bullmq_health "bullmq" queue_ping
    ∷ []

abbrev IsUp : Status → Type 0
IsUp (up key) = Unit
IsUp (down key cause message) = ⊥

abbrev AllUp : List Status → Type 0
AllUp statuses = All IsUp statuses

abbrev IsPong : CallReply String → Type 0
IsPong (resolved text) = text ≡ "PONG"
IsPong (thrown message) = ⊥

abbrev IsResolved : CallReply (Unit {0}) → Type 0
IsResolved (resolved _) = Unit
IsResolved (thrown message) = ⊥

ping_status-IsUp :
    (key cause unexpected : String) (ping : CallReply String)
    → IsUp (ping_status key cause unexpected ping) ↔ IsPong ping
ping_status-IsUp key cause unexpected (thrown message) = (λ h. h, λ h. h)
ping_status-IsUp key cause unexpected (resolved text) = elim (Bool-cases (Text.◌==◌ text "PONG")) [
  | inl e ↦ rw e (λ h. (eq_iff text "PONG").0 e, λ h. tt)
  | inr e ↦ rw e (λ h. absurd h, λ h. absurd (ground (arith, (eq_iff text "PONG").1 h)))
]

-- The health route finds all three parts up exactly if the query of the database returns and both pings are answered by PONG.
indicators-AllUp :
    (query : CallReply (Unit {0})) (ping queue_ping : CallReply String)
    → AllUp (indicators query ping queue_ping)
      ↔ (IsResolved query × IsPong ping × IsPong queue_ping)
unfolding indicators prisma_health redis_health bullmq_health
indicators-AllUp (thrown message) ping queue_ping = (λ h. absurd h.0, λ h. absurd h.0)
indicators-AllUp (resolved _) ping queue_ping =
    let redis =
      ping_status-IsUp "redis" "Redis check failed" "Unexpected Redis ping response: " ping in
    let queue =
      ping_status-IsUp "bullmq" "BullMQ check failed" "Unexpected BullMQ Redis ping response: "
        queue_ping in
    (λ h. (tt, redis.0 h.1.0, queue.0 h.1.1.0), λ h. (tt, (redis.1 h.1, (queue.1 h.2, tt))))

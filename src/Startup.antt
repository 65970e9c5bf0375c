-- ===== src/Startup.antt =====
-- What the application reads from its environment when it starts: src/main.ts (origins of CORS), src/app.module.ts (limits
-- and connections), src/prisma/prisma.service.ts (bounds of the pool) and src/redis/redis.service.ts (options and
-- reconnection; what is left of the client when the module is destroyed). A variable that is not set is `none`.
pub mod Laws
use Prim.Native.Char.{Char, code}
use Prim.Native.String
use text.Mathlib.Text
use hwala.Base.{
  ℕ, zero, suc, ◌+◌, ◌*◌, ◌-◌, String, Bool, true, false, ◌&&◌, ◌||◌, Option, none, some, List, [],
  ◌∷◌, leb, ltb, ◌==◌, map, if◌then◌else◌,
}

-- `text.split(',')`
abbrev push_char : Char → List String → List String
push_char c [] = (String.◌∷◌ c String.[]) ∷ []
push_char c (s ∷ parts) = String.◌∷◌ c s ∷ parts

unfoldable pub split_commas : String → List String
split_commas String.[] = String.[] ∷ []
split_commas (String.◌∷◌ c s) =
    let parts = split_commas s in if code c == b',' then String.[] ∷ parts else push_char c parts

-- White space and line ends of the language.
abbrev pub is_space : Char → Bool
is_space c =
    (leb 9 (code c) && leb (code c) 13)
    || ((code c == 32)
        || ((code c == 160)
            || ((code c == 5760)
                || ((leb 8192 (code c) && leb (code c) 8202)
                    || ((code c == 8232)
                        || ((code c == 8233)
                            || ((code c == 8239)
                                || ((code c == 8287)
                                    || ((code c == 12288) || (code c == 65279))))))))))

unfoldable pub trim_start : String → String
trim_start String.[] = String.[]
trim_start (String.◌∷◌ c s) = let rest = trim_start s in if is_space c then rest else String.◌∷◌ c s

abbrev pub keep_char : Char → String → String
keep_char c String.[] = if is_space c then String.[] else String.◌∷◌ c String.[]
keep_char c (String.◌∷◌ d s) = String.◌∷◌ c (String.◌∷◌ d s)

unfoldable pub trim_end : String → String
trim_end String.[] = String.[]
trim_end (String.◌∷◌ c s) = keep_char c (trim_end s)

-- `text.trim()`
unfoldable pub trim_text : String → String
unfolding trim_start trim_end
trim_text s = trim_end (trim_start s)

-- The option `origin` of `enableCors`: a list of origins, or `false`.
pub data Origins : Type 0 where
  listed : List String → Origins
  no_origin : Origins

abbrev local_origins : List String
local_origins = "http://localhost:3000" ∷ "http://localhost:5173" ∷ "http://localhost:8080" ∷ []

abbrev default_origins : Option String → Origins
default_origins none = listed local_origins
default_origins (some node_env) =
    if Text.◌==◌ node_env "production" then no_origin else listed local_origins

-- `allowedOrigins`, from `CORS_ORIGIN` and `NODE_ENV`.
unfoldable pub allowed_origins : (cors_origin node_env : Option String) → Origins
allowed_origins none node_env = default_origins node_env
allowed_origins (some String.[]) node_env = default_origins node_env
allowed_origins (some (String.◌∷◌ c s)) node_env =
    listed (map trim_text (split_commas (String.◌∷◌ c s)))

-- `configService.get(key, fallback)`
abbrev or_fallback : {A : Type 0} → Option A → A → A
or_fallback none fallback = fallback
or_fallback (some a) fallback = a

-- `text || undefined`
abbrev or_undefined : Option String → Option String
or_undefined none = none
or_undefined (some String.[]) = none
or_undefined (some (String.◌∷◌ c s)) = some (String.◌∷◌ c s)

-- The limits of the throttler, as numbers.
record Throttler : Type 0 where
  pub ttl_ms : ℕ
  pub limit : ℕ

unfoldable throttler : (throttle_ttl throttle_limit : Option ℕ) → Throttler
throttler throttle_ttl throttle_limit = record {
  ttl_ms = or_fallback throttle_ttl 60000;
  limit = or_fallback throttle_limit 100;
}

-- A connection to Redis; `none` retries are no limit.
record RedisOptions : Type 0 where
  pub host : String
  pub port : ℕ
  pub password : Option String
  pub max_retries_per_request : Option ℕ

-- The client of `RedisService`.
unfoldable client_options :
    (redis_host : Option String) (redis_port : Option ℕ) (redis_password : Option String)
    → RedisOptions
client_options redis_host redis_port redis_password = record {
  host = or_fallback redis_host "localhost";
  port = or_fallback redis_port 6379;
  password = or_undefined redis_password;
  max_retries_per_request = some 20;
}

-- The connection of the queue.
unfoldable queue_options :
    (redis_host : Option String) (redis_port : Option ℕ) (redis_password : Option String)
    → RedisOptions
queue_options redis_host redis_port redis_password = record {
  host = or_fallback redis_host "localhost";
  port = or_fallback redis_port 6379;
  password = or_undefined redis_password;
  max_retries_per_request = none;
}

-- `retryStrategy`: the delay before the next attempt, in ms.
unfoldable pub retry_strategy : (times : ℕ) → ℕ
retry_strategy times = if leb (times * 100) 3000 then times * 100 else 3000

-- What `RedisService` has for a client.
pub data Client : Type 0 where
  missing connected quitted disconnected : Client

-- `onModuleDestroy`; `quits` says that `quit` returns.
unfoldable on_module_destroy : (quits : Bool) → Client → Client
on_module_destroy quits missing = missing
on_module_destroy quits _ = if quits then quitted else disconnected

abbrev starts_with : String → String → Bool
starts_with String.[] s = true
starts_with (String.◌∷◌ c p) String.[] = false
starts_with (String.◌∷◌ c p) (String.◌∷◌ d s) = (code c == code d) && starts_with p s

-- `text.includes(part)`
unfoldable includes_text : String → String → Bool
includes_text part String.[] = starts_with part String.[]
includes_text part (String.◌∷◌ c s) =
    let later = includes_text part s in starts_with part (String.◌∷◌ c s) || later

-- `reconnectOnError`
unfoldable reconnect_on_error : (message : String) → Bool
unfolding includes_text
reconnect_on_error message = includes_text "READONLY" message

-- What the pool of the database is made with; the numbers are read by `parseInt`, a parameter.
record PoolOptions (N : Type 0) : Type 0 where
  pub min : N
  pub max : N
  pub idle_timeout_millis : ℕ
  pub connection_timeout_millis : ℕ

module _ {N : Type 0} (parse_int_10 : String → N) (number : ℕ → N) where
  abbrev pool_bound : Option String → ℕ → N
  pool_bound none fallback = number fallback
  pool_bound (some String.[]) fallback = number fallback
  pool_bound (some (String.◌∷◌ c s)) fallback = parse_int_10 (String.◌∷◌ c s)

  -- The constructor of `PrismaService`.
  unfoldable pool_options : (db_pool_min db_pool_max : Option String) → PoolOptions N
  pool_options db_pool_min db_pool_max = record {
    min = pool_bound db_pool_min 2;
    max = pool_bound db_pool_max 10;
    idle_timeout_millis = 30000;
    connection_timeout_millis = 5000;
  }

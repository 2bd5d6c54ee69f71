-- ===== src/Health.antt =====
-- modules/health/health.service.ts and health.controller.ts. The client of Redis is not the program's: a
-- record says what its calls do, and the timestamp is a date for its ISO text.
use distributed_ledger_and_t.Prelude.{
  String, Bool, true, false, Option, none, some, ◌≡◌, refl, ap, not, ◌&&◌, ◌||◌, if◌then◌else◌,
}
use distributed_ledger_and_t.Entities.{Time}

-- What a call throws: an Error with its message, or another value.
pub data Thrown : Type 0 where
  error : String → Thrown
  other_value : Thrown

-- The client: whether its status is `wait`, and what `connect` and `ping` throw, if they do.
pub record RedisClient : Type 0 where
  pub waiting : Bool
  pub connect : Option Thrown
  pub ping : Option Thrown

pub data Check : Type 0 where
  up : Check
  down : String → Check

pub data HealthStatus : Type 0 where
  ok degraded : HealthStatus

pub record HealthResponse : Type 0 where
  pub status : HealthStatus
  pub database : Check
  pub redis : Check
  pub timestamp : Time

-- `error instanceof Error ? error.message : …`
abbrev pub message_or : String → Thrown → String
message_or fallback (error message) = message
message_or fallback other_value = fallback

abbrev pub check_of : String → Option Thrown → Check
check_of fallback none = up
check_of fallback (some e) = down (message_or fallback e)

-- `query` is what the query `SELECT 1` throws, if it does.
unfoldable pub check_database : Option Thrown → Check
check_database query = check_of "Database check failed" query

-- The first of two calls that throws ends the block.
abbrev pub first_thrown : Option Thrown → Option Thrown → Option Thrown
first_thrown (some e) second = some e
first_thrown none second = second

unfoldable pub check_redis : RedisClient → Check
check_redis client =
    check_of "Redis check failed"
      (if client.waiting then first_thrown client.connect client.ping else client.ping)

abbrev pub is_up : Check → Bool
is_up up = true
is_up (down _) = false

unfoldable pub get_health : Option Thrown → RedisClient → Time → HealthResponse
get_health query client now =
    let database = check_database query in
    let redis = check_redis client in
    record {
      status = if is_up database && is_up redis then ok else degraded;
      database = database;
      redis = redis;
      timestamp = now;
    }

abbrev went_through : Option Thrown → Bool
went_through none = true
went_through (some _) = false

-- The calls that a check makes went through: the query and the ping, and the connection if there was none.
abbrev pub is_reachable : Option Thrown → RedisClient → Bool
is_reachable query client =
    went_through query
    && went_through client.ping
    && (not client.waiting || went_through client.connect)

connected :
    (waiting : Bool) (query connect ping : Option Thrown)
    → (is_up (check_of "Database check failed" query)
        && is_up
            (check_of "Redis check failed" (if waiting then first_thrown connect ping else ping)))
      ≡ (went_through query && went_through ping && (not waiting || went_through connect))
connected waiting (some e) connect ping = refl
connected true none (some e) none = refl
connected true none (some e) (some f) = refl
connected true none none none = refl
connected true none none (some f) = refl
connected false none connect none = refl
connected false none connect (some f) = refl

-- The status of the service is ok exactly when the query and the ping went through, and the connection
-- if the client had yet to connect; otherwise it is degraded.
pub get_health_exact :
    (query : Option Thrown) (client : RedisClient) (now : Time)
    → (get_health query client now).status ≡ (if is_reachable query client then ok else degraded)
unfolding get_health check_database check_redis
get_health_exact query client now =
    ap (λ (b : Bool). if b then ok else degraded)
      (connected client.waiting query client.connect client.ping)

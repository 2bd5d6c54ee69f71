-- ===== src/Config.antt =====
-- config/env.validator.ts and the factories app.config.ts, database.config.ts, redis.config.ts and
-- queue.config.ts.
--
-- What `Number` and `parseInt` make of a text is not the program's: parameters give the integer, or none
-- for NaN and for a number that is no integer.
pub mod Settings
use mathlib.Core.Option
use distributed_ledger_and_t.Prelude.{
  ℤ, pos, leb_ℤ, String, Bool, true, false, Option, none, some, List, [], ◌∷◌, str_eq,
  if◌then◌else◌,
}

-- The environment variables of the process.
abbrev pub ProcessEnv : Type 0
ProcessEnv = String → Option String

pub data NodeEnv : Type 0 where
  development test production : NodeEnv

pub record EnvVars : Type 0 where
  pub node_env : NodeEnv
  pub port : ℤ
  pub database_url : String
  pub redis_host : String
  pub redis_port : ℤ
  pub redis_password : Option String
  pub queue_prefix : Option String
  pub webhook_backoff_ms : ℤ
  pub webhook_max_attempts : ℤ
  pub outbox_poll_interval_ms : ℤ
  pub outbox_batch_size : ℤ
  pub outbox_backoff_ms : ℤ
  pub outbox_max_attempts : ℤ
  pub outbox_stale_after_ms : ℤ
  pub reconciliation_interval_ms : ℤ

-- `@IsEnum(NodeEnv)`, with the default.
abbrev pub node_env_of : Option String → Option NodeEnv
node_env_of none = some NodeEnv.development
node_env_of (some text) =
    if str_eq text "development"
    then some NodeEnv.development
    else if str_eq text "test"
    then some NodeEnv.test
    else if str_eq text "production"
    then some NodeEnv.production
    else none

-- `@IsInt() @Min(least)`
abbrev pub at_least : ℤ → Option ℤ → Option ℤ
at_least least none = none
at_least least (some n) = if leb_ℤ least n then some n else none

module _ {ℓ κ} {A : Type ℓ} {B : Type κ} where
  infixl 5 ◌>>=◌
  unfoldable pub ◌>>=◌ : Option A → (A → Option B) → Option B
  none >>= f = none
  some a >>= f = f a

module _ (number_of : String → Option ℤ) where
  -- `@Type(() => Number) @IsInt() @Min(least)`, with a default if the property has one.
  abbrev pub number_var : (least : ℤ) (default_value : Option ℤ) → Option String → Option ℤ
  number_var least default_value none = at_least least default_value
  number_var least default_value (some text) = at_least least (number_of text)

  -- The validated variables; none stands for the Error that is thrown.
  unfoldable pub validate : ProcessEnv → Option EnvVars
  validate env = do
    node_env ← node_env_of (env "NODE_ENV")
    port ← number_var (pos 1) (some (pos 3000)) (env "PORT")
    database_url ← env "DATABASE_URL"
    redis_host ← env "REDIS_HOST"
    redis_port ← number_var (pos 1) none (env "REDIS_PORT")
    webhook_backoff_ms ← number_var (pos 100) (some (pos 5000)) (env "WEBHOOK_BACKOFF_MS")
    webhook_max_attempts ← number_var (pos 1) (some (pos 5)) (env "WEBHOOK_MAX_ATTEMPTS")
    outbox_poll_interval_ms ← number_var (pos 100) (some (pos 5000)) (env "OUTBOX_POLL_INTERVAL_MS")
    outbox_batch_size ← number_var (pos 1) (some (pos 20)) (env "OUTBOX_BATCH_SIZE")
    outbox_backoff_ms ← number_var (pos 100) (some (pos 5000)) (env "OUTBOX_BACKOFF_MS")
    outbox_max_attempts ← number_var (pos 1) (some (pos 5)) (env "OUTBOX_MAX_ATTEMPTS")
    outbox_stale_after_ms ← number_var (pos 100) (some (pos 30000)) (env "OUTBOX_STALE_AFTER_MS")
    reconciliation_interval_ms ←
        number_var (pos 1000) (some (pos 60000)) (env "RECONCILIATION_INTERVAL_MS")
    some (record {
      node_env = node_env;
      port = port;
      database_url = database_url;
      redis_host = redis_host;
      redis_port = redis_port;
      redis_password = env "REDIS_PASSWORD";
      queue_prefix = env "QUEUE_PREFIX";
      webhook_backoff_ms = webhook_backoff_ms;
      webhook_max_attempts = webhook_max_attempts;
      outbox_poll_interval_ms = outbox_poll_interval_ms;
      outbox_batch_size = outbox_batch_size;
      outbox_backoff_ms = outbox_backoff_ms;
      outbox_max_attempts = outbox_max_attempts;
      outbox_stale_after_ms = outbox_stale_after_ms;
      reconciliation_interval_ms = reconciliation_interval_ms;
    })

pub record QueueSettings : Type 0 where
  pub prefix : String
  pub webhook_max_attempts : Option ℤ
  pub webhook_backoff_ms : Option ℤ
  pub outbox_poll_interval_ms : Option ℤ
  pub outbox_batch_size : Option ℤ
  pub outbox_backoff_ms : Option ℤ
  pub outbox_max_attempts : Option ℤ
  pub outbox_stale_after_ms : Option ℤ
  pub reconciliation_interval_ms : Option ℤ

pub record RedisSettings : Type 0 where
  pub host : Option String
  pub port : Option ℤ
  pub password : Option String

pub record AppSettings : Type 0 where
  pub port : Option ℤ
  pub node_env : String

-- `text || undefined`
abbrev or_undefined : Option String → Option String
or_undefined none = none
or_undefined (some text) = if str_eq text "" then none else some text

-- `parse_int` is `parseInt` to the base 10.
module _ (parse_int : String → Option ℤ) where
  unfoldable pub queue_config : ProcessEnv → QueueSettings
  queue_config env = record {
    prefix = Option.get_or (env "QUEUE_PREFIX") "ledger-engine";
    webhook_max_attempts = parse_int (Option.get_or (env "WEBHOOK_MAX_ATTEMPTS") "5");
    webhook_backoff_ms = parse_int (Option.get_or (env "WEBHOOK_BACKOFF_MS") "5000");
    outbox_poll_interval_ms = parse_int (Option.get_or (env "OUTBOX_POLL_INTERVAL_MS") "5000");
    outbox_batch_size = parse_int (Option.get_or (env "OUTBOX_BATCH_SIZE") "20");
    outbox_backoff_ms = parse_int (Option.get_or (env "OUTBOX_BACKOFF_MS") "5000");
    outbox_max_attempts = parse_int (Option.get_or (env "OUTBOX_MAX_ATTEMPTS") "5");
    outbox_stale_after_ms = parse_int (Option.get_or (env "OUTBOX_STALE_AFTER_MS") "30000");
    reconciliation_interval_ms =
        parse_int (Option.get_or (env "RECONCILIATION_INTERVAL_MS") "60000");
  }

  unfoldable pub redis_config : ProcessEnv → RedisSettings
  redis_config env = record {
    host = env "REDIS_HOST";
    port = parse_int (Option.get_or (env "REDIS_PORT") "6379");
    password = or_undefined (env "REDIS_PASSWORD");
  }

  unfoldable pub app_config : ProcessEnv → AppSettings
  app_config env = record {
    port = parse_int (Option.get_or (env "PORT") "3000");
    node_env = Option.get_or (env "NODE_ENV") "development";
  }

-- `database.url`
unfoldable pub database_config : ProcessEnv → Option String
database_config env = env "DATABASE_URL"

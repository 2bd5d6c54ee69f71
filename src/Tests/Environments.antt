-- ===== src/Tests/Environments.antt =====
-- An environment with some variables set, and a state of the services.
use distributed_ledger_and_t.Prelude.{
  ℤ, pos, String, true, Option, none, some, ◌≡◌, refl, subst, str_eq, if◌then◌else◌,
}
use distributed_ledger_and_t.Config.{ProcessEnv, NodeEnv, EnvVars, validate, queue_config, ◌>>=◌}
use distributed_ledger_and_t.Health.{get_health, degraded, other_value, get_health_exact}
use distributed_ledger_and_t.Config.Settings.{
  is_decimal, decimal_value, ReadsDecimals, IsDecimalIfSet, AreValidated, validate-AreValidated,
}

abbrev read : String → Option ℤ
read text = if is_decimal text then some (decimal_value text) else none

-- Another reading, which takes a text that is no decimal as zero.
abbrev read_or_zero : String → Option ℤ
read_or_zero text = if is_decimal text then some (decimal_value text) else some (pos 0)

read-ReadsDecimals : ReadsDecimals read
read-ReadsDecimals text decimal = rw decimal refl

read_or_zero-ReadsDecimals : ReadsDecimals read_or_zero
read_or_zero-ReadsDecimals text decimal = rw decimal refl

abbrev env : ProcessEnv
env name =
    if str_eq name "DATABASE_URL"
    then some "postgres://localhost/ledger"
    else if str_eq name "REDIS_HOST"
    then some "localhost"
    else if str_eq name "REDIS_PORT"
    then some "6379"
    else if str_eq name "WEBHOOK_MAX_ATTEMPTS"
    then some "12"
    else none

abbrev vars : EnvVars
vars = record {
  node_env = NodeEnv.development;
  port = pos 3000;
  database_url = "postgres://localhost/ledger";
  redis_host = "localhost";
  redis_port = pos 6379;
  redis_password = none;
  queue_prefix = none;
  webhook_backoff_ms = pos 5000;
  webhook_max_attempts = pos 12;
  outbox_poll_interval_ms = pos 5000;
  outbox_batch_size = pos 20;
  outbox_backoff_ms = pos 5000;
  outbox_max_attempts = pos 5;
  outbox_stale_after_ms = pos 30000;
  reconciliation_interval_ms = pos 60000;
}

twelve-IsDecimalIfSet : IsDecimalIfSet env "WEBHOOK_MAX_ATTEMPTS"
twelve-IsDecimalIfSet text e =
    let same : "12" ≡ text = cc in subst (λ t. is_decimal t ≡ true) same refl

unset : (name : String) → env name ≡ none → IsDecimalIfSet env name
unset name missing text e = absurd cc

env_validates : validate read env ≡ some vars
unfolding validate ◌>>=◌
env_validates = refl

validate-AreValidated_example : AreValidated vars (queue_config read_or_zero env)
validate-AreValidated_example =
    validate-AreValidated read read_or_zero read-ReadsDecimals read_or_zero-ReadsDecimals env vars
      (
        twelve-IsDecimalIfSet,
        (
          unset "WEBHOOK_BACKOFF_MS" refl,
          (
            unset "OUTBOX_POLL_INTERVAL_MS" refl,
            (
              unset "OUTBOX_BATCH_SIZE" refl,
              (
                unset "OUTBOX_BACKOFF_MS" refl,
                (
                  unset "OUTBOX_MAX_ATTEMPTS" refl,
                  (
                    unset "OUTBOX_STALE_AFTER_MS" refl,
                    (unset "RECONCILIATION_INTERVAL_MS" refl, tt),
                  ),
                ),
              ),
            ),
          ),
        ),
      )
      env_validates

get_health_exact_example :
    (get_health none (record { waiting = true; connect = some other_value; ping = none }) 7).status
    ≡ degraded
get_health_exact_example =
    get_health_exact none (record { waiting = true; connect = some other_value; ping = none }) 7

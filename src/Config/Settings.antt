-- ===== src/Config/Settings.antt =====
-- The settings of config/queue.config.ts against the validation of config/env.validator.ts.
use Prim.Native.Char.{Char, code}
use mathlib.Core.Option
use distributed_ledger_and_t.Prelude.{
  ℕ, ℤ, pos, ◌≤ℤ◌, leb_ℤ, String, Bool, true, false, Option, none, some, List, [], ◌∷◌, ◌≡◌, refl,
  sym, ap, ◌∙◌, subst, arith, ◌&&◌, leb, ◌+◌, ◌*◌, ◌-◌, Bool-cases, inl, inr, All,
}
use distributed_ledger_and_t.Common.Number.{max_safe_integer}
use distributed_ledger_and_t.Config.{
  ProcessEnv, EnvVars, at_least, number_var, validate, QueueSettings, queue_config, ◌>>=◌,
}

-- A text of decimal digits, and the number that it denotes.
abbrev pub is_digit : Char → Bool
is_digit c = leb 48 (code c) && leb (code c) 57

abbrev digits : String → Bool
digits String.[] = true
digits (String.◌∷◌ c text) = is_digit c && digits text

abbrev is_number : String → Bool
is_number String.[] = false
is_number (String.◌∷◌ c text) = is_digit c && digits text

abbrev pub value_from : ℕ → String → ℕ
value_from n String.[] = n
value_from n (String.◌∷◌ c text) = value_from (n * 10 + (code c - 48)) text

abbrev pub decimal_value : String → ℤ
decimal_value text = pos (value_from 0 text)

-- A text of decimal digits for a number that is at most 2^53 - 1.
abbrev pub is_decimal : String → Bool
is_decimal text = is_number text && leb_ℤ (decimal_value text) max_safe_integer

-- What is documented of `Number` and of `parseInt`, which are exact up to 2^53 - 1.
abbrev pub ReadsDecimals : (String → Option ℤ) → Type 0
ReadsDecimals read =
    (text : String) → is_decimal text ≡ true → read text ≡ some (decimal_value text)

-- A variable is not set, or set to such a text.
abbrev pub IsDecimalIfSet : ProcessEnv → String → Type 0
IsDecimalIfSet env name = (text : String) → env name ≡ some text → is_decimal text ≡ true

abbrev pub queue_variables : List String
queue_variables =
    "WEBHOOK_MAX_ATTEMPTS" ∷ "WEBHOOK_BACKOFF_MS" ∷ "OUTBOX_POLL_INTERVAL_MS" ∷ "OUTBOX_BATCH_SIZE"
    ∷ "OUTBOX_BACKOFF_MS" ∷ "OUTBOX_MAX_ATTEMPTS" ∷ "OUTBOX_STALE_AFTER_MS"
    ∷ "RECONCILIATION_INTERVAL_MS" ∷ []

-- A setting is the validated value, and at least its minimum.
abbrev pub IsSetting : ℤ → ℤ → Option ℤ → Type 0
IsSetting least value setting = (setting ≡ some value) × (least ≤ℤ value)

-- All settings of the queue are those that were validated.
pub record AreValidated (vars : EnvVars) (q : QueueSettings) : Type 0 where
  pub webhook_max_attempts : IsSetting (pos 1) vars.webhook_max_attempts q.webhook_max_attempts
  pub webhook_backoff_ms : IsSetting (pos 100) vars.webhook_backoff_ms q.webhook_backoff_ms
  pub outbox_poll_interval_ms :
      IsSetting (pos 100) vars.outbox_poll_interval_ms q.outbox_poll_interval_ms
  pub outbox_batch_size : IsSetting (pos 1) vars.outbox_batch_size q.outbox_batch_size
  pub outbox_backoff_ms : IsSetting (pos 100) vars.outbox_backoff_ms q.outbox_backoff_ms
  pub outbox_max_attempts : IsSetting (pos 1) vars.outbox_max_attempts q.outbox_max_attempts
  pub outbox_stale_after_ms : IsSetting (pos 100) vars.outbox_stale_after_ms q.outbox_stale_after_ms
  pub reconciliation_interval_ms :
      IsSetting (pos 1000) vars.reconciliation_interval_ms q.reconciliation_interval_ms

abbrev OnSome {ℓ} : {A : Type ℓ} → (A → Type 0) → Option A → Type 0
OnSome P none = Unit
OnSome P (some a) = P a

bind-OnSome {ℓ κ} :
    {A : Type ℓ} {B : Type κ} (P : B → Type 0) (o : Option A) (f : A → Option B)
    → ((a : A) → o ≡ some a → OnSome P (f a))
    → OnSome P (o >>= f)
unfolding ◌>>=◌
bind-OnSome P none f h = tt
bind-OnSome P (some a) f h = h a refl

OnSome-some {ℓ} :
    {A : Type ℓ} (P : A → Type 0) (o : Option A) (a : A) → OnSome P o → o ≡ some a → P a
OnSome-some P none a h e = absurd (ground arith)
OnSome-some P (some b) a h e = let same : b ≡ a = ground arith in subst P same h

at_least-some :
    (least n : ℤ) (o : Option ℤ) → at_least least o ≡ some n → (o ≡ some n) × (least ≤ℤ n)
at_least-some least n none h = absurd (ground arith)
at_least-some least n (some m) h = elim (Bool-cases (leb_ℤ least m)) [
  | inl enough ↦
      let e : m ≡ n = ground arith in (ap some e, subst (λ k. least ≤ℤ k) e (ground arith))
  | inr less ↦ absurd (ground arith)
]

module _ (number_of parse_int : String → Option ℤ) (by_number : ReadsDecimals number_of)
    (by_parse_int : ReadsDecimals parse_int) (env : ProcessEnv) where
  -- A variable with a default, as it is validated and as it is read.
  setting :
      (least : ℤ) (name default_text : String) (value : ℤ)
      → is_decimal default_text ≡ true
      → IsDecimalIfSet env name
      → number_var number_of least (some (decimal_value default_text)) (env name) ≡ some value
      → IsSetting least value (parse_int (Option.get_or (env name) default_text))
  setting least name default_text value decimal if_set h = read (env name) if_set h
    where
      read :
          (o : Option String)
          → ((text : String) → o ≡ some text → is_decimal text ≡ true)
          → number_var number_of least (some (decimal_value default_text)) o ≡ some value
          → IsSetting least value (parse_int (Option.get_or o default_text))
      read none if_set h =
          let (e, enough) = at_least-some least value _ h in
          (by_parse_int default_text decimal ∙ e, enough)
      read (some text) if_set h =
          let (e, enough) = at_least-some least value _ h in
          let is_dec = if_set text refl in
          (by_parse_int text is_dec ∙ sym (by_number text is_dec) ∙ e, enough)

  -- If `Number` and `parseInt` read a text of decimal digits as the number that it denotes, for numbers
  -- of at most 2^53 - 1, the variables of the queue are such texts where they are set, and the
  -- environment passes the validation: every number among the settings of the queue is the validated one,
  -- and at least the minimum of its variable.
  pub validate-AreValidated :
      (vars : EnvVars)
      → All (IsDecimalIfSet env) queue_variables
      → validate number_of env ≡ some vars
      → AreValidated vars (queue_config parse_int env)
  unfolding validate queue_config
  validate-AreValidated vars decimal h =
      OnSome-some (λ v. AreValidated v (queue_config parse_int env)) (validate number_of env) vars
        (bind-OnSome _ _ _ (λ node_env _. bind-OnSome _ _ _ (λ port _. bind-OnSome _ _ _ (λ url _.
          bind-OnSome _ _ _ (λ host _. bind-OnSome _ _ _ (λ redis_port _.
            bind-OnSome _ _ _ (λ webhook_backoff is_backoff.
              bind-OnSome _ _ _ (λ attempts is_attempts. bind-OnSome _ _ _ (λ poll is_poll.
                bind-OnSome _ _ _ (λ batch is_batch. bind-OnSome _ _ _ (λ backoff is_outbox_backoff.
                  bind-OnSome _ _ _ (λ outbox_attempts is_outbox_attempts.
                    bind-OnSome _ _ _ (λ stale is_stale. bind-OnSome _ _ _ (λ interval is_interval.
                      record {
                        webhook_max_attempts =
                            setting (pos 1) "WEBHOOK_MAX_ATTEMPTS" "5" attempts refl decimal.0
                              is_attempts;
                        webhook_backoff_ms =
                            setting (pos 100) "WEBHOOK_BACKOFF_MS" "5000" webhook_backoff refl
                              decimal.1.0 is_backoff;
                        outbox_poll_interval_ms =
                            setting (pos 100) "OUTBOX_POLL_INTERVAL_MS" "5000" poll refl
                              decimal.1.1.0 is_poll;
                        outbox_batch_size =
                            setting (pos 1) "OUTBOX_BATCH_SIZE" "20" batch refl decimal.1.1.1.0
                              is_batch;
                        outbox_backoff_ms =
                            setting (pos 100) "OUTBOX_BACKOFF_MS" "5000" backoff refl
                              decimal.1.1.1.1.0 is_outbox_backoff;
                        outbox_max_attempts =
                            setting (pos 1) "OUTBOX_MAX_ATTEMPTS" "5" outbox_attempts refl
                              decimal.1.1.1.1.1.0 is_outbox_attempts;
                        outbox_stale_after_ms =
                            setting (pos 100) "OUTBOX_STALE_AFTER_MS" "30000" stale refl
                              decimal.1.1.1.1.1.1.0 is_stale;
                        reconciliation_interval_ms =
                            setting (pos 1000) "RECONCILIATION_INTERVAL_MS" "60000" interval refl
                              decimal.1.1.1.1.1.1.1.0 is_interval;
                      }))))))))))))))
        h

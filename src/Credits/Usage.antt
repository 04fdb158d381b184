-- ===== src/Credits/Usage.antt =====
-- credits/usage.go and validateUsage of credits/validate.go: the audit trail of calls.
pub mod Laws
use ai_credits.Prelude.{
  Bool, List, Option, Str, [], codes, false, if◌then◌else◌, none, not, some, str_eq, suc, true,
  zero, ℕ, ◌&&◌, ◌==◌, ◌||◌, ◌∷◌,
}
use ai_credits.Credits.Db.{Env}
use ai_credits.Credits.Errors.{
  Error, Result, byok_charge, driver, err, fail_if, invalid_billing_mode, negative_usage, no_random,
  ok, ◌>>=◌, ◌>>◌,
}
use ai_credits.Credits.Pricing.{Pricer}
use ai_credits.Credits.Validate.{require_identifiers}
use ai_credits.Prelude.Int.{eqb_ℤ, ltb_ℤ, pos, ℤ}

abbrev pub billing_mode_managed : Str
billing_mode_managed = codes "managed"

abbrev pub billing_mode_byok : Str
billing_mode_byok = codes "byok"

-- The struct Usage; a zero time is `none`.
pub record Usage : Type 0 where
  pub request_id : Str
  pub user_id : Str
  pub provider : Str
  pub model : Str
  pub billing_mode : Str
  pub input_tokens : ℤ
  pub output_tokens : ℤ
  pub cached_tokens : ℤ
  pub reasoning_tokens : ℤ
  pub cost_microunits : ℤ
  pub credits_charged : ℤ
  pub pricing_version : Str
  pub created_at : Option ℤ

-- A row of llm_usage: its id, its time, the version of the prices, and what the call reports. The
-- column of the estimated cost is always NULL.
pub record UsageRow : Type 0 where
  pub id : Str
  pub usage : Usage
  pub version : Str
  pub at : ℤ

abbrev pub bad_mode : Usage → Bool
bad_mode u =
    not (str_eq u.billing_mode billing_mode_managed)
    && not (str_eq u.billing_mode billing_mode_byok)

abbrev pub any_negative : Usage → Bool
any_negative u =
    ltb_ℤ u.input_tokens (pos 0)
    || ltb_ℤ u.output_tokens (pos 0)
    || ltb_ℤ u.cached_tokens (pos 0)
    || ltb_ℤ u.reasoning_tokens (pos 0)
    || ltb_ℤ u.cost_microunits (pos 0)
    || ltb_ℤ u.credits_charged (pos 0)

-- `validateUsage`
unfoldable pub validate_usage : Usage → Result (Unit {0})
validate_usage u = do
  require_identifiers (
      (codes "request_id", u.request_id)
      ∷ (codes "user_id", u.user_id)
      ∷ (codes "provider", u.provider)
      ∷ (codes "model", u.model)
      ∷ [])
  fail_if (bad_mode u) invalid_billing_mode
  fail_if (any_negative u) negative_usage
  fail_if (str_eq u.billing_mode billing_mode_byok && not (eqb_ℤ u.credits_charged (pos 0)))
      byok_charge

-- `strings.HasPrefix` and `strings.Contains`
abbrev pub starts_with : Str → Str → Bool
starts_with s [] = true
starts_with [] (y ∷ t) = false
starts_with (x ∷ s) (y ∷ t) = (x == y) && starts_with s t

unfoldable pub contains : Str → Str → Bool
contains [] t = starts_with [] t
contains (x ∷ s) t = starts_with (x ∷ s) t || contains s t

-- `isUsageRequestDuplicate` and `isBusyError`, on the text of an error of the driver.
abbrev pub is_usage_request_duplicate : Str → Bool
is_usage_request_duplicate e = contains e (codes "UNIQUE constraint failed: llm_usage.request_id")

abbrev pub is_busy_text : Str → Bool
is_busy_text e = contains e (codes "database is locked") || contains e (codes "database is busy")

unfoldable pub is_busy_error : Error → Bool
unfolding contains
is_busy_error (driver e) = is_busy_text e
is_busy_error _ = false

unfoldable pub usage_id_used : Str → List UsageRow → Bool
usage_id_used i [] = false
usage_id_used i (r ∷ rest) = str_eq r.id i || usage_id_used i rest

unfoldable pub usage_recorded : Str → List UsageRow → Bool
usage_recorded q [] = false
usage_recorded q (r ∷ rest) = str_eq r.usage.request_id q || usage_recorded q rest

abbrev pub time_or : ℤ → Option ℤ → ℤ
time_or now none = now
time_or now (some t) = t

abbrev pub usage_row : Env → Str → Pricer → Usage → UsageRow
usage_row env id p u = record {
  id = id;
  usage = u;
  version = if str_eq u.pricing_version [] then p.version else u.pricing_version;
  at = time_or env.now u.created_at;
}

-- The error of the INSERT, if it has one: of the driver, of the primary key, or of the unique request.
unfoldable pub insert_error : Env → UsageRow → List UsageRow → Option Str
unfolding usage_id_used usage_recorded
insert_error env r rows = elim (env.stmt 0) [
  | some e ↦ some e
  | none ↦
      if usage_id_used r.id rows
      then some (codes "UNIQUE constraint failed: llm_usage.id")
      else if usage_recorded r.usage.request_id rows
      then some (codes "UNIQUE constraint failed: llm_usage.request_id")
      else none
]

-- The result of the INSERT: a request that is recorded already is no error.
abbrev pub inserted : Option Str → UsageRow → List UsageRow → Result (Unit {0}) × List UsageRow
inserted none r rows = (ok tt, r ∷ rows)
inserted (some e) r rows =
    if is_usage_request_duplicate e then (ok tt, rows) else (err (driver e), rows)

-- The rest of `RecordUsage`, once the usage is valid.
abbrev pub insert_usage :
    Env → Option Str → Pricer → Usage → List UsageRow → Result (Unit {0}) × List UsageRow
insert_usage env none p u rows = (err no_random, rows)
insert_usage env (some id) p u rows =
    inserted (insert_error env (usage_row env id p u) rows) (usage_row env id p u) rows

abbrev pub insert_valid :
    Result (Unit {0}) → Env → Pricer → Usage → List UsageRow → Result (Unit {0}) × List UsageRow
insert_valid (err e) env p u rows = (err e, rows)
insert_valid (ok _) env p u rows = insert_usage env env.new_id p u rows

unfoldable pub record_usage :
    Env → Pricer → Usage → List UsageRow → Result (Unit {0}) × List UsageRow
unfolding insert_error contains
record_usage env p u rows = insert_valid (validate_usage u) env p u rows

-- The wait between two attempts: the context may end first.
abbrev pub wait_then :
    Option Str
    → (List UsageRow → Result (Unit {0}) × List UsageRow)
    → List UsageRow
    → Result (Unit {0}) × List UsageRow
wait_then none retry rows = retry rows
wait_then (some c) retry rows = (err (driver c), rows)

-- What follows an attempt: its result, the error of a context that is ended, or the next attempt.
abbrev pub after_attempt :
    Bool
    → Option Str
    → (List UsageRow → Result (Unit {0}) × List UsageRow)
    → Result (Unit {0}) × List UsageRow
    → Result (Unit {0}) × List UsageRow
after_attempt last ended retry (ok _, rows) = (ok tt, rows)
after_attempt last ended retry (err e, rows) =
    if not (is_busy_error e) || last then (err e, rows) else wait_then ended retry rows

-- The loop of `RecordUsageRetry`: for each attempt its environment, and after it the error of the
-- context, if it is ended before the timer fires.
unfoldable pub attempts_left :
    ℕ
    → (ℕ → Env)
    → (ℕ → Option Str)
    → Pricer
    → Usage
    → List UsageRow
    → Result (Unit {0}) × List UsageRow
unfolding is_busy_error record_usage
attempts_left zero each ended p u rows = (ok tt, rows)
attempts_left (suc n) each ended p u rows =
    after_attempt (n == 0) (ended 0) (attempts_left n (λ k. each (suc k)) (λ k. ended (suc k)) p u)
      (record_usage (each 0) p u rows)

abbrev pub attempts : ℕ
attempts = 3

unfoldable pub record_usage_retry :
    (ℕ → Env)
    → (ℕ → Option Str)
    → Pricer
    → Usage
    → List UsageRow
    → Result (Unit {0}) × List UsageRow
unfolding attempts_left
record_usage_retry each ended p u rows = attempts_left attempts each ended p u rows

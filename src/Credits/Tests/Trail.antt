-- ===== src/Credits/Tests/Trail.antt =====
-- The laws of the audit trail at one call.
use ai_credits.Prelude.{
  [], codes, false, none, refl, some, str_dec, suc, true, zero, ℕ, ℕ_discrete, ◌∷◌, ◌≡◌,
}
use ai_credits.Credits.Db.{Env, calm}
use ai_credits.Credits.Errors.{ok}
use ai_credits.Credits.Pricing.{Pricer}
use ai_credits.Credits.Tests.{ann, env1, request}
use ai_credits.Credits.Usage.{
  Usage, UsageRow, attempts_left, billing_mode_managed, contains, insert_error, is_busy_error,
  record_usage, record_usage_retry, usage_id_used, usage_recorded, usage_row, validate_usage,
}
use ai_credits.Credits.Usage.Laws.{
  IsClean, IsRowOf, Records, record_usage_lem, record_usage_retry_once, validate_usage-IsValid,
}
use ai_credits.Credits.Validate.{is_blank, require_identifier, require_identifiers}
use ai_credits.Prelude.Int.{pos}

abbrev pub call_usage : Usage
call_usage = record {
  request_id = request;
  user_id = ann;
  provider = codes "openai";
  model = codes "gpt-4o";
  billing_mode = billing_mode_managed;
  input_tokens = pos 1000;
  output_tokens = pos 500;
  cached_tokens = pos 0;
  reasoning_tokens = pos 0;
  cost_microunits = pos 7500;
  credits_charged = pos 8;
  pricing_version = [];
  created_at = none;
}

abbrev small_pricer : Pricer
small_pricer = record { version = codes "v1"; microunits_per_credit = pos 1000; models = [] }

-- An environment whose insert meets a lock.
abbrev busy : Env
busy = record env1 { stmt = λ n. some (codes "database is locked") }

abbrev busy_once : ℕ → Env
busy_once zero = busy
busy_once (suc n) = env1

valid_run : validate_usage call_usage ≡ ok tt
unfolding validate_usage require_identifiers require_identifier is_blank str_dec ℕ_discrete
valid_run = refl

-- The second attempt succeeds.
retry_run :
    record_usage_retry busy_once (λ n. none) small_pricer call_usage []
    ≡ (ok tt, usage_row env1 (codes "t1") small_pricer call_usage ∷ [])
unfolding validate_usage require_identifiers require_identifier is_blank str_dec ℕ_discrete
    record_usage_retry attempts_left record_usage is_busy_error insert_error contains usage_id_used
    usage_recorded
retry_run = refl

record_usage_retry_once_example :
    Records call_usage [] (record_usage_retry busy_once (λ n. none) small_pricer call_usage [])
    × (IsClean [] → IsClean (record_usage_retry busy_once (λ n. none) small_pricer call_usage []).1)
record_usage_retry_once_example =
    record_usage_retry_once busy_once (λ n. none) small_pricer call_usage []

record_usage_lem_example :
    (usage_recorded call_usage.request_id [] ≡ true
      → record_usage (calm (pos 5) (codes "t9")) small_pricer call_usage [] ≡ (ok tt, []))
    × (usage_recorded call_usage.request_id [] ≡ false
        → (r : UsageRow) × IsRowOf (pos 5) (codes "t9") small_pricer call_usage r
          × (record_usage (calm (pos 5) (codes "t9")) small_pricer call_usage [] ≡ (ok tt, r ∷ [])))
unfolding usage_id_used
record_usage_lem_example =
    record_usage_lem (pos 5) (codes "t9") small_pricer call_usage []
      (validate_usage-IsValid call_usage tt valid_run) refl

-- ===== src/Credits/Monthly.antt =====
-- credits/monthly.go: the lazy grant of a plan's credits, once for each user and month.
pub mod Key
use ai_credits.Prelude.{
  Bool, List, Option, Str, [], codes, false, if◌then◌else◌, none, some, str_eq, true, ◌++◌, ◌∷◌,
}
use ai_credits.Credits.Db.{Db, Env, Subscription, SubscriptionStatus}
use ai_credits.Credits.Errors.{Result, duplicate_grant, err, ok, subscription_not_found}
use ai_credits.Credits.Ledger.{grant}
use ai_credits.Credits.Subscription.{subscription}
use ai_credits.Prelude.Int.{leb_ℤ, pos, ℤ}

-- The fields of Config of credits/credits.go that grants and reconciliation read. A nil map of
-- plans is the empty list.
pub record Config : Type 0 where
  pub monthly_credits : ℤ
  pub plan_monthly_credits : List (Str × ℤ)
  pub reservation_timeout : ℤ

abbrev pub monthly_prefix : Str
monthly_prefix = codes "monthly:"

unfoldable pub monthly_grant_key : Str → Str → Str
monthly_grant_key user period = monthly_prefix ++ (user ++ (codes ":" ++ period))

unfoldable pub find_plan : Str → List (Str × ℤ) → Option ℤ
find_plan plan [] = none
find_plan plan ((p, v) ∷ rest) = if str_eq p plan then some v else find_plan plan rest

abbrev pub plan_or : ℤ → Option ℤ → ℤ
plan_or d none = d
plan_or d (some v) = v

unfoldable pub plan_credit_for : Config → Str → ℤ
plan_credit_for cfg plan =
    if str_eq plan []
    then cfg.monthly_credits
    else plan_or cfg.monthly_credits (find_plan plan cfg.plan_monthly_credits)

-- The result of the grant, where a key that is used already counts as granted this period.
abbrev pub as_granted : Result (Unit {0}) × Db → Result Bool × Db
as_granted (ok _, db) = (ok true, db)
as_granted (err duplicate_grant, db) = (ok false, db)
as_granted (err e, db) = (err e, db)

abbrev pub monthly_source : Str
monthly_source = codes "monthly"

abbrev pub monthly_reason : Str
monthly_reason = codes "monthly_grant"

-- The rest of `EnsureMonthlyGrant`, once the entitlement gate is passed. `period` is the month that
-- the clock shows in UTC, as YYYY-MM.
unfoldable pub grant_period : Config → Env → Str → Str → Str → Db → Result Bool × Db
grant_period cfg env period user plan db =
    if leb_ℤ (plan_credit_for cfg plan) (pos 0)
    then (ok false, db)
    else as_granted (
        grant env user (plan_credit_for cfg plan) monthly_source monthly_reason
          (monthly_grant_key user period) db)

abbrev pub gate_status : SubscriptionStatus → (Db → Result Bool × Db) → Db → Result Bool × Db
gate_status SubscriptionStatus.active rest db = rest db
gate_status _ rest db = (ok false, db)

-- The entitlement gate: a subscription that is there must be active.
abbrev pub gate : Result Subscription → (Db → Result Bool × Db) → Db → Result Bool × Db
gate (err subscription_not_found) rest db = rest db
gate (err e) rest db = (err e, db)
gate (ok x) rest db = gate_status x.status rest db

unfoldable pub ensure_monthly_grant : Config → Env → Str → Str → Str → Db → Result Bool × Db
ensure_monthly_grant cfg env period user plan db =
    gate (subscription env user db) (grant_period cfg env period user plan) db

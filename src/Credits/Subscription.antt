-- ===== src/Credits/Subscription.antt =====
-- credits/subscription.go: the optional entitlement that gates the monthly grant.
pub mod Laws
use ai_credits.Prelude.{List, Option, Str, [], codes, if◌then◌else◌, none, some, str_eq, ◌∷◌}
use ai_credits.Credits.Db.{Db, Env, Subscription, SubscriptionStatus, attempt, checked}
use ai_credits.Credits.Errors.{
  Result, driver, err, first_error, invalid_subscription_status, ok, subscription_not_found,
}
use ai_credits.Credits.Validate.{require_identifier}
use ai_credits.Prelude.Int.{ℤ}

-- The texts of the three statuses; any other text is refused.
unfoldable pub parse_status : Str → Option SubscriptionStatus
parse_status s =
    if str_eq s (codes "active")
    then some SubscriptionStatus.active
    else if str_eq s (codes "paused")
    then some SubscriptionStatus.paused
    else if str_eq s (codes "cancelled")
    then some SubscriptionStatus.cancelled
    else none

-- SELECT … FROM subscriptions WHERE user_id = ?
unfoldable pub find_subscription : Str → List Subscription → Option Subscription
find_subscription u [] = none
find_subscription u (x ∷ rest) = if str_eq x.user_id u then some x else find_subscription u rest

-- INSERT INTO subscriptions … ON CONFLICT(user_id) DO UPDATE SET plan, status, updated_at
unfoldable pub upsert_subscription :
    Str → Str → SubscriptionStatus → ℤ → List Subscription → List Subscription
upsert_subscription u plan status now [] =
    record { user_id = u; plan = plan; status = status; created_at = now; updated_at = now } ∷ []
upsert_subscription u plan status now (x ∷ rest) =
    if str_eq x.user_id u
    then record x { plan = plan; status = status; updated_at = now } ∷ rest
    else x ∷ upsert_subscription u plan status now rest

abbrev pub subscription_checks : Str → Str → Result (Unit {0})
subscription_checks user plan =
    first_error
      (require_identifier (codes "user_id") user ∷ require_identifier (codes "plan") plan ∷ [])

abbrev pub write_subscription :
    Env → Str → Str → Option SubscriptionStatus → Db → Result (Unit {0}) × Db
write_subscription env user plan none db = (err invalid_subscription_status, db)
write_subscription env user plan (some status) db =
    attempt (env.stmt 0)
      (λ db. (
        ok tt,
        record db { subscriptions = upsert_subscription user plan status env.now db.subscriptions },
      ))
      db

unfoldable pub set_subscription : Env → Str → Str → Str → Db → Result (Unit {0}) × Db
set_subscription env user plan status =
    checked (subscription_checks user plan) (write_subscription env user plan (parse_status status))

abbrev pub found_subscription : Option Str → Option Subscription → Result Subscription
found_subscription (some e) o = err (driver e)
found_subscription none none = err subscription_not_found
found_subscription none (some x) = ok x

unfoldable pub subscription : Env → Str → Db → Result Subscription
subscription env user db = found_subscription (env.stmt 3) (find_subscription user db.subscriptions)

abbrev pub cancel_found : Env → Str → Result Subscription → Db → Result (Unit {0}) × Db
cancel_found env user (err e) db = (err e, db)
cancel_found env user (ok x) db = set_subscription env user x.plan (codes "cancelled") db

unfoldable pub cancel_subscription : Env → Str → Db → Result (Unit {0}) × Db
unfolding set_subscription subscription
cancel_subscription env user db = cancel_found env user (subscription env user db) db

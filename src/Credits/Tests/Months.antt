-- ===== src/Credits/Tests/Months.antt =====
-- The laws of monthly grants and subscriptions at the small tables.
use ai_credits.Prelude.{[], codes, false, refl, some, str_dec, str_eq, true, ℕ_discrete, ◌≡◌, ◌≢◌}
use ai_credits.Credits.Db.{Subscription}
use ai_credits.Credits.Errors.{ok}
use ai_credits.Credits.Monthly.{ensure_monthly_grant}
use ai_credits.Credits.Sound.{empty_db}
use ai_credits.Credits.Subscription.{parse_status, subscription}
use ai_credits.Credits.Subscription.Laws.{subscription-set_subscription}
use ai_credits.Credits.System.{here, start}
use ai_credits.Credits.System.Monthly.{cancelled_gets_nothing, monthly_grant_once}
use ai_credits.Credits.Tests.{
  ann, bob, cancelled, cfg, env1, env2, env3, month, month_granted, pro, subscribed,
}
use ai_credits.Credits.Tests.Runs.{cancel_run, month_run, subscribe_run}

monthly_grant_once_example :
    ((ensure_monthly_grant cfg env3 month ann pro month_granted.db).1 ≡ month_granted.db)
    × ((ensure_monthly_grant cfg env3 month ann pro month_granted.db).0 ≢ ok true)
monthly_grant_once_example =
    monthly_grant_once start month_granted cfg cfg env1 env3 month ann [] pro month_granted.db
      month_run here

cancelled_gets_nothing_example :
    ensure_monthly_grant cfg env3 month ann pro cancelled.db ≡ (ok false, cancelled.db)
cancelled_gets_nothing_example =
    cancelled_gets_nothing cfg env2 env3 month ann pro subscribed.db cancelled.db refl cancel_run

apart_run : str_eq ann bob ≡ false
unfolding str_dec ℕ_discrete
apart_run = refl

subscription-set_subscription_example :
    ((x : Subscription) × (subscription env2 ann subscribed.db ≡ ok x)
      × (x.user_id ≡ ann)
      × (x.plan ≡ pro)
      × (parse_status (codes "active") ≡ some x.status))
    × (subscription env2 bob subscribed.db ≡ subscription env2 bob empty_db)
subscription-set_subscription_example =
    subscription-set_subscription env1 env2 ann bob pro (codes "active") empty_db subscribed.db refl
      apart_run subscribe_run

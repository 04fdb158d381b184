-- ===== src/Credits/System/Monthly.antt =====
-- credits/monthly.go: at most one grant for each user and month, and none without entitlement.
use ai_credits.Prelude.{
  Bool-cases, Option, Str, ap, arith, codes, false, inl, inr, none, refl, some, str_dec, true, ◌∙◌,
  ◌≡◌, ◌≢◌,
}
use ai_credits.Credits.Db.{Db, Env, Subscription, SubscriptionStatus}
use ai_credits.Credits.Errors.{Error, Result, err, ok}
use ai_credits.Credits.Ledger.{grant}
use ai_credits.Credits.Monthly.{
  Config, as_granted, ensure_monthly_grant, gate, grant_period, monthly_grant_key, monthly_reason,
  monthly_source, plan_credit_for,
}
use ai_credits.Credits.Subscription.{
  cancel_found, cancel_subscription, find_subscription, found_subscription, parse_status,
  subscription,
}
use ai_credits.Credits.Subscription.Laws.{
  IsWritten, set_subscription-ok, upsert_subscription-IsWritten,
}
use ai_credits.Credits.System.{Reach, State}
use ai_credits.Credits.System.Books.{grant_once}
use ai_credits.Credits.System.Plans.{ensure_monthly_grant-GrantsOnce}
use ai_credits.Credits.Tests.{cfg}
use ai_credits.Prelude.Int.{leb_ℤ, pos}

as_granted-true :
    (x : Result (Unit {0}) × Db) (db : Db) → as_granted x ≡ (ok true, db) → x ≡ (ok tt, db)
as_granted-true (ok u, db1) db h = cc
as_granted-true (err e, db1) db h = absurd (ground arith)

module _ (cfg : Config) (env : Env) (period user plan : Str) (db db' : Db) where
  grant_period-true :
      grant_period cfg env period user plan db ≡ (ok true, db')
      → grant env user
          (plan_credit_for cfg plan)
          monthly_source
          monthly_reason
          (monthly_grant_key user period)
          db
        ≡ (ok tt, db')
  unfolding grant_period
  grant_period-true h = elim (Bool-cases (leb_ℤ (plan_credit_for cfg plan) (pos 0))) [
    | inl p ↦ absurd (ground arith)
    | inr p ↦ as_granted-true _ db' (rw p at h)
  ]

  gate-true :
      (r : Result Subscription)
      → gate r (grant_period cfg env period user plan) db ≡ (ok true, db')
      → grant_period cfg env period user plan db ≡ (ok true, db')
  gate-true (err e) h = ground arith
  gate-true (ok x) h = ground arith

  -- A monthly grant that reports success was a grant of the plan's credits under the key of the user
  -- and the month.
  pub ensure_monthly_grant-true :
      ensure_monthly_grant cfg env period user plan db ≡ (ok true, db')
      → grant env user
          (plan_credit_for cfg plan)
          monthly_source
          monthly_reason
          (monthly_grant_key user period)
          db
        ≡ (ok tt, db')
  unfolding ensure_monthly_grant
  ensure_monthly_grant-true h = grant_period-true (gate-true (subscription env user db) h)

-- Once a monthly grant has reported success, no later one for the same user and month changes the
-- database, whatever calls came between, and whatever the plan, the configuration and the environment
-- are; and it does not report success again.
pub monthly_grant_once :
    (s t : State) (cfg cfg' : Config) (env env' : Env) (period user plan plan' : Str) (db : Db)
    → ensure_monthly_grant cfg env period user plan s.db ≡ (ok true, db)
    → Reach (record s { db = db }) t
    → ((ensure_monthly_grant cfg' env' period user plan' t.db).1 ≡ t.db)
      × ((ensure_monthly_grant cfg' env' period user plan' t.db).0 ≢ ok true)
monthly_grant_once s t cfg cfg' env env' period user plan plan' db h reach =
    let first = ensure_monthly_grant-true cfg env period user plan s.db db h in
    let (e, refused) =
      (grant_once s t env env' user user _ (plan_credit_for cfg' plan') _ monthly_source _
        monthly_reason (monthly_grant_key user period) db first reach).0 in
    (
      elim (ensure_monthly_grant-GrantsOnce cfg' env' period user plan' t.db) [
        | inl same ↦ same
        | inr same ↦ same ∙ ap (λ x. x.1) refused
      ],
      λ p.
          not_again e refused (ensure_monthly_grant cfg' env' period user plan' t.db).1
            (ap (λ r. (r, (ensure_monthly_grant cfg' env' period user plan' t.db).1)) p),
    )
  where
    not_again :
        (e : Error)
        → grant env' user
            (plan_credit_for cfg' plan')
            monthly_source
            monthly_reason
            (monthly_grant_key user period)
            t.db
          ≡ (err e, t.db)
        → (db' : Db) → ensure_monthly_grant cfg' env' period user plan' t.db ≡ (ok true, db')
        → ⊥
    not_again e refused db' p =
        absurd (cc (refused, ensure_monthly_grant-true cfg' env' period user plan' t.db db' p))

parse_cancelled : parse_status (codes "cancelled") ≡ some SubscriptionStatus.cancelled
unfolding parse_status str_dec
parse_cancelled = refl

-- After a cancellation that succeeded, a monthly grant of that user whose read of the subscription
-- succeeds grants nothing, whatever the plan, the month and the configuration.
pub cancelled_gets_nothing :
    (cfg : Config) (env env' : Env) (period user plan : Str) (db db' : Db)
    → env'.stmt 3 ≡ none
    → cancel_subscription env user db ≡ (ok tt, db')
    → ensure_monthly_grant cfg env' period user plan db' ≡ (ok false, db')
unfolding ensure_monthly_grant subscription cancel_subscription
cancelled_gets_nothing cfg env env' period user plan db db' fine h = rw fine (go _ refl h)
  where
    gated :
        (o : Option Subscription) (plan' : Str)
        → IsWritten user plan' SubscriptionStatus.cancelled o
        → gate (found_subscription none o) (grant_period cfg env' period user plan) db'
          ≡ (ok false, db')
    gated none plan' w = absurd w
    gated (some x) plan' w = rw w.2 refl

    cancelled_parses :
        (st : SubscriptionStatus)
        → parse_status (codes "cancelled") ≡ some st
        → SubscriptionStatus.cancelled ≡ st
    cancelled_parses st p = cc (p, parse_cancelled)

    go :
        (r : Result Subscription)
        → subscription env user db ≡ r
        → cancel_found env user r db ≡ (ok tt, db')
        → gate
            (found_subscription none (find_subscription user db'.subscriptions))
            (grant_period cfg env' period user plan)
            db'
          ≡ (ok false, db')
    go (err e) q p = absurd (ground arith)
    go (ok x) q p =
        let (st, parsed, e) = set_subscription-ok env user x.plan (codes "cancelled") db db' p in
        gated _ x.plan (
          rw (e, cancelled_parses st parsed)
            (upsert_subscription-IsWritten user x.plan st env.now db.subscriptions))

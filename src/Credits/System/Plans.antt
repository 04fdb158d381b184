-- ===== src/Credits/System/Plans.antt =====
-- What the calls of credits/subscription.go and credits/monthly.go can do to the tables.
use ai_credits.Prelude.{Bool-cases, List, Option, Str, codes, inl, inr, none, refl, some, ◌≡◌, ◌⊎◌}
use ai_credits.Credits.Db.{Db, Env, Subscription, SubscriptionStatus, checked}
use ai_credits.Credits.Errors.{Result, duplicate_grant, err, ok, subscription_not_found}
use ai_credits.Credits.Ledger.{grant}
use ai_credits.Credits.Monthly.{
  Config, as_granted, ensure_monthly_grant, gate, gate_status, grant_period, monthly_grant_key,
  monthly_reason, monthly_source, plan_credit_for,
}
use ai_credits.Credits.Subscription.{
  cancel_found, cancel_subscription, parse_status, set_subscription, subscription,
  subscription_checks, upsert_subscription, write_subscription,
}
use ai_credits.Credits.Tests.{cfg}
use ai_credits.Prelude.Int.{leb_ℤ, pos}

-- A call that changes the subscriptions at most.
abbrev pub OnlySubscriptions : Db → Db → Type 0
OnlySubscriptions db db' = (l : List Subscription) × (db' ≡ record db { subscriptions = l })

pub set_subscription-Only :
    (env : Env) (user plan status : Str) (db : Db)
    → OnlySubscriptions db (set_subscription env user plan status db).1
unfolding set_subscription
set_subscription-Only env user plan status db =
    go (subscription_checks user plan) (parse_status status) (env.stmt 0)
  where
    go :
        (r : Result (Unit {0})) (o : Option SubscriptionStatus) (q : Option Str)
        → OnlySubscriptions db
            (checked r (write_subscription (record env { stmt = λ n. q }) user plan o) db).1
    go (err e) o q = (db.subscriptions, refl)
    go (ok u) none q = (db.subscriptions, refl)
    go (ok u) (some st) (some e) = (db.subscriptions, refl)
    go (ok u) (some st) none = (upsert_subscription user plan st env.now db.subscriptions, refl)

pub cancel_subscription-Only :
    (env : Env) (user : Str) (db : Db) → OnlySubscriptions db (cancel_subscription env user db).1
unfolding cancel_subscription
cancel_subscription-Only env user db = go (subscription env user db)
  where
    go : (r : Result Subscription) → OnlySubscriptions db (cancel_found env user r db).1
    go (err e) = (db.subscriptions, refl)
    go (ok x) = set_subscription-Only env user x.plan (codes "cancelled") db

as_granted-db : (x : Result (Unit {0}) × Db) → (as_granted x).1 ≡ x.1
as_granted-db (ok u, db) = refl
as_granted-db (err duplicate_grant, db) = refl
as_granted-db (err e, db) = refl

-- The tables are left as they are, or as one monthly grant leaves them.
abbrev pub GrantsOnce : Config → Env → Str → Str → Str → Db → Db → Type 0
GrantsOnce cfg env period user plan db out =
    (out ≡ db)
    ⊎ (out
        ≡ (grant env user (plan_credit_for cfg plan) monthly_source monthly_reason
            (monthly_grant_key user period) db).1)

module _ (cfg : Config) (env : Env) (period user plan : Str) (db : Db) where
  grant_period-GrantsOnce :
      GrantsOnce cfg env period user plan db (grant_period cfg env period user plan db).1
  unfolding grant_period
  grant_period-GrantsOnce = elim (Bool-cases (leb_ℤ (plan_credit_for cfg plan) (pos 0))) [
    | inl h ↦ rw h (inl refl)
    | inr h ↦ rw h (inr (as_granted-db _))
  ]

  gate_status-GrantsOnce :
      (st : SubscriptionStatus)
      → GrantsOnce cfg env period user plan db
          (gate_status st (grant_period cfg env period user plan) db).1
  gate_status-GrantsOnce SubscriptionStatus.active = grant_period-GrantsOnce
  gate_status-GrantsOnce _ = inl refl

  gate-GrantsOnce :
      (r : Result Subscription)
      → GrantsOnce cfg env period user plan db (gate r (grant_period cfg env period user plan) db).1
  gate-GrantsOnce (ok x) = gate_status-GrantsOnce x.status
  gate-GrantsOnce (err subscription_not_found) = grant_period-GrantsOnce
  gate-GrantsOnce (err e) = inl refl

  pub ensure_monthly_grant-GrantsOnce :
      GrantsOnce cfg env period user plan db (ensure_monthly_grant cfg env period user plan db).1
  unfolding ensure_monthly_grant
  ensure_monthly_grant-GrantsOnce = gate-GrantsOnce (subscription env user db)

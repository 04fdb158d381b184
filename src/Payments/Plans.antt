-- ===== src/Payments/Plans.antt =====
-- payments/payments.go: the subscriptions that a provider reports, and the grants of their periods.
pub mod Latest
use ai_credits.Prelude.{
  Bool, List, Option, Str, [], codes, false, if◌then◌else◌, ltb, none, some, str_eq, suc, true,
  zero, ℕ, ◌%◌, ◌&&◌, ◌++◌, ◌+◌, ◌/◌, ◌==◌, ◌||◌, ◌∷◌,
}
use ai_credits.Credits.Db.{Env}
use ai_credits.Credits.Errors.{
  Result, driver, err, incomplete_subscription_event, invalid_subscription_status, no_rows, ok,
  subscription_grant,
}
use ai_credits.Credits.Subscription.{subscription}
use ai_credits.Credits.System.{start}
use ai_credits.Payments.Postings.{Ledger, forgive}
use ai_credits.Prelude.Int.{leb_ℤ, ltb_ℤ, pos, pos_part, ℤ}

-- The statuses that are stored.
pub data PlanStatus : Type 0 where
  active trialing paused past_due unpaid cancelled : PlanStatus

pub record SubscriptionEvent : Type 0 where
  pub provider : Str
  pub event_id : Str
  pub subscription_id : Str
  pub user_id : Str
  pub plan : Str
  pub status : Str
  pub period_start : ℤ
  pub period_end : ℤ
  pub event_created : ℤ
  pub trial_start : ℤ
  pub trial_end : ℤ
  pub cancel_at : ℤ
  pub cancel_at_period_end : Bool

-- A row of payment_subscriptions.
pub record PlanRow : Type 0 where
  pub provider : Str
  pub subscription_id : Str
  pub user_id : Str
  pub plan : Str
  pub status : PlanStatus
  pub period_start : ℤ
  pub period_end : ℤ
  pub last_event_created : ℤ
  pub updated_at : ℤ
  pub trial_start : ℤ
  pub trial_end : ℤ
  pub cancel_at : ℤ
  pub cancel_at_period_end : ℕ
  pub canceled_at : ℤ

abbrev pub is_plan_incomplete : SubscriptionEvent → Bool
is_plan_incomplete e =
    str_eq e.provider []
    || str_eq e.event_id []
    || str_eq e.subscription_id []
    || str_eq e.user_id []
    || str_eq e.plan []
    || leb_ℤ e.event_created (pos 0)

abbrev pub one_of : List Str → Str → Bool
one_of [] s = false
one_of (t ∷ rest) s = str_eq s t || one_of rest s

-- The switch of ApplySubscription.
unfoldable pub plan_status : Str → Option PlanStatus
plan_status s =
    if str_eq s (codes "active")
    then some PlanStatus.active
    else if str_eq s (codes "trialing")
    then some PlanStatus.trialing
    else if str_eq s (codes "paused")
    then some PlanStatus.paused
    else if str_eq s (codes "unpaid")
    then some PlanStatus.unpaid
    else if one_of (codes "cancelled" ∷ codes "canceled" ∷ []) s
    then some PlanStatus.cancelled
    else if one_of (codes "past_due" ∷ codes "incomplete" ∷ codes "incomplete_expired" ∷ []) s
    then some PlanStatus.past_due
    else none

abbrev pub bool_to_int : Bool → ℕ
bool_to_int true = 1
bool_to_int false = 0

abbrev pub canceled_time : ℤ → PlanStatus → ℤ
canceled_time now PlanStatus.cancelled = now
canceled_time now _ = pos 0

abbrev pub plan_row : ℤ → SubscriptionEvent → PlanStatus → PlanRow
plan_row now e status = record {
  provider = e.provider;
  subscription_id = e.subscription_id;
  user_id = e.user_id;
  plan = e.plan;
  status = status;
  period_start = e.period_start;
  period_end = e.period_end;
  last_event_created = e.event_created;
  updated_at = now;
  trial_start = e.trial_start;
  trial_end = e.trial_end;
  cancel_at = e.cancel_at;
  cancel_at_period_end = bool_to_int e.cancel_at_period_end;
  canceled_at = canceled_time now status;
}

abbrev pub is_plan : Str → Str → PlanRow → Bool
is_plan provider id r = str_eq r.provider provider && str_eq r.subscription_id id

-- ON CONFLICT DO UPDATE … WHERE excluded.last_event_created > last_event_created
abbrev pub newer_plan : PlanRow → PlanRow → PlanRow
newer_plan new old = if ltb_ℤ old.last_event_created new.last_event_created then new else old

unfoldable pub upsert_plan : PlanRow → List PlanRow → List PlanRow
upsert_plan new [] = new ∷ []
upsert_plan new (r ∷ rest) =
    if is_plan new.provider new.subscription_id r
    then newer_plan new r ∷ rest
    else r ∷ upsert_plan new rest

unfoldable pub apply_subscription :
    Env → SubscriptionEvent → List PlanRow → Result (Unit {0}) × List PlanRow
apply_subscription env e rows =
    if is_plan_incomplete e
    then (err incomplete_subscription_event, rows)
    else elim (plan_status e.status) [
      | none ↦ (err invalid_subscription_status, rows)
      | some status ↦ elim (env.stmt 0) [
        | some x ↦ (err (driver x), rows)
        | none ↦ (ok tt, upsert_plan (plan_row env.now e status) rows)
      ]
    ]

unfoldable pub find_plan_row : Str → Str → List PlanRow → Option PlanRow
find_plan_row provider id [] = none
find_plan_row provider id (r ∷ rest) =
    if is_plan provider id r then some r else find_plan_row provider id rest

-- The struct Subscription.
pub record PlanView : Type 0 where
  pub provider : Str
  pub subscription_id : Str
  pub user_id : Str
  pub plan : Str
  pub status : PlanStatus
  pub period_start : ℤ
  pub period_end : ℤ
  pub trial_start : ℤ
  pub trial_end : ℤ
  pub cancel_at : ℤ
  pub cancel_at_period_end : Bool
  pub canceled_at : ℤ

abbrev pub plan_view : PlanRow → PlanView
plan_view r = record {
  provider = r.provider;
  subscription_id = r.subscription_id;
  user_id = r.user_id;
  plan = r.plan;
  status = r.status;
  period_start = r.period_start;
  period_end = r.period_end;
  trial_start = r.trial_start;
  trial_end = r.trial_end;
  cancel_at = r.cancel_at;
  cancel_at_period_end = r.cancel_at_period_end == 1;
  canceled_at = r.canceled_at;
}

-- `Subscription`
unfoldable pub provider_subscription : Env → Str → Str → List PlanRow → Result PlanView
provider_subscription env provider id rows = elim (env.stmt 0) [
  | some x ↦ err (driver x)
  | none ↦ elim (find_plan_row provider id rows) [ none ↦ err no_rows | some r ↦ ok (plan_view r) ]
]

-- `fmt.Sprint` of a number below 10 ^ fuel; 19 digits are enough for a positive int64.
unfoldable pub decimal : ℕ → ℕ → Str
decimal zero n = []
decimal (suc fuel) n =
    let front = decimal fuel (n / 10) in
    if ltb n 10 then (48 + n) ∷ [] else front ++ ((48 + n % 10) ∷ [])

abbrev pub period_key : Str → Str → Str → ℕ → Str
period_key provider subscription_id invoice start =
    codes "subscription:"
    ++ (provider
        ++ (codes ":"
            ++ (subscription_id ++ (codes ":" ++ (decimal 19 start ++ (codes ":" ++ invoice))))))

abbrev pub forgiven : {L : Type 0} → Result (Unit {0}) × L → Result (Unit {0}) × L
forgiven (r, l) = (forgive r, l)

unfoldable pub grant_subscription_period :
    {L : Type 0} → Ledger L → Str → Str → Str → Str → ℤ → ℤ → L → Result (Unit {0}) × L
grant_subscription_period ledger provider subscription_id invoice user amount start l =
    if leb_ℤ amount (pos 0)
      || str_eq provider []
      || str_eq subscription_id []
      || str_eq invoice []
      || str_eq user []
      || leb_ℤ start (pos 0)
    then (err subscription_grant, l)
    else forgiven (
        ledger.post_grant user amount provider (codes "subscription period " ++ subscription_id)
          (period_key provider subscription_id invoice (pos_part start)) l)

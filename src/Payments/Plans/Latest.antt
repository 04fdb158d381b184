-- ===== src/Payments/Plans/Latest.antt =====
-- payments/payments.go: subscription events that arrive late or in a wrong order.
use ai_credits.Prelude.{List, Option, Str, [], if◌then◌else◌, none, some, true, ◌∷◌, ◌≡◌}
use ai_credits.Credits.Db.{Env}
use ai_credits.Payments.Plans.{
  PlanRow, SubscriptionEvent, apply_subscription, is_plan, is_plan_incomplete, plan_row,
  plan_status, upsert_plan,
}
use ai_credits.Prelude.Int.{ltb_ℤ, ◌≤ℤ◌}

-- Calls of ApplySubscription, each in its environment.
abbrev pub apply_all : List (Env × SubscriptionEvent) → List PlanRow → List PlanRow
apply_all [] rows = rows
apply_all ((env, e) ∷ rest) rows = apply_all rest (apply_subscription env e rows).1

-- The row of a call, if the call is one that succeeds.
abbrev pub accepted : Env × SubscriptionEvent → Option PlanRow
accepted (env, e) = if is_plan_incomplete e then none else elim (plan_status e.status) [
  | none ↦ none
  | some status ↦ elim (env.stmt 0) [ some x ↦ none | none ↦ some (plan_row env.now e status) ]
]

-- The specification: of the row that is stored and the rows of the calls on this subscription, the
-- one with the latest event; the first of those, if several are as late.
abbrev pub newer : Option PlanRow → PlanRow → PlanRow
newer none new = new
newer (some old) new = if ltb_ℤ old.last_event_created new.last_event_created then new else old

abbrev pub best_of : Str → Str → Option PlanRow → Option PlanRow → Option PlanRow
best_of provider id best none = best
best_of provider id best (some r) = if is_plan provider id r then some (newer best r) else best

abbrev pub latest : Str → Str → Option PlanRow → List (Env × SubscriptionEvent) → Option PlanRow
latest provider id best [] = best
latest provider id best (x ∷ rest) = latest provider id (best_of provider id best (accepted x)) rest

upsert_if : Option PlanRow → List PlanRow → List PlanRow
upsert_if none rows = rows
upsert_if (some r) rows = upsert_plan r rows

-- The query's answer is no older than this row.
abbrev pub IsNoOlder : PlanRow → Option PlanRow → Type 0
IsNoOlder r none = ⊥
IsNoOlder r (some stored) = r.last_event_created ≤ℤ stored.last_event_created

-- The query's answer is no older than the row of any call on the subscription that has succeeded.
abbrev pub NoneLater : Str → Str → List (Env × SubscriptionEvent) → Option PlanRow → Type 0
NoneLater provider id [] o = Unit
NoneLater provider id (x ∷ rest) o =
    ((r : PlanRow) → accepted x ≡ some r → is_plan provider id r ≡ true → IsNoOlder r o)
    × NoneLater provider id rest o

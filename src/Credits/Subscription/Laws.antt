-- ===== src/Credits/Subscription/Laws.antt =====
-- credits/subscription.go: what is read back after a write.
use ai_credits.Prelude.{
  Bool-cases, List, Option, Str, [], arith, false, inl, inr, none, refl, some, str_eq, str_eq_refl,
  str_eq→eq, ◌∷◌, ◌≡◌,
}
use ai_credits.Credits.Db.{Db, Env, Subscription, SubscriptionStatus, checked}
use ai_credits.Credits.Errors.{Result, err, ok}
use ai_credits.Credits.Subscription.{
  find_subscription, found_subscription, parse_status, set_subscription, subscription,
  subscription_checks, upsert_subscription, write_subscription,
}
use ai_credits.Prelude.Int.{ℤ}

pub find_subscription-upsert_subscription :
    (u v plan : Str) (status : SubscriptionStatus) (now : ℤ) (rows : List Subscription)
    → str_eq u v ≡ false
    → find_subscription v (upsert_subscription u plan status now rows) ≡ find_subscription v rows
unfolding find_subscription upsert_subscription
find_subscription-upsert_subscription u v plan status now [] h = rw h refl
find_subscription-upsert_subscription u v plan status now (x ∷ rest) h =
    ground (arith, find_subscription-upsert_subscription u v plan status now rest h)

-- The user's own row after the write.
abbrev pub IsWritten : Str → Str → SubscriptionStatus → Option Subscription → Type 0
IsWritten u plan status none = ⊥
IsWritten u plan status (some x) = (x.user_id ≡ u) × (x.plan ≡ plan) × (x.status ≡ status)

pub upsert_subscription-IsWritten :
    (u plan : Str) (status : SubscriptionStatus) (now : ℤ) (rows : List Subscription)
    → IsWritten u plan status (find_subscription u (upsert_subscription u plan status now rows))
unfolding find_subscription upsert_subscription
upsert_subscription-IsWritten u plan status now [] = rw (str_eq_refl u) (refl, refl, refl)
upsert_subscription-IsWritten u plan status now (x ∷ rest) =
    elim (Bool-cases (str_eq x.user_id u)) [
      | inl e ↦ rw (e, e) (str_eq→eq x.user_id u e, refl, refl)
      | inr e ↦ rw (e, e) (upsert_subscription-IsWritten u plan status now rest)
    ]

-- What a call that succeeds has written.
pub set_subscription-ok :
    (env : Env) (user plan status : Str) (db db' : Db)
    → set_subscription env user plan status db ≡ (ok tt, db')
    → (st : SubscriptionStatus) × (parse_status status ≡ some st)
      × (db'
          ≡ record db { subscriptions = upsert_subscription user plan st env.now db.subscriptions })
unfolding set_subscription
set_subscription-ok env user plan status db db' h =
    go (subscription_checks user plan) (parse_status status) refl (env.stmt 0) h
  where
    go :
        (r : Result (Unit {0})) (o : Option SubscriptionStatus)
        → parse_status status ≡ o
        → (q : Option Str)
        → checked r (write_subscription (record env { stmt = λ n. q }) user plan o) db
          ≡ (ok tt, db')
        → (st : SubscriptionStatus) × (parse_status status ≡ some st)
          × (db' ≡ record db {
            subscriptions = upsert_subscription user plan st env.now db.subscriptions;
          })
    go (err e) o p q h = absurd (ground arith)
    go (ok u) none p q h = absurd (ground arith)
    go (ok u) (some st) p (some e) h = absurd (ground arith)
    go (ok u) (some st) p none h = (st, p, cc)

-- A subscription that was set is read back with its plan and its status, and the subscription of
-- another user is read back as before.
pub subscription-set_subscription :
    (env env' : Env) (user other plan status : Str) (db db' : Db)
    → env'.stmt 3 ≡ none
    → str_eq user other ≡ false
    → set_subscription env user plan status db ≡ (ok tt, db')
    → ((x : Subscription) × (subscription env' user db' ≡ ok x)
        × (x.user_id ≡ user)
        × (x.plan ≡ plan)
        × (parse_status status ≡ some x.status))
      × (subscription env' other db' ≡ subscription env' other db)
unfolding subscription
subscription-set_subscription env env' user other plan status db db' fine apart h =
    let (st, parsed, e) = set_subscription-ok env user plan status db db' h in
    (
      rw (fine, e) (own st parsed),
      rw
          (
            e,
            find_subscription-upsert_subscription user other plan st env.now db.subscriptions apart,
          )
          refl,
    )
  where
    own :
        (st : SubscriptionStatus)
        → parse_status status ≡ some st
        → (x : Subscription) × (found_subscription none
              (find_subscription user (upsert_subscription user plan st env.now db.subscriptions))
            ≡ ok x)
          × (x.user_id ≡ user)
          × (x.plan ≡ plan)
          × (parse_status status ≡ some x.status)
    own st parsed = go _ (upsert_subscription-IsWritten user plan st env.now db.subscriptions)
      where
        go :
            (o : Option Subscription)
            → IsWritten user plan st o
            → (x : Subscription) × (found_subscription none o ≡ ok x)
              × (x.user_id ≡ user)
              × (x.plan ≡ plan)
              × (parse_status status ≡ some x.status)
        go none w = absurd w
        go (some x) w = (x, refl, w.0, w.1, rw w.2 parsed)

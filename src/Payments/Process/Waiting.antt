-- ===== src/Payments/Process/Waiting.antt =====
-- payments/payments.go: which events processOne works on, and what it has done in the end.
use ai_credits.Prelude.{
  Bool-cases, List, Option, Str, [], ap, arith, false, inl, inr, none, refl, some, str_eq,
  str_eq_refl, str_eq→eq, sym, true, ◌&&◌, ◌∙◌, ◌∷◌, ◌≡◌, ◌⊎◌,
}
use ai_credits.Payments.{
  EventStatus, PaymentEvent, ProcessStatus, Purchase, PurchaseStatus, find_purchase,
}
use ai_credits.Payments.Process.{claims, is_claimable, is_event, mark_purchase, purchase_after}
use ai_credits.Prelude.Int.{ℤ}

abbrev pub Every : (PaymentEvent → Type 0) → List PaymentEvent → Type 0
Every P [] = Unit
Every P (r ∷ l) = P r × Every P l

-- A row of the event that is received or has failed.
abbrev pub IsWaiting : Str → Str → PaymentEvent → Type 0
IsWaiting provider event r =
    (r.provider ≡ provider)
    × (r.event_id ≡ event)
    × ((r.process_status ≡ ProcessStatus.received) ⊎ (r.process_status ≡ ProcessStatus.failed))

abbrev pub Waits : Str → Str → List PaymentEvent → Type 0
Waits provider event [] = ⊥
Waits provider event (r ∷ l) = IsWaiting provider event r ⊎ Waits provider event l

claimable-cases :
    (s : ProcessStatus)
    → is_claimable s ≡ true
    → (s ≡ ProcessStatus.received) ⊎ (s ≡ ProcessStatus.failed)
claimable-cases ProcessStatus.received h = inl refl
claimable-cases ProcessStatus.failed h = inr refl
claimable-cases ProcessStatus.processing h = absurd (ground arith)
claimable-cases ProcessStatus.applied h = absurd (ground arith)

pub is_claimable-waiting :
    (s : ProcessStatus)
    → (s ≡ ProcessStatus.received) ⊎ (s ≡ ProcessStatus.failed)
    → is_claimable s ≡ true
is_claimable-waiting s (inl h) = rw h refl
is_claimable-waiting s (inr h) = rw h refl

row-IsWaiting :
    (provider event : Str) (r : PaymentEvent)
    → is_event provider event r ≡ true
    → is_claimable r.process_status ≡ true
    → IsWaiting provider event r
row-IsWaiting provider event r h k = (
  str_eq→eq r.provider provider (ground arith),
  str_eq→eq r.event_id event (ground arith),
  claimable-cases r.process_status k,
)

IsWaiting-row :
    (provider event : Str) (r : PaymentEvent)
    → IsWaiting provider event r
    → (is_event provider event r && is_claimable r.process_status) ≡ true
IsWaiting-row provider event r (p, i, s) =
    rw (p, i, str_eq_refl provider, str_eq_refl event) (is_claimable-waiting r.process_status s)

pub claims-Waits :
    (provider event : Str) (l : List PaymentEvent)
    → claims provider event l ≡ true
    → Waits provider event l
unfolding claims
claims-Waits provider event [] h = absurd (ground arith)
claims-Waits provider event (r ∷ l) h =
    elim (Bool-cases (is_event provider event r && is_claimable r.process_status)) [
      | inl q ↦ inl (row-IsWaiting provider event r (ground arith) (ground arith))
      | inr q ↦ inr (claims-Waits provider event l (rw q at h))
    ]

pub Waits-claims :
    (provider event : Str) (l : List PaymentEvent)
    → Waits provider event l
    → claims provider event l ≡ true
unfolding claims
Waits-claims provider event [] h = absurd h
Waits-claims provider event (r ∷ l) (inl h) = rw (IsWaiting-row provider event r h) refl
Waits-claims provider event (r ∷ l) (inr h) =
    rw (Waits-claims provider event l h)
      (elim (Bool-cases (is_event provider event r && is_claimable r.process_status)) [
        | inl q ↦ rw q refl
        | inr q ↦ rw q refl
      ])

-- The rows of purchases, before and after an update by id.
pub find_purchase-id :
    (i : Str) (l : List Purchase) (p : Purchase) → find_purchase i l ≡ some p → p.id ≡ i
unfolding find_purchase
find_purchase-id i [] p h = absurd (ground arith)
find_purchase-id i (q ∷ l) p h = elim (Bool-cases (str_eq q.id i)) [
  | inl e ↦ ap (λ x. x.id) (sym (some_purchase q p (rw e at h))) ∙ str_eq→eq q.id i e
  | inr e ↦ find_purchase-id i l p (rw e at h)
]
  where
    some_purchase : (a b : Purchase) → some a ≡ some b → a ≡ b
    some_purchase a b e = cc

pub find_purchase-mark :
    (i : Str) (f : Purchase → Purchase) (l : List Purchase) (p : Purchase)
    → ((q : Purchase) → (f q).id ≡ q.id)
    → find_purchase i l ≡ some p
    → find_purchase i (mark_purchase i f l) ≡ some (f p)
unfolding find_purchase mark_purchase
find_purchase-mark i f [] p same h = absurd (ground arith)
find_purchase-mark i f (q ∷ l) p same h = elim (Bool-cases (str_eq q.id i)) [
  | inl e ↦ rw (e, ap (λ x. str_eq x i) (same q) ∙ e) (ap f_some (rw e at h))
  | inr e ↦ rw (e, e) (find_purchase-mark i f l p same (rw e at h))
]
  where
    f_some : Option Purchase → Option Purchase
    f_some none = none
    f_some (some x) = some (f x)

pub find_purchase-mark_other :
    (i j : Str) (f : Purchase → Purchase) (l : List Purchase)
    → ((q : Purchase) → (f q).id ≡ q.id)
    → str_eq i j ≡ false
    → find_purchase j (mark_purchase i f l) ≡ find_purchase j l
unfolding find_purchase mark_purchase
find_purchase-mark_other i j f [] same h = refl
find_purchase-mark_other i j f (q ∷ l) same h = elim (Bool-cases (str_eq q.id i)) [
  | inl e ↦ rw (e, same q, str_eq→eq q.id i e, h) (find_purchase-mark_other i j f l same h)
  | inr e ↦ rw e (elim (Bool-cases (str_eq q.id j)) [
    | inl k ↦ rw k refl
    | inr k ↦ rw k (find_purchase-mark_other i j f l same h)
  ])
]

pub purchase_after-id :
    (status : EventStatus) (now : ℤ) (read : Purchase) (e : PaymentEvent) (q : Purchase)
    → (purchase_after status now read e q).id ≡ q.id
unfolding purchase_after
purchase_after-id EventStatus.paid now read e q = refl
purchase_after-id EventStatus.refunded now read e q = refl
purchase_after-id EventStatus.disputed now read e q = refl

pub purchase_after-written :
    (status : EventStatus) (now : ℤ) (read : Purchase) (e : PaymentEvent) (q : Purchase)
    → ((purchase_after status now read e q).payment_id ≡ some e.payment_id)
      × ((purchase_after status now read e q).status ≡ PurchaseStatus.took status)
unfolding purchase_after
purchase_after-written EventStatus.paid now read e q = (refl, refl)
purchase_after-written EventStatus.refunded now read e q = (refl, refl)
purchase_after-written EventStatus.disputed now read e q = (refl, refl)

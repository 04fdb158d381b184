-- ===== src/Payments/Report.antt =====
-- payments/payments.go: Reconcile and ReconcileWithStripe.
use ai_credits.Prelude.{
  Bool, List, Str, [], codes, false, if◌then◌else◌, none, not, some, str_eq, true, ◌&&◌, ◌++◌, ◌||◌,
  ◌∷◌,
}
use ai_credits.Credits.Db.{Env}
use ai_credits.Credits.Errors.{Result, driver, err, ok}
use ai_credits.Payments.{Books, PaymentEvent, ProcessStatus, Purchase, PurchaseStatus}
use ai_credits.Prelude.Int.{ltb_ℤ, pos, ℤ, ◌-ℤ◌}

pub data IssueKind : Type 0 where
  open_event stale_purchase payment_without_event : IssueKind

pub record ReconcileIssue : Type 0 where
  pub kind : IssueKind
  pub id : Str

abbrev pub is_applied : ProcessStatus → Bool
is_applied ProcessStatus.applied = true
is_applied _ = false

-- SELECT 'event', provider || ':' || event_id FROM payment_events WHERE process_status != 'applied'
unfoldable pub open_events : List PaymentEvent → List ReconcileIssue
open_events [] = []
open_events (e ∷ rest) =
    if is_applied e.process_status
    then open_events rest
    else record { kind = IssueKind.open_event; id = e.provider ++ (codes ":" ++ e.event_id) }
      ∷ open_events rest

abbrev pub is_pending_purchase : PurchaseStatus → Bool
is_pending_purchase PurchaseStatus.pending = true
is_pending_purchase (PurchaseStatus.took s) = false

-- SELECT 'purchase', id FROM payment_purchases WHERE status = 'pending' AND created_at < ?
unfoldable pub stale_purchases : ℤ → List Purchase → List ReconcileIssue
stale_purchases cutoff [] = []
stale_purchases cutoff (p ∷ rest) =
    if is_pending_purchase p.status && ltb_ℤ p.created_at cutoff
    then record { kind = IssueKind.stale_purchase; id = p.id } ∷ stale_purchases cutoff rest
    else stale_purchases cutoff rest

-- EXISTS (SELECT 1 FROM payment_events e WHERE e.purchase_id = ? AND e.process_status = 'applied')
unfoldable pub has_applied : Str → List PaymentEvent → Bool
has_applied id [] = false
has_applied id (e ∷ rest) =
    (str_eq e.purchase_id id && is_applied e.process_status) || has_applied id rest

-- SELECT 'payment-without-event', p.id FROM payment_purchases p WHERE …
unfoldable pub unexplained : List PaymentEvent → List Purchase → List ReconcileIssue
unexplained events [] = []
unexplained events (p ∷ rest) =
    if not (is_pending_purchase p.status) && not (has_applied p.id events)
    then record { kind = IssueKind.payment_without_event; id = p.id } ∷ unexplained events rest
    else unexplained events rest

-- The three parts in their order, an hour before now in seconds.
unfoldable pub reconcile_books : {L : Type 0} → Env → Books L → Result (List ReconcileIssue)
reconcile_books env b = elim (env.stmt 0) [
  | some x ↦ err (driver x)
  | none ↦ ok (
      open_events b.events
      ++ (stale_purchases (env.now -ℤ pos 3600) b.purchases ++ unexplained b.events b.purchases))
]

-- The secret of the provider is not used, whether it is there or not.
unfoldable pub reconcile_with_stripe :
    {L : Type 0} → Env → Str → Books L → Result (List ReconcileIssue)
reconcile_with_stripe env secret b = elim (reconcile_books env b) [
  | err x ↦ err x
  | ok issues ↦ if str_eq secret [] then ok issues else ok issues
]

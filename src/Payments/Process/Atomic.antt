-- ===== src/Payments/Process/Atomic.antt =====
-- payments/payments.go: processOne with credits.Service, on every kind of event and error.
use ai_credits.Prelude.{
  Bool-cases, List, Option, Str, [], ap, arith, false, inl, inr, none, refl, some, str_eq_refl,
  subst, sym, ◌∙◌, ◌∷◌, ◌≡◌, ◌⊎◌,
}
use ai_credits.Credits.Db.{Db, Env, calm}
use ai_credits.Credits.Errors.{Result, ok}
use ai_credits.Payments.{
  Books, PaymentEvent, ProcessStatus, Purchase, PurchaseStatus, find_purchase, purchase,
}
use ai_credits.Payments.Postings.{ledger_tx}
use ai_credits.Payments.Process.{
  applied_event, atomic_body, claim_event, claims, identity_differs, in_event_tx, is_event,
  mark_event, mark_purchase, payment_taken, post_atomic, process_claimed, process_event,
  purchase_after, record_event,
}
use ai_credits.Payments.Process.Outcome.{Applies, Fails, applied_books, claim_true-Ends}
use ai_credits.Payments.Process.Queue.{process_atomic}
use ai_credits.Payments.Process.Waiting.{
  Every, Waits, Waits-claims, claims-Waits, find_purchase-id, find_purchase-mark, purchase_after-id,
  purchase_after-written,
}
use ai_credits.Prelude.Int.{ℤ}

-- Every row of the event is applied.
abbrev pub AllApplied : Str → Str → List PaymentEvent → Type 0
AllApplied provider event l =
    Every
      (λ r. r.provider ≡ provider → r.event_id ≡ event → r.process_status ≡ ProcessStatus.applied) l

-- The event is done: the ledger has what its part of the transaction writes, all rows of the event are
-- applied, and the purchase has the payment and the status of the event.
pub record IsDone (lenv : Env) (e : PaymentEvent) (b : Books Db)
    (out : Result (Unit {0}) × Books Db) : Type 0 where
  pub result : out.0 ≡ ok tt
  pub bought : Purchase
  pub found : find_purchase e.purchase_id b.purchases ≡ some bought
  pub posted : ledger_tx e.status lenv bought e b.ledger ≡ ok (tt, out.1.ledger)
  pub marked : AllApplied e.provider e.event_id out.1.events
  pub after : Purchase
  pub found_after : find_purchase e.purchase_id out.1.purchases ≡ some after
  pub payment_is : after.payment_id ≡ some e.payment_id
  pub status_is : after.status ≡ PurchaseStatus.took e.status

-- The purchase is of the event's provider and has no other payment.
abbrev pub IsSamePayment : Purchase → PaymentEvent → Type 0
IsSamePayment p e =
    (p.provider ≡ e.provider) × ((p.payment_id ≡ none) ⊎ (p.payment_id ≡ some e.payment_id))

pub applied-AllApplied :
    (now : ℤ) (provider event : Str) (l : List PaymentEvent)
    → AllApplied provider event (mark_event provider event (applied_event now) l)
unfolding mark_event
applied-AllApplied now provider event [] = tt
applied-AllApplied now provider event (r ∷ l) = elim (Bool-cases (is_event provider event r)) [
  | inl q ↦ rw q ((λ p i. refl), applied-AllApplied now provider event l)
  | inr q ↦ rw q ((λ p i. absurd (other p i q)), applied-AllApplied now provider event l)
]
  where
    other : r.provider ≡ provider → r.event_id ≡ event → is_event provider event r ≡ false → ⊥
    other p i q =
        let a = str_eq_refl provider in
        let c = str_eq_refl event in ground (arith, a, c, rw (p, i) at q)

Applies-IsDone :
    (env lenv : Env) (e : PaymentEvent) (b : Books Db) (out : Result (Unit {0}) × Books Db)
    → Applies env lenv e b out
    → IsDone lenv e b out
Applies-IsDone env lenv e b out (p, db, found, posted, free, same) =
    let at_id = find_purchase-id e.purchase_id b.purchases p found in
    let f = purchase_after e.status env.now p e in
    let written = purchase_after-written e.status env.now p e p in
    record {
      result = ap (λ o. o.0) same;
      bought = p;
      found = found;
      posted = posted ∙ ap (λ l. ok (tt, l)) (sym (ap (λ o. o.1.ledger) same));
      marked =
          subst (λ o. AllApplied e.provider e.event_id o.1.events) (sym same)
            (applied-AllApplied env.now e.provider e.event_id _);
      after = f p;
      found_after =
          ap (λ o. find_purchase e.purchase_id o.1.purchases) same
          ∙ ap (λ i. find_purchase e.purchase_id (mark_purchase i f b.purchases)) at_id
          ∙ find_purchase-mark e.purchase_id f b.purchases p
              (purchase_after-id e.status env.now p e) found;
      payment_is = written.0;
      status_is = written.1;
    }

pub waiting-Ends :
    (env lenv : Env) (e : PaymentEvent) (b : Books Db)
    → Waits e.provider e.event_id b.events
    → Fails b (process_atomic env lenv e b) ⊎ Applies env lenv e b (process_atomic env lenv e b)
unfolding process_atomic process_event
waiting-Ends env lenv e b w =
    rw (Waits-claims e.provider e.event_id b.events w) (claim_true-Ends (env.stmt 0) env lenv e b)

pub idle-same :
    (env lenv : Env) (e : PaymentEvent) (b : Books Db)
    → ¬ Waits e.provider e.event_id b.events
    → (process_atomic env lenv e b).1 ≡ b
unfolding process_atomic process_event
idle-same env lenv e b no_wait = elim (Bool-cases (claims e.provider e.event_id b.events)) [
  | inl q ↦ absurd (no_wait (claims-Waits e.provider e.event_id b.events q))
  | inr q ↦ rw q (unclaimed (env.stmt 0))
]
  where
    unclaimed : (o : Option Str) → (claim_event o false (post_atomic env lenv) env e b).1 ≡ b
    unclaimed none = refl
    unclaimed (some x) = refl

same_identity : (p : Purchase) (e : PaymentEvent) → IsSamePayment p e → identity_differs p e ≡ false
unfolding identity_differs
same_identity p e (same, inl h) = rw (same, h, str_eq_refl e.provider) refl
same_identity p e (same, inr h) =
    rw (same, h, str_eq_refl e.provider, str_eq_refl e.payment_id) (ground arith)

-- Where the driver reports no error, nothing else stands in the way.
calm-applies :
    (now : ℤ) (id : Str) (lenv : Env) (e : PaymentEvent) (b : Books Db) (p : Purchase) (db : Db)
    → Waits e.provider e.event_id b.events
    → find_purchase e.purchase_id b.purchases ≡ some p
    → IsSamePayment p e
    → payment_taken p.id p.provider e.payment_id b.purchases ≡ false
    → ledger_tx e.status lenv p e b.ledger ≡ ok (tt, db)
    → process_atomic (calm now id) lenv e b ≡ (ok tt, applied_books (calm now id) p e db b)
unfolding process_atomic process_event process_claimed purchase post_atomic in_event_tx atomic_body
    record_event
calm-applies now id lenv e b p db w found same free posted =
    rw (Waits-claims e.provider e.event_id b.events w, found, same_identity p e same, posted, free)
      refl

-- Whatever errors the driver reports: if no row of the event is received or failed, as when another
-- worker has claimed it or it is applied, then processOne with credits.Service changes nothing. If one
-- is, then it fails, and the ledger and the purchases are as they were and no event has become
-- applied; or it succeeds, and the event is done: the ledger's part is written, all its rows are
-- applied, and the purchase has its payment and status. And it does succeed where the driver reports
-- no error, the purchase is there, of the same provider and without another payment, no other
-- purchase has the payment, and the ledger accepts the posting.
pub process_atomic_lem :
    (env lenv : Env) (e : PaymentEvent) (b : Books Db)
    → (¬ Waits e.provider e.event_id b.events → (process_atomic env lenv e b).1 ≡ b)
      × (Waits e.provider e.event_id b.events
          → Fails b (process_atomic env lenv e b) ⊎ IsDone lenv e b (process_atomic env lenv e b))
      × ((now : ℤ) (id : Str) (p : Purchase) (db : Db)
          → env ≡ calm now id
          → Waits e.provider e.event_id b.events
          → find_purchase e.purchase_id b.purchases ≡ some p
          → IsSamePayment p e
          → payment_taken p.id p.provider e.payment_id b.purchases ≡ false
          → ledger_tx e.status lenv p e b.ledger ≡ ok (tt, db)
          → IsDone lenv e b (process_atomic env lenv e b))
process_atomic_lem env lenv e b = (
  idle-same env lenv e b,
  (λ w. elim (waiting-Ends env lenv e b w) [
    | inl h ↦ inl h
    | inr h ↦ inr (Applies-IsDone env lenv e b _ h)
  ]),
  (λ now id p db calm_env w found same free posted. Applies-IsDone env lenv e b _ (
    p,
    db,
    found,
    posted,
    free,
    ap (λ x. process_atomic x lenv e b) calm_env
        ∙ calm-applies now id lenv e b p db w found same free posted
        ∙ ap (λ x. (ok tt, applied_books x p e db b)) (sym calm_env),
  )),
)

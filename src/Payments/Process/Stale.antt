-- ===== src/Payments/Process/Stale.antt =====
-- payments/payments.go: the part of processOne behind the claim, for whatever row of the purchase was
-- read: other steps may come between the read and the transaction.
use ai_credits.Prelude.{
  Bool-cases, Option, Str, ap, arith, inl, inr, none, refl, some, ◌∙◌, ◌≡◌, ◌⊎◌,
}
use ai_credits.Credits.Db.{Db, Env}
use ai_credits.Credits.Errors.{Error, Result, driver, err, identity_conflict, ok}
use ai_credits.Payments.{Books, PaymentEvent, Purchase}
use ai_credits.Payments.Postings.{ledger_tx}
use ai_credits.Payments.Process.{
  applied_event, atomic_body, begin_event, commit_event, fail, identity_differs, in_event_tx,
  mark_event, post_atomic, post_to, record_event, record_posted,
}
use ai_credits.Payments.Process.Outcome.{Evolves, Evolves-refl, fail_unless-Fails}

-- It ends with the ledger as it was and no event newly applied, or the ledger's part is done and the
-- rows of the event are marked.
abbrev pub PostedStale : Env → Env → PaymentEvent → Books Db → Books Db → Type 0
PostedStale env lenv e b c =
    ((c.ledger ≡ b.ledger) × Evolves b.events c.events)
    ⊎ ((p : Purchase) × (ledger_tx e.status lenv p e b.ledger ≡ ok (tt, c.ledger))
        × (c.events ≡ mark_event e.provider e.event_id (applied_event env.now) b.events))

fail-PostedStale :
    (env lenv : Env) (e : PaymentEvent) (x : Error) (b : Books Db)
    → PostedStale env lenv e b (fail env e x b).1
unfolding fail
fail-PostedStale env lenv e x b =
    let (_, _, same, _, v) =
      fail_unless-Fails (env.stmt 4) e x b b refl refl (Evolves-refl b.events) in
    inl (same, v)

record_posted-PostedStale :
    (env lenv : Env) (p : Purchase) (e : PaymentEvent) (r : Result (Unit {0} × Db)) (b c : Books Db)
    → ledger_tx e.status lenv p e b.ledger ≡ r
    → record_posted env p e r b ≡ ok c
    → PostedStale env lenv e b c
unfolding record_event
record_posted-PostedStale env lenv p e (err x) b c q h = absurd (ground arith)
record_posted-PostedStale env lenv p e (ok (u, db)) b c q h =
    inr (p, q ∙ ap (λ l. ok (tt, l)) same, ground arith)
  where
    same : db ≡ c.ledger
    same = ground arith

commit_event-PostedStale :
    (o : Option Str) (env lenv : Env) (p : Purchase) (e : PaymentEvent) (r : Result (Books Db))
    (b : Books Db)
    → atomic_body env lenv p e b ≡ r
    → PostedStale env lenv e b (commit_event o env e r b).1
unfolding atomic_body
commit_event-PostedStale o env lenv p e (err x) b q = fail-PostedStale env lenv e x b
commit_event-PostedStale (some x) env lenv p e (ok c) b q = fail-PostedStale env lenv e (driver x) b
commit_event-PostedStale none env lenv p e (ok c) b q =
    record_posted-PostedStale env lenv p e (ledger_tx e.status lenv p e b.ledger) b c refl q

begin_event-PostedStale :
    (o : Option Str) (env lenv : Env) (p : Purchase) (e : PaymentEvent) (b : Books Db)
    → PostedStale env lenv e b (begin_event o env e (atomic_body env lenv p e) b).1
begin_event-PostedStale (some x) env lenv p e b = fail-PostedStale env lenv e (driver x) b
begin_event-PostedStale none env lenv p e b =
    commit_event-PostedStale env.commit env lenv p e (atomic_body env lenv p e b) b refl

pub post_to-PostedStale :
    (r : Result Purchase) (env lenv : Env) (e : PaymentEvent) (b : Books Db)
    → PostedStale env lenv e b (post_to r (post_atomic env lenv) env e b).1
unfolding post_atomic in_event_tx
post_to-PostedStale (err x) env lenv e b = fail-PostedStale env lenv e x b
post_to-PostedStale (ok p) env lenv e b = elim (Bool-cases (identity_differs p e)) [
  | inl h ↦ rw h (fail-PostedStale env lenv e identity_conflict b)
  | inr h ↦ rw h (begin_event-PostedStale env.begin env lenv p e b)
]

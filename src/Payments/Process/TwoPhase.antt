-- ===== src/Payments/Process/TwoPhase.antt =====
-- payments/payments.go: the fallback path of processOne, on the ledger of credits/ through its
-- interface.
use ai_credits.Prelude.{
  Bool, Bool-cases, Option, Str, arith, false, inl, inr, none, refl, some, subst, sym, true, ◌≡◌,
  ◌⊎◌,
}
use ai_credits.Credits.Accounts.{key_used}
use ai_credits.Credits.Db.{Db, Env}
use ai_credits.Credits.Errors.{Error, Result, driver, err, identity_conflict, ok}
use ai_credits.Credits.Sound.Effect.{Effect, unchanged}
use ai_credits.Payments.{Books, EventStatus, PaymentEvent, Purchase}
use ai_credits.Payments.Postings.{credits_ledger, forgive, ledger_call, payment_key}
use ai_credits.Payments.Process.{
  after_call, applied_event, begin_event, claim_event, claimed, claims, commit_event, fail,
  identity_differs, in_event_tx, mark_event, post_to, post_two_phase, process_claimed,
  process_event, record_event,
}
use ai_credits.Payments.Process.Calls.{ledger_call-CallEnds}
use ai_credits.Payments.Process.Outcome.{
  Evolves, Evolves-refl, Evolves-trans, claimed-IsMark, claimed_books, fail_unless-Fails,
  mark_event-Evolves,
}
use ai_credits.Payments.Process.Queue.{process_two_phase}

-- How the second phase ends: the ledger is what the call has left, and either no event has become
-- applied, or the phase was reached and this event is marked.
abbrev pub Marks : Env → PaymentEvent → Books Db → Books Db → Type 0
Marks env e b c =
    c.events
    ≡ mark_event e.provider e.event_id (applied_event env.now)
        (mark_event e.provider e.event_id (claimed env.now) b.events)

-- The claimed books with another ledger.
abbrev pub called_books : Env → PaymentEvent → Books Db → Db → Books Db
called_books env e b l = record (claimed_books env.now e b) { ledger = l }

abbrev pub PhaseEnds : Env → PaymentEvent → Books Db → Db → Result (Unit {0}) × Books Db → Type 0
PhaseEnds env e b l out = (out.1.ledger ≡ l) × (Evolves b.events out.1.events ⊎ Marks env e b out.1)

fail-Evolves :
    (env : Env) (e : PaymentEvent) (x : Error) (b : Books Db) (l : Db)
    → ((fail env e x (called_books env e b l)).1.ledger ≡ l)
      × Evolves b.events (fail env e x (called_books env e b l)).1.events
unfolding fail
fail-Evolves env e x b l =
    let (_, _, same, _, v) =
      fail_unless-Fails (env.stmt 4) e x (called_books env e b l) (called_books env e b l) refl refl
        (Evolves-refl (claimed_books env.now e b).events) in
    let w =
      mark_event-Evolves e.provider e.event_id (claimed env.now) b.events
        (claimed-IsMark env.now) in
    (same, Evolves-trans b.events _ _ w v)

fail-PhaseEnds :
    (env : Env) (e : PaymentEvent) (x : Error) (b : Books Db) (l : Db)
    → PhaseEnds env e b l (fail env e x (called_books env e b l))
fail-PhaseEnds env e x b l = let (same, v) = fail-Evolves env e x b l in (same, inl v)

record_event-ok :
    (env : Env) (p : Purchase) (e : PaymentEvent) (b : Books Db) (l : Db) (c : Books Db)
    → record_event env p e (called_books env e b l) ≡ ok c
    → (c.ledger ≡ l) × Marks env e b c
unfolding record_event
record_event-ok env p e b l c h = (ground arith, ground arith)

commit_event-PhaseEnds :
    (o : Option Str) (env : Env) (p : Purchase) (e : PaymentEvent) (r : Result (Books Db))
    (b : Books Db) (l : Db)
    → record_event env p e (called_books env e b l) ≡ r
    → PhaseEnds env e b l (commit_event o env e r (called_books env e b l))
commit_event-PhaseEnds o env p e (err x) b l q = fail-PhaseEnds env e x b l
commit_event-PhaseEnds (some x) env p e (ok c) b l q = fail-PhaseEnds env e (driver x) b l
commit_event-PhaseEnds none env p e (ok c) b l q =
    let (same, marks) = record_event-ok env p e b l c q in (same, inr marks)

begin_event-PhaseEnds :
    (o : Option Str) (env : Env) (p : Purchase) (e : PaymentEvent) (b : Books Db) (l : Db)
    → PhaseEnds env e b l (begin_event o env e (record_event env p e) (called_books env e b l))
begin_event-PhaseEnds (some x) env p e b l = fail-PhaseEnds env e (driver x) b l
begin_event-PhaseEnds none env p e b l = commit_event-PhaseEnds env.commit env p e _ b l refl

-- The whole: the ledger's effect, and what has become of the events.
abbrev pub TwoPhaseEnds : Env → PaymentEvent → Books Db → Result (Unit {0}) × Books Db → Type 0
TwoPhaseEnds env e b out =
    Effect b.ledger out.1.ledger
    × (Evolves b.events out.1.events
        ⊎ (Marks env e b out.1
            × (e.status ≡ EventStatus.paid
                → key_used (payment_key e.provider e.payment_id) out.1.ledger.transactions ≡ true)))

phase-Ends :
    (env : Env) (e : PaymentEvent) (b : Books Db) (l : Db) (out : Result (Unit {0}) × Books Db)
    → Effect b.ledger l
    → (e.status ≡ EventStatus.paid
        → key_used (payment_key e.provider e.payment_id) l.transactions ≡ true)
    → PhaseEnds env e b l out
    → TwoPhaseEnds env e b out
phase-Ends env e b l out eff used (same, inl v) =
    (subst (λ d. Effect b.ledger d) (sym same) eff, inl v)
phase-Ends env e b l out eff used (same, inr m) =
    (subst (λ d. Effect b.ledger d) (sym same) eff, inr (m, λ s. rw same (used s)))

failed-Ends :
    (env : Env) (e : PaymentEvent) (x : Error) (b : Books Db) (l : Db)
    → Effect b.ledger l
    → TwoPhaseEnds env e b (fail env e x (called_books env e b l))
failed-Ends env e x b l eff =
    let (same, v) = fail-Evolves env e x b l in
    (subst (λ d. Effect b.ledger d) (sym same) eff, inl v)

after_call-Ends :
    (r : Result (Unit {0})) (env : Env) (p : Purchase) (e : PaymentEvent) (b : Books Db) (l : Db)
    → Effect b.ledger l
    → (r ≡ ok tt
        → e.status ≡ EventStatus.paid
        → key_used (payment_key e.provider e.payment_id) l.transactions ≡ true)
    → TwoPhaseEnds env e b (after_call r env p e (called_books env e b l))
unfolding in_event_tx
after_call-Ends (err x) env p e b l eff used = failed-Ends env e x b l eff
after_call-Ends (ok u) env p e b l eff used =
    phase-Ends env e b l (in_event_tx env e (record_event env p e) (called_books env e b l)) eff
      (used refl) (begin_event-PhaseEnds env.begin env p e b l)

post_two_phase-Ends :
    (env lenv : Env) (p : Purchase) (e : PaymentEvent) (b : Books Db)
    → TwoPhaseEnds env e b
        (post_two_phase (credits_ledger lenv) env p e (claimed_books env.now e b))
unfolding post_two_phase
post_two_phase-Ends env lenv p e b =
    let (eff, used) = ledger_call-CallEnds e.status lenv p e b.ledger in
    after_call-Ends (forgive (ledger_call e.status (credits_ledger lenv) p e b.ledger).0) env p e b
      (ledger_call e.status (credits_ledger lenv) p e b.ledger).1 eff used

post_to-TwoPhaseEnds :
    (r : Result Purchase) (env lenv : Env) (e : PaymentEvent) (b : Books Db)
    → TwoPhaseEnds env e b
        (post_to r (post_two_phase (credits_ledger lenv) env) env e (claimed_books env.now e b))
post_to-TwoPhaseEnds (err x) env lenv e b = failed-Ends env e x b b.ledger (unchanged refl)
post_to-TwoPhaseEnds (ok p) env lenv e b = elim (Bool-cases (identity_differs p e)) [
  | inl h ↦ rw h (failed-Ends env e identity_conflict b b.ledger (unchanged refl))
  | inr h ↦ rw h (post_two_phase-Ends env lenv p e b)
]

claim_event-TwoPhaseEnds :
    (o : Option Str) (found : Bool) (env lenv : Env) (e : PaymentEvent) (b : Books Db)
    → TwoPhaseEnds env e b (claim_event o found (post_two_phase (credits_ledger lenv) env) env e b)
unfolding process_claimed
claim_event-TwoPhaseEnds (some x) found env lenv e b = (unchanged refl, inl (Evolves-refl b.events))
claim_event-TwoPhaseEnds none false env lenv e b = (unchanged refl, inl (Evolves-refl b.events))
claim_event-TwoPhaseEnds none true env lenv e b = post_to-TwoPhaseEnds _ env lenv e b

-- Whatever fails between the two phases, the ledger has had one effect of credits/ at most, and if
-- the event is applied, then the ledger has the key of its payment.
pub process_two_phase-Ends :
    (env lenv : Env) (e : PaymentEvent) (b : Books Db)
    → TwoPhaseEnds env e b (process_two_phase env lenv e b)
unfolding process_two_phase process_event
process_two_phase-Ends env lenv e b =
    claim_event-TwoPhaseEnds (env.stmt 0) (claims e.provider e.event_id b.events) env lenv e b

-- ===== src/Payments/Process/Outcome.antt =====
-- payments/payments.go: how processOne ends where the ledger is credits.Service.
use ai_credits.Prelude.{
  Bool, Bool-cases, List, Option, Str, [], ap, arith, false, inl, inr, none, refl, some, true, ◌∷◌,
  ◌≡◌, ◌⊎◌,
}
use ai_credits.Credits.Db.{Db, Env}
use ai_credits.Credits.Errors.{Error, Result, driver, err, identity_conflict, ok}
use ai_credits.Payments.{Books, PaymentEvent, ProcessStatus, Purchase, find_purchase, purchase}
use ai_credits.Payments.Postings.{ledger_tx}
use ai_credits.Payments.Process.{
  applied_event, atomic_body, begin_event, claim_event, claimed, claims, commit_event, fail,
  fail_unless, failed_event, identity_differs, in_event_tx, is_claimable, is_event, mark_event,
  mark_purchase, payment_taken, post_atomic, post_to, process_claimed, process_event,
  purchase_after, record_event, record_posted,
}
use ai_credits.Payments.Process.Queue.{process_atomic}
use ai_credits.Prelude.Int.{ℤ}

-- The rows of before and of after, which no statement but an insert adds to: what the code reads of
-- an event is not changed, and no row has become applied.
abbrev pub SameEvent : PaymentEvent → PaymentEvent → Type 0
SameEvent r r' =
    (r'.provider ≡ r.provider)
    × (r'.event_id ≡ r.event_id)
    × (r'.purchase_id ≡ r.purchase_id)
    × (r'.payment_id ≡ r.payment_id)
    × (r'.status ≡ r.status)
    × (r'.reversed_minor ≡ r.reversed_minor)

abbrev pub Evolves : List PaymentEvent → List PaymentEvent → Type 0
Evolves [] [] = Unit
Evolves [] (r ∷ l) = ⊥
Evolves (r ∷ l) [] = ⊥
Evolves (r ∷ l) (r' ∷ l') =
    SameEvent r r'
    × (r'.process_status ≡ ProcessStatus.applied → r.process_status ≡ ProcessStatus.applied)
    × Evolves l l'

pub Evolves-refl : (l : List PaymentEvent) → Evolves l l
Evolves-refl [] = tt
Evolves-refl (r ∷ l) = ((refl, refl, refl, refl, refl, refl), (λ h. h), Evolves-refl l)

pub Evolves-trans : (l l' l'' : List PaymentEvent) → Evolves l l' → Evolves l' l'' → Evolves l l''
Evolves-trans [] [] [] h k = tt
Evolves-trans [] [] (_ ∷ _) h k = absurd k
Evolves-trans [] (_ ∷ _) l'' h k = absurd h
Evolves-trans (_ ∷ _) [] l'' h k = absurd h
Evolves-trans (_ ∷ _) (_ ∷ _) [] h k = absurd k
Evolves-trans (r ∷ l) (r' ∷ l') (r'' ∷ l'') h k =
    ((cc, cc, cc, cc, cc, cc), (λ a. h.1 (k.1 a)), Evolves-trans l l' l'' h.2 k.2)

-- An update of the rows of one event that marks none as applied.
abbrev pub IsMark : (PaymentEvent → PaymentEvent) → Type 0
IsMark f =
    (r : PaymentEvent)
    → SameEvent r (f r)
      × ((f r).process_status ≡ ProcessStatus.applied → r.process_status ≡ ProcessStatus.applied)

pub mark_event-Evolves :
    (p i : Str) (f : PaymentEvent → PaymentEvent) (l : List PaymentEvent)
    → IsMark f
    → Evolves l (mark_event p i f l)
unfolding mark_event
mark_event-Evolves p i f [] m = tt
mark_event-Evolves p i f (r ∷ l) m = elim (Bool-cases (is_event p i r)) [
  | inl h ↦ rw h ((m r).0, (m r).1, mark_event-Evolves p i f l m)
  | inr h ↦ rw h ((refl, refl, refl, refl, refl, refl), (λ a. a), mark_event-Evolves p i f l m)
]

pub claimed-IsMark : (now : ℤ) → IsMark (claimed now)
claimed-IsMark now r = elim (Bool-cases (is_claimable r.process_status)) [
  | inl h ↦ rw h ((refl, refl, refl, refl, refl, refl), λ a. ground arith)
  | inr h ↦ rw h ((refl, refl, refl, refl, refl, refl), λ a. a)
]

-- The claim of an event, and its applied mark.
abbrev pub claimed_books : {L : Type 0} → ℤ → PaymentEvent → Books L → Books L
claimed_books now e b = record b {
  events = mark_event e.provider e.event_id (claimed now) b.events;
}

abbrev pub applied_books : Env → Purchase → PaymentEvent → Db → Books Db → Books Db
applied_books env p e db b = record {
  ledger = db;
  purchases = mark_purchase p.id (purchase_after e.status env.now p e) b.purchases;
  events =
      mark_event e.provider e.event_id (applied_event env.now)
        (mark_event e.provider e.event_id (claimed env.now) b.events);
}

-- It fails: ledger and purchases are as before, and no event has become applied.
abbrev pub Fails : {L : Type 0} → Books L → Result (Unit {0}) × Books L → Type 0
Fails b out =
    (x : Error) × (out.0 ≡ err x)
    × (out.1.ledger ≡ b.ledger)
    × (out.1.purchases ≡ b.purchases)
    × Evolves b.events out.1.events

-- It succeeds: ledger, purchase and event are written together.
abbrev pub Applies : Env → Env → PaymentEvent → Books Db → Result (Unit {0}) × Books Db → Type 0
Applies env lenv e b out =
    (p : Purchase) × (db : Db) × (find_purchase e.purchase_id b.purchases ≡ some p)
    × (ledger_tx e.status lenv p e b.ledger ≡ ok (tt, db))
    × (payment_taken p.id p.provider e.payment_id b.purchases ≡ false)
    × (out ≡ (ok tt, applied_books env p e db b))

pub fail_unless-Fails :
    {L : Type 0} (o : Option Str) (e : PaymentEvent) (x : Error) (b b' : Books L)
    → b'.ledger ≡ b.ledger
    → b'.purchases ≡ b.purchases
    → Evolves b.events b'.events
    → Fails b (fail_unless o e x b')
fail_unless-Fails (some y) e x b b' l p v = (x, refl, l, p, v)
fail_unless-Fails none e x b b' l p v = (
  x,
  refl,
  l,
  p,
  Evolves-trans b.events b'.events _ v (
      mark_event-Evolves e.provider e.event_id (failed_event x) b'.events
        λ r. ((refl, refl, refl, refl, refl, refl), λ a. ground arith)),
)

claimed-fail-Fails :
    {L : Type 0} (env : Env) (e : PaymentEvent) (x : Error) (b : Books L)
    → Fails b (fail env e x (claimed_books env.now e b))
unfolding fail
claimed-fail-Fails env e x b =
    fail_unless-Fails (env.stmt 4) e x b (claimed_books env.now e b) refl refl
      (mark_event-Evolves e.provider e.event_id (claimed env.now) b.events (claimed-IsMark env.now))

-- What a body has done that succeeds.
abbrev pub BodyDone : Env → Env → Purchase → PaymentEvent → Books Db → Books Db → Type 0
BodyDone env lenv p e b b' =
    (db : Db) × (ledger_tx e.status lenv p e b.ledger ≡ ok (tt, db))
    × (payment_taken p.id p.provider e.payment_id b.purchases ≡ false)
    × (b' ≡ applied_books env p e db b)

record_posted-ok :
    (env lenv : Env) (p : Purchase) (e : PaymentEvent) (r : Result (Unit {0} × Db))
    (b b' : Books Db)
    → ledger_tx e.status lenv p e b.ledger ≡ r
    → record_posted env p e r (claimed_books env.now e b) ≡ ok b'
    → BodyDone env lenv p e b b'
unfolding record_event
record_posted-ok env lenv p e (err x) b b' q h = absurd (ground arith)
record_posted-ok env lenv p e (ok (u, db)) b b' q h = (db, q, ground arith, ground arith)

atomic_body-ok :
    (env lenv : Env) (p : Purchase) (e : PaymentEvent) (b b' : Books Db)
    → atomic_body env lenv p e (claimed_books env.now e b) ≡ ok b'
    → BodyDone env lenv p e b b'
unfolding atomic_body
atomic_body-ok env lenv p e b b' h = record_posted-ok env lenv p e _ b b' refl h

-- A post ends well or not.
abbrev pub PostEnds : Env → Env → PaymentEvent → Books Db → Result (Unit {0}) × Books Db → Type 0
PostEnds env lenv e b out = Fails b out ⊎ Applies env lenv e b out

commit_event-Ends :
    (c : Option Str) (env lenv : Env) (p : Purchase) (e : PaymentEvent) (r : Result (Books Db))
    (b : Books Db)
    → find_purchase e.purchase_id b.purchases ≡ some p
    → atomic_body env lenv p e (claimed_books env.now e b) ≡ r
    → PostEnds env lenv e b (commit_event c env e r (claimed_books env.now e b))
commit_event-Ends c env lenv p e (err x) b found q = inl (claimed-fail-Fails env e x b)
commit_event-Ends (some x) env lenv p e (ok b') b found q =
    inl (claimed-fail-Fails env e (driver x) b)
commit_event-Ends none env lenv p e (ok b') b found q =
    let (db, posted, free, same) = atomic_body-ok env lenv p e b b' q in
    inr (p, db, found, posted, free, ap (λ y. (ok tt, y)) same)

begin_event-Ends :
    (o : Option Str) (env lenv : Env) (p : Purchase) (e : PaymentEvent) (b : Books Db)
    → find_purchase e.purchase_id b.purchases ≡ some p
    → PostEnds env lenv e b
        (begin_event o env e (atomic_body env lenv p e) (claimed_books env.now e b))
begin_event-Ends (some x) env lenv p e b found = inl (claimed-fail-Fails env e (driver x) b)
begin_event-Ends none env lenv p e b found =
    commit_event-Ends env.commit env lenv p e _ b found refl

post_to-Ends :
    (r : Result Purchase) (env lenv : Env) (e : PaymentEvent) (b : Books Db)
    → purchase env e.purchase_id (claimed_books env.now e b) ≡ r
    → PostEnds env lenv e b (post_to r (post_atomic env lenv) env e (claimed_books env.now e b))
unfolding post_atomic in_event_tx purchase
post_to-Ends (err x) env lenv e b q = inl (claimed-fail-Fails env e x b)
post_to-Ends (ok p) env lenv e b q = elim (Bool-cases (identity_differs p e)) [
  | inl h ↦ rw h (inl (claimed-fail-Fails env e identity_conflict b))
  | inr h ↦ rw h (begin_event-Ends env.begin env lenv p e b (ground arith))
]

-- A claimed event.
pub claim_true-Ends :
    (o : Option Str) (env lenv : Env) (e : PaymentEvent) (b : Books Db)
    → PostEnds env lenv e b (claim_event o true (post_atomic env lenv) env e b)
unfolding process_claimed
claim_true-Ends (some x) env lenv e b = inl (driver x, refl, refl, refl, Evolves-refl b.events)
claim_true-Ends none env lenv e b = post_to-Ends _ env lenv e b refl

claim_event-Ends :
    (o : Option Str) (found : Bool) (env lenv : Env) (e : PaymentEvent) (b : Books Db)
    → Fails b (claim_event o found (post_atomic env lenv) env e b)
      ⊎ ((claim_event o found (post_atomic env lenv) env e b ≡ (ok tt, b))
          ⊎ Applies env lenv e b (claim_event o found (post_atomic env lenv) env e b))
claim_event-Ends (some x) found env lenv e b =
    inl (driver x, refl, refl, refl, Evolves-refl b.events)
claim_event-Ends none false env lenv e b = inr (inl refl)
claim_event-Ends none true env lenv e b = elim (claim_true-Ends none env lenv e b) [
  | inl h ↦ inl h
  | inr h ↦ inr (inr h)
]

-- It fails, does nothing at all, or applies the event.
pub process_atomic-Ends :
    (env lenv : Env) (e : PaymentEvent) (b : Books Db)
    → Fails b (process_atomic env lenv e b)
      ⊎ ((process_atomic env lenv e b ≡ (ok tt, b))
          ⊎ Applies env lenv e b (process_atomic env lenv e b))
unfolding process_atomic process_event
process_atomic-Ends env lenv e b =
    claim_event-Ends (env.stmt 0) (claims e.provider e.event_id b.events) env lenv e b

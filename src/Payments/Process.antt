-- ===== src/Payments/Process.antt =====
-- payments/payments.go: Receive, ProcessPending and processOne.
pub mod Posting
pub mod Outcome
pub mod Waiting
pub mod Atomic
pub mod Reversed
pub mod Stale
pub mod Keys
pub mod Explained
pub mod Calls
pub mod TwoPhase
pub mod Once
pub mod Reversal
pub mod Blocked
pub mod Drain
pub mod LostUpdate
pub mod Queue
use ai_credits.Prelude.{
  Bool, List, Option, Str, [], codes, false, if◌then◌else◌, none, not, some, str_eq, suc, true,
  ◌&&◌, ◌||◌, ◌∷◌,
}
use ai_credits.Credits.Db.{Db, Env}
use ai_credits.Credits.Errors.{Error, Result, driver, err, identity_conflict, ok, unique_failed}
use ai_credits.Credits.Pricing.Laws.{total}
use ai_credits.Payments.{
  Books, BooksStep, EventStatus, PaymentEvent, ProcessStatus, Purchase, PurchaseStatus, purchase,
}
use ai_credits.Payments.Postings.{Ledger, forgive, ledger_call, ledger_tx, reversal_amount}
use ai_credits.Prelude.Int.{ltb_ℤ, pos, ℤ, ◌+ℤ◌}
use ai_credits.Prelude.Int64.{add64}

abbrev pub is_event : Str → Str → PaymentEvent → Bool
is_event provider event r = str_eq r.provider provider && str_eq r.event_id event

-- UPDATE payment_events SET … WHERE provider = ? AND event_id = ?
unfoldable pub mark_event :
    Str → Str → (PaymentEvent → PaymentEvent) → List PaymentEvent → List PaymentEvent
mark_event provider event f [] = []
mark_event provider event f (r ∷ rest) =
    (if is_event provider event r then f r else r) ∷ mark_event provider event f rest

-- UPDATE payment_purchases SET … WHERE id = ?
unfoldable pub mark_purchase : Str → (Purchase → Purchase) → List Purchase → List Purchase
mark_purchase id f [] = []
mark_purchase id f (p ∷ rest) = (if str_eq p.id id then f p else p) ∷ mark_purchase id f rest

-- Has another purchase this payment? UNIQUE(provider, payment_id)
unfoldable pub payment_taken : Str → Str → Str → List Purchase → Bool
payment_taken id provider payment [] = false
payment_taken id provider payment (p ∷ rest) =
    let later = payment_taken id provider payment rest in
    (not (str_eq p.id id)
      && str_eq p.provider provider
      && elim p.payment_id [ none ↦ false | some i ↦ str_eq i payment ])
    || later

-- `p.ReversedCredits + max(amount, 0)`
unfoldable pub new_reversed : Purchase → ℤ → ℤ
new_reversed p minor =
    let amount = reversal_amount p minor in
    add64 p.reversed_credits (if ltb_ℤ (pos 0) amount then amount else pos 0)

abbrev pub reversed_purchase : EventStatus → ℤ → PaymentEvent → ℤ → Purchase → Purchase
reversed_purchase status now e total p = record p {
  payment_id = some e.payment_id;
  status = PurchaseStatus.took status;
  reversed_credits = total;
  reversed_at = some now;
  updated_at = now;
}

-- The columns that the event writes to the purchase; `read` is the purchase as it was read.
unfoldable pub purchase_after : EventStatus → ℤ → Purchase → PaymentEvent → Purchase → Purchase
purchase_after EventStatus.paid now read e p = record p {
  payment_id = some e.payment_id;
  status = PurchaseStatus.took EventStatus.paid;
  fulfilled_at = some now;
  updated_at = now;
}
purchase_after EventStatus.refunded now read e p =
    reversed_purchase EventStatus.refunded now e (new_reversed read e.reversed_minor) p
purchase_after EventStatus.disputed now read e p =
    reversed_purchase EventStatus.disputed now e (new_reversed read e.reversed_minor) p

abbrev pub applied_event : ℤ → PaymentEvent → PaymentEvent
applied_event now r = record r {
  process_status = ProcessStatus.applied;
  processed_at = some now;
  last_error = none;
  lease_until = none;
}

-- The two updates with which processOne ends its transaction.
unfoldable pub record_event :
    {L : Type 0} → Env → Purchase → PaymentEvent → Books L → Result (Books L)
record_event env p e b = elim (env.stmt 2) [
  | some x ↦ err (driver x)
  | none ↦
      if payment_taken p.id p.provider e.payment_id b.purchases
      then err (unique_failed (codes "payment_purchases.payment_id"))
      else elim (env.stmt 3) [
        | some x ↦ err (driver x)
        | none ↦ ok (record b {
          purchases = mark_purchase p.id (purchase_after e.status env.now p e) b.purchases;
          events = mark_event e.provider e.event_id (applied_event env.now) b.events;
        })
      ]
]

abbrev pub failed_event : Error → PaymentEvent → PaymentEvent
failed_event cause r = record r { process_status = ProcessStatus.failed; last_error = some cause }

-- The update of `fail`, whose own error is dropped. The code makes it on another connection before the
-- deferred rollback of an open transaction, which touches none of its rows: the tables are in the end
-- those of before with the update, or, where the open transaction keeps it from writing, an error of
-- the update, those of before.
abbrev pub fail_unless : {L : Type 0} → Option Str → PaymentEvent → Error → BooksStep L
fail_unless (some x) e cause b = (err cause, b)
fail_unless none e cause b = (
  err cause,
  record b { events = mark_event e.provider e.event_id (failed_event cause) b.events },
)

unfoldable pub fail : {L : Type 0} → Env → PaymentEvent → Error → BooksStep L
fail env e cause b = fail_unless (env.stmt 4) e cause b

abbrev pub record_posted :
    Env → Purchase → PaymentEvent → Result (Unit {0} × Db) → Books Db → Result (Books Db)
record_posted env p e (err x) b = err x
record_posted env p e (ok (u, db)) b = record_event env p e (record b { ledger = db })

-- The body of the transaction of processOne, where the ledger is credits.Service: the ledger, the
-- purchase and the event.
unfoldable pub atomic_body : Env → Env → Purchase → PaymentEvent → Books Db → Result (Books Db)
atomic_body env lenv p e b = record_posted env p e (ledger_tx e.status lenv p e b.ledger) b

-- The commit of a transaction whose body has ended, or `fail` on the tables of before.
abbrev pub commit_event :
    {L : Type 0} → Option Str → Env → PaymentEvent → Result (Books L) → BooksStep L
commit_event c env e (err x) b = fail env e x b
commit_event none env e (ok b') b = (ok tt, b')
commit_event (some x) env e (ok b') b = fail env e (driver x) b

-- The begin of a transaction, its body and its commit.
abbrev pub begin_event :
    {L : Type 0} → Option Str → Env → PaymentEvent → (Books L → Result (Books L)) → BooksStep L
begin_event (some x) env e body b = fail env e (driver x) b
begin_event none env e body b = commit_event env.commit env e (body b) b

unfoldable pub in_event_tx :
    {L : Type 0} → Env → PaymentEvent → (Books L → Result (Books L)) → BooksStep L
in_event_tx env e body b = begin_event env.begin env e body b

unfoldable pub post_atomic : Env → Env → Purchase → PaymentEvent → BooksStep Db
post_atomic env lenv p e b = in_event_tx env e (atomic_body env lenv p e) b

-- The second phase, on the books that the ledger's call has left.
abbrev pub after_call :
    {L : Type 0} → Result (Unit {0}) → Env → Purchase → PaymentEvent → BooksStep L
after_call (err x) env p e b = fail env e x b
after_call (ok u) env p e b = in_event_tx env e (record_event env p e) b

unfoldable pub post_two_phase :
    {L : Type 0} → Ledger L → Env → Purchase → PaymentEvent → BooksStep L
post_two_phase ledger env p e b =
    let (r, l) = ledger_call e.status ledger p e b.ledger in
    after_call (forgive r) env p e (record b { ledger = l })

-- The rows that the claim of processOne meets.
abbrev pub is_claimable : ProcessStatus → Bool
is_claimable ProcessStatus.received = true
is_claimable ProcessStatus.failed = true
is_claimable ProcessStatus.processing = false
is_claimable ProcessStatus.applied = false

unfoldable pub claims : Str → Str → List PaymentEvent → Bool
claims provider event [] = false
claims provider event (r ∷ rest) =
    let later = claims provider event rest in
    (is_event provider event r && is_claimable r.process_status) || later

abbrev pub lease_seconds : ℤ
lease_seconds = pos 30

abbrev pub claimed : ℤ → PaymentEvent → PaymentEvent
claimed now r =
    if is_claimable r.process_status
    then record r {
      process_status = ProcessStatus.processing;
      attempt_count = suc r.attempt_count;
      last_error = none;
      lease_until = some (now +ℤ lease_seconds);
    }
    else r

-- `p.Provider != e.Provider || p.PaymentID != "" && p.PaymentID != e.PaymentID`, where a payment_id
-- that is NULL is read as "".
unfoldable pub identity_differs : Purchase → PaymentEvent → Bool
identity_differs p e = not (str_eq p.provider e.provider) || elim p.payment_id [
  | none ↦ false
  | some i ↦ not (str_eq i []) && not (str_eq i e.payment_id)
]

-- processOne from the purchase on that was found, as far as the post that `post` stands for.
abbrev pub post_to :
    {L : Type 0}
    → Result Purchase
    → (Purchase → PaymentEvent → BooksStep L)
    → Env
    → PaymentEvent
    → BooksStep L
post_to (err x) post env e b = fail env e x b
post_to (ok p) post env e b =
    if identity_differs p e then fail env e identity_conflict b else post p e b

unfoldable pub process_claimed :
    {L : Type 0} → (Purchase → PaymentEvent → BooksStep L) → Env → PaymentEvent → BooksStep L
process_claimed post env e b = post_to (purchase env e.purchase_id b) post env e b

-- The claim: an event that no row has, or that is claimed or applied, is left alone.
abbrev pub claim_event :
    {L : Type 0}
    → Option Str
    → Bool
    → (Purchase → PaymentEvent → BooksStep L)
    → Env
    → PaymentEvent
    → BooksStep L
claim_event (some x) found post env e b = (err (driver x), b)
claim_event none true post env e b =
    process_claimed post env e
      (record b { events = mark_event e.provider e.event_id (claimed env.now) b.events })
claim_event none false post env e b = (ok tt, b)

-- processOne with nothing between the claim, the read of the purchase and the transaction. Where other
-- calls come in between, the claim is `mark_event … (claimed …)` and the rest is `post_to` with the
-- row that was read: see Payments/Process/Once.
unfoldable pub process_event :
    {L : Type 0} → (Purchase → PaymentEvent → BooksStep L) → Env → PaymentEvent → BooksStep L
process_event post env e b =
    claim_event (env.stmt 0) (claims e.provider e.event_id b.events) post env e b

-- ===== src/Payments/Process/Queue.antt =====
-- payments/payments.go: Receive and ProcessPending, around a processing of one event.
use ai_credits.Prelude.{
  Bool, List, Option, Str, [], codes, false, if◌then◌else◌, map, none, some, str_eq, suc, zero, ℕ,
  ◌||◌, ◌∷◌,
}
use ai_credits.Credits.Db.{Db, Env}
use ai_credits.Credits.Errors.{
  Result, driver, err, incomplete_event, lease_expired, ok, payload_conflict, unsupported_status,
}
use ai_credits.Payments.{Books, BooksStep, EventStatus, PaymentEvent, ProcessStatus}
use ai_credits.Payments.Postings.{credits_ledger}
use ai_credits.Payments.Process.{is_claimable, is_event, post_atomic, post_two_phase, process_event}
use ai_credits.Prelude.Int.{leb_ℤ, ltb_ℤ, pos, pos_part, ℤ}

-- The event that a caller hands over. `ReversedCredits` and `OccurredAt` of the struct are read by
-- none of the code.
pub record IncomingEvent : Type 0 where
  pub provider : Str
  pub event_id : Str
  pub payment_id : Str
  pub purchase_id : Str
  pub status : Str
  pub payload_hash : Str
  pub reversed_minor : ℤ

unfoldable pub parse_event_status : Str → Option EventStatus
parse_event_status s =
    if str_eq s (codes "paid")
    then some EventStatus.paid
    else if str_eq s (codes "refunded")
    then some EventStatus.refunded
    else if str_eq s (codes "disputed")
    then some EventStatus.disputed
    else none

abbrev pub received_event : ℤ → IncomingEvent → EventStatus → PaymentEvent
received_event now e status = record {
  provider = e.provider;
  event_id = e.event_id;
  purchase_id = e.purchase_id;
  payment_id = e.payment_id;
  status = status;
  payload_hash = e.payload_hash;
  process_status = ProcessStatus.received;
  attempt_count = 0;
  last_error = none;
  received_at = now;
  processed_at = none;
  lease_until = none;
  reversed_minor = e.reversed_minor;
}

unfoldable pub find_event : Str → Str → List PaymentEvent → Option PaymentEvent
find_event provider event [] = none
find_event provider event (r ∷ rest) =
    if is_event provider event r then some r else find_event provider event rest

-- A lease that has run out: the worker that held it is taken for dead.
abbrev pub lease_expired_at : ℤ → PaymentEvent → Bool
lease_expired_at now r = elim r.process_status [
  | ProcessStatus.processing ↦ elim r.lease_until [
    | none ↦ ltb_ℤ (pos 0) now
    | some t ↦ ltb_ℤ t now
  ]
  | _ ↦ false
]

abbrev pub expire_lease : ℤ → PaymentEvent → PaymentEvent
expire_lease now r =
    if lease_expired_at now r
    then record r { process_status = ProcessStatus.failed; last_error = some lease_expired }
    else r

-- ORDER BY received_at, where rows of the same second keep the order in which they were written.
unfoldable pub insert_by_time : PaymentEvent → List PaymentEvent → List PaymentEvent
insert_by_time e [] = e ∷ []
insert_by_time e (r ∷ rest) =
    let later = insert_by_time e rest in
    if leb_ℤ r.received_at e.received_at then r ∷ later else e ∷ r ∷ rest

-- WHERE process_status IN ('received', 'failed') ORDER BY received_at
unfoldable pub pending_events : List PaymentEvent → List PaymentEvent
pending_events [] = []
pending_events (r ∷ rest) =
    if is_claimable r.process_status
    then insert_by_time r (pending_events rest)
    else pending_events rest

-- LIMIT
unfoldable pub limited : ℕ → List PaymentEvent → List PaymentEvent
limited zero l = []
limited (suc n) [] = []
limited (suc n) (e ∷ rest) = e ∷ limited n rest

abbrev pub batch_size : ℤ → ℕ
batch_size limit = if leb_ℤ limit (pos 0) then 100 else pos_part limit

abbrev pub is_incomplete : IncomingEvent → Bool
is_incomplete e =
    str_eq e.provider []
    || str_eq e.event_id []
    || str_eq e.payment_id []
    || str_eq e.purchase_id []

module _ {L : Type 0} where
  -- The first error ends the loop.
  abbrev pub unless_failed : BooksStep L → Result (Unit {0}) × Books L → Result (Unit {0}) × Books L
  unless_failed rest (ok u, b) = rest b
  unless_failed rest (err e, b) = (err e, b)

  -- The loop of ProcessPending; `run n` is processOne in the environment of its n-th call.
  unfoldable pub process_events : (ℕ → PaymentEvent → BooksStep L) → List PaymentEvent → BooksStep L
  process_events run [] b = (ok tt, b)
  process_events run (e ∷ rest) b =
      unless_failed (process_events (λ n. run (suc n)) rest) (run 0 e b)

  -- The rows that are read, and the loop over them; the first argument is the error of the query.
  abbrev pub pass_over : Option Str → (ℕ → PaymentEvent → BooksStep L) → ℤ → BooksStep L
  pass_over (some x) run limit b = (err (driver x), b)
  pass_over none run limit b =
      process_events run (limited (batch_size limit) (pending_events b.events)) b

  abbrev pub pass_after : Option Str → (ℕ → PaymentEvent → BooksStep L) → Env → ℤ → BooksStep L
  pass_after (some x) run env limit b = (err (driver x), b)
  pass_after none run env limit b =
      pass_over (env.stmt 1) run limit (record b { events = map (expire_lease env.now) b.events })

  unfoldable pub process_pending : (ℕ → PaymentEvent → BooksStep L) → Env → ℤ → BooksStep L
  process_pending run env limit b = pass_after (env.stmt 0) run env limit b

  -- Where no row was written, the payload is compared with the one that was stored.
  abbrev pub compare_payload : Option Str → PaymentEvent → IncomingEvent → BooksStep L
  compare_payload (some x) r e b = (err (driver x), b)
  compare_payload none r e b =
      if str_eq r.payload_hash e.payload_hash then (ok tt, b) else (err payload_conflict, b)

  -- INSERT INTO payment_events … ON CONFLICT DO NOTHING; the first argument is the driver's error.
  abbrev pub store_unless :
      Option Str → Option PaymentEvent → Env → IncomingEvent → EventStatus → BooksStep L
  store_unless (some x) found env e status b = (err (driver x), b)
  store_unless none none env e status b =
      (ok tt, record b { events = received_event env.now e status ∷ b.events })
  store_unless none (some r) env e status b = compare_payload (env.stmt 1) r e b

  unfoldable pub store_event : Env → IncomingEvent → EventStatus → BooksStep L
  store_event env e status b =
      store_unless (env.stmt 0) (find_event e.provider e.event_id b.events) env e status b

  abbrev pub receive_as :
      Option EventStatus
      → (ℕ → PaymentEvent → BooksStep L)
      → Env
      → Env
      → IncomingEvent
      → BooksStep L
  receive_as none run env env' e b = (err (unsupported_status e.status), b)
  receive_as (some status) run env env' e b =
      unless_failed (process_pending run env' (pos 100)) (store_event env e status b)

  -- `Receive`, and `Apply`, which is the same; `env'` is the environment of its ProcessPending.
  unfoldable pub receive :
      (ℕ → PaymentEvent → BooksStep L) → Env → Env → IncomingEvent → BooksStep L
  receive run env env' e b =
      if is_incomplete e
      then (err incomplete_event, b)
      else receive_as (parse_event_status e.status) run env env' e b

-- processOne of a service whose ledger is credits.Service, in the environments of its own
-- statements and of the ledger's.
unfoldable pub process_atomic : Env → Env → PaymentEvent → Books Db → Result (Unit {0}) × Books Db
process_atomic env lenv = process_event (post_atomic env lenv) env

-- The same where the ledger is reached through its interface.
unfoldable pub process_two_phase : Env → Env → PaymentEvent → BooksStep Db
process_two_phase env lenv = process_event (post_two_phase (credits_ledger lenv) env) env

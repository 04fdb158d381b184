-- ===== src/Payments/Tests.antt =====
-- Runs of the payments on small tables, and the witnesses of their theorems.
use ai_credits.Prelude.{
  List, Str, [], arith, codes, false, none, refl, some, str_dec, true, ◌∷◌, ◌≡◌, ◌⊎◌,
}
use ai_credits.Credits.Accounts.{
  balance_of, find_balance, insert_transaction, key_used, transaction_id_used, upsert_balance,
}
use ai_credits.Credits.Db.{Db, Env, calm}
use ai_credits.Credits.Errors.{Error, driver, err, ok}
use ai_credits.Credits.Ledger.{adjust_tx, adjust_tx_rows, grant_tx, refund_tx}
use ai_credits.Credits.Sound.{empty_db}
use ai_credits.Credits.Tests.{ann, src}
use ai_credits.Credits.Validate.{is_blank, require_identifier, require_identifiers}
use ai_credits.Payments.{
  Books, BooksStep, CatalogItem, EventStatus, PaymentEvent, ProcessStatus, Purchase,
  create_purchase, find_item, find_purchase, insert_purchase, new_purchase, purchase, purchase_of,
}
use ai_credits.Payments.Plans.{
  PlanStatus, SubscriptionEvent, apply_subscription, find_plan_row, plan_row, plan_status,
  upsert_plan,
}
use ai_credits.Payments.Plans.Latest.{apply_all}
use ai_credits.Payments.Postings.{forgive_tx, ledger_tx, payment_key, reversal_amount}
use ai_credits.Payments.Process.{
  atomic_body, claims, identity_differs, in_event_tx, mark_event, mark_purchase, payment_taken,
  post_atomic, process_claimed, process_event, purchase_after, record_event,
}
use ai_credits.Payments.Process.Atomic.{IsDone, IsSamePayment, process_atomic_lem}
use ai_credits.Payments.Process.Explained.{IsSnapshot}
use ai_credits.Payments.Process.Keys.{key_count}
use ai_credits.Payments.Process.LostUpdate.{IsReversal, two_reversals_debit_twice}
use ai_credits.Payments.Process.Once.{
  BookReach, creates, moved, new_books, paid_once, processes, stores, unmoved,
}
use ai_credits.Payments.Process.Outcome.{Fails}
use ai_credits.Payments.Process.Queue.{
  IncomingEvent, find_event, process_atomic, process_pending, received_event, store_event,
}
use ai_credits.Payments.Process.Reversal.{IsSized}
use ai_credits.Payments.Process.Waiting.{Waits}
use ai_credits.Payments.Worker.{WorkerConfig, run_worker, worker_start}
use ai_credits.Payments.Worker.Backoff.{backoff_doubles}
use ai_credits.Prelude.Int.{neg, pos, ℤ, ◌*ℤ◌, ◌+ℤ◌, ◌-ℤ◌}
use ai_credits.Prelude.Int64.{div64, wrap}

abbrev catalog : List (Str × CatalogItem)
catalog =
    (
      codes "pack",
      record { credit_amount = pos 100; currency = codes "USD"; amount_minor = pos 500 },
    )
    ∷ []

abbrev buy : Env
buy = calm (pos 100) (codes "p1")

abbrev own1 : Env
own1 = calm (pos 200) (codes "x1")

abbrev ledger1 : Env
ledger1 = calm (pos 200) (codes "t1")

abbrev bought : Books Db
bought = (create_purchase catalog buy src ann (codes "pack") new_books).1

abbrev incoming : Str → Str → Str → ℤ → IncomingEvent
incoming event id status minor = record {
  provider = src;
  event_id = event;
  payment_id = codes "pay1";
  purchase_id = id;
  status = status;
  payload_hash = codes "h";
  reversed_minor = minor;
}

abbrev paid1 : IncomingEvent
paid1 = incoming (codes "ev1") (codes "p1") (codes "paid") (pos 0)

abbrev stored : Books Db
stored = (store_event own1 paid1 EventStatus.paid bought).1

abbrev event1 : PaymentEvent
event1 = received_event (pos 200) paid1 EventStatus.paid

abbrev applied1 : PaymentEvent
applied1 = record event1 {
  process_status = ProcessStatus.applied;
  attempt_count = 1;
  processed_at = some (pos 200);
}

abbrev paid_books : Books Db
paid_books = (process_atomic own1 ledger1 event1 stored).1

abbrev bought_reach : BookReach new_books bought
bought_reach = moved unmoved (creates catalog buy src ann (codes "pack"))

event1_read : IsSnapshot event1 stored.events
unfolding create_purchase purchase_of find_item insert_purchase find_purchase is_blank store_event
    find_event str_dec
event1_read = ((λ q. (refl, refl)), tt)

abbrev paid_reach : BookReach new_books paid_books
paid_reach =
    moved (moved bought_reach (stores own1 paid1 EventStatus.paid))
      (processes own1 ledger1 event1 event1_read)

paid_run : balance_of ann paid_books.ledger.accounts ≡ pos 100
unfolding create_purchase purchase_of find_item insert_purchase find_purchase store_event find_event
    process_atomic process_event claims process_claimed purchase identity_differs post_atomic
    in_event_tx atomic_body ledger_tx forgive_tx grant_tx adjust_tx adjust_tx_rows
    insert_transaction require_identifiers require_identifier is_blank key_used transaction_id_used
    upsert_balance record_event payment_taken balance_of find_balance str_dec
paid_run = refl

paid_event : find_event src (codes "ev1") paid_books.events ≡ some applied1
unfolding create_purchase purchase_of find_item insert_purchase find_purchase store_event find_event
    process_atomic process_event claims process_claimed purchase identity_differs post_atomic
    in_event_tx atomic_body ledger_tx forgive_tx grant_tx adjust_tx adjust_tx_rows
    insert_transaction require_identifiers require_identifier is_blank key_used transaction_id_used
    upsert_balance record_event payment_taken str_dec mark_event mark_purchase purchase_after ◌+ℤ◌
paid_event = refl

paid_once_example : key_count (payment_key src (codes "pay1")) paid_books.ledger.transactions ≡ 1
paid_once_example = paid_once paid_books src (codes "ev1") applied1 paid_reach paid_event refl refl

process_atomic_lem_example :
    (¬ Waits src (codes "ev1") stored.events → paid_books ≡ stored)
    × (Waits src (codes "ev1") stored.events
        → Fails stored (process_atomic own1 ledger1 event1 stored)
          ⊎ IsDone ledger1 event1 stored (process_atomic own1 ledger1 event1 stored))
    × ((now : ℤ) (id : Str) (p : Purchase) (db : Db)
        → own1 ≡ calm now id
        → Waits src (codes "ev1") stored.events
        → find_purchase (codes "p1") stored.purchases ≡ some p
        → IsSamePayment p event1
        → payment_taken p.id p.provider (codes "pay1") stored.purchases ≡ false
        → ledger_tx EventStatus.paid ledger1 p event1 stored.ledger ≡ ok (tt, db)
        → IsDone ledger1 event1 stored (process_atomic own1 ledger1 event1 stored))
process_atomic_lem_example = process_atomic_lem own1 ledger1 event1 stored

-- A pass over the one event.
abbrev drained : Books Db
drained = (process_pending (λ n. process_atomic own1 ledger1) own1 (pos 10) stored).1

-- A pack of 100 credits for 500 cents; 250 cents are given back, then 100 are reported late.
abbrev pack : Purchase
pack =
    new_purchase buy (codes "p1") src ann (codes "pack")
      (record { credit_amount = pos 100; currency = codes "USD"; amount_minor = pos 500 })

abbrev reversal : Str → ℤ → PaymentEvent
reversal event minor =
    received_event (pos 300) (incoming event (codes "p1") (codes "refunded") minor)
      EventStatus.refunded

abbrev sold : Books Db
sold = record {
  ledger = empty_db;
  purchases = pack ∷ [];
  events = reversal (codes "r1") (pos 250) ∷ reversal (codes "r2") (pos 100) ∷ [];
}

abbrev reversals : List (Env × Env × PaymentEvent)
reversals =
    (own1, ledger1, reversal (codes "r1") (pos 250))
    ∷ (own1, buy, reversal (codes "r2") (pos 100))
    ∷ []

pack-IsSized : IsSized pack 100 500
pack-IsSized = record {
  credits_are = refl;
  price_is = refl;
  has_price = omega arith;
  fits = omega arith;
}

pack_found : find_purchase (codes "p1") sold.purchases ≡ some pack
unfolding find_purchase str_dec
pack_found = refl

-- Two refunds that have both read the row of the pack as it was sold.
abbrev refund1 : PaymentEvent
refund1 = reversal (codes "r1") (pos 250)

abbrev refund2 : PaymentEvent
refund2 = reversal (codes "r2") (pos 100)

abbrev once_refunded : Books Db
once_refunded = (post_atomic own1 ledger1 pack refund1 sold).1

abbrev twice_refunded : Books Db
twice_refunded = (post_atomic own1 buy pack refund2 once_refunded).1

first_run : post_atomic own1 ledger1 pack refund1 sold ≡ (ok tt, once_refunded)
unfolding find_purchase reversal_amount post_atomic in_event_tx atomic_body ledger_tx forgive_tx
    refund_tx adjust_tx adjust_tx_rows insert_transaction require_identifiers require_identifier
    is_blank key_used transaction_id_used upsert_balance record_event payment_taken str_dec
    mark_event mark_purchase purchase_after wrap ◌-ℤ◌ div64 ◌+ℤ◌ ◌*ℤ◌ neg
first_run = refl

second_run : post_atomic own1 buy pack refund2 once_refunded ≡ (ok tt, twice_refunded)
unfolding find_purchase reversal_amount post_atomic in_event_tx atomic_body ledger_tx forgive_tx
    refund_tx adjust_tx adjust_tx_rows insert_transaction require_identifiers require_identifier
    is_blank key_used transaction_id_used upsert_balance record_event payment_taken str_dec
    mark_event mark_purchase purchase_after wrap ◌-ℤ◌ div64 ◌+ℤ◌ ◌*ℤ◌ neg
second_run = refl

first_new : IsReversal pack 100 500 0 refund1 sold
unfolding key_used
first_new = record { refund = refl; above = omega arith; new_key = refl }

second_new : IsReversal pack 100 500 0 refund2 once_refunded
unfolding find_purchase reversal_amount post_atomic in_event_tx atomic_body ledger_tx forgive_tx
    refund_tx adjust_tx adjust_tx_rows insert_transaction require_identifiers require_identifier
    is_blank key_used transaction_id_used upsert_balance record_event payment_taken str_dec
    mark_event mark_purchase purchase_after wrap ◌-ℤ◌ div64 ◌+ℤ◌ ◌*ℤ◌ neg
second_new = record { refund = refl; above = omega arith; new_key = refl }

two_reversals_debit_twice_example :
    (balance_of ann twice_refunded.ledger.accounts
      ≡ balance_of ann sold.ledger.accounts -ℤ (pos 50 -ℤ pos 0) -ℤ (pos 20 -ℤ pos 0))
    × ((p' : Purchase) × (find_purchase (codes "p1") twice_refunded.purchases ≡ some p')
        × (p'.reversed_credits ≡ pos 20))
two_reversals_debit_twice_example =
    two_reversals_debit_twice own1 own1 ledger1 buy pack refund1 refund2 sold once_refunded
      twice_refunded 100 500 0 pack-IsSized refl (omega arith) pack_found first_new second_new
      first_run second_run

-- An event of time 20, and one of time 10 that arrives after it.
abbrev plan_event : Str → Str → ℤ → SubscriptionEvent
plan_event event status time = record {
  provider = src;
  event_id = event;
  subscription_id = codes "sub1";
  user_id = ann;
  plan = codes "pro";
  status = status;
  period_start = pos 1;
  period_end = pos 2;
  event_created = time;
  trial_start = pos 0;
  trial_end = pos 0;
  cancel_at = pos 0;
  cancel_at_period_end = false;
}

abbrev plan_events : List (Env × SubscriptionEvent)
plan_events =
    (buy, plan_event (codes "s2") (codes "canceled") (pos 20))
    ∷ (own1, plan_event (codes "s1") (codes "active") (pos 10))
    ∷ []

plan_run :
    find_plan_row src (codes "sub1") (apply_all plan_events [])
    ≡ some (
        plan_row
          (pos 100)
          (plan_event (codes "s2") (codes "canceled") (pos 20))
          PlanStatus.cancelled)
unfolding find_plan_row apply_subscription plan_status upsert_plan str_dec
plan_run = refl

-- A pass whose first statement fails.
abbrev broken : Env
broken = record buy { stmt = λ n. some (codes "locked") }

abbrev broken_pass : ℤ → BooksStep Db
broken_pass limit = process_pending (λ n. process_atomic own1 ledger1) broken limit

broken_fails : (n : ℤ) (b : Books Db) → (x : Error) × ((broken_pass n b).0 ≡ err x)
unfolding process_pending
broken_fails n b = (driver (codes "locked"), refl)

abbrev config : WorkerConfig
config = record { interval = pos 1; batch = pos 10; max_attempts = pos 3; dead_letter = true }

backoff_doubles_example :
    ((run_worker config
        ((broken_pass, none) ∷ (broken_pass, none) ∷ [])
        (worker_start bought)).waits
      ≡ pos 2000000000 ∷ pos 1000000000 ∷ [])
    × ((run_worker config
          ((broken_pass, none) ∷ (broken_pass, none) ∷ [])
          (worker_start bought)).backoff
        ≡ pos 4000000000)
backoff_doubles_example =
    backoff_doubles config ((broken_pass, none) ∷ (broken_pass, none) ∷ []) (worker_start bought) 0
      (broken_fails, (broken_fails, tt)) refl

-- Two events: the older names a purchase that is not there.
abbrev lost1 : PaymentEvent
lost1 =
    received_event (pos 150) (incoming (codes "ev0") (codes "gone") (codes "paid") (pos 0))
      EventStatus.paid

abbrev blocked : Books Db
blocked = record { ledger = empty_db; purchases = pack ∷ []; events = event1 ∷ lost1 ∷ [] }

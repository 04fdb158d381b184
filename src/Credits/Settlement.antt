-- ===== src/Credits/Settlement.antt =====
-- credits/settlement.go: the outbox of settlements, beside the ledger and the audit trail.
pub mod Pass
pub mod Laws
use ai_credits.Prelude.{List, Option, Str, [], if◌then◌else◌, none, some, str_eq, suc, ℕ, ◌∷◌}
use ai_credits.Credits.Db.{Db, Env, Reservation}
use ai_credits.Credits.Errors.{Error, Result, driver, err, no_rows, ok}
use ai_credits.Credits.Pricing.{Pricer, cost, credits}
use ai_credits.Credits.Reservation.Finalize.{Settled, release, settle}
use ai_credits.Credits.Reservation.Rows.{find_reservation}
use ai_credits.Credits.Usage.{Usage, UsageRow, record_usage_retry}
use ai_credits.Prelude.Int.{pos, ℤ}

pub data OutboxStatus : Type 0 where
  pending settled failed expired : OutboxStatus

-- A row of settlement_outbox.
pub record OutboxRow : Type 0 where
  pub request_id : Str
  pub user_id : Str
  pub reservation_id : Str
  pub provider : Str
  pub model : Str
  pub status : OutboxStatus
  pub attempt_count : ℕ
  pub last_error : Option Error
  pub created_at : ℤ
  pub updated_at : ℤ

pub record Store : Type 0 where
  pub db : Db
  pub usage : List UsageRow
  pub outbox : List OutboxRow

unfoldable pub find_outbox : Str → List OutboxRow → Option OutboxRow
find_outbox q [] = none
find_outbox q (r ∷ rest) = if str_eq r.request_id q then some r else find_outbox q rest

-- UPDATE settlement_outbox SET … WHERE request_id = ?, which does nothing if the driver fails: the
-- code drops that error, except where it returns it.
unfoldable pub mark : Str → (OutboxRow → OutboxRow) → List OutboxRow → List OutboxRow
mark q f [] = []
mark q f (r ∷ rest) = (if str_eq r.request_id q then f r else r) ∷ mark q f rest

abbrev pub mark_unless :
    Option Str → Str → (OutboxRow → OutboxRow) → List OutboxRow → List OutboxRow
mark_unless none q f rows = mark q f rows
mark_unless (some e) q f rows = rows

abbrev pub outbox_row : ℤ → Str → Str → Str → Str → Str → OutboxRow
outbox_row now req user reservation provider model = record {
  request_id = req;
  user_id = user;
  reservation_id = reservation;
  provider = provider;
  model = model;
  status = OutboxStatus.pending;
  attempt_count = 0;
  last_error = none;
  created_at = now;
  updated_at = now;
}

-- ON CONFLICT(request_id) DO NOTHING
abbrev pub enqueued : Option OutboxRow → OutboxRow → List OutboxRow → List OutboxRow
enqueued none r rows = r ∷ rows
enqueued (some old) r rows = rows

unfoldable pub enqueue_settlement :
    Env → Str → Str → Str → Str → Str → Store → Result (Unit {0}) × Store
unfolding find_outbox
enqueue_settlement env req user reservation provider model s = elim (env.stmt 0) [
  | some e ↦ (err (driver e), s)
  | none ↦ (
    ok tt,
    record s {
      outbox =
          enqueued (find_outbox req s.outbox)
            (outbox_row env.now req user reservation provider model) s.outbox;
    },
  )
]

-- The second query of `reservationByID`, which reads no amounts but the reserved one.
abbrev pub second_query : Option Str → Option Reservation → Result Reservation
second_query (some e) found = err (driver e)
second_query none none = err no_rows
second_query none (some r) = ok (record r { captured_amount = pos 0; released_amount = pos 0 })

abbrev pub first_query : Option Str → Option Str → Option Reservation → Result Reservation
first_query none q (some r) = ok r
first_query none q none = second_query q none
first_query (some e) q found = second_query q found

unfoldable pub reservation_by_id : Option Str → Option Str → Str → Db → Result Reservation
reservation_by_id q q' i db = first_query q q' (find_reservation i db.reservations)

-- What `SettleViaOutbox`, or a round of the pass, finds around it: the driver's answers to its own
-- queries, the environments of the calls that it makes, and the clock.
pub record OutboxEnv : Type 0 where
  pub read : Option Str
  pub lookup : Option Str
  pub lookup_again : Option Str
  pub inner : Env
  pub each : ℕ → Env
  pub ended : ℕ → Option Str
  pub write : Option Str
  pub now : ℤ

abbrev pub as_failed : ℤ → Error → OutboxRow → OutboxRow
as_failed now e r = record r { status = OutboxStatus.failed; last_error = some e; updated_at = now }

abbrev pub as_failed_again : ℤ → Error → OutboxRow → OutboxRow
as_failed_again now e r = record r {
  status = OutboxStatus.failed;
  last_error = some e;
  attempt_count = suc r.attempt_count;
  updated_at = now;
}

abbrev pub as_settled_row : ℤ → OutboxRow → OutboxRow
as_settled_row now r = record r { status = OutboxStatus.settled; updated_at = now }

abbrev pub cost_or_zero : Result ℤ → ℤ
cost_or_zero (ok mu) = mu
cost_or_zero (err e) = pos 0

abbrev pub cost_of : Pricer → Usage → Result ℤ
cost_of p u = cost p u.model u.input_tokens u.output_tokens u.cached_tokens u.reasoning_tokens

abbrev pub credits_of : Pricer → Usage → Result ℤ
credits_of p u = credits p u.model u.input_tokens u.output_tokens u.cached_tokens u.reasoning_tokens

-- The last write, whose error is returned.
abbrev pub settled_write : OutboxEnv → Str → Store → Result (Unit {0}) × Store
settled_write oe req s = elim oe.write [
  | some e ↦ (err (driver e), s)
  | none ↦ (ok tt, record s { outbox = mark req (as_settled_row oe.now) s.outbox })
]

-- What follows the settle.
abbrev pub after_settle :
    Pricer → OutboxEnv → Str → Usage → ℤ → Settled → Store → Result (Unit {0}) × Store
after_settle p oe req u c (err e, r, db') s = (
  err e,
  record s { db = db'; outbox = mark_unless oe.write req (as_failed_again oe.now e) s.outbox },
)
after_settle p oe req u c (ok _, r, db') s = settled_write oe req (record s {
  db = db';
  usage =
      (record_usage_retry oe.each oe.ended p
        (record u { cost_microunits = cost_or_zero (cost_of p u); credits_charged = c }) s.usage).1;
})

-- What follows the price.
abbrev pub after_price :
    Pricer → OutboxEnv → Str → Usage → Reservation → Result ℤ → Store → Result (Unit {0}) × Store
after_price p oe req u r (err e) s = (
  err e,
  record s {
    db = (release oe.inner (some r) s.db).2;
    outbox = mark_unless oe.write req (as_failed oe.now e) s.outbox;
  },
)
after_price p oe req u r (ok c) s = after_settle p oe req u c (settle oe.inner (some r) c s.db) s

abbrev pub after_lookup :
    Pricer → OutboxEnv → Str → Usage → Result Reservation → Store → Result (Unit {0}) × Store
after_lookup p oe req u (err e) s = (err e, s)
after_lookup p oe req u (ok r) s = after_price p oe req u r (credits_of p u) s

abbrev pub after_read :
    Pricer → OutboxEnv → Str → Usage → Option OutboxRow → Store → Result (Unit {0}) × Store
after_read p oe req u none s = (err no_rows, s)
after_read p oe req u (some row) s =
    after_lookup p oe req u (reservation_by_id oe.lookup oe.lookup_again row.reservation_id s.db) s

unfoldable pub settle_via_outbox :
    Pricer → OutboxEnv → Str → Usage → Store → Result (Unit {0}) × Store
unfolding reservation_by_id find_outbox mark
settle_via_outbox p oe req u s = elim oe.read [
  | some e ↦ (err (driver e), s)
  | none ↦ after_read p oe req u (find_outbox req s.outbox) s
]

-- ===== src/Credits/Tests/Runs.antt =====
-- What the calls answer on the small tables.
use ai_credits.Prelude.{[], codes, none, refl, some, str_dec, true, ℕ_discrete, ◌≡◌}
use ai_credits.Credits.Accounts.{
  add_balance, balance_of, debit_balance, find_balance, insert_transaction, key_used, rows_covering,
  transaction_id_used, upsert_balance,
}
use ai_credits.Credits.Db.{in_tx}
use ai_credits.Credits.Errors.{driver, err, insufficient_credits, ok}
use ai_credits.Credits.Ledger.{adjust, adjust_rows, grant, refund}
use ai_credits.Credits.Monthly.{
  ensure_monthly_grant, grant_period, monthly_grant_key, plan_credit_for,
}
use ai_credits.Credits.Reconcile.{expire_all, expire_one, expire_rows, expire_stale, select_stale}
use ai_credits.Credits.Reservation.{debit_reservation, reserve, reserve_rows}
use ai_credits.Credits.Reservation.Finalize.{
  finalize, finalize_rows, load_outcome, outcome, release, settle, write_return,
}
use ai_credits.Credits.Reservation.Rows.{
  find_request, find_reservation, insert_reservation, rows_reserved, update_reserved,
}
use ai_credits.Credits.Sound.{empty_db}
use ai_credits.Credits.Subscription.{
  cancel_subscription, find_subscription, parse_status, set_subscription, subscription,
  upsert_subscription,
}
use ai_credits.Credits.Tests.{
  ann, cancelled, cfg, env1, env2, env3, env4, expired, granted, held, held_released, held_settled,
  key, month, month_granted, pro, refunded, released, request, reserved, settled, src, subscribed,
  why,
}
use ai_credits.Credits.Validate.{is_blank, require_identifier, require_identifiers}
use ai_credits.Prelude.Int.{neg, pos, ◌+ℤ◌, ◌-ℤ◌}

pub grant_run : grant env1 ann (pos 100) src why key empty_db ≡ (ok tt, granted.db)
unfolding grant adjust adjust_rows in_tx key_used insert_transaction transaction_id_used
    upsert_balance str_dec ℕ_discrete require_identifiers require_identifier is_blank ◌-ℤ◌ ◌+ℤ◌ neg
grant_run = refl

pub refund_run : refund env3 ann (pos 100) src why (codes "k2") granted.db ≡ (ok tt, refunded.db)
unfolding grant adjust adjust_rows in_tx key_used insert_transaction transaction_id_used
    upsert_balance str_dec ℕ_discrete require_identifiers require_identifier is_blank ◌-ℤ◌ ◌+ℤ◌ neg
    refund
refund_run = refl

pub reserve_run : reserve env2 ann request (pos 30) granted.db ≡ (ok held, reserved.db)
unfolding grant adjust adjust_rows in_tx key_used insert_transaction transaction_id_used
    upsert_balance str_dec ℕ_discrete require_identifiers require_identifier is_blank ◌-ℤ◌ ◌+ℤ◌ neg
    reserve reserve_rows debit_reservation rows_covering debit_balance insert_reservation
    find_reservation find_request
reserve_run = refl

-- A reserve of more than the balance is refused.
reserve_refused_run :
    reserve env2 ann request (pos 101) granted.db ≡ (err insufficient_credits, granted.db)
unfolding grant adjust adjust_rows in_tx key_used insert_transaction transaction_id_used
    upsert_balance str_dec ℕ_discrete require_identifiers require_identifier is_blank ◌-ℤ◌ ◌+ℤ◌ neg
    reserve reserve_rows debit_reservation rows_covering debit_balance insert_reservation
    find_reservation find_request
reserve_refused_run = refl

pub settle_run :
    settle env3 (some held) (pos 45) reserved.db ≡ (ok tt, some held_settled, settled.db)
unfolding grant adjust adjust_rows in_tx key_used insert_transaction transaction_id_used
    upsert_balance str_dec ℕ_discrete require_identifiers require_identifier is_blank ◌-ℤ◌ ◌+ℤ◌ neg
    reserve reserve_rows debit_reservation rows_covering debit_balance insert_reservation
    find_reservation find_request settle release finalize load_outcome outcome finalize_rows
    write_return rows_reserved update_reserved add_balance
settle_run = refl

-- The overage is drawn: 100 credits less 45.
settled_balance_run : balance_of ann settled.db.accounts ≡ pos 55
unfolding grant adjust adjust_rows in_tx key_used insert_transaction transaction_id_used
    upsert_balance str_dec ℕ_discrete require_identifiers require_identifier is_blank ◌-ℤ◌ ◌+ℤ◌ neg
    reserve reserve_rows debit_reservation rows_covering debit_balance insert_reservation
    find_reservation find_request settle release finalize load_outcome outcome finalize_rows
    write_return rows_reserved update_reserved add_balance balance_of find_balance
settled_balance_run = refl

-- A commit that fails leaves the database as it was.
settle_fault_run :
    settle env4 (some held) (pos 45) reserved.db
    ≡ (err (driver (codes "disk full")), some held, reserved.db)
unfolding grant adjust adjust_rows in_tx key_used insert_transaction transaction_id_used
    upsert_balance str_dec ℕ_discrete require_identifiers require_identifier is_blank ◌-ℤ◌ ◌+ℤ◌ neg
    reserve reserve_rows debit_reservation rows_covering debit_balance insert_reservation
    find_reservation find_request settle release finalize load_outcome outcome finalize_rows
    write_return rows_reserved update_reserved add_balance
settle_fault_run = refl

pub release_run : release env3 (some held) reserved.db ≡ (ok tt, some held_released, released.db)
unfolding grant adjust adjust_rows in_tx key_used insert_transaction transaction_id_used
    upsert_balance str_dec ℕ_discrete require_identifiers require_identifier is_blank ◌-ℤ◌ ◌+ℤ◌ neg
    reserve reserve_rows debit_reservation rows_covering debit_balance insert_reservation
    find_reservation find_request settle release finalize load_outcome outcome finalize_rows
    write_return rows_reserved update_reserved add_balance
release_run = refl

pub found_run : find_reservation (codes "r1") reserved.db.reservations ≡ some held
unfolding grant adjust adjust_rows in_tx key_used insert_transaction transaction_id_used
    upsert_balance str_dec ℕ_discrete require_identifiers require_identifier is_blank ◌-ℤ◌ ◌+ℤ◌ neg
    reserve reserve_rows debit_reservation rows_covering debit_balance insert_reservation
    find_reservation find_request
found_run = refl

pub found_settled_run : find_reservation (codes "r1") settled.db.reservations ≡ some held_settled
unfolding grant adjust adjust_rows in_tx key_used insert_transaction transaction_id_used
    upsert_balance str_dec ℕ_discrete require_identifiers require_identifier is_blank ◌-ℤ◌ ◌+ℤ◌ neg
    reserve reserve_rows debit_reservation rows_covering debit_balance insert_reservation
    find_reservation find_request settle release finalize load_outcome outcome finalize_rows
    write_return rows_reserved update_reserved add_balance
found_settled_run = refl

pub new_request_run : find_request request granted.db.reservations ≡ none
unfolding grant adjust adjust_rows in_tx key_used insert_transaction transaction_id_used
    upsert_balance str_dec ℕ_discrete require_identifiers require_identifier is_blank ◌-ℤ◌ ◌+ℤ◌ neg
    reserve reserve_rows debit_reservation rows_covering debit_balance insert_reservation
    find_reservation find_request
new_request_run = refl

pub expire_run : expire_stale (pos 300) env3 (λ n. env3) (pos 900) reserved.db ≡ (ok tt, expired.db)
unfolding grant adjust adjust_rows in_tx key_used insert_transaction transaction_id_used
    upsert_balance str_dec ℕ_discrete require_identifiers require_identifier is_blank ◌-ℤ◌ ◌+ℤ◌ neg
    reserve reserve_rows debit_reservation rows_covering debit_balance insert_reservation
    find_reservation find_request settle release finalize load_outcome outcome finalize_rows
    write_return rows_reserved update_reserved add_balance expire_stale select_stale expire_all
    expire_one expire_rows
expire_run = refl

-- A pass with a timeout of 800 seconds leaves the reservation, which is 700 seconds old.
pub early_run : expire_stale (pos 800) env3 (λ n. env3) (pos 900) reserved.db ≡ (ok tt, reserved.db)
unfolding grant adjust adjust_rows in_tx key_used insert_transaction transaction_id_used
    upsert_balance str_dec ℕ_discrete require_identifiers require_identifier is_blank ◌-ℤ◌ ◌+ℤ◌ neg
    reserve reserve_rows debit_reservation rows_covering debit_balance insert_reservation
    find_reservation find_request settle release finalize load_outcome outcome finalize_rows
    write_return rows_reserved update_reserved add_balance expire_stale select_stale expire_all
    expire_one expire_rows
early_run = refl

pub month_run : ensure_monthly_grant cfg env1 month ann [] empty_db ≡ (ok true, month_granted.db)
unfolding grant adjust adjust_rows in_tx key_used insert_transaction transaction_id_used
    upsert_balance str_dec ℕ_discrete require_identifiers require_identifier is_blank ◌-ℤ◌ ◌+ℤ◌ neg
    ensure_monthly_grant grant_period plan_credit_for monthly_grant_key subscription
    find_subscription
month_run = refl

pub subscribe_run : set_subscription env1 ann pro (codes "active") empty_db ≡ (ok tt, subscribed.db)
unfolding str_dec ℕ_discrete require_identifiers require_identifier is_blank ◌-ℤ◌ ◌+ℤ◌ neg
    set_subscription parse_status upsert_subscription
subscribe_run = refl

pub cancel_run : cancel_subscription env2 ann subscribed.db ≡ (ok tt, cancelled.db)
unfolding str_dec ℕ_discrete require_identifiers require_identifier is_blank ◌-ℤ◌ ◌+ℤ◌ neg
    set_subscription parse_status upsert_subscription cancel_subscription subscription
    find_subscription
cancel_run = refl

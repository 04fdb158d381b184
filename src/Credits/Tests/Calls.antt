-- ===== src/Credits/Tests/Calls.antt =====
-- The laws of reservations at the small tables.
use ai_credits.Prelude.{
  arith, codes, false, if◌then◌else◌, none, refl, some, str_dec, str_eq, ℕ_discrete, ◌++◌, ◌≡◌, ◌≢◌,
  ◌⊎◌,
}
use ai_credits.Credits.Accounts.{
  balance_of, debit_balance, insert_transaction, key_used, rows_covering, transaction_id_used,
  upsert_balance,
}
use ai_credits.Credits.Charge.Call.{call_costs_actual, cancelled_call_is_free, settle_succeeds}
use ai_credits.Credits.Db.{Reservation, Status, calm, in_tx}
use ai_credits.Credits.Errors.{Error, err, insufficient_credits, ok}
use ai_credits.Credits.Ledger.{adjust, adjust_rows, grant}
use ai_credits.Credits.Reconcile.{expire_one, marked_expired}
use ai_credits.Credits.Reservation.{
  debit_reservation, id_suffix, new_reservation, request_prefix, reserve, reserve_checks,
  reserve_rows,
}
use ai_credits.Credits.Reservation.Finalize.{release, settle}
use ai_credits.Credits.Reservation.Laws.{reserved_db}
use ai_credits.Credits.Reservation.Outcome.{reserve_idempotent, reserve_lem, reserve_within_balance}
use ai_credits.Credits.Reservation.Rows.{find_request, find_reservation, insert_reservation}
use ai_credits.Credits.Sound.{IsSound}
use ai_credits.Credits.System.{here}
use ai_credits.Credits.System.Expiry.{expire_returns_all}
use ai_credits.Credits.System.Final.{closed_is_final, settle_once}
use ai_credits.Credits.System.Laws.{Reach-IsSafe, start-IsSafe}
use ai_credits.Credits.System.Timeout.{expire_stale_leaves_none}
use ai_credits.Credits.Tests.{
  ann, bob, env2, env3, granted, granted_reach, held, held_released, held_settled, released,
  request, reserved, reserved_reach, settled, stale,
}
use ai_credits.Credits.Tests.Runs.{
  early_run, found_run, found_settled_run, new_request_run, release_run, reserve_run, settle_run,
}
use ai_credits.Credits.Validate.{is_blank, require_identifier, require_identifiers}
use ai_credits.Prelude.Int.{ltb_ℤ, neg, pos, ℤ, ◌+ℤ◌, ◌-ℤ◌, ◌≤ℤ◌}

granted-IsSound : IsSound granted.db
granted-IsSound = (Reach-IsSafe start-IsSafe granted_reach).sound

reserved-IsSound : IsSound reserved.db
reserved-IsSound = (Reach-IsSafe start-IsSafe reserved_reach).sound

captured_closed : held_settled.status ≢ Status.reserved
captured_closed e = cc

closed_is_final_example : find_reservation (codes "r1") settled.db.reservations ≡ some held_settled
closed_is_final_example =
    closed_is_final settled settled (codes "r1") held_settled here found_settled_run captured_closed

settle_once_example :
    (((e : Error) × ((settle env3 (some held) (pos 45) settled.db).0 ≡ err e))
      × ((settle env3 (some held) (pos 45) settled.db).2 ≡ settled.db))
    × (((e : Error) × ((release env3 (some held) settled.db).0 ≡ err e))
        × ((release env3 (some held) settled.db).2 ≡ settled.db))
    × ((expire_one env3 stale settled.db).1 ≡ settled.db)
settle_once_example =
    settle_once reserved settled env3 env3 held held_settled held stale (pos 45) (pos 45) settled.db
      reserved_reach settle_run here refl refl

call_costs_actual_example : balance_of ann settled.db.accounts ≡ (
    if str_eq ann ann
    then balance_of ann granted.db.accounts -ℤ pos 45
    else balance_of ann granted.db.accounts)
call_costs_actual_example =
    call_costs_actual env2 ann request (pos 30) granted.db reserved.db held granted-IsSound
      new_request_run reserve_run env3 held_settled (pos 45) settled.db ann settle_run

cancelled_call_is_free_example :
    balance_of ann released.db.accounts ≡ balance_of ann granted.db.accounts
cancelled_call_is_free_example =
    cancelled_call_is_free env2 ann request (pos 30) granted.db reserved.db held granted-IsSound
      new_request_run reserve_run env3 held_released released.db ann release_run

new_id_run : transaction_id_used (codes "t2") reserved.db.transactions ≡ false
unfolding grant adjust adjust_rows in_tx key_used insert_transaction transaction_id_used
    upsert_balance str_dec ℕ_discrete require_identifiers require_identifier is_blank ◌-ℤ◌ ◌+ℤ◌ neg
    reserve reserve_rows debit_reservation rows_covering debit_balance insert_reservation
    find_reservation find_request
new_id_run = refl

settle_succeeds_example :
    (settle (calm (pos 900) (codes "t2")) (some held) (pos 45) reserved.db).0 ≡ ok tt
settle_succeeds_example =
    settle_succeeds (pos 900) (codes "t2") held held (pos 45) reserved.db reserved-IsSound found_run
      refl (omega arith) new_id_run

valid_run : (n : ℤ) → pos 1 ≤ℤ n → reserve_checks ann request n ≡ ok tt
unfolding require_identifier is_blank
valid_run n h = ground arith

new_reservation_run : find_reservation (codes "r1") granted.db.reservations ≡ none
unfolding grant adjust adjust_rows in_tx key_used insert_transaction transaction_id_used
    upsert_balance str_dec ℕ_discrete require_identifiers require_identifier is_blank ◌-ℤ◌ ◌+ℤ◌ neg
    reserve reserve_rows debit_reservation rows_covering debit_balance insert_reservation
    find_reservation find_request
new_reservation_run = refl

new_hold_run : transaction_id_used (codes "r1" ++ id_suffix) granted.db.transactions ≡ false
unfolding grant adjust adjust_rows in_tx key_used insert_transaction transaction_id_used
    upsert_balance str_dec ℕ_discrete require_identifiers require_identifier is_blank ◌-ℤ◌ ◌+ℤ◌ neg
    reserve reserve_rows debit_reservation rows_covering debit_balance insert_reservation
    find_reservation find_request
new_hold_run = refl

new_key_run : key_used (request_prefix ++ request) granted.db.transactions ≡ false
unfolding grant adjust adjust_rows in_tx key_used insert_transaction transaction_id_used
    upsert_balance str_dec ℕ_discrete require_identifiers require_identifier is_blank ◌-ℤ◌ ◌+ℤ◌ neg
    reserve reserve_rows debit_reservation rows_covering debit_balance insert_reservation
    find_reservation find_request
new_key_run = refl

reserve_lem_example : reserve (calm (pos 200) (codes "r1")) ann request (pos 30) granted.db ≡ (
    if ltb_ℤ (balance_of ann granted.db.accounts) (pos 30)
    then (err insufficient_credits, granted.db)
    else (
      ok (new_reservation (calm (pos 200) (codes "r1")) (codes "r1") ann request (pos 30)),
      reserved_db (calm (pos 200) (codes "r1")) (codes "r1") ann request (pos 30) granted.db,
    ))
reserve_lem_example =
    reserve_lem (pos 200) (codes "r1") ann request (pos 30) granted.db granted-IsSound.users
      (valid_run (pos 30) (omega arith)) new_reservation_run new_request_run new_hold_run
      new_key_run

reserve_within_balance_example :
    (reserved.db ≡ granted.db)
    ⊎ ((pos 0 ≤ℤ balance_of ann reserved.db.accounts)
        × (balance_of bob reserved.db.accounts ≡ (
            if str_eq ann bob
            then balance_of bob granted.db.accounts -ℤ pos 30
            else balance_of bob granted.db.accounts)))
reserve_within_balance_example =
    reserve_within_balance env2 ann request bob (pos 30) granted.db reserved.db held
      granted-IsSound.users reserve_run

reserve_idempotent_example :
    reserve (calm (pos 900) (codes "r2")) ann request (pos 77) reserved.db ≡ (ok held, reserved.db)
reserve_idempotent_example =
    reserve_idempotent env2 (pos 900) (codes "r2") ann request (pos 30) (pos 77) granted.db
      reserved.db held reserve_run (valid_run (pos 77) (omega arith))

expire_returns_all_example :
    ((expire_one env3 stale reserved.db).1 ≡ reserved.db)
    ⊎ ((row : Reservation) × (find_reservation stale.id reserved.db.reservations ≡ some row)
        × (row.status ≡ Status.reserved)
        × (find_reservation stale.id (expire_one env3 stale reserved.db).1.reservations
            ≡ some (marked_expired env3 row))
        × (balance_of ann (expire_one env3 stale reserved.db).1.accounts ≡ (
            if str_eq row.user_id ann
            then balance_of ann reserved.db.accounts +ℤ row.amount
            else balance_of ann reserved.db.accounts)))
expire_returns_all_example =
    expire_returns_all env3 stale reserved.db ann reserved-IsSound (rw found_run (refl, refl))

expire_stale_leaves_none_example : (env3.now -ℤ pos 800) ≤ℤ held.created_at
expire_stale_leaves_none_example =
    expire_stale_leaves_none (pos 800) env3 (λ n. env3) (pos 900) reserved.db reserved.db
      (codes "r1") held reserved-IsSound early_run found_run refl

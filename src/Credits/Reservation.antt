-- ===== src/Credits/Reservation.antt =====
-- credits/reservation.go: amounts held for a call whose cost is not known yet.
pub mod Rows
pub mod Finalize
pub mod Laws
pub mod Outcome
use ai_credits.Prelude.{Option, Str, [], codes, none, not, some, str_eq, ◌++◌, ◌==◌, ◌∷◌}
use ai_credits.Credits.Accounts.{debit_balance, insert_transaction, rows_covering}
use ai_credits.Credits.Db.{
  Db, Env, Kind, Reservation, Status, Transaction, Tx, call, checked, fresh_id, gets, in_tx, modify,
  pure, raise_if, ◌>>=◌, ◌>>◌,
}
use ai_credits.Credits.Errors.{
  Result, fail_if, first_error, insufficient_credits, request_of_other_user, reservation_amount,
}
use ai_credits.Credits.Reservation.Rows.{find_request, insert_reservation}
use ai_credits.Credits.Validate.{require_identifier}
use ai_credits.Prelude.Int.{ltb_ℤ, neg, pos, ℤ}

abbrev pub id_suffix : Str
id_suffix = codes "-x"

abbrev pub request_prefix : Str
request_prefix = codes "resv:"

-- The ledger row of a reserve.
abbrev pub reserve_row : Env → Str → Str → Str → ℤ → Transaction
reserve_row env rid user request amount = record {
  id = rid ++ id_suffix;
  user_id = user;
  amount = neg amount;
  kind = Kind.reservation;
  source = codes "llm_reserve";
  reference_id = some rid;
  idempotency_key = some (request_prefix ++ request);
  metadata = none;
  created_at = env.now;
}

-- The reservation that `Reserve` inserts and returns.
abbrev pub new_reservation : Env → Str → Str → Str → ℤ → Reservation
new_reservation env rid user request amount = record {
  id = rid;
  user_id = user;
  request_id = request;
  amount = amount;
  captured_amount = pos 0;
  released_amount = pos 0;
  status = Status.reserved;
  created_at = env.now;
  updated_at = env.now;
}

unfoldable pub debit_reservation : Env → Str → Str → Str → ℤ → Tx (Unit {0})
unfolding insert_reservation insert_transaction
debit_reservation env rid user request amount = do
  call (env.stmt 1)
  n ← gets (λ db. rows_covering user amount db.accounts)
  modify (λ db. record db { accounts = debit_balance user amount env.now db.accounts })
  raise_if (n == 0) insufficient_credits
  call (env.stmt 2)
  insert_reservation (new_reservation env rid user request amount)
  call (env.stmt 3)
  insert_transaction (reserve_row env rid user request amount)
  pure tt

-- A request that is known already is answered by its reservation, to its own user only.
abbrev pub existing_reservation : Str → Reservation → Tx Reservation
existing_reservation user r = raise_if (not (str_eq r.user_id user)) request_of_other_user >> pure r

-- A new request is debited under a fresh id.
abbrev pub fresh_reservation : Env → Str → Str → ℤ → Tx Reservation
fresh_reservation env user request amount = do
  rid ← fresh_id env
  debit_reservation env rid user request amount
  pure (new_reservation env rid user request amount)

abbrev pub reserve_found : Env → Str → Str → ℤ → Option Reservation → Tx Reservation
reserve_found env user request amount none = fresh_reservation env user request amount
reserve_found env user request amount (some r) = existing_reservation user r

-- The body of the transaction of `Reserve`.
unfoldable pub reserve_rows : Env → Str → Str → ℤ → Tx Reservation
reserve_rows env user request amount = do
  call (env.stmt 0)
  existing ← gets (λ db. find_request request db.reservations)
  reserve_found env user request amount existing

abbrev pub reserve_checks : Str → Str → ℤ → Result (Unit {0})
reserve_checks user request amount = first_error (
    require_identifier (codes "user_id") user
    ∷ require_identifier (codes "request_id") request
    ∷ fail_if (ltb_ℤ amount (pos 1)) reservation_amount
    ∷ [])

unfoldable pub reserve : Env → Str → Str → ℤ → Db → Result Reservation × Db
reserve env user request amount =
    checked (reserve_checks user request amount) (in_tx env (reserve_rows env user request amount))

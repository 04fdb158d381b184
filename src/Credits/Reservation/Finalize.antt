-- ===== src/Credits/Reservation/Finalize.antt =====
-- credits/reservation.go: Settle and Release, which close a reservation at its actual cost.
pub mod Laws
use ai_credits.Prelude.{
  Bool, Option, Str, codes, false, if◌then◌else◌, none, not, some, suc, true, zero, ◌&&◌, ◌==◌,
}
use ai_credits.Credits.Accounts.{add_balance, insert_transaction}
use ai_credits.Credits.Db.{
  Db, Env, Kind, Reservation, Status, Transaction, Tx, call, commit_tx, fresh_id, gets, modify,
  pure, raise_if, ◌>>=◌, ◌>>◌,
}
use ai_credits.Credits.Errors.{
  Result, driver, err, negative_capture, ok, reservation_closed, reservation_not_found,
}
use ai_credits.Credits.Reservation.Rows.{find_reservation, rows_reserved, update_reserved}
use ai_credits.Prelude.Int.{ltb_ℤ, neg, negsuc, pos, ℤ, ◌-ℤ◌}

-- The struct `outcome`; its field `err` is the error of the result that carries it.
pub record Outcome : Type 0 where
  pub return_amount : ℤ
  pub adjustment : ℤ
  pub status : Status
  pub kind : Kind
  pub source : Str

abbrev pub outcome_reserved : Reservation → ℤ → Bool → Outcome
outcome_reserved r spent true = record {
  return_amount = r.amount;
  adjustment = r.amount;
  status = Status.released;
  kind = Kind.reservation_release;
  source = codes "llm_cancel";
}
outcome_reserved r spent false =
    if ltb_ℤ r.amount spent
    then record {
      return_amount = pos 0;
      adjustment = neg (spent -ℤ r.amount);
      status = Status.captured;
      kind = Kind.reservation_overage;
      source = codes "llm_settle";
    }
    else record {
      return_amount = r.amount -ℤ spent;
      adjustment = r.amount -ℤ spent;
      status = Status.captured;
      kind = Kind.reservation_release;
      source = codes "llm_settle";
    }

abbrev pub is_status_reserved : Status → Bool
is_status_reserved Status.reserved = true
is_status_reserved _ = false

unfoldable pub outcome : Reservation → ℤ → Bool → Result Outcome
outcome r spent release_all =
    if is_status_reserved r.status
    then ok (outcome_reserved r spent release_all)
    else err reservation_closed

-- The caller's struct after `loadOutcome` has copied the row of the table into it.
abbrev pub refreshed : Reservation → Reservation → Reservation
refreshed r row = record r { amount = row.amount; user_id = row.user_id; status = row.status }

abbrev pub outcome_found :
    Reservation → ℤ → Bool → Option Reservation → Result Outcome × Reservation
outcome_found r spent release_all none = (err reservation_not_found, r)
outcome_found r spent release_all (some row) =
    if is_status_reserved row.status
    then (outcome (refreshed r row) spent release_all, refreshed r row)
    else (err reservation_closed, r)

-- The query of `loadOutcome`, which may fail.
abbrev pub loaded :
    Option Str → Reservation → Result Outcome × Reservation → Result Outcome × Reservation
loaded none r found = found
loaded (some e) r found = (err (driver e), r)

-- `loadOutcome`: the outcome, and the caller's struct as it is left.
unfoldable pub load_outcome : Env → Reservation → ℤ → Bool → Db → Result Outcome × Reservation
unfolding outcome
load_outcome env r spent release_all db =
    loaded (env.stmt 0) r
      (outcome_found r spent release_all (find_reservation r.id db.reservations))

abbrev pub return_row : Env → Str → Reservation → Outcome → Transaction
return_row env id r out = record {
  id = id;
  user_id = r.user_id;
  amount = out.adjustment;
  kind = out.kind;
  source = out.source;
  reference_id = some r.id;
  idempotency_key = none;
  metadata = none;
  created_at = env.now;
}

-- `writeReturn`: the signed ledger row and the balance.
unfoldable pub write_return : Env → Reservation → Outcome → Tx (Unit {0})
unfolding insert_transaction
write_return env r out = do
  id ← fresh_id env
  call (env.stmt 1)
  insert_transaction (return_row env id r out)
  call (env.stmt 2)
  modify (λ db. record db { accounts = add_balance r.user_id out.adjustment env.now db.accounts })

-- `out.adjustment != 0`
abbrev pub is_zero : ℤ → Bool
is_zero (pos zero) = true
is_zero (pos (suc n)) = false
is_zero (negsuc n) = false

abbrev pub write_return_unless : Bool → Env → Reservation → Outcome → Tx (Unit {0})
write_return_unless true env r out = pure tt
write_return_unless false env r out = write_return env r out

-- The columns that the compare-and-swap sets.
abbrev pub finalized : Env → Outcome → ℤ → Reservation → Reservation
finalized env out spent row = record row {
  captured_amount = spent;
  released_amount = out.return_amount;
  status = out.status;
  updated_at = env.now;
}

-- The writes of `finalize`: the ledger adjustment, then the compare-and-swap on the status.
unfoldable pub finalize_rows : Env → Reservation → Outcome → ℤ → Tx (Unit {0})
finalize_rows env r out spent = do
  write_return_unless (is_zero out.adjustment) env r out
  call (env.stmt 3)
  n ← gets (λ db. rows_reserved r.id db.reservations)
  modify (λ db. record db {
    reservations = update_reserved r.id (finalized env out spent) db.reservations;
  })
  raise_if (n == 0) reservation_closed

-- What the caller sees: the error or none, its struct, and the database.
abbrev pub Finalized : Type 0
Finalized = Result (Unit {0}) × Reservation × Db

abbrev pub finalize_end : Env → Outcome → ℤ → Reservation → Result (Unit {0}) × Db → Finalized
finalize_end env out spent r (ok _, db') = (ok tt, finalized env out spent r, db')
finalize_end env out spent r (err e, db') = (err e, r, db')

abbrev pub finalize_loaded : Env → ℤ → Db → Result Outcome × Reservation → Finalized
finalize_loaded env spent db (err e, r) = (err e, r, db)
finalize_loaded env spent db (ok out, r) =
    finalize_end env out spent r (commit_tx env.commit db (finalize_rows env r out spent db))

-- The check in front of the transaction, and its begin.
abbrev pub finalize_begun : Bool → Option Str → Reservation → Db → Finalized → Finalized
finalize_begun true b r db rest = (err negative_capture, r, db)
finalize_begun false (some e) r db rest = (err (driver e), r, db)
finalize_begun false none r db rest = rest

unfoldable pub finalize : Env → Reservation → ℤ → Bool → Db → Finalized
unfolding load_outcome finalize_rows
finalize env r spent release_all db =
    finalize_begun (not release_all && ltb_ℤ spent (pos 0)) env.begin r db
      (finalize_loaded env spent db (load_outcome env r spent release_all db))

abbrev pub Settled : Type 0
Settled = Result (Unit {0}) × Option Reservation × Db

abbrev pub as_settled : Finalized → Settled
as_settled (res, r, db) = (res, some r, db)

-- `Settle`; `none` is the nil pointer.
unfoldable pub settle : Env → Option Reservation → ℤ → Db → Settled
settle env none actual db = (err reservation_not_found, none, db)
settle env (some r) actual db = as_settled (finalize env r actual false db)

unfoldable pub release : Env → Option Reservation → Db → Settled
release env none db = (err reservation_not_found, none, db)
release env (some r) db = as_settled (finalize env r (pos 0) true db)

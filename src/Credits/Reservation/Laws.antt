-- ===== src/Credits/Reservation/Laws.antt =====
-- What Reserve does to the tables when it succeeds.
use ai_credits.Prelude.{
  Option, Str, [], arith, codes, false, inl, inr, none, refl, some, ◌++◌, ◌∷◌, ◌≡◌, ◌≢◌, ◌⊎◌,
}
use ai_credits.Credits.Accounts.{debit_balance, key_used, rows_covering, transaction_id_used}
use ai_credits.Credits.Db.{Db, Env, Reservation, call, fresh_id}
use ai_credits.Credits.Db.Laws.{bind_result-ok, call-ok, fresh_id-ok}
use ai_credits.Credits.Errors.{Result, err, fail_if, first_error, ok, reservation_amount}
use ai_credits.Credits.Reservation.{
  debit_reservation, fresh_reservation, id_suffix, new_reservation, request_prefix, reserve_checks,
  reserve_found, reserve_row, reserve_rows,
}
use ai_credits.Credits.Reservation.Rows.{find_request, find_reservation, is_found}
use ai_credits.Credits.Validate.{require_identifier}
use ai_credits.Prelude.Int.{ltb_ℤ, pos, ℤ, ◌≤ℤ◌}

-- The database after a reserve under the id `rid`.
abbrev pub reserved_db : Env → Str → Str → Str → ℤ → Db → Db
reserved_db env rid user request amount db = record db {
  accounts = debit_balance user amount env.now db.accounts;
  transactions = reserve_row env rid user request amount ∷ db.transactions;
  reservations = new_reservation env rid user request amount ∷ db.reservations;
}

-- What a reserve under the id `rid` has found out about the tables.
pub record CanReserve (rid user request : Str) (amount : ℤ) (db : Db) : Type 0 where
  pub covered : rows_covering user amount db.accounts ≢ 0
  pub new_id : find_reservation rid db.reservations ≡ none
  pub new_request : find_request request db.reservations ≡ none
  pub new_row : transaction_id_used (rid ++ id_suffix) db.transactions ≡ false
  pub new_key : key_used (request_prefix ++ request) db.transactions ≡ false

pub is_found-none : (o : Option Reservation) → is_found o ≡ false → o ≡ none
is_found-none none h = refl
is_found-none (some r) h = cc

pub debit_reservation-ok :
    (env : Env) (rid user request : Str) (amount : ℤ) (db db' : Db)
    → debit_reservation env rid user request amount db ≡ ok (tt, db')
    → CanReserve rid user request amount db × (db' ≡ reserved_db env rid user request amount db)
unfolding debit_reservation
debit_reservation-ok env rid user request amount db db' h = ground (
  arith,
  is_found-none (find_reservation rid db.reservations),
  is_found-none (find_request request db.reservations),
)

-- What a reserve has done that succeeds: it answers with the reservation of the request, which is
-- the user's, and changes nothing, or it makes a new one.
abbrev pub Reserves : Env → Str → Str → ℤ → Db → Reservation → Db → Type 0
Reserves env user request amount db r db' =
    ((find_request request db.reservations ≡ some r) × (r.user_id ≡ user) × (db' ≡ db))
    ⊎ ((rid : Str) × (env.new_id ≡ some rid)
        × CanReserve rid user request amount db
        × (r ≡ new_reservation env rid user request amount)
        × (db' ≡ reserved_db env rid user request amount db))

fresh_reservation-ok :
    (env : Env) (user request : Str) (amount : ℤ) (db db' : Db) (r : Reservation)
    → fresh_reservation env user request amount db ≡ ok (r, db')
    → Reserves env user request amount db r db'
fresh_reservation-ok env user request amount db db' r h =
    let (rid, db1, p, q) = bind_result-ok (fresh_id env db) _ r db' h in
    let (u, db2, p2, q2) =
      bind_result-ok (debit_reservation env rid user request amount db1) _ r db' q in
    let (made, same) = fresh_id-ok env rid db db1 p in
    let (can, after) = debit_reservation-ok env rid user request amount db1 db2 p2 in
    inr (rid, made, rw same at can, ground arith, ground arith)

reserve_found-ok :
    (env : Env) (user request : Str) (amount : ℤ) (o : Option Reservation) (db db' : Db)
    (r : Reservation)
    → find_request request db.reservations ≡ o
    → reserve_found env user request amount o db ≡ ok (r, db')
    → Reserves env user request amount db r db'
reserve_found-ok env user request amount none db db' r e h =
    fresh_reservation-ok env user request amount db db' r h
reserve_found-ok env user request amount (some x) db db' r e h = inl (ground arith)

pub reserve_rows-ok :
    (env : Env) (user request : Str) (amount : ℤ) (db db' : Db) (r : Reservation)
    → reserve_rows env user request amount db ≡ ok (r, db')
    → Reserves env user request amount db r db'
unfolding reserve_rows
reserve_rows-ok env user request amount db db' r h =
    let (u, db1, p, q) = bind_result-ok (call (env.stmt 0) db) _ r db' h in
    let (fine, same) = call-ok (env.stmt 0) u db db1 p in
    reserve_found-ok env user request amount (find_request request db.reservations) db db' r refl
      (rw same at q)

-- The checks in front of a reserve let only amounts of one credit or more through.
pub reserve_checks-ok :
    (user request : Str) (amount : ℤ) (u : Unit)
    → reserve_checks user request amount ≡ ok u
    → pos 1 ≤ℤ amount
reserve_checks-ok user request amount u h =
    go (require_identifier (codes "user_id") user) (require_identifier (codes "request_id") request)
      h
  where
    go :
        (a b : Result (Unit {0}))
        → first_error (a ∷ b ∷ fail_if (ltb_ℤ amount (pos 1)) reservation_amount ∷ []) ≡ ok u
        → pos 1 ≤ℤ amount
    go (ok _) (ok _) h = ground arith
    go (ok _) (err e) h = cc
    go (err e) b h = cc

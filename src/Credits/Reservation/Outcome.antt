-- ===== src/Credits/Reservation/Outcome.antt =====
-- credits/reservation.go: how Reserve ends, whatever errors it meets.
use ai_credits.Prelude.{
  Bool-cases, List, Option-cases, Str, ap, arith, false, if◌then◌else◌, inl, inr, none, refl, some,
  str_eq, str_eq_refl, str_eq→eq, ◌++◌, ◌==◌, ◌∷◌, ◌≡◌, ◌≢◌, ◌⊎◌,
}
use ai_credits.Credits.Accounts.{
  DistinctUsers, balance_of, debit_balance, find_balance, key_used, rows_covering,
  transaction_id_used,
}
use ai_credits.Credits.Accounts.Laws.{find_balance-debit_balance, rows_covering_lem}
use ai_credits.Credits.Db.{Account, Db, Env, Reservation, calm, checked, in_tx}
use ai_credits.Credits.Db.Laws.{in_tx-Ends, in_tx-ok}
use ai_credits.Credits.Errors.{Error, Result, err, insufficient_credits, ok}
use ai_credits.Credits.Reservation.{
  debit_reservation, id_suffix, new_reservation, request_prefix, reserve, reserve_checks,
  reserve_rows,
}
use ai_credits.Credits.Reservation.Laws.{Reserves, reserve_checks-ok, reserve_rows-ok, reserved_db}
use ai_credits.Credits.Reservation.Rows.{find_request, find_reservation}
use ai_credits.Prelude.Int.{int_laws, ltb_ℤ, pos, ℤ, ◌-ℤ◌, ◌≤ℤ◌}

-- A reserve fails and leaves the database as it was, or it answers with the request's reservation.
abbrev pub ReserveEnds : Env → Str → Str → ℤ → Db → Result Reservation × Db → Type 0
ReserveEnds env user request amount db out =
    ((e : Error) × (out ≡ (err e, db)))
    ⊎ ((r : Reservation) × (db' : Db) × (pos 1 ≤ℤ amount)
        × Reserves env user request amount db r db'
        × (out ≡ (ok r, db')))

pub reserve-Ends :
    (env : Env) (user request : Str) (amount : ℤ) (db : Db)
    → ReserveEnds env user request amount db (reserve env user request amount db)
unfolding reserve
reserve-Ends env user request amount db = go (reserve_checks user request amount) refl
  where
    go :
        (c : Result (Unit {0}))
        → reserve_checks user request amount ≡ c
        → ReserveEnds env user request amount db
            (checked c (in_tx env (reserve_rows env user request amount)) db)
    go (err e) h = inl (e, refl)
    go (ok u) h = elim (in_tx-Ends env (reserve_rows env user request amount) db) [
      | inl (e, p) ↦ inl (e, p)
      | inr (r, db', q, p) ↦ inr (
        r,
        db',
        reserve_checks-ok user request amount u h,
        reserve_rows-ok env user request amount db db' r q,
        p,
      )
    ]

-- What a reserve has done that succeeds.
pub reserve-ok :
    (env : Env) (user request : Str) (amount : ℤ) (db db' : Db) (r : Reservation)
    → reserve env user request amount db ≡ (ok r, db')
    → (pos 1 ≤ℤ amount) × Reserves env user request amount db r db'
reserve-ok env user request amount db db' r h = elim (reserve-Ends env user request amount db) [
  | inl (e, p) ↦ absurd (ground arith)
  | inr (r1, db1, positive, how, p) ↦ (positive, rw (same_row r1 db1 p, same_db r1 db1 p) at how)
]
  where
    same_row :
        (r1 : Reservation) (db1 : Db) → reserve env user request amount db ≡ (ok r1, db1) → r1 ≡ r
    same_row r1 db1 p = cc

    same_db :
        (r1 : Reservation) (db1 : Db)
        → reserve env user request amount db ≡ (ok r1, db1)
        → db1 ≡ db'
    same_db r1 db1 p = cc

pub debited :
    (user v : Str) (amount now : ℤ) (accounts : List Account)
    → DistinctUsers accounts
    → rows_covering user amount accounts ≢ 0
    → (pos 0 ≤ℤ balance_of user accounts -ℤ amount)
      × (balance_of v (debit_balance user amount now accounts)
          ≡ (if str_eq user v then balance_of v accounts -ℤ amount else balance_of v accounts))
unfolding balance_of
debited user v amount now accounts d h = (
  ground (arith, rows_covering_lem user amount accounts d),
  elim (Bool-cases (str_eq user v)) [
    | inl e ↦ rw e (
        rw (← str_eq→eq user v e) (
          ground (
            arith,
            rows_covering_lem user amount accounts d,
            find_balance-debit_balance user user amount now accounts,
            str_eq_refl user,
          )))
    | inr e ↦ rw e (ground (arith, find_balance-debit_balance user v amount now accounts))
  ],
)

-- Where each user has one account row, a reserve that succeeds either finds the request known and
-- changes nothing, or takes exactly the amount from the user's balance, which stays at zero or more,
-- and from no other balance.
pub reserve_within_balance :
    (env : Env) (user request v : Str) (amount : ℤ) (db db' : Db) (r : Reservation)
    → DistinctUsers db.accounts
    → reserve env user request amount db ≡ (ok r, db')
    → (db' ≡ db)
      ⊎ ((pos 0 ≤ℤ balance_of user db'.accounts)
          × (balance_of v db'.accounts ≡ (
              if str_eq user v
              then balance_of v db.accounts -ℤ amount
              else balance_of v db.accounts)))
reserve_within_balance env user request v amount db db' r d h =
    elim (reserve-ok env user request amount db db' r h).1 [
      | inl (_, _, e) ↦ inl e
      | inr (rid, _, can, _, e) ↦
          let (enough, own) = debited user user amount env.now db.accounts d can.covered in
          let other = (debited user v amount env.now db.accounts d can.covered).1 in
          inr (rw (e, own, str_eq_refl user) enough, rw e other)
    ]

find_request-own :
    (r : Reservation) (rows : List Reservation) → find_request r.request_id (r ∷ rows) ≡ some r
unfolding find_request
find_request-own r rows = rw (str_eq_refl r.request_id) refl

-- After a success the request is known, as the user's.
pub reserve_known :
    (env : Env) (user request : Str) (amount : ℤ) (db db' : Db) (r : Reservation)
    → reserve env user request amount db ≡ (ok r, db')
    → (find_request request db'.reservations ≡ some r) × (r.user_id ≡ user)
reserve_known env user request amount db db' r h =
    elim (reserve-ok env user request amount db db' r h).1 [
      | inl (found, own, e) ↦ (rw e found, own)
      | inr (rid, _, _, made, e) ↦ (
        rw (e, made)
            (find_request-own (new_reservation env rid user request amount) db.reservations),
        ap (λ x. x.user_id) made,
      )
    ]

reserve_rows-known :
    (env : Env) (user request : Str) (amount : ℤ) (db : Db) (r : Reservation)
    → env.stmt 0 ≡ none
    → find_request request db.reservations ≡ some r
    → r.user_id ≡ user
    → reserve_rows env user request amount db ≡ ok (r, db)
unfolding reserve_rows
reserve_rows-known env user request amount db r fine found own =
    rw (fine, found, own, str_eq_refl user)

-- A repeated reserve of the same user and request, at whatever valid amount, answers with the same
-- reservation and changes nothing, where the driver reports no error.
pub reserve_idempotent :
    (env : Env) (now : ℤ) (id user request : Str) (amount amount' : ℤ) (db db' : Db)
    (r : Reservation)
    → reserve env user request amount db ≡ (ok r, db')
    → reserve_checks user request amount' ≡ ok tt
    → reserve (calm now id) user request amount' db' ≡ (ok r, db')
unfolding reserve
reserve_idempotent env now id user request amount amount' db db' r h valid =
    let (known, own) = reserve_known env user request amount db db' r h in
    rw valid (
      in_tx-ok (calm now id) (reserve_rows (calm now id) user request amount') db' db' r refl refl
        (reserve_rows-known (calm now id) user request amount' db' r refl known own))

debit_reservation-calm :
    (now : ℤ) (rid user request : Str) (amount : ℤ) (db : Db)
    → find_reservation rid db.reservations ≡ none
    → find_request request db.reservations ≡ none
    → transaction_id_used (rid ++ id_suffix) db.transactions ≡ false
    → key_used (request_prefix ++ request) db.transactions ≡ false
    → debit_reservation (calm now rid) rid user request amount db ≡ (
        if rows_covering user amount db.accounts == 0
        then err insufficient_credits
        else ok (tt, reserved_db (calm now rid) rid user request amount db))
unfolding debit_reservation
debit_reservation-calm now rid user request amount db a b c d = ground arith

reserve_rows-calm :
    (now : ℤ) (rid user request : Str) (amount : ℤ) (db : Db)
    → find_reservation rid db.reservations ≡ none
    → find_request request db.reservations ≡ none
    → transaction_id_used (rid ++ id_suffix) db.transactions ≡ false
    → key_used (request_prefix ++ request) db.transactions ≡ false
    → reserve_rows (calm now rid) user request amount db ≡ (
        if rows_covering user amount db.accounts == 0
        then err insufficient_credits
        else ok (
          new_reservation (calm now rid) rid user request amount,
          reserved_db (calm now rid) rid user request amount db,
        ))
unfolding reserve_rows
reserve_rows-calm now rid user request amount db a b c d =
    rw (b, debit_reservation-calm now rid user request amount db a b c d)
      (elim (Bool-cases (rows_covering user amount db.accounts == 0)) [
        | inl h ↦ rw h
        | inr h ↦ rw h
      ])

rows_covering-decides :
    (user : Str) (amount : ℤ) (accounts : List Account)
    → DistinctUsers accounts
    → pos 1 ≤ℤ amount
    → (rows_covering user amount accounts == 0) ≡ ltb_ℤ (balance_of user accounts) amount
unfolding balance_of
rows_covering-decides user amount accounts d p =
    rw (rows_covering_lem user amount accounts d)
      (elim (Option-cases (find_balance user accounts)) [
        | inl e ↦ rw e (ground arith)
        | inr (b, e) ↦ rw e (grind int_laws)
      ])

-- Where the driver reports no error, each user has one account row and the request, its key and the
-- new id are new, a valid reserve is refused for insufficient credits, with nothing changed, exactly
-- if the balance is below the amount; otherwise the reservation is made.
pub reserve_lem :
    (now : ℤ) (rid user request : Str) (amount : ℤ) (db : Db)
    → DistinctUsers db.accounts
    → reserve_checks user request amount ≡ ok tt
    → find_reservation rid db.reservations ≡ none
    → find_request request db.reservations ≡ none
    → transaction_id_used (rid ++ id_suffix) db.transactions ≡ false
    → key_used (request_prefix ++ request) db.transactions ≡ false
    → reserve (calm now rid) user request amount db ≡ (
        if ltb_ℤ (balance_of user db.accounts) amount then (err insufficient_credits, db) else (
          ok (new_reservation (calm now rid) rid user request amount),
          reserved_db (calm now rid) rid user request amount db,
        ))
unfolding reserve in_tx
reserve_lem now rid user request amount db one valid a b c d =
    let decides =
      rows_covering-decides user amount db.accounts one
        (reserve_checks-ok user request amount tt valid) in
    rw (valid, reserve_rows-calm now rid user request amount db a b c d, decides)
      (elim (Bool-cases (ltb_ℤ (balance_of user db.accounts) amount)) [
        | inl h ↦ rw h
        | inr h ↦ rw h
      ])

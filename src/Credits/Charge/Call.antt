-- ===== src/Credits/Charge/Call.antt =====
-- credits/reservation.go: a whole call, from its Reserve to its Settle or Release.
use ai_credits.Prelude.{
  Bool-cases, Str, ap, arith, false, if◌then◌else◌, inl, inr, none, refl, some, str_eq, str_eq_refl,
  sym, true, ◌∙◌, ◌≡◌,
}
use ai_credits.Credits.Accounts.{balance_of, transaction_id_used}
use ai_credits.Credits.Charge.{release_returns_all, settle_charges_actual}
use ai_credits.Credits.Db.{Db, Env, Reservation, Status, calm}
use ai_credits.Credits.Errors.{ok}
use ai_credits.Credits.Reservation.{new_reservation, reserve}
use ai_credits.Credits.Reservation.Finalize.{
  Outcome, finalize, finalize_rows, is_status_reserved, is_zero, load_outcome, outcome,
  outcome_reserved, refreshed, release, settle, write_return,
}
use ai_credits.Credits.Reservation.Finalize.Laws.{closed_db, returned_db}
use ai_credits.Credits.Reservation.Laws.{CanReserve, reserved_db}
use ai_credits.Credits.Reservation.Outcome.{debited, reserve-ok}
use ai_credits.Credits.Reservation.Rows.{find_request, find_reservation, rows_reserved}
use ai_credits.Credits.Reservation.Rows.Laws.{find_reservation-id, rows_reserved_lem}
use ai_credits.Credits.Sound.{IsSound}
use ai_credits.Credits.Sound.Reserve.{reserve-IsSound}
use ai_credits.Prelude.Int.{int_laws, ltb_ℤ, pos, ℤ, ◌-ℤ◌, ◌≤ℤ◌}

-- A reserve of a request that is new makes a new row.
reserve_new :
    (env : Env) (user request : Str) (amount : ℤ) (db db1 : Db) (r : Reservation)
    → find_request request db.reservations ≡ none
    → reserve env user request amount db ≡ (ok r, db1)
    → (rid : Str) × CanReserve rid user request amount db
      × (r ≡ new_reservation env rid user request amount)
      × (db1 ≡ reserved_db env rid user request amount db)
reserve_new env user request amount db db1 r fresh h =
    elim (reserve-ok env user request amount db db1 r h).1 [
      | inl (found, _, _) ↦ absurd (cc (found, fresh))
      | inr (rid, _, can, made, e) ↦ (rid, can, made, e)
    ]

found_new :
    (env : Env) (rid user request : Str) (amount : ℤ) (db : Db)
    → find_reservation rid (reserved_db env rid user request amount db).reservations
      ≡ some (new_reservation env rid user request amount)
unfolding find_reservation
found_new env rid user request amount db = rw (str_eq_refl rid) refl

-- The row that a close finds is the one that the reserve wrote.
module _ (env : Env) (user request : Str) (amount : ℤ) (db db1 : Db) (r : Reservation)
    (s : IsSound db) (fresh : find_request request db.reservations ≡ none)
    (h : reserve env user request amount db ≡ (ok r, db1)) where
  reserved_row :
      (row : Reservation)
      → find_reservation r.id db1.reservations ≡ some row
      → (row.user_id ≡ user) × (row.amount ≡ amount)
  reserved_row row found =
      let (rid, can, made, e) = reserve_new env user request amount db db1 r fresh h in
      let known = found_new env rid user request amount db in
      let same : row ≡ new_reservation env rid user request amount =
        some_inj (sym found ∙ rw (made, e) known) in
      (ap (λ x. x.user_id) same, ap (λ x. x.amount) same)
    where
      some_inj : {a b : Reservation} → some a ≡ some b → a ≡ b
      some_inj p = cc

  db1-IsSound : IsSound db1
  db1-IsSound = rw h at (reserve-IsSound env user request amount db s)

  reserved_balance :
      (v : Str)
      → balance_of v db1.accounts
        ≡ (if str_eq user v then balance_of v db.accounts -ℤ amount else balance_of v db.accounts)
  reserved_balance v =
      let (rid, can, made, e) = reserve_new env user request amount db db1 r fresh h in
      rw e (debited user v amount env.now db.accounts s.users can.covered).1

  -- Where the tables are sound and the request is new, a reserve and a settle of its reservation that
  -- both succeed cost the user exactly the actual cost, whatever was reserved, and cost no other user
  -- anything.
  pub call_costs_actual :
      (env' : Env) (r' : Reservation) (actual : ℤ) (db2 : Db) (v : Str)
      → settle env' (some r) actual db1 ≡ (ok tt, some r', db2)
      → balance_of v db2.accounts
        ≡ (if str_eq user v then balance_of v db.accounts -ℤ actual else balance_of v db.accounts)
  call_costs_actual env' r' actual db2 v settled =
      let (row, found, o, after, _) =
        settle_charges_actual env' r r' actual db1 db2 v db1-IsSound settled in
      let (own, size) = reserved_row row found in
      let before = reserved_balance v in
      rw own at after
      ∙ rw (before, size)
          (elim (Bool-cases (str_eq user v)) [ inl p ↦ rw p (omega int_laws) | inr p ↦ rw p refl ])

  -- Where the tables are sound and the request is new, a reserve and a release of its reservation that
  -- both succeed leave every balance as it was before the two.
  pub cancelled_call_is_free :
      (env' : Env) (r' : Reservation) (db2 : Db) (v : Str)
      → release env' (some r) db1 ≡ (ok tt, some r', db2)
      → balance_of v db2.accounts ≡ balance_of v db.accounts
  cancelled_call_is_free env' r' db2 v released =
      let (row, found, o, after, _) =
        release_returns_all env' r r' db1 db2 v db1-IsSound released in
      let (own, size) = reserved_row row found in
      let before = reserved_balance v in
      rw own at after
      ∙ rw (before, size)
          (elim (Bool-cases (str_eq user v)) [ inl p ↦ rw p (omega int_laws) | inr p ↦ rw p refl ])

write_return-calm :
    (now : ℤ) (lid : Str) (r : Reservation) (out : Outcome) (db : Db)
    → transaction_id_used lid db.transactions ≡ false
    → write_return (calm now lid) r out db ≡ ok (tt, returned_db (calm now lid) lid r out db)
unfolding write_return
write_return-calm now lid r out db fresh = ground arith

-- The tables after the writes of a settle without errors of the driver.
abbrev pub settled_db : Env → Str → Reservation → Outcome → ℤ → Db → Db
settled_db env lid r out spent db =
    closed_db env r out spent (if is_zero out.adjustment then db else returned_db env lid r out db)

finalize_rows-calm :
    (now : ℤ) (lid : Str) (r : Reservation) (out : Outcome) (spent : ℤ) (db : Db)
    → transaction_id_used lid db.transactions ≡ false
    → rows_reserved r.id db.reservations ≡ 1
    → finalize_rows (calm now lid) r out spent db
      ≡ ok (tt, settled_db (calm now lid) lid r out spent db)
unfolding finalize_rows
finalize_rows-calm now lid r out spent db fresh one = elim (Bool-cases (is_zero out.adjustment)) [
  | inl z ↦ rw (z, one) refl
  | inr z ↦ rw (z, write_return-calm now lid r out db fresh, one) refl
]

-- Where the driver reports no error, the tables are sound and the new ledger id is new, a settle at a
-- cost of zero or more of a reservation that the table has as reserved succeeds, whatever the cost.
pub settle_succeeds :
    (now : ℤ) (lid : Str) (r row : Reservation) (actual : ℤ) (db : Db)
    → IsSound db
    → find_reservation r.id db.reservations ≡ some row
    → row.status ≡ Status.reserved
    → pos 0 ≤ℤ actual
    → transaction_id_used lid db.transactions ≡ false
    → (settle (calm now lid) (some r) actual db).0 ≡ ok tt
unfolding settle finalize load_outcome outcome
settle_succeeds now lid r row actual db s found o nonneg fresh =
    rw (not_negative, found, is_open)
      (rw
        (finalize_rows-calm now lid (refreshed r row)
          (outcome_reserved (refreshed r row) actual false) actual db fresh one)
        refl)
  where
    is_open : is_status_reserved row.status ≡ true
    is_open = rw o refl

    not_negative : ltb_ℤ actual (pos 0) ≡ false
    not_negative = ground arith

    one : rows_reserved r.id db.reservations ≡ 1
    one = ground (
      arith,
      rows_reserved_lem r.id db.reservations s.ids,
      find_reservation-id r.id row db.reservations found,
    )

-- ===== src/Credits/Reservation/Finalize/Laws.antt =====
-- What closing a reservation does to the tables when it succeeds.
use ai_credits.Prelude.{
  Bool, Bool-cases, Option, Option-cases, Str, arith, false, inl, inr, none, not, refl, some, suc,
  true, zero, ◌&&◌, ◌==◌, ◌∷◌, ◌≡◌, ◌≢◌, ◌⊎◌,
}
use ai_credits.Credits.Accounts.{add_balance}
use ai_credits.Credits.Db.{
  Db, Env, Reservation, Status, call, commit_tx, gets, modify, raise_if, ◌>>=◌, ◌>>◌,
}
use ai_credits.Credits.Db.Laws.{bind_result-ok, commit_tx-Ends}
use ai_credits.Credits.Errors.{
  Error, driver, err, negative_capture, ok, reservation_closed, reservation_not_found,
}
use ai_credits.Credits.Reservation.Finalize.{
  Finalized, Outcome, finalize, finalize_begun, finalize_end, finalize_loaded, finalize_rows,
  finalized, is_status_reserved, is_zero, loaded, outcome, outcome_found, outcome_reserved,
  refreshed, return_row, write_return, write_return_unless,
}
use ai_credits.Credits.Reservation.Rows.{find_reservation, rows_reserved, update_reserved}
use ai_credits.Prelude.Int.{ltb_ℤ, negsuc, pos, ℤ}

pub is_zero→eq : (a : ℤ) → is_zero a ≡ true → a ≡ pos 0
is_zero→eq (pos zero) h = refl
is_zero→eq (pos (suc n)) h = cc
is_zero→eq (negsuc n) h = cc

-- The database after a ledger adjustment that refers to the reservation.
abbrev pub returned_db : Env → Str → Reservation → Outcome → Db → Db
returned_db env lid r out db = record db {
  accounts = add_balance r.user_id out.adjustment env.now db.accounts;
  transactions = return_row env lid r out ∷ db.transactions;
}

abbrev pub closed_db : Env → Reservation → Outcome → ℤ → Db → Db
closed_db env r out spent db = record db {
  reservations = update_reserved r.id (finalized env out spent) db.reservations;
}

-- Nothing is written to the ledger if nothing is to be returned or drawn, and else one row.
abbrev pub Finalizes : Env → Reservation → Outcome → ℤ → Db → Db → Type 0
Finalizes env r out spent db db' =
    ((out.adjustment ≡ pos 0) × (db' ≡ closed_db env r out spent db))
    ⊎ ((lid : Str) × (db' ≡ closed_db env r out spent (returned_db env lid r out db)))

write_return-ok :
    (env : Env) (r : Reservation) (out : Outcome) (db db' : Db)
    → write_return env r out db ≡ ok (tt, db')
    → (lid : Str) × (db' ≡ returned_db env lid r out db)
unfolding write_return
write_return-ok env r out db db' h = elim (Option-cases env.new_id) [
  | inl e ↦ absurd (ground arith)
  | inr (i, e) ↦ (i, ground arith)
]

write_return_unless-ok :
    (b : Bool) (env : Env) (r : Reservation) (out : Outcome) (db db' : Db)
    → write_return_unless b env r out db ≡ ok (tt, db')
    → ((b ≡ true) × (db' ≡ db)) ⊎ ((lid : Str) × (db' ≡ returned_db env lid r out db))
write_return_unless-ok true env r out db db' h = inl (refl, cc)
write_return_unless-ok false env r out db db' h = inr (write_return-ok env r out db db' h)

close_rows-ok :
    (env : Env) (r : Reservation) (out : Outcome) (spent : ℤ) (db db' : Db) (u : Unit)
    → (do
      call (env.stmt 3)
      n ← gets (λ db. rows_reserved r.id db.reservations)
      modify (closed_db env r out spent)
      raise_if (n == 0) reservation_closed)
        db
      ≡ ok (u, db')
    → (rows_reserved r.id db.reservations ≢ 0) × (db' ≡ closed_db env r out spent db)
close_rows-ok env r out spent db db' u h = ground arith

-- The writes of a settlement succeed only on a reservation that is still reserved.
pub finalize_rows-ok :
    (env : Env) (r : Reservation) (out : Outcome) (spent : ℤ) (db db' : Db) (u : Unit)
    → finalize_rows env r out spent db ≡ ok (u, db')
    → (rows_reserved r.id db.reservations ≢ 0) × Finalizes env r out spent db db'
unfolding finalize_rows
finalize_rows-ok env r out spent db db' u h =
    let (v, db1, p, q) =
      bind_result-ok (write_return_unless (is_zero out.adjustment) env r out db) _ u db' h in
    let (n, e) = close_rows-ok env r out spent db1 db' u q in
    elim (write_return_unless-ok (is_zero out.adjustment) env r out db db1 p) [
      | inl (z, same) ↦ (rw same at n, inl (is_zero→eq out.adjustment z, rw same at e))
      | inr (lid, some_row) ↦ (rw some_row at n, inr (lid, rw some_row at e))
    ]

pub is_status_reserved→eq : (st : Status) → is_status_reserved st ≡ true → st ≡ Status.reserved
is_status_reserved→eq st h = ground arith

-- A finalization fails and leaves the database as it was, or it has closed a reserved row.
abbrev pub Closed : Env → Reservation → ℤ → Bool → Db → Finalized → Type 0
Closed env r spent release_all db (res, r', db') =
    ((e : Error) × (res ≡ err e) × (db' ≡ db))
    ⊎ ((row : Reservation) × (find_reservation r.id db.reservations ≡ some row)
        × (row.status ≡ Status.reserved)
        × ((not release_all && ltb_ℤ spent (pos 0)) ≡ false)
        × (res ≡ ok tt)
        × (let caller = refreshed r row in
            let out = outcome_reserved caller spent release_all in
            (r' ≡ finalized env out spent caller)
            × (finalize_rows env caller out spent db ≡ ok (tt, db'))))

module _ (env : Env) (r : Reservation) (spent : ℤ) (release_all : Bool) (db : Db)
    (fine : (not release_all && ltb_ℤ spent (pos 0)) ≡ false) where
  finalize_end-Closed :
      (row : Reservation)
      → find_reservation r.id db.reservations ≡ some row
      → row.status ≡ Status.reserved
      → let caller = refreshed r row in
        let out = outcome_reserved caller spent release_all in
        Closed env r spent release_all db (
          finalize_end env out spent caller
            (commit_tx env.commit db (finalize_rows env caller out spent db)))
  finalize_end-Closed row found is_open =
      let caller = refreshed r row in
      let out = outcome_reserved caller spent release_all in
      elim (commit_tx-Ends env.commit db (finalize_rows env caller out spent db)) [
        | inl (e, p) ↦ rw p (inl (e, refl, refl))
        | inr (u, db', q, p) ↦ rw p (inr (row, found, is_open, fine, refl, (refl, q)))
      ]

  finalize_loaded-Closed :
      (o : Option Reservation)
      → find_reservation r.id db.reservations ≡ o
      → Closed env r spent release_all db
          (finalize_loaded env spent db (outcome_found r spent release_all o))
  unfolding outcome
  finalize_loaded-Closed none found = inl (reservation_not_found, refl, refl)
  finalize_loaded-Closed (some row) found = elim (Bool-cases (is_status_reserved row.status)) [
    | inr h ↦ rw h (inl (reservation_closed, refl, refl))
    | inl h ↦ rw h (finalize_end-Closed row found (is_status_reserved→eq row.status h))
  ]

finalize_begun-Closed :
    (env : Env) (r : Reservation) (spent : ℤ) (release_all : Bool) (db : Db) (refused : Bool)
    (b q : Option Str)
    → (not release_all && ltb_ℤ spent (pos 0)) ≡ refused
    → Closed env r spent release_all db (
        finalize_begun refused b r db (
          finalize_loaded env spent db (
            loaded q r
              (outcome_found r spent release_all (find_reservation r.id db.reservations)))))
finalize_begun-Closed env r spent release_all db true b q h = inl (negative_capture, refl, refl)
finalize_begun-Closed env r spent release_all db false (some e) q h = inl (driver e, refl, refl)
finalize_begun-Closed env r spent release_all db false none (some e) h = inl (driver e, refl, refl)
finalize_begun-Closed env r spent release_all db false none none h =
    finalize_loaded-Closed env r spent release_all db h _ refl

pub finalize-Closed :
    (env : Env) (r : Reservation) (spent : ℤ) (release_all : Bool) (db : Db)
    → Closed env r spent release_all db (finalize env r spent release_all db)
unfolding finalize
finalize-Closed env r spent release_all db =
    finalize_begun-Closed env r spent release_all db _ env.begin (env.stmt 0) refl

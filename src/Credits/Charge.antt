-- ===== src/Credits/Charge.antt =====
-- credits/reservation.go: what a call costs its user, from Reserve to Settle or Release.
pub mod Call
use ai_credits.Prelude.{
  Bool, Bool-cases, Str, arith, false, if◌then◌else◌, inl, inr, none, not, refl, some, str_eq, true,
  ◌&&◌, ◌≡◌, ◌≢◌,
}
use ai_credits.Credits.Accounts.{balance_of, find_balance}
use ai_credits.Credits.Accounts.Laws.{balance_of-add_balance}
use ai_credits.Credits.Db.{Db, Env, Reservation, Status}
use ai_credits.Credits.Errors.{ok}
use ai_credits.Credits.Reservation.Finalize.{
  Finalized, Outcome, as_settled, finalize, finalize_rows, finalized, outcome_reserved, refreshed,
  release, settle,
}
use ai_credits.Credits.Reservation.Finalize.Laws.{Closed, finalize-Closed, finalize_rows-ok}
use ai_credits.Credits.Reservation.Rows.{find_reservation, is_reserved}
use ai_credits.Credits.Reservation.Rows.Laws.{find_reservation-id, find_reservation-update_reserved}
use ai_credits.Credits.Sound.{IsSound}
use ai_credits.Prelude.Int.{int_laws, ltb_ℤ, pos, ℤ, ◌+ℤ◌, ◌-ℤ◌}

-- A settle, or a release, of the caller's struct `r` that succeeds has closed this row of the table.
abbrev pub HasClosed : Env → Reservation → ℤ → Bool → Db → Reservation → Db → Type 0
HasClosed env r spent release_all db r' db' =
    (row : Reservation) × (find_reservation r.id db.reservations ≡ some row)
    × (row.status ≡ Status.reserved)
    × ((not release_all && ltb_ℤ spent (pos 0)) ≡ false)
    × (let caller = refreshed r row in
        let out = outcome_reserved caller spent release_all in
        (r' ≡ finalized env out spent caller)
        × (finalize_rows env caller out spent db ≡ ok (tt, db')))

finalize-ok :
    (env : Env) (r : Reservation) (spent : ℤ) (release_all : Bool) (db : Db) (out : Finalized)
    → Closed env r spent release_all db out
    → out.0 ≡ ok tt
    → HasClosed env r spent release_all db out.1 out.2
finalize-ok env r spent release_all db (res, r', db') (inl (e, p, same)) h = absurd (cc (p, h))
finalize-ok env r spent release_all db (res, r', db') (inr (row, found, o, fine, _, rest)) h =
    (row, found, o, fine, rest)

-- The balances after the rows of a finalization are written.
finalize_rows-balance :
    (env : Env) (row r : Reservation) (out : Outcome) (spent : ℤ) (db db' : Db) (v : Str)
    → find_balance r.user_id db.accounts ≢ none
    → finalize_rows env r out spent db ≡ ok (tt, db')
    → balance_of v db'.accounts ≡ (
        if str_eq r.user_id v
        then balance_of v db.accounts +ℤ out.adjustment
        else balance_of v db.accounts)
finalize_rows-balance env row r out spent db db' v known h =
    elim (finalize_rows-ok env r out spent db db' tt h).1 [
      | inl (z, e) ↦
          rw (e, z)
            (elim (Bool-cases (str_eq r.user_id v)) [
              | inl p ↦ rw p (omega int_laws)
              | inr p ↦ rw p refl
            ])
      | inr (lid, e) ↦
          rw e (balance_of-add_balance r.user_id v out.adjustment env.now db.accounts known)
    ]

finalize_rows-row :
    (env : Env) (r row : Reservation) (out : Outcome) (spent : ℤ) (db db' : Db)
    → find_reservation r.id db.reservations ≡ some row
    → row.status ≡ Status.reserved
    → finalize_rows env r out spent db ≡ ok (tt, db')
    → find_reservation r.id db'.reservations ≡ some (finalized env out spent row)
finalize_rows-row env r row out spent db db' found o h =
    let same_id = find_reservation-id r.id row db.reservations found in
    let updated =
      find_reservation-update_reserved r.id r.id (finalized env out spent) (λ x. refl)
        db.reservations in
    elim (finalize_rows-ok env r out spent db db' tt h).1 [
      | inl (z, e) ↦ rw e (rw (updated, found) (open_row same_id))
      | inr (lid, e) ↦ rw e (rw (updated, found) (open_row same_id))
    ]
  where
    open_row :
        row.id ≡ r.id
        → (if is_reserved r.id row then some (finalized env out spent row) else some row)
          ≡ some (finalized env out spent row)
    open_row same_id = ground arith

account_known :
    (i : Str) (row : Reservation) (db : Db)
    → IsSound db
    → find_reservation i db.reservations ≡ some row
    → find_balance row.user_id db.accounts ≢ none
account_known i row db s found = (rw found at (s.held i)).0

outcome-adjust :
    (r : Reservation) (spent : ℤ) → (outcome_reserved r spent false).adjustment ≡ r.amount -ℤ spent
outcome-adjust r spent = elim (Bool-cases (ltb_ℤ r.amount spent)) [
  | inl h ↦ rw h (omega int_laws)
  | inr h ↦ rw h refl
]

pub outcome-status :
    (r : Reservation) (spent : ℤ) → (outcome_reserved r spent false).status ≡ Status.captured
outcome-status r spent = elim (Bool-cases (ltb_ℤ r.amount spent)) [
  | inl h ↦ rw h refl
  | inr h ↦ rw h refl
]

pub settle-HasClosed :
    (env : Env) (r r' : Reservation) (actual : ℤ) (db db' : Db)
    → settle env (some r) actual db ≡ (ok tt, some r', db')
    → HasClosed env r actual false db r' db'
unfolding settle
settle-HasClosed env r r' actual db db' h =
    go (finalize env r actual false db) (finalize-Closed env r actual false db) h
  where
    go :
        (out : Finalized)
        → Closed env r actual false db out
        → as_settled out ≡ (ok tt, some r', db')
        → HasClosed env r actual false db r' db'
    go (res, r1, db1) c h =
        rw (own h, own_db h) at (finalize-ok env r actual false db (res, r1, db1) c (cc h))
      where
        own : as_settled (res, r1, db1) ≡ (ok tt, some r', db') → r1 ≡ r'
        own h = cc

        own_db : as_settled (res, r1, db1) ≡ (ok tt, some r', db') → db1 ≡ db'
        own_db h = cc

pub release-HasClosed :
    (env : Env) (r r' : Reservation) (db db' : Db)
    → release env (some r) db ≡ (ok tt, some r', db')
    → HasClosed env r (pos 0) true db r' db'
unfolding release
release-HasClosed env r r' db db' h =
    go (finalize env r (pos 0) true db) (finalize-Closed env r (pos 0) true db) h
  where
    go :
        (out : Finalized)
        → Closed env r (pos 0) true db out
        → as_settled out ≡ (ok tt, some r', db')
        → HasClosed env r (pos 0) true db r' db'
    go (res, r1, db1) c h =
        rw (own h, own_db h) at (finalize-ok env r (pos 0) true db (res, r1, db1) c (cc h))
      where
        own : as_settled (res, r1, db1) ≡ (ok tt, some r', db') → r1 ≡ r'
        own h = cc

        own_db : as_settled (res, r1, db1) ≡ (ok tt, some r', db') → db1 ≡ db'
        own_db h = cc

-- On sound tables, a settle that succeeds has found the reservation reserved in the table, whatever
-- the caller's struct says of it; it marks it captured at the actual cost, and gives its user back
-- the amount less the actual cost, which is a charge if the cost is higher. No other balance changes.
pub settle_charges_actual :
    (env : Env) (r r' : Reservation) (actual : ℤ) (db db' : Db) (v : Str)
    → IsSound db
    → settle env (some r) actual db ≡ (ok tt, some r', db')
    → (row : Reservation) × (find_reservation r.id db.reservations ≡ some row)
      × (row.status ≡ Status.reserved)
      × (balance_of v db'.accounts ≡ (
          if str_eq row.user_id v
          then balance_of v db.accounts +ℤ (row.amount -ℤ actual)
          else balance_of v db.accounts))
      × ((row' : Reservation) × (find_reservation r.id db'.reservations ≡ some row')
          × (row'.status ≡ Status.captured)
          × (row'.captured_amount ≡ actual))
settle_charges_actual env r r' actual db db' v s h =
    let (row, found, o, _, (_, rows)) = settle-HasClosed env r r' actual db db' h in
    let caller = refreshed r row in
    let out = outcome_reserved caller actual false in
    (
      row,
      found,
      o,
      rw (← outcome-adjust caller actual) (
          finalize_rows-balance env row caller out actual db db' v
            (account_known r.id row db s found) rows),
      (
        finalized env out actual row,
        finalize_rows-row env caller row out actual db db' found o rows,
        outcome-status caller actual,
        refl,
      ),
    )

-- On sound tables, a release that succeeds has found the reservation reserved in the table; it marks
-- it released and gives its whole amount back to its user. No other balance changes.
pub release_returns_all :
    (env : Env) (r r' : Reservation) (db db' : Db) (v : Str)
    → IsSound db
    → release env (some r) db ≡ (ok tt, some r', db')
    → (row : Reservation) × (find_reservation r.id db.reservations ≡ some row)
      × (row.status ≡ Status.reserved)
      × (balance_of v db'.accounts ≡ (
          if str_eq row.user_id v
          then balance_of v db.accounts +ℤ row.amount
          else balance_of v db.accounts))
      × ((row' : Reservation) × (find_reservation r.id db'.reservations ≡ some row')
          × (row'.status ≡ Status.released)
          × (row'.released_amount ≡ row.amount))
release_returns_all env r r' db db' v s h =
    let (row, found, o, _, (_, rows)) = release-HasClosed env r r' db db' h in
    let caller = refreshed r row in
    let out = outcome_reserved caller (pos 0) true in
    (
      row,
      found,
      o,
      finalize_rows-balance env row caller out (pos 0) db db' v (account_known r.id row db s found)
          rows,
      (
        finalized env out (pos 0) row,
        finalize_rows-row env caller row out (pos 0) db db' found o rows,
        refl,
        refl,
      ),
    )

-- ===== src/Credits/Sound/Expire.antt =====
-- The expiry of reservations keeps the tables sound, also between other calls.
use ai_credits.Prelude.{
  Bool, Option, Option-cases, Str, arith, false, inl, inr, none, refl, some, subst, true, ◌==◌, ◌≡◌,
}
use ai_credits.Credits.Db.{Db, Env, Reservation, Status, commit_tx}
use ai_credits.Credits.Db.Laws.{commit_tx-Ends}
use ai_credits.Credits.Errors.{ok}
use ai_credits.Credits.Reconcile.{
  Stale, expire_one, expire_row, expire_rows, expire_unless, marked_expired,
}
use ai_credits.Credits.Reservation.Rows.{find_reservation, rows_reserved}
use ai_credits.Credits.Reservation.Rows.Laws.{rows_reserved_lem}
use ai_credits.Credits.Sound.{HasColumns, IsSound, attempt-IsSound}
use ai_credits.Credits.Sound.Close.{Closes, adjust_close, adjust_close-IsSound}
use ai_credits.Prelude.Int.{int_laws, pos}

-- The reservation that was read is there with the same user and amount, whatever its status is now.
abbrev pub IsRead : Stale → Option Reservation → Type 0
IsRead st none = ⊥
IsRead st (some row) = (st.user_id ≡ row.user_id) × (st.amount ≡ row.amount)

pub expire_rows-ok :
    (env : Env) (st : Stale) (db db' : Db) (u : Unit)
    → expire_rows env st db ≡ ok (u, db')
    → (lid : Str) × (db'
        ≡ adjust_close st.id st.user_id
            (marked_expired env)
            st.amount
            (expire_row env lid st)
            env.now
            db)
unfolding expire_rows
expire_rows-ok env st db db' u h = elim (Option-cases env.new_id) [
  | inl e ↦ absurd (ground arith)
  | inr (i, e) ↦ (i, ground arith)
]

open_columns :
    (row : Reservation)
    → row.status ≡ Status.reserved
    → HasColumns row.status row
    → (row.captured_amount ≡ pos 0) × (row.released_amount ≡ pos 0)
open_columns row e h = subst (λ st. HasColumns st row) e h

row_columns :
    (i : Str) (row : Reservation) (db : Db)
    → IsSound db
    → find_reservation i db.reservations ≡ some row
    → HasColumns row.status row
row_columns i row db s found = (rw found at (s.held i)).3

pub expired-Closes :
    (env : Env) (st : Stale) (row : Reservation) (db : Db)
    → IsSound db
    → find_reservation st.id db.reservations ≡ some row
    → row.status ≡ Status.reserved
    → st.amount ≡ row.amount
    → Closes st.id row (marked_expired env) st.amount db
expired-Closes env st row db s found is_open same = record {
  found = found;
  is_open = is_open;
  same_id = λ r. refl;
  same_user = refl;
  same_amount = refl;
  adds_up = rw same (omega int_laws);
  columns = open_columns row is_open (row_columns st.id row db s found);
}

expire_found-IsSound :
    (env : Env) (st : Stale) (row : Reservation) (db : Db)
    → IsSound db
    → find_reservation st.id db.reservations ≡ some row
    → row.status ≡ Status.reserved
    → (st.user_id ≡ row.user_id) × (st.amount ≡ row.amount)
    → IsSound (commit_tx env.commit db (expire_rows env st db)).1
expire_found-IsSound env st row db s found is_open (user, amount) =
    elim (commit_tx-Ends env.commit db (expire_rows env st db)) [
      | inl (e, p) ↦ rw p s
      | inr (u, db', q, p) ↦
          let (lid, e) = expire_rows-ok env st db db' u q in
          rw (p, e)
            (adjust_close-IsSound st.id row _ st.amount db s
              (expired-Closes env st row db s found is_open amount) (expire_row env lid st) env.now
              refl user refl)
    ]

-- The row that the update meets, if it meets one.
pub rows_reserved-find :
    (i : Str) (db : Db)
    → IsSound db
    → (rows_reserved i db.reservations == 0) ≡ false
    → (row : Reservation) × (find_reservation i db.reservations ≡ some row)
      × (row.status ≡ Status.reserved)
rows_reserved-find i db s h = elim (Option-cases (find_reservation i db.reservations)) [
  | inl e ↦ absurd (ground (arith, rows_reserved_lem i db.reservations s.ids))
  | inr (row, e) ↦ (row, e, ground (arith, rows_reserved_lem i db.reservations s.ids))
]

expire_unless-IsSound :
    (b : Bool) (env : Env) (st : Stale) (db : Db)
    → IsSound db
    → IsRead st (find_reservation st.id db.reservations)
    → (rows_reserved st.id db.reservations == 0) ≡ b
    → IsSound (expire_unless b env st db).1
expire_unless-IsSound true env st db s read met = s
expire_unless-IsSound false env st db s read met =
    let (row, found, is_open) = rows_reserved-find st.id db s met in
    expire_found-IsSound env st row db s found is_open (rw found at read)

-- One expiry leaves the tables sound, whatever has happened to the reservation since it was read.
pub expire_one-IsSound :
    (env : Env) (st : Stale) (db : Db)
    → IsSound db
    → IsRead st (find_reservation st.id db.reservations)
    → IsSound (expire_one env st db).1
unfolding expire_one
expire_one-IsSound env st db s read =
    attempt-IsSound env.begin _ db s
      (attempt-IsSound (env.stmt 0) _ db s (expire_unless-IsSound _ env st db s read refl))

-- ===== src/Credits/System/Expiry.antt =====
-- credits/reconcile.go: stale reservations are expired, each in its own transaction.
use ai_credits.Prelude.{
  Bool, Option, Str, ap, arith, false, if◌then◌else◌, inl, inr, none, refl, some, str_eq, sym, true,
  ◌==◌, ◌∙◌, ◌≡◌, ◌≢◌, ◌⊎◌,
}
use ai_credits.Credits.Accounts.{balance_of}
use ai_credits.Credits.Accounts.Laws.{balance_of-add_balance}
use ai_credits.Credits.Db.{Db, Env, Reservation, Status, attempt}
use ai_credits.Credits.Db.Laws.{commit_tx-Ends}
use ai_credits.Credits.Errors.{Result, ok}
use ai_credits.Credits.Reconcile.{
  Stale, expire_one, expire_row, expire_rows, expire_unless, marked_expired,
}
use ai_credits.Credits.Reservation.Rows.{find_reservation, is_reserved, rows_reserved}
use ai_credits.Credits.Reservation.Rows.Laws.{
  find_reservation-id, find_reservation-update_reserved, rows_reserved_lem,
}
use ai_credits.Credits.Sound.{IsSound}
use ai_credits.Credits.Sound.Close.{adjust_close, find_closed_self, held_row, is_reserved-open}
use ai_credits.Credits.Sound.Expire.{IsRead, expire_rows-ok, expired-Closes, rows_reserved-find}
use ai_credits.Prelude.Int.{◌+ℤ◌}

-- One expiry leaves the database as it was, or it has succeeded on a row that was still reserved.
abbrev Expires : Env → Stale → Db → Result (Unit {0}) × Db → Type 0
Expires env st db out =
    ((out.1 ≡ db) × (out.0 ≡ ok tt → rows_reserved st.id db.reservations ≡ 0))
    ⊎ ((row : Reservation) × (find_reservation st.id db.reservations ≡ some row)
        × (row.status ≡ Status.reserved)
        × ((lid : Str) × (out ≡ (
          ok tt,
          adjust_close st.id st.user_id (marked_expired env) st.amount (expire_row env lid st)
              env.now db,
        ))))

expire_one-Expires :
    (env : Env) (st : Stale) (db : Db) → IsSound db → Expires env st db (expire_one env st db)
unfolding expire_one
expire_one-Expires env st db s = go env.begin (env.stmt 0)
  where
    rows :
        (b : Bool)
        → (rows_reserved st.id db.reservations == 0) ≡ b
        → Expires env st db (expire_unless b env st db)
    rows true met = inl (refl, λ _. ground arith)
    rows false met =
        let (row, found, o) = rows_reserved-find st.id db s met in
        elim (commit_tx-Ends env.commit db (expire_rows env st db)) [
          | inl (e, p) ↦ rw p (inl (refl, λ q. absurd (cc q)))
          | inr (u, db', q, p) ↦
              let (lid, e) = expire_rows-ok env st db db' u q in
              rw (p, e) (inr (row, found, o, (lid, refl)))
        ]

    go :
        (b q : Option Str)
        → Expires env st db (
            attempt b
              (attempt q (λ db. expire_unless (rows_reserved st.id db.reservations == 0) env st db))
              db)
    go (some e) q = inl (refl, λ p. absurd (cc p))
    go none (some e) = inl (refl, λ p. absurd (cc p))
    go none none = rows _ refl

-- On sound tables, the expiry of a reservation that was read as reserved at some earlier time leaves
-- the database as it was, or the reservation is still reserved, and then it is marked expired and its
-- whole amount goes back to its user. No other balance changes.
pub expire_returns_all :
    (env : Env) (st : Stale) (db : Db) (v : Str)
    → IsSound db
    → IsRead st (find_reservation st.id db.reservations)
    → ((expire_one env st db).1 ≡ db)
      ⊎ ((row : Reservation) × (find_reservation st.id db.reservations ≡ some row)
          × (row.status ≡ Status.reserved)
          × (find_reservation st.id (expire_one env st db).1.reservations
              ≡ some (marked_expired env row))
          × (balance_of v (expire_one env st db).1.accounts ≡ (
              if str_eq row.user_id v
              then balance_of v db.accounts +ℤ row.amount
              else balance_of v db.accounts)))
expire_returns_all env st db v s read = elim (expire_one-Expires env st db s) [
  | inl (same, _) ↦ inl same
  | inr (row, found, o, (lid, e)) ↦
      let (user, amount) = (rw found at read) in
      let closes = expired-Closes env st row db s found o amount in
      let known = (held_row st.id row _ st.amount db s closes).0 in
      rw e (
        inr (
          row,
          found,
          o,
          find_closed_self st.id row _ st.amount db s closes,
          rw (user, amount)
              (balance_of-add_balance row.user_id v row.amount env.now db.accounts known),
        ))
]

-- A row that is reserved after an expiry was there before, the same.
pub reserved-before :
    (env : Env) (st : Stale) (db : Db) (i : Str) (row : Reservation)
    → IsSound db
    → find_reservation i (expire_one env st db).1.reservations ≡ some row
    → row.status ≡ Status.reserved
    → find_reservation i db.reservations ≡ some row
reserved-before env st db i row s found o = elim (expire_one-Expires env st db s) [
  | inl (same, _) ↦ rw same at found
  | inr (_, _, _, (lid, e)) ↦ unmarked (find_reservation i db.reservations) (
      sym
        (find_reservation-update_reserved st.id i (marked_expired env) (λ r. refl) db.reservations)
      ∙ (rw e at found))
]
  where
    unmarked :
        (x : Option Reservation)
        → elim x [
          | none ↦ none
          | some r ↦ if is_reserved st.id r then some (marked_expired env r) else some r
        ]
          ≡ some row
        → x ≡ some row
    unmarked none h = absurd (ground arith)
    unmarked (some r) h = ground arith

-- A row that an expiry of it found, with success, is no longer reserved.
pub expired-closed :
    (env : Env) (st : Stale) (db db' : Db) (row : Reservation)
    → IsSound db
    → expire_one env st db ≡ (ok tt, db')
    → find_reservation st.id db'.reservations ≡ some row
    → row.status ≢ Status.reserved
expired-closed env st db db' row s h found o = elim (expire_one-Expires env st db s) [
  | inl (same, none_left) ↦
      let unchanged = sym (ap (λ x. x.1) h) ∙ same in
      one_left (rw unchanged at found) (none_left (ap (λ x. x.0) h))
  | inr (row', found', o', (lid, e)) ↦
      let after = sym (ap (λ x. x.1) h) ∙ ap (λ x. x.1) e in
      marked row'
        (is_reserved-open st.id row' (find_reservation-id st.id row' db.reservations found') o')
        found'
        (sym (
            find_reservation-update_reserved st.id st.id (marked_expired env) (λ r. refl)
              db.reservations)
          ∙ (rw after at found))
]
  where
    one_left :
        find_reservation st.id db.reservations ≡ some row
        → rows_reserved st.id db.reservations ≡ 0
        → ⊥
    one_left f z =
        let r = is_reserved-open st.id row (find_reservation-id st.id row db.reservations f) o in
        absurd (ground (arith, rows_reserved_lem st.id db.reservations s.ids, r, f, z))

    marked :
        (row' : Reservation)
        → is_reserved st.id row' ≡ true
        → find_reservation st.id db.reservations ≡ some row'
        → elim (find_reservation st.id db.reservations) [
          | none ↦ none
          | some r ↦ if is_reserved st.id r then some (marked_expired env r) else some r
        ]
          ≡ some row
        → ⊥
    marked row' r f p = expired_open (rw (f, r) at p)
      where
        expired_open : some (marked_expired env row') ≡ some row → ⊥
        expired_open p =
            absurd (cc (ap (λ x. elim x [ none ↦ Status.reserved | some y ↦ y.status ]) p ∙ o))

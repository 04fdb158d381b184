-- ===== src/Credits/System/Final.antt =====
-- credits/reservation.go, credits/reconcile.go: a reservation is closed once.
use ai_credits.Prelude.{
  Bool-cases, List, Option, Str, ap, arith, false, inl, inr, none, refl, some, str_eq, str_eq→eq,
  subst, true, ◌==◌, ◌∷◌, ◌≡◌, ◌≢◌,
}
use ai_credits.Credits.Charge.{settle_charges_actual}
use ai_credits.Credits.Db.{Db, Env, Reservation, Status, attempt}
use ai_credits.Credits.Errors.{Error, err, ok}
use ai_credits.Credits.Reconcile.{Stale, expire_one, expire_unless}
use ai_credits.Credits.Reservation.Finalize.{release, settle}
use ai_credits.Credits.Reservation.Finalize.Laws.{finalize-Closed}
use ai_credits.Credits.Reservation.Rows.{
  find_reservation, is_reserved, rows_reserved, update_reserved,
}
use ai_credits.Credits.Reservation.Rows.Laws.{find_reservation-update_reserved, rows_reserved_lem}
use ai_credits.Credits.Sound.{IsSound}
use ai_credits.Credits.Sound.Effect.{
  Effect, adjusts, closes, expire_one-Effect, grant-Effect, holds, refund-Effect, release-Effect,
  reserve-Effect, returns, settle-Effect, unchanged,
}
use ai_credits.Credits.System.{
  Reach, State, Step, cancels, expires, grants, grants_monthly, here, next, reads, refunds,
  releases, reserves, settles, start, subscribes,
}
use ai_credits.Credits.System.Laws.{IsSafe, Reach-IsSafe, Step-IsSafe, start-IsSafe}
use ai_credits.Credits.System.Plans.{
  OnlySubscriptions, cancel_subscription-Only, ensure_monthly_grant-GrantsOnce,
  set_subscription-Only,
}
use ai_credits.Credits.Tests.{cfg, key, request}
use ai_credits.Prelude.Int.{pos, ℤ}

is_reserved-closed :
    (i : Str) (row : Reservation) → row.status ≢ Status.reserved → is_reserved i row ≡ false
is_reserved-closed i row h = ground arith

update-closed :
    (i j : Str) (f : Reservation → Reservation) (row : Reservation) (rows : List Reservation)
    → ((r : Reservation) → (f r).id ≡ r.id)
    → find_reservation i rows ≡ some row
    → row.status ≢ Status.reserved
    → find_reservation i (update_reserved j f rows) ≡ some row
update-closed i j f row rows same found closed =
    rw (find_reservation-update_reserved j i f same rows, found, is_reserved-closed j row closed)
      refl

pub insert-keep :
    (i : Str) (r row : Reservation) (rows : List Reservation)
    → find_reservation r.id rows ≡ none
    → find_reservation i rows ≡ some row
    → find_reservation i (r ∷ rows) ≡ some row
unfolding find_reservation
insert-keep i r row rows new found = elim (Bool-cases (str_eq r.id i)) [
  | inl e ↦ absurd (ground (arith, ap (λ j. find_reservation j rows) (str_eq→eq r.id i e)))
  | inr e ↦ rw e found
]

-- What a call leaves of a closed reservation: all of it.
abbrev KeepsClosed : Db → Db → Type 0
KeepsClosed db db' =
    (i : Str) (row : Reservation)
    → find_reservation i db.reservations ≡ some row
    → row.status ≢ Status.reserved
    → find_reservation i db'.reservations ≡ some row

Effect-KeepsClosed : (db db' : Db) → Effect db db' → KeepsClosed db db'
Effect-KeepsClosed db db' (unchanged e) i row found c = rw e found
Effect-KeepsClosed db db' (adjusts _ _ _ _ _ _ _ _ _ e) i row found c = rw e found
Effect-KeepsClosed db db' (holds _ _ _ _ _ can e) i row found c =
    rw e (insert-keep i _ row db.reservations can.new_id found)
Effect-KeepsClosed db db' (closes j f u e) i row found c =
    rw e (update-closed i j f row db.reservations u.same_id found c)
Effect-KeepsClosed db db' (returns j _ f _ _ _ u _ e) i row found c =
    rw e (update-closed i j f row db.reservations u.same_id found c)

Only-KeepsClosed : (db db' : Db) → OnlySubscriptions db db' → KeepsClosed db db'
Only-KeepsClosed db db' (l, e) i row found c = rw e found

Step-KeepsClosed : {s t : State} → Step s t → KeepsClosed s.db t.db
Step-KeepsClosed {s} (grants env user amount source reason key) =
    Effect-KeepsClosed s.db _ (grant-Effect env user amount source reason key s.db)
Step-KeepsClosed {s} (refunds env user amount source reason key) =
    Effect-KeepsClosed s.db _ (refund-Effect env user amount source reason key s.db)
Step-KeepsClosed {s} (reserves env user request amount) =
    Effect-KeepsClosed s.db _ (reserve-Effect env user request amount s.db)
Step-KeepsClosed {s} (settles env r actual) =
    Effect-KeepsClosed s.db _ (settle-Effect env r actual s.db)
Step-KeepsClosed {s} (releases env r) = Effect-KeepsClosed s.db _ (release-Effect env r s.db)
Step-KeepsClosed {s} (reads cutoff) = λ i row found c. found
Step-KeepsClosed {s} (expires env st m) = Effect-KeepsClosed s.db _ (expire_one-Effect env st s.db)
Step-KeepsClosed {s} (subscribes env user plan status) =
    Only-KeepsClosed s.db _ (set_subscription-Only env user plan status s.db)
Step-KeepsClosed {s} (cancels env user) =
    Only-KeepsClosed s.db _ (cancel_subscription-Only env user s.db)
Step-KeepsClosed {s} (grants_monthly cfg env period user plan) = λ i row found c.
    elim (ensure_monthly_grant-GrantsOnce cfg env period user plan s.db) [
      | inl e ↦ rw e found
      | inr e ↦ rw e (Effect-KeepsClosed s.db _ (grant-Effect env user _ _ _ _ s.db) i row found c)
    ]

-- A reservation that is settled, released or expired stays exactly as it is, whatever calls follow,
-- in whatever environments.
pub closed_is_final :
    (s t : State) (i : Str) (row : Reservation)
    → Reach s t
    → find_reservation i s.db.reservations ≡ some row
    → row.status ≢ Status.reserved
    → find_reservation i t.db.reservations ≡ some row
closed_is_final s t i row here found c = found
closed_is_final s t i row (next {t = u} r st) found c =
    Step-KeepsClosed st i row (closed_is_final s u i row r found c) c

settle-refused :
    (env : Env) (r row : Reservation) (actual : ℤ) (db : Db)
    → find_reservation r.id db.reservations ≡ some row
    → row.status ≢ Status.reserved
    → ((e : Error) × ((settle env (some r) actual db).0 ≡ err e))
      × ((settle env (some r) actual db).2 ≡ db)
unfolding settle
settle-refused env r row actual db found c = elim (finalize-Closed env r actual false db) [
  | inl (e, p, same) ↦ ((e, p), same)
  | inr (row', found', o, _, _, _) ↦ absurd (c (closed_eq row' found' o))
]
  where
    closed_eq :
        (row' : Reservation)
        → find_reservation r.id db.reservations ≡ some row'
        → row'.status ≡ Status.reserved
        → row.status ≡ Status.reserved
    closed_eq row' found' o = cc

release-refused :
    (env : Env) (r row : Reservation) (db : Db)
    → find_reservation r.id db.reservations ≡ some row
    → row.status ≢ Status.reserved
    → ((e : Error) × ((release env (some r) db).0 ≡ err e)) × ((release env (some r) db).2 ≡ db)
unfolding release
release-refused env r row db found c = elim (finalize-Closed env r (pos 0) true db) [
  | inl (e, p, same) ↦ ((e, p), same)
  | inr (row', found', o, _, _, _) ↦ absurd (c (closed_eq row' found' o))
]
  where
    closed_eq :
        (row' : Reservation)
        → find_reservation r.id db.reservations ≡ some row'
        → row'.status ≡ Status.reserved
        → row.status ≡ Status.reserved
    closed_eq row' found' o = cc

expire_one-skips :
    (env : Env) (st : Stale) (row : Reservation) (db : Db)
    → IsSound db
    → find_reservation st.id db.reservations ≡ some row
    → row.status ≢ Status.reserved
    → (expire_one env st db).1 ≡ db
unfolding expire_one
expire_one-skips env st row db s found c = go env.begin (env.stmt 0)
  where
    none_reserved : rows_reserved st.id db.reservations ≡ 0
    none_reserved =
        rw (rows_reserved_lem st.id db.reservations s.ids, found, is_reserved-closed st.id row c)
          refl

    go :
        (b q : Option Str)
        → (attempt b
            (attempt q (λ db. expire_unless (rows_reserved st.id db.reservations == 0) env st db))
            db).1
          ≡ db
    go (some e) q = refl
    go none (some e) = refl
    go none none = rw none_reserved refl

-- Once a settle has succeeded, in a state that was reached from the empty tables, every later settle
-- or release of that reservation fails and leaves the database as it was, and an expiry that has read
-- it before leaves the database as it was, whatever calls came between and in whatever environments.
pub settle_once :
    (s t : State) (env env' : Env) (r r' r2 : Reservation) (st : Stale) (actual actual' : ℤ)
    (db : Db)
    → Reach start s
    → settle env (some r) actual s.db ≡ (ok tt, some r', db)
    → Reach (record s { db = db }) t
    → r2.id ≡ r.id
    → st.id ≡ r.id
    → (((e : Error) × ((settle env' (some r2) actual' t.db).0 ≡ err e))
        × ((settle env' (some r2) actual' t.db).2 ≡ t.db))
      × (((e : Error) × ((release env' (some r2) t.db).0 ≡ err e))
          × ((release env' (some r2) t.db).2 ≡ t.db))
      × ((expire_one env' st t.db).1 ≡ t.db)
settle_once s t env env' r r' r2 st actual actual' db reach h later same same' = (
  settle-refused env' r2 closed.0 actual' t.db (rw same found) closed.2,
  release-refused env' r2 closed.0 t.db (rw same found) closed.2,
  expire_one-skips env' st closed.0 t.db sound_later (rw same' found) closed.2,
)
  where
    sound_first : IsSound s.db
    sound_first = (Reach-IsSafe start-IsSafe reach).sound

    settled_safe : IsSafe (record s { db = db })
    settled_safe =
        subst (λ d. IsSafe (record s { db = d })) (ap (λ x. x.2) h)
          (Step-IsSafe (settles env (some r) actual) (Reach-IsSafe start-IsSafe reach))

    sound_later : IsSound t.db
    sound_later = (Reach-IsSafe settled_safe later).sound

    closed :
        (row : Reservation) × (find_reservation r.id db.reservations ≡ some row)
        × (row.status ≢ Status.reserved)
    closed =
        let (_, _, _, _, (row', found', st', _)) =
          settle_charges_actual env r r' actual s.db db r.id sound_first h in
        (row', found', captured_open row' st')
      where
        captured_open :
            (row : Reservation) → row.status ≡ Status.captured → row.status ≢ Status.reserved
        captured_open row e p = cc

    found : find_reservation r.id t.db.reservations ≡ some closed.0
    found = closed_is_final (record s { db = db }) t r.id closed.0 later closed.1 closed.2

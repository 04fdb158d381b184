-- ===== src/Credits/System/Timeout.antt =====
-- credits/reconcile.go: a pass that ends without an error leaves no stale reservation.
use ai_credits.Prelude.{
  Bool, Bool-cases, List, Option, Str, [], ap, arith, false, inl, inr, none, refl, some, str_eq,
  subst, suc, sym, true, ℕ, ◌&&◌, ◌∙◌, ◌∷◌, ◌≡◌, ◌≢◌,
}
use ai_credits.Credits.Db.{Db, Env, Reservation, Status, attempt}
use ai_credits.Credits.Errors.{Result, err, ok}
use ai_credits.Credits.Reconcile.{Stale, expire_all, expire_one, expire_stale, go_on, select_stale}
use ai_credits.Credits.Reservation.Finalize.{is_status_reserved}
use ai_credits.Credits.Reservation.Rows.{find_reservation}
use ai_credits.Credits.Reservation.Rows.Laws.{find_reservation-id}
use ai_credits.Credits.Sound.{IsSound}
use ai_credits.Credits.Sound.Effect.{expire_one-Effect}
use ai_credits.Credits.Sound.Expire.{expire_one-IsSound}
use ai_credits.Credits.Sound.Keep.{Effect-KeepsRows, KeepsRows}
use ai_credits.Credits.System.{IsListed}
use ai_credits.Credits.System.Expiry.{expired-closed, reserved-before}
use ai_credits.Credits.System.Laws.{AllRead, AllRead-keep, select_stale-AllRead}
use ai_credits.Prelude.Int.{ltb_ℤ, ℤ, ◌-ℤ◌, ◌≤ℤ◌}

-- Does the query for stale reservations select this row?
abbrev is_stale : ℤ → Reservation → Bool
is_stale cutoff r = is_status_reserved r.status && ltb_ℤ r.created_at cutoff

-- A stale row is listed by the query, under its id.
stale-IsListed :
    (cutoff : ℤ) (i : Str) (row : Reservation) (rows : List Reservation)
    → find_reservation i rows ≡ some row
    → is_stale cutoff row ≡ true
    → (st : Stale) × IsListed st (select_stale cutoff rows) × (st.id ≡ i)
unfolding find_reservation select_stale
stale-IsListed cutoff i row [] h t = absurd (cc h)
stale-IsListed cutoff i row (r ∷ rest) h t = elim (Bool-cases (str_eq r.id i)) [
  | inl e ↦ rw (this_row e, t) (_, inl refl, find_reservation-id i row (r ∷ rest) h)
  | inr e ↦
      let (st, m, p) = stale-IsListed cutoff i row rest (rw e at h) t in
      elim (Bool-cases (is_stale cutoff r)) [
        | inl q ↦ rw q (st, inr m, p)
        | inr q ↦ rw q (st, m, p)
      ]
]
  where
    this_row : str_eq r.id i ≡ true → r ≡ row
    this_row e = some_inj (rw e at h)
      where
        some_inj : some r ≡ some row → r ≡ row
        some_inj p = cc

-- The rows that are reserved after are rows of before, and none of those listed.
abbrev LeavesOpen : List Stale → Db → Db → Type 0
LeavesOpen sts db db' =
    IsSound db'
    × ((i : Str) (row : Reservation)
        → find_reservation i db'.reservations ≡ some row
        → row.status ≡ Status.reserved
        → (find_reservation i db.reservations ≡ some row)
          × ((st : Stale) → IsListed st sts → st.id ≢ i))

-- The environment of a round of the loop.
abbrev round : (ℕ → Env) → ℤ → Env
round each now = record (each 0) { now = now }

-- What a loop of expiries that ends well has done: a row that is still reserved was there before, and
-- is none of those listed.
expire_all-closes :
    (each : ℕ → Env) (now : ℤ) (sts : List Stale) (db db' : Db)
    → IsSound db
    → AllRead sts db.reservations
    → expire_all each now sts db ≡ (ok tt, db')
    → LeavesOpen sts db db'
unfolding expire_all
expire_all-closes each now [] db db' s read h =
    (rw same s, λ i row found o. (rw same at found, λ st m. absurd m))
  where
    same : db' ≡ db
    same = sym (ap (λ x. x.1) h)
expire_all-closes each now (st ∷ rest) db db' s read h =
    go (expire_all-closes (λ n. each (suc n)) now rest) (expire_one (round each now) st db) refl h
  where
    go :
        ((db db' : Db)
          → IsSound db
          → AllRead rest db.reservations
          → expire_all (λ n. each (suc n)) now rest db ≡ (ok tt, db')
          → LeavesOpen rest db db')
        → (r : Result (Unit {0}) × Db) → expire_one (round each now) st db ≡ r
        → go_on (expire_all (λ n. each (suc n)) now rest) r ≡ (ok tt, db')
        → LeavesOpen (st ∷ rest) db db'
    go ih (err e, db1) p q = absurd (cc (ap (λ x. x.0) q))
    go ih (ok u, db1) p q =
        let s1 : IsSound db1 =
          subst (λ x. IsSound x.1) p (expire_one-IsSound (round each now) st db s read.0) in
        let kept : KeepsRows db.reservations db1.reservations =
          subst (λ x. KeepsRows db.reservations x.1.reservations) p
            (Effect-KeepsRows db _ (expire_one-Effect (round each now) st db)) in
        let (s2, before) =
          ih db1 db' s1 (AllRead-keep rest db.reservations db1.reservations kept read.1) q in
        (
          s2,
          λ i row found o.
              let (found1, others) = before i row found o in
              (
                reserved-before (round each now) st db i row s (rw (ap (λ x. x.1) p) found1) o,
                not_listed i row o found1 others,
              ),
        )
      where
        not_listed :
            (i : Str) (row : Reservation)
            → row.status ≡ Status.reserved
            → find_reservation i db1.reservations ≡ some row
            → ((x : Stale) → IsListed x rest → x.id ≢ i)
            → (x : Stale) → IsListed x (st ∷ rest)
            → x.id ≢ i
        not_listed i row o found others x (inr m) = λ same. others x m same
        not_listed i row o found others x (inl e) = λ same.
            expired-closed (round each now) st db db1 row s p
              (subst (λ j. find_reservation j db1.reservations ≡ some row)
                (sym (ap (λ y. y.id) e ∙ same)) found)
              o

reserved-stale :
    (cutoff : ℤ) (row : Reservation)
    → row.status ≡ Status.reserved
    → ltb_ℤ row.created_at cutoff ≡ true
    → is_stale cutoff row ≡ true
reserved-stale cutoff row o h = ground arith

not_before : (a b : ℤ) → ltb_ℤ a b ≡ false → b ≤ℤ a
not_before a b h = ground arith

-- On sound tables, after a pass of `expireStale` that ends without an error every reservation that is
-- still reserved was created at or after the cutoff, which is the time of the pass less the timeout,
-- whatever the environments of its transactions are.
pub expire_stale_leaves_none :
    (timeout : ℤ) (env : Env) (each : ℕ → Env) (now : ℤ) (db db' : Db) (i : Str) (row : Reservation)
    → IsSound db
    → expire_stale timeout env each now db ≡ (ok tt, db')
    → find_reservation i db'.reservations ≡ some row
    → row.status ≡ Status.reserved
    → (env.now -ℤ timeout) ≤ℤ row.created_at
unfolding expire_stale
expire_stale_leaves_none timeout env each now db db' i row s h found o =
    go (env.stmt 0) (env.stmt 1) h
  where
    cutoff : ℤ
    cutoff = env.now -ℤ timeout

    passed :
        expire_all each now (select_stale cutoff db.reservations) db ≡ (ok tt, db')
        → cutoff ≤ℤ row.created_at
    passed q =
        let (_, before) =
          expire_all-closes each now (select_stale cutoff db.reservations) db db' s
            (select_stale-AllRead cutoff db.reservations s.ids) q in
        let (found0, others) = before i row found o in
        elim (Bool-cases (ltb_ℤ row.created_at cutoff)) [
          | inr e ↦ not_before row.created_at cutoff e
          | inl e ↦
              let (st, m, same) =
                stale-IsListed cutoff i row db.reservations found0
                  (reserved-stale cutoff row o e) in
              absurd (others st m same)
        ]

    go :
        (a b : Option Str)
        → attempt a
            (attempt b (λ db. expire_all each now (select_stale cutoff db.reservations) db))
            db
          ≡ (ok tt, db')
        → cutoff ≤ℤ row.created_at
    go (some e) b q = absurd (cc (ap (λ x. x.0) q))
    go none (some e) q = absurd (cc (ap (λ x. x.0) q))
    go none none q = passed q

-- ===== src/Credits/Sound/Effect.antt =====
-- The five things that a call can do to the ledger tables. Every call of credits/ does one of them,
-- whatever errors it meets.
use ai_credits.Prelude.{Bool, Bool-cases, Option, Str, false, inl, inr, none, refl, some, true, ◌≡◌}
use ai_credits.Credits.Accounts.{key_used}
use ai_credits.Credits.Db.{Db, Env, Kind, Reservation, Transaction, Tx, attempt, checked, in_tx}
use ai_credits.Credits.Db.Laws.{commit_tx-Ends, in_tx-Ends}
use ai_credits.Credits.Errors.{Result, err, ok}
use ai_credits.Credits.Ledger.{adjust, adjust_checks, grant, refund}
use ai_credits.Credits.Ledger.Laws.{adjust_rows-ok, adjusted}
use ai_credits.Credits.Reconcile.{Stale, expire_one, expire_rows, expire_unless, marked_expired}
use ai_credits.Credits.Reservation.{reserve, reserve_checks}
use ai_credits.Credits.Reservation.Finalize.{
  Outcome, finalize, finalized, outcome_reserved, refreshed, release, return_row, settle,
}
use ai_credits.Credits.Reservation.Finalize.Laws.{finalize-Closed, finalize_rows-ok}
use ai_credits.Credits.Reservation.Laws.{CanReserve, reserve_rows-ok, reserved_db}
use ai_credits.Credits.Reservation.Rows.{update_reserved}
use ai_credits.Credits.Sound.Close.{adjust_close}
use ai_credits.Credits.Sound.Expire.{expire_rows-ok}
use ai_credits.Prelude.Int.{leb_ℤ, neg, pos, ℤ}

-- An update of one reserved row that leaves its id, user and amount.
pub record IsRowUpdate (f : Reservation → Reservation) : Type 0 where
  pub same_id : (r : Reservation) → (f r).id ≡ r.id
  pub same_user : (r : Reservation) → (f r).user_id ≡ r.user_id
  pub same_amount : (r : Reservation) → (f r).amount ≡ r.amount

pub data Effect (db db' : Db) : Type 0 where
  unchanged : db' ≡ db → Effect db db'
  adjusts :
      (env : Env) (id user : Str) (amount : ℤ) (source reason key : Str) (kind : Kind)
      → key_used key db.transactions ≡ false
      → db' ≡ adjusted env id user amount source reason key kind db
      → Effect db db'
  holds :
      (env : Env) (rid user request : Str) (amount : ℤ)
      → CanReserve rid user request amount db
      → db' ≡ reserved_db env rid user request amount db
      → Effect db db'
  closes :
      (i : Str) (f : Reservation → Reservation)
      → IsRowUpdate f
      → db' ≡ record db { reservations = update_reserved i f db.reservations }
      → Effect db db'
  returns :
      (i user : Str) (f : Reservation → Reservation) (x : ℤ) (t : Transaction) (now : ℤ)
      → IsRowUpdate f
      → t.idempotency_key ≡ none
      → db' ≡ adjust_close i user f x t now db
      → Effect db db'

in_tx-Effect :
    {A : Type 0} (env : Env) (body : Tx A) (db : Db)
    → ((a : A) (db' : Db) → body db ≡ ok (a, db') → Effect db db')
    → Effect db (in_tx env body db).1
in_tx-Effect env body db h = elim (in_tx-Ends env body db) [
  | inl (e, p) ↦ unchanged (rw p)
  | inr (a, db', q, p) ↦ rw p (h a db' q)
]

checked-Effect :
    {A : Type 0} (r : Result (Unit {0})) (rest : Db → Result A × Db) (db : Db)
    → Effect db (rest db).1
    → Effect db (checked r rest db).1
checked-Effect (ok u) rest db h = h
checked-Effect (err e) rest db h = unchanged refl

adjust-Effect :
    (env : Env) (user : Str) (amount : ℤ) (source reason key : Str) (kind : Kind) (db : Db)
    → Effect db (adjust env user amount source reason key kind db).1
unfolding adjust
adjust-Effect env user amount source reason key kind db =
    checked-Effect (adjust_checks user source reason key) _ db (
      in_tx-Effect env _ db λ a db' h.
        let (id, _, _, new, e) = adjust_rows-ok env user amount source reason key kind db db' h in
        adjusts env id user amount source reason key kind new e)

pub grant-Effect :
    (env : Env) (user : Str) (amount : ℤ) (source reason key : Str) (db : Db)
    → Effect db (grant env user amount source reason key db).1
unfolding grant
grant-Effect env user amount source reason key db = elim (Bool-cases (leb_ℤ amount (pos 0))) [
  | inl p ↦ rw p (unchanged refl)
  | inr p ↦ rw p (adjust-Effect env user amount source reason key Kind.grant db)
]

pub refund-Effect :
    (env : Env) (user : Str) (amount : ℤ) (source reason key : Str) (db : Db)
    → Effect db (refund env user amount source reason key db).1
unfolding refund
refund-Effect env user amount source reason key db = elim (Bool-cases (leb_ℤ amount (pos 0))) [
  | inl p ↦ rw p (unchanged refl)
  | inr p ↦ rw p (adjust-Effect env user (neg amount) source reason key Kind.refund db)
]

pub reserve-Effect :
    (env : Env) (user request : Str) (amount : ℤ) (db : Db)
    → Effect db (reserve env user request amount db).1
unfolding reserve
reserve-Effect env user request amount db =
    checked-Effect (reserve_checks user request amount) _ db (
      in_tx-Effect env _ db λ a db' h. elim (reserve_rows-ok env user request amount db db' a h) [
        | inl (_, _, e) ↦ unchanged e
        | inr (rid, _, can, _, e) ↦ holds env rid user request amount can e
      ])

finalized-IsRowUpdate :
    (env : Env) (out : Outcome) (spent : ℤ) → IsRowUpdate (finalized env out spent)
finalized-IsRowUpdate env out spent = record {
  same_id = λ r. refl;
  same_user = λ r. refl;
  same_amount = λ r. refl;
}

pub finalize-Effect :
    (env : Env) (r : Reservation) (spent : ℤ) (release_all : Bool) (db : Db)
    → Effect db (finalize env r spent release_all db).2
finalize-Effect env r spent release_all db = elim (finalize-Closed env r spent release_all db) [
  | inl (e, _, same) ↦ unchanged same
  | inr (row, _, _, _, _, (_, rows)) ↦
      let out = outcome_reserved (refreshed r row) spent release_all in
      let update = finalized-IsRowUpdate env out spent in
      elim (finalize_rows-ok env (refreshed r row) out spent db _ tt rows).1 [
        | inl (_, e) ↦ closes r.id (finalized env out spent) update e
        | inr (lid, e) ↦
            returns r.id row.user_id (finalized env out spent) out.adjustment
              (return_row env lid (refreshed r row) out) env.now update refl e
      ]
]

pub settle-Effect :
    (env : Env) (r : Option Reservation) (actual : ℤ) (db : Db)
    → Effect db (settle env r actual db).2
unfolding settle
settle-Effect env none actual db = unchanged refl
settle-Effect env (some r) actual db = finalize-Effect env r actual false db

pub release-Effect : (env : Env) (r : Option Reservation) (db : Db) → Effect db (release env r db).2
unfolding release
release-Effect env none db = unchanged refl
release-Effect env (some r) db = finalize-Effect env r (pos 0) true db

attempt-Effect :
    {A : Type 0} (o : Option Str) (rest : Db → Result A × Db) (db : Db)
    → Effect db (rest db).1
    → Effect db (attempt o rest db).1
attempt-Effect none rest db h = h
attempt-Effect (some e) rest db h = unchanged refl

expire_unless-Effect :
    (b : Bool) (env : Env) (st : Stale) (db : Db) → Effect db (expire_unless b env st db).1
expire_unless-Effect true env st db = unchanged refl
expire_unless-Effect false env st db = elim (commit_tx-Ends env.commit db (expire_rows env st db)) [
  | inl (e, p) ↦ unchanged (rw p)
  | inr (u, db', q, p) ↦ rw p (
      returns st.id st.user_id (marked_expired env) st.amount _ env.now
        (record { same_id = λ r. refl; same_user = λ r. refl; same_amount = λ r. refl }) refl
        (expire_rows-ok env st db db' u q).1)
]

pub expire_one-Effect : (env : Env) (st : Stale) (db : Db) → Effect db (expire_one env st db).1
unfolding expire_one
expire_one-Effect env st db =
    attempt-Effect env.begin _ db
      (attempt-Effect (env.stmt 0) _ db (expire_unless-Effect _ env st db))

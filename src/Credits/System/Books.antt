-- ===== src/Credits/System/Books.antt =====
-- What holds of the tables of credits/schema.sql whatever calls were made, in whatever order and
-- with whatever errors of the driver.
use ai_credits.Prelude.{
  List, Str, [], ap, append_assoc, arith, inl, inr, refl, some, str_eq_refl, sym, true, ◌++◌, ◌∙◌,
  ◌∷◌, ◌≡◌,
}
use ai_credits.Credits.Accounts.{balance_of, key_used, ledger_total}
use ai_credits.Credits.Db.{Db, Env, Kind, Reservation, Transaction}
use ai_credits.Credits.Errors.{Error, err, ok}
use ai_credits.Credits.Ledger.{grant, refund}
use ai_credits.Credits.Ledger.Laws.{adjusted}
use ai_credits.Credits.Ledger.Outcome.{grant_outcome, refund_outcome}
use ai_credits.Credits.Reconcile.{Mismatch, all_users, detect_drift}
use ai_credits.Credits.Reconcile.Laws.{mismatches-balanced}
use ai_credits.Credits.Reservation.Rows.{find_reservation}
use ai_credits.Credits.Sound.{HasColumns, outstanding, reference_sum}
use ai_credits.Credits.Sound.Effect.{
  expire_one-Effect, grant-Effect, refund-Effect, release-Effect, reserve-Effect, settle-Effect,
}
use ai_credits.Credits.Sound.Keep.{Appends, Effect-Appends}
use ai_credits.Credits.System.{
  Reach, State, Step, cancels, expires, grants, grants_monthly, here, next, reads, refunds,
  releases, reserves, settles, start, subscribes,
}
use ai_credits.Credits.System.Laws.{Reach-IsSafe, start-IsSafe}
use ai_credits.Credits.System.Plans.{
  OnlySubscriptions, cancel_subscription-Only, ensure_monthly_grant-GrantsOnce,
  set_subscription-Only,
}
use ai_credits.Credits.Tests.{cfg, key, request}
use ai_credits.Prelude.Int.{neg, ℤ}

set_subscription-Appends : (db db' : Db) → OnlySubscriptions db db' → Appends db db'
set_subscription-Appends db db' (l, e) = ([], ap (λ d. d.transactions) e)

Step-Appends : {s t : State} → Step s t → Appends s.db t.db
Step-Appends {s} (grants env user amount source reason key) =
    Effect-Appends s.db _ (grant-Effect env user amount source reason key s.db)
Step-Appends {s} (refunds env user amount source reason key) =
    Effect-Appends s.db _ (refund-Effect env user amount source reason key s.db)
Step-Appends {s} (reserves env user request amount) =
    Effect-Appends s.db _ (reserve-Effect env user request amount s.db)
Step-Appends {s} (settles env r actual) = Effect-Appends s.db _ (settle-Effect env r actual s.db)
Step-Appends {s} (releases env r) = Effect-Appends s.db _ (release-Effect env r s.db)
Step-Appends {s} (reads cutoff) = ([], refl)
Step-Appends {s} (expires env st m) = Effect-Appends s.db _ (expire_one-Effect env st s.db)
Step-Appends {s} (subscribes env user plan status) =
    set_subscription-Appends s.db _ (set_subscription-Only env user plan status s.db)
Step-Appends {s} (cancels env user) =
    set_subscription-Appends s.db _ (cancel_subscription-Only env user s.db)
Step-Appends {s} (grants_monthly cfg env period user plan) =
    elim (ensure_monthly_grant-GrantsOnce cfg env period user plan s.db) [
      | inl e ↦ ([], ap (λ d. d.transactions) e)
      | inr e ↦ rw e (Effect-Appends s.db _ (grant-Effect env user _ _ _ _ s.db))
    ]

-- The ledger is append-only: after any sequence of calls, in whatever environments, the rows of
-- before are still there, unchanged and in their order, behind the rows that were added.
pub ledger_append_only : (s t : State) → Reach s t → Appends s.db t.db
ledger_append_only s t here = ([], refl)
ledger_append_only s t (next {t = u} r st) =
    let (old, e) = ledger_append_only s u r in
    let (new, e') = Step-Appends st in
    (new ++ old, e' ∙ ap (λ l. new ++ l) e ∙ sym (append_assoc new old s.db.transactions))

-- Whatever calls were made since the tables were created, and whatever errors they met, the balance
-- of every user is the sum of the user's ledger rows.
pub balance_is_ledger_sum :
    (s : State) (user : Str)
    → Reach start s
    → balance_of user s.db.accounts ≡ ledger_total user s.db.transactions
balance_is_ledger_sum s user r = (Reach-IsSafe start-IsSafe r).sound.balanced user

-- Whatever calls were made since the tables were created, the ledger rows that refer to a
-- reservation add up to minus what it holds or has cost: its amount while it is reserved, the actual
-- cost once it is settled, nothing once it is released or expired; and its columns fit its status.
pub reservation_is_accounted :
    (s : State) (i : Str) (r : Reservation)
    → Reach start s
    → find_reservation i s.db.reservations ≡ some r
    → (reference_sum i s.db.transactions ≡ neg (outstanding r)) × HasColumns r.status r
reservation_is_accounted s i r reach found =
    let held = (Reach-IsSafe start-IsSafe reach).sound.held i in
    let h = (rw found at held) in (h.1, h.3)

-- Whatever calls were made since the tables were created, the drift report of `Reconcile` is empty
-- whenever its query succeeds.
pub no_drift :
    (s : State) (env : Env) (report : List Mismatch)
    → Reach start s
    → detect_drift env s.db ≡ ok report
    → report ≡ []
unfolding detect_drift
no_drift s env report reach h = ground (
  arith,
  mismatches-balanced s.db (all_users s.db.accounts s.db.transactions)
      (Reach-IsSafe start-IsSafe reach).sound.balanced,
)

pub key_used-append :
    (k : Str) (new old : List Transaction) → key_used k old ≡ true → key_used k (new ++ old) ≡ true
unfolding key_used
key_used-append k [] old h = h
key_used-append k (t ∷ new) old h = ground (arith, key_used-append k new old h)

pub key_used-adjusted :
    (env : Env) (id user : Str) (amount : ℤ) (source reason key : Str) (kind : Kind) (db : Db)
    → key_used key (adjusted env id user amount source reason key kind db).transactions ≡ true
unfolding key_used
key_used-adjusted env id user amount source reason key kind db = rw (str_eq_refl key) refl

-- Once a grant has succeeded, every later grant or refund under its key fails and leaves the database
-- as it was, whatever calls came between, and whatever the user, the amount and the environment are.
pub grant_once :
    (s t : State) (env env' : Env) (user user' : Str) (amount amount' : ℤ)
    (source source' reason reason' key : Str) (db : Db)
    → grant env user amount source reason key s.db ≡ (ok tt, db)
    → Reach (record s { db = db }) t
    → ((e : Error) × (grant env' user' amount' source' reason' key t.db ≡ (err e, t.db)))
      × ((e : Error) × (refund env' user' amount' source' reason' key t.db ≡ (err e, t.db)))
grant_once s t env env' user user' amount amount' source source' reason reason' key db g reach = (
  elim (grant_outcome env' user' amount' source' reason' key t.db) [
    | inl p ↦ p
    | inr (_, (_, _, new, _)) ↦ absurd (cc (used, new))
  ],
  elim (refund_outcome env' user' amount' source' reason' key t.db) [
    | inl p ↦ p
    | inr (_, (_, _, new, _)) ↦ absurd (cc (used, new))
  ],
)
  where
    same_db :
        (id : Str)
        → grant env user amount source reason key s.db
          ≡ (ok tt, adjusted env id user amount source reason key Kind.grant s.db)
        → db ≡ adjusted env id user amount source reason key Kind.grant s.db
    same_db id p = cc

    used_first : key_used key db.transactions ≡ true
    used_first = elim (grant_outcome env user amount source reason key s.db) [
      | inl (e, p) ↦ absurd (ground arith)
      | inr (_, (id, _, _, p)) ↦
          rw (same_db id p) (key_used-adjusted env id user amount source reason key Kind.grant s.db)
    ]

    used : key_used key t.db.transactions ≡ true
    used =
        let (new, e) = ledger_append_only (record s { db = db }) t reach in
        rw e (key_used-append key new db.transactions used_first)

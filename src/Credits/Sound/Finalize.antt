-- ===== src/Credits/Sound/Finalize.antt =====
-- Settling and releasing keep the tables sound.
use ai_credits.Prelude.{
  Bool, Bool-cases, Option, arith, false, inl, inr, none, not, refl, some, true, ◌&&◌, ◌≡◌,
}
use ai_credits.Credits.Db.{Db, Env, Reservation, Status}
use ai_credits.Credits.Errors.{ok}
use ai_credits.Credits.Reservation.Finalize.{
  Outcome, finalize, finalize_rows, finalized, outcome_reserved, refreshed, release, return_row,
  settle,
}
use ai_credits.Credits.Reservation.Finalize.Laws.{finalize-Closed, finalize_rows-ok}
use ai_credits.Credits.Reservation.Rows.{find_reservation}
use ai_credits.Credits.Sound.{HasColumns, IsSound, outstanding}
use ai_credits.Credits.Sound.Close.{Closes, adjust_close-IsSound, update-IsSound}
use ai_credits.Prelude.Int.{
  int_laws, ltb_ℤ, ltb_ℤ→ge, ltb_ℤ→lt, neg, pos, ℤ, ◌+ℤ◌, ◌-ℤ◌, ◌<ℤ◌, ◌≤ℤ◌,
}

-- What makes an outcome fit for a reservation: after its adjustment the ledger shows the new
-- outstanding amount, and the columns go with the new status.
abbrev pub Fits : Env → Outcome → ℤ → Reservation → Type 0
Fits env out spent row =
    let row' = finalized env out spent row in
    (out.adjustment +ℤ neg row.amount ≡ neg (outstanding row')) × HasColumns out.status row'

over :
    (a b spent : ℤ)
    → pos 0 ≤ℤ spent
    → a <ℤ spent
    → a ≡ b
    → (neg (spent -ℤ a) +ℤ neg b ≡ neg spent)
      × ((pos 0 ≤ℤ spent) × (pos 0 ≤ℤ pos 0) × (b ≤ℤ spent +ℤ pos 0))
over a b spent p h e = rw (← e) (omega int_laws, (p, omega arith, omega int_laws))

under :
    (a b spent : ℤ)
    → pos 0 ≤ℤ spent
    → spent ≤ℤ a
    → a ≡ b
    → (a -ℤ spent +ℤ neg b ≡ neg spent)
      × ((pos 0 ≤ℤ spent) × (pos 0 ≤ℤ a -ℤ spent) × (b ≤ℤ spent +ℤ (a -ℤ spent)))
under a b spent p h e = rw (← e) (omega int_laws, (p, omega int_laws, omega int_laws))

-- A settlement at a cost of zero or more, and a release, have fitting outcomes.
pub outcome_reserved-Fits :
    (env : Env) (row r : Reservation) (spent : ℤ) (release_all : Bool)
    → pos 0 ≤ℤ spent
    → (release_all ≡ true → spent ≡ pos 0)
    → r.amount ≡ row.amount
    → Fits env (outcome_reserved r spent release_all) spent row
outcome_reserved-Fits env row r spent true p z e = rw (e, z refl) (omega int_laws, (refl, refl))
outcome_reserved-Fits env row r spent false p z e = elim (Bool-cases (ltb_ℤ r.amount spent)) [
  | inl h ↦ rw h (over r.amount row.amount spent p (ltb_ℤ→lt r.amount spent h) e)
  | inr h ↦ rw h (under r.amount row.amount spent p (ltb_ℤ→ge r.amount spent h) e)
]

module _ (env : Env) (r row : Reservation) (spent : ℤ) (release_all : Bool) (db : Db)
    (s : IsSound db) (nonneg : pos 0 ≤ℤ spent) (none_spent : release_all ≡ true → spent ≡ pos 0)
    (found : find_reservation r.id db.reservations ≡ some row)
    (is_open : row.status ≡ Status.reserved) where
  abbrev caller : Reservation
  caller = refreshed r row

  abbrev out : Outcome
  out = outcome_reserved caller spent release_all

  outcome-Closes : Closes r.id row (finalized env out spent) out.adjustment db
  outcome-Closes =
      let fits = outcome_reserved-Fits env row caller spent release_all nonneg none_spent refl in
      record {
        found = found;
        is_open = is_open;
        same_id = λ x. refl;
        same_user = refl;
        same_amount = refl;
        adds_up = fits.0;
        columns = fits.1;
      }

  finalize_rows-IsSound :
      (db' : Db) (u : Unit) → finalize_rows env caller out spent db ≡ ok (u, db') → IsSound db'
  finalize_rows-IsSound db' u h = elim (finalize_rows-ok env caller out spent db db' u h).1 [
    | inl (z, e) ↦ rw e (update-IsSound r.id row _ out.adjustment db s outcome-Closes z)
    | inr (lid, e) ↦ rw e (
        adjust_close-IsSound r.id row _ out.adjustment db s outcome-Closes
          (return_row env lid caller out) env.now refl refl refl)
  ]

spent-nonneg :
    (release_all : Bool) (spent : ℤ)
    → (not release_all && ltb_ℤ spent (pos 0)) ≡ false
    → (release_all ≡ true → spent ≡ pos 0)
    → pos 0 ≤ℤ spent
spent-nonneg true spent h z = rw (z refl) (omega arith)
spent-nonneg false spent h z = ltb_ℤ→ge spent (pos 0) h

-- A finalization leaves the tables sound, on every path, if a release captures nothing.
pub finalize-IsSound :
    (env : Env) (r : Reservation) (spent : ℤ) (release_all : Bool) (db : Db)
    → IsSound db
    → (release_all ≡ true → spent ≡ pos 0)
    → IsSound (finalize env r spent release_all db).2
finalize-IsSound env r spent release_all db s z =
    elim (finalize-Closed env r spent release_all db) [
      | inl (e, _, same) ↦ rw same s
      | inr (row, found, is_open, fine, _, (_, rows)) ↦
          finalize_rows-IsSound env r row spent release_all db s
            (spent-nonneg release_all spent fine z) z found is_open _ tt rows
    ]

-- Settle and Release leave the tables sound, on every path.
pub settle-IsSound :
    (env : Env) (r : Option Reservation) (actual : ℤ) (db : Db)
    → IsSound db
    → IsSound (settle env r actual db).2
unfolding settle
settle-IsSound env none actual db s = s
settle-IsSound env (some r) actual db s = finalize-IsSound env r actual false db s (λ h. cc)

pub release-IsSound :
    (env : Env) (r : Option Reservation) (db : Db) → IsSound db → IsSound (release env r db).2
unfolding release
release-IsSound env none db s = s
release-IsSound env (some r) db s = finalize-IsSound env r (pos 0) true db s (λ h. refl)

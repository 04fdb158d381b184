-- ===== src/Credits/Sound/Keep.antt =====
-- No call forgets a reservation or changes its user or its amount.
use ai_credits.Prelude.{
  Bool-cases, List, Option, Option-cases, Str, [], ap, arith, inl, inr, none, refl, some, str_eq,
  str_eq→eq, ◌++◌, ◌∷◌, ◌≡◌,
}
use ai_credits.Credits.Db.{Db, Reservation, Transaction}
use ai_credits.Credits.Reconcile.{Stale}
use ai_credits.Credits.Reservation.Rows.{find_reservation, is_reserved, update_reserved}
use ai_credits.Credits.Reservation.Rows.Laws.{find_reservation-update_reserved}
use ai_credits.Credits.Sound.Effect.{Effect, adjusts, closes, holds, returns, unchanged}
use ai_credits.Credits.Sound.Expire.{IsRead}

-- The row found before, as it is found after.
abbrev pub KeepsRow : Reservation → Option Reservation → Type 0
KeepsRow row none = ⊥
KeepsRow row (some row') = (row'.user_id ≡ row.user_id) × (row'.amount ≡ row.amount)

abbrev pub KeepsRows : List Reservation → List Reservation → Type 0
KeepsRows rows rows' =
    (i : Str) (row : Reservation)
    → find_reservation i rows ≡ some row
    → KeepsRow row (find_reservation i rows')

pub KeepsRows-refl : (rows : List Reservation) → KeepsRows rows rows
KeepsRows-refl rows i row h = rw h (refl, refl)

pub insert-KeepsRows :
    (r : Reservation) (rows : List Reservation)
    → find_reservation r.id rows ≡ none
    → KeepsRows rows (r ∷ rows)
unfolding find_reservation
insert-KeepsRows r rows new i row h = elim (Bool-cases (str_eq r.id i)) [
  | inl e ↦ absurd (ground (arith, ap (λ j. find_reservation j rows) (str_eq→eq r.id i e)))
  | inr e ↦ rw e (KeepsRows-refl rows i row h)
]

update-KeepsRows :
    (i : Str) (f : Reservation → Reservation) (rows : List Reservation)
    → ((r : Reservation) → (f r).id ≡ r.id)
    → ((r : Reservation) → ((f r).user_id ≡ r.user_id) × ((f r).amount ≡ r.amount))
    → KeepsRows rows (update_reserved i f rows)
update-KeepsRows i f rows same_id same j row h =
    rw (find_reservation-update_reserved i j f same_id rows, h)
      (elim (Bool-cases (is_reserved i row)) [
        | inl e ↦ rw e (same row)
        | inr e ↦ rw e (refl, refl)
      ])

pub IsRead-keep :
    (st : Stale) (rows rows' : List Reservation)
    → KeepsRows rows rows'
    → IsRead st (find_reservation st.id rows)
    → IsRead st (find_reservation st.id rows')
IsRead-keep st rows rows' k h = elim (Option-cases (find_reservation st.id rows)) [
  | inl e ↦ absurd (rw e at h)
  | inr (row, e) ↦ elim (Option-cases (find_reservation st.id rows')) [
    | inl e' ↦ absurd (rw e' at (k st.id row e))
    | inr (row', e') ↦ rw e' (ground (arith, rw e' at (k st.id row e), rw e at h))
  ]
]

pub Effect-KeepsRows : (db db' : Db) → Effect db db' → KeepsRows db.reservations db'.reservations
Effect-KeepsRows db db' (unchanged e) = rw e (KeepsRows-refl db.reservations)
Effect-KeepsRows db db' (adjusts _ _ _ _ _ _ _ _ _ e) = rw e (KeepsRows-refl db.reservations)
Effect-KeepsRows db db' (holds _ _ _ _ _ can e) =
    rw e (insert-KeepsRows _ db.reservations can.new_id)
Effect-KeepsRows db db' (closes i f u e) =
    rw e (update-KeepsRows i f db.reservations u.same_id (λ r. (u.same_user r, u.same_amount r)))
Effect-KeepsRows db db' (returns i _ f _ _ _ u _ e) =
    rw e (update-KeepsRows i f db.reservations u.same_id (λ r. (u.same_user r, u.same_amount r)))

-- The ledger is append-only: every row of before is there after, in its place.
abbrev pub Appends : Db → Db → Type 0
Appends db db' = (ts : List Transaction) × (db'.transactions ≡ ts ++ db.transactions)

pub Effect-Appends : (db db' : Db) → Effect db db' → Appends db db'
Effect-Appends db db' (unchanged e) = ([], rw e)
Effect-Appends db db' (adjusts _ _ _ _ _ _ _ _ _ e) = (_ ∷ [], ap (λ d. d.transactions) e)
Effect-Appends db db' (holds _ _ _ _ _ _ e) = (_ ∷ [], ap (λ d. d.transactions) e)
Effect-Appends db db' (closes _ _ _ e) = ([], ap (λ d. d.transactions) e)
Effect-Appends db db' (returns _ _ _ _ t _ _ _ e) = (t ∷ [], ap (λ d. d.transactions) e)

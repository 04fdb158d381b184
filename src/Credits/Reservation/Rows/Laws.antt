-- ===== src/Credits/Reservation/Rows/Laws.antt =====
-- What the guarded update of one reservation does to each row that a query finds.
use ai_credits.Prelude.{List, Str, [], arith, if◌then◌else◌, none, refl, some, ◌∷◌, ◌≡◌}
use ai_credits.Credits.Db.{Reservation}
use ai_credits.Credits.Reservation.Rows.{
  DistinctReservations, find_reservation, is_reserved, rows_reserved, update_reserved,
}

-- The query by id after the update: `f` on the row if it is the one updated and still reserved.
pub find_reservation-update_reserved :
    (i j : Str) (f : Reservation → Reservation)
    → ((r : Reservation) → (f r).id ≡ r.id)
    → (rows : List Reservation)
    → find_reservation j (update_reserved i f rows) ≡ (elim (find_reservation j rows) [
      | none ↦ none
      | some r ↦ if is_reserved i r then some (f r) else some r
    ])
unfolding find_reservation update_reserved
find_reservation-update_reserved i j f same [] = refl
find_reservation-update_reserved i j f same (r ∷ rest) =
    ground (arith, same r, find_reservation-update_reserved i j f same rest)

rows_reserved-unknown :
    (i : Str) (rows : List Reservation) → find_reservation i rows ≡ none → rows_reserved i rows ≡ 0
unfolding find_reservation rows_reserved
rows_reserved-unknown i [] h = refl
rows_reserved-unknown i (r ∷ rest) h = ground (arith, rows_reserved-unknown i rest)

-- With distinct ids the update meets one row if the row of the id is still reserved, and else none.
pub rows_reserved_lem :
    (i : Str) (rows : List Reservation)
    → DistinctReservations rows
    → rows_reserved i rows
      ≡ (elim (find_reservation i rows) [ none ↦ 0 | some r ↦ if is_reserved i r then 1 else 0 ])
unfolding find_reservation rows_reserved
rows_reserved_lem i [] d = refl
rows_reserved_lem i (r ∷ rest) d =
    ground (arith, rows_reserved_lem i rest d.1, rows_reserved-unknown i rest)

pub find_reservation-id :
    (i : Str) (r : Reservation) (rows : List Reservation)
    → find_reservation i rows ≡ some r
    → r.id ≡ i
unfolding find_reservation
find_reservation-id i r [] h = cc
find_reservation-id i r (x ∷ rest) h = ground (arith, find_reservation-id i r rest)

pub update_reserved-DistinctReservations :
    (i : Str) (f : Reservation → Reservation)
    → ((r : Reservation) → (f r).id ≡ r.id)
    → (rows : List Reservation) → DistinctReservations rows
    → DistinctReservations (update_reserved i f rows)
unfolding update_reserved
update_reserved-DistinctReservations i f same [] d = tt
update_reserved-DistinctReservations i f same (r ∷ rest) d = ground (
  arith,
  same r,
  update_reserved-DistinctReservations i f same rest d.1,
  find_reservation-update_reserved i r.id f same rest,
)

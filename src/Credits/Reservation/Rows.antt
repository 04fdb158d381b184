-- ===== src/Credits/Reservation/Rows.antt =====
-- The statements that the code sends to credit_reservations, and the insertion of a ledger row.
pub mod Laws
use ai_credits.Prelude.{
  Bool, List, Option, Str, [], codes, false, if◌then◌else◌, none, some, str_eq, suc, true, ℕ, ◌&&◌,
  ◌∷◌, ◌≡◌,
}
use ai_credits.Credits.Db.{Reservation, Status, Tx, gets, modify, raise_if, ◌>>=◌, ◌>>◌}
use ai_credits.Credits.Errors.{unique_failed}

-- SELECT … FROM credit_reservations WHERE id = ?
unfoldable pub find_reservation : Str → List Reservation → Option Reservation
find_reservation i [] = none
find_reservation i (r ∷ rest) = if str_eq r.id i then some r else find_reservation i rest

-- SELECT … FROM credit_reservations WHERE request_id = ?
unfoldable pub find_request : Str → List Reservation → Option Reservation
find_request q [] = none
find_request q (r ∷ rest) = if str_eq r.request_id q then some r else find_request q rest

-- Is this the row that `WHERE id = ? AND status = 'reserved'` selects?
abbrev pub is_reserved : Str → Reservation → Bool
is_reserved i r = str_eq r.id i && elim r.status [ Status.reserved ↦ true | _ ↦ false ]

-- RowsAffected() of an update of the reserved row.
unfoldable pub rows_reserved : Str → List Reservation → ℕ
rows_reserved i [] = 0
rows_reserved i (r ∷ rest) =
    if is_reserved i r then suc (rows_reserved i rest) else rows_reserved i rest

-- UPDATE credit_reservations SET … WHERE id = ? AND status = 'reserved'
unfoldable pub update_reserved :
    Str → (Reservation → Reservation) → List Reservation → List Reservation
update_reserved i f [] = []
update_reserved i f (r ∷ rest) = (if is_reserved i r then f r else r) ∷ update_reserved i f rest

abbrev pub is_found : Option Reservation → Bool
is_found none = false
is_found (some r) = true

-- INSERT INTO credit_reservations: the primary key and the unique request id are checked.
unfoldable pub insert_reservation : Reservation → Tx (Unit {0})
insert_reservation r = do
  used ← gets (λ db. is_found (find_reservation r.id db.reservations))
  raise_if used (unique_failed (codes "credit_reservations.id"))
  repeated ← gets (λ db. is_found (find_request r.request_id db.reservations))
  raise_if repeated (unique_failed (codes "credit_reservations.request_id"))
  modify (λ db. record db { reservations = r ∷ db.reservations })

-- id is the primary key of credit_reservations.
abbrev pub DistinctReservations : List Reservation → Type 0
DistinctReservations [] = Unit
DistinctReservations (r ∷ rest) = (find_reservation r.id rest ≡ none) × DistinctReservations rest

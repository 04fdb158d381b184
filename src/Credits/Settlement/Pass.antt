-- ===== src/Credits/Settlement/Pass.antt =====
-- credits/settlement.go: the worker pass, which expires rows that were never settled.
use ai_credits.Prelude.{
  Bool, List, Option, Str, [], false, if◌then◌else◌, none, some, suc, true, zero, ℕ, ◌∷◌,
}
use ai_credits.Credits.Db.{Reservation}
use ai_credits.Credits.Errors.{Result, driver, err, ok}
use ai_credits.Credits.Reservation.Finalize.{is_status_reserved, release}
use ai_credits.Credits.Settlement.{
  OutboxEnv, OutboxRow, OutboxStatus, Store, find_outbox, mark, mark_unless, reservation_by_id,
}
use ai_credits.Prelude.Int.{leb_ℤ, ltb_ℤ, pos, pos_part, ℤ, ◌-ℤ◌}

-- staleSettlementSeconds
abbrev pub stale_settlement_seconds : ℤ
stale_settlement_seconds = pos 3600

abbrev pub as_expired_row : ℤ → OutboxRow → OutboxRow
as_expired_row now r = record r { status = OutboxStatus.expired; updated_at = now }

-- A row that is stale: its reservation is released, if it is still reserved, and the row is marked
-- expired, whether or not the release succeeds.
abbrev pub expire_found : OutboxEnv → Str → Result Reservation → Store → Store
expire_found oe req (err e) s = s
expire_found oe req (ok r) s =
    if is_status_reserved r.status
    then record s {
      db = (release oe.inner (some r) s.db).2;
      outbox = mark_unless oe.write req (as_expired_row oe.now) s.outbox;
    }
    else s

-- A round of the pass; `clock` is what time.Now() shows.
abbrev pub expire_read : OutboxEnv → ℤ → Str → Option OutboxRow → Store → Store
expire_read oe clock req none s = s
expire_read oe clock req (some row) s =
    if ltb_ℤ stale_settlement_seconds (clock -ℤ row.created_at)
    then expire_found oe req (reservation_by_id oe.lookup oe.lookup_again row.reservation_id s.db) s
    else s

unfoldable pub process_one : OutboxEnv → ℤ → Str → Store → Store
unfolding reservation_by_id find_outbox mark
process_one oe clock req s = elim oe.read [
  | some e ↦ s
  | none ↦ expire_read oe clock req (find_outbox req s.outbox) s
]

unfoldable pub process_all : (ℕ → OutboxEnv) → (ℕ → ℤ) → List Str → Store → Store
unfolding process_one
process_all each clock [] s = s
process_all each clock (req ∷ rest) s =
    process_all (λ n. each (suc n)) (λ n. clock (suc n)) rest (process_one (each 0) (clock 0) req s)

-- ORDER BY created_at; the order of rows of the same second is the order of the table.
unfoldable pub insert_by_age : OutboxRow → List OutboxRow → List OutboxRow
insert_by_age r [] = r ∷ []
insert_by_age r (x ∷ rest) =
    if leb_ℤ r.created_at x.created_at then r ∷ x ∷ rest else x ∷ insert_by_age r rest

abbrev pub is_pending : OutboxStatus → Bool
is_pending OutboxStatus.pending = true
is_pending _ = false

-- SELECT request_id … WHERE status = 'pending' ORDER BY created_at
unfoldable pub pending_rows : List OutboxRow → List OutboxRow
unfolding insert_by_age
pending_rows [] = []
pending_rows (r ∷ rest) =
    if is_pending r.status then insert_by_age r (pending_rows rest) else pending_rows rest

-- LIMIT ?
unfoldable pub take_ids : ℕ → List OutboxRow → List Str
take_ids zero rows = []
take_ids (suc n) [] = []
take_ids (suc n) (r ∷ rest) = r.request_id ∷ take_ids n rest

abbrev pub limit_or_default : ℤ → ℕ
limit_or_default limit = if leb_ℤ limit (pos 0) then 100 else pos_part limit

-- `ProcessSettlementOutbox`; `query` is the driver's answer to the query for pending rows.
unfoldable pub process_settlement_outbox :
    Option Str → ℤ → (ℕ → OutboxEnv) → (ℕ → ℤ) → Store → Result (Unit {0}) × Store
unfolding process_all pending_rows take_ids
process_settlement_outbox query limit each clock s = elim query [
  | some e ↦ (err (driver e), s)
  | none ↦
      (ok tt, process_all each clock (take_ids (limit_or_default limit) (pending_rows s.outbox)) s)
]

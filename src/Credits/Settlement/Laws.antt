-- ===== src/Credits/Settlement/Laws.antt =====
-- credits/settlement.go: what a settlement through the outbox does to the ledger.
use ai_credits.Prelude.{
  Bool-cases, List, Option, Option-cases, Str, [], ap, inl, inr, none, refl, some, suc, ℕ, ◌∷◌, ◌≡◌,
}
use ai_credits.Credits.Db.{Reservation}
use ai_credits.Credits.Errors.{Result, err, ok}
use ai_credits.Credits.Pricing.{Pricer}
use ai_credits.Credits.Reservation.Finalize.{Settled, is_status_reserved, settle}
use ai_credits.Credits.Settlement.{
  OutboxEnv, OutboxRow, Store, after_lookup, after_price, after_read, after_settle, credits_of,
  find_outbox, reservation_by_id, settle_via_outbox,
}
use ai_credits.Credits.Settlement.Pass.{
  expire_found, expire_read, limit_or_default, pending_rows, process_all, process_one,
  process_settlement_outbox, stale_settlement_seconds, take_ids,
}
use ai_credits.Credits.Sound.{IsSound}
use ai_credits.Credits.Sound.Finalize.{release-IsSound, settle-IsSound}
use ai_credits.Credits.Usage.{Usage}
use ai_credits.Prelude.Int.{ltb_ℤ, ℤ, ◌-ℤ◌}

-- A settlement through the outbox that succeeds has read the row of the req and settled its
-- reservation, as the table has it, at the credits that the usage costs.
abbrev pub SettlesAt : Pricer → OutboxEnv → Str → Usage → Store → Store → Type 0
SettlesAt p oe req u s s' =
    (row : OutboxRow) × (find_outbox req s.outbox ≡ some row)
    × ((r : Reservation) × (reservation_by_id oe.lookup oe.lookup_again row.reservation_id s.db
          ≡ ok r)
        × ((c : ℤ) × (credits_of p u ≡ ok c)
            × ((r' : Option Reservation) × (settle oe.inner (some r) c s.db ≡ (ok tt, r', s'.db)))))

module _ (p : Pricer) (oe : OutboxEnv) (req : Str) (u : Usage) (s : Store) where
  after_settle-IsSound :
      (c : ℤ) (out : Settled) → IsSound out.2 → IsSound (after_settle p oe req u c out s).1.db
  after_settle-IsSound c (err e, r, db') h = h
  after_settle-IsSound c (ok v, r, db') h = elim (Option-cases oe.write) [
    | inl w ↦ rw w h
    | inr (e, w) ↦ rw w h
  ]

  after_price-IsSound :
      (r : Reservation) (c : Result ℤ) → IsSound s.db → IsSound (after_price p oe req u r c s).1.db
  after_price-IsSound r (err e) h = release-IsSound oe.inner (some r) s.db h
  after_price-IsSound r (ok c) h =
      after_settle-IsSound c (settle oe.inner (some r) c s.db)
        (settle-IsSound oe.inner (some r) c s.db h)

  after_lookup-IsSound :
      (r : Result Reservation) → IsSound s.db → IsSound (after_lookup p oe req u r s).1.db
  after_lookup-IsSound (err e) h = h
  after_lookup-IsSound (ok r) h = after_price-IsSound r (credits_of p u) h

  after_read-IsSound :
      (row : Option OutboxRow) → IsSound s.db → IsSound (after_read p oe req u row s).1.db
  after_read-IsSound none h = h
  after_read-IsSound (some row) h = after_lookup-IsSound _ h

  settle_via_outbox-IsSound : IsSound s.db → IsSound (settle_via_outbox p oe req u s).1.db
  unfolding settle_via_outbox
  settle_via_outbox-IsSound h = elim (Option-cases oe.read) [
    | inl q ↦ rw q (after_read-IsSound (find_outbox req s.outbox) h)
    | inr (e, q) ↦ rw q h
  ]

  after_settle-ok :
      (c : ℤ) (out : Settled) (s' : Store)
      → after_settle p oe req u c out s ≡ (ok tt, s')
      → (r' : Option Reservation) × (out ≡ (ok tt, r', s'.db))
  after_settle-ok c (err e, r, db') s' h = absurd (cc (ap (λ x. x.0) h))
  after_settle-ok c (ok v, r, db') s' h = elim (Option-cases oe.write) [
    | inl w ↦ (r, ap (λ d. (ok tt, r, d)) (ap (λ x. x.1.db) (rw w at h)))
    | inr (e, w) ↦ absurd (cc (ap (λ x. x.0) (rw w at h)))
  ]

  after_price-ok :
      (r : Reservation) (c : Result ℤ) (s' : Store)
      → after_price p oe req u r c s ≡ (ok tt, s')
      → (c' : ℤ) × (c ≡ ok c')
        × ((r' : Option Reservation) × (settle oe.inner (some r) c' s.db ≡ (ok tt, r', s'.db)))
  after_price-ok r (err e) s' h = absurd (cc (ap (λ x. x.0) h))
  after_price-ok r (ok c) s' h = (c, refl, after_settle-ok c (settle oe.inner (some r) c s.db) s' h)

  after_read-ok :
      (o : Option OutboxRow) (s' : Store)
      → find_outbox req s.outbox ≡ o
      → after_read p oe req u o s ≡ (ok tt, s')
      → SettlesAt p oe req u s s'
  after_read-ok none s' f h = absurd (cc (ap (λ x. x.0) h))
  after_read-ok (some row) s' f h =
      go (reservation_by_id oe.lookup oe.lookup_again row.reservation_id s.db) refl h
    where
      go :
          (r : Result Reservation)
          → reservation_by_id oe.lookup oe.lookup_again row.reservation_id s.db ≡ r
          → after_lookup p oe req u r s ≡ (ok tt, s')
          → SettlesAt p oe req u s s'
      go (err e) q h = absurd (cc (ap (λ x. x.0) h))
      go (ok r) q h = (row, f, (r, q, after_price-ok r (credits_of p u) s' h))

  -- A settlement through the outbox that succeeds has settled the reservation that the row of the
  -- request names, as the table has it, at the credits that the usage costs, and has done nothing
  -- else to the tables of the ledger.
  pub settle_via_outbox-ok :
      (s' : Store) → settle_via_outbox p oe req u s ≡ (ok tt, s') → SettlesAt p oe req u s s'
  unfolding settle_via_outbox
  settle_via_outbox-ok s' h = elim (Option-cases oe.read) [
    | inl q ↦ after_read-ok (find_outbox req s.outbox) s' refl (rw q at h)
    | inr (e, q) ↦ absurd (cc (ap (λ x. x.0) (rw q at h)))
  ]

expire_found-IsSound :
    (oe : OutboxEnv) (req : Str) (r : Result Reservation) (s : Store)
    → IsSound s.db
    → IsSound (expire_found oe req r s).db
expire_found-IsSound oe req (err e) s h = h
expire_found-IsSound oe req (ok r) s h = elim (Bool-cases (is_status_reserved r.status)) [
  | inl o ↦ rw o (release-IsSound oe.inner (some r) s.db h)
  | inr o ↦ rw o h
]

expire_read-IsSound :
    (oe : OutboxEnv) (clock : ℤ) (req : Str) (row : Option OutboxRow) (s : Store)
    → IsSound s.db
    → IsSound (expire_read oe clock req row s).db
expire_read-IsSound oe clock req none s h = h
expire_read-IsSound oe clock req (some row) s h =
    elim (Bool-cases (ltb_ℤ stale_settlement_seconds (clock -ℤ row.created_at))) [
      | inl o ↦ rw o (expire_found-IsSound oe req _ s h)
      | inr o ↦ rw o h
    ]

process_one-IsSound :
    (oe : OutboxEnv) (clock : ℤ) (req : Str) (s : Store)
    → IsSound s.db
    → IsSound (process_one oe clock req s).db
unfolding process_one
process_one-IsSound oe clock req s h = elim (Option-cases oe.read) [
  | inl q ↦ rw q (expire_read-IsSound oe clock req (find_outbox req s.outbox) s h)
  | inr (e, q) ↦ rw q h
]

process_all-IsSound :
    (each : ℕ → OutboxEnv) (clock : ℕ → ℤ) (requests : List Str) (s : Store)
    → IsSound s.db
    → IsSound (process_all each clock requests s).db
unfolding process_all
process_all-IsSound each clock [] s h = h
process_all-IsSound each clock (q ∷ rest) s h =
    process_all-IsSound (λ n. each (suc n)) (λ n. clock (suc n)) rest _
      (process_one-IsSound (each 0) (clock 0) q s h)

-- On every path, whatever errors they meet, a settlement through the outbox and a worker pass leave
-- the tables of the ledger sound: balances are the sums of the ledger, and the ledger accounts for
-- every reservation.
pub outbox-IsSound :
    (p : Pricer) (oe : OutboxEnv) (req : Str) (u : Usage) (query : Option Str) (limit : ℤ)
    (each : ℕ → OutboxEnv) (clock : ℕ → ℤ) (s : Store)
    → IsSound s.db
    → IsSound (settle_via_outbox p oe req u s).1.db
      × IsSound (process_settlement_outbox query limit each clock s).1.db
unfolding process_settlement_outbox
outbox-IsSound p oe req u none limit each clock s h = (
  settle_via_outbox-IsSound p oe req u s h,
  process_all-IsSound each clock (take_ids (limit_or_default limit) (pending_rows s.outbox)) s h,
)
outbox-IsSound p oe req u (some e) limit each clock s h =
    (settle_via_outbox-IsSound p oe req u s h, h)

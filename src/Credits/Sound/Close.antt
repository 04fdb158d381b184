-- ===== src/Credits/Sound/Close.antt =====
-- Closing a reservation, by whatever call: one update of its row, and a ledger row that makes up
-- for it.
use ai_credits.Prelude.{
  Bool-cases, List, Option-cases, Str, ap, arith, false, if◌then◌else◌, inl, inr, none, refl, some,
  str_eq, str_eq_refl, str_eq→eq, true, ◌∙◌, ◌∷◌, ◌≡◌, ◌≢◌,
}
use ai_credits.Credits.Accounts.{add_balance, find_balance}
use ai_credits.Credits.Accounts.Laws.{
  add_balance-DistinctUsers, balance_of-add_balance, find_balance-add_balance, ledger_total-cons,
}
use ai_credits.Credits.Db.{Account, Db, Reservation, Status, Transaction}
use ai_credits.Credits.Reservation.Rows.{find_reservation, is_reserved, update_reserved}
use ai_credits.Credits.Reservation.Rows.Laws.{
  find_reservation-id, find_reservation-update_reserved, update_reserved-DistinctReservations,
}
use ai_credits.Credits.Sound.{HasColumns, IsHeld, IsHeld-keep, IsSound, outstanding, reference_sum}
use ai_credits.Prelude.Int.{int_laws, neg, pos, ℤ, ◌+ℤ◌}

-- An update of the reserved row `row` that fits an adjustment by `x` of its user's balance.
pub record Closes (i : Str) (row : Reservation) (f : Reservation → Reservation) (x : ℤ) (db : Db)
    : Type 0 where
  pub found : find_reservation i db.reservations ≡ some row
  pub is_open : row.status ≡ Status.reserved
  pub same_id : (r : Reservation) → (f r).id ≡ r.id
  pub same_user : (f row).user_id ≡ row.user_id
  pub same_amount : (f row).amount ≡ row.amount
  pub adds_up : x +ℤ neg row.amount ≡ neg (outstanding (f row))
  pub columns : HasColumns (f row).status (f row)

find_balance-add_balance_ne :
    (u v : Str) (x now : ℤ) (accounts : List Account)
    → find_balance v accounts ≢ none
    → find_balance v (add_balance u x now accounts) ≢ none
find_balance-add_balance_ne u v x now accounts h =
    ground (arith, find_balance-add_balance u v x now accounts)

pub is_reserved-open :
    (i : Str) (r : Reservation) → r.id ≡ i → r.status ≡ Status.reserved → is_reserved i r ≡ true
is_reserved-open i r e o = ground arith

is_reserved-ne :
    (i j : Str) (r : Reservation) → r.id ≡ j → str_eq i j ≡ false → is_reserved i r ≡ false
is_reserved-ne i j r e h = ground arith

outstanding-open : (r : Reservation) → r.status ≡ Status.reserved → outstanding r ≡ r.amount
outstanding-open r h = ground arith

-- The tables after a closing update with a ledger row.
abbrev pub adjust_close : Str → Str → (Reservation → Reservation) → ℤ → Transaction → ℤ → Db → Db
adjust_close i user f x t now db = record db {
  accounts = add_balance user x now db.accounts;
  transactions = t ∷ db.transactions;
  reservations = update_reserved i f db.reservations;
}

module _ (i : Str) (row : Reservation) (f : Reservation → Reservation) (x : ℤ) (db : Db)
    (s : IsSound db) (c : Closes i row f x db) where
  pub find_closed_self : find_reservation i (update_reserved i f db.reservations) ≡ some (f row)
  find_closed_self =
      let open_row =
        is_reserved-open i row (find_reservation-id i row db.reservations c.found) c.is_open in
      rw (find_reservation-update_reserved i i f c.same_id db.reservations, c.found, open_row)

  -- The reservation that a query by id finds after the update.
  find_closed :
      (j : Str)
      → find_reservation j (update_reserved i f db.reservations)
        ≡ (if str_eq i j then some (f row) else find_reservation j db.reservations)
  find_closed j = elim (Bool-cases (str_eq i j)) [
    | inl e ↦ rw e (rw (← str_eq→eq i j e) find_closed_self)
    | inr e ↦ elim (Option-cases (find_reservation j db.reservations)) [
      | inl n ↦ rw e (rw (find_reservation-update_reserved i j f c.same_id db.reservations, n))
      | inr (r, n) ↦
          let closed = is_reserved-ne i j r (find_reservation-id j r db.reservations n) e in
          rw e (rw (find_reservation-update_reserved i j f c.same_id db.reservations, n, closed))
    ]
  ]

  -- The account of the reservation, and what its ledger rows add up to.
  pub held_row : IsHeld i (some row) db.accounts db.transactions
  held_row = rw c.found at (s.held i)

  -- What holds of the updated row once its ledger rows add up to `x` more.
  IsHeld-closed :
      (accounts : List Account) (ts : List Transaction)
      → find_balance row.user_id accounts ≢ none
      → reference_sum i ts ≡ x +ℤ reference_sum i db.transactions
      → IsHeld i (some (f row)) accounts ts
  IsHeld-closed accounts ts known e =
      let was : reference_sum i db.transactions ≡ neg row.amount =
        held_row.1 ∙ ap neg (outstanding-open row c.is_open) in
      (
        rw c.same_user known,
        e ∙ ap (◌+ℤ◌ x) was ∙ c.adds_up,
        rw c.same_amount held_row.2,
        c.columns,
      )

  -- What holds of every row, if no account is forgotten and no other reservation is referred to.
  IsHeld-update :
      (accounts : List Account) (ts : List Transaction)
      → ((v : Str) → find_balance v db.accounts ≢ none → find_balance v accounts ≢ none)
      → reference_sum i ts ≡ x +ℤ reference_sum i db.transactions
      → ((j : Str) → str_eq i j ≡ false → reference_sum j ts ≡ reference_sum j db.transactions)
      → (j : Str) → IsHeld j (find_reservation j (update_reserved i f db.reservations)) accounts ts
  IsHeld-update accounts ts known e others j = rw (find_closed j) (elim (Bool-cases (str_eq i j)) [
    | inl h ↦
        rw h (rw (← str_eq→eq i j h) (IsHeld-closed accounts ts (known row.user_id held_row.0) e))
    | inr h ↦ rw h (IsHeld-keep j _ _ _ _ _ known (others j h) (s.held j))
  ])

  -- No ledger row is needed if nothing is to be made up for.
  pub update-IsSound :
      x ≡ pos 0 → IsSound (record db { reservations = update_reserved i f db.reservations })
  update-IsSound z = record {
    users = s.users;
    ids = update_reserved-DistinctReservations i f c.same_id db.reservations s.ids;
    balanced = s.balanced;
    held =
        IsHeld-update db.accounts db.transactions (λ v h. h) (rw z (omega int_laws)) (λ j h. refl);
  }

  pub adjust_close-IsSound :
      (t : Transaction) (now : ℤ)
      → t.reference_id ≡ some i
      → t.user_id ≡ row.user_id
      → t.amount ≡ x
      → IsSound (adjust_close i t.user_id f x t now db)
  unfolding reference_sum
  adjust_close-IsSound t now refers user amount = record {
    users = add_balance-DistinctUsers t.user_id x now db.accounts s.users;
    ids = update_reserved-DistinctReservations i f c.same_id db.reservations s.ids;
    balanced = λ u. ground (
      arith,
      balance_of-add_balance t.user_id u x now db.accounts (rw user held_row.0),
      ledger_total-cons u t db.transactions,
      s.balanced u,
    );
    held =
        IsHeld-update _ _ (λ v. find_balance-add_balance_ne t.user_id v x now db.accounts)
          (rw (refers, str_eq_refl i, amount)) (λ j h. rw (refers, h));
  }

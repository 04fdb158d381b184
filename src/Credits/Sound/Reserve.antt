-- ===== src/Credits/Sound/Reserve.antt =====
-- A reserve keeps the tables sound.
use ai_credits.Prelude.{
  Bool-cases, List, Option, Str, [], arith, if◌then◌else◌, inl, inr, none, refl, some, str_eq,
  str_eq→eq, ◌∷◌, ◌≡◌, ◌≢◌,
}
use ai_credits.Credits.Accounts.{
  DistinctUsers, balance_of, debit_balance, find_balance, rows_covering,
}
use ai_credits.Credits.Accounts.Laws.{
  debit_balance-DistinctUsers, find_balance-debit_balance, ledger_total-cons, rows_covering_lem,
}
use ai_credits.Credits.Db.{Account, Db, Env, Reservation, Transaction}
use ai_credits.Credits.Errors.{ok}
use ai_credits.Credits.Reservation.{reserve, reserve_checks, reserve_row, reserve_rows}
use ai_credits.Credits.Reservation.Laws.{
  CanReserve, reserve_checks-ok, reserve_rows-ok, reserved_db,
}
use ai_credits.Credits.Reservation.Rows.{find_reservation}
use ai_credits.Credits.Sound.{
  IsHeld, IsHeld-keep, IsSound, checked-IsSound, in_tx-IsSound, reference_sum,
}
use ai_credits.Prelude.Int.{int_laws, neg, pos, sub-neg, ℤ, ◌+ℤ◌, ◌≤ℤ◌}

-- The balance that a query finds after the debit is that before, less the amount for its user.
balance_of-debited :
    (u v : Str) (x now : ℤ) (accounts : List Account)
    → DistinctUsers accounts
    → rows_covering u x accounts ≢ 0
    → balance_of v (debit_balance u x now accounts)
      ≡ (if str_eq u v then balance_of v accounts +ℤ neg x else balance_of v accounts)
unfolding balance_of
balance_of-debited u v x now accounts d h = ground (
  arith,
  rows_covering_lem u x accounts d,
  find_balance-debit_balance u v x now accounts,
  sub-neg (balance_of v accounts) x,
)

find_balance-debited_ne :
    (u v : Str) (x now : ℤ) (accounts : List Account)
    → find_balance v accounts ≢ none
    → find_balance v (debit_balance u x now accounts) ≢ none
find_balance-debited_ne u v x now accounts h =
    ground (arith, find_balance-debit_balance u v x now accounts)

-- A debit that met a row met that of a known account.
rows_covering-known :
    (u : Str) (x : ℤ) (accounts : List Account)
    → rows_covering u x accounts ≢ 0
    → find_balance u accounts ≢ none
unfolding rows_covering find_balance
rows_covering-known u x [] h = absurd (h refl)
rows_covering-known u x (a ∷ rest) h = ground (arith, rows_covering-known u x rest)

reference_sum-unknown :
    (i : Str) (o : Option Reservation) (accounts : List Account) (ts : List Transaction)
    → IsHeld i o accounts ts
    → o ≡ none
    → reference_sum i ts ≡ pos 0
reference_sum-unknown i none accounts ts h e = h
reference_sum-unknown i (some r) accounts ts h e = cc

module _ (env : Env) (rid user request : Str) (amount : ℤ) (db : Db) (s : IsSound db)
    (p : pos 1 ≤ℤ amount) (c : CanReserve rid user request amount db) where
  after : Db
  after = reserved_db env rid user request amount db

  IsHeld-reserved :
      (i : Str) → IsHeld i (find_reservation i after.reservations) after.accounts after.transactions
  unfolding after reference_sum find_reservation
  IsHeld-reserved i = elim (Bool-cases (str_eq rid i)) [
    | inl e ↦ rw e (
      find_balance-debited_ne user user amount env.now db.accounts
          (rows_covering-known user amount db.accounts c.covered),
      rw (e, reference_sum-unknown i _ _ _ (s.held i) (rw (str_eq→eq rid i e) at c.new_id))
          (omega int_laws),
      p,
      (refl, refl),
    )
    | inr e ↦ rw e (
        IsHeld-keep i _ _ _ _ _ (λ v. find_balance-debited_ne user v amount env.now db.accounts)
          (rw e) (s.held i))
  ]

  reserved_db-IsSound : IsSound after
  unfolding after
  reserved_db-IsSound = record {
    users = debit_balance-DistinctUsers user amount env.now db.accounts s.users;
    ids = (c.new_id, s.ids);
    balanced = λ u. ground (
      arith,
      balance_of-debited user u amount env.now db.accounts s.users c.covered,
      ledger_total-cons u (reserve_row env rid user request amount) db.transactions,
      s.balanced u,
    );
    held = IsHeld-reserved;
  }

pub reserve_rows-IsSound :
    (env : Env) (user request : Str) (amount : ℤ) (db db' : Db) (r : Reservation)
    → IsSound db
    → pos 1 ≤ℤ amount
    → reserve_rows env user request amount db ≡ ok (r, db')
    → IsSound db'
unfolding after
reserve_rows-IsSound env user request amount db db' r s p h =
    elim (reserve_rows-ok env user request amount db db' r h) [
      | inl (found, own, same) ↦ rw same s
      | inr (rid, _, can, _, e) ↦ rw e (reserved_db-IsSound env rid user request amount db s p can)
    ]

-- A reserve leaves the tables sound, on every path.
pub reserve-IsSound :
    (env : Env) (user request : Str) (amount : ℤ) (db : Db)
    → IsSound db
    → IsSound (reserve env user request amount db).1
unfolding reserve
reserve-IsSound env user request amount db s =
    checked-IsSound (reserve_checks user request amount) _ db s λ u c.
      in_tx-IsSound env _ db s λ r db' h.
        reserve_rows-IsSound env user request amount db db' r s
          (reserve_checks-ok user request amount u c) h

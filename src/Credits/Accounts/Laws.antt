-- ===== src/Credits/Accounts/Laws.antt =====
-- How each statement changes the balance and the ledger sum of every user.
use ai_credits.Prelude.{
  List, Str, [], arith, if◌then◌else◌, none, refl, some, str_eq, ◌&&◌, ◌∷◌, ◌≡◌, ◌≢◌,
}
use ai_credits.Credits.Accounts.{
  DistinctUsers, add_balance, balance_of, debit_balance, find_balance, ledger_total, rows_covering,
  upsert_balance,
}
use ai_credits.Credits.Db.{Account, Transaction}
use ai_credits.Prelude.Int.{int_laws, leb_ℤ, pos, ℤ, ◌+ℤ◌, ◌-ℤ◌}

-- An upsert adds to the balance of its user, an account that is not there counting as 0.
pub balance_of-upsert_balance :
    (u v : Str) (x now : ℤ) (accounts : List Account)
    → balance_of v (upsert_balance u x now accounts)
      ≡ (if str_eq u v then balance_of v accounts +ℤ x else balance_of v accounts)
unfolding balance_of upsert_balance
balance_of-upsert_balance u v x now [] = grind int_laws
balance_of-upsert_balance u v x now (a ∷ rest) =
    ground (arith, balance_of-upsert_balance u v x now rest)

pub find_balance-add_balance :
    (u v : Str) (x now : ℤ) (accounts : List Account)
    → find_balance v (add_balance u x now accounts) ≡ (
        if str_eq u v
        then elim (find_balance v accounts) [ none ↦ none | some b ↦ some (b +ℤ x) ]
        else find_balance v accounts)
unfolding find_balance add_balance
find_balance-add_balance u v x now [] = ground arith
find_balance-add_balance u v x now (a ∷ rest) =
    ground (arith, find_balance-add_balance u v x now rest)

pub balance_of-add_balance :
    (u v : Str) (x now : ℤ) (accounts : List Account)
    → find_balance u accounts ≢ none
    → balance_of v (add_balance u x now accounts)
      ≡ (if str_eq u v then balance_of v accounts +ℤ x else balance_of v accounts)
unfolding balance_of
balance_of-add_balance u v x now accounts known =
    ground (arith, find_balance-add_balance u v x now accounts)

pub find_balance-debit_balance :
    (u v : Str) (x now : ℤ) (accounts : List Account)
    → find_balance v (debit_balance u x now accounts) ≡ (elim (find_balance v accounts) [
      | none ↦ none
      | some b ↦ if str_eq u v && leb_ℤ (pos 0) (b -ℤ x) then some (b -ℤ x) else some b
    ])
unfolding find_balance debit_balance
find_balance-debit_balance u v x now [] = ground arith
find_balance-debit_balance u v x now (a ∷ rest) =
    ground (arith, find_balance-debit_balance u v x now rest)

rows_covering-unknown :
    (u : Str) (x : ℤ) (accounts : List Account)
    → find_balance u accounts ≡ none
    → rows_covering u x accounts ≡ 0
unfolding find_balance rows_covering
rows_covering-unknown u x [] h = refl
rows_covering-unknown u x (a ∷ rest) h = ground (arith, rows_covering-unknown u x rest)

-- The guarded debit meets one row if the user has an account with enough on it, and else none.
pub rows_covering_lem :
    (u : Str) (x : ℤ) (accounts : List Account)
    → DistinctUsers accounts
    → rows_covering u x accounts ≡ (elim (find_balance u accounts) [
      | none ↦ 0
      | some b ↦ if leb_ℤ (pos 0) (b -ℤ x) then 1 else 0
    ])
unfolding find_balance rows_covering
rows_covering_lem u x [] d = refl
rows_covering_lem u x (a ∷ rest) d =
    ground (arith, rows_covering_lem u x rest d.1, rows_covering-unknown u x rest)

pub ledger_total-cons :
    (u : Str) (t : Transaction) (ts : List Transaction)
    → ledger_total u (t ∷ ts)
      ≡ (if str_eq t.user_id u then ledger_total u ts +ℤ t.amount else ledger_total u ts)
unfolding ledger_total
ledger_total-cons u t ts = grind int_laws

pub find_balance-upsert_balance :
    (u v : Str) (x now : ℤ) (accounts : List Account)
    → find_balance v (upsert_balance u x now accounts)
      ≡ (if str_eq u v then some (balance_of v accounts +ℤ x) else find_balance v accounts)
unfolding balance_of upsert_balance
find_balance-upsert_balance u v x now [] = grind int_laws
find_balance-upsert_balance u v x now (a ∷ rest) =
    ground (arith, find_balance-upsert_balance u v x now rest)

pub upsert_balance-DistinctUsers :
    (u : Str) (x now : ℤ) (accounts : List Account)
    → DistinctUsers accounts
    → DistinctUsers (upsert_balance u x now accounts)
unfolding upsert_balance find_balance
upsert_balance-DistinctUsers u x now [] d = (refl, tt)
upsert_balance-DistinctUsers u x now (a ∷ rest) d = ground (
  arith,
  upsert_balance-DistinctUsers u x now rest d.1,
  find_balance-upsert_balance u a.user_id x now rest,
)

pub add_balance-DistinctUsers :
    (u : Str) (x now : ℤ) (accounts : List Account)
    → DistinctUsers accounts
    → DistinctUsers (add_balance u x now accounts)
unfolding add_balance
add_balance-DistinctUsers u x now [] d = tt
add_balance-DistinctUsers u x now (a ∷ rest) d = ground (
  arith,
  add_balance-DistinctUsers u x now rest d.1,
  find_balance-add_balance u a.user_id x now rest,
)

pub debit_balance-DistinctUsers :
    (u : Str) (x now : ℤ) (accounts : List Account)
    → DistinctUsers accounts
    → DistinctUsers (debit_balance u x now accounts)
unfolding debit_balance
debit_balance-DistinctUsers u x now [] d = tt
debit_balance-DistinctUsers u x now (a ∷ rest) d = ground (
  arith,
  debit_balance-DistinctUsers u x now rest d.1,
  find_balance-debit_balance u a.user_id x now rest,
)

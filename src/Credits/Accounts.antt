-- ===== src/Credits/Accounts.antt =====
-- The statements that the code sends to credit_accounts and credit_transactions.
pub mod Laws
use ai_credits.Prelude.{
  Bool, List, Option, Str, [], codes, false, if◌then◌else◌, none, some, str_eq, suc, ℕ, ◌&&◌, ◌||◌,
  ◌∷◌, ◌≡◌,
}
use ai_credits.Credits.Db.{Account, Transaction, Tx, gets, modify, pure, raise_if, ◌>>=◌, ◌>>◌}
use ai_credits.Credits.Errors.{unique_failed}
use ai_credits.Prelude.Int.{leb_ℤ, pos, ℤ, ◌+ℤ◌, ◌-ℤ◌}

-- SELECT balance FROM credit_accounts WHERE user_id = ?
unfoldable pub find_balance : Str → List Account → Option ℤ
find_balance u [] = none
find_balance u (a ∷ rest) = if str_eq a.user_id u then some a.balance else find_balance u rest

-- COALESCE(balance, 0)
unfoldable pub balance_of : Str → List Account → ℤ
unfolding find_balance
balance_of u accounts = elim (find_balance u accounts) [ none ↦ pos 0 | some b ↦ b ]

-- INSERT INTO credit_accounts … ON CONFLICT(user_id) DO UPDATE SET balance = balance + ?
unfoldable pub upsert_balance : Str → ℤ → ℤ → List Account → List Account
upsert_balance u x now [] = record { user_id = u; balance = x; updated_at = now } ∷ []
upsert_balance u x now (a ∷ rest) =
    if str_eq a.user_id u
    then record a { balance = a.balance +ℤ x; updated_at = now } ∷ rest
    else a ∷ upsert_balance u x now rest

-- UPDATE credit_accounts SET balance = balance + ?, updated_at = ? WHERE user_id = ?
unfoldable pub add_balance : Str → ℤ → ℤ → List Account → List Account
add_balance u x now [] = []
add_balance u x now (a ∷ rest) =
    (if str_eq a.user_id u then record a { balance = a.balance +ℤ x; updated_at = now } else a)
    ∷ add_balance u x now rest

-- The rows that meet `user_id = ? AND balance - ? >= 0`.
abbrev pub covers : Str → ℤ → Account → Bool
covers u x a = str_eq a.user_id u && leb_ℤ (pos 0) (a.balance -ℤ x)

-- RowsAffected() of the guarded debit.
unfoldable pub rows_covering : Str → ℤ → List Account → ℕ
rows_covering u x [] = 0
rows_covering u x (a ∷ rest) =
    if covers u x a then suc (rows_covering u x rest) else rows_covering u x rest

-- UPDATE credit_accounts SET balance = balance - ?, updated_at = ?
-- WHERE user_id = ? AND balance - ? >= 0
unfoldable pub debit_balance : Str → ℤ → ℤ → List Account → List Account
debit_balance u x now [] = []
debit_balance u x now (a ∷ rest) =
    (if covers u x a then record a { balance = a.balance -ℤ x; updated_at = now } else a)
    ∷ debit_balance u x now rest

-- SELECT COUNT(*) FROM credit_transactions WHERE idempotency_key = ?, compared with 0.
unfoldable pub key_used : Str → List Transaction → Bool
key_used k [] = false
key_used k (t ∷ rest) = elim t.idempotency_key [
  | none ↦ key_used k rest
  | some j ↦ str_eq j k || key_used k rest
]

-- Does a row have this primary key?
unfoldable pub transaction_id_used : Str → List Transaction → Bool
transaction_id_used i [] = false
transaction_id_used i (t ∷ rest) = str_eq t.id i || transaction_id_used i rest

-- SUM(amount) FROM credit_transactions WHERE user_id = ?
unfoldable pub ledger_total : Str → List Transaction → ℤ
ledger_total u [] = pos 0
ledger_total u (t ∷ rest) =
    if str_eq t.user_id u then t.amount +ℤ ledger_total u rest else ledger_total u rest

-- user_id is the primary key of credit_accounts.
abbrev pub DistinctUsers : List Account → Type 0
DistinctUsers [] = Unit
DistinctUsers (a ∷ rest) = (find_balance a.user_id rest ≡ none) × DistinctUsers rest

-- A key that is not NULL must not be in the table.
abbrev pub key_clash : Option Str → List Transaction → Bool
key_clash none ts = false
key_clash (some k) ts = key_used k ts

-- INSERT INTO credit_transactions: the primary key and the unique key are checked, and one row is
-- affected.
unfoldable pub insert_transaction : Transaction → Tx ℕ
insert_transaction t = do
  used ← gets (λ db. transaction_id_used t.id db.transactions)
  raise_if used (unique_failed (codes "credit_transactions.id"))
  clash ← gets (λ db. key_clash t.idempotency_key db.transactions)
  raise_if clash (unique_failed (codes "credit_transactions.idempotency_key"))
  modify (λ db. record db { transactions = t ∷ db.transactions })
  pure 1

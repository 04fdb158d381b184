-- ===== src/Credits/Ledger.antt =====
-- credits/ledger.go: the balance, and the one path by which grants and refunds are written.
pub mod Laws
pub mod Outcome
pub mod Caller
use ai_credits.Prelude.{Str, [], codes, if◌then◌else◌, none, some, ◌==◌, ◌∷◌}
use ai_credits.Credits.Accounts.{balance_of, insert_transaction, key_used, upsert_balance}
use ai_credits.Credits.Db.{
  Db, Env, Kind, Transaction, Tx, call, checked, fresh_id, gets, in_tx, lift, modify, raise_if,
  ◌>>=◌, ◌>>◌,
}
use ai_credits.Credits.Errors.{Error, Result, duplicate_grant, err, grant_amount, ok, refund_amount}
use ai_credits.Credits.Validate.{require_identifiers}
use ai_credits.Prelude.Int.{leb_ℤ, neg, pos, ℤ}

-- `Balance`: an account that was never granted anything has balance 0.
unfoldable pub user_balance : Env → Str → Db → Result ℤ
user_balance env user db = elim (env.stmt 0) [
  | none ↦ ok (balance_of user db.accounts)
  | some e ↦ err (Error.driver e)
]

-- The row that `adjust` writes.
abbrev pub adjust_row : Env → Str → Str → ℤ → Str → Str → Str → Kind → Transaction
adjust_row env id user amount source reason key kind = record {
  id = id;
  user_id = user;
  amount = amount;
  kind = kind;
  source = source;
  reference_id = none;
  idempotency_key = some key;
  metadata = some reason;
  created_at = env.now;
}

-- The four checks with which `adjust` begins.
abbrev pub adjust_checks : Str → Str → Str → Str → Result (Unit {0})
adjust_checks user source reason key = require_identifiers (
    (codes "user_id", user)
    ∷ (codes "source", source)
    ∷ (codes "reason", reason)
    ∷ (codes "idempotency_key", key)
    ∷ [])

-- The body of the transaction of `adjust`: the check of the key, the ledger row, the balance.
unfoldable pub adjust_rows : Env → Str → ℤ → Str → Str → Str → Kind → Tx (Unit {0})
unfolding insert_transaction
adjust_rows env user amount source reason key kind = do
  call (env.stmt 0)
  exists ← gets (λ db. key_used key db.transactions)
  raise_if exists duplicate_grant
  id ← fresh_id env
  call (env.stmt 1)
  n ← insert_transaction (adjust_row env id user amount source reason key kind)
  raise_if (n == 0) duplicate_grant
  call (env.stmt 2)
  modify (λ db. record db { accounts = upsert_balance user amount env.now db.accounts })

unfoldable pub adjust : Env → Str → ℤ → Str → Str → Str → Kind → Db → Result (Unit {0}) × Db
adjust env user amount source reason key kind =
    checked (adjust_checks user source reason key)
      (in_tx env (adjust_rows env user amount source reason key kind))

-- `adjustTx` writes the checks and the body of `adjust` out once more, in the caller's transaction.
abbrev pub adjust_tx_row : Env → Str → Str → ℤ → Str → Str → Str → Kind → Transaction
adjust_tx_row env id user amount source reason key kind = record {
  id = id;
  user_id = user;
  amount = amount;
  kind = kind;
  source = source;
  reference_id = none;
  idempotency_key = some key;
  metadata = some reason;
  created_at = env.now;
}

abbrev pub adjust_tx_checks : Str → Str → Str → Str → Result (Unit {0})
adjust_tx_checks user source reason key = require_identifiers (
    (codes "user_id", user)
    ∷ (codes "source", source)
    ∷ (codes "reason", reason)
    ∷ (codes "idempotency_key", key)
    ∷ [])

unfoldable pub adjust_tx_rows : Env → Str → ℤ → Str → Str → Str → Kind → Tx (Unit {0})
unfolding insert_transaction
adjust_tx_rows env user amount source reason key kind = do
  call (env.stmt 0)
  exists ← gets (λ db. key_used key db.transactions)
  raise_if exists duplicate_grant
  id ← fresh_id env
  call (env.stmt 1)
  n ← insert_transaction (adjust_tx_row env id user amount source reason key kind)
  raise_if (n == 0) duplicate_grant
  call (env.stmt 2)
  modify (λ db. record db { accounts = upsert_balance user amount env.now db.accounts })

unfoldable pub adjust_tx : Env → Str → ℤ → Str → Str → Str → Kind → Tx (Unit {0})
adjust_tx env user amount source reason key kind = do
  lift (adjust_tx_checks user source reason key)
  adjust_tx_rows env user amount source reason key kind

unfoldable pub grant : Env → Str → ℤ → Str → Str → Str → Db → Result (Unit {0}) × Db
grant env user amount source reason key db =
    if leb_ℤ amount (pos 0)
    then (err grant_amount, db)
    else adjust env user amount source reason key Kind.grant db

unfoldable pub refund : Env → Str → ℤ → Str → Str → Str → Db → Result (Unit {0}) × Db
refund env user amount source reason key db =
    if leb_ℤ amount (pos 0)
    then (err refund_amount, db)
    else adjust env user (neg amount) source reason key Kind.refund db

unfoldable pub grant_tx : Env → Str → ℤ → Str → Str → Str → Tx (Unit {0})
grant_tx env user amount source reason key db =
    if leb_ℤ amount (pos 0)
    then err grant_amount
    else adjust_tx env user amount source reason key Kind.grant db

unfoldable pub refund_tx : Env → Str → ℤ → Str → Str → Str → Tx (Unit {0})
refund_tx env user amount source reason key db =
    if leb_ℤ amount (pos 0)
    then err refund_amount
    else adjust_tx env user (neg amount) source reason key Kind.refund db

-- ===== src/Credits/Reconcile.antt =====
-- credits/reconcile.go: expiry of stale reservations, and the report of drifted balances.
pub mod Laws
use ai_credits.Prelude.{
  Bool, List, Str, [], codes, false, if◌then◌else◌, none, some, str_eq, suc, true, ℕ, ◌&&◌, ◌==◌,
  ◌||◌, ◌∷◌,
}
use ai_credits.Credits.Accounts.{add_balance, balance_of, insert_transaction, ledger_total}
use ai_credits.Credits.Db.{
  Account, Db, Env, Kind, Reservation, Status, Transaction, Tx, attempt, call, commit_tx, fresh_id,
  modify, ◌>>=◌, ◌>>◌,
}
use ai_credits.Credits.Errors.{Result, driver, err, ok}
use ai_credits.Credits.Reservation.Finalize.{is_status_reserved}
use ai_credits.Credits.Reservation.Rows.{rows_reserved, update_reserved}
use ai_credits.Prelude.Int.{eqb_ℤ, ltb_ℤ, ℤ, ◌-ℤ◌}

-- The struct `stale`.
pub record Stale : Type 0 where
  pub id : Str
  pub user_id : Str
  pub amount : ℤ

-- SELECT id, user_id, amount FROM credit_reservations WHERE status = 'reserved' AND created_at < ?
unfoldable pub select_stale : ℤ → List Reservation → List Stale
select_stale cutoff [] = []
select_stale cutoff (r ∷ rest) =
    if is_status_reserved r.status && ltb_ℤ r.created_at cutoff
    then record { id = r.id; user_id = r.user_id; amount = r.amount } ∷ select_stale cutoff rest
    else select_stale cutoff rest

abbrev pub expire_row : Env → Str → Stale → Transaction
expire_row env lid st = record {
  id = lid;
  user_id = st.user_id;
  amount = st.amount;
  kind = Kind.reservation_release;
  source = codes "reconcile";
  reference_id = some st.id;
  idempotency_key = none;
  metadata = none;
  created_at = env.now;
}

abbrev pub marked_expired : Env → Reservation → Reservation
marked_expired env r = record r { status = Status.expired; updated_at = env.now }

-- The writes of `expireOne` for a reservation that is still reserved.
unfoldable pub expire_rows : Env → Stale → Tx (Unit {0})
unfolding insert_transaction
expire_rows env st = do
  modify (λ db. record db {
    reservations = update_reserved st.id (marked_expired env) db.reservations;
  })
  lid ← fresh_id env
  call (env.stmt 1)
  insert_transaction (expire_row env lid st)
  call (env.stmt 2)
  modify (λ db. record db { accounts = add_balance st.user_id st.amount env.now db.accounts })

-- A reservation that a concurrent call has finalized is skipped, with no commit.
abbrev pub expire_unless : Bool → Env → Stale → Db → Result (Unit {0}) × Db
expire_unless true env st db = (ok tt, db)
expire_unless false env st db = commit_tx env.commit db (expire_rows env st db)

unfoldable pub expire_one : Env → Stale → Db → Result (Unit {0}) × Db
expire_one env st = attempt env.begin (
    attempt (env.stmt 0) (λ db. expire_unless (rows_reserved st.id db.reservations == 0) env st db))

-- The next step of a loop that ends at the first error.
abbrev pub go_on : {A : Type 0} → (Db → Result A × Db) → Result (Unit {0}) × Db → Result A × Db
go_on next (ok _, db) = next db
go_on next (err e, db) = (err e, db)

-- The loop of `expireStale`, each round with its own environment and all with one time stamp.
unfoldable pub expire_all : (ℕ → Env) → ℤ → List Stale → Db → Result (Unit {0}) × Db
expire_all each now [] db = (ok tt, db)
expire_all each now (st ∷ rest) db =
    go_on (expire_all (λ n. each (suc n)) now rest)
      (expire_one (record (each 0) { now = now }) st db)

-- Times and the timeout are in whole seconds; `now` is the second reading of the clock.
unfoldable pub expire_stale : ℤ → Env → (ℕ → Env) → ℤ → Db → Result (Unit {0}) × Db
expire_stale timeout env each now = attempt (env.stmt 0) (
    attempt (env.stmt 1)
      (λ db. expire_all each now (select_stale (env.now -ℤ timeout) db.reservations) db))

-- The struct Mismatch of credits/types.go.
pub record Mismatch : Type 0 where
  pub user_id : Str
  pub ledger_sum : ℤ
  pub balance : ℤ

unfoldable pub has_user : Str → List Str → Bool
has_user u [] = false
has_user u (v ∷ rest) = str_eq v u || has_user u rest

-- One more user of a UNION.
abbrev pub union : Str → List Str → List Str
union u us = if has_user u us then us else u ∷ us

unfoldable pub ledger_users : List Transaction → List Str
unfolding has_user
ledger_users [] = []
ledger_users (t ∷ rest) = union t.user_id (ledger_users rest)

-- SELECT user_id FROM credit_accounts UNION SELECT user_id FROM credit_transactions
unfoldable pub all_users : List Account → List Transaction → List Str
unfolding ledger_users
all_users [] ts = ledger_users ts
all_users (a ∷ rest) ts = union a.user_id (all_users rest ts)

-- The rows of the join whose balance is not the ledger's sum.
unfoldable pub mismatches : Db → List Str → List Mismatch
mismatches db [] = []
mismatches db (u ∷ rest) =
    if eqb_ℤ (balance_of u db.accounts) (ledger_total u db.transactions)
    then mismatches db rest
    else record {
      user_id = u;
      ledger_sum = ledger_total u db.transactions;
      balance = balance_of u db.accounts;
    }
      ∷ mismatches db rest

unfoldable pub detect_drift : Env → Db → Result (List Mismatch)
detect_drift env db = elim (env.stmt 2) [
  | some e ↦ err (driver e)
  | none ↦ ok (mismatches db (all_users db.accounts db.transactions))
]

abbrev pub drift_of : Env → Db → Result (List Mismatch) × Db
drift_of env db = (detect_drift env db, db)

unfoldable pub reconcile : ℤ → Env → (ℕ → Env) → ℤ → Db → Result (List Mismatch) × Db
unfolding expire_stale
reconcile timeout env each now db = go_on (drift_of env) (expire_stale timeout env each now db)

-- ===== src/Credits/Db.antt =====
-- The rows of credits/schema.sql, the database, and the transactions of database/sql.
-- An INTEGER is unbounded here: no balance or amount is taken to leave the range of int64.
pub mod Laws
use ai_credits.Prelude.{Bool, List, Option, Str, false, none, some, true, ℕ}
use ai_credits.Credits.Errors.{Error, Result, driver, err, no_random, ok}
use ai_credits.Prelude.Int.{ℤ}

-- A row of credit_accounts.
pub record Account : Type 0 where
  pub user_id : Str
  pub balance : ℤ
  pub updated_at : ℤ

-- The values of the column `type` that the code writes.
pub data Kind : Type 0 where
  grant refund reservation reservation_release reservation_overage : Kind

-- A row of credit_transactions: the ledger. `metadata` holds the reason of its JSON object.
pub record Transaction : Type 0 where
  pub id : Str
  pub user_id : Str
  pub amount : ℤ
  pub kind : Kind
  pub source : Str
  pub reference_id : Option Str
  pub idempotency_key : Option Str
  pub metadata : Option Str
  pub created_at : ℤ

pub data Status : Type 0 where
  reserved captured released expired : Status

-- A row of credit_reservations, and the struct Reservation.
pub record Reservation : Type 0 where
  pub id : Str
  pub user_id : Str
  pub request_id : Str
  pub amount : ℤ
  pub captured_amount : ℤ
  pub released_amount : ℤ
  pub status : Status
  pub created_at : ℤ
  pub updated_at : ℤ

pub data SubscriptionStatus : Type 0 where
  active paused cancelled : SubscriptionStatus

-- A row of subscriptions, and the struct Subscription.
pub record Subscription : Type 0 where
  pub user_id : Str
  pub plan : Str
  pub status : SubscriptionStatus
  pub created_at : ℤ
  pub updated_at : ℤ

-- The tables, each with its newest row first.
pub record Db : Type 0 where
  pub accounts : List Account
  pub transactions : List Transaction
  pub reservations : List Reservation
  pub subscriptions : List Subscription

-- What one call finds around it: the clock, the next random id (`none` if the source of randomness
-- fails), and for the begin, the commit and the n-th statement the driver's error, if it has one.
pub record Env : Type 0 where
  pub now : ℤ
  pub new_id : Option Str
  pub begin : Option Str
  pub commit : Option Str
  pub stmt : ℕ → Option Str

-- A piece of code inside a transaction. An error leaves no state: the transaction is rolled back.
abbrev pub Tx : Type 0 → Type 0
Tx A = Db → Result (A × Db)

module _ {A : Type 0} where
  abbrev pub pure : A → Tx A
  pure a db = ok (a, db)

  abbrev pub raise : Error → Tx A
  raise e db = err e

  abbrev pub gets : (Db → A) → Tx A
  gets f db = ok (f db, db)

  abbrev pub lift : Result A → Tx A
  lift (ok a) db = ok (a, db)
  lift (err e) db = err e

abbrev pub bind_result : {A B : Type 0} → Result (A × Db) → (A → Tx B) → Result (B × Db)
bind_result (ok (a, db')) f = f a db'
bind_result (err e) f = err e

infixl 5 ◌>>=◌ ◌>>◌
abbrev pub ◌>>=◌ : {A B : Type 0} → Tx A → (A → Tx B) → Tx B
◌>>=◌ m f db = bind_result (m db) f

abbrev pub ◌>>◌ : {A B : Type 0} → Tx A → Tx B → Tx B
m >> k = m >>= λ _. k

abbrev pub raise_if : Bool → Error → Tx (Unit {0})
raise_if true e db = err e
raise_if false e db = ok (tt, db)

abbrev pub modify : (Db → Db) → Tx (Unit {0})
modify f db = ok (tt, f db)

-- A call of the driver: the error that the environment has for it, if any.
abbrev pub call : Option Str → Tx (Unit {0})
call none db = ok (tt, db)
call (some e) db = err (driver e)

-- `newID()`
abbrev pub fresh_id : Env → Tx Str
fresh_id env db = elim env.new_id [ none ↦ err no_random | some i ↦ ok (i, db) ]

-- `tx.Commit()`, or the deferred rollback: an error leaves the state from before.
abbrev pub commit_tx : {A : Type 0} → Option Str → Db → Result (A × Db) → Result A × Db
commit_tx c db (err e) = (err e, db)
commit_tx none db (ok (a, db')) = (ok a, db')
commit_tx (some e) db (ok (a, db')) = (err (driver e), db)

-- `tx, err := s.immediateTx(ctx)`, the body, `tx.Commit()`, and `defer tx.Rollback()`.
unfoldable pub in_tx : {A : Type 0} → Env → Tx A → Db → Result A × Db
in_tx env body db = elim env.begin [
  | some e ↦ (err (driver e), db)
  | none ↦ commit_tx env.commit db (body db)
]

-- `if err := check(); err != nil { return err }` in front of the rest of a function.
abbrev pub checked : {A : Type 0} → Result (Unit {0}) → (Db → Result A × Db) → Db → Result A × Db
checked (err e) rest db = (err e, db)
checked (ok _) rest db = rest db

-- A call of the driver outside a transaction, in front of the rest of a function.
abbrev pub attempt : {A : Type 0} → Option Str → (Db → Result A × Db) → Db → Result A × Db
attempt none rest db = rest db
attempt (some e) rest db = (err (driver e), db)

-- The environment of a call that meets no error of the driver.
abbrev pub calm : ℤ → Str → Env
calm now id = record { now = now; new_id = some id; begin = none; commit = none; stmt = λ n. none }

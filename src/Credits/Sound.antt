-- ===== src/Credits/Sound.antt =====
-- What every transaction of credits/ keeps true of the tables.
pub mod Adjust
pub mod Reserve
pub mod Close
pub mod Finalize
pub mod Expire
pub mod Effect
pub mod Keep
use ai_credits.Prelude.{
  List, Option, Str, [], if◌then◌else◌, inl, inr, none, refl, some, str_eq, ◌∙◌, ◌∷◌, ◌≡◌, ◌≢◌,
}
use ai_credits.Credits.Accounts.{DistinctUsers, balance_of, find_balance, ledger_total}
use ai_credits.Credits.Db.{
  Account, Db, Env, Reservation, Status, Transaction, Tx, attempt, checked, in_tx,
}
use ai_credits.Credits.Db.Laws.{in_tx-Ends}
use ai_credits.Credits.Errors.{Result, err, ok}
use ai_credits.Credits.Reservation.Rows.{DistinctReservations, find_reservation}
use ai_credits.Prelude.Int.{neg, pos, ℤ, ◌+ℤ◌, ◌≤ℤ◌}

-- SUM(amount) of the ledger rows that refer to a reservation.
unfoldable pub reference_sum : Str → List Transaction → ℤ
reference_sum i [] = pos 0
reference_sum i (t ∷ rest) = elim t.reference_id [
  | none ↦ reference_sum i rest
  | some j ↦ if str_eq j i then t.amount +ℤ reference_sum i rest else reference_sum i rest
]

-- What a reservation holds or has cost its user.
abbrev pub outstanding_at : Status → Reservation → ℤ
outstanding_at Status.reserved r = r.amount
outstanding_at Status.captured r = r.captured_amount
outstanding_at Status.released r = pos 0
outstanding_at Status.expired r = pos 0

abbrev pub outstanding : Reservation → ℤ
outstanding r = outstanding_at r.status r

-- The columns that go with each status; captured and released amounts of a settled reservation add
-- up to its amount unless the cost exceeded it.
abbrev pub HasColumns : Status → Reservation → Type 0
HasColumns Status.reserved r = (r.captured_amount ≡ pos 0) × (r.released_amount ≡ pos 0)
HasColumns Status.captured r =
    (pos 0 ≤ℤ r.captured_amount)
    × (pos 0 ≤ℤ r.released_amount)
    × (r.amount ≤ℤ r.captured_amount +ℤ r.released_amount)
HasColumns Status.released r = (r.captured_amount ≡ pos 0) × (r.released_amount ≡ r.amount)
HasColumns Status.expired r = (r.captured_amount ≡ pos 0) × (r.released_amount ≡ pos 0)

-- What holds of the reservation that a query by id finds: its user has an account, and the ledger
-- rows that refer to it add up to what it holds or has cost. If none is found no row refers to it,
-- as far as the sum shows.
abbrev pub IsHeld : Str → Option Reservation → List Account → List Transaction → Type 0
IsHeld i none accounts ts = reference_sum i ts ≡ pos 0
IsHeld i (some r) accounts ts =
    (find_balance r.user_id accounts ≢ none)
    × (reference_sum i ts ≡ neg (outstanding r))
    × (pos 1 ≤ℤ r.amount)
    × HasColumns r.status r

pub record IsSound (db : Db) : Type 0 where
  pub users : DistinctUsers db.accounts
  pub ids : DistinctReservations db.reservations
  -- balance == SUM(ledger)
  pub balanced : (u : Str) → balance_of u db.accounts ≡ ledger_total u db.transactions
  pub held : (i : Str) → IsHeld i (find_reservation i db.reservations) db.accounts db.transactions

abbrev pub empty_db : Db
empty_db = record { accounts = []; transactions = []; reservations = []; subscriptions = [] }

-- A change that forgets no account and adds up to nothing for the reservation.
pub IsHeld-keep :
    (i : Str) (o : Option Reservation) (accounts accounts' : List Account)
    (ts ts' : List Transaction)
    → ((v : Str) → find_balance v accounts ≢ none → find_balance v accounts' ≢ none)
    → reference_sum i ts' ≡ reference_sum i ts
    → IsHeld i o accounts ts
    → IsHeld i o accounts' ts'
IsHeld-keep i none accounts accounts' ts ts' known e h = e ∙ h
IsHeld-keep i (some r) accounts accounts' ts ts' known e h =
    (known r.user_id h.0, e ∙ h.1, h.2, h.3)

-- A transaction keeps the tables sound if its body does, since an error rolls it back.
pub in_tx-IsSound :
    {A : Type 0} (env : Env) (body : Tx A) (db : Db)
    → IsSound db
    → ((a : A) (db' : Db) → body db ≡ ok (a, db') → IsSound db')
    → IsSound (in_tx env body db).1
in_tx-IsSound env body db s h = elim (in_tx-Ends env body db) [
  | inl (e, p) ↦ rw p s
  | inr (a, db', q, p) ↦ rw p (h a db' q)
]

pub checked-IsSound :
    {A : Type 0} (r : Result (Unit {0})) (rest : Db → Result A × Db) (db : Db)
    → IsSound db
    → ((u : Unit) → r ≡ ok u → IsSound (rest db).1)
    → IsSound (checked r rest db).1
checked-IsSound (ok u) rest db s h = h u refl
checked-IsSound (err e) rest db s h = s

pub attempt-IsSound :
    {A : Type 0} (o : Option Str) (rest : Db → Result A × Db) (db : Db)
    → IsSound db
    → IsSound (rest db).1
    → IsSound (attempt o rest db).1
attempt-IsSound none rest db s h = h
attempt-IsSound (some e) rest db s h = s

-- ===== src/Credits/System.antt =====
-- All calls of credits/ on one database, in any order and from any number of goroutines. A
-- transaction takes the write lock at its begin, so transactions follow one another; `Reconcile`
-- runs one transaction for each reservation that it has read, and other calls come between.
pub mod Plans
pub mod Laws
pub mod Books
pub mod Final
pub mod Monthly
pub mod Expiry
pub mod Timeout
use ai_credits.Prelude.{List, Option, Str, [], ◌++◌, ◌∷◌, ◌≡◌, ◌⊎◌}
use ai_credits.Credits.Db.{Db, Env, Reservation}
use ai_credits.Credits.Ledger.{grant, refund}
use ai_credits.Credits.Monthly.{Config, ensure_monthly_grant}
use ai_credits.Credits.Reconcile.{Stale, expire_one, select_stale}
use ai_credits.Credits.Reservation.{reserve}
use ai_credits.Credits.Reservation.Finalize.{release, settle}
use ai_credits.Credits.Sound.{empty_db}
use ai_credits.Credits.Subscription.{cancel_subscription, set_subscription}
use ai_credits.Prelude.Int.{ℤ}

-- The database, and every stale reservation that some call of `expireStale` has read so far. Each
-- may be expired at any later time, or never.
pub record State : Type 0 where
  pub db : Db
  pub read : List Stale

abbrev pub IsListed : Stale → List Stale → Type 0
IsListed st [] = ⊥
IsListed st (x ∷ rest) = (x ≡ st) ⊎ IsListed st rest

pub data Step (s : State) : State → Type 0 where
  grants :
      (env : Env) (user : Str) (amount : ℤ) (source reason key : Str)
      → Step s (record s { db = (grant env user amount source reason key s.db).1 })
  refunds :
      (env : Env) (user : Str) (amount : ℤ) (source reason key : Str)
      → Step s (record s { db = (refund env user amount source reason key s.db).1 })
  reserves :
      (env : Env) (user request : Str) (amount : ℤ)
      → Step s (record s { db = (reserve env user request amount s.db).1 })
  settles :
      (env : Env) (r : Option Reservation) (actual : ℤ)
      → Step s (record s { db = (settle env r actual s.db).2 })
  releases :
      (env : Env) (r : Option Reservation) → Step s (record s { db = (release env r s.db).2 })
  reads :
      (cutoff : ℤ) → Step s (record s { read = select_stale cutoff s.db.reservations ++ s.read })
  expires :
      (env : Env) (st : Stale)
      → IsListed st s.read
      → Step s (record s { db = (expire_one env st s.db).1 })
  subscribes :
      (env : Env) (user plan status : Str)
      → Step s (record s { db = (set_subscription env user plan status s.db).1 })
  cancels :
      (env : Env) (user : Str) → Step s (record s { db = (cancel_subscription env user s.db).1 })
  grants_monthly :
      (cfg : Config) (env : Env) (period user plan : Str)
      → Step s (record s { db = (ensure_monthly_grant cfg env period user plan s.db).1 })

pub data Reach (s : State) : State → Type 0 where
  here : Reach s s
  next : {t u : State} → Reach s t → Step t u → Reach s u

abbrev pub start : State
start = record { db = empty_db; read = [] }

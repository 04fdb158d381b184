-- ===== src/Payments/Process/Reversed.antt =====
-- payments/payments.go: what is taken back where one worker processes events one after the other.
use ai_credits.Prelude.{List, Str, [], some, ℕ, ◌∷◌, ◌≡◌, ◌≢◌, ◌≤◌}
use ai_credits.Credits.Db.{Db, Env}
use ai_credits.Credits.Errors.{ok}
use ai_credits.Credits.Pricing.Laws.{total}
use ai_credits.Payments.{Books, EventStatus, PaymentEvent, Purchase, find_purchase}
use ai_credits.Payments.Process.Queue.{process_atomic}
use ai_credits.Payments.Process.Reversal.{IsSized, share}
use ai_credits.Payments.Process.Waiting.{Waits}
use ai_credits.Prelude.Int.{pos}

-- Calls of processOne with credits.Service, each in its environments, one after the other.
abbrev pub process_in_order : List (Env × Env × PaymentEvent) → Books Db → Books Db
process_in_order [] b = b
process_in_order ((env, lenv, e) ∷ rest) b = process_in_order rest (process_atomic env lenv e b).1

-- Each of the calls that has applied a reversal of the purchase counts with its share.
abbrev pub IsCounted : Str → ℕ → ℕ → ℕ → Env → Env → PaymentEvent → Books Db → Type 0
IsCounted id c m total env lenv e b =
    Waits e.provider e.event_id b.events
    → (process_atomic env lenv e b).0 ≡ ok tt
    → e.purchase_id ≡ id
    → e.status ≢ EventStatus.paid
    → share c m e.reversed_minor ≤ total

abbrev pub AllCounted : Str → ℕ → ℕ → ℕ → List (Env × Env × PaymentEvent) → Books Db → Type 0
AllCounted id c m total [] b = Unit
AllCounted id c m total ((env, lenv, e) ∷ rest) b =
    IsCounted id c m total env lenv e b
    × AllCounted id c m total rest (process_atomic env lenv e b).1

-- A purchase in the table, of which `r` credits are taken back.
pub record HasReversed (id : Str) (c m r : ℕ) (b : Books Db) : Type 0 where
  pub purchase_row : Purchase
  pub found : find_purchase id b.purchases ≡ some purchase_row
  pub sized : IsSized purchase_row c m
  pub taken : purchase_row.reversed_credits ≡ pos r
  pub low : r ≤ c

-- One call: what is taken back does not fall, and counts the event if the call has applied it.
abbrev pub StepReversed : Str → ℕ → ℕ → ℕ → Env → Env → PaymentEvent → Books Db → Type 0
StepReversed id c m r env lenv e b =
    (r' : ℕ) × (r ≤ r')
    × HasReversed id c m r' (process_atomic env lenv e b).1
    × IsCounted id c m r' env lenv e b

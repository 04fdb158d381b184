-- ===== src/Payments/Process/Drain.antt =====
-- payments/payments.go: a pass of ProcessPending that ends without an error leaves nothing to do.
use ai_credits.Prelude.{List, Str, [], ◌∷◌, ◌≡◌, ◌⊎◌}
use ai_credits.Credits.Db.{Db}
use ai_credits.Payments.{PaymentEvent}
use ai_credits.Payments.Process.Waiting.{IsWaiting, Waits}

-- An event of the list has this name.
abbrev pub IsNamed : Str → Str → List PaymentEvent → Type 0
IsNamed provider event [] = ⊥
IsNamed provider event (e ∷ l) =
    ((e.provider ≡ provider) × (e.event_id ≡ event)) ⊎ IsNamed provider event l

-- All that waits is named in the list.
abbrev Covers : List PaymentEvent → List PaymentEvent → Type 0
Covers names l = (provider event : Str) → Waits provider event l → IsNamed provider event names

-- An update of rows that makes none wait.
abbrev NoneNew : (PaymentEvent → PaymentEvent) → Type 0
NoneNew f =
    (provider event : Str) (r : PaymentEvent)
    → IsWaiting provider event (f r)
    → IsWaiting provider event r

-- ===== src/Payments/Process/Blocked.antt =====
-- payments/payments.go: an event whose purchase is not there, at the head of the queue.
use ai_credits.Prelude.{map}
use ai_credits.Credits.Db.{Db}
use ai_credits.Credits.Errors.{Error}
use ai_credits.Payments.{Books, PaymentEvent}
use ai_credits.Payments.Process.{claimed, failed_event, mark_event}
use ai_credits.Payments.Process.Queue.{expire_lease}
use ai_credits.Prelude.Int.{ℤ}

-- The books after an event has failed that was claimed.
abbrev pub failed_books : ℤ → PaymentEvent → Error → Books Db → Books Db
failed_books now e x b = record b {
  events =
      mark_event e.provider e.event_id (failed_event x)
        (mark_event e.provider e.event_id (claimed now) b.events);
}

-- The books after the first statement of a pass.
abbrev pub leased : ℤ → Books Db → Books Db
leased now b = record b { events = map (expire_lease now) b.events }

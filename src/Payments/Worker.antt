-- ===== src/Payments/Worker.antt =====
-- payments/worker.go: the loop around ProcessPending, its backoff and its dead letters.
pub mod Backoff
use ai_credits.Prelude.{Bool, List, Option, Str, [], false, if◌then◌else◌, none, some, ◌++◌, ◌∷◌}
use ai_credits.Credits.Errors.{Result, err, ok}
use ai_credits.Payments.{Books, BooksStep, PaymentEvent, ProcessStatus}
use ai_credits.Prelude.Int.{leb_ℤ, ltb_ℤ, pos, ℤ, ◌+ℤ◌}

-- WorkerConfig. `dead_letter` says whether there is a function to call; the logger is left out.
pub record WorkerConfig : Type 0 where
  pub interval : ℤ
  pub batch : ℤ
  pub max_attempts : ℤ
  pub dead_letter : Bool

-- `time.Second`
abbrev pub second : ℤ
second = pos 1000000000

abbrev pub positive_or : ℤ → ℤ → ℤ
positive_or n d = if leb_ℤ n (pos 0) then d else n

unfoldable pub new_worker : WorkerConfig → WorkerConfig
new_worker config = record config {
  interval = positive_or config.interval (pos 10000000000);
  batch = positive_or config.batch (pos 100);
  max_attempts = positive_or config.max_attempts (pos 10);
}

-- WHERE process_status = 'failed' AND attempt_count >= ?
abbrev pub is_dead : ℤ → PaymentEvent → Bool
is_dead limit e = elim e.process_status [
  | ProcessStatus.failed ↦ leb_ℤ limit (pos e.attempt_count)
  | _ ↦ false
]

unfoldable pub dead_events : ℤ → List PaymentEvent → List PaymentEvent
dead_events limit [] = []
dead_events limit (e ∷ rest) =
    if is_dead limit e then e ∷ dead_events limit rest else dead_events limit rest

-- `checkDeadLetter`: the events that are handed over. An error of the query is dropped.
unfoldable pub check_dead_letter : WorkerConfig → Option Str → List PaymentEvent → List PaymentEvent
check_dead_letter config (some x) events = []
check_dead_letter config none events =
    if config.dead_letter then dead_events config.max_attempts events else []

-- `if backoff < 30*time.Second { backoff *= 2 }`
unfoldable pub next_backoff : ℤ → ℤ
next_backoff backoff = if ltb_ℤ backoff (pos 30000000000) then backoff +ℤ backoff else backoff

-- What the loop has done so far: its next backoff, how long it has waited after errors, newest
-- first, and what it has handed over.
pub record WorkerState (L : Type 0) : Type 0 where
  pub books : Books L
  pub backoff : ℤ
  pub waits : List ℤ
  pub handed : List PaymentEvent

-- The rest of a tick, from the end of ProcessPending on. The select that waits is a wait of the
-- whole backoff: a context that is cancelled ends the run.
abbrev pub ticked :
    {L : Type 0}
    → WorkerConfig
    → Option Str
    → WorkerState L
    → Result (Unit {0}) × Books L
    → WorkerState L
ticked config query s (err e, b) = record {
  books = b;
  backoff = next_backoff s.backoff;
  waits = s.backoff ∷ s.waits;
  handed = check_dead_letter config query b.events ++ s.handed;
}
ticked config query s (ok u, b) = record {
  books = b;
  backoff = second;
  waits = s.waits;
  handed = check_dead_letter config query b.events ++ s.handed;
}

-- One tick of the loop: `pass` is ProcessPending with the batch size, `query` the error of the query
-- for dead letters.
unfoldable pub tick :
    {L : Type 0} → WorkerConfig → (ℤ → BooksStep L) → Option Str → WorkerState L → WorkerState L
tick config pass query s = ticked config query s (pass config.batch s.books)

-- `Run` from its start to the cancellation of its context, as the ticks in between.
unfoldable pub run_worker :
    {L : Type 0}
    → WorkerConfig
    → List ((ℤ → BooksStep L) × Option Str)
    → WorkerState L
    → WorkerState L
run_worker config [] s = s
run_worker config ((pass, query) ∷ rest) s = run_worker config rest (tick config pass query s)

abbrev pub worker_start : {L : Type 0} → Books L → WorkerState L
worker_start b = record { books = b; backoff = second; waits = []; handed = [] }

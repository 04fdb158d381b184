-- ===== src/Payments/Worker/Backoff.antt =====
-- payments/worker.go: how long the loop waits after errors.
use ai_credits.Prelude.{
  List, Option, Str, [], ap, arith, if◌then◌else◌, leb, length, refl, suc, zero, ℕ, ◌*◌, ◌+◌, ◌^◌,
  ◌∙◌, ◌∷◌, ◌≡◌,
}
use ai_credits.Credits.Errors.{Error, Result, err, ok}
use ai_credits.Payments.{Books, BooksStep}
use ai_credits.Payments.Worker.{WorkerConfig, WorkerState, next_backoff, run_worker, tick, ticked}
use ai_credits.Prelude.Int.{pos, ℤ, ◌+ℤ◌}

-- Every pass fails, on whatever books.
abbrev pub AllFail : {L : Type 0} → List ((ℤ → BooksStep L) × Option Str) → Type 0
AllFail [] = Unit
AllFail ((pass, query) ∷ rest) =
    ((n : ℤ) (b : Books _) → (x : Error) × ((pass n b).0 ≡ err x)) × AllFail rest

-- The backoff before the wait after the n-th error in a row: 1, 2, 4, 8, 16 and then 32 seconds.
abbrev pub doubled : ℕ → ℤ
doubled n = pos (1000000000 * 2 ^ (if leb n 5 then n else 5))

ticked-fails :
    {L : Type 0} (config : WorkerConfig) (query : Option Str) (s : WorkerState L)
    (out : Result (Unit {0}) × Books L) (x : Error)
    → out.0 ≡ err x
    → ((ticked config query s out).backoff ≡ next_backoff s.backoff)
      × ((ticked config query s out).waits ≡ s.backoff ∷ s.waits)
ticked-fails config query s (err e, b) x h = (refl, refl)
ticked-fails config query s (ok u, b) x h = absurd (ground arith)

-- The waits after `k` more errors in a row, from the n-th on, newest first.
abbrev pub waits_from : ℕ → ℕ → List ℤ → List ℤ
waits_from n zero waits = waits
waits_from n (suc k) waits = waits_from (suc n) k (doubled n ∷ waits)

no_more : (n : ℕ) → n ≡ n + 0
no_more n = omega arith

one_more : (n k : ℕ) → suc n + k ≡ n + suc k
one_more n k = omega arith

next_backoff-doubled : (n : ℕ) → next_backoff (doubled n) ≡ doubled (suc n)
unfolding next_backoff ◌+ℤ◌
next_backoff-doubled zero = refl
next_backoff-doubled (suc zero) = refl
next_backoff-doubled (suc (suc zero)) = refl
next_backoff-doubled (suc (suc (suc zero))) = refl
next_backoff-doubled (suc (suc (suc (suc zero)))) = refl
next_backoff-doubled (suc (suc (suc (suc (suc n))))) = ground arith

-- While every pass fails, the worker waits after each, and the n-th wait in a row, counted from 0, is
-- 2 ^ n seconds, but at most 32: 1, 2, 4, 8 and 16 seconds and from then on 32. Its backoff is then
-- the next of these.
pub backoff_doubles :
    {L : Type 0} (config : WorkerConfig) (ticks : List ((ℤ → BooksStep L) × Option Str))
    (s : WorkerState L) (n : ℕ)
    → AllFail ticks
    → s.backoff ≡ doubled n
    → ((run_worker config ticks s).waits ≡ waits_from n (length ticks) s.waits)
      × ((run_worker config ticks s).backoff ≡ doubled (n + length ticks))
unfolding run_worker tick
backoff_doubles config [] s n f h = (refl, h ∙ ap doubled (no_more n))
backoff_doubles config ((pass, query) ∷ rest) s n f h =
    let (x, failed) = f.0 config.batch s.books in
    let (more, waited) = ticked-fails config query s (pass config.batch s.books) x failed in
    let (waits, backoff) =
      backoff_doubles config rest (tick config pass query s) (suc n) f.1
        (more ∙ ap next_backoff h ∙ next_backoff-doubled n) in
    (
      waits ∙ ap (waits_from (suc n) (length rest)) (waited ∙ ap (λ x. x ∷ s.waits) h),
      backoff ∙ ap doubled (one_more n (length rest)),
    )

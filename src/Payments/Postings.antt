-- ===== src/Payments/Postings.antt =====
-- payments/payments.go: what processOne asks of the ledger, on both of its paths.
use ai_credits.Prelude.{Str, codes, if◌then◌else◌, ◌++◌}
use ai_credits.Credits.Db.{Db, Env, Tx}
use ai_credits.Credits.Errors.{Result, duplicate_grant, err, ok}
use ai_credits.Credits.Ledger.{grant, grant_tx, refund, refund_tx}
use ai_credits.Payments.{EventStatus, PaymentEvent, Purchase}
use ai_credits.Prelude.Int.{leb_ℤ, ltb_ℤ, pos, ℤ}
use ai_credits.Prelude.Int64.{add64, div64, mul64, sub64}

-- The implementation of the interface `Ledger` that the service holds, on a ledger of its own.
pub record Ledger (L : Type 0) : Type 0 where
  pub post_grant : Str → ℤ → Str → Str → Str → L → Result (Unit {0}) × L
  pub post_refund : Str → ℤ → Str → Str → Str → L → Result (Unit {0}) × L

-- The service of credits/ as such an implementation.
abbrev pub credits_ledger : Env → Ledger Db
credits_ledger env = record { post_grant = grant env; post_refund = refund env }

abbrev pub min_ℤ : ℤ → ℤ → ℤ
min_ℤ a b = if leb_ℤ a b then a else b

-- How many credits an event takes back, in int64. A positive `reversed_minor` is the total that the
-- provider has given back so far, and stands for its share of the credits, rounded up.
unfoldable pub reversal_amount : Purchase → ℤ → ℤ
reversal_amount p minor =
    if ltb_ℤ (pos 0) minor
    then sub64
        (div64
          (sub64 (add64 (mul64 p.credit_amount (min_ℤ minor p.amount_minor)) p.amount_minor)
            (pos 1))
          p.amount_minor)
        p.reversed_credits
    else sub64 p.credit_amount p.reversed_credits

-- Idempotency keys and reasons of the ledger rows.
abbrev pub payment_key : Str → Str → Str
payment_key provider payment = codes "payment:" ++ (provider ++ (codes ":" ++ payment))

abbrev pub reversal_key : Str → Str → Str
reversal_key provider event = codes "reversal:" ++ (provider ++ (codes ":" ++ event))

abbrev pub purchase_reason : Purchase → Str
purchase_reason p = codes "purchase " ++ p.id

abbrev pub reversal_reason : Purchase → Str
reversal_reason p = codes "reversal " ++ p.id

-- `errors.Is(ledgerErr, credits.ErrDuplicateGrant)`: the ledger has the row already.
unfoldable pub forgive : Result (Unit {0}) → Result (Unit {0})
forgive (err duplicate_grant) = ok tt
forgive r = r

-- The same on what a body in a transaction has done.
abbrev pub forgive_result : Db → Result (Unit {0} × Db) → Result (Unit {0} × Db)
forgive_result db (ok x) = ok x
forgive_result db (err duplicate_grant) = ok (tt, db)
forgive_result db (err e) = err e

unfoldable pub forgive_tx : Tx (Unit {0}) → Tx (Unit {0})
forgive_tx body db = forgive_result db (body db)

abbrev pub reverse_tx : Env → Purchase → PaymentEvent → Tx (Unit {0})
reverse_tx env p e db =
    let amount = reversal_amount p e.reversed_minor in
    if ltb_ℤ (pos 0) amount
    then forgive_tx
        (refund_tx env p.user_id amount e.provider (reversal_reason p)
          (reversal_key e.provider e.event_id))
        db
    else ok (tt, db)

abbrev pub grant_payment_tx : Env → Purchase → PaymentEvent → Tx (Unit {0})
grant_payment_tx env p e = forgive_tx (
    grant_tx env p.user_id p.credit_amount e.provider (purchase_reason p)
      (payment_key e.provider e.payment_id))

-- The ledger's part of the transaction of processOne.
unfoldable pub ledger_tx : EventStatus → Env → Purchase → PaymentEvent → Tx (Unit {0})
ledger_tx EventStatus.paid env p e = grant_payment_tx env p e
ledger_tx EventStatus.refunded env p e = reverse_tx env p e
ledger_tx EventStatus.disputed env p e = reverse_tx env p e

-- The ledger's part, where the ledger is another implementation: a call of its own.
unfoldable pub ledger_call :
    {L : Type 0} → EventStatus → Ledger L → Purchase → PaymentEvent → L → Result (Unit {0}) × L
ledger_call EventStatus.paid ledger p e l =
    ledger.post_grant p.user_id p.credit_amount e.provider (purchase_reason p)
      (payment_key e.provider e.payment_id) l
ledger_call _ ledger p e l =
    let amount = reversal_amount p e.reversed_minor in
    if ltb_ℤ (pos 0) amount
    then ledger.post_refund p.user_id amount e.provider (reversal_reason p)
        (reversal_key e.provider e.event_id) l
    else (ok tt, l)

-- ===== src/Payments/Process/Calls.antt =====
-- payments/payments.go: what a call of credits/ through the interface Ledger does.
use ai_credits.Prelude.{
  Bool, Bool-cases, Option, Option-cases, Str, ap, arith, false, if◌then◌else◌, inl, inr, none,
  refl, some, subst, sym, true, ◌∙◌, ◌≡◌,
}
use ai_credits.Credits.Accounts.{key_used}
use ai_credits.Credits.Db.{Db, Env, Kind, Tx, checked, commit_tx, in_tx}
use ai_credits.Credits.Errors.{Error, Result, duplicate_grant, err, ok}
use ai_credits.Credits.Ledger.{adjust, adjust_checks, adjust_rows, grant, refund}
use ai_credits.Credits.Ledger.Outcome.{grant_outcome}
use ai_credits.Credits.Sound.Effect.{Effect, grant-Effect, refund-Effect, unchanged}
use ai_credits.Credits.System.Books.{key_used-adjusted}
use ai_credits.Payments.{EventStatus, PaymentEvent, Purchase}
use ai_credits.Payments.Postings.{credits_ledger, forgive, ledger_call, payment_key}
use ai_credits.Payments.Process.Posting.{adjust_rows-duplicate, require_identifiers-duplicate}
use ai_credits.Prelude.Int.{leb_ℤ, pos, ℤ}

commit_tx-duplicate :
    (c : Option Str) (db db' : Db) (r : Result (Unit {0} × Db))
    → commit_tx c db r ≡ (err duplicate_grant, db')
    → r ≡ err duplicate_grant
commit_tx-duplicate c db db' (err e) h = ground arith
commit_tx-duplicate none db db' (ok (u, d)) h = absurd (ground arith)
commit_tx-duplicate (some x) db db' (ok (u, d)) h = absurd (ground arith)

in_tx-duplicate :
    (env : Env) (body : Tx (Unit {0})) (db db' : Db)
    → in_tx env body db ≡ (err duplicate_grant, db')
    → body db ≡ err duplicate_grant
unfolding in_tx
in_tx-duplicate env body db db' h = elim (Option-cases env.begin) [
  | inr (x, b) ↦ absurd (ground (arith, rw b at h))
  | inl b ↦ commit_tx-duplicate env.commit db db' (body db) (rw b at h)
]

adjust-duplicate :
    (env : Env) (user : Str) (amount : ℤ) (source reason key : Str) (kind : Kind) (db db' : Db)
    → adjust env user amount source reason key kind db ≡ (err duplicate_grant, db')
    → key_used key db.transactions ≡ true
unfolding adjust
adjust-duplicate env user amount source reason key kind db db' h =
    go (adjust_checks user source reason key) refl h
  where
    go :
        (r : Result (Unit {0}))
        → adjust_checks user source reason key ≡ r
        → checked r (in_tx env (adjust_rows env user amount source reason key kind)) db
          ≡ (err duplicate_grant, db')
        → key_used key db.transactions ≡ true
    go (err x) c k = absurd (require_identifiers-duplicate _ (c ∙ ground arith))
    go (ok u) c k =
        adjust_rows-duplicate env user amount source reason key kind db
          (in_tx-duplicate env (adjust_rows env user amount source reason key kind) db db' k)

-- A call of the ledger that is forgiven has an effect of credits/, and after a paid event the key of
-- the payment is in the ledger.
abbrev pub CallEnds : EventStatus → PaymentEvent → Db → Result (Unit {0}) × Db → Type 0
CallEnds status e db out =
    Effect db out.1
    × (forgive out.0 ≡ ok tt
        → status ≡ EventStatus.paid
        → key_used (payment_key e.provider e.payment_id) out.1.transactions ≡ true)

forgive-err : (x : Error) → forgive (err x) ≡ ok tt → x ≡ duplicate_grant
unfolding forgive
forgive-err duplicate_grant h = refl
forgive-err x h = absurd (ground arith)

grant-duplicate :
    (env : Env) (user : Str) (amount : ℤ) (source reason key : Str) (db db' : Db)
    → grant env user amount source reason key db ≡ (err duplicate_grant, db')
    → key_used key db.transactions ≡ true
unfolding grant
grant-duplicate env user amount source reason key db db' h =
    elim (Bool-cases (leb_ℤ amount (pos 0))) [
      | inl q ↦ absurd (ground (arith, rw q at h))
      | inr q ↦ adjust-duplicate env user amount source reason key Kind.grant db db' (rw q at h)
    ]

grant-used :
    (env : Env) (user : Str) (amount : ℤ) (source reason key : Str) (db : Db)
    → forgive (grant env user amount source reason key db).0 ≡ ok tt
    → key_used key (grant env user amount source reason key db).1.transactions ≡ true
grant-used env user amount source reason key db h =
    elim (grant_outcome env user amount source reason key db) [
      | inl (x, q) ↦
          let same = forgive-err x (ap (λ o. forgive o.0) (sym q) ∙ h) in
          subst (λ o. key_used key o.1.transactions ≡ true) (sym q)
            (grant-duplicate env user amount source reason key db db
              (q ∙ ap (λ y. (err y, db)) same))
      | inr (_, (id, _, _, q)) ↦
          subst (λ o. key_used key o.1.transactions ≡ true) (sym q)
            (key_used-adjusted env id user amount source reason key Kind.grant db)
    ]

refund_call-Effect :
    (x : Bool) (env : Env) (user : Str) (amount : ℤ) (source reason key : Str) (db : Db)
    → Effect db (if x then refund env user amount source reason key db else (ok tt, db)).1
refund_call-Effect true env user amount source reason key db =
    refund-Effect env user amount source reason key db
refund_call-Effect false env user amount source reason key db = unchanged refl

pub ledger_call-CallEnds :
    (status : EventStatus) (env : Env) (p : Purchase) (e : PaymentEvent) (db : Db)
    → CallEnds status e db (ledger_call status (credits_ledger env) p e db)
unfolding ledger_call
ledger_call-CallEnds EventStatus.paid env p e db =
    (grant-Effect env _ _ _ _ _ db, λ h s. grant-used env _ _ _ _ _ db h)
ledger_call-CallEnds EventStatus.refunded env p e db =
    (refund_call-Effect _ env _ _ _ _ _ db, λ h s. ground arith)
ledger_call-CallEnds EventStatus.disputed env p e db =
    (refund_call-Effect _ env _ _ _ _ _ db, λ h s. ground arith)

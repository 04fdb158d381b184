-- ===== src/Payments/Process/Posting.antt =====
-- payments/payments.go: what the ledger's part of the transaction of processOne does.
use ai_credits.Prelude.{
  Bool-cases, List, Str, [], ap, arith, false, inl, inr, refl, sym, true, ◌∙◌, ◌∷◌, ◌≡◌, ◌⊎◌,
}
use ai_credits.Credits.Accounts.{key_used}
use ai_credits.Credits.Db.{Db, Env, Kind, Tx, lift, ◌>>◌}
use ai_credits.Credits.Errors.{Error, Result, duplicate_grant, err, grant_amount, ok}
use ai_credits.Credits.Ledger.{adjust_checks, adjust_rows, adjust_tx, grant_tx, refund_tx}
use ai_credits.Credits.Ledger.Laws.{adjust_rows-ok, adjust_tx_lem, adjusted}
use ai_credits.Credits.Validate.{require_identifier, require_identifiers}
use ai_credits.Payments.{PaymentEvent, Purchase}
use ai_credits.Payments.Postings.{
  forgive_result, forgive_tx, grant_payment_tx, payment_key, purchase_reason, reversal_amount,
  reversal_key, reversal_reason, reverse_tx,
}
use ai_credits.Prelude.Int.{leb_ℤ, ltb_ℤ, neg, pos, ℤ, ◌≤ℤ◌}

-- The checks of the identifiers do not end with a duplicate.
pub require_identifiers-duplicate :
    (l : List (Str × Str)) → require_identifiers l ≡ err duplicate_grant → ⊥
unfolding require_identifiers require_identifier
require_identifiers-duplicate [] h = ground arith
require_identifiers-duplicate ((name, value) ∷ rest) h =
    ground (arith, require_identifiers-duplicate rest)

pub adjust_rows-duplicate :
    (env : Env) (user : Str) (amount : ℤ) (source reason key : Str) (kind : Kind) (db : Db)
    → adjust_rows env user amount source reason key kind db ≡ err duplicate_grant
    → key_used key db.transactions ≡ true
unfolding adjust_rows
adjust_rows-duplicate env user amount source reason key kind db h = ground arith

adjust_tx-duplicate :
    (env : Env) (user : Str) (amount : ℤ) (source reason key : Str) (kind : Kind) (db : Db)
    → adjust_tx env user amount source reason key kind db ≡ err duplicate_grant
    → key_used key db.transactions ≡ true
adjust_tx-duplicate env user amount source reason key kind db h =
    go (adjust_checks user source reason key) refl
      (ap (λ m. m db) (sym (adjust_tx_lem env user amount source reason key kind)) ∙ h)
  where
    go :
        (r : Result (Unit {0}))
        → adjust_checks user source reason key ≡ r
        → (lift r >> adjust_rows env user amount source reason key kind) db ≡ err duplicate_grant
        → key_used key db.transactions ≡ true
    go (ok u) c h = adjust_rows-duplicate env user amount source reason key kind db h
    go (err x) c h = absurd (require_identifiers-duplicate _ (c ∙ ground arith))

-- What a posting under a key has done that succeeds or is forgiven.
abbrev pub Posts : Env → Str → ℤ → Str → Str → Str → Kind → Db → Db → Type 0
Posts env user amount source reason key kind db db' =
    ((key_used key db.transactions ≡ true) × (db' ≡ db))
    ⊎ ((id : Str) × (key_used key db.transactions ≡ false)
        × (db' ≡ adjusted env id user amount source reason key kind db))

adjust_tx-ok :
    (env : Env) (user : Str) (amount : ℤ) (source reason key : Str) (kind : Kind) (db db' : Db)
    → adjust_tx env user amount source reason key kind db ≡ ok (tt, db')
    → (id : Str) × (key_used key db.transactions ≡ false)
      × (db' ≡ adjusted env id user amount source reason key kind db)
adjust_tx-ok env user amount source reason key kind db db' h =
    go (adjust_checks user source reason key)
      (ap (λ m. m db) (sym (adjust_tx_lem env user amount source reason key kind)) ∙ h)
  where
    go :
        (r : Result (Unit {0}))
        → (lift r >> adjust_rows env user amount source reason key kind) db ≡ ok (tt, db')
        → (id : Str) × (key_used key db.transactions ≡ false)
          × (db' ≡ adjusted env id user amount source reason key kind db)
    go (err x) h = absurd (ground arith)
    go (ok u) h =
        let (id, _, _, new, e) = adjust_rows-ok env user amount source reason key kind db db' h in
        (id, new, e)

forgive_tx-ok :
    (body : Tx (Unit {0})) (db db' : Db)
    → forgive_tx body db ≡ ok (tt, db')
    → (body db ≡ ok (tt, db')) ⊎ ((body db ≡ err duplicate_grant) × (db' ≡ db))
unfolding forgive_tx
forgive_tx-ok body db db' h = go (body db) refl
  where
    go :
        (r : Result (Unit × Db))
        → body db ≡ r
        → (body db ≡ ok (tt, db')) ⊎ ((body db ≡ err duplicate_grant) × (db' ≡ db))
    go (ok x) e = inl (ground arith)
    go (err duplicate_grant) e = inr (e, ground arith)
    go (err x) e = absurd (ground arith)

-- A forgiven posting.
forgiven_adjust-Posts :
    (env : Env) (user : Str) (amount : ℤ) (source reason key : Str) (kind : Kind) (db db' : Db)
    → forgive_tx (adjust_tx env user amount source reason key kind) db ≡ ok (tt, db')
    → Posts env user amount source reason key kind db db'
forgiven_adjust-Posts env user amount source reason key kind db db' h =
    elim (forgive_tx-ok (adjust_tx env user amount source reason key kind) db db' h) [
      | inl p ↦ inr (adjust_tx-ok env user amount source reason key kind db db' p)
      | inr (p, e) ↦ inl (adjust_tx-duplicate env user amount source reason key kind db p, e)
    ]

forgive_tx-cong :
    (m m' : Tx (Unit {0})) (db : Db) → m db ≡ m' db → forgive_tx m db ≡ forgive_tx m' db
unfolding forgive_tx
forgive_tx-cong m m' db e = ap (forgive_result db) e

forgive_tx-err :
    (m : Tx (Unit {0})) (x : Error) (db db' : Db)
    → m db ≡ err x
    → (x ≡ duplicate_grant → ⊥)
    → forgive_tx m db ≡ ok (tt, db')
    → ⊥
forgive_tx-err m x db db' e other h = elim (forgive_tx-ok m db db' h) [
  | inl p ↦ ground (arith, e, p)
  | inr (p, _) ↦ other (ground (arith, e, p))
]

-- The credits of a paid purchase.
pub grant_payment_tx-Posts :
    (env : Env) (p : Purchase) (e : PaymentEvent) (db db' : Db)
    → grant_payment_tx env p e db ≡ ok (tt, db')
    → Posts env p.user_id p.credit_amount e.provider
        (purchase_reason p)
        (payment_key e.provider e.payment_id)
        Kind.grant
        db
        db'
unfolding grant_tx
grant_payment_tx-Posts env p e db db' h = elim (Bool-cases (leb_ℤ p.credit_amount (pos 0))) [
  | inl q ↦ absurd (forgive_tx-err _ grant_amount db db' (rw q refl) (λ x. ground arith) h)
  | inr q ↦
      forgiven_adjust-Posts env _ _ _ _ _ _ db db' (sym (forgive_tx-cong _ _ db (rw q refl)) ∙ h)
]

-- The credits that a reversal takes back, if its amount is positive.
pub reverse_tx-positive :
    (env : Env) (p : Purchase) (e : PaymentEvent) (db db' : Db)
    → ltb_ℤ (pos 0) (reversal_amount p e.reversed_minor) ≡ true
    → reverse_tx env p e db ≡ ok (tt, db')
    → Posts env p.user_id
        (neg (reversal_amount p e.reversed_minor))
        e.provider
        (reversal_reason p)
        (reversal_key e.provider e.event_id)
        Kind.refund
        db
        db'
unfolding refund_tx
reverse_tx-positive env p e db db' q h =
    forgiven_adjust-Posts env _ _ _ _ _ _ db db'
      (sym (forgive_tx-cong _ _ db (rw small refl)) ∙ (rw q at h))
  where
    small : leb_ℤ (reversal_amount p e.reversed_minor) (pos 0) ≡ false
    small = ground arith

pub reverse_tx-Posts :
    (env : Env) (p : Purchase) (e : PaymentEvent) (db db' : Db)
    → reverse_tx env p e db ≡ ok (tt, db')
    → (db' ≡ db)
      ⊎ ((pos 1 ≤ℤ reversal_amount p e.reversed_minor)
          × Posts env p.user_id
              (neg (reversal_amount p e.reversed_minor))
              e.provider
              (reversal_reason p)
              (reversal_key e.provider e.event_id)
              Kind.refund
              db
              db')
reverse_tx-Posts env p e db db' h =
    elim (Bool-cases (ltb_ℤ (pos 0) (reversal_amount p e.reversed_minor))) [
      | inr q ↦ inl (ground (arith, rw q at h))
      | inl q ↦ inr (ground arith, reverse_tx-positive env p e db db' q h)
    ]

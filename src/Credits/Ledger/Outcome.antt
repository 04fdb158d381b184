-- ===== src/Credits/Ledger/Outcome.antt =====
-- credits/ledger.go: how Grant and Refund end, whatever errors they meet.
use ai_credits.Prelude.{
  Bool-cases, Str, [], ap, arith, false, if◌then◌else◌, inl, inr, refl, some, str_eq, true, ◌∙◌,
  ◌∷◌, ◌≡◌, ◌⊎◌,
}
use ai_credits.Credits.Accounts.{balance_of, key_used, transaction_id_used}
use ai_credits.Credits.Accounts.Laws.{balance_of-upsert_balance}
use ai_credits.Credits.Db.{Db, Env, Kind, Transaction, calm, checked, in_tx}
use ai_credits.Credits.Db.Laws.{in_tx-Ends}
use ai_credits.Credits.Errors.{Error, Result, duplicate_grant, err, grant_amount, ok, refund_amount}
use ai_credits.Credits.Ledger.{adjust, adjust_checks, adjust_row, adjust_rows, grant, refund}
use ai_credits.Credits.Ledger.Laws.{adjust_rows-ok, adjusted, in_tx-adjust_rows-calm}
use ai_credits.Credits.Validate.{require_identifiers}
use ai_credits.Credits.Validate.Laws.{IsIdentifier, IsIdentifier-all}
use ai_credits.Prelude.Int.{int_laws, leb_ℤ, neg, pos, ℤ, ◌+ℤ◌, ◌≤ℤ◌}

-- The call fails and leaves the database as it was, or the key is new and it is adjusted once.
abbrev pub AdjustEnds :
    Env → Str → ℤ → Str → Str → Str → Kind → Db → Result (Unit {0}) × Db → Type 0
AdjustEnds env user amount source reason key kind db out =
    ((e : Error) × (out ≡ (err e, db)))
    ⊎ ((id : Str) × (env.new_id ≡ some id)
        × (key_used key db.transactions ≡ false)
        × (out ≡ (ok tt, adjusted env id user amount source reason key kind db)))

pub adjust-Ends :
    (env : Env) (user : Str) (amount : ℤ) (source reason key : Str) (kind : Kind) (db : Db)
    → AdjustEnds env user amount source reason key kind db
        (adjust env user amount source reason key kind db)
unfolding adjust
adjust-Ends env user amount source reason key kind db = go (adjust_checks user source reason key)
  where
    go :
        (r : Result (Unit {0}))
        → AdjustEnds env user amount source reason key kind db
            (checked r (in_tx env (adjust_rows env user amount source reason key kind)) db)
    go (err e) = inl (e, refl)
    go (ok u) = elim (in_tx-Ends env (adjust_rows env user amount source reason key kind) db) [
      | inl (e, p) ↦ inl (e, p)
      | inr (u, db', q, p) ↦
          let (id, made, _, new, e) =
            adjust_rows-ok env user amount source reason key kind db db' q in
          inr (id, made, new, rw p (ap (λ d. (ok tt, d)) e))
    ]

-- In whatever environment, a grant fails and leaves the database as it was, or its amount is
-- positive, its key is in no ledger row yet, and exactly one row and the balance are written.
pub grant_outcome :
    (env : Env) (user : Str) (amount : ℤ) (source reason key : Str) (db : Db)
    → ((e : Error) × (grant env user amount source reason key db ≡ (err e, db)))
      ⊎ ((pos 1 ≤ℤ amount)
          × ((id : Str) × (env.new_id ≡ some id)
              × (key_used key db.transactions ≡ false)
              × (grant env user amount source reason key db
                  ≡ (ok tt, adjusted env id user amount source reason key Kind.grant db))))
unfolding grant
grant_outcome env user amount source reason key db = elim (Bool-cases (leb_ℤ amount (pos 0))) [
  | inl p ↦ rw p (inl (grant_amount, refl))
  | inr p ↦ elim (adjust-Ends env user amount source reason key Kind.grant db) [
    | inl (e, q) ↦ rw p (inl (e, q))
    | inr (id, made, new, q) ↦ rw p (inr (ground arith, (id, made, new, q)))
  ]
]

-- In whatever environment, a refund fails and leaves the database as it was, or its amount is
-- positive, its key is in no ledger row yet, and the amount is taken from the balance by one row.
pub refund_outcome :
    (env : Env) (user : Str) (amount : ℤ) (source reason key : Str) (db : Db)
    → ((e : Error) × (refund env user amount source reason key db ≡ (err e, db)))
      ⊎ ((pos 1 ≤ℤ amount)
          × ((id : Str) × (env.new_id ≡ some id)
              × (key_used key db.transactions ≡ false)
              × (refund env user amount source reason key db
                  ≡ (ok tt, adjusted env id user (neg amount) source reason key Kind.refund db))))
unfolding refund
refund_outcome env user amount source reason key db = elim (Bool-cases (leb_ℤ amount (pos 0))) [
  | inl p ↦ rw p (inl (refund_amount, refl))
  | inr p ↦ elim (adjust-Ends env user (neg amount) source reason key Kind.refund db) [
    | inl (e, q) ↦ rw p (inl (e, q))
    | inr (id, made, new, q) ↦ rw p (inr (ground arith, (id, made, new, q)))
  ]
]

-- One entry for the user under the key: every balance, the new ledger row, and the reservations.
pub record IsEntry (user : Str) (amount : ℤ) (key : Str) (db db' : Db) : Type 0 where
  pub balances :
      (v : Str)
      → balance_of v db'.accounts
        ≡ (if str_eq user v then balance_of v db.accounts +ℤ amount else balance_of v db.accounts)
  pub row : Transaction
  pub appended : db'.transactions ≡ row ∷ db.transactions
  pub row_user : row.user_id ≡ user
  pub row_amount : row.amount ≡ amount
  pub row_key : row.idempotency_key ≡ some key
  pub held : db'.reservations ≡ db.reservations

adjusted-IsEntry :
    (env : Env) (id user : Str) (amount : ℤ) (source reason key : Str) (kind : Kind) (db : Db)
    → IsEntry user amount key db (adjusted env id user amount source reason key kind db)
adjusted-IsEntry env id user amount source reason key kind db = record {
  balances = λ v. balance_of-upsert_balance user v amount env.now db.accounts;
  row = adjust_row env id user amount source reason key kind;
  appended = refl;
  row_user = refl;
  row_amount = refl;
  row_key = refl;
  held = refl;
}

no_identifiers : require_identifiers [] ≡ ok tt
unfolding require_identifiers
no_identifiers = refl

identifiers-ok :
    (user source reason key : Str)
    → IsIdentifier user
    → IsIdentifier source
    → IsIdentifier reason
    → IsIdentifier key
    → adjust_checks user source reason key ≡ ok tt
identifiers-ok user source reason key u s r k = IsIdentifier-all _ user _ u (
    IsIdentifier-all _ source _ s
      (IsIdentifier-all _ reason _ r (IsIdentifier-all _ key [] k no_identifiers)))

adjust-calm :
    (now : ℤ) (id user : Str) (amount : ℤ) (source reason key : Str) (kind : Kind) (db : Db)
    → transaction_id_used id db.transactions ≡ false
    → adjust_checks user source reason key ≡ ok tt
    → adjust (calm now id) user amount source reason key kind db ≡ (
        if key_used key db.transactions
        then (err duplicate_grant, db)
        else (ok tt, adjusted (calm now id) id user amount source reason key kind db))
unfolding adjust
adjust-calm now id user amount source reason key kind db fresh good =
    rw good (in_tx-adjust_rows-calm now id user amount source reason key kind db fresh)

-- Where the driver reports no error, the new id is new and the four identifiers are neither blank nor
-- longer than 512 bytes, a grant of a positive amount under a key that no ledger row has succeeds: it
-- adds the amount to the balance of the user and to no other, appends one ledger row of the user, the
-- amount and the key, and leaves the reservations. Under a key that a row has, or with an amount that
-- is not positive, it fails and changes nothing.
pub grant_lem :
    (now : ℤ) (id user : Str) (amount : ℤ) (source reason key : Str) (db : Db)
    → transaction_id_used id db.transactions ≡ false
    → IsIdentifier user
    → IsIdentifier source
    → IsIdentifier reason
    → IsIdentifier key
    → (pos 1 ≤ℤ amount
        → key_used key db.transactions ≡ false
        → (db' : Db) × (grant (calm now id) user amount source reason key db ≡ (ok tt, db'))
          × IsEntry user amount key db db')
      × (pos 1 ≤ℤ amount
          → key_used key db.transactions ≡ true
          → grant (calm now id) user amount source reason key db ≡ (err duplicate_grant, db))
      × (amount ≤ℤ pos 0
          → grant (calm now id) user amount source reason key db ≡ (err grant_amount, db))
unfolding grant
grant_lem now id user amount source reason key db fresh u s r k = (
  (λ p new. (
    _,
    rw (positive p, done, new) refl,
    adjusted-IsEntry (calm now id) id user amount source reason key Kind.grant db,
  )),
  (λ p used. rw (positive p, done, used) refl),
  (λ p. rw (not_positive p) refl),
)
  where
    done : adjust (calm now id) user amount source reason key Kind.grant db ≡ (
        if key_used key db.transactions
        then (err duplicate_grant, db)
        else (ok tt, adjusted (calm now id) id user amount source reason key Kind.grant db))
    done =
        adjust-calm now id user amount source reason key Kind.grant db fresh
          (identifiers-ok user source reason key u s r k)

    positive : pos 1 ≤ℤ amount → leb_ℤ amount (pos 0) ≡ false
    positive p = ground arith

    not_positive : amount ≤ℤ pos 0 → leb_ℤ amount (pos 0) ≡ true
    not_positive p = ground arith

-- A successful grant followed by a refund of the same amount under another key leaves every balance
-- as it was before the two.
pub grant-refund_balance :
    (env env' : Env) (user v : Str) (amount : ℤ) (source reason key key' : Str) (db db1 db2 : Db)
    → grant env user amount source reason key db ≡ (ok tt, db1)
    → refund env' user amount source reason key' db1 ≡ (ok tt, db2)
    → balance_of v db2.accounts ≡ balance_of v db.accounts
grant-refund_balance env env' user v amount source reason key key' db db1 db2 g r =
    let (_, _, _, e) = granted in
    let (_, _, _, e') = refunded in
    let after =
      ap (λ d. balance_of v d.accounts) e
      ∙ balance_of-upsert_balance user v amount env.now db.accounts in
    let end =
      ap (λ d. balance_of v d.accounts) e'
      ∙ balance_of-upsert_balance user v (neg amount) env'.now db1.accounts in
    grind int_laws
  where
    granted :
        (id : Str) × (env.new_id ≡ some id)
        × (key_used key db.transactions ≡ false)
        × (db1 ≡ adjusted env id user amount source reason key Kind.grant db)
    granted = elim (grant_outcome env user amount source reason key db) [
      | inl (e, p) ↦ absurd (ground arith)
      | inr (_, (id, made, new, p)) ↦ (id, made, new, ground arith)
    ]

    refunded :
        (id : Str) × (env'.new_id ≡ some id)
        × (key_used key' db1.transactions ≡ false)
        × (db2 ≡ adjusted env' id user (neg amount) source reason key' Kind.refund db1)
    refunded = elim (refund_outcome env' user amount source reason key' db1) [
      | inl (e, p) ↦ absurd (ground arith)
      | inr (_, (id, made, new, p)) ↦ (id, made, new, ground arith)
    ]

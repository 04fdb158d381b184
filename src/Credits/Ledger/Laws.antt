-- ===== src/Credits/Ledger/Laws.antt =====
-- What the adjusting path of credits/ledger.go does, branch by branch.
use ai_credits.Prelude.{
  Bool-cases, Str, ap, arith, false, if◌then◌else◌, inl, inr, refl, some, ◌∷◌, ◌≡◌,
}
use ai_credits.Credits.Accounts.{key_used, transaction_id_used, upsert_balance}
use ai_credits.Credits.Db.{Db, Env, Kind, calm, checked, in_tx, lift, ◌>>◌}
use ai_credits.Credits.Db.Laws.{in_tx-committed}
use ai_credits.Credits.Errors.{Result, duplicate_grant, err, ok}
use ai_credits.Credits.Ledger.{
  adjust, adjust_checks, adjust_row, adjust_rows, adjust_tx, adjust_tx_rows,
}
use ai_credits.Prelude.Int.{ℤ}

-- The database after an adjustment.
abbrev pub adjusted : Env → Str → Str → ℤ → Str → Str → Str → Kind → Db → Db
adjusted env id user amount source reason key kind db = record db {
  accounts = upsert_balance user amount env.now db.accounts;
  transactions = adjust_row env id user amount source reason key kind ∷ db.transactions;
}

pub adjust_rows-ok :
    (env : Env) (user : Str) (amount : ℤ) (source reason key : Str) (kind : Kind) (db db' : Db)
    → adjust_rows env user amount source reason key kind db ≡ ok (tt, db')
    → (id : Str) × (env.new_id ≡ some id)
      × (transaction_id_used id db.transactions ≡ false)
      × (key_used key db.transactions ≡ false)
      × (db' ≡ adjusted env id user amount source reason key kind db)
unfolding adjust_rows
adjust_rows-ok env user amount source reason key kind db db' h = ground arith

-- The rows of an adjustment, where the driver reports no error.
pub adjust_rows-calm :
    (now : ℤ) (id user : Str) (amount : ℤ) (source reason key : Str) (kind : Kind) (db : Db)
    → transaction_id_used id db.transactions ≡ false
    → adjust_rows (calm now id) user amount source reason key kind db ≡ (
        if key_used key db.transactions
        then err duplicate_grant
        else ok (tt, adjusted (calm now id) id user amount source reason key kind db))
unfolding adjust_rows
adjust_rows-calm now id user amount source reason key kind db fresh = ground arith

pub in_tx-adjust_rows-calm :
    (now : ℤ) (id user : Str) (amount : ℤ) (source reason key : Str) (kind : Kind) (db : Db)
    → transaction_id_used id db.transactions ≡ false
    → in_tx (calm now id) (adjust_rows (calm now id) user amount source reason key kind) db ≡ (
        if key_used key db.transactions
        then (err duplicate_grant, db)
        else (ok tt, adjusted (calm now id) id user amount source reason key kind db))
unfolding in_tx
in_tx-adjust_rows-calm now id user amount source reason key kind db fresh =
    rw (adjust_rows-calm now id user amount source reason key kind db fresh)
      (elim (Bool-cases (key_used key db.transactions)) [ inl h ↦ rw h | inr h ↦ rw h ])

-- The copy of the body in `adjustTx` does the same.
pub adjust_tx_rows_lem :
    (env : Env) (user : Str) (amount : ℤ) (source reason key : Str) (kind : Kind)
    → adjust_tx_rows env user amount source reason key kind
      ≡ adjust_rows env user amount source reason key kind
unfolding adjust_rows adjust_tx_rows
adjust_tx_rows_lem env user amount source reason key kind = refl

pub adjust_tx_lem :
    (env : Env) (user : Str) (amount : ℤ) (source reason key : Str) (kind : Kind)
    → adjust_tx env user amount source reason key kind ≡ (
        lift (adjust_checks user source reason key)
        >> adjust_rows env user amount source reason key kind)
unfolding adjust_tx
adjust_tx_lem env user amount source reason key kind =
    ap (λ m. lift (adjust_checks user source reason key) >> m)
      (adjust_tx_rows_lem env user amount source reason key kind)

-- What a call of `adjust` has done that succeeds, in whatever environment.
pub adjust-ok :
    (env : Env) (user : Str) (amount : ℤ) (source reason key : Str) (kind : Kind) (db db' : Db)
    → adjust env user amount source reason key kind db ≡ (ok tt, db')
    → (id : Str) × (adjust_checks user source reason key ≡ ok tt)
      × (key_used key db.transactions ≡ false)
      × (db' ≡ adjusted env id user amount source reason key kind db)
unfolding adjust
adjust-ok env user amount source reason key kind db db' h =
    go (adjust_checks user source reason key) refl h
  where
    go :
        (r : Result (Unit {0}))
        → adjust_checks user source reason key ≡ r
        → checked r (in_tx env (adjust_rows env user amount source reason key kind)) db
          ≡ (ok tt, db')
        → (id : Str) × (adjust_checks user source reason key ≡ ok tt)
          × (key_used key db.transactions ≡ false)
          × (db' ≡ adjusted env id user amount source reason key kind db)
    go (err e) c h = absurd (ground arith)
    go (ok u) c h =
        let body = in_tx-committed env _ db db' tt h in
        let (id, _, _, new, e) =
          adjust_rows-ok env user amount source reason key kind db db' body in
        (id, c, new, e)

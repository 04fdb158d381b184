-- ===== src/Credits/Ledger/Caller.antt =====
-- credits/ledger.go: Grant and Refund inside a transaction of the caller's.
use ai_credits.Prelude.{Bool-cases, Str, inl, inr, none, refl, sym, ◌∙◌, ◌≡◌}
use ai_credits.Credits.Db.{Db, Env, Tx, checked, commit_tx, in_tx, lift, ◌>>◌}
use ai_credits.Credits.Errors.{Result, err, ok}
use ai_credits.Credits.Ledger.{adjust, adjust_checks, grant, grant_tx, refund, refund_tx}
use ai_credits.Credits.Ledger.Laws.{adjust_tx_lem}
use ai_credits.Prelude.Int.{leb_ℤ, pos, ℤ}

in_tx-begun :
    {A : Type 0} (env : Env) (body : Tx A) (db : Db)
    → env.begin ≡ none
    → in_tx env body db ≡ commit_tx env.commit db (body db)
unfolding in_tx
in_tx-begun env body db fine = rw fine refl

-- Checks inside a transaction, and in front of it.
checks_commute :
    {A : Type 0} (env : Env) (r : Result (Unit {0})) (body : Tx A) (db : Db)
    → env.begin ≡ none
    → commit_tx env.commit db ((lift r >> body) db) ≡ checked r (in_tx env body) db
checks_commute env (err e) body db fine = refl
checks_commute env (ok u) body db fine = sym (in_tx-begun env body db fine)

-- If its begin succeeds, a transaction that holds only a `GrantTx`, or only a `RefundTx`, does what
-- `Grant`, or `Refund`, does, errors included.
pub grant_tx_lem :
    (env : Env) (user : Str) (amount : ℤ) (source reason key : Str) (db : Db)
    → env.begin ≡ none
    → (in_tx env (grant_tx env user amount source reason key) db
        ≡ grant env user amount source reason key db)
      × (in_tx env (refund_tx env user amount source reason key) db
          ≡ refund env user amount source reason key db)
unfolding grant_tx refund_tx grant refund adjust
grant_tx_lem env user amount source reason key db fine = (
  in_tx-begun env _ db fine ∙ elim (Bool-cases (leb_ℤ amount (pos 0))) [
    | inl p ↦ rw p refl
    | inr p ↦
        rw (p, adjust_tx_lem) (checks_commute env (adjust_checks user source reason key) _ db fine)
  ],
  in_tx-begun env _ db fine ∙ elim (Bool-cases (leb_ℤ amount (pos 0))) [
    | inl p ↦ rw p refl
    | inr p ↦
        rw (p, adjust_tx_lem) (checks_commute env (adjust_checks user source reason key) _ db fine)
  ],
)

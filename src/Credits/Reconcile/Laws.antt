-- ===== src/Credits/Reconcile/Laws.antt =====
-- The report of drift names exactly the users whose balance is not the sum of their ledger rows.
use ai_credits.Prelude.{
  Bool, Bool-cases, List, Str, [], arith, false, inl, inr, not, refl, str_eq, sym, true, ◌&&◌, ◌||◌,
  ◌↔◌, ◌∙◌, ◌∷◌, ◌≡◌, ◌≢◌,
}
use ai_credits.Credits.Accounts.{balance_of, ledger_total}
use ai_credits.Credits.Db.{Account, Db, Transaction}
use ai_credits.Credits.Reconcile.{Mismatch, all_users, has_user, ledger_users, mismatches, union}
use ai_credits.Prelude.Int.{eqb_ℤ, pos, ℤ}

-- Is a user named in the report?
unfoldable pub is_reported : Str → List Mismatch → Bool
is_reported u [] = false
is_reported u (m ∷ rest) = str_eq m.user_id u || is_reported u rest

mismatches-reported :
    (db : Db) (u : Str) (us : List Str)
    → is_reported u (mismatches db us)
      ≡ (has_user u us && not (eqb_ℤ (balance_of u db.accounts) (ledger_total u db.transactions)))
unfolding is_reported mismatches has_user
mismatches-reported db u [] = refl
mismatches-reported db u (v ∷ us) = ground (arith, mismatches-reported db u us)

has_user-union :
    (u v : Str) (us : List Str) → has_user u (union v us) ≡ (str_eq v u || has_user u us)
unfolding has_user
has_user-union u v us = ground arith

-- A user in neither table has balance 0 and no ledger row.
ledger_users-missing :
    (u : Str) (ts : List Transaction)
    → has_user u (ledger_users ts) ≡ false
    → ledger_total u ts ≡ pos 0
unfolding ledger_users ledger_total has_user
ledger_users-missing u [] h = refl
ledger_users-missing u (t ∷ rest) h =
    ground (arith, has_user-union u t.user_id (ledger_users rest), ledger_users-missing u rest)

all_users-missing :
    (u : Str) (accounts : List Account) (ts : List Transaction)
    → has_user u (all_users accounts ts) ≡ false
    → (balance_of u accounts ≡ pos 0) × (ledger_total u ts ≡ pos 0)
unfolding all_users balance_of
all_users-missing u [] ts h = (refl, ledger_users-missing u ts h)
all_users-missing u (a ∷ rest) ts h =
    ground (arith, has_user-union u a.user_id (all_users rest ts), all_users-missing u rest ts)

eqb_ℤ-refl : (a : ℤ) → eqb_ℤ a a ≡ true
eqb_ℤ-refl a = ground arith

eqb_ℤ→eq : (a b : ℤ) → eqb_ℤ a b ≡ true → a ≡ b
eqb_ℤ→eq a b h = ground arith

-- The report of drift names a user exactly if the balance is not the sum of the ledger rows.
pub mismatches_exact :
    (db : Db) (u : Str)
    → (is_reported u (mismatches db (all_users db.accounts db.transactions)) ≡ true)
      ↔ (balance_of u db.accounts ≢ ledger_total u db.transactions)
mismatches_exact db u = (sound, complete)
  where
    users : List Str
    users = all_users db.accounts db.transactions

    b : ℤ
    b = balance_of u db.accounts

    l : ℤ
    l = ledger_total u db.transactions

    sound : is_reported u (mismatches db users) ≡ true → b ≢ l
    sound h e =
        let same : eqb_ℤ b l ≡ true = rw (← e) (eqb_ℤ-refl b) in
        ground (arith, mismatches-reported db u users)

    complete : b ≢ l → is_reported u (mismatches db users) ≡ true
    complete n = elim (Bool-cases (has_user u users)) [
      | inr h ↦
          let (none_held, none_listed) = all_users-missing u db.accounts db.transactions h in
          absurd (n (none_held ∙ sym none_listed))
      | inl h ↦ elim (Bool-cases (eqb_ℤ b l)) [
        | inl same ↦ absurd (n (eqb_ℤ→eq b l same))
        | inr other ↦ mismatches-reported db u users ∙ rw (h, other)
      ]
    ]

-- Tables whose balances are the sums of their ledgers give an empty report.
pub mismatches-balanced :
    (db : Db) (us : List Str)
    → ((u : Str) → balance_of u db.accounts ≡ ledger_total u db.transactions)
    → mismatches db us ≡ []
unfolding mismatches
mismatches-balanced db [] h = refl
mismatches-balanced db (u ∷ us) h =
    rw (h u, eqb_ℤ-refl (ledger_total u db.transactions)) (mismatches-balanced db us h)

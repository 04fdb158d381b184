-- ===== src/Payments/Process/Keys.antt =====
-- credits/schema.sql: no idempotency key is in two rows of the ledger, whatever is called.
-- How many ledger rows have this key.
use ai_credits.Prelude.{
  Bool-cases, List, Str, [], arith, false, if◌then◌else◌, inl, inr, none, refl, some, str_eq,
  str_eq→eq, subst, suc, sym, true, ℕ, ◌∷◌, ◌≡◌, ◌≤◌,
}
use ai_credits.Credits.Accounts.{key_used}
use ai_credits.Credits.Db.{Db, Transaction}
use ai_credits.Credits.Sound.Effect.{Effect, adjusts, closes, holds, returns, unchanged}
use ai_credits.Credits.Sound.Keep.{Effect-Appends}
use ai_credits.Credits.System.Books.{key_used-append}

unfoldable pub key_count : Str → List Transaction → ℕ
key_count k [] = 0
key_count k (t ∷ rest) = elim t.idempotency_key [
  | none ↦ key_count k rest
  | some j ↦ if str_eq j k then suc (key_count k rest) else key_count k rest
]

-- No key is in two rows.
abbrev pub KeysOnce : List Transaction → Type 0
KeysOnce ts = (k : Str) → key_count k ts ≤ 1

key_count-unused : (k : Str) (ts : List Transaction) → key_used k ts ≡ false → key_count k ts ≡ 0
unfolding key_count key_used
key_count-unused k [] h = refl
key_count-unused k (t ∷ ts) h = ground (arith, key_count-unused k ts)

pub key_count-used : (k : Str) (ts : List Transaction) → key_used k ts ≡ true → 1 ≤ key_count k ts
unfolding key_count key_used
key_count-used k [] h = ground arith
key_count-used k (t ∷ ts) h = ground (arith, key_count-used k ts)

-- A row under a new key, and a row without a key.
keyed-KeysOnce :
    (t : Transaction) (key : Str) (ts : List Transaction)
    → t.idempotency_key ≡ some key
    → key_used key ts ≡ false
    → KeysOnce ts
    → KeysOnce (t ∷ ts)
unfolding key_count
keyed-KeysOnce t key ts e new once k = elim (Bool-cases (str_eq key k)) [
  | inl q ↦ rw (e, q) (held (str_eq→eq key k q))
  | inr q ↦ rw (e, q) (once k)
]
  where
    held : key ≡ k → suc (key_count k ts) ≤ 1
    held e =
        let z = key_count-unused key ts new in
        subst (λ j. suc (key_count j ts) ≤ 1) e (ground arith)

unkeyed-KeysOnce :
    (t : Transaction) (ts : List Transaction)
    → t.idempotency_key ≡ none
    → KeysOnce ts
    → KeysOnce (t ∷ ts)
unfolding key_count
unkeyed-KeysOnce t ts e once k = rw e (once k)

same_KeysOnce : (db db' : Db) → db' ≡ db → KeysOnce db.transactions → KeysOnce db'.transactions
same_KeysOnce db db' e once = subst (λ d. KeysOnce d.transactions) (sym e) once

pub Effect-KeysOnce :
    (db db' : Db) → Effect db db' → KeysOnce db.transactions → KeysOnce db'.transactions
Effect-KeysOnce db db' (unchanged e) once = same_KeysOnce _ db' e once
Effect-KeysOnce db db' (adjusts env id user amount source reason key kind new e) once =
    same_KeysOnce _ db' e (keyed-KeysOnce _ key db.transactions refl new once)
Effect-KeysOnce db db' (holds env rid user req amount can e) once =
    same_KeysOnce _ db' e (keyed-KeysOnce _ _ db.transactions refl can.new_key once)
Effect-KeysOnce db db' (closes i f u e) once = same_KeysOnce _ db' e once
Effect-KeysOnce db db' (returns i user f x t now u n e) once =
    same_KeysOnce _ db' e (unkeyed-KeysOnce t db.transactions n once)

pub Effect-used :
    (db db' : Db) (k : Str)
    → Effect db db'
    → key_used k db.transactions ≡ true
    → key_used k db'.transactions ≡ true
Effect-used db db' k eff h =
    let (new, e) = Effect-Appends db db' eff in rw e (key_used-append k new db.transactions h)

-- ===== src/Credits/Sound/Adjust.antt =====
-- Grants and refunds keep the tables sound.
use ai_credits.Prelude.{Bool-cases, List, Option, Str, arith, inl, inr, none, some, ◌∷◌, ◌≡◌, ◌≢◌}
use ai_credits.Credits.Accounts.{find_balance, upsert_balance}
use ai_credits.Credits.Accounts.Laws.{
  balance_of-upsert_balance, find_balance-upsert_balance, ledger_total-cons,
  upsert_balance-DistinctUsers,
}
use ai_credits.Credits.Db.{Account, Db, Env, Kind, Reservation, Transaction}
use ai_credits.Credits.Errors.{ok}
use ai_credits.Credits.Ledger.{adjust, adjust_checks, adjust_row, adjust_rows, grant, refund}
use ai_credits.Credits.Ledger.Laws.{adjust_rows-ok, adjusted}
use ai_credits.Credits.Sound.{IsHeld, IsSound, checked-IsSound, in_tx-IsSound, reference_sum}
use ai_credits.Prelude.Int.{leb_ℤ, neg, pos, ℤ}

-- An account that is known stays known.
find_balance-upsert_balance_ne :
    (u v : Str) (x now : ℤ) (accounts : List Account)
    → find_balance v accounts ≢ none
    → find_balance v (upsert_balance u x now accounts) ≢ none
find_balance-upsert_balance_ne u v x now accounts h =
    ground (arith, find_balance-upsert_balance u v x now accounts)

IsHeld-adjusted :
    (env : Env) (id user : Str) (amount : ℤ) (source reason key : Str) (kind : Kind) (i : Str)
    (o : Option Reservation) (accounts : List Account) (ts : List Transaction)
    → IsHeld i o accounts ts
    → IsHeld i o
        (upsert_balance user amount env.now accounts)
        (adjust_row env id user amount source reason key kind ∷ ts)
unfolding reference_sum
IsHeld-adjusted env id user amount source reason key kind i none accounts ts h = h
IsHeld-adjusted env id user amount source reason key kind i (some r) accounts ts h =
    (find_balance-upsert_balance_ne user r.user_id amount env.now accounts h.0, h.1, h.2, h.3)

pub adjusted-IsSound :
    (env : Env) (id user : Str) (amount : ℤ) (source reason key : Str) (kind : Kind) (db : Db)
    → IsSound db
    → IsSound (adjusted env id user amount source reason key kind db)
adjusted-IsSound env id user amount source reason key kind db s = record {
  users = upsert_balance-DistinctUsers user amount env.now db.accounts s.users;
  ids = s.ids;
  balanced = λ u. ground (
    arith,
    balance_of-upsert_balance user u amount env.now db.accounts,
    ledger_total-cons u (adjust_row env id user amount source reason key kind) db.transactions,
    s.balanced u,
  );
  held = λ i. IsHeld-adjusted env id user amount source reason key kind i _ _ _ (s.held i);
}

pub adjust_rows-IsSound :
    (env : Env) (user : Str) (amount : ℤ) (source reason key : Str) (kind : Kind) (db db' : Db)
    → IsSound db
    → adjust_rows env user amount source reason key kind db ≡ ok (tt, db')
    → IsSound db'
adjust_rows-IsSound env user amount source reason key kind db db' s h =
    let (id, _, _, _, e) = adjust_rows-ok env user amount source reason key kind db db' h in
    rw e (adjusted-IsSound env id user amount source reason key kind db s)

pub adjust-IsSound :
    (env : Env) (user : Str) (amount : ℤ) (source reason key : Str) (kind : Kind) (db : Db)
    → IsSound db
    → IsSound (adjust env user amount source reason key kind db).1
unfolding adjust
adjust-IsSound env user amount source reason key kind db s =
    checked-IsSound (adjust_checks user source reason key) _ db s λ u c.
      in_tx-IsSound env _ db s
        λ a db' h. adjust_rows-IsSound env user amount source reason key kind db db' s h

-- A grant leaves the tables sound, on every path.
pub grant-IsSound :
    (env : Env) (user : Str) (amount : ℤ) (source reason key : Str) (db : Db)
    → IsSound db
    → IsSound (grant env user amount source reason key db).1
unfolding grant
grant-IsSound env user amount source reason key db s = elim (Bool-cases (leb_ℤ amount (pos 0))) [
  | inl p ↦ rw p s
  | inr p ↦ rw p (adjust-IsSound env user amount source reason key Kind.grant db s)
]

pub refund-IsSound :
    (env : Env) (user : Str) (amount : ℤ) (source reason key : Str) (db : Db)
    → IsSound db
    → IsSound (refund env user amount source reason key db).1
unfolding refund
refund-IsSound env user amount source reason key db s = elim (Bool-cases (leb_ℤ amount (pos 0))) [
  | inl p ↦ rw p s
  | inr p ↦ rw p (adjust-IsSound env user (neg amount) source reason key Kind.refund db s)
]

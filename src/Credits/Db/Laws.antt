-- ===== src/Credits/Db/Laws.antt =====
-- The two ways in which a transaction ends.
use ai_credits.Prelude.{Option, Option-cases, Str, arith, inl, inr, none, refl, some, ◌∙◌, ◌≡◌, ◌⊎◌}
use ai_credits.Credits.Db.{
  Db, Env, Tx, bind_result, call, checked, commit_tx, fresh_id, in_tx, pure,
}
use ai_credits.Credits.Errors.{Error, Result, driver, err, ok}

-- The call fails and leaves the database as it was, or `r` has succeeded and its state is kept.
abbrev pub Ends : {A : Type 0} → Db → Result (A × Db) → Result A × Db → Type 0
Ends {A} db r out =
    ((e : Error) × (out ≡ (err e, db)))
    ⊎ ((a : A) × (db' : Db) × (r ≡ ok (a, db')) × (out ≡ (ok a, db')))

pub commit_tx-Ends :
    {A : Type 0} (c : Option Str) (db : Db) (r : Result (A × Db)) → Ends db r (commit_tx c db r)
commit_tx-Ends c db (err e) = inl (e, refl)
commit_tx-Ends none db (ok (a, db')) = inr (a, db', refl, refl)
commit_tx-Ends (some e) db (ok (a, db')) = inl (driver e, refl)

pub in_tx-Ends :
    {A : Type 0} (env : Env) (body : Tx A) (db : Db) → Ends db (body db) (in_tx env body db)
unfolding in_tx
in_tx-Ends env body db = elim (Option-cases env.begin) [
  | inr (e, b) ↦ rw b (inl (driver e, refl))
  | inl b ↦ rw b (commit_tx-Ends env.commit db (body db))
]

-- Without errors of the driver the outcome of the body is the outcome of the transaction.
pub in_tx-ok :
    {A : Type 0} (env : Env) (body : Tx A) (db db' : Db) (a : A)
    → env.begin ≡ none
    → env.commit ≡ none
    → body db ≡ ok (a, db')
    → in_tx env body db ≡ (ok a, db')
unfolding in_tx
in_tx-ok env body db db' a b c h = rw (b, c, h)

-- Inversion of a step of a body that succeeds.
pub bind_result-ok :
    {A B : Type 0} (m : Result (A × Db)) (f : A → Tx B) (b : B) (db'' : Db)
    → bind_result m f ≡ ok (b, db'')
    → (a : A) × (db' : Db) × (m ≡ ok (a, db')) × (f a db' ≡ ok (b, db''))
bind_result-ok (ok (a, db')) f b db'' h = (a, db', refl, h)
bind_result-ok (err e) f b db'' h = cc

pub fresh_id-ok :
    (env : Env) (i : Str) (db db' : Db)
    → fresh_id env db ≡ ok (i, db')
    → (env.new_id ≡ some i) × (db' ≡ db)
fresh_id-ok env i db db' h = ground arith

pub call-ok :
    (o : Option Str) (u : Unit) (db db' : Db) → call o db ≡ ok (u, db') → (o ≡ none) × (db' ≡ db)
call-ok o u db db' h = ground arith

pub pure-ok : {A : Type 0} (a b : A) (db db' : Db) → pure a db ≡ ok (b, db') → (b ≡ a) × (db' ≡ db)
pure-ok a b db db' h = (cc, cc)

pub checked-cong :
    {A : Type 0} (r : Result (Unit {0})) (f g : Db → Result A × Db) (db : Db)
    → f db ≡ g db
    → checked r f db ≡ checked r g db
checked-cong (ok u) f g db h = h
checked-cong (err e) f g db h = refl

-- A transaction that commits has succeeded in its body.
pub in_tx-committed :
    {A : Type 0} (env : Env) (body : Tx A) (db db' : Db) (a : A)
    → in_tx env body db ≡ (ok a, db')
    → body db ≡ ok (a, db')
in_tx-committed env body db db' a h = elim (in_tx-Ends env body db) [
  | inl (e, p) ↦ cc
  | inr (b, db1, q, p) ↦ q ∙ ground arith
]

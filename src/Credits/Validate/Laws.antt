-- ===== src/Credits/Validate/Laws.antt =====
-- credits/validate.go: which texts are accepted as identifiers.
use ai_credits.Prelude.{List, Str, arith, false, length, refl, ◌∷◌, ◌≡◌, ◌≤◌}
use ai_credits.Credits.Errors.{Result, err, ok, ◌>>◌}
use ai_credits.Credits.Validate.{is_blank, require_identifier, require_identifiers}

-- A text that is not blank, of at most 512 bytes.
abbrev pub IsIdentifier : Str → Type 0
IsIdentifier s = (is_blank s ≡ false) × (length s ≤ 512)

require_identifier-ok :
    (name value : Str) (v : Unit) → require_identifier name value ≡ ok v → IsIdentifier value
unfolding require_identifier
require_identifier-ok name value v h = (ground arith, ground arith)

pub require_identifiers-ok :
    (name value : Str) (rest : List (Str × Str)) (v : Unit)
    → require_identifiers ((name, value) ∷ rest) ≡ ok v
    → IsIdentifier value × (require_identifiers rest ≡ ok tt)
unfolding require_identifiers
require_identifiers-ok name value rest v h = go (require_identifier name value) refl h
  where
    go :
        (r : Result (Unit {0}))
        → require_identifier name value ≡ r
        → (r >> require_identifiers rest) ≡ ok v
        → IsIdentifier value × (require_identifiers rest ≡ ok tt)
    go (err e) q h = absurd (cc h)
    go (ok w) q h = (require_identifier-ok name value w q, h)

IsIdentifier-ok : (name value : Str) → IsIdentifier value → require_identifier name value ≡ ok tt
unfolding require_identifier
IsIdentifier-ok name value h = ground arith

pub IsIdentifier-all :
    (name value : Str) (rest : List (Str × Str))
    → IsIdentifier value
    → require_identifiers rest ≡ ok tt
    → require_identifiers ((name, value) ∷ rest) ≡ ok tt
unfolding require_identifiers
IsIdentifier-all name value rest h k = rw (IsIdentifier-ok name value h, k) refl

-- ===== src/Prelude/Text.antt =====
-- Go strings: sequences of bytes. A quoted literal is written `codes "..."`.
use Prim.Native.Nat.{ℕ, suc}
use Prim.Native.Char.{code}
use Prim.Native.String.{String}
use mathlib.Core.Path.{◌≡◌, refl}
use mathlib.Core.Bool.{Bool, true, false}
use mathlib.Core.List.{List, [], ◌∷◌, ◌++◌}
use native.Mathlib.Omega.{arith}
unfoldable pub use native.Mathlib.Decide.{ℕ_discrete}

abbrev pub Str : Type 0
Str = List ℕ

abbrev pub codes : String → Str
codes String.[] = []
codes (String.◌∷◌ c s) = code c ∷ codes s

-- `a == b`, decided.
unfoldable pub str_dec : Discrete Str
unfolding ℕ_discrete
str_dec = hlevel ℕ_discrete

abbrev pub str_eq : Str → Str → Bool
str_eq a b = elim (str_dec a b) [ yes _ ↦ true | no _ ↦ false ]

pub str_eq_refl : (a : Str) → str_eq a a ≡ true
str_eq_refl a = ground arith

pub str_eq→eq : (a b : Str) → str_eq a b ≡ true → a ≡ b
str_eq→eq a b h = ground arith

-- `len(s)`, and the number of rows of a table.
abbrev pub length {ℓ} : {A : Type ℓ} → List A → ℕ
length [] = 0
length (x ∷ xs) = suc (length xs)

-- A common prefix can be dropped: two keys built with it agree only if the rest does.
pub append-cancel_left : (a b c : Str) → a ++ b ≡ a ++ c → b ≡ c
append-cancel_left [] b c h = h
append-cancel_left (x ∷ a) b c h = append-cancel_left a b c (ground arith)

str_eq_prefix : str_eq (codes "paid") (codes "pai") ≡ false
unfolding str_dec
str_eq_prefix = refl

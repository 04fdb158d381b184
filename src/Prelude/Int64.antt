-- ===== src/Prelude/Int64.antt =====
-- The type int64 of Go: integers that wrap around, and a division that drops the fraction.
use Prim.Native.Nat.{ℕ, suc, ◌+◌, ◌-◌, ◌*◌, ◌/◌, ◌%◌, ◌≤◌}
use mathlib.Core.Path.{◌≡◌}
use native.Mathlib.Omega.{arith}
use ai_credits.Prelude.{if◌then◌else◌, ltb}
use ai_credits.Prelude.Int.{neg, negsuc, pos, pos_part, ℤ, ◌*ℤ◌, ◌+ℤ◌, ◌-ℤ◌}

-- `math.MaxInt64`
abbrev pub max_int64 : ℕ
max_int64 = 9223372036854775807

-- 2 ^ 64
abbrev pub modulus : ℕ
modulus = 18446744073709551616

-- The representative in int64 of an integer modulo 2 ^ 64; the remainders of `pos n` and of
-- `negsuc n` count up from 0 and down from -1.
unfoldable pub wrap : ℤ → ℤ
wrap (pos n) =
    if ltb max_int64 (n % modulus) then negsuc (modulus - 1 - n % modulus) else pos (n % modulus)
wrap (negsuc n) =
    if ltb max_int64 (n % modulus) then pos (modulus - 1 - n % modulus) else negsuc (n % modulus)

abbrev pub add64 : ℤ → ℤ → ℤ
add64 a b = wrap (a +ℤ b)

abbrev pub sub64 : ℤ → ℤ → ℤ
sub64 a b = wrap (a -ℤ b)

abbrev pub mul64 : ℤ → ℤ → ℤ
mul64 a b = wrap (a *ℤ b)

-- `a / b` towards zero, where `b` is positive.
unfoldable pub div64 : ℤ → ℤ → ℤ
div64 (pos a) b = pos (a / pos_part b)
div64 (negsuc a) b = neg (pos (suc a / pos_part b))

pub wrap-fits : (n : ℕ) → n ≤ max_int64 → wrap (pos n) ≡ pos n
unfolding wrap
wrap-fits n h = ground arith

pub add64-fits : (a b : ℕ) → a + b ≤ max_int64 → add64 (pos a) (pos b) ≡ pos (a + b)
unfolding wrap ◌+ℤ◌
add64-fits a b h = ground arith

pub mul64-fits : (a b : ℕ) → a * b ≤ max_int64 → mul64 (pos a) (pos b) ≡ pos (a * b)
unfolding wrap ◌*ℤ◌
mul64-fits a b h = ground arith

pub sub64-fits : (a b : ℕ) → b ≤ a → a ≤ max_int64 → sub64 (pos a) (pos b) ≡ pos (a - b)
unfolding wrap ◌-ℤ◌
sub64-fits a b h h' = ground arith

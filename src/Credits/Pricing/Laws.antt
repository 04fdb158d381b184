-- ===== src/Credits/Pricing/Laws.antt =====
-- When a cost is exact, and when it is refused.
use native.Mathlib.Nat.{le-div_iff_mul-le}
use ai_credits.Prelude.{
  Bool-cases, List, [], ap, arith, false, inl, inr, leb, refl, subst, suc, true, zero, ℕ, ◌*◌, ◌+◌,
  ◌-◌, ◌/◌, ◌<◌, ◌==◌, ◌∷◌, ◌≡◌, ◌≢◌, ◌≤◌, ◌⊎◌,
}
use ai_credits.Credits.Errors.{Error, Result, err, ok, pricing_negative, pricing_overflow}
use ai_credits.Credits.Pricing.{
  add_line, add_lines, bad_line, credits_from_microunits, int_div_ceil,
}
use ai_credits.Prelude.Int.{leb_ℤ, ltb_ℤ, pos, ℤ}
use ai_credits.Prelude.Int64.{add64, add64-fits, div64, max_int64, mul64-fits, sub64, sub64-fits}

-- A bound that a division states, as a bound on the product.
div→mul : (m t p : ℕ) → t ≢ 0 → p ≤ m / t → t * p ≤ m
div→mul m t p nz h = omega (arith, (le-div_iff_mul-le {k = t} {x = p} {y = m} (omega arith)).0 h)

mul→div : (m t p : ℕ) → t ≢ 0 → t * p ≤ m → p ≤ m / t
mul→div m t p nz h = (le-div_iff_mul-le {k = t} {x = p} {y = m} (omega arith)).1 (omega arith)

bad_line-small : (t p : ℕ) → t * p ≤ max_int64 → bad_line (pos t) (pos p) ≡ false
unfolding div64
bad_line-small t p h = elim (Bool-cases (t == 0)) [
  | inl z ↦ ground arith
  | inr z ↦ ground (arith, mul→div max_int64 t p (ground arith) h)
]

bad_line-big : (t p : ℕ) → max_int64 < t * p → bad_line (pos t) (pos p) ≡ true
unfolding div64
bad_line-big t p h = elim (Bool-cases (bad_line (pos t) (pos p))) [
  | inl e ↦ e
  | inr e ↦ absurd (omega (arith, small e))
]
  where
    small : bad_line (pos t) (pos p) ≡ false → t * p ≤ max_int64
    small e = elim (Bool-cases (t == 0)) [
      | inl z ↦ ground arith
      | inr z ↦ div→mul max_int64 t p (ground arith) (ground arith)
    ]

-- A line of tokens and a price, neither negative, is added exactly or refused for its size.
pub add_line_lem :
    (n t p : ℕ)
    → n ≤ max_int64
    → (add_line (pos n) (pos t) (pos p) ≡ ok (pos (n + t * p)) × (n + t * p ≤ max_int64))
      ⊎ (((e : Error) × (add_line (pos n) (pos t) (pos p) ≡ err e)) × (max_int64 < n + t * p))
unfolding add_line
add_line_lem n t p h = elim (Bool-cases (leb (t * p) max_int64)) [
  | inr e ↦ rw (bad_line-big t p (ground arith)) (inr ((pricing_negative, refl), ground arith))
  | inl e ↦ fits (ground arith)
]
  where
    fits :
        t * p ≤ max_int64
        → (add_line (pos n) (pos t) (pos p) ≡ ok (pos (n + t * p)) × (n + t * p ≤ max_int64))
          ⊎ (((e : Error) × (add_line (pos n) (pos t) (pos p) ≡ err e)) × (max_int64 < n + t * p))
    fits e =
        rw (bad_line-small t p e, mul64-fits t p e, sub64-fits max_int64 (t * p) e (omega arith))
          (elim (Bool-cases (ltb_ℤ (pos (max_int64 - t * p)) (pos n))) [
            | inl q ↦ rw q (inr ((pricing_overflow, refl), ground arith))
            | inr q ↦ rw (q, add64-fits n (t * p) (ground arith)) (inl (refl, ground arith))
          ])

-- What the lines come to, without a bound on the numbers.
unfoldable pub total : List (ℕ × ℕ) → ℕ
total [] = 0
total ((t, p) ∷ rest) = t * p + total rest

abbrev pub as_lines : List (ℕ × ℕ) → List (ℤ × ℤ)
as_lines [] = []
as_lines ((t, p) ∷ rest) = (pos t, pos p) ∷ as_lines rest

-- The lines are added exactly, or refused for their size.
abbrev pub Adds : ℕ → ℕ → Result ℤ → Type 0
Adds n m r =
    ((r ≡ ok (pos (n + m))) × (n + m ≤ max_int64))
    ⊎ (((e : Error) × (r ≡ err e)) × (max_int64 < n + m))

pub add_lines_lem :
    (n : ℕ) (l : List (ℕ × ℕ)) → n ≤ max_int64 → Adds n (total l) (add_lines (pos n) (as_lines l))
unfolding add_lines total
add_lines_lem n [] h = inl (ap (λ k. ok (pos k)) (omega arith), omega arith)
add_lines_lem n ((t, p) ∷ rest) h = elim (add_line_lem n t p h) [
  | inr ((e, q), big) ↦ rw q (inr ((e, refl), omega arith))
  | inl (q, fits) ↦ rw q (subst (λ k. Adds' k) reassociated (add_lines_lem (n + t * p) rest fits))
]
  where
    reassociated : n + t * p + total rest ≡ n + (t * p + total rest)
    reassociated = omega arith

    Adds' : ℕ → Type 0
    Adds' k =
        ((add_lines (pos (n + t * p)) (as_lines rest) ≡ ok (pos k)) × (k ≤ max_int64))
        ⊎ (((e : Error) × (add_lines (pos (n + t * p)) (as_lines rest) ≡ err e)) × (max_int64 < k))

-- The rounding up of a quotient of numbers whose sum, less one, is in int64.
abbrev pub IsCeil : ℕ → ℕ → ℕ → Type 0
IsCeil a b c = (a ≤ c * b) × (c * b < a + b)

pub ceil_steps :
    (a b : ℕ)
    → 1 ≤ b
    → a + b ≤ max_int64
    → div64 (sub64 (add64 (pos a) (pos b)) (pos 1)) (pos b) ≡ pos ((a + b - 1) / b)
unfolding div64
ceil_steps a b h fits =
    rw (add64-fits a b fits, sub64-fits (a + b) 1 (omega arith) (omega arith)) refl

pub quotient-IsCeil : (a b : ℕ) → 1 ≤ b → IsCeil a b ((a + b - 1) / b)
quotient-IsCeil a b h = (omega arith, omega arith)

positive : (a : ℕ) → leb_ℤ (pos (suc a)) (pos 0) ≡ false
positive a = ground arith

-- Both roundings of the code, for a divisor that is positive.
pub int_div_ceil-IsCeil :
    (a b : ℕ)
    → 1 ≤ b
    → a + b ≤ max_int64
    → (c : ℕ) × (int_div_ceil (pos a) (pos b) ≡ pos c) × IsCeil a b c
unfolding int_div_ceil
int_div_ceil-IsCeil zero b h fits = (0, refl, (omega arith, omega arith))
int_div_ceil-IsCeil (suc a) b h fits = (
  (suc a + b - 1) / b,
  rw (positive a) (ceil_steps (suc a) b h fits),
  quotient-IsCeil (suc a) b h,
)

pub credits_from_microunits-IsCeil :
    (a b : ℕ)
    → 1 ≤ b
    → a + b ≤ max_int64
    → (c : ℕ) × (credits_from_microunits (pos a) (pos b) ≡ pos c) × IsCeil a b c
unfolding credits_from_microunits
credits_from_microunits-IsCeil zero b h fits = (0, refl, (omega arith, omega arith))
credits_from_microunits-IsCeil (suc a) zero h fits = absurd (omega arith)
credits_from_microunits-IsCeil (suc a) (suc b) h fits = (
  (suc a + suc b - 1) / suc b,
  rw (positive a, positive b) (ceil_steps (suc a) (suc b) h fits),
  quotient-IsCeil (suc a) (suc b) h,
)

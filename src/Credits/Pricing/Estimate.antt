-- ===== src/Credits/Pricing/Estimate.antt =====
-- credits/pricing.go: the estimate that sizes a reservation.
use native.Mathlib.Nat.{mul-le-mul_right}
use ai_credits.Prelude.{
  Str, [], arith, codes, false, refl, some, str_eq_refl, suc, zero, ℕ, ◌*◌, ◌+◌, ◌/◌, ◌||◌, ◌∷◌,
  ◌≡◌, ◌≤◌,
}
use ai_credits.Credits.Errors.{ok}
use ai_credits.Credits.Pricing.{Pricer, at_least_one, estimate_max, estimated, find_model, p_cost}
use ai_credits.Credits.Pricing.Cost.{cost_exact, prices}
use ai_credits.Credits.Pricing.Laws.{credits_from_microunits-IsCeil, int_div_ceil-IsCeil, total}
use ai_credits.Prelude.Int.{ltb_ℤ, pos}
use ai_credits.Prelude.Int64.{div64, max_int64, mul64-fits}

at_least_one-bound : (c : ℕ) → (e : ℕ) × (at_least_one (pos c) ≡ pos e) × (1 ≤ e) × (c ≤ e)
at_least_one-bound zero = (1, refl, omega arith, omega arith)
at_least_one-bound (suc c) = (suc c, ground arith, omega arith, omega arith)

-- What `estimated` makes of a cost that is not near the limits of int64.
estimated-bound :
    (per_credit mu : ℕ)
    → 1 ≤ per_credit
    → 6 * mu + 5 + per_credit ≤ max_int64
    → (e : ℕ) × (estimated (pos per_credit) (pos mu) ≡ ok (pos e))
      × (1 ≤ e)
      × (6 * mu ≤ 5 * (e * per_credit))
unfolding estimated div64
estimated-bound per_credit mu h fits =
    let (scaled, p, up) = int_div_ceil-IsCeil (mu * 6) 5 (omega arith) (omega arith) in
    let (c, q, up') = credits_from_microunits-IsCeil scaled per_credit h (omega (arith, up.1)) in
    let (e, s, one, more) = at_least_one-bound c in
    (
      e,
      rw (not_over, mul64-fits mu 6 (omega arith), p, q, s) refl,
      one,
      omega (arith, up.0, up'.0, mul-le-mul_right per_credit more),
    )
  where
    not_over : ltb_ℤ (pos (max_int64 / 6)) (pos mu) ≡ false
    not_over = ground arith

-- For a known model with prices that are not negative, and a cost far enough from the limits of
-- int64, the estimate for `i` input tokens and at most `o` output tokens succeeds, is one credit or
-- more, and is worth six fifths of the nominal price of those tokens or more.
pub estimate_covers_margin :
    (p : Pricer) (model : Str) (i o pi po pc pr per_credit : ℕ)
    → find_model model p.models ≡ some (prices pi po pc pr)
    → p.microunits_per_credit ≡ pos per_credit
    → 1 ≤ per_credit
    → i * pi + o * po + per_credit + 1000000 ≤ 1000000000000000000
    → (e : ℕ) × (estimate_max p model (pos i) (pos o) ≡ ok (pos e))
      × (1 ≤ e)
      × (6 * (i * pi + o * po) ≤ 5 * (e * per_credit * 1000000))
unfolding estimate_max p_cost total find_model
estimate_covers_margin p model i o pi po pc pr per_credit known unit h fits =
    let (mu, c, up) =
      cost_exact
        (record {
          version = [];
          microunits_per_credit = pos 0;
          models = (codes "estimate", prices pi po pc pr) ∷ [];
        })
        (codes "estimate") i o 0 0 pi po pc pr own (omega arith) in
    let (e, q, one, margin) = estimated-bound per_credit mu h (omega (arith, up.1)) in
    (e, rw (nonneg, known, unit, c) q, one, omega (arith, margin, up.0))
  where
    nonneg : (ltb_ℤ (pos i) (pos 0) || ltb_ℤ (pos o) (pos 0)) ≡ false
    nonneg = ground arith

    own :
        find_model (codes "estimate") ((codes "estimate", prices pi po pc pr) ∷ [])
        ≡ some (prices pi po pc pr)
    own = rw (str_eq_refl (codes "estimate")) refl

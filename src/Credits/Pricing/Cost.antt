-- ===== src/Credits/Pricing/Cost.antt =====
-- credits/pricing.go: what a call costs in micro-units.
use ai_credits.Prelude.{
  Str, [], ap, arith, inl, inr, none, refl, some, ℕ, ◌+◌, ◌<◌, ◌∙◌, ◌∷◌, ◌≡◌, ◌≤◌,
}
use ai_credits.Credits.Errors.{Error, err, ok, unknown_model}
use ai_credits.Credits.Pricing.{
  ModelPrices, Pricer, add_lines, cost, cost_lines, find_model, int_div_ceil, micro_units_per_mtok,
}
use ai_credits.Credits.Pricing.Laws.{Adds, IsCeil, add_lines_lem, int_div_ceil-IsCeil, total}
use ai_credits.Prelude.Int.{neg, pos, ℤ, ◌+ℤ◌, ◌-ℤ◌, ◌<ℤ◌}
use ai_credits.Prelude.Int64.{div64, max_int64, wrap}

-- Prices of zero or more.
abbrev pub prices : ℕ → ℕ → ℕ → ℕ → ModelPrices
prices input output cached reasoning = record {
  input_per_mtok = pos input;
  output_per_mtok = pos output;
  cached_input_per_mtok = pos cached;
  reasoning_per_mtok = pos reasoning;
}

-- Tokens times price, summed over the four kinds of tokens.
abbrev pub nominal : (i o c r pi po pc pr : ℕ) → ℕ
nominal i o c r pi po pc pr = total ((i, pi) ∷ (o, po) ∷ (c, pc) ∷ (r, pr) ∷ [])

wrapped :
    (n : ℕ)
    → n ≤ max_int64
    → max_int64 + 1 < n + 1000000
    → int_div_ceil (pos n) micro_units_per_mtok <ℤ pos 0
unfolding int_div_ceil div64 wrap ◌+ℤ◌ ◌-ℤ◌ neg
wrapped n fits near = ground arith

module _ (p : Pricer) (model : Str) (i o c r pi po pc pr : ℕ)
    (known : find_model model p.models ≡ some (prices pi po pc pr)) where
  cost_sum :
      Adds 0
        (nominal i o c r pi po pc pr)
        (add_lines (pos 0) (cost_lines (prices pi po pc pr) (pos i) (pos o) (pos c) (pos r)))
  cost_sum = add_lines_lem 0 ((i, pi) ∷ (o, po) ∷ (c, pc) ∷ (r, pr) ∷ []) (omega arith)

  cost-rounds :
      nominal i o c r pi po pc pr ≤ max_int64
      → cost p model (pos i) (pos o) (pos c) (pos r)
        ≡ ok (int_div_ceil (pos (nominal i o c r pi po pc pr)) micro_units_per_mtok)
  unfolding cost
  cost-rounds fits = elim cost_sum [
    | inl (e, _) ↦ rw (known, e, zero_add) refl
    | inr (_, big) ↦ absurd (omega (arith, big, fits))
  ]
    where
      zero_add : 0 + nominal i o c r pi po pc pr ≡ nominal i o c r pi po pc pr
      zero_add = omega arith

  -- For a known model whose prices are not negative, and token counts that are not negative, the cost
  -- is the sum of tokens times price over a million, rounded up, if that sum plus a million is in
  -- int64.
  pub cost_exact :
      nominal i o c r pi po pc pr + 1000000 ≤ max_int64
      → (mu : ℕ) × (cost p model (pos i) (pos o) (pos c) (pos r) ≡ ok (pos mu))
        × IsCeil (nominal i o c r pi po pc pr) 1000000 mu
  cost_exact fits =
      let (mu, e, ceil) =
        int_div_ceil-IsCeil (nominal i o c r pi po pc pr) 1000000 (omega arith) fits in
      (mu, cost-rounds (omega arith) ∙ ap ok e, ceil)

  -- For a known model whose prices are not negative, and token counts that are not negative, the cost
  -- is refused with an error if the sum of tokens times price is not in int64.
  pub cost_refuses_overflow :
      max_int64 < nominal i o c r pi po pc pr
      → (e : Error) × (cost p model (pos i) (pos o) (pos c) (pos r) ≡ err e)
  unfolding cost
  cost_refuses_overflow big = elim cost_sum [
    | inl (_, fits) ↦ absurd (omega arith)
    | inr ((e, q), _) ↦ (e, rw (known, q) refl)
  ]

  -- For a known model whose prices are not negative, and token counts that are not negative: in the
  -- last 999,999 values of the sum that are in int64 the rounding wraps around, and the cost that is
  -- returned, with no error, is negative.
  pub cost_wraps_around :
      nominal i o c r pi po pc pr ≤ max_int64
      → max_int64 + 1 < nominal i o c r pi po pc pr + 1000000
      → (mu : ℤ) × (cost p model (pos i) (pos o) (pos c) (pos r) ≡ ok mu) × (mu <ℤ pos 0)
  cost_wraps_around fits near = (
    int_div_ceil (pos (nominal i o c r pi po pc pr)) micro_units_per_mtok,
    cost-rounds fits,
    wrapped (nominal i o c r pi po pc pr) fits near,
  )

-- The cost of a model that is not in the table is refused, whatever the tokens.
pub cost-unknown :
    (p : Pricer) (model : Str) (i o c r : ℤ)
    → find_model model p.models ≡ none
    → cost p model i o c r ≡ err unknown_model
unfolding cost
cost-unknown p model i o c r h = rw h refl

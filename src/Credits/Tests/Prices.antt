-- ===== src/Credits/Tests/Prices.antt =====
-- The laws of prices at the built-in table.
use ai_credits.Prelude.{
  Str, [], arith, codes, refl, some, str_dec, ℕ, ℕ_discrete, ◌*◌, ◌+◌, ◌∷◌, ◌≡◌, ◌≤◌,
}
use ai_credits.Credits.Errors.{Error, err, ok}
use ai_credits.Credits.Pricing.{
  Pricer, cost, default_microunits_per_credit, default_models, estimate_max, find_model,
}
use ai_credits.Credits.Pricing.Cost.{
  cost_exact, cost_refuses_overflow, cost_wraps_around, nominal, prices,
}
use ai_credits.Credits.Pricing.Estimate.{estimate_covers_margin}
use ai_credits.Credits.Pricing.Laws.{IsCeil, total}
use ai_credits.Prelude.Int.{pos, ℤ, ◌<ℤ◌}

abbrev builtin : Pricer
builtin = record {
  version = codes "builtin-2026-08";
  microunits_per_credit = default_microunits_per_credit;
  models = default_models;
}

abbrev gpt : Str
gpt = codes "gpt-4o"

known_run : find_model gpt builtin.models ≡ some (prices 2500000 10000000 1250000 0)
unfolding find_model str_dec ℕ_discrete
known_run = refl

cost_exact_example :
    (mu : ℕ) × (cost builtin gpt (pos 1000) (pos 500) (pos 0) (pos 0) ≡ ok (pos mu))
    × IsCeil (nominal 1000 500 0 0 2500000 10000000 1250000 0) 1000000 mu
unfolding total
cost_exact_example =
    cost_exact builtin gpt 1000 500 0 0 2500000 10000000 1250000 0 known_run (omega arith)

cost_refuses_overflow_example :
    (e : Error) × (cost builtin gpt (pos 9000000000000) (pos 9000000000000) (pos 0) (pos 0) ≡ err e)
unfolding total
cost_refuses_overflow_example =
    cost_refuses_overflow builtin gpt 9000000000000 9000000000000 0 0 2500000 10000000 1250000 0
      known_run (omega arith)

-- A table with one price of one micro-unit.
abbrev unit_priced : Pricer
unit_priced = record {
  version = [];
  microunits_per_credit = default_microunits_per_credit;
  models = (gpt, prices 1 1 1 1) ∷ [];
}

unit_run : find_model gpt unit_priced.models ≡ some (prices 1 1 1 1)
unfolding find_model str_dec ℕ_discrete
unit_run = refl

cost_wraps_around_example :
    (mu : ℤ) × (cost unit_priced gpt (pos 9223372036854775807) (pos 0) (pos 0) (pos 0) ≡ ok mu)
    × (mu <ℤ pos 0)
unfolding total
cost_wraps_around_example =
    cost_wraps_around unit_priced gpt 9223372036854775807 0 0 0 1 1 1 1 unit_run (omega arith)
      (omega arith)

estimate_covers_margin_example :
    (e : ℕ) × (estimate_max builtin gpt (pos 1000) (pos 500) ≡ ok (pos e))
    × (1 ≤ e)
    × (6 * (1000 * 2500000 + 500 * 10000000) ≤ 5 * (e * 1000 * 1000000))
estimate_covers_margin_example =
    estimate_covers_margin builtin gpt 1000 500 2500000 10000000 1250000 0 1000 known_run refl
      (omega arith) (omega arith)

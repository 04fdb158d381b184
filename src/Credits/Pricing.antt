-- ===== src/Credits/Pricing.antt =====
-- credits/pricing.go: prices, costs in micro-units, and credits, all in int64.
pub mod Laws
pub mod Cost
pub mod Estimate
use ai_credits.Prelude.{
  Bool, List, Option, Str, [], codes, if◌then◌else◌, none, not, some, str_eq, ◌&&◌, ◌||◌, ◌∷◌,
}
use ai_credits.Credits.Errors.{
  Result, err, estimate_negative, estimate_overflow, ok, pricing_negative, pricing_overflow,
  unknown_model, ◌>>=◌, ◌>>◌,
}
use ai_credits.Prelude.Int.{eqb_ℤ, leb_ℤ, ltb_ℤ, pos, ℤ}
use ai_credits.Prelude.Int64.{add64, div64, max_int64, mul64, sub64}

-- The struct modelPrices.
pub record ModelPrices : Type 0 where
  pub input_per_mtok : ℤ
  pub output_per_mtok : ℤ
  pub cached_input_per_mtok : ℤ
  pub reasoning_per_mtok : ℤ

-- The struct pricingFile, as the JSON decoder fills it; a nil map is `none`.
pub record PricingFile : Type 0 where
  pub version : Str
  pub microunits_per_credit : ℤ
  pub models : Option (List (Str × ModelPrices))

-- The struct pricerEngine.
pub record Pricer : Type 0 where
  pub version : Str
  pub microunits_per_credit : ℤ
  pub models : List (Str × ModelPrices)

abbrev pub default_models : List (Str × ModelPrices)
default_models =
    (
      codes "gpt-4o-mini",
      record {
        input_per_mtok = pos 150000;
        output_per_mtok = pos 600000;
        cached_input_per_mtok = pos 150000;
        reasoning_per_mtok = pos 0;
      },
    )
    ∷ (
      codes "gpt-4o",
      record {
        input_per_mtok = pos 2500000;
        output_per_mtok = pos 10000000;
        cached_input_per_mtok = pos 1250000;
        reasoning_per_mtok = pos 0;
      },
    )
    ∷ (
      codes "claude-3-5-haiku",
      record {
        input_per_mtok = pos 800000;
        output_per_mtok = pos 4000000;
        cached_input_per_mtok = pos 80000;
        reasoning_per_mtok = pos 0;
      },
    )
    ∷ (
      codes "claude-3-5-sonnet",
      record {
        input_per_mtok = pos 3000000;
        output_per_mtok = pos 15000000;
        cached_input_per_mtok = pos 300000;
        reasoning_per_mtok = pos 0;
      },
    )
    ∷ []

abbrev pub default_microunits_per_credit : ℤ
default_microunits_per_credit = pos 1000

abbrev pub micro_units_per_mtok : ℤ
micro_units_per_mtok = pos 1000000

abbrev pub reserve_margin_num : ℤ
reserve_margin_num = pos 6

abbrev pub reserve_margin_den : ℤ
reserve_margin_den = pos 5

abbrev pub models_or :
    List (Str × ModelPrices) → Option (List (Str × ModelPrices)) → List (Str × ModelPrices)
models_or d none = d
models_or d (some l) = l

-- What `newPricer` makes of the decoded file.
abbrev pub priced_by : Str → PricingFile → Pricer
priced_by version f = record {
  version = if str_eq f.version [] then version else f.version;
  microunits_per_credit =
      if ltb_ℤ (pos 0) f.microunits_per_credit
      then f.microunits_per_credit
      else default_microunits_per_credit;
  models = models_or default_models f.models;
}

-- `newPricer`: no reader, or what the decoder of encoding/json makes of the reader.
unfoldable pub new_pricer : Option (Result PricingFile) → Str → Result Pricer
new_pricer none version = ok (record {
  version = version;
  microunits_per_credit = default_microunits_per_credit;
  models = default_models;
})
new_pricer (some (err e)) version = err e
new_pricer (some (ok f)) version = ok (priced_by version f)

unfoldable pub find_model : Str → List (Str × ModelPrices) → Option ModelPrices
find_model m [] = none
find_model m ((name, p) ∷ rest) = if str_eq name m then some p else find_model m rest

-- `intDivCeil`
unfoldable pub int_div_ceil : ℤ → ℤ → ℤ
int_div_ceil a b = if leb_ℤ a (pos 0) then pos 0 else div64 (sub64 (add64 a b) (pos 1)) b

-- The guard of a line: a negative number, or a product that does not fit.
abbrev pub bad_line : ℤ → ℤ → Bool
bad_line t p =
    ltb_ℤ t (pos 0)
    || ltb_ℤ p (pos 0)
    || (not (eqb_ℤ t (pos 0)) && ltb_ℤ (div64 (pos max_int64) t) p)

-- One round of the loop of `cost`: a number of tokens at a price.
unfoldable pub add_line : ℤ → ℤ → ℤ → Result ℤ
add_line numerator t p =
    if bad_line t p
    then err pricing_negative
    else if ltb_ℤ (sub64 (pos max_int64) (mul64 t p)) numerator
    then err pricing_overflow
    else ok (add64 numerator (mul64 t p))

unfoldable pub add_lines : ℤ → List (ℤ × ℤ) → Result ℤ
add_lines numerator [] = ok numerator
add_lines numerator ((t, p) ∷ rest) = do
  numerator' ← add_line numerator t p
  add_lines numerator' rest

abbrev pub cost_lines : ModelPrices → ℤ → ℤ → ℤ → ℤ → List (ℤ × ℤ)
cost_lines m input output cached reasoning =
    (input, m.input_per_mtok)
    ∷ (output, m.output_per_mtok)
    ∷ (cached, m.cached_input_per_mtok)
    ∷ (reasoning, m.reasoning_per_mtok)
    ∷ []

abbrev pub cost_found : Option ModelPrices → ℤ → ℤ → ℤ → ℤ → Result ℤ
cost_found none input output cached reasoning = err unknown_model
cost_found (some m) input output cached reasoning = do
  numerator ← add_lines (pos 0) (cost_lines m input output cached reasoning)
  ok (int_div_ceil numerator micro_units_per_mtok)

-- `cost`, in micro-units.
unfoldable pub cost : Pricer → Str → ℤ → ℤ → ℤ → ℤ → Result ℤ
cost p model input output cached reasoning =
    cost_found (find_model model p.models) input output cached reasoning

-- `pCost`: the cost with a table of one model.
unfoldable pub p_cost : ModelPrices → ℤ → ℤ → Result ℤ
unfolding cost
p_cost m input output =
    cost
      (record { version = []; microunits_per_credit = pos 0; models = (codes "estimate", m) ∷ [] })
      (codes "estimate") input output (pos 0) (pos 0)

abbrev pub per_credit_or_default : ℤ → ℤ
per_credit_or_default per_credit =
    if leb_ℤ per_credit (pos 0) then default_microunits_per_credit else per_credit

-- `creditsFromMicrounits`
unfoldable pub credits_from_microunits : ℤ → ℤ → ℤ
credits_from_microunits mu per_credit =
    if leb_ℤ mu (pos 0)
    then pos 0
    else div64 (sub64 (add64 mu (per_credit_or_default per_credit)) (pos 1))
        (per_credit_or_default per_credit)

-- `Credits`
unfoldable pub credits : Pricer → Str → ℤ → ℤ → ℤ → ℤ → Result ℤ
unfolding cost credits_from_microunits
credits p model input output cached reasoning = do
  mu ← cost p model input output cached reasoning
  ok (credits_from_microunits mu p.microunits_per_credit)

-- `max(credits, int64(1))`
abbrev pub at_least_one : ℤ → ℤ
at_least_one c = if ltb_ℤ c (pos 1) then pos 1 else c

-- The margin of a reserve, and the conversion to credits.
unfoldable pub estimated : ℤ → ℤ → Result ℤ
unfolding credits_from_microunits
estimated per_credit mu =
    if ltb_ℤ (div64 (pos max_int64) reserve_margin_num) mu
    then err estimate_overflow
    else ok (
        at_least_one (
          credits_from_microunits (int_div_ceil (mul64 mu reserve_margin_num) reserve_margin_den)
            per_credit))

abbrev pub estimate_found : ℤ → Option ModelPrices → ℤ → ℤ → Result ℤ
estimate_found per_credit none input output = err unknown_model
estimate_found per_credit (some m) input output = do
  mu ← p_cost m input output
  estimated per_credit mu

-- `EstimateMax`
unfoldable pub estimate_max : Pricer → Str → ℤ → ℤ → Result ℤ
unfolding p_cost estimated
estimate_max p model input max_output =
    if ltb_ℤ input (pos 0) || ltb_ℤ max_output (pos 0)
    then err estimate_negative
    else estimate_found p.microunits_per_credit (find_model model p.models) input max_output

-- ===== src/Credits/Usage/Laws.antt =====
-- credits/usage.go: what is in the audit trail.
use ai_credits.Prelude.{
  Bool-cases, List, Option, Str, [], ap, arith, codes, false, if◌then◌else◌, inl, inr, none, not,
  refl, some, str_eq, str_eq_refl, str_eq→eq, suc, true, zero, ℕ, ◌&&◌, ◌==◌, ◌||◌, ◌∙◌, ◌∷◌, ◌≡◌,
  ◌≢◌, ◌⊎◌,
}
use ai_credits.Credits.Db.{Env, calm}
use ai_credits.Credits.Errors.{
  Result, byok_charge, err, fail_if, invalid_billing_mode, negative_usage, ok, ◌>>◌,
}
use ai_credits.Credits.Pricing.{Pricer}
use ai_credits.Credits.Usage.{
  Usage, UsageRow, after_attempt, any_negative, attempts, attempts_left, bad_mode,
  billing_mode_byok, billing_mode_managed, insert_error, insert_valid, inserted, is_busy_error,
  is_usage_request_duplicate, record_usage, record_usage_retry, time_or, usage_id_used,
  usage_recorded, usage_row, validate_usage, wait_then,
}
use ai_credits.Credits.Validate.{require_identifiers}
use ai_credits.Credits.Validate.Laws.{IsIdentifier, IsIdentifier-all, require_identifiers-ok}
use ai_credits.Prelude.Int.{eqb_ℤ, pos, ℤ, ◌≤ℤ◌}

-- No count is negative.
abbrev pub AreCounts : Usage → Type 0
AreCounts u =
    (pos 0 ≤ℤ u.input_tokens)
    × (pos 0 ≤ℤ u.output_tokens)
    × (pos 0 ≤ℤ u.cached_tokens)
    × (pos 0 ≤ℤ u.reasoning_tokens)
    × (pos 0 ≤ℤ u.cost_microunits)
    × (pos 0 ≤ℤ u.credits_charged)

-- What a usage must be to be recorded.
pub record IsValid (u : Usage) : Type 0 where
  pub request : IsIdentifier u.request_id
  pub user : IsIdentifier u.user_id
  pub from : IsIdentifier u.provider
  pub by_model : IsIdentifier u.model
  pub mode : (u.billing_mode ≡ billing_mode_managed) ⊎ (u.billing_mode ≡ billing_mode_byok)
  pub nonneg : AreCounts u
  pub own_key : str_eq u.billing_mode billing_mode_byok ≡ true → u.credits_charged ≡ pos 0

-- Every row is of a valid usage, and no request has two rows.
abbrev pub IsClean : List UsageRow → Type 0
IsClean [] = Unit
IsClean (r ∷ rest) =
    IsValid r.usage × (usage_recorded r.usage.request_id rest ≡ false) × IsClean rest

eqb_ℤ-true : (a b : ℤ) → eqb_ℤ a b ≡ true → a ≡ b
eqb_ℤ-true a b h = ground arith

bad_mode-false :
    (u : Usage)
    → bad_mode u ≡ false
    → (u.billing_mode ≡ billing_mode_managed) ⊎ (u.billing_mode ≡ billing_mode_byok)
bad_mode-false u h = elim (Bool-cases (str_eq u.billing_mode billing_mode_managed)) [
  | inl q ↦ inl (str_eq→eq u.billing_mode billing_mode_managed q)
  | inr q ↦ inr (str_eq→eq u.billing_mode billing_mode_byok (ground (arith, rw q at h)))
]

any_negative-false : (u : Usage) → any_negative u ≡ false → AreCounts u
any_negative-false u h =
    (ground arith, ground arith, ground arith, ground arith, ground arith, ground arith)

pub validate_usage-IsValid : (u : Usage) (v : Unit) → validate_usage u ≡ ok v → IsValid u
unfolding validate_usage
validate_usage-IsValid u v h = go (require_identifiers (four u)) refl h
  where
    four : Usage → List (Str × Str)
    four u =
        (codes "request_id", u.request_id)
        ∷ (codes "user_id", u.user_id)
        ∷ (codes "provider", u.provider)
        ∷ (codes "model", u.model)
        ∷ []

    go :
        (r : Result (Unit {0}))
        → require_identifiers (four u) ≡ r
        → (r
            >> (fail_if (bad_mode u) invalid_billing_mode
                >> (fail_if (any_negative u) negative_usage
                    >> fail_if
                        (str_eq u.billing_mode billing_mode_byok
                          && not (eqb_ℤ u.credits_charged (pos 0)))
                        byok_charge)))
          ≡ ok v
        → IsValid u
    go (err e) q h = absurd (cc h)
    go (ok w) q h =
        let (request, q1) = require_identifiers-ok _ _ _ w q in
        let (user, q2) = require_identifiers-ok _ _ _ tt q1 in
        let (from, q3) = require_identifiers-ok _ _ _ tt q2 in
        let (by_model, _) = require_identifiers-ok _ _ _ tt q3 in
        record {
          request = request;
          user = user;
          from = from;
          by_model = by_model;
          mode = bad_mode-false u (ground arith);
          nonneg = any_negative-false u (ground arith);
          own_key = λ b. eqb_ℤ-true u.credits_charged (pos 0) (ground arith);
        }

-- A record fails or finds the request recorded, and leaves the table, or it adds one valid row of a
-- new request.
abbrev pub Records : Usage → List UsageRow → Result (Unit {0}) × List UsageRow → Type 0
Records u rows out =
    (out.1 ≡ rows)
    ⊎ ((out.0 ≡ ok tt)
        × IsValid u
        × (usage_recorded u.request_id rows ≡ false)
        × ((r : UsageRow) × (r.usage ≡ u) × (out.1 ≡ r ∷ rows)))

inserted-Records :
    (env : Env) (id : Str) (p : Pricer) (u : Usage) (rows : List UsageRow)
    → IsValid u
    → Records u rows
        (inserted (insert_error env (usage_row env id p u) rows) (usage_row env id p u) rows)
unfolding insert_error
inserted-Records env id p u rows valid = go (insert_error env (usage_row env id p u) rows) refl
  where
    go :
        (o : Option Str)
        → insert_error env (usage_row env id p u) rows ≡ o
        → Records u rows (inserted o (usage_row env id p u) rows)
    go none h = inr (refl, valid, ground arith, (_, refl, refl))
    go (some e) h = elim (Bool-cases (is_usage_request_duplicate e)) [
      | inl d ↦ rw d (inl refl)
      | inr d ↦ rw d (inl refl)
    ]

record_usage-Records :
    (env : Env) (p : Pricer) (u : Usage) (rows : List UsageRow)
    → Records u rows (record_usage env p u rows)
unfolding record_usage
record_usage-Records env p u rows = go (validate_usage u) refl env.new_id
  where
    go :
        (r : Result (Unit {0}))
        → validate_usage u ≡ r
        → (i : Option Str) → Records u rows (insert_valid r (record env { new_id = i }) p u rows)
    go (err e) h i = inl refl
    go (ok v) h none = inl refl
    go (ok v) h (some id) =
        inserted-Records (record env { new_id = some id }) id p u rows
          (validate_usage-IsValid u v h)

-- A retry that is not made ends with the table of the attempt before it.
attempts_left-Records :
    (n : ℕ) (each : ℕ → Env) (ended : ℕ → Option Str) (p : Pricer) (u : Usage)
    (rows : List UsageRow)
    → Records u rows (attempts_left n each ended p u rows)
unfolding attempts_left
attempts_left-Records zero each ended p u rows = inl refl
attempts_left-Records (suc n) each ended p u rows =
    go (attempts_left-Records n (λ k. each (suc k)) (λ k. ended (suc k)) p u) (ended 0)
      (record_usage (each 0) p u rows) (record_usage-Records (each 0) p u rows)
  where
    go :
        ((rows : List UsageRow)
          → Records u rows (attempts_left n (λ k. each (suc k)) (λ k. ended (suc k)) p u rows))
        → (d : Option Str) (out : Result (Unit {0}) × List UsageRow) → Records u rows out
        → Records u rows (
            after_attempt
              (n == 0)
              d
              (attempts_left n (λ k. each (suc k)) (λ k. ended (suc k)) p u)
              out)
    go ih d (ok v, rows') (inl e) = inl e
    go ih d (ok v, rows') (inr (_, valid, new, row)) = inr (refl, valid, new, row)
    go ih d (err e, rows') (inr (q, _, _, _)) = absurd (cc q)
    go ih d (err e, rows') (inl same) = elim (Bool-cases (not (is_busy_error e) || (n == 0))) [
      | inl stop ↦ rw stop (inl same)
      | inr again ↦ rw again (go_again d)
    ]
      where
        go_again :
            (d : Option Str)
            → Records u rows
                (wait_then d (attempts_left n (λ k. each (suc k)) (λ k. ended (suc k)) p u) rows')
        go_again (some c) = inl same
        go_again none = rw same (ih rows)

-- Whatever errors the driver reports in its attempts, and whether or not the context ends between
-- them, `RecordUsageRetry` leaves the table as it was, or it succeeds and adds one row: of this
-- usage, which is valid, where its request had no row. So a table in which all rows are of valid
-- usages, and no request has two rows, stays one.
pub record_usage_retry_once :
    (each : ℕ → Env) (ended : ℕ → Option Str) (p : Pricer) (u : Usage) (rows : List UsageRow)
    → Records u rows (record_usage_retry each ended p u rows)
      × (IsClean rows → IsClean (record_usage_retry each ended p u rows).1)
unfolding record_usage_retry
record_usage_retry_once each ended p u rows =
    let h = attempts_left-Records attempts each ended p u rows in
    (h, λ clean. kept (attempts_left attempts each ended p u rows) clean h)
  where
    kept :
        (out : Result (Unit {0}) × List UsageRow)
        → IsClean rows
        → Records u rows out
        → IsClean out.1
    kept out clean (inl same) = rw same clean
    kept out clean (inr (_, valid, new, (r, e, added))) = rw added (rw e valid, rw e new, clean)

insert_error-calm :
    (now : ℤ) (id : Str) (p : Pricer) (u : Usage) (rows : List UsageRow)
    → usage_id_used id rows ≡ false
    → insert_error (calm now id) (usage_row (calm now id) id p u) rows ≡ (
        if usage_recorded u.request_id rows
        then some (codes "UNIQUE constraint failed: llm_usage.request_id")
        else none)
unfolding insert_error
insert_error-calm now id p u rows fresh = rw fresh refl

no_identifiers : require_identifiers [] ≡ ok tt
unfolding require_identifiers
no_identifiers = refl

good_mode :
    (u : Usage)
    → (u.billing_mode ≡ billing_mode_managed) ⊎ (u.billing_mode ≡ billing_mode_byok)
    → bad_mode u ≡ false
good_mode u (inl h) =
    rw (ap (λ m. str_eq m billing_mode_managed) h, str_eq_refl billing_mode_managed) refl
good_mode u (inr h) =
    let k : str_eq u.billing_mode billing_mode_byok ≡ true =
      ap (λ m. str_eq m billing_mode_byok) h ∙ str_eq_refl billing_mode_byok in
    ground arith

good_counts : (u : Usage) → AreCounts u → any_negative u ≡ false
good_counts u h = ground arith

free_byok :
    (u : Usage)
    → (str_eq u.billing_mode billing_mode_byok ≡ true → u.credits_charged ≡ pos 0)
    → (str_eq u.billing_mode billing_mode_byok && not (eqb_ℤ u.credits_charged (pos 0))) ≡ false
free_byok u h = elim (Bool-cases (str_eq u.billing_mode billing_mode_byok)) [
  | inl q ↦ rw (q, h q) refl
  | inr q ↦ rw q refl
]

IsValid-validate_usage : (u : Usage) → IsValid u → validate_usage u ≡ ok tt
unfolding validate_usage
IsValid-validate_usage u v =
    rw
      (
        IsIdentifier-all (codes "request_id") u.request_id _ v.request (
            IsIdentifier-all (codes "user_id") u.user_id _ v.user (
              IsIdentifier-all (codes "provider") u.provider _ v.from
                (IsIdentifier-all (codes "model") u.model [] v.by_model no_identifiers))),
        good_mode u v.mode,
        good_counts u v.nonneg,
        free_byok u v.own_key,
      )
      refl

-- The row of a usage: its own version and time where it has them, and else those of the prices and
-- of the clock.
pub record IsRowOf (now : ℤ) (id : Str) (p : Pricer) (u : Usage) (r : UsageRow) : Type 0 where
  pub id_is : r.id ≡ id
  pub reports : r.usage ≡ u
  pub own_version : u.pricing_version ≢ [] → r.version ≡ u.pricing_version
  pub priced : u.pricing_version ≡ [] → r.version ≡ p.version
  pub own_time : (t : ℤ) → u.created_at ≡ some t → r.at ≡ t
  pub clocked : u.created_at ≡ none → r.at ≡ now

nonempty : (s : Str) → s ≢ [] → str_eq s [] ≡ false
nonempty s h = elim (Bool-cases (str_eq s [])) [ inl q ↦ absurd (h (str_eq→eq s [] q)) | inr q ↦ q ]

usage_row-IsRowOf :
    (now : ℤ) (id : Str) (p : Pricer) (u : Usage)
    → IsRowOf now id p u (usage_row (calm now id) id p u)
usage_row-IsRowOf now id p u = record {
  id_is = refl;
  reports = refl;
  own_version = λ h. rw (nonempty u.pricing_version h) refl;
  priced = λ h. rw (h, str_eq_refl []) refl;
  own_time = λ t h. ap (time_or now) h;
  clocked = λ h. ap (time_or now) h;
}

-- Where the driver reports no error and the new id is new, the record of a valid usage succeeds: it
-- changes nothing if its request is recorded already, and else it adds one row of the usage, with the
-- version and the time that the usage names, or, where it names none, with the version of the prices
-- and the time of the clock.
pub record_usage_lem :
    (now : ℤ) (id : Str) (p : Pricer) (u : Usage) (rows : List UsageRow)
    → IsValid u
    → usage_id_used id rows ≡ false
    → (usage_recorded u.request_id rows ≡ true
        → record_usage (calm now id) p u rows ≡ (ok tt, rows))
      × (usage_recorded u.request_id rows ≡ false
          → (r : UsageRow) × IsRowOf now id p u r
            × (record_usage (calm now id) p u rows ≡ (ok tt, r ∷ rows)))
unfolding record_usage
record_usage_lem now id p u rows is_valid fresh = (
  (λ known.
      rw (IsValid-validate_usage u is_valid, insert_error-calm now id p u rows fresh, known) refl),
  (λ new. (
    usage_row (calm now id) id p u,
    usage_row-IsRowOf now id p u,
    rw (IsValid-validate_usage u is_valid, insert_error-calm now id p u rows fresh, new) refl,
  )),
)

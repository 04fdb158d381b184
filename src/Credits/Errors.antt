-- ===== src/Credits/Errors.antt =====
-- The errors of credits/types.go and credits/subscription.go, and those that the functions, also
-- those of payments/payments.go, build on the spot; a constructor stands for an error value, `driver` for an error of database/sql.
use ai_credits.Prelude.{Bool, List, Str, [], false, inl, inr, refl, true, ◌∷◌, ◌≡◌, ◌⊎◌}

pub data Error : Type 0 where
  insufficient_credits reservation_not_found reservation_closed duplicate_grant : Error
  unknown_model subscription_not_found : Error
  required too_long : Str → Error
  grant_amount refund_amount reservation_amount : Error
  request_of_other_user negative_capture : Error
  invalid_billing_mode negative_usage byok_charge : Error
  pricing_negative pricing_overflow estimate_negative estimate_overflow : Error
  invalid_subscription_status : Error
  no_rows no_random : Error
  store_disabled credential_not_found credential_decrypt credential_required : Error
  catalog_item unknown_sku purchase_parties check_failed : Error
  incomplete_event payload_conflict identity_conflict lease_expired : Error
  unsupported_status : Str → Error
  incomplete_subscription_event subscription_grant : Error
  unique_failed : Str → Error
  driver : Str → Error

pub data Result {ℓ} (A : Type ℓ) : Type ℓ where
  err : Error → Result A
  ok : A → Result A

-- A result that is an error ends the function.
infixl 5 ◌>>=◌ ◌>>◌
abbrev pub ◌>>=◌ {ℓ κ} : {A : Type ℓ} {B : Type κ} → Result A → (A → Result B) → Result B
err e >>= rest = err e
ok a >>= rest = rest a

abbrev pub ◌>>◌ {ℓ} : {B : Type ℓ} → Result (Unit {0}) → Result B → Result B
m >> k = m >>= λ _. k

abbrev pub fail_if : Bool → Error → Result (Unit {0})
fail_if true e = err e
fail_if false e = ok tt

-- Checks one after the other: the first that fails decides.
abbrev pub first_error : List (Result (Unit {0})) → Result (Unit {0})
first_error [] = ok tt
first_error (ok _ ∷ rest) = first_error rest
first_error (err e ∷ rest) = err e

pub Result-cases {ℓ} :
    {A : Type ℓ} (r : Result A) → ((e : Error) × (r ≡ err e)) ⊎ ((a : A) × (r ≡ ok a))
Result-cases (ok a) = inr (a, refl)
Result-cases (err e) = inl (e, refl)

-- ===== src/Credits/Byok/Store.antt =====
-- credits/byokstore.go: sealed credentials, one row for each user and provider.
pub mod Laws
pub mod RoundTrip
use ai_credits.Prelude.{
  Bool, List, Option, Str, [], codes, false, if◌then◌else◌, length, ltb, none, not, some, str_eq,
  suc, true, zero, ℕ, ◌&&◌, ◌++◌, ◌∷◌,
}
use ai_credits.Credits.Db.{Env}
use ai_credits.Credits.Errors.{
  Error, Result, credential_decrypt, credential_not_found, credential_required, driver, err,
  fail_if, no_random, no_rows, ok, store_disabled, ◌>>=◌, ◌>>◌,
}
use ai_credits.Credits.Validate.{require_identifier}
use ai_credits.Prelude.Int.{ℤ}

-- golang.org/x/crypto/chacha20poly1305 under a key of 32 bytes: a nonce, a text and the data that go
-- with it give the sealed text, and back, if it is one.
pub record Cipher : Type 0 where
  pub seal_text : Str → Str → Str → Str → Str
  pub open_text : Str → Str → Str → Str → Option Str

-- A row of byok_credentials.
pub record Credential : Type 0 where
  pub user_id : Str
  pub provider : Str
  pub encrypted_key : Str
  pub version : ℕ
  pub previous_key : Option Str
  pub created_at : ℤ
  pub updated_at : ℤ

-- CredentialStore, without its table and clock.
pub record CredentialStore : Type 0 where
  pub cipher : Cipher
  pub blob : Str

abbrev pub zeros : ℕ → Str
zeros zero = []
zeros (suc n) = 0 ∷ zeros n

-- `c.blob != [32]byte{}`
unfoldable pub keyed : CredentialStore → Bool
keyed c = not (str_eq c.blob (zeros 32))

abbrev pub nonce_size : ℕ
nonce_size = 24

-- NonceSizeX + Overhead
abbrev pub min_sealed : ℕ
min_sealed = 40

-- `[]byte(userID + "\x00" + provider)`
abbrev pub owner_data : Str → Str → Str
owner_data user provider = user ++ (0 ∷ provider)

abbrev pub first_bytes : ℕ → Str → Str
first_bytes zero s = []
first_bytes (suc n) [] = []
first_bytes (suc n) (x ∷ s) = x ∷ first_bytes n s

abbrev pub after_bytes : ℕ → Str → Str
after_bytes zero s = s
after_bytes (suc n) [] = []
after_bytes (suc n) (x ∷ s) = after_bytes n s

-- `new_id` of the environment is the nonce that the source of randomness gives.
unfoldable pub seal : CredentialStore → Env → Str → Str → Result Str
seal c env cred aad = elim env.new_id [
  | none ↦ err no_random
  | some nonce ↦ ok (nonce ++ c.cipher.seal_text c.blob nonce cred aad)
]

abbrev pub opened : Option Str → Result Str
opened none = err credential_decrypt
opened (some text) = ok text

unfoldable pub open_sealed : CredentialStore → Str → Str → Result Str
open_sealed c sealed aad =
    if ltb (length sealed) min_sealed
    then err credential_decrypt
    else opened (
        c.cipher.open_text c.blob (first_bytes nonce_size sealed) (after_bytes nonce_size sealed)
          aad)

abbrev pub is_credential : Str → Str → Credential → Bool
is_credential user provider r = str_eq r.user_id user && str_eq r.provider provider

unfoldable pub find_credential : Str → Str → List Credential → Option Credential
find_credential user provider [] = none
find_credential user provider (r ∷ rest) =
    if is_credential user provider r then some r else find_credential user provider rest

-- The key that a rotation keeps; an error of the query is dropped.
abbrev pub kept_key : Option Str → Option Credential → Option Str
kept_key (some x) found = none
kept_key none none = none
kept_key none (some r) = some r.encrypted_key

-- `SELECT COALESCE(MAX(version), 0)`, one more if it is positive, and 1 on an error.
abbrev pub next_version : Option Str → Option Credential → ℕ
next_version (some x) found = 1
next_version none none = 1
next_version none (some r) = if ltb 0 r.version then suc r.version else 1

-- INSERT INTO byok_credentials … ON CONFLICT(user_id, provider) DO UPDATE
unfoldable pub upsert_credential : Credential → List Credential → List Credential
upsert_credential new [] = new ∷ []
upsert_credential new (r ∷ rest) =
    if is_credential new.user_id new.provider r
    then record new { created_at = r.created_at } ∷ rest
    else r ∷ upsert_credential new rest

abbrev pub credential_row : Env → Str → Str → Str → Option Credential → Credential
credential_row env user provider sealed found = record {
  user_id = user;
  provider = provider;
  encrypted_key = sealed;
  version = next_version (env.stmt 1) found;
  previous_key = kept_key (env.stmt 0) found;
  created_at = env.now;
  updated_at = env.now;
}

abbrev pub credential_checks : CredentialStore → Str → Str → Str → Result (Unit {0})
credential_checks c user provider cred = do
  fail_if (not (keyed c)) store_disabled
  require_identifier (codes "user_id") user
  require_identifier (codes "provider") provider
  fail_if (str_eq cred []) credential_required

-- The upsert of Put; the first argument is the driver's error.
abbrev pub write_credential :
    Option Str → Env → Str → Str → Str → List Credential → Result (Unit {0}) × List Credential
write_credential (some x) env user provider sealed rows = (err (driver x), rows)
write_credential none env user provider sealed rows = (
  ok tt,
  upsert_credential (credential_row env user provider sealed (find_credential user provider rows))
      rows,
)

abbrev pub put_sealed :
    Result Str → Env → Str → Str → List Credential → Result (Unit {0}) × List Credential
put_sealed (err x) env user provider rows = (err x, rows)
put_sealed (ok sealed) env user provider rows =
    write_credential (env.stmt 2) env user provider sealed rows

abbrev pub put_checked :
    Result (Unit {0})
    → CredentialStore
    → Env
    → Str
    → Str
    → Str
    → List Credential
    → Result (Unit {0}) × List Credential
put_checked (err x) c env user provider cred rows = (err x, rows)
put_checked (ok u) c env user provider cred rows =
    put_sealed (seal c env cred (owner_data user provider)) env user provider rows

-- `Put`, and `Rotate`, which is the same.
unfoldable pub put_credential :
    CredentialStore → Env → Str → Str → Str → List Credential → Result (Unit {0}) × List Credential
put_credential c env user provider cred rows =
    put_checked (credential_checks c user provider cred) c env user provider cred rows

-- The key of before, where the current one does not open: its error, if that one does not either.
abbrev pub fall_back : Error → Option Str → CredentialStore → Str → Option Str → Result Str
fall_back e (some x) c aad previous = err e
fall_back e none c aad none = err e
fall_back e none c aad (some sealed) =
    if str_eq sealed []
    then err e
    else elim (open_sealed c sealed aad) [ ok text ↦ ok text | err _ ↦ err e ]

abbrev pub open_or_fall_back :
    Result Str → Option Str → CredentialStore → Str → Option Str → Result Str
open_or_fall_back (ok text) x c aad previous = ok text
open_or_fall_back (err e) x c aad previous = fall_back e x c aad previous

abbrev pub found_credential :
    Option Str → Option Credential → CredentialStore → Env → Str → Str → Result Str
found_credential (some x) found c env user provider = err (driver x)
found_credential none none c env user provider = err credential_not_found
found_credential none (some r) c env user provider =
    open_or_fall_back (open_sealed c r.encrypted_key (owner_data user provider)) (env.stmt 1) c
      (owner_data user provider) r.previous_key

unfoldable pub get_credential : CredentialStore → Env → Str → Str → List Credential → Result Str
get_credential c env user provider rows =
    if keyed c
    then found_credential (env.stmt 0) (find_credential user provider rows) c env user provider
    else err store_disabled

unfoldable pub get_version : Env → Str → Str → List Credential → Result ℕ
get_version env user provider rows = elim (env.stmt 0) [
  | some x ↦ err (driver x)
  | none ↦ elim (find_credential user provider rows) [ none ↦ err no_rows | some r ↦ ok r.version ]
]

-- DELETE FROM byok_credentials WHERE user_id = ? AND provider = ?
unfoldable pub without_credential : Str → Str → List Credential → List Credential
without_credential user provider [] = []
without_credential user provider (r ∷ rest) =
    if is_credential user provider r
    then without_credential user provider rest
    else r ∷ without_credential user provider rest

unfoldable pub delete_credential :
    CredentialStore → Env → Str → Str → List Credential → Result (Unit {0}) × List Credential
delete_credential c env user provider rows =
    if keyed c
    then elim (env.stmt 0) [
      | some x ↦ (err (driver x), rows)
      | none ↦ (ok tt, without_credential user provider rows)
    ]
    else (err store_disabled, rows)

unfoldable pub configured : CredentialStore → Env → Str → Str → List Credential → Result Bool
configured c env user provider rows =
    if keyed c
    then elim (env.stmt 0) [
      | some x ↦ err (driver x)
      | none ↦ elim (find_credential user provider rows) [ none ↦ ok false | some r ↦ ok true ]
    ]
    else ok false

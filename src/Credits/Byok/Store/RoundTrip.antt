-- ===== src/Credits/Byok/Store/RoundTrip.antt =====
-- credits/byokstore.go: what Put stores is what Get returns, and no other credential changes.
use ai_credits.Prelude.{
  Bool-cases, List, Option, Option-cases, Str, [], ap, arith, false, inl, inr, length, none, refl,
  some, str_eq, sym, true, ◌&&◌, ◌++◌, ◌∙◌, ◌∷◌, ◌≡◌,
}
use ai_credits.Credits.Byok.Store.{
  Credential, CredentialStore, configured, credential_checks, credential_row, delete_credential,
  find_credential, get_credential, is_credential, keyed, nonce_size, open_sealed, owner_data,
  put_checked, put_credential, put_sealed, seal, upsert_credential, without_credential,
  write_credential,
}
use ai_credits.Credits.Byok.Store.Laws.{
  IsCipher, find_credential-upsert, find_credential-upsert_other, open_sealed-seal,
}
use ai_credits.Credits.Db.{Env}
use ai_credits.Credits.Errors.{Result, credential_not_found, err, ok}

seal-ok :
    (c : CredentialStore) (env : Env) (cred aad sealed : Str)
    → seal c env cred aad ≡ ok sealed
    → (nonce : Str) × (env.new_id ≡ some nonce)
      × (sealed ≡ nonce ++ c.cipher.seal_text c.blob nonce cred aad)
unfolding seal
seal-ok c env cred aad sealed h = elim (Option-cases env.new_id) [
  | inl e ↦ absurd (ground arith)
  | inr (nonce, e) ↦ (nonce, e, ground arith)
]

credential_checks-ok :
    (c : CredentialStore) (user provider cred : Str) (u : Unit)
    → credential_checks c user provider cred ≡ ok u
    → keyed c ≡ true
credential_checks-ok c user provider cred u h = elim (Bool-cases (keyed c)) [
  | inl q ↦ q
  | inr q ↦ absurd (ground arith)
]

-- What a Put has done that succeeds.
abbrev pub Stores :
    CredentialStore → Env → Str → Str → Str → List Credential → List Credential → Type 0
Stores c env user provider cred rows rows' =
    (nonce : Str) × (env.new_id ≡ some nonce)
    × (rows'
        ≡ upsert_credential
            (credential_row env user provider
              (nonce ++ c.cipher.seal_text c.blob nonce cred (owner_data user provider))
              (find_credential user provider rows))
            rows)

write_credential-ok :
    (o : Option Str) (env : Env) (user provider sealed : Str) (rows rows' : List Credential)
    → write_credential o env user provider sealed rows ≡ (ok tt, rows')
    → rows'
      ≡ upsert_credential
          (credential_row env user provider sealed (find_credential user provider rows))
          rows
write_credential-ok (some x) env user provider sealed rows rows' h = absurd (ground arith)
write_credential-ok none env user provider sealed rows rows' h = cc

put_sealed-ok :
    (c : CredentialStore) (r : Result Str) (env : Env) (user provider cred : Str)
    (rows rows' : List Credential)
    → seal c env cred (owner_data user provider) ≡ r
    → put_sealed r env user provider rows ≡ (ok tt, rows')
    → Stores c env user provider cred rows rows'
put_sealed-ok c (err x) env user provider cred rows rows' q h = absurd (ground arith)
put_sealed-ok c (ok sealed) env user provider cred rows rows' q h =
    let (nonce, made, e) = seal-ok c env cred _ sealed q in
    (
      nonce,
      made,
      write_credential-ok (env.stmt 2) env user provider sealed rows rows' h
          ∙ ap
              (λ s.
                upsert_credential
                  (credential_row env user provider s (find_credential user provider rows)) rows)
              e,
    )

put_checked-ok :
    (c : CredentialStore) (r : Result (Unit {0})) (env : Env) (user provider cred : Str)
    (rows rows' : List Credential)
    → credential_checks c user provider cred ≡ r
    → put_checked r c env user provider cred rows ≡ (ok tt, rows')
    → (keyed c ≡ true) × Stores c env user provider cred rows rows'
put_checked-ok c (err x) env user provider cred rows rows' q h = absurd (ground arith)
put_checked-ok c (ok u) env user provider cred rows rows' q h = (
  credential_checks-ok c user provider cred u q,
  put_sealed-ok c _ env user provider cred rows rows' refl h,
)

-- A query of one credential and what it returns.
get_found :
    (c : CredentialStore) (env : Env) (user provider cred : Str) (rows : List Credential)
    (r : Credential)
    → keyed c ≡ true
    → env.stmt 0 ≡ none
    → find_credential user provider rows ≡ some r
    → open_sealed c r.encrypted_key (owner_data user provider) ≡ ok cred
    → get_credential c env user provider rows ≡ ok cred
unfolding get_credential
get_found c env user provider cred rows r k calm_query found opens =
    rw (k, calm_query, found, opens) refl

get_same :
    (c : CredentialStore) (env : Env) (user provider : Str) (rows rows' : List Credential)
    → find_credential user provider rows' ≡ find_credential user provider rows
    → get_credential c env user provider rows' ≡ get_credential c env user provider rows
unfolding get_credential
get_same c env user provider rows rows' e = rw e refl

-- If Put or Rotate succeeds, with a cipher that opens what it has sealed and a nonce of 24 bytes,
-- then Get returns the credential, whatever was stored before and however it was sealed, and for
-- every other user or provider it returns what it would have returned before.
pub get-put_credential :
    (c : CredentialStore) (env env' : Env) (user provider cred : Str) (rows rows' : List Credential)
    → IsCipher c.cipher
    → ((nonce : Str) → env.new_id ≡ some nonce → length nonce ≡ nonce_size)
    → env'.stmt 0 ≡ none
    → put_credential c env user provider cred rows ≡ (ok tt, rows')
    → (get_credential c env' user provider rows' ≡ ok cred)
      × ((user' provider' : Str)
          → (str_eq user user' && str_eq provider provider') ≡ false
          → get_credential c env' user' provider' rows'
            ≡ get_credential c env' user' provider' rows)
unfolding put_credential
get-put_credential c env env' user provider cred rows rows' good size calm_query h =
    let (k, (nonce, made, e)) = put_checked-ok c _ env user provider cred rows rows' refl h in
    let new =
      credential_row env user provider
        (nonce ++ c.cipher.seal_text c.blob nonce cred (owner_data user provider))
        (find_credential user provider rows) in
    let (t, found) = find_credential-upsert new rows in
    (
      get_found c env' user provider cred rows' (record new { created_at = t }) k calm_query
          (ap (find_credential user provider) e ∙ found)
          (open_sealed-seal c nonce cred (owner_data user provider) good (size nonce made)),
      λ user' provider' other. get_same c env' user' provider' rows rows' (
          ap (find_credential user' provider') e
          ∙ find_credential-upsert_other user' provider' new rows other),
    )

without_none :
    (user provider : Str) (rows : List Credential)
    → find_credential user provider (without_credential user provider rows) ≡ none
unfolding find_credential without_credential
without_none user provider [] = refl
without_none user provider (r ∷ rows) = elim (Bool-cases (is_credential user provider r)) [
  | inl q ↦ rw q (without_none user provider rows)
  | inr q ↦ rw (q, q) (without_none user provider rows)
]

-- After a Delete that succeeds, Get finds no credential and Configured says so.
pub get-delete_credential :
    (c : CredentialStore) (env env' : Env) (user provider : Str) (rows rows' : List Credential)
    → env'.stmt 0 ≡ none
    → delete_credential c env user provider rows ≡ (ok tt, rows')
    → (get_credential c env' user provider rows' ≡ err credential_not_found)
      × (configured c env' user provider rows' ≡ ok false)
unfolding delete_credential get_credential configured
get-delete_credential c env env' user provider rows rows' calm_query h =
    elim (Bool-cases (keyed c)) [
      | inr k ↦ absurd (ground (arith, rw k at h))
      | inl k ↦ elim (Option-cases (env.stmt 0)) [
        | inr (x, s) ↦ absurd (ground (arith, rw (k, s) at h))
        | inl s ↦
            let gone =
              ap (find_credential user provider) (sym (ap (λ o. o.1) (rw (k, s) at h)))
              ∙ without_none user provider rows in
            (rw (k, calm_query, gone) refl, rw (k, calm_query, gone) refl)
      ]
    ]

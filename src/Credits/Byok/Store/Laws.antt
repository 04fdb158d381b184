-- ===== src/Credits/Byok/Store/Laws.antt =====
-- credits/byokstore.go: sealing and opening, and what an upsert leaves of the table.
use ai_credits.Prelude.{
  Bool-cases, List, Str, [], ap, arith, false, inl, inr, length, ltb, refl, some, str_eq_refl,
  str_eq→eq, suc, true, zero, ℕ, ◌++◌, ◌+◌, ◌∷◌, ◌≡◌, ◌≤◌,
}
use ai_credits.Credits.Byok.Store.{
  Cipher, Credential, CredentialStore, after_bytes, find_credential, first_bytes, is_credential,
  min_sealed, nonce_size, open_sealed, upsert_credential,
}
use ai_credits.Credits.Errors.{ok}
use ai_credits.Prelude.Int.{ℤ}

-- What is documented of XChaCha20-Poly1305: it opens what it has sealed, and adds a tag of 16 bytes.
pub record IsCipher (c : Cipher) : Type 0 where
  pub opens :
      (key nonce text aad : Str)
      → c.open_text key nonce (c.seal_text key nonce text aad) aad ≡ some text
  pub tagged : (key nonce text aad : Str) → 16 ≤ length (c.seal_text key nonce text aad)

first_bytes-append :
    (n : ℕ) (a b : Str) → length a ≡ n → (first_bytes n (a ++ b) ≡ a) × (after_bytes n (a ++ b) ≡ b)
first_bytes-append zero [] b h = (refl, refl)
first_bytes-append zero (x ∷ a) b h = absurd (omega arith)
first_bytes-append (suc n) [] b h = absurd (omega arith)
first_bytes-append (suc n) (x ∷ a) b h =
    let (p, q) = first_bytes-append n a b (omega arith) in (ap (λ l. x ∷ l) p, q)

length-append : (a b : Str) → length (a ++ b) ≡ length a + length b
length-append [] b = omega arith
length-append (x ∷ a) b = omega (arith, length-append a b)

-- A text that was sealed under a nonce of 24 bytes opens again.
pub open_sealed-seal :
    (c : CredentialStore) (nonce cred aad : Str)
    → IsCipher c.cipher
    → length nonce ≡ nonce_size
    → open_sealed c (nonce ++ c.cipher.seal_text c.blob nonce cred aad) aad ≡ ok cred
unfolding open_sealed
open_sealed-seal c nonce cred aad good size =
    let ct = c.cipher.seal_text c.blob nonce cred aad in
    let (p, q) = first_bytes-append nonce_size nonce ct size in
    let long = good.tagged c.blob nonce cred aad in
    let all = length-append nonce ct in
    rw (enough (length (nonce ++ ct)) (omega arith), p, q, good.opens c.blob nonce cred aad) refl
  where
    enough : (n : ℕ) → min_sealed ≤ n → ltb n min_sealed ≡ false
    enough n h = ground arith

is_credential-both :
    (user provider : Str) (new r : Credential)
    → is_credential new.user_id new.provider r ≡ true
    → is_credential user provider r ≡ is_credential user provider new
is_credential-both user provider new r h =
    let p = str_eq→eq r.user_id new.user_id (ground arith) in
    let i = str_eq→eq r.provider new.provider (ground arith) in rw (p, i) refl

is_credential_self : (new : Credential) → is_credential new.user_id new.provider new ≡ true
is_credential_self new = rw (str_eq_refl new.user_id, str_eq_refl new.provider) refl

-- The row that an upsert has written, with the time of its creation.
pub find_credential-upsert :
    (new : Credential) (rows : List Credential)
    → (t : ℤ) × (find_credential new.user_id new.provider (upsert_credential new rows)
        ≡ some (record new { created_at = t }))
unfolding find_credential upsert_credential
find_credential-upsert new [] = (new.created_at, rw (is_credential_self new) refl)
find_credential-upsert new (r ∷ rows) =
    elim (Bool-cases (is_credential new.user_id new.provider r)) [
      | inl q ↦ (r.created_at, rw (q, is_credential_self new) refl)
      | inr q ↦ let (t, e) = find_credential-upsert new rows in (t, rw (q, q) e)
    ]

pub find_credential-upsert_other :
    (user provider : Str) (new : Credential) (rows : List Credential)
    → is_credential user provider new ≡ false
    → find_credential user provider (upsert_credential new rows)
      ≡ find_credential user provider rows
unfolding find_credential upsert_credential
find_credential-upsert_other user provider new [] h = rw h refl
find_credential-upsert_other user provider new (r ∷ rows) h =
    elim (Bool-cases (is_credential new.user_id new.provider r)) [
      | inl q ↦ rw (q, h, is_credential-both user provider new r q, h) refl
      | inr q ↦ rw q (elim (Bool-cases (is_credential user provider r)) [
        | inl k ↦ rw k refl
        | inr k ↦ rw k (find_credential-upsert_other user provider new rows h)
      ])
    ]

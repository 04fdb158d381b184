-- ===== src/Credits/Monthly/Key.antt =====
-- credits/monthly.go: the keys of monthly grants.
use ai_credits.Prelude.{
  Str, [], ap, append-cancel_left, arith, codes, length, refl, ℕ, ◌++◌, ◌+◌, ◌∷◌, ◌≡◌,
}
use ai_credits.Credits.Monthly.{monthly_grant_key, monthly_prefix}

length-append : (a b : Str) → length (a ++ b) ≡ length a + length b
length-append [] b = omega arith
length-append (x ∷ a) b = omega (arith, length-append a b)

tail_eq : (x y : ℕ) (a b : Str) → x ∷ a ≡ y ∷ b → (x ≡ y) × (a ≡ b)
tail_eq x y a b h = (cc, cc)

append-inj : (a b c d : Str) → length b ≡ length d → a ++ b ≡ c ++ d → (a ≡ c) × (b ≡ d)
append-inj [] b [] d l h = (refl, h)
append-inj [] b (y ∷ c) d l h = absurd (omega (arith, l, ap length h, length-append (y ∷ c) d))
append-inj (x ∷ a) b [] d l h = absurd (omega (arith, l, ap length h, length-append (x ∷ a) b))
append-inj (x ∷ a) b (y ∷ c) d l h =
    let (e, t) = tail_eq x y (a ++ b) (c ++ d) h in
    let (p, q) = append-inj a b c d l t in (rw (e, p) refl, q)

-- Two grants have the same key only if they are of the same user and month, where the months are
-- written with the same number of bytes: no user id, whatever bytes it has, takes another's grant.
pub monthly_grant_key_inj :
    (user user' period period' : Str)
    → length period ≡ length period'
    → monthly_grant_key user period ≡ monthly_grant_key user' period'
    → (user ≡ user') × (period ≡ period')
unfolding monthly_grant_key
monthly_grant_key_inj user user' period period' l h =
    let rest = append-cancel_left monthly_prefix _ _ h in
    let (p, q) =
      append-inj user (codes ":" ++ period) user' (codes ":" ++ period') (omega arith) rest in
    (p, append-cancel_left (codes ":") period period' q)

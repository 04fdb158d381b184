-- ===== src/Credits/Byok/Path/Laws.antt =====
-- credits/byoksplit.go: the path that a client writes is taken apart again.
use ai_credits.Prelude.{
  Bool, Bool-cases, Str, [], ap, arith, codes, false, inl, inr, refl, some, str_dec, ℕ, ◌++◌, ◌==◌,
  ◌||◌, ◌∙◌, ◌∷◌, ◌≡◌,
}
use ai_credits.Credits.Byok.Path.{
  all_slashes, cut_slash, first_part, split_path, third_part, trim_end, trim_front,
}

abbrev pub has_slash : Str → Bool
has_slash [] = false
has_slash (b ∷ s) = b == 47 || has_slash s

cut_slash-join : (a s : Str) → has_slash a ≡ false → cut_slash (a ++ (47 ∷ s)) ≡ (a, some s)
unfolding cut_slash
cut_slash-join [] s h = refl
cut_slash-join (b ∷ a) s h = elim (Bool-cases (b == 47)) [
  | inl q ↦ absurd (ground (arith, rw q at h))
  | inr q ↦ rw q (ap (λ x. (b ∷ x.0, x.1)) (cut_slash-join a s (rw q at h)))
]

all_slashes-append : (a s : Str) → all_slashes s ≡ false → all_slashes (a ++ s) ≡ false
all_slashes-append [] s h = h
all_slashes-append (b ∷ a) s h = elim (Bool-cases (b == 47)) [
  | inl q ↦ rw q (all_slashes-append a s h)
  | inr q ↦ rw q refl
]

-- A text that does not end with a slash, behind any other.
trim_end-append : (a s : Str) → all_slashes s ≡ false → trim_end s ≡ s → trim_end (a ++ s) ≡ a ++ s
unfolding trim_end
trim_end-append [] s h e = e
trim_end-append (b ∷ a) s h e =
    rw (all_slashes-append (b ∷ a) s h) (ap (λ t. b ∷ t) (trim_end-append a s h e))

third_part-join :
    (b : ℕ) (p rest : Str)
    → has_slash (b ∷ p) ≡ false
    → third_part (cut_slash ((b ∷ p) ++ (47 ∷ rest))) ≡ (b ∷ p, rest)
third_part-join b p rest h = ap third_part (cut_slash-join (b ∷ p) rest h)

-- A path of the relay, `/api/byok/`, the provider, a slash and the rest, is taken apart into the
-- provider and the rest, if the provider is not empty and has no slash, and the rest does not end
-- with one.
pub split_path-join :
    (b : ℕ) (p rest : Str)
    → has_slash (b ∷ p) ≡ false
    → all_slashes rest ≡ false
    → trim_end rest ≡ rest
    → split_path (codes "/api/byok/" ++ ((b ∷ p) ++ (47 ∷ rest))) ≡ (b ∷ p, rest)
unfolding split_path trim_front cut_slash str_dec
split_path-join b p rest h some_rest e =
    ap (λ t. first_part (cut_slash t))
      (trim_end-append (codes "api/byok/") _ (all_slashes-append (b ∷ p) (47 ∷ rest) some_rest) (
        trim_end-append (b ∷ p) (47 ∷ rest) some_rest (trim_end-append (47 ∷ []) rest some_rest e)))
    ∙ third_part-join b p rest h

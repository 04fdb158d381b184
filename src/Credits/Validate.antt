-- ===== src/Credits/Validate.antt =====
-- credits/validate.go: identifiers, and `strings.TrimSpace(value) == ""` on the bytes of a string.
pub mod Laws
use ai_credits.Prelude.{
  Bool, List, Str, [], false, if◌then◌else◌, leb, length, ltb, true, ℕ, ◌&&◌, ◌==◌, ◌||◌, ◌∷◌,
}
use ai_credits.Credits.Errors.{Result, err, ok, required, too_long, ◌>>=◌, ◌>>◌}

-- The white space of one byte in UTF-8: tab, line feed, vertical tab, form feed, return, space.
abbrev pub ascii_space : ℕ → Bool
ascii_space b = (leb 9 b && leb b 13) || b == 32

-- The white space of two bytes: U+0085 and U+00A0.
abbrev pub space_of_2 : ℕ → ℕ → Bool
space_of_2 a b = a == 0xc2 && (b == 0x85 || b == 0xa0)

-- The white space of three bytes: U+1680, U+2000 to U+200A, U+2028, U+2029, U+202F, U+205F, U+3000.
abbrev pub space_of_3 : ℕ → ℕ → ℕ → Bool
space_of_3 a b c =
    (a == 0xe1 && b == 0x9a && c == 0x80)
    || (a == 0xe2
        && b == 0x80
        && ((leb 0x80 c && leb c 0x8a) || c == 0xa8 || c == 0xa9 || c == 0xaf))
    || (a == 0xe2 && b == 0x81 && c == 0x9f)
    || (a == 0xe3 && b == 0x80 && c == 0x80)

-- `strings.TrimSpace(s) == ""`
unfoldable pub is_blank : Str → Bool
is_blank [] = true
is_blank (a ∷ []) = ascii_space a
is_blank (a ∷ b ∷ []) = (ascii_space a && ascii_space b) || space_of_2 a b
is_blank (a ∷ b ∷ c ∷ s) =
    let rest1 = is_blank (b ∷ c ∷ s) in
    let rest2 = is_blank (c ∷ s) in
    let rest3 = is_blank s in
    if ascii_space a
    then rest1
    else if space_of_2 a b
    then rest2
    else if space_of_3 a b c
    then rest3
    else false

abbrev pub max_identifier_length : ℕ
max_identifier_length = 512

unfoldable pub require_identifier : Str → Str → Result (Unit {0})
require_identifier name value =
    if is_blank value
    then err (required name)
    else if ltb max_identifier_length (length value)
    then err (too_long name)
    else ok tt

-- The loop over a map of names and values. Go leaves the order open in which a map is walked, so
-- which of several bad fields is reported is open too.
unfoldable pub require_identifiers : List (Str × Str) → Result (Unit {0})
require_identifiers [] = ok tt
require_identifiers ((name, value) ∷ rest) = do
  require_identifier name value
  require_identifiers rest

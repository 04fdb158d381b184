-- ===== src/Credits/Byok/Path.antt =====
-- credits/byoksplit.go, credits/byokoutpath.go: the paths of the relay. 47 is the byte of a slash.
pub mod Laws
use ai_credits.Prelude.{
  Bool, Option, Str, [], codes, if◌then◌else◌, none, some, str_eq, true, ◌&&◌, ◌++◌, ◌==◌, ◌||◌,
  ◌∷◌,
}

-- `strings.Trim(s, "/")` at the front and at the end.
unfoldable pub trim_front : Str → Str
trim_front [] = []
trim_front (b ∷ s) = let rest = trim_front s in if b == 47 then rest else b ∷ s

-- Does a string hold nothing but slashes?
abbrev pub all_slashes : Str → Bool
all_slashes [] = true
all_slashes (b ∷ s) = b == 47 && all_slashes s

unfoldable pub trim_end : Str → Str
trim_end [] = []
trim_end (b ∷ s) = let rest = trim_end s in if all_slashes (b ∷ s) then [] else b ∷ rest

abbrev pub trim_slashes : Str → Str
trim_slashes s = trim_end (trim_front s)

-- What stands in front of the first slash, and behind it if there is one.
unfoldable pub cut_slash : Str → Str × Option Str
cut_slash [] = ([], none)
cut_slash (b ∷ s) =
    let (front, back) = cut_slash s in if b == 47 then ([], some s) else (b ∷ front, back)

-- The third and the fourth of at most four parts, if the first two are `api` and `byok`.
abbrev pub third_part : Str × Option Str → Str × Str
third_part ([], back) = ([], [])
third_part (b ∷ s, none) = (b ∷ s, [])
third_part (b ∷ s, some rest) = (b ∷ s, rest)

abbrev pub second_part : Str × Option Str → Str × Str
second_part (part, none) = ([], [])
second_part (part, some rest) =
    if str_eq part (codes "byok") then third_part (cut_slash rest) else ([], [])

abbrev pub first_part : Str × Option Str → Str × Str
first_part (part, none) = ([], [])
first_part (part, some rest) =
    if str_eq part (codes "api") then second_part (cut_slash rest) else ([], [])

-- `splitPath`: the provider and the rest, both empty if the path is none of the relay's.
unfoldable pub split_path : Str → Str × Str
split_path p = first_part (cut_slash (trim_slashes p))

-- `strings.HasSuffix` and `strings.TrimSuffix`
unfoldable pub has_suffix : Str → Str → Bool
has_suffix [] t = str_eq [] t
has_suffix (b ∷ s) t = str_eq (b ∷ s) t || has_suffix s t

unfoldable pub trim_suffix : Str → Str → Str
trim_suffix [] t = []
trim_suffix (b ∷ s) t = let rest = trim_suffix s t in if str_eq (b ∷ s) t then [] else b ∷ rest

-- The base without its last segment, if the rest begins with that.
abbrev pub base_without : Str → Str → Str
base_without base first =
    if has_suffix base first then trim_suffix (trim_suffix base (47 ∷ [])) first else base

abbrev pub joined : Str → Str → Str
joined [] rest = 47 ∷ rest
joined (b ∷ s) rest = 47 ∷ ((b ∷ s) ++ (47 ∷ rest))

abbrev pub only_base : Str → Str
only_base base = 47 ∷ base

abbrev pub outbound_trimmed : Str → Str → Str
outbound_trimmed base [] = only_base base
outbound_trimmed [] (b ∷ s) = joined [] (b ∷ s)
outbound_trimmed (c ∷ base) (b ∷ s) = joined (base_without (c ∷ base) (cut_slash (b ∷ s)).0) (b ∷ s)

-- `outboundPath`
unfoldable pub outbound_path : Str → Str → Str
outbound_path base rest =
    outbound_trimmed (trim_slashes (trim_suffix base (47 ∷ []))) (trim_slashes rest)

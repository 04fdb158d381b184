-- ===== src/Credits/Byok/Capture.antt =====
-- credits/byokcapture.go: the usage that a relayed response reports.
pub mod Chunks
use ai_credits.Prelude.{
  Bool, List, Option, Str, [], codes, false, if◌then◌else◌, leb, length, none, not, some, true, ℕ,
  ◌&&◌, ◌++◌, ◌+◌, ◌==◌, ◌∷◌,
}
use ai_credits.Credits.Db.{Env}
use ai_credits.Credits.Errors.{Result, ok}
use ai_credits.Credits.Pricing.{Pricer}
use ai_credits.Credits.Usage.{Usage, UsageRow, record_usage_retry, starts_with}
use ai_credits.Credits.Validate.{ascii_space, is_blank, space_of_2, space_of_3}
use ai_credits.Prelude.Int.{ℤ}

-- `1 << 20`
abbrev pub max_usage_capture_bytes : ℕ
max_usage_capture_bytes = 1048576

-- The payload `usage`; `cached` is there if its details are.
pub record OpenaiUsage : Type 0 where
  pub prompt_tokens : ℤ
  pub completion_tokens : ℤ
  pub total_tokens : ℤ
  pub cached : Option ℤ

-- encoding/json on a document with a field `usage`: `none` if it is no such document, and inside
-- that, `none` if the field is missing or null.
abbrev pub Decoder : Type 0
Decoder = Str → Option (Option OpenaiUsage)

-- The fields of usageRW that `capture` changes.
pub record Captured : Type 0 where
  pub body : Str
  pub line : Str
  pub usage : Option OpenaiUsage
  pub stream : Bool

-- `bytes.TrimSpace`: white space at the front, and the longest end that is white space.
unfoldable pub trim_left : Str → Str
trim_left [] = []
trim_left (a ∷ []) = if ascii_space a then [] else a ∷ []
trim_left (a ∷ b ∷ []) =
    let rest1 = trim_left (b ∷ []) in
    if ascii_space a then rest1 else if space_of_2 a b then [] else a ∷ b ∷ []
trim_left (a ∷ b ∷ c ∷ s) =
    let rest1 = trim_left (b ∷ c ∷ s) in
    let rest2 = trim_left (c ∷ s) in
    let rest3 = trim_left s in
    if ascii_space a
    then rest1
    else if space_of_2 a b
    then rest2
    else if space_of_3 a b c
    then rest3
    else a ∷ b ∷ c ∷ s

unfoldable pub trim_right : Str → Str
trim_right [] = []
trim_right (a ∷ s) = let rest = trim_right s in if is_blank (a ∷ s) then [] else a ∷ rest

abbrev pub trim_space : Str → Str
trim_space s = trim_right (trim_left s)

abbrev pub data_prefix : Str
data_prefix = codes "data:"

-- What follows the prefix `data:` of a line.
abbrev pub after_prefix : Str → Str
after_prefix (_ ∷ _ ∷ _ ∷ _ ∷ _ ∷ s) = s
after_prefix _ = []

abbrev pub usage_or : Option OpenaiUsage → Option (Option OpenaiUsage) → Option OpenaiUsage
usage_or old (some (some u)) = some u
usage_or old (some none) = old
usage_or old none = old

unfoldable pub parse_line : Decoder → Captured → Captured
parse_line decode u =
    let line = trim_space u.line in
    if starts_with line data_prefix
    then record u { usage = usage_or u.usage (decode (trim_space (after_prefix line))) }
    else u

unfoldable pub append_line : Str → Captured → Captured
append_line p u =
    if leb (length u.line + length p) max_usage_capture_bytes
    then record u { line = u.line ++ p }
    else u

-- A line feed: the line is parsed and reset.
abbrev pub end_line : Decoder → Captured → Captured
end_line decode u = record (parse_line decode u) { line = [] }

-- The loop of `capture` over a chunk; `piece` is what it has passed since the last line feed.
unfoldable pub capture_lines : Decoder → Str → Str → Captured → Captured
capture_lines decode [] piece u = append_line piece u
capture_lines decode (b ∷ p) piece u =
    let ended = capture_lines decode p [] (end_line decode (append_line piece u)) in
    let longer = capture_lines decode p (piece ++ (b ∷ [])) u in if b == 10 then ended else longer

unfoldable pub append_body : Str → Captured → Captured
append_body p u =
    if leb (length u.body + length p) max_usage_capture_bytes
    then record u { body = u.body ++ p }
    else u

-- A chunk that begins with `data:` turns a response into a stream.
unfoldable pub detect_stream : Str → Captured → Captured
detect_stream p u =
    if not u.stream && starts_with (trim_space p) data_prefix
    then record u { stream = true; body = [] }
    else u

unfoldable pub capture : Decoder → Str → Captured → Captured
capture decode p u =
    let v = detect_stream p u in if v.stream then capture_lines decode p [] v else append_body p v

abbrev pub whole_usage : Option OpenaiUsage → Option (Option OpenaiUsage) → Option OpenaiUsage
whole_usage old none = old
whole_usage old (some found) = found

-- The usage with which recordUsage goes on.
unfoldable pub usage_found : Decoder → Captured → Option OpenaiUsage
usage_found decode u = if u.stream then u.usage else whole_usage u.usage (decode u.body)

abbrev pub stamp_or : ℤ → Option ℤ → Option ℤ
stamp_or now none = some now
stamp_or now (some t) = some t

abbrev pub cached_or : ℤ → Option ℤ → ℤ
cached_or old none = old
cached_or old (some n) = n

abbrev pub usage_record : ℤ → Usage → OpenaiUsage → Usage
usage_record now rec u = record rec {
  created_at = stamp_or now rec.created_at;
  input_tokens = u.prompt_tokens;
  output_tokens = u.completion_tokens;
  cached_tokens = cached_or rec.cached_tokens u.cached;
}

-- `recordUsage`, at the time `now`; the other arguments are those of RecordUsageRetry.
unfoldable pub record_captured :
    Decoder
    → ℤ
    → (ℕ → Env)
    → (ℕ → Option Str)
    → Pricer
    → Usage
    → Captured
    → List UsageRow
    → Result (Unit {0}) × List UsageRow
record_captured decode now each ended p rec u rows = elim (usage_found decode u) [
  | none ↦ (ok tt, rows)
  | some found ↦ record_usage_retry each ended p (usage_record now rec found) rows
]

-- `finish`: its error is only logged, and a second call does nothing.
unfoldable pub finish :
    Decoder
    → ℤ
    → (ℕ → Env)
    → (ℕ → Option Str)
    → Pricer
    → Usage
    → Captured
    → Bool × List UsageRow
    → Bool × List UsageRow
finish decode now each ended p rec u (true, rows) = (true, rows)
finish decode now each ended p rec u (false, rows) =
    (true, (record_captured decode now each ended p rec u rows).1)

-- ===== src/Credits/Byok/Capture/Chunks.antt =====
-- credits/byokcapture.go: a stream reports the same usage however it is cut into chunks.
use ai_credits.Prelude.{
  Bool, Bool-cases, List, Str, [], ap, append_assoc, arith, false, if◌then◌else◌, inl, inr, length,
  refl, subst, suc, sym, true, ℕ, ◌++◌, ◌+◌, ◌==◌, ◌∙◌, ◌∷◌, ◌≡◌, ◌≤◌,
}
use ai_credits.Credits.Byok.Capture.{
  Captured, Decoder, append_body, append_line, capture, capture_lines, detect_stream, end_line,
  max_usage_capture_bytes, parse_line,
}

-- The reference: one byte at a time, into a line without a bound.
abbrev pub feed_at : Bool → Decoder → ℕ → Captured → Captured
feed_at true decode b u = end_line decode u
feed_at false decode b u = record u { line = u.line ++ (b ∷ []) }

abbrev pub feed_byte : Decoder → ℕ → Captured → Captured
feed_byte decode b u = feed_at (b == 10) decode b u

abbrev pub feed : Decoder → Str → Captured → Captured
feed decode [] u = u
feed decode (b ∷ p) u = feed decode p (feed_byte decode b u)

-- No line grows beyond the bound, if `n` bytes of the first are there.
abbrev pub LinesFit : ℕ → Str → Type 0
LinesFit n [] = n ≤ max_usage_capture_bytes
LinesFit n (b ∷ p) =
    (n ≤ max_usage_capture_bytes) × (if b == 10 then LinesFit 0 p else LinesFit (suc n) p)

LinesFit-le : (n : ℕ) (p : Str) → LinesFit n p → n ≤ max_usage_capture_bytes
LinesFit-le n [] h = h
LinesFit-le n (b ∷ p) h = h.0

length-append : (a b : Str) → length (a ++ b) ≡ length a + length b
length-append [] b = omega arith
length-append (x ∷ a) b = omega (arith, length-append a b)

abbrev with_piece : Str → Captured → Captured
with_piece piece u = record u { line = u.line ++ piece }

append_line-fits :
    (piece : Str) (u : Captured)
    → length u.line + length piece ≤ max_usage_capture_bytes
    → append_line piece u ≡ with_piece piece u
unfolding append_line
append_line-fits piece u h = ground arith

grown :
    (b : ℕ) (piece : Str) (u : Captured)
    → suc (length u.line + length piece) ≡ length u.line + length (piece ++ (b ∷ []))
grown b piece u = omega (arith, length-append piece (b ∷ []))

-- A chunk is fed byte by byte, behind what the line and the piece hold.
capture_lines_lem :
    (decode : Decoder) (p piece : Str) (u : Captured)
    → LinesFit (length u.line + length piece) p
    → capture_lines decode p piece u ≡ feed decode p (with_piece piece u)
unfolding capture_lines
capture_lines_lem decode [] piece u h = append_line-fits piece u h
capture_lines_lem decode (b ∷ p) piece u h = elim (Bool-cases (b == 10)) [
  | inl q ↦
      rw (q, append_line-fits piece u h.0)
        (capture_lines_lem decode p [] (end_line decode (with_piece piece u)) (rw q at h.1))
  | inr q ↦ rw q (
      capture_lines_lem decode p (piece ++ (b ∷ [])) u
        (subst (λ n. LinesFit n p) (grown b piece u) (rw q at h.1))
      ∙ ap (λ l. feed decode p (record u { line = l })) (sym (append_assoc u.line piece (b ∷ []))))
]

LinesFit-front : (n : ℕ) (p q : Str) → LinesFit n (p ++ q) → LinesFit n p
LinesFit-front n [] q h = LinesFit-le n q h
LinesFit-front n (b ∷ p) q h = elim (Bool-cases (b == 10)) [
  | inl e ↦ (h.0, rw e (LinesFit-front 0 p q (rw e at h.1)))
  | inr e ↦ (h.0, rw e (LinesFit-front (suc n) p q (rw e at h.1)))
]

byte_fits :
    (x : Bool) (decode : Decoder) (b : ℕ) (q : Str) (u : Captured)
    → (if x then LinesFit 0 q else LinesFit (suc (length u.line)) q)
    → LinesFit (length (feed_at x decode b u).line) q
byte_fits true decode b q u h = h
byte_fits false decode b q u h =
    subst (λ n. LinesFit n q) (omega (arith, length-append u.line (b ∷ []))) h

-- The rest fits behind what was fed.
LinesFit-rest :
    (decode : Decoder) (p q : Str) (u : Captured)
    → LinesFit (length u.line) (p ++ q)
    → LinesFit (length (feed decode p u).line) q
LinesFit-rest decode [] q u h = h
LinesFit-rest decode (b ∷ p) q u h =
    LinesFit-rest decode p q (feed_byte decode b u) (byte_fits (b == 10) decode b (p ++ q) u h.1)

feed-append :
    (decode : Decoder) (p q : Str) (u : Captured)
    → feed decode (p ++ q) u ≡ feed decode q (feed decode p u)
feed-append decode [] q u = refl
feed-append decode (b ∷ p) q u = feed-append decode p q (feed_byte decode b u)

parse_line-stream : (decode : Decoder) (u : Captured) → (parse_line decode u).stream ≡ u.stream
unfolding parse_line
parse_line-stream decode u = ground arith

feed_at-stream :
    (x : Bool) (decode : Decoder) (b : ℕ) (u : Captured) → (feed_at x decode b u).stream ≡ u.stream
feed_at-stream true decode b u = parse_line-stream decode u
feed_at-stream false decode b u = refl

feed-stream : (decode : Decoder) (p : Str) (u : Captured) → (feed decode p u).stream ≡ u.stream
feed-stream decode [] u = refl
feed-stream decode (b ∷ p) u =
    feed-stream decode p (feed_byte decode b u) ∙ feed_at-stream (b == 10) decode b u

detect_stream-same : (p : Str) (u : Captured) → u.stream ≡ true → detect_stream p u ≡ u
unfolding detect_stream
detect_stream-same p u s = rw s refl

append_none : (l : Str) → l ++ [] ≡ l
append_none [] = refl
append_none (x ∷ l) = ap (λ t. x ∷ t) (append_none l)

no_piece : (n : ℕ) → n ≡ n + 0
no_piece n = omega arith

-- One call of `capture` in a stream.
capture-feed :
    (decode : Decoder) (p : Str) (u : Captured)
    → u.stream ≡ true
    → LinesFit (length u.line) p
    → capture decode p u ≡ feed decode p u
unfolding capture
capture-feed decode p u s h =
    ap (λ v. if v.stream then capture_lines decode p [] v else append_body p v)
      (detect_stream-same p u s)
    ∙ streaming
  where
    behind : LinesFit (length u.line + 0) p
    behind = subst (λ n. LinesFit n p) (no_piece (length u.line)) h

    all_lines : capture_lines decode p [] u ≡ feed decode p u
    all_lines =
        capture_lines_lem decode p [] u behind
        ∙ ap (λ l. feed decode p (record u { line = l })) (append_none u.line)

    streaming :
        (if u.stream then capture_lines decode p [] u else append_body p u) ≡ feed decode p u
    streaming = ap (λ x. if x then capture_lines decode p [] u else append_body p u) s ∙ all_lines

-- The chunks of a response, one call of `capture` after the other, and their bytes.
abbrev pub capture_all : Decoder → List Str → Captured → Captured
capture_all decode [] u = u
capture_all decode (p ∷ rest) u = capture_all decode rest (capture decode p u)

abbrev pub all_bytes : List Str → Str
all_bytes [] = []
all_bytes (p ∷ rest) = p ++ all_bytes rest

-- Once a response is a stream, `capture` has the same effect however its bytes are cut into chunks,
-- also in the middle of a line: that of the reference, which reads one byte after the other; if no
-- line is longer than the bound of the buffer.
pub capture_is_feed :
    (decode : Decoder) (chunks : List Str) (u : Captured)
    → u.stream ≡ true
    → LinesFit (length u.line) (all_bytes chunks)
    → capture_all decode chunks u ≡ feed decode (all_bytes chunks) u
capture_is_feed decode [] u s h = refl
capture_is_feed decode (p ∷ rest) u s h =
    let one = capture-feed decode p u s (LinesFit-front _ p (all_bytes rest) h) in
    ap (capture_all decode rest) one
    ∙ capture_is_feed decode rest (feed decode p u) (feed-stream decode p u ∙ s)
        (LinesFit-rest decode p (all_bytes rest) u h)
    ∙ sym (feed-append decode p (all_bytes rest) u)

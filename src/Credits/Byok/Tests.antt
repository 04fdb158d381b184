-- ===== src/Credits/Byok/Tests.antt =====
-- Runs of the relay's parts, and the witnesses of their theorems.
use ai_credits.Prelude.{
  List, Str, [], ap, arith, codes, false, if◌then◌else◌, length, none, refl, some, str_dec, str_eq,
  sym, true, ◌&&◌, ◌++◌, ◌==◌, ◌∷◌, ◌≡◌,
}
use ai_credits.Credits.Byok.Capture.{
  Captured, Decoder, OpenaiUsage, append_line, capture, capture_lines, detect_stream, parse_line,
  trim_left, trim_right,
}
use ai_credits.Credits.Byok.Capture.Chunks.{LinesFit, all_bytes, capture_all, capture_is_feed, feed}
use ai_credits.Credits.Byok.Path.{
  cut_slash, has_suffix, outbound_path, split_path, trim_end, trim_front, trim_suffix,
}
use ai_credits.Credits.Byok.Path.Laws.{split_path-join}
use ai_credits.Credits.Byok.Relay.{
  BodyCodec, Net, Outgoing, RelayRequest, delete_header, find_base, forwards, header,
  model_from_body, relay_usage, serve_http,
}
use ai_credits.Credits.Byok.Relay.Laws.{IsForwarded, relay_sends_own_credential}
use ai_credits.Credits.Byok.Store.{
  Cipher, Credential, CredentialStore, after_bytes, find_credential, get_credential, keyed,
  nonce_size, open_sealed, put_credential, seal, upsert_credential, zeros,
}
use ai_credits.Credits.Byok.Store.Laws.{IsCipher}
use ai_credits.Credits.Byok.Store.RoundTrip.{get-put_credential}
use ai_credits.Credits.Db.{Env, calm}
use ai_credits.Credits.Errors.{ok}
use ai_credits.Credits.Tests.{ann}
use ai_credits.Credits.Validate.{is_blank, require_identifier}
use ai_credits.Prelude.Int.{pos}

-- A stand-in for the cipher: a tag of 16 bytes and the text.
abbrev plain_cipher : Cipher
plain_cipher = record {
  seal_text = λ key nonce text aad. zeros 16 ++ text;
  open_text = λ key nonce sealed aad. some (after_bytes 16 sealed);
}

plain_cipher-IsCipher : IsCipher plain_cipher
plain_cipher-IsCipher = record {
  opens = λ key nonce text aad. refl;
  tagged = λ key nonce text aad. omega arith;
}

abbrev vault : CredentialStore
vault = record { cipher = plain_cipher; blob = 1 ∷ zeros 31 }

-- The source of randomness gives the nonce.
abbrev sealing : Env
sealing = calm (pos 10) (zeros 24)

abbrev secret : Str
secret = codes "sk-1"

abbrev rows1 : List Credential
rows1 = (put_credential vault sealing ann (codes "openai") secret []).1

put_run : put_credential vault sealing ann (codes "openai") secret [] ≡ (ok tt, rows1)
unfolding put_credential keyed require_identifier is_blank seal find_credential upsert_credential
    str_dec
put_run = refl

nonce_fits : (nonce : Str) → sealing.new_id ≡ some nonce → length nonce ≡ nonce_size
nonce_fits nonce h = ap length (sym (some_nonce (zeros 24) nonce h))
  where
    some_nonce : (a b : Str) → some a ≡ some b → a ≡ b
    some_nonce a b e = cc

get-put_credential_example :
    (get_credential vault sealing ann (codes "openai") rows1 ≡ ok secret)
    × ((user' provider' : Str)
        → (str_eq ann user' && str_eq (codes "openai") provider') ≡ false
        → get_credential vault sealing user' provider' rows1
          ≡ get_credential vault sealing user' provider' [])
get-put_credential_example =
    get-put_credential vault sealing sealing ann (codes "openai") secret [] rows1
      plain_cipher-IsCipher nonce_fits refl put_run

-- A decoder that finds 7 tokens in a document of one byte.
abbrev toy_usage : OpenaiUsage
toy_usage = record {
  prompt_tokens = pos 7;
  completion_tokens = pos 0;
  total_tokens = pos 7;
  cached = none;
}

abbrev toy_decode : Decoder
toy_decode s = if length s == 1 then some (some toy_usage) else none

abbrev streaming : Captured
streaming = record { body = []; line = []; usage = none; stream = true }

-- A line is cut in its middle.
abbrev chunks : List Str
chunks = codes "da" ∷ (codes "ta: 7" ++ (10 ∷ [])) ∷ []

capture_is_feed_example :
    capture_all toy_decode chunks streaming ≡ feed toy_decode (all_bytes chunks) streaming
capture_is_feed_example = capture_is_feed toy_decode chunks streaming refl lines_fit
  where
    lines_fit : LinesFit 0 (all_bytes chunks)
    lines_fit = ground arith

chunks_run : (capture_all toy_decode chunks streaming).usage ≡ some toy_usage
unfolding capture detect_stream capture_lines append_line parse_line trim_left trim_right is_blank
chunks_run = refl

ends : trim_end (codes "v1/chat/completions") ≡ codes "v1/chat/completions"
unfolding trim_end
ends = refl

split_path-join_example :
    split_path (codes "/api/byok/openai/v1/chat/completions")
    ≡ (codes "openai", codes "v1/chat/completions")
split_path-join_example =
    split_path-join 111 (codes "penai") (codes "v1/chat/completions") refl refl ends

-- A base that has a directory in front of the segment that the rest repeats: a slash is doubled.
outbound_run : outbound_path (codes "/openai/v1") (codes "v1/chat") ≡ codes "/openai//v1/chat"
unfolding outbound_path trim_front trim_end trim_suffix has_suffix cut_slash str_dec
outbound_run = refl

abbrev net : Net
net = record {
  parse_url = λ s. some (record {
    scheme = codes "https";
    host = codes "api.openai.com";
    hostname = codes "api.openai.com";
    path = codes "/v1";
  });
  is_loopback_ip = λ s. false;
}

abbrev codec : BodyCodec
codec = record { model_of = λ s. codes "gpt"; wants_stream = λ s. false; with_usage = λ s. none }

abbrev bases : List (Str × Str)
bases = (codes "openai", codes "https://api.openai.com/v1") ∷ []

abbrev call_headers : List (Str × Str)
call_headers = (codes "X-Auth-User", ann) ∷ (codes "X-Byok-Key", codes "old") ∷ []

abbrev post : RelayRequest
post = record {
  method = codes "POST";
  url_path = codes "/api/byok/openai/v1/chat/completions";
  headers = call_headers;
  req_body = some (codes "{}");
}

abbrev sent : Outgoing
sent = record {
  scheme = codes "https";
  host = codes "api.openai.com";
  path = codes "/v1/chat/completions";
  headers = (codes "Authorization", codes "Bearer sk-1") ∷ [];
  body = some (codes "{}");
  streaming = false;
  usage = relay_usage (codes "f1") ann (codes "openai") (codes "gpt");
}

serve_run : serve_http net codec bases vault sealing rows1 (codes "f1") post ≡ forwards sent
unfolding serve_http put_credential get_credential keyed require_identifier is_blank seal
    open_sealed find_credential upsert_credential str_dec split_path trim_front trim_end cut_slash
    find_base header delete_header model_from_body outbound_path trim_suffix has_suffix
serve_run = refl

relay_sends_own_credential_example :
    (codes "POST" ≡ codes "POST")
    × IsForwarded net bases
        (λ user provider. get_credential vault sealing user provider rows1)
        post
        sent
relay_sends_own_credential_example =
    relay_sends_own_credential net codec bases vault sealing rows1 (codes "f1") post sent serve_run

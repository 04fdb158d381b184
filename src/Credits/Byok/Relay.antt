-- ===== src/Credits/Byok/Relay.antt =====
-- credits/byokrelay.go: what the relay refuses, and what it sends to the provider.
pub mod Laws
use ai_credits.Prelude.{
  Bool, List, Option, Str, [], codes, false, if◌then◌else◌, length, ltb, none, not, some, str_eq, ℕ,
  ◌&&◌, ◌++◌, ◌||◌, ◌∷◌,
}
use ai_credits.Credits.Byok.Path.{outbound_path, split_path}
use ai_credits.Credits.Byok.Store.{Credential, CredentialStore, get_credential}
use ai_credits.Credits.Db.{Env}
use ai_credits.Credits.Errors.{Result, err, ok}
use ai_credits.Credits.Usage.{Usage}
use ai_credits.Credits.Validate.{require_identifier}
use ai_credits.Prelude.Int.{pos}

-- The parts of a URL that the relay reads.
pub record Target : Type 0 where
  pub scheme : Str
  pub host : Str
  pub hostname : Str
  pub path : Str

-- net/url and net: the parser of URLs, and whether a host is an address of the own machine.
pub record Net : Type 0 where
  pub parse_url : Str → Option Target
  pub is_loopback_ip : Str → Bool

-- The request as far as the relay reads it. `req_body` is none if there is no body.
pub record RelayRequest : Type 0 where
  pub method : Str
  pub url_path : Str
  pub headers : List (Str × Str)
  pub req_body : Option Str

-- encoding/json on a request: its model, whether its field `stream` is true, and the body with
-- `stream_options.include_usage` set, if it can be written.
pub record BodyCodec : Type 0 where
  pub model_of : Str → Str
  pub wants_stream : Str → Bool
  pub with_usage : Str → Option Str

-- Headers are looked up by their name; a name that is missing reads as the empty text.
unfoldable pub header : Str → List (Str × Str) → Str
header name [] = []
header name ((k, v) ∷ rest) = if str_eq k name then v else header name rest

unfoldable pub delete_header : Str → List (Str × Str) → List (Str × Str)
delete_header name [] = []
delete_header name ((k, v) ∷ rest) =
    if str_eq k name then delete_header name rest else (k, v) ∷ delete_header name rest

abbrev pub set_header : Str → Str → List (Str × Str) → List (Str × Str)
set_header name value headers = (name, value) ∷ delete_header name headers

unfoldable pub find_base : Str → List (Str × Str) → Option Str
find_base provider [] = none
find_base provider ((k, v) ∷ rest) = if str_eq k provider then some v else find_base provider rest

-- The answers of the relay itself.
pub data Refusal : Type 0 where
  method_not_allowed provider_required unknown_provider user_required : Refusal
  not_configured bad_base body_too_large : Refusal

-- What goes to the provider, and the record for its usage.
pub record Outgoing : Type 0 where
  pub scheme : Str
  pub host : Str
  pub path : Str
  pub headers : List (Str × Str)
  pub body : Option Str
  pub streaming : Bool
  pub usage : Usage

pub data Served : Type 0 where
  refuses : Refusal → Served
  forwards : Outgoing → Served

-- `isLoopbackHost`
abbrev pub is_loopback_host : Net → Str → Bool
is_loopback_host net host = str_eq host (codes "localhost") || net.is_loopback_ip host

abbrev pub bad_target : Net → Target → Bool
bad_target net t =
    (not (str_eq t.scheme (codes "https"))
      && (not (str_eq t.scheme (codes "http")) || not (is_loopback_host net t.hostname)))
    || str_eq t.host []

-- `newRequestIDForRelay`; `fresh` is what NewRequestID gives.
abbrev pub relay_request_id : Str → List (Str × Str) → Str
relay_request_id fresh headers =
    let id = header (codes "X-Byok-Request-Id") headers in
    if str_eq id [] then fresh else codes "byok:" ++ id

abbrev pub max_byok_request_bytes : ℕ
max_byok_request_bytes = 1048576

abbrev pub usage_body : Str → Option Str → Str
usage_body body none = body
usage_body body (some patched) = patched

-- `modelFromBody`: the model, whether the response is to stream, and the body that is sent on;
-- `none` if the body is too large. Errors of the reader are left out.
unfoldable pub model_from_body : BodyCodec → Option Str → Option (Str × Bool × Option Str)
model_from_body codec none = some ([], false, none)
model_from_body codec (some body) =
    if ltb max_byok_request_bytes (length body)
    then none
    else some (
      codec.model_of body,
      codec.wants_stream body,
      some (if codec.wants_stream body then usage_body body (codec.with_usage body) else body),
    )

-- The rewrite of the proxy, as far as headers go.
abbrev pub outgoing_headers : Str → List (Str × Str) → List (Str × Str)
outgoing_headers cred headers = delete_header (codes "X-Auth-User") (
    delete_header (codes "X-Byok-Key")
      (set_header (codes "Authorization") (codes "Bearer " ++ cred) headers))

abbrev pub relay_usage : Str → Str → Str → Str → Usage
relay_usage id user provider model = record {
  request_id = id;
  user_id = user;
  provider = provider;
  model = model;
  billing_mode = codes "byok";
  input_tokens = pos 0;
  output_tokens = pos 0;
  cached_tokens = pos 0;
  reasoning_tokens = pos 0;
  cost_microunits = pos 0;
  credits_charged = pos 0;
  pricing_version = [];
  created_at = none;
}

abbrev pub serve_body :
    Option (Str × Bool × Option Str) → Target → Str → Str → Str → Str → Str → RelayRequest → Served
serve_body none t provider rest user cred fresh req = refuses body_too_large
serve_body (some (model, stream, body)) t provider rest user cred fresh req = forwards (record {
  scheme = t.scheme;
  host = t.host;
  path = outbound_path t.path rest;
  headers = outgoing_headers cred req.headers;
  body = body;
  streaming = stream;
  usage = relay_usage (relay_request_id fresh req.headers) user provider model;
})

abbrev pub serve_target :
    Net → BodyCodec → Option Target → Str → Str → Str → Str → Str → RelayRequest → Served
serve_target net codec none provider rest user cred fresh req = refuses bad_base
serve_target net codec (some t) provider rest user cred fresh req =
    if bad_target net t
    then refuses bad_base
    else serve_body (model_from_body codec req.req_body) t provider rest user cred fresh req

abbrev pub serve_credential :
    Net → BodyCodec → Result Str → Str → Str → Str → Str → Str → RelayRequest → Served
serve_credential net codec (err e) base provider rest user fresh req = refuses not_configured
serve_credential net codec (ok cred) base provider rest user fresh req =
    serve_target net codec (net.parse_url base) provider rest user cred fresh req

abbrev pub serve_user :
    Net
    → BodyCodec
    → (Str → Str → Result Str)
    → Result (Unit {0})
    → Str
    → Str
    → Str
    → Str
    → Str
    → RelayRequest
    → Served
serve_user net codec get (err e) base provider rest user fresh req = refuses user_required
serve_user net codec get (ok u) base provider rest user fresh req =
    serve_credential net codec (get user provider) base provider rest user fresh req

-- From the known provider on: `get` is Get of the store.
abbrev pub serve_base :
    Net
    → BodyCodec
    → (Str → Str → Result Str)
    → Option Str
    → Str
    → Str
    → Str
    → RelayRequest
    → Served
serve_base net codec get none provider rest fresh req = refuses unknown_provider
serve_base net codec get (some base) provider rest fresh req =
    let user = header (codes "X-Auth-User") req.headers in
    serve_user net codec get (require_identifier (codes "X-Auth-User") user) base provider rest user
      fresh req

abbrev pub serve_path :
    Net
    → BodyCodec
    → List (Str × Str)
    → (Str → Str → Result Str)
    → Str
    → RelayRequest
    → Str × Str
    → Served
serve_path net codec bases get fresh req ([], rest) = refuses provider_required
serve_path net codec bases get fresh req (b ∷ s, rest) =
    serve_base net codec get (find_base (b ∷ s) bases) (b ∷ s) rest fresh req

-- `ServeHTTP` up to the proxy, which sends what `forwards` holds and passes the response on.
unfoldable pub serve_http :
    Net
    → BodyCodec
    → List (Str × Str)
    → CredentialStore
    → Env
    → List Credential
    → Str
    → RelayRequest
    → Served
serve_http net codec bases store env rows fresh req =
    if str_eq req.method (codes "POST")
    then serve_path net codec bases (λ user provider. get_credential store env user provider rows)
        fresh req (split_path req.url_path)
    else refuses method_not_allowed

-- ===== src/Credits/Byok/Relay/Laws.antt =====
-- credits/byokrelay.go: to whom the relay sends a credential, and whose.
use ai_credits.Prelude.{
  Bool, Bool-cases, List, Option, Str, [], ap, arith, codes, false, inl, inr, none, refl, some,
  str_dec, str_eq, str_eq_refl, str_eq→eq, true, ◌++◌, ◌∙◌, ◌∷◌, ◌≡◌, ◌≢◌, ◌⊎◌,
}
use ai_credits.Credits.Byok.Path.{split_path}
use ai_credits.Credits.Byok.Relay.{
  BodyCodec, Net, Outgoing, RelayRequest, Target, bad_target, delete_header, find_base, forwards,
  header, model_from_body, outgoing_headers, serve_base, serve_body, serve_credential, serve_http,
  serve_path, serve_target, serve_user,
}
use ai_credits.Credits.Byok.Store.{Credential, CredentialStore, get_credential}
use ai_credits.Credits.Db.{Env}
use ai_credits.Credits.Errors.{Result, err, ok}

header-delete_header : (name : Str) (l : List (Str × Str)) → header name (delete_header name l) ≡ []
unfolding header delete_header
header-delete_header name [] = refl
header-delete_header name ((k, v) ∷ l) = elim (Bool-cases (str_eq k name)) [
  | inl q ↦ rw q (header-delete_header name l)
  | inr q ↦ rw (q, q) (header-delete_header name l)
]

header-delete_header_other :
    (name gone : Str) (l : List (Str × Str))
    → str_eq gone name ≡ false
    → header name (delete_header gone l) ≡ header name l
unfolding header delete_header
header-delete_header_other name gone [] h = refl
header-delete_header_other name gone ((k, v) ∷ l) h = elim (Bool-cases (str_eq k gone)) [
  | inl q ↦ rw (q, str_eq→eq k gone q, h) (header-delete_header_other name gone l h)
  | inr q ↦ rw q (elim (Bool-cases (str_eq k name)) [
    | inl p ↦ rw p refl
    | inr p ↦ rw p (header-delete_header_other name gone l h)
  ])
]

header-first : (name v : Str) (l : List (Str × Str)) → header name ((name, v) ∷ l) ≡ v
unfolding header
header-first name v l = rw (str_eq_refl name) refl

key_differs :
    (str_eq (codes "X-Auth-User") (codes "Authorization") ≡ false)
    × (str_eq (codes "X-Byok-Key") (codes "Authorization") ≡ false)
    × (str_eq (codes "X-Auth-User") (codes "X-Byok-Key") ≡ false)
unfolding str_dec
key_differs = (refl, refl, refl)

outgoing_headers_lem :
    (cred : Str) (l : List (Str × Str))
    → (header (codes "Authorization") (outgoing_headers cred l) ≡ codes "Bearer " ++ cred)
      × (header (codes "X-Auth-User") (outgoing_headers cred l) ≡ [])
      × (header (codes "X-Byok-Key") (outgoing_headers cred l) ≡ [])
outgoing_headers_lem cred l = (
  header-delete_header_other (codes "Authorization") (codes "X-Auth-User") _ key_differs.0
      ∙ header-delete_header_other (codes "Authorization") (codes "X-Byok-Key") _ key_differs.1
      ∙ header-first (codes "Authorization") (codes "Bearer " ++ cred) _,
  header-delete_header (codes "X-Auth-User") _,
  header-delete_header_other (codes "X-Byok-Key") (codes "X-Auth-User") _ key_differs.2
      ∙ header-delete_header (codes "X-Byok-Key") _,
)

-- Encrypted, or to the own machine.
abbrev pub IsSecure : Net → Str → Str → Type 0
IsSecure net scheme hostname =
    (scheme ≡ codes "https")
    ⊎ ((scheme ≡ codes "http")
        × ((hostname ≡ codes "localhost") ⊎ (net.is_loopback_ip hostname ≡ true)))

good_target-IsSecure :
    (net : Net) (t : Target)
    → bad_target net t ≡ false
    → IsSecure net t.scheme t.hostname × (t.host ≢ [])
good_target-IsSecure net t h = (
  elim (Bool-cases (str_eq t.scheme (codes "https"))) [
    | inl q ↦ inl (str_eq→eq t.scheme (codes "https") q)
    | inr q ↦ inr (
      str_eq→eq t.scheme (codes "http") (ground (arith, rw q at h)),
      elim (Bool-cases (str_eq t.hostname (codes "localhost"))) [
        | inl k ↦ inl (str_eq→eq t.hostname (codes "localhost") k)
        | inr k ↦ inr (ground (arith, rw (q, k) at h))
      ],
    )
  ],
  λ e. empty_host (rw e (str_eq_refl [])),
)
  where
    empty_host : str_eq t.host [] ≡ true → ⊥
    empty_host k = ground (arith, h, k)

-- A request that is sent on: whose credential it carries, where to, and what it keeps to itself.
pub record IsForwarded (net : Net) (bases : List (Str × Str)) (get : Str → Str → Result Str)
    (req : RelayRequest) (out : Outgoing) : Type 0 where
  pub provider : Str
  pub base : Str
  pub cred : Str
  pub target : Target
  pub on_path : (split_path req.url_path).0 ≡ provider
  pub known : find_base provider bases ≡ some base
  pub parsed : net.parse_url base ≡ some target
  pub own : get (header (codes "X-Auth-User") req.headers) provider ≡ ok cred
  pub scheme_is : out.scheme ≡ target.scheme
  pub host_is : out.host ≡ target.host
  pub secure : IsSecure net out.scheme target.hostname
  pub has_host : out.host ≢ []
  pub bearer : header (codes "Authorization") out.headers ≡ codes "Bearer " ++ cred
  pub no_user : header (codes "X-Auth-User") out.headers ≡ []
  pub no_key : header (codes "X-Byok-Key") out.headers ≡ []
  pub charged : out.usage.user_id ≡ header (codes "X-Auth-User") req.headers

-- What the last step puts into the request.
abbrev pub Sends : Target → Str → Str → RelayRequest → Outgoing → Type 0
Sends t user cred req out =
    (out.scheme ≡ t.scheme)
    × (out.host ≡ t.host)
    × (out.headers ≡ outgoing_headers cred req.headers)
    × (out.usage.user_id ≡ user)

serve_body-ok :
    (o : Option (Str × Bool × Option Str)) (t : Target) (provider rest user cred fresh : Str)
    (req : RelayRequest) (out : Outgoing)
    → serve_body o t provider rest user cred fresh req ≡ forwards out
    → Sends t user cred req out
serve_body-ok none t provider rest user cred fresh req out h = absurd (ground arith)
serve_body-ok (some (model, stream, body)) t provider rest user cred fresh req out h =
    (ground arith, ground arith, ground arith, ground arith)

serve_target-ok :
    (net : Net) (codec : BodyCodec) (o : Option Target) (provider rest user cred fresh : Str)
    (req : RelayRequest) (out : Outgoing)
    → serve_target net codec o provider rest user cred fresh req ≡ forwards out
    → (t : Target) × (o ≡ some t) × (bad_target net t ≡ false) × Sends t user cred req out
serve_target-ok net codec none provider rest user cred fresh req out h = absurd (ground arith)
serve_target-ok net codec (some t) provider rest user cred fresh req out h =
    elim (Bool-cases (bad_target net t)) [
      | inl q ↦ absurd (ground (arith, rw q at h))
      | inr q ↦ (
        t,
        refl,
        q,
        serve_body-ok (model_from_body codec req.req_body) t provider rest user cred fresh req out
            (rw q at h),
      )
    ]

serve_credential-ok :
    (net : Net) (codec : BodyCodec) (r : Result Str) (base provider rest user fresh : Str)
    (req : RelayRequest) (out : Outgoing)
    → serve_credential net codec r base provider rest user fresh req ≡ forwards out
    → (cred : Str) × (t : Target) × (r ≡ ok cred)
      × (net.parse_url base ≡ some t)
      × (bad_target net t ≡ false)
      × Sends t user cred req out
serve_credential-ok net codec (err e) base provider rest user fresh req out h =
    absurd (ground arith)
serve_credential-ok net codec (ok cred) base provider rest user fresh req out h =
    let (t, parsed, safe, sends) =
      serve_target-ok net codec (net.parse_url base) provider rest user cred fresh req out h in
    (cred, t, refl, parsed, safe, sends)

serve_user-ok :
    (net : Net) (codec : BodyCodec) (get : Str → Str → Result Str) (r : Result (Unit {0}))
    (base provider rest user fresh : Str) (req : RelayRequest) (out : Outgoing)
    → serve_user net codec get r base provider rest user fresh req ≡ forwards out
    → serve_credential net codec (get user provider) base provider rest user fresh req
      ≡ forwards out
serve_user-ok net codec get (err e) base provider rest user fresh req out h = absurd (ground arith)
serve_user-ok net codec get (ok u) base provider rest user fresh req out h = h

serve_base-ok :
    (net : Net) (codec : BodyCodec) (bases : List (Str × Str)) (get : Str → Str → Result Str)
    (o : Option Str) (provider rest fresh : Str) (req : RelayRequest) (out : Outgoing)
    → (split_path req.url_path).0 ≡ provider
    → find_base provider bases ≡ o
    → serve_base net codec get o provider rest fresh req ≡ forwards out
    → IsForwarded net bases get req out
serve_base-ok net codec bases get none provider rest fresh req out path known h =
    absurd (ground arith)
serve_base-ok net codec bases get (some base) provider rest fresh req out path known h =
    let user = header (codes "X-Auth-User") req.headers in
    let (cred, t, own, parsed, safe, sends) =
      serve_credential-ok net codec (get user provider) base provider rest user fresh req out
        (serve_user-ok net codec get _ base provider rest user fresh req out h) in
    let (secure, has_host) = good_target-IsSecure net t safe in
    let (bearer, no_user, no_key) = outgoing_headers_lem cred req.headers in
    record {
      provider = provider;
      base = base;
      cred = cred;
      target = t;
      on_path = path;
      known = known;
      parsed = parsed;
      own = own;
      scheme_is = sends.0;
      host_is = sends.1;
      secure = rw sends.0 secure;
      has_host = rw sends.1 has_host;
      bearer = ap (header (codes "Authorization")) sends.2 ∙ bearer;
      no_user = ap (header (codes "X-Auth-User")) sends.2 ∙ no_user;
      no_key = ap (header (codes "X-Byok-Key")) sends.2 ∙ no_key;
      charged = sends.3;
    }

serve_path-ok :
    (net : Net) (codec : BodyCodec) (bases : List (Str × Str)) (get : Str → Str → Result Str)
    (fresh : Str) (req : RelayRequest) (parts : Str × Str) (out : Outgoing)
    → split_path req.url_path ≡ parts
    → serve_path net codec bases get fresh req parts ≡ forwards out
    → IsForwarded net bases get req out
serve_path-ok net codec bases get fresh req ([], rest) out q h = absurd (ground arith)
serve_path-ok net codec bases get fresh req (b ∷ s, rest) out q h =
    serve_base-ok net codec bases get _ (b ∷ s) rest fresh req out (ap (λ x. x.0) q) refl h

-- If the relay sends a request on, then it is a POST on the path of a known provider; it goes to the
-- host of that provider's base, which is not empty, over https, or over http where the base names the
-- own machine; it carries the credential that the store returns for the user of the request and for
-- that provider, and no header that names the user or holds a key of the relay's; and the record that
-- is kept for its usage names that user.
pub relay_sends_own_credential :
    (net : Net) (codec : BodyCodec) (bases : List (Str × Str)) (store : CredentialStore) (env : Env)
    (rows : List Credential) (fresh : Str) (req : RelayRequest) (out : Outgoing)
    → serve_http net codec bases store env rows fresh req ≡ forwards out
    → (req.method ≡ codes "POST")
      × IsForwarded net bases (λ user provider. get_credential store env user provider rows) req out
unfolding serve_http
relay_sends_own_credential net codec bases store env rows fresh req out h =
    elim (Bool-cases (str_eq req.method (codes "POST"))) [
      | inl q ↦ (
        str_eq→eq req.method (codes "POST") q,
        serve_path-ok net codec bases _ fresh req (split_path req.url_path) out refl (rw q at h),
      )
      | inr q ↦ absurd (ground (arith, rw q at h))
    ]

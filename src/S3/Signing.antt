-- ===== src/S3/Signing.antt =====
-- The signer of requests in sigv4.go. SHA-256, HMAC and the formats of time are a parameter, and so are
-- the credentials that the provider answers. Times are in nanoseconds.
use flob.Prelude.{
  ℕ, ◌+◌, ◌-◌, ◌/◌, ◌%◌, not, ◌&&◌, Option, none, some, List, [], ◌∷◌, ◌++◌, ltb, ◌==◌, map,
  if◌then◌else◌,
}
use flob.Prelude.Text.{Text, codes, is_empty, contains}
use flob.Errors.{Error, other}
use flob.Hashing.{to_lower}
use flob.Meta.{Header}
use flob.Mem.Staging.{Result, ok, err}
use flob.Auth.Policy.{fields}
use flob.S3.Markers.{set_header, join_commas}
use flob.S3.Encoding.{sort_pairs, Pair}

-- What sigv4.go takes from crypto and time.
pub record Crypto : Type 0 where
  pub sha256 : List ℕ → List ℕ
  pub hmac : List ℕ → Text → List ℕ
  pub amz_date : ℕ → Text
  pub date_stamp : ℕ → Text

-- Credentials, whose `expires` is 0 for never
pub record Credentials : Type 0 where
  pub access_key : Text
  pub secret_key : Text
  pub session_token : Text
  pub expires : ℕ

abbrev pub no_credentials : Credentials
no_credentials = record { access_key = []; secret_key = []; session_token = []; expires = 0 }

-- signer, with what its provider answers and the time of its clock
pub record Signer : Type 0 where
  pub creds : Option (Result Credentials)
  pub region : Text
  pub service : Text
  pub now : ℕ

abbrev pub expired_credentials : Error
expired_credentials = other 2401

abbrev pub usable : ℕ → Credentials → Result Credentials
usable t c = if not (c.expires == 0) && not (ltb t c.expires) then err expired_credentials else ok c

-- signer.retrieve
unfoldable pub retrieve : Signer → Result Credentials
retrieve s = elim s.creds [
  | none ↦ ok no_credentials
  | some answer ↦ elim answer [ err e ↦ err e | ok c ↦ usable s.now c ]
]

-- hex.EncodeToString
abbrev pub hex_lower : ℕ → ℕ
hex_lower n = if ltb n 10 then b'0' + n else b'a' + n - 10

unfoldable pub hex_encode : List ℕ → Text
hex_encode [] = []
hex_encode (c ∷ s) = hex_lower (c / 16) ∷ hex_lower (c % 16) ∷ hex_encode s

-- strings.Join
unfoldable pub join : Text → List Text → Text
join sep [] = []
join sep (v ∷ []) = v
join sep (v ∷ w ∷ vs) = v ++ sep ++ join sep (w ∷ vs)

-- canonicalHeaderValue
unfoldable pub canonical_header_value : Text → Text
unfolding join fields
canonical_header_value v = join (codes " ") (fields v)

-- headersNotSigned
abbrev pub headers_not_signed : List Text
headers_not_signed =
    codes "authorization"
    ∷ codes "content-length"
    ∷ codes "user-agent"
    ∷ codes "accept-encoding"
    ∷ codes "connection"
    ∷ codes "x-amzn-trace-id"
    ∷ []

-- the headers to sign but the host, by the lower case of their names
unfoldable pub signed_headers : Header → List Pair
signed_headers [] = []
signed_headers ((name, values) ∷ h) =
    let rest = signed_headers h in
    if contains headers_not_signed (to_lower name)
    then rest
    else (to_lower name, join_commas values) ∷ rest

abbrev pub header_line : Pair → Text
header_line (name, value) = name ++ codes ":" ++ canonical_header_value value ++ codes "\n"

unfoldable pub header_lines : List Pair → Text
unfolding canonical_header_value
header_lines [] = []
header_lines (p ∷ ps) = header_line p ++ header_lines ps

-- http.Request as the signer reads it
pub record Outgoing : Type 0 where
  pub method : Text
  pub opaque : Text
  pub raw_query : Text
  pub host : Text
  pub url_host : Text
  pub headers : Header

module _ (crypto : Crypto) where
  -- signer.signingKey
  unfoldable pub signing_key : Signer → Credentials → Text → List ℕ
  signing_key s c stamp =
      let date = crypto.hmac (codes "AWS4" ++ c.secret_key) stamp in
      let region = crypto.hmac date s.region in
      crypto.hmac (crypto.hmac region s.service) (codes "aws4_request")

  abbrev pub scope_of : Signer → Text
  scope_of s =
      crypto.date_stamp s.now
      ++ codes "/"
      ++ s.region
      ++ codes "/"
      ++ s.service
      ++ codes "/aws4_request"

  -- the signature of a canonical request
  unfoldable pub signature : Signer → Credentials → Text → Text
  unfolding signing_key hex_encode join
  signature s c request = hex_encode (
      crypto.hmac (signing_key s c (crypto.date_stamp s.now)) (
        join (codes "\n") (
          codes "AWS4-HMAC-SHA256"
          ∷ crypto.amz_date s.now
          ∷ scope_of s
          ∷ hex_encode (crypto.sha256 request)
          ∷ [])))

  -- the headers that sign sets before it signs them
  abbrev pub dated : Signer → Credentials → Text → Header → Header
  dated s c payload h =
      let h' =
        set_header (codes "X-Amz-Content-Sha256") payload
          (set_header (codes "X-Amz-Date") (crypto.amz_date s.now) h) in
      if is_empty c.session_token
      then h'
      else set_header (codes "X-Amz-Security-Token") c.session_token h'

  -- the headers to sign, in their order
  abbrev pub ordered_headers : Outgoing → Header → List Pair
  ordered_headers req h =
      sort_pairs
        ((codes "host", if is_empty req.host then req.url_host else req.host) ∷ signed_headers h)

  abbrev pub signed_names : List Pair → Text
  signed_names ps = join (codes ";") (map (λ p. p.0) ps)

  abbrev pub canonical_request : Outgoing → Text → List Pair → Text
  canonical_request req payload ps = join (codes "\n") (
      req.method
      ∷ (if is_empty req.opaque then codes "/" else req.opaque)
      ∷ req.raw_query
      ∷ header_lines ps
      ∷ signed_names ps
      ∷ payload
      ∷ [])

  abbrev pub authorization : Signer → Credentials → Outgoing → Text → List Pair → Text
  authorization s c req payload ps =
      codes "AWS4-HMAC-SHA256 Credential="
      ++ c.access_key
      ++ codes "/"
      ++ scope_of s
      ++ codes ", SignedHeaders="
      ++ signed_names ps
      ++ codes ", Signature="
      ++ signature s c (canonical_request req payload ps)

  -- sign with the credentials that were retrieved: the headers of the request
  abbrev pub sign_with : Signer → Credentials → Outgoing → Text → Header
  sign_with s c req payload =
      let h = dated s c payload req.headers in
      set_header (codes "Authorization") (authorization s c req payload (ordered_headers req h)) h

  -- signer.sign
  unfoldable pub sign : Signer → Outgoing → Text → Result Outgoing
  unfolding retrieve signature signed_headers header_lines sort_pairs set_header
  sign s req payload = elim (retrieve s) [
    | err e ↦ err e
    | ok c ↦ ok (record req { headers = sign_with s c req payload })
  ]

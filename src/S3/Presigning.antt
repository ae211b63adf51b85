-- ===== src/S3/Presigning.antt =====
-- signer.presignQuery of sigv4.go, and presignGet of s3.go. Durations are in nanoseconds.
use flob.Prelude.{
  Option, none, some, ◌⊎◌, inl, inr, ◌≡◌, ◌&&◌, not, ap, sym, Bool-cases, by_test, ltb, ℕ, ◌+◌, ◌/◌,
  ◌≤◌, ◌<◌, Bool, false, [], ◌∷◌, ◌++◌, ◌==◌, arith, if◌then◌else◌,
}
use flob.Prelude.Text.{Text, codes, is_empty}
use flob.Prelude.Int.{ℤ, pos, pos_part, sub_ℕ, ltb_ℤ}
use flob.Prelude.Decimal.{format_int}
use flob.Mem.Staging.{Result, ok, err}
use flob.S3.Encoding.{uri_encode, canonical_query}
use flob.S3.Probe.{unsigned_payload}
use flob.S3.Signing.{
  usable, no_credentials, Crypto, Credentials, Signer, retrieve, join, signature, scope_of,
}

abbrev pub second : ℕ
second = 1000000000

-- presignMaxExpiry
abbrev pub max_expiry : ℕ
max_expiry = 604800000000000

-- what is left of the credentials' lifetime
abbrev pub lifetime : Credentials → ℕ → ℤ → ℤ
lifetime c t expires =
    if c.expires == 0
    then expires
    else if ltb_ℤ (sub_ℕ c.expires t) expires
    then sub_ℕ c.expires t
    else expires

-- the expiry of a presigned URL
unfoldable pub presign_expiry : Credentials → ℕ → ℤ → ℕ
presign_expiry c t expires =
    let left = lifetime c t expires in
    if ltb_ℤ left (pos second)
    then second
    else if ltb_ℤ (pos max_expiry) left
    then max_expiry
    else pos_part left

abbrev expires_of : Result Credentials → ℕ
expires_of (err e) = 0
expires_of (ok c) = c.expires

-- Credentials that were retrieved never expire, or not yet.
usable-IsUsable :
    (t : ℕ) (a c : Credentials) → usable t a ≡ ok c → (c.expires ≡ 0) ⊎ (t < c.expires)
usable-IsUsable t a c good =
    by_test (λ r. r ≡ ok c → (c.expires ≡ 0) ⊎ (t < c.expires))
      (not (a.expires == 0) && not (ltb t a.expires)) (λ late k. absurd (cc k))
      (λ fine k.
        let same : a.expires ≡ c.expires = ap expires_of k in
        elim (Bool-cases (a.expires == 0)) [
          | inl forever ↦ inl (ground (arith, forever, same))
          | inr until ↦ inr (ground (arith, until, fine, same))
        ])
      good

retrieve-IsUsable :
    (s : Signer) (c : Credentials) → retrieve s ≡ ok c → (c.expires ≡ 0) ⊎ (s.now < c.expires)
unfolding retrieve
retrieve-IsUsable s c good = go s.creds good
  where
    go :
        (o : Option (Result Credentials))
        → (elim o [
          | none ↦ ok no_credentials
          | some answer ↦ elim answer [ err e ↦ err e | ok a ↦ usable s.now a ]
        ])
          ≡ ok c
        → (c.expires ≡ 0) ⊎ (s.now < c.expires)
    go none k = inl (sym (ap expires_of k))
    go (some (err e)) k = absurd (cc k)
    go (some (ok a)) k = usable-IsUsable s.now a c k

module _ (crypto : Crypto) where
  -- the query that is signed
  abbrev pub presign_values : Signer → Credentials → ℤ → Text
  presign_values s c expires = canonical_query (
      (codes "X-Amz-Algorithm", codes "AWS4-HMAC-SHA256" ∷ [])
      ∷ (codes "X-Amz-Credential", (c.access_key ++ codes "/" ++ scope_of crypto s) ∷ [])
      ∷ (codes "X-Amz-Date", crypto.amz_date s.now ∷ [])
      ∷ (codes "X-Amz-Expires", format_int (pos (presign_expiry c s.now expires / second)) ∷ [])
      ∷ (codes "X-Amz-SignedHeaders", codes "host" ∷ [])
      ∷ (if is_empty c.session_token
          then []
          else (codes "X-Amz-Security-Token", c.session_token ∷ []) ∷ []))

  abbrev pub presign_with : Signer → Credentials → Text → Text → Text → ℤ → Text
  presign_with s c method uri host expires =
      let query = presign_values s c expires in
      query
      ++ codes "&X-Amz-Signature="
      ++ signature crypto s c (
          join (codes "\n") (
            method
            ∷ uri
            ∷ query
            ∷ (codes "host:" ++ host ++ codes "\n")
            ∷ codes "host"
            ∷ unsigned_payload
            ∷ []))

  -- signer.presignQuery
  unfoldable pub presign_query : Signer → Text → Text → Text → ℤ → Result Text
  unfolding canonical_query presign_expiry retrieve signature
  presign_query s method uri host expires = elim (retrieve s) [
    | err e ↦ err e
    | ok c ↦ ok (presign_with s c method uri host expires)
  ]

-- where a bucket is served: its name, whether it is a segment of the path, and the scheme and the host
pub record Endpoint : Type 0 where
  pub bucket : Text
  pub path_style : Bool
  pub scheme : Text
  pub host : Text

-- the host and the encoded path of a key
unfoldable pub key_path : Endpoint → Text → Text
unfolding uri_encode
key_path e key =
    uri_encode false
      (if e.path_style then codes "/" ++ e.bucket ++ codes "/" ++ key else codes "/" ++ key)

unfoldable pub key_host : Endpoint → Text
key_host e = if e.path_style then e.host else e.bucket ++ codes "." ++ e.host

-- S3Stores.presignGet, on the public endpoint
unfoldable pub presign_get : Crypto → Signer → Endpoint → Text → ℤ → Result Text
unfolding presign_query key_path key_host
presign_get crypto s e key ttl =
    elim (presign_query crypto s (codes "GET") (key_path e key) (key_host e) ttl) [
      | err x ↦ err x
      | ok query ↦
          ok (e.scheme ++ codes "://" ++ key_host e ++ key_path e key ++ codes "?" ++ query)
    ]

-- Whatever expiry is asked for, with credentials that may sign: a presigned URL lives for a second at
-- least and for a week at most, and if the credentials expire it outlives them by less than a second.
pub presign_expiry-bounded :
    (s : Signer) (c : Credentials) (expires : ℤ)
    → retrieve s ≡ ok c
    → (second ≤ presign_expiry c s.now expires)
      × (presign_expiry c s.now expires ≤ max_expiry)
      × ((c.expires ≡ 0) ⊎ (s.now + presign_expiry c s.now expires < c.expires + second))
unfolding presign_expiry
presign_expiry-bounded s c expires good = (
  ground arith,
  ground arith,
  elim (retrieve-IsUsable s c good) [
    | inl forever ↦ inl forever
    | inr before ↦ inr (ground (arith, before))
  ],
)

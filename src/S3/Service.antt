-- ===== src/S3/Service.antt =====
-- The S3 service that s3.go talks to, as the answers to the requests that it sends: `Service` holds
-- one operation for each kind of request, signed and sent, and `ServiceLaws` what the S3 API says of
-- them. The service is a parameter.
use flob.Prelude.{
  ℕ, ◌≡◌, ◌≢◌, Bool, true, false, Option, none, some, List, [], take, ◌==◌, ◌/◌, ◌⊎◌, ◌∷◌, length,
  is_some, if◌then◌else◌,
}
use flob.Prelude.Text.{Text, codes, cut_prefix}
use flob.Prelude.Int.{ℤ, pos, pos_part}
use flob.Errors.{Error}
use flob.Hashing.{Hashing}
use flob.Meta.{Header, Source}
use flob.Mem.Staging.{Result, ok}
use flob.S3.Markers.{meta_prefix}

-- http.Response, without its body: `headers` are all its headers
pub record Response : Type 0 where
  pub status : ℕ
  pub headers : Header
  pub etag : Text
  pub length : ℤ
  -- http.ParseTime of Last-Modified, 0 where it fails
  pub modified : ℕ
  -- Response.Uncompressed, Content-Encoding and the URL of the request that was answered
  pub uncompressed : Bool
  pub encoding : Text
  pub url : Text

-- an object of the bucket, with its x-amz-meta headers
pub record Object : Type 0 where
  pub bytes : List ℕ
  pub metadata : Header

-- a PUT: `only_new` is `If-None-Match: *`
pub record Put : Type 0 where
  pub key : Text
  pub body : Source
  pub size : ℤ
  pub payload_hash : Text
  pub checksum : Option (List ℕ)
  pub metadata : Header
  pub only_new : Bool

-- What the transport read of a body: how many bytes, and whether it saw the end or the error that
-- comes after the last one.
pub record Taken : Type 0 where
  pub count : ℕ
  pub ended : Bool

-- the x-amz-meta headers
unfoldable pub metadata_of : Header → Header
unfolding cut_prefix
metadata_of [] = []
metadata_of ((name, values) ∷ h) =
    if is_some (cut_prefix meta_prefix name) then (name, values) ∷ metadata_of h else metadata_of h

-- s3ListedKey
pub record Listed : Type 0 where
  pub key : Text
  pub size : ℤ
  pub modified : ℕ

-- s3ListPage; `encoding` is EncodingType
pub record Page : Type 0 where
  pub encoding : Text
  pub truncated : Bool
  pub next : Text
  pub contents : List Listed
  pub prefixes : List Text

-- the answer to a listing: its status, and what its body is decoded to
pub record Listing : Type 0 where
  pub status : ℕ
  pub page : Result Page

pub record Service (W : Type 0) : Type 0 where
  pub head : Text → W → Result Response × W
  pub put : Put → W → (Result Response × Taken) × W
  -- with the If-Match header, empty for none
  pub delete : Text → Text → W → Result Response × W
  -- ctx.Err() of the operation that is running
  pub context : W → Option Error
  -- GET of a listing by prefix, delimiter and continuation token
  pub list : Text → Text → Text → W → Result Listing × W
  -- a PUT under the first key that copies the object under the second, with the body of the answer
  pub copy : Text → Text → W → Result (Response × Source) × W
  -- a multipart upload: the POST that begins one, with the upload ID that its answer is decoded to
  pub create_upload : Text → W → Result (ℕ × Result Text) × W
  -- the PUT of a part that copies the bytes first to last of an object, with its ETag
  pub copy_part : Text → Text → ℕ → Text → ℕ → ℕ → W → Result (ℕ × Result Text) × W
  -- the DELETE of an upload, whatever it answers
  pub abort_upload : Text → Text → W → W
  -- the POST that completes an upload from parts by number and ETag
  pub complete_upload : Text → Text → List (ℕ × Text) → W → Result (Response × Source) × W

-- res.StatusCode/100 == 2
abbrev pub is_success : Response → Bool
is_success res = res.status / 100 == 2

-- the object that a PUT asks to store
abbrev pub stored : Put → Object
stored p = record { bytes = take (pos_part p.size) p.body.bytes; metadata = p.metadata }

-- `object` is what the bucket holds under a key.
pub record ServiceLaws {W : Type 0} (s : Service W) (object : W → Text → Option Object)
    : Type 0 where
  -- a HEAD changes nothing, and its status tells whether the object is there
  pub head_same : (k : Text) (w : W) (k' : Text) → object (s.head k w).1 k' ≡ object w k'
  pub head_found :
      (k : Text) (w : W) (res : Response)
      → (s.head k w).0 ≡ ok res
      → res.status ≡ 200
      → (o : Object) × (object w k ≡ some o)
        × (metadata_of res.headers ≡ o.metadata)
        × (res.length ≡ pos (flob.Prelude.length o.bytes))
  pub head_missing :
      (k : Text) (w : W) (res : Response)
      → (s.head k w).0 ≡ ok res
      → res.status ≡ 404
      → object w k ≡ none
  -- a PUT touches its key only: it stores its object or leaves the old one, and has stored the whole
  -- body when it answers a success
  pub put_others : (p : Put) (w : W) (k : Text) → k ≢ p.key → object (s.put p w).1 k ≡ object w k
  pub put_either :
      (p : Put) (w : W)
      → (object (s.put p w).1 p.key ≡ object w p.key)
        ⊎ (object (s.put p w).1 p.key ≡ some (stored p))
  pub put_stored :
      (p : Put) (w : W) (res : Response)
      → (s.put p w).0.0 ≡ ok res
      → is_success res ≡ true
      → (object (s.put p w).1 p.key ≡ some (stored p)) × ((s.put p w).0.1.count ≡ pos_part p.size)
  -- with If-None-Match an object that is there stays
  pub put_new :
      (p : Put) (w : W) (o : Object)
      → p.only_new ≡ true
      → object w p.key ≡ some o
      → object (s.put p w).1 p.key ≡ some o
  -- and a success tells that there was none
  pub put_created :
      (p : Put) (w : W) (res : Response)
      → p.only_new ≡ true
      → (s.put p w).0.0 ≡ ok res
      → is_success res ≡ true
      → object w p.key ≡ none
  -- a DELETE touches its key only
  pub delete_others :
      (k etag : Text) (w : W) (k' : Text) → k' ≢ k → object (s.delete k etag w).1 k' ≡ object w k'
  pub delete_either :
      (k etag : Text) (w : W)
      → (object (s.delete k etag w).1 k ≡ object w k) ⊎ (object (s.delete k etag w).1 k ≡ none)
  pub delete_gone :
      (k : Text) (w : W) (res : Response)
      → (s.delete k (codes "") w).0 ≡ ok res
      → (res.status ≡ 200) ⊎ (res.status ≡ 204) ⊎ (res.status ≡ 404)
      → object (s.delete k (codes "") w).1 k ≡ none

-- What the S3 API says of x-amz-checksum-sha256. A service that enforces it stores a body only if the
-- checksum is that of the body; one that does not has no complaint of its own about a sound request
-- that carries one, so it does not answer 400 Bad Request.
pub record CheckingLaws {W : Type 0} (s : Service W) (object : W → Text → Option Object)
    (h : Hashing) : Type 0 where
  pub enforces : Bool
  pub checked :
      (p : Put) (w : W) (sum : List ℕ)
      → enforces ≡ true
      → p.checksum ≡ some sum
      → (object (s.put p w).1 p.key ≡ object w p.key)
        ⊎ (object (s.put p w).1 p.key ≡ some (stored p)) × (h.sum256 (stored p).bytes ≡ sum)
  pub checked_success :
      (p : Put) (w : W) (sum : List ℕ) (res : Response)
      → enforces ≡ true
      → p.checksum ≡ some sum
      → (s.put p w).0.0 ≡ ok res
      → is_success res ≡ true
      → h.sum256 (stored p).bytes ≡ sum
  pub ignored :
      (p : Put) (w : W) (sum : List ℕ) (res : Response)
      → enforces ≡ false
      → p.checksum ≡ some sum
      → p.body.failure ≡ none
      → pos (flob.Prelude.length p.body.bytes) ≡ p.size
      → (s.put p w).0.0 ≡ ok res
      → res.status ≢ 400

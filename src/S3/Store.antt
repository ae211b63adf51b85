-- ===== src/S3/Store.antt =====
-- S3Store of s3.go: Stat, Open, PresignOpen, Label, Erase and Link.
use flob.Prelude.{ℕ, Bool, true, not, Option, none, some, ◌==◌, ◌||◌, if◌then◌else◌}
use flob.Prelude.Text.{Text, codes}
use flob.Prelude.Int.{ℤ, pos, negsuc, pos_part, ltb_ℤ, eq_ℤ, ◌+ℤ◌}
use flob.Errors.{Error, not_exist, already_exists, incompatible_store, unsupported, other}
use flob.Hashing.{Hashing, sanitize}
use flob.Meta.{Meta, Labels, Added, no_meta}
use flob.Info.{Info}
use flob.Mem.Staging.{Result, ok, err}
use flob.Http.Ranges.{RangeReader, new_range_reader, is_identity}
use flob.Http.Opening.{Fetch, RangeResponse}
use flob.S3.Keys.{ref_key}
use flob.S3.Markers.{meta_to_labels}
use flob.S3.Service.{Service, Response, Put, is_success}
use flob.S3.Requests.{State, asks, halts, ask_put, head, delete_key_if, head_blob, ref_put, put_ref}

-- identityResponse
abbrev pub identity_response : Response → Bool
identity_response res = is_identity res.uncompressed res.encoding

abbrev pub size_mismatch : Error
size_mismatch = other 2002

-- NewInfo with the time of Last-Modified
abbrev pub info_of : Text → Response → Info
info_of d res =
    let (labels, size) = meta_to_labels res.headers in
    record {
      digest = d;
      size = ok size;
      added = if res.modified == 0 then err unsupported else ok res.modified;
      labels = ok labels;
    }

-- A signed GET of bytes first to last of a key, whose content coding is identity. Its If-Match is left
-- out when the ETag is empty.
pub record RangeGet : Type 0 where
  pub key : Text
  pub first : ℕ
  pub last : ℤ
  pub if_match : Text

-- what the service answers to one: the client's error, or its response
abbrev pub Getter : Type 0 → Type 0
Getter W = W → RangeGet → Result RangeResponse

-- the fetch of the reader that Open makes, which asks for the key that has the bytes
abbrev pub fetch_range : {W : Type 0} → Getter W → Text → ℤ → W → Fetch
fetch_range get key size w url offset etag =
    get w (record { key = key; first = offset; last = size +ℤ negsuc 0; if_match = etag })

module _ {W : Type 0} (svc : Service W) (h : Hashing) (prefix : Text) (id : Text) where
  -- Stat under a digest that Sanitize has accepted; so are the operations below named
  abbrev pub stat_named : Text → State W → Result Info × State W
  stat_named d s =
      asks (head svc (ref_key h prefix d id) s) (λ e s'. (err e, s'))
        (λ res s'. (ok (info_of d res), s'))

  -- Stat
  unfoldable pub stat : Text → State W → Result Info × State W
  unfolding head meta_to_labels
  stat raw s = let (bad, d) = sanitize h raw in halts bad (λ e. (err not_exist, s)) (stat_named d s)

  -- the reader that Open makes of the answers for the reference and for the bytes, and its fetch
  abbrev pub opened :
      Getter W → Text → Response → Text × Response → Result (RangeReader × (W → Fetch) × Info)
  opened get d ref (key, blob) =
      let size = (meta_to_labels ref.headers).1 in
      if ltb_ℤ size (pos 0) || not (eq_ℤ blob.length size) || not (identity_response blob)
      then err size_mismatch
      else ok (
        new_range_reader (pos_part size) blob.url blob.url blob.etag true,
        fetch_range get key size,
        info_of d ref,
      )

  abbrev pub open_named :
      Getter W → Text → State W → Result (RangeReader × (W → Fetch) × Info) × State W
  open_named get d s =
      asks (head svc (ref_key h prefix d id) s) (λ e s'. (err e, s'))
        (λ ref s'.
          asks (head_blob svc h prefix d s') (λ e t. (err e, t))
            (λ blob t. (opened get d ref blob, t)))

  -- Open, where the service answers ranged GETs
  unfoldable pub open_blob :
      Getter W → Text → State W → Result (RangeReader × (W → Fetch) × Info) × State W
  unfolding head head_blob meta_to_labels is_identity new_range_reader
  open_blob get raw s =
      let (bad, d) = sanitize h raw in halts bad (λ e. (err not_exist, s)) (open_named get d s)

  -- the answer of PresignOpen, given what presignGet makes of the key
  abbrev pub presigned : Text → Response → Result Text → Result (Text × Meta)
  presigned d ref (err e) = err e
  presigned d ref (ok loc) =
      let (labels, size) = meta_to_labels ref.headers in
      ok (loc, record { digest = d; labels = labels; size = size })

  abbrev pub presign_named : (Text → Result Text) → Text → State W → Result (Text × Meta) × State W
  presign_named presign_get d s =
      asks (head svc (ref_key h prefix d id) s) (λ e s'. (err e, s'))
        (λ ref s'.
          asks (head_blob svc h prefix d s') (λ e t. (err e, t))
            (λ found t. (presigned d ref (presign_get found.0), t)))

  -- PresignOpen
  unfoldable pub presign_open :
      (Text → Result Text) → Text → State W → Result (Text × Meta) × State W
  unfolding head head_blob meta_to_labels
  presign_open presign_get raw s =
      let (bad, d) = sanitize h raw in
      halts bad (λ e. (err not_exist, s)) (presign_named presign_get d s)

  abbrev pub label_named : Text → Labels → State W → Option Error × State W
  label_named d labels s =
      asks (head svc (ref_key h prefix d id) s) (λ e s'. (some e, s'))
        (λ ref s'. put_ref svc h prefix d id labels (meta_to_labels ref.headers).1 s')

  -- Label
  unfoldable pub label : Text → Labels → State W → Option Error × State W
  unfolding head put_ref meta_to_labels
  label raw labels s =
      let (bad, d) = sanitize h raw in halts bad (λ e. (some not_exist, s)) (label_named d labels s)

  -- Erase
  unfoldable pub erase : Text → State W → Option Error × State W
  unfolding delete_key_if
  erase raw s =
      let (bad, d) = sanitize h raw in
      halts bad (λ e. (none, s)) (delete_key_if svc (ref_key h prefix d id) (codes "") s)

  -- the answer to the PUT of Link
  abbrev pub link_answer : Meta → Response → Added
  link_answer m res =
      if res.status == 412
      then (record no_meta { digest = m.digest }, some already_exists)
      else if not (is_success res)
      then (m, some (other res.status))
      else (m, none)

  -- what Link makes of the source's reference
  abbrev pub linked_meta : Text → Response → Meta
  linked_meta d ref =
      let (labels, size) = meta_to_labels ref.headers in
      record { digest = d; labels = labels; size = size }

  abbrev pub link_put : Text → Response → Put
  link_put d ref =
      let (labels, size) = meta_to_labels ref.headers in ref_put svc h prefix d id labels size true

  abbrev pub link_named : Text → Option Text → State W → Added × State W
  link_named d none s = ((no_meta, some incompatible_store), s)
  link_named d (some from) s =
      asks (head svc (ref_key h prefix d from) s) (λ e s'. ((no_meta, some e), s'))
        (λ ref s'.
          asks (ask_put svc (link_put d ref) s') (λ e t. ((linked_meta d ref, some e), t))
            (λ res t. (link_answer (linked_meta d ref) res, t)))

  -- Link: `source` is the namespace of a source store that is of the same S3Stores
  unfoldable pub link : Option Error → Text → Option Text → State W → Added × State W
  unfolding head meta_to_labels
  link ctx_err raw source s =
      let (bad, d) = sanitize h raw in
      halts ctx_err (λ e. ((no_meta, some e), s))
        (halts bad (λ e. ((no_meta, some e), s)) (link_named d source s))

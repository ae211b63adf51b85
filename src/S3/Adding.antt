-- ===== src/S3/Adding.antt =====
-- S3Store.Add of s3.go: a blob that the bucket has is only verified, another is streamed or spooled.
use flob.Prelude.{
  ℕ, ◌*◌, ◌+◌, Bool, true, false, not, Option, none, some, List, [], ◌∷◌, ◌&&◌, length, take, drop,
  is_some, if◌then◌else◌,
}
use flob.Prelude.Text.{Text, codes, text_eq, is_empty}
use flob.Prelude.Int.{ℤ, pos, ltb_ℤ, eq_ℤ}
use flob.Errors.{Error, already_exists, digest_mismatch, other}
use flob.Hashing.{Hashing, sanitize, from_bytes}
use flob.Meta.{Meta, Source, Added}
use flob.Mem.Staging.{Result, ok, err}
use flob.Http.Paths.{hex_value}
use flob.Http.Ranges.{strong_etag}
use flob.S3.Keys.{blob_key, ref_key}
use flob.S3.Service.{Service, Put, Taken, is_success}
use flob.S3.Requests.{State, asks, tries, halts, ask_put, exists, delete_key_if, put_ref}
use flob.S3.Probe.{Config, streams, unsigned_payload}

abbrev pub sha256 : Text
sha256 = codes "sha256"

-- hex.DecodeString
unfoldable pub hex_decode : Text → Option (List ℕ)
unfolding hex_value
hex_decode [] = some []
hex_decode (c ∷ []) = none
hex_decode (c ∷ d ∷ s) =
    let rest = hex_decode s in
    elim (hex_value c) [
      | none ↦ none
      | some hi ↦ elim (hex_value d) [
        | none ↦ none
        | some lo ↦ elim rest [ none ↦ none | some bytes ↦ some ((hi * 16 + lo) ∷ bytes) ]
      ]
    ]

abbrev pub bad_hex : Error
bad_hex = other 2001

-- Bytes that may be none.
abbrev pub is_nil : List ℕ → Bool
is_nil [] = true
is_nil (x ∷ xs) = false

module _ {W : Type 0} (svc : Service W) (h : Hashing) (c : Config) (id : Text) where
  -- addRef
  unfoldable pub add_ref : Meta → ℤ → State W → Added × State W
  unfolding put_ref
  add_ref m size s =
      let sized : Meta = record m { size = size } in
      tries (put_ref svc h c.prefix m.digest id m.labels size s) (λ e s'. ((sized, some e), s'))
        (λ s'. ((sized, none), s'))

  -- the PUT of putBlob
  abbrev pub blob_put : Text → Source → ℤ → Text → Option (List ℕ) → Put
  blob_put d r size payload_hash checksum = record {
    key = blob_key h c.prefix d;
    body = r;
    size = size;
    payload_hash = payload_hash;
    checksum = checksum;
    metadata = [];
    only_new = false;
  }

  -- putBlob: the strong ETag
  unfoldable pub put_blob : Put → State W → Result Text × State W
  unfolding strong_etag
  put_blob p s =
      asks (ask_put svc p s) (λ e s'. (err e, s'))
        (λ res s'.
          if is_success res then (ok (strong_etag res.etag), s') else (err (other res.status), s'))

  -- the end of `stream`: the service has taken all of the size, so the reader has to end there
  abbrev pub finish_stream : Meta → Source → ℕ → State W → Added × State W
  finish_stream m r count s =
      if not (is_nil (drop count r.bytes))
      then ((m, some digest_mismatch), s)
      else halts r.failure (λ e. ((m, some e), s)) (add_ref m m.size s)

  -- `stream` once the body is sent: `taken` is what was read of it, `answer` what putBlob returned
  unfoldable pub judge_stream : Meta → Source → Taken → Result Text × State W → Added × State W
  unfolding from_bytes add_ref delete_key_if
  judge_stream m r taken answer =
      let sum = from_bytes h sha256 (take taken.count r.bytes) in
      if taken.ended && is_some r.failure
      then ((m, r.failure), answer.1)
      else if ltb_ℤ (pos taken.count) m.size && taken.ended
      then ((m, some digest_mismatch), answer.1)
      else asks answer
          (λ e s.
            if eq_ℤ (pos taken.count) m.size && not (text_eq sum m.digest)
            then ((m, some digest_mismatch), s)
            else ((m, some e), s))
          (λ etag s.
            if not (text_eq sum m.digest)
            then (
              (m, some digest_mismatch),
              (delete_key_if svc (blob_key h c.prefix m.digest) etag
                  (record s { known = true; checks = false })).1,
            )
            else finish_stream m r taken.count s)

  -- stream
  unfoldable pub stream : Meta → Source → State W → Added × State W
  unfolding judge_stream hex_decode put_blob
  stream m r s = elim (hex_decode (h.encoded m.digest)) [
    | none ↦ ((m, some bad_hex), s)
    | some sum ↦
        let p = blob_put m.digest r m.size unsigned_payload (some sum) in
        judge_stream m r (svc.put p s.world).0.1 (put_blob p s)
  ]

  abbrev pub spooled_put : Text → List ℕ → Put
  spooled_put d bytes =
      blob_put d (record { bytes = bytes; failure = none }) (pos (length bytes))
        (h.sum (h.write (h.start h.canonical) bytes)) none

  -- the spooled blob is uploaded from the start of its file
  abbrev pub upload_absent : Meta → Text → List ℕ → State W → Added × State W
  upload_absent m d bytes s =
      halts c.seek_temp (λ e. ((m, some e), s))
        (asks (put_blob (spooled_put d bytes) s) (λ e t. ((m, some e), t))
          (λ etag t. add_ref m m.size t))

  -- the end of `spool`: the blob is uploaded unless the bucket has it
  abbrev pub upload_spooled : Meta → Text → List ℕ → State W → Added × State W
  upload_spooled m d bytes s =
      asks (exists svc (blob_key h c.prefix d) s) (λ e s'. ((m, some e), s'))
        (λ found s'. if found then add_ref m m.size s' else upload_absent m d bytes s')

  -- spool once the content is in its file, with the digest it turned out to have
  abbrev pub spooled : Meta → Text → List ℕ → State W → Added × State W
  spooled m d bytes s =
      if is_empty m.digest
      then (let named : Meta = record m { digest = d } in
          asks (exists svc (ref_key h c.prefix d id) s) (λ e s'. ((named, some e), s'))
            (λ found s'.
              if found
              then ((named, some already_exists), s')
              else upload_spooled named d bytes s'))
      else if not (text_eq m.digest d)
      then ((m, some digest_mismatch), s)
      else upload_spooled m d bytes s

  -- spool
  unfoldable pub spool : Meta → Text → Source → State W → Added × State W
  unfolding add_ref exists from_bytes put_blob
  spool m algo r s =
      halts c.create_temp (λ e. ((m, some e), s))
        (halts r.failure (λ e. ((m, some e), s))
          (halts c.write_temp (λ e. ((m, some e), s))
            (spooled (record m { size = pos (length r.bytes) }) (from_bytes h algo r.bytes) r.bytes
              s)))

  -- the content of a blob that the bucket has is read to verify it
  abbrev pub verify_present : Meta → Source → State W → Added × State W
  verify_present m r s =
      halts r.failure (λ e. ((m, some e), s))
        (if not (text_eq (from_bytes h (h.algorithm m.digest) r.bytes) m.digest)
          then ((m, some digest_mismatch), s)
          else add_ref m (pos (length r.bytes)) s)

  -- Add of content that the bucket does not have, once `streams` has answered
  abbrev pub upload_by : Meta → Source → Bool × State W → Added × State W
  upload_by m r (true, s) = stream m r s
  upload_by m r (false, s) = spool m (h.algorithm m.digest) r s

  abbrev pub upload : Meta → Source → State W → Added × State W
  upload m r s =
      if text_eq (h.algorithm m.digest) sha256 && ltb_ℤ (pos 0) m.size
      then upload_by m r (streams svc h c s)
      else spool m (h.algorithm m.digest) r s

  -- Add under a digest that Sanitize has accepted
  abbrev pub add_named : Meta → Source → State W → Added × State W
  add_named m r s =
      asks (exists svc (ref_key h c.prefix m.digest id) s) (λ e s'. ((m, some e), s'))
        (λ found s'.
          if found
          then ((m, some already_exists), s')
          else asks (exists svc (blob_key h c.prefix m.digest) s') (λ e t. ((m, some e), t))
              (λ present t. if present then verify_present m r t else upload m r t))

  -- S3Store.Add
  unfoldable pub add : Meta → Source → State W → Added × State W
  unfolding spool stream streams add_ref exists from_bytes
  add m r s =
      if is_empty m.digest
      then spool m h.canonical r s
      else let (bad, d) = sanitize h m.digest in
        halts bad (λ e. ((m, some e), s)) (add_named (record m { digest = d }) r s)

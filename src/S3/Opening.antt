-- ===== src/S3/Opening.antt =====
-- Open of an S3Store in s3.go.
use mathlib.Core.List.{append_assoc}
use mathlib.Core.Path.{subst}
use flob.Prelude.{
  ◌≡◌, refl, sym, ap, ◌∙◌, not, Option, none, some, by_test, length, ◌⊎◌, inl, inr, arith,
  Option-cases, ◌||◌, ℕ, List, ◌≢◌, take, drop, ◌+◌, ◌-◌, ◌++◌, take-append-drop,
}
use flob.Prelude.Text.{Text}
use flob.Prelude.Int.{ℤ, pos, pos_part, ltb_ℤ, eq_ℤ, eq_ℤ_iff}
use flob.Errors.{not_exist, eof, is}
use flob.Hashing.{Hashing, from_bytes}
use flob.Info.{Info}
use flob.Mem.Staging.{Result, ok, err}
use flob.Http.Ranges.{RangeReader, new_range_reader}
use flob.Http.Opening.{Fetch, RangeResponse}
use flob.Http.Accepted.{accept-answered}
use flob.Http.Pieces.{Starts, Serves, IsReading}
use flob.S3.Keys.{blob_key, trash_key, ref_key}
use flob.S3.Named.{DigestLaws, sanitize-valid, sanitize-invalid}
use flob.S3.Markers.{meta_to_labels}
use flob.S3.Service.{Service, ServiceLaws, Object, Response}
use flob.S3.Requests.{State, halts, head, head_blob}
use flob.S3.Told.{asks-rule, IsSame, IsFound, head-IsFound}
use flob.S3.Sound.{IsSound, IsRight}
use flob.S3.Store.{RangeGet, Getter, fetch_range, open_blob, open_named, opened, identity_response}

-- What is assumed of the answers to ranged GETs: the body of a 206 is of the range that was asked
-- for, the one of a 200 of the whole object, as far as it comes, and a request does not fail with
-- io.EOF itself.
pub record GettingLaws {W : Type 0} (get : Getter W) (object : W → Text → Option Object)
    : Type 0 where
  pub partial :
      (w : W) (q : RangeGet) (resp : RangeResponse) (o : Object)
      → object w q.key ≡ some o
      → get w q ≡ ok resp
      → resp.status ≡ 206
      → Starts resp.body.bytes (drop q.first o.bytes)
  pub whole :
      (w : W) (q : RangeGet) (resp : RangeResponse) (o : Object)
      → object w q.key ≡ some o
      → get w q ≡ ok resp
      → resp.status ≡ 200
      → Starts resp.body.bytes o.bytes
  pub not_eof : (w : W) (q : RangeGet) → get w q ≢ err eof

Starts-take : (k : ℕ) (xs d : List ℕ) → Starts xs d → Starts (take k xs) d
Starts-take k xs d (zs, e) = (
  drop k xs ++ zs,
  sym (append_assoc (take k xs) (drop k xs) zs) ∙ ap (λ l. l ++ zs) (take-append-drop k xs) ∙ e,
)

module _ {W : Type 0} (svc : Service W) (object : W → Text → Option Object)
    (laws : ServiceLaws svc object) (h : Hashing) (names : DigestLaws h) (prefix : Text) (id : Text)
    (get : Getter W) (getting : GettingLaws get object) where
  -- A fetch of a key reads the object that the key has.
  fetch_range-Serves :
      (key : Text) (size : ℤ) (w : W) (o : Object) (r : RangeReader)
      → object w key ≡ some o
      → Serves o.bytes (fetch_range get key size w) r
  fetch_range-Serves key size w o r there = (
    λ resp last answers accepted.
        Starts-take (last + 1 - r.offset) resp.body.bytes (drop r.offset o.bytes)
          (elim (accept-answered r resp last accepted) [
            | inl part ↦ getting.partial w _ resp o there answers part
            | inr (all, start) ↦
                subst (λ n. Starts resp.body.bytes (drop n o.bytes)) (sym start)
                  (getting.whole w _ resp o there answers all)
          ]),
    λ k. getting.not_eof w _ k,
  )

  -- A key of the bytes of a digest, in use or put aside, and the object that it has.
  abbrev IsBlob : Text → State W → Text → Object → Type 0
  IsBlob d s key o =
      ((key ≡ blob_key h prefix d) ⊎ (key ≡ trash_key h prefix d)) × (object s.world key ≡ some o)

  abbrev BlobFound : Text → State W → Result (Text × Response) × State W → Type 0
  BlobFound d s (err e, t) = IsSame svc object laws s t
  BlobFound d s (ok (key, res), t) =
      IsSame svc object laws s t
      × (o : Object) × IsBlob d s key o
      × (res.length ≡ pos (length o.bytes))

  head_blob-BlobFound : (d : Text) (s : State W) → BlobFound d s (head_blob svc h prefix d s)
  unfolding head_blob
  head_blob-BlobFound d s =
      let blob = blob_key h prefix d in
      let trash = trash_key h prefix d in
      asks-rule (IsFound svc object laws blob s) (BlobFound d s) (head svc blob s)
        (head-IsFound svc object laws blob s)
        (λ e t same.
          by_test (BlobFound d s) (not (is e not_exist)) (λ failed. same)
            (λ missing.
              asks-rule (IsFound svc object laws trash t) (BlobFound d s) (head svc trash t)
                (head-IsFound svc object laws trash t) (λ e' u same'. λ k. same' k ∙ same k)
                (λ res u (same', o, there, metadata, size).
                  (λ k. same' k ∙ same k, o, (inr refl, sym (same trash) ∙ there), size))))
        (λ res t (same, o, there, metadata, size). (same, o, (inl refl, there), size))

  -- What Open answers: a reader whose Reads give the bytes of the digest in order, as its fetch serves
  -- them, with the size that this store's own reference has.
  abbrev pub IsOpened :
      Text → State W → Result (RangeReader × (W → Fetch) × Info) × State W → Type 0
  IsOpened d s (err e, t) = IsSame svc object laws s t
  IsOpened d s (ok (reader, fetch, info), t) =
      IsSame svc object laws s t
      × (h.validate d ≡ none)
      × ((ref : Object) × (object s.world (ref_key h prefix d id) ≡ some ref))
      × ((bytes : List ℕ) × (from_bytes h (h.algorithm d) bytes ≡ d)
          × IsReading bytes reader
          × (reader.offset ≡ 0)
          × ((r : RangeReader) → Serves bytes (fetch t.world) r))
      × (info.digest ≡ d)
      × (info.size ≡ ok (pos reader.size))

  opened-IsOpened :
      (d : Text) (s t : State W) (ref blob : Response) (key : Text) (o : Object)
      → h.validate d ≡ none
      → IsSame svc object laws s t
      → ((r : Object) × (object s.world (ref_key h prefix d id) ≡ some r))
      → IsBlob d s key o
      → from_bytes h (h.algorithm d) o.bytes ≡ d
      → blob.length ≡ pos (length o.bytes)
      → IsOpened d s (opened svc h prefix id get d ref (key, blob), t)
  unfolding new_range_reader
  opened-IsOpened d s t ref blob key o valid same there held right len =
      let size = (meta_to_labels ref.headers).1 in
      by_test (λ r. IsOpened d s (r, t))
        (ltb_ℤ size (pos 0) || not (eq_ℤ blob.length size) || not (identity_response blob))
        (λ bad. same)
        (λ good.
          let e : blob.length ≡ size = (eq_ℤ_iff blob.length size).0 (ground (arith, good)) in
          let k : size ≡ pos (length o.bytes) = sym e ∙ len in
          (
            same,
            valid,
            there,
            (
              o.bytes,
              right,
              (ap pos_part k, (λ e. cc e), tt),
              refl,
              λ r. fetch_range-Serves key size t.world o r (same key ∙ held.1),
            ),
            refl,
            ap ok (k ∙ ap pos (ap pos_part (sym k))),
          ))

  right_of :
      (d : Text) (s : State W) (key : Text) (o : Object)
      → h.validate d ≡ none
      → IsSound h names prefix (object s.world)
      → IsBlob d s key o
      → from_bytes h (h.algorithm d) o.bytes ≡ d
  unfolding IsSound IsRight
  right_of d s key o valid sound (inl at_blob, there) =
      subst (IsRight h d) (ap (object s.world) (sym at_blob) ∙ there) (sound d valid).0
  right_of d s key o valid sound (inr at_trash, there) =
      subst (IsRight h d) (ap (object s.world) (sym at_trash) ∙ there) (sound d valid).1

  open_named-IsOpened :
      (d : Text) (s : State W)
      → h.validate d ≡ none
      → IsSound h names prefix (object s.world)
      → IsOpened d s (open_named svc h prefix id get d s)
  open_named-IsOpened d s valid sound =
      let key = ref_key h prefix d id in
      asks-rule (IsFound svc object laws key s) (IsOpened d s) (head svc key s)
        (head-IsFound svc object laws key s) (λ e t same. same)
        (λ ref t (same, r, there, metadata, size).
          asks-rule (BlobFound d t) (IsOpened d s) (head_blob svc h prefix d t)
            (head_blob-BlobFound d t) (λ e u same'. λ k. same' k ∙ same k)
            (λ found u (same', o, held, len).
              let held' : IsBlob d s found.0 o = (held.0, sym (same found.0) ∙ held.1) in
              opened-IsOpened d s u ref found.1 found.0 o valid (λ k. same' k ∙ same k) (r, there)
                held' (right_of d s found.0 o valid sound held') len))

  -- Open of a sound bucket changes no object. If it succeeds, the digest is valid, the store has a
  -- reference to it, and there are bytes with that digest which the reader is over: it is at their
  -- start and has their size, and what its fetch answers in the world that Open leaves is, for each
  -- reader that accepts it, of those bytes from the offset on. The Info has the digest and that size.
  -- The laws of S3, of its ranged GETs and of the digests are assumed.
  pub open_blob-IsOpened :
      (raw : Text) (s : State W)
      → IsSound h names prefix (object s.world)
      → IsOpened raw s (open_blob svc h prefix id get raw s)
  unfolding open_blob
  open_blob-IsOpened raw s sound = elim (Option-cases (h.validate raw)) [
    | inr (e, invalid) ↦
        subst
          (λ v.
            IsOpened raw s
              (halts v.0 (λ e. (err not_exist, s)) (open_named svc h prefix id get v.1 s)))
          (sym (sanitize-invalid h raw e invalid)) (λ k. refl)
    | inl valid ↦
        subst
          (λ v.
            IsOpened raw s
              (halts v.0 (λ e. (err not_exist, s)) (open_named svc h prefix id get v.1 s)))
          (sym (sanitize-valid h names prefix raw valid)) (open_named-IsOpened raw s valid sound)
  ]

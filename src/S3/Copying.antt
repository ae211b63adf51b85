-- ===== src/S3/Copying.antt =====
-- copyObject, copyParts and copyResult of reclaim.go: copies inside the bucket.
use flob.Prelude.{
  ℕ, zero, suc, ◌+◌, ◌-◌, ◌/◌, Bool, true, Option, none, some, List, [], ◌∷◌, ◌++◌, min, ltb, ◌==◌,
  take, length, is_some, if◌then◌else◌,
}
use flob.Prelude.Text.{Text, codes, is_empty, cut_prefix}
use flob.Prelude.Int.{ℤ, pos, pos_part, ltb_ℤ}
use flob.Errors.{Error, other}
use flob.Meta.{Source}
use flob.Mem.Staging.{Result, ok, err}
use flob.S3.Service.{Service, Response, is_success}
use flob.S3.Requests.{State, asks, moved}
use flob.S3.Probe.{Config}

-- bytes.Contains
unfoldable pub holds_text : Text → Text → Bool
holds_text p [] = is_empty p
holds_text p (c ∷ s) = if is_some (cut_prefix p (c ∷ s)) then true else holds_text p s

-- io.ReadAll of at most a megabyte of a body: an error that comes after that is not seen
abbrev pub body_error : Source → Option Error
body_error r = if ltb (length r.bytes) 1048576 then r.failure else none

abbrev pub copy_failed : Error
copy_failed = other 2201

abbrev pub no_upload : Error
no_upload = other 2202

-- copyResult: the error that a body may hold although the status is a success
unfoldable pub copy_result : Source → Option Error
unfolding holds_text cut_prefix
copy_result r = elim (body_error r) [
  | some e ↦ some e
  | none ↦ if holds_text (codes "<Error>") (take 1048576 r.bytes) then some copy_failed else none
]

module _ {W : Type 0} (svc : Service W) (c : Config) where
  -- the end of a copy: the status and the body of the answer
  abbrev pub copied : Response → Source → State W → Option Error × State W
  copied res body s = if is_success res then (copy_result body, s) else (some (other res.status), s)

  abbrev pub ask_copy : Text → Text → State W → Result (Response × Source) × State W
  ask_copy dst src s = ((svc.copy dst src s.world).0, moved svc s (svc.copy dst src s.world).1)

  -- the PUT of copyObject
  unfoldable pub copy_whole : Text → Text → State W → Option Error × State W
  unfolding copy_result
  copy_whole dst src s =
      asks (ask_copy dst src s) (λ e t. (some e, t)) (λ answer t. copied answer.0 answer.1 t)

  abbrev pub aborted : Text → Text → Error → State W → Option Error × State W
  aborted dst upload e s = (some e, moved svc s (svc.abort_upload dst upload s.world))

  -- what a decoded answer of a multipart request is: the text it holds, or the error
  abbrev pub decoded : ℕ × Result Text → Result Text
  decoded (status, text) = if status / 100 == 2 then text else err (other status)

  abbrev pub ask_complete :
      Text → Text → List (ℕ × Text) → State W → Result (Response × Source) × State W
  ask_complete dst upload parts s = (
    (svc.complete_upload dst upload parts s.world).0,
    moved svc s (svc.complete_upload dst upload parts s.world).1,
  )

  -- the end of copyParts, with the parts in their order
  unfoldable pub complete_copy : Text → Text → List (ℕ × Text) → State W → Option Error × State W
  unfolding copy_result
  complete_copy dst upload parts s =
      asks (ask_complete dst upload parts s) (λ e t. aborted dst upload e t)
        (λ answer t.
          if is_success answer.0
          then (copy_result answer.1, t)
          else aborted dst upload (other answer.0.status) t)

  abbrev pub ask_part :
      Text → Text → ℕ → Text → ℕ → ℕ → State W → Result (ℕ × Result Text) × State W
  ask_part dst upload number src first last s = (
    (svc.copy_part dst upload number src first last s.world).0,
    moved svc s (svc.copy_part dst upload number src first last s.world).1,
  )

  -- a decoded answer, or an error
  abbrev pub reads {κ} : {B : Type κ} → Result Text → (Error → B) → (Text → B) → B
  reads (err e) failed next = failed e
  reads (ok t) failed next = next t

  -- the loop of copyParts over the parts, whose number so far is that of `parts`: `rounds` is how many
  -- are left at most
  unfoldable pub copy_ranges :
      ℕ → Text → Text → Text → ℕ → ℕ → List (ℕ × Text) → State W → Option Error × State W
  unfolding complete_copy
  copy_ranges zero dst upload src size offset parts s = complete_copy dst upload parts s
  copy_ranges (suc rounds) dst upload src size offset parts s =
      let rest = copy_ranges rounds dst upload src size in
      if ltb offset size
      then (asks
          (ask_part dst upload (length parts + 1) src offset (min (offset + c.copy_part) size - 1)
            s)
          (λ e t. aborted dst upload e t)
          (λ answer t.
            reads (decoded answer) (λ e. aborted dst upload e t)
              (λ etag. rest (offset + c.copy_part) (parts ++ (length parts + 1, etag) ∷ []) t)))
      else complete_copy dst upload parts s

  abbrev pub ask_create : Text → State W → Result (ℕ × Result Text) × State W
  ask_create dst s =
      ((svc.create_upload dst s.world).0, moved svc s (svc.create_upload dst s.world).1)

  -- copyParts
  unfoldable pub copy_parts : Text → Text → ℕ → State W → Option Error × State W
  unfolding copy_ranges
  copy_parts dst src size s =
      asks (ask_create dst s) (λ e t. (some e, t))
        (λ answer t.
          reads (decoded answer) (λ e. (some e, t))
            (λ upload.
              if is_empty upload
              then (some no_upload, t)
              else copy_ranges size dst upload src size 0 [] t))

  -- copyObject, of an object of a size that a listing reported
  unfoldable pub copy_object : Text → Text → ℤ → State W → Option Error × State W
  unfolding copy_whole copy_parts
  copy_object dst src size s =
      if ltb_ℤ (pos c.copy_limit) size
      then copy_parts dst src (pos_part size) s
      else copy_whole dst src s

-- ===== src/Http/Opening.antt =====
-- httpRangeReader.openResponse and parseContentRange of http.go: which response to a ranged GET a
-- reader accepts. A fetch answers for a URL, an offset and an ETag.
use flob.Prelude.{
  ℕ, ◌+◌, ◌-◌, Bool, true, false, not, ◌&&◌, ◌||◌, Option, none, some, [], ◌∷◌, leb, ltb, ◌==◌,
  if◌then◌else◌,
}
use flob.Prelude.Text.{Text, codes, text_eq, is_empty, cut_prefix}
use flob.Prelude.Int.{ℤ, pos, ltb_ℤ, eq_ℤ}
use flob.Prelude.Decimal.{read_number, max_int64}
use flob.Errors.{Error, not_exist, closed, other}
use flob.Meta.{Source}
use flob.Mem.Staging.{Result, ok, err}
use flob.Http.Paths.{cut_slash}
use flob.Http.Ranges.{RangeReader, strong_etag, is_identity}

-- the text before the first occurrence of a byte, and the text after it if there is one
unfoldable pub cut_byte : ℕ → Text → Text × Option Text
cut_byte b [] = ([], none)
cut_byte b (c ∷ s) =
    let (before, after) = cut_byte b s in if c == b then ([], some s) else (c ∷ before, after)

-- digits of a number that fits 64 bits
unfoldable pub parse_bound : Text → Option ℕ
unfolding read_number
parse_bound v = elim (read_number v) [
  | none ↦ none
  | some n ↦ if leb n max_int64 then some n else none
]

-- first, last and total length
pub record ContentRange : Type 0 where
  pub first : ℕ
  pub last : ℕ
  pub total : ℕ

abbrev pub ordered : Option ℕ → Option ℕ → Option ℕ → Option ContentRange
ordered (some a) (some b) (some n) =
    if leb a b && ltb b n then some (record { first = a; last = b; total = n }) else none
ordered (some a) (some b) none = none
ordered (some a) none n = none
ordered none b n = none

abbrev pub parse_bounds : Text → Text × Option Text → Option ContentRange
parse_bounds size (first, none) = none
parse_bounds size (first, some last) =
    ordered (parse_bound first) (parse_bound last) (parse_bound size)

abbrev pub parse_range_parts : Text × Option Text → Option ContentRange
parse_range_parts (bounds, none) = none
parse_range_parts (bounds, some size) = parse_bounds size (cut_byte b'-' bounds)

-- parseContentRange
unfoldable pub parse_content_range : Text → Option ContentRange
unfolding cut_byte parse_bound
parse_content_range value = elim (cut_prefix (codes "bytes ") value) [
  | none ↦ none
  | some rest ↦ parse_range_parts (cut_slash rest)
]

-- http.Response of a ranged GET, with its header fields and what its body holds
pub record RangeResponse : Type 0 where
  pub status : ℕ
  pub content_range : Text
  pub length : ℤ
  pub etag : Text
  pub url : Text
  pub uncompressed : Bool
  pub encoding : Text
  pub body : Source

abbrev pub Fetch : Type 0
Fetch = Text → ℕ → Text → Result RangeResponse

abbrev pub bad_response : Error
bad_response = other 3001

-- the last byte that a response to a read at an offset below the size has, by its status
abbrev pub range_end : RangeReader → Option ContentRange → Result ℕ
range_end r none = err bad_response
range_end r (some range) =
    if range.first == r.offset && ltb range.last r.size && range.total == r.size
    then ok range.last
    else err bad_response

abbrev pub response_last : RangeReader → RangeResponse → Result ℕ
response_last r resp =
    if resp.status == 206
    then range_end r (parse_content_range resp.content_range)
    else if resp.status == 200
    then (if not (r.offset == 0)
        then err bad_response
        else if not (is_empty resp.content_range)
        then err bad_response
        else ok (r.size - 1))
    else err (other resp.status)

-- the checks of the URL and the ETag
abbrev pub same_representation : RangeReader → RangeResponse → Bool
same_representation r resp =
    if r.fetched && not (text_eq resp.url r.representation_url)
    then false
    else if not r.fetched && r.conditional_first && not (text_eq resp.url r.head_url)
    then false
    else not (
        (r.fetched
          || r.conditional_first
          || not (is_empty r.head_url) && text_eq resp.url r.head_url)
        && not (is_empty r.etag)
        && not (text_eq (strong_etag resp.etag) r.etag))

-- the checks of openResponse: the last byte of an accepted response
abbrev pub checked_last : RangeReader → RangeResponse → Result ℕ → Result ℕ
checked_last r resp (err e) = err e
checked_last r resp (ok last) =
    if not (ltb_ℤ resp.length (pos 0)) && not (eq_ℤ resp.length (pos (last - r.offset + 1)))
    then err bad_response
    else if same_representation r resp
    then ok last
    else err bad_response

unfoldable pub accept : RangeReader → RangeResponse → Result ℕ
unfolding parse_content_range is_identity
accept r resp =
    if resp.status == 404
    then err not_exist
    else if not (is_identity resp.uncompressed resp.encoding)
    then err bad_response
    else checked_last r resp (response_last r resp)

-- the first accepted response is pinned
abbrev pub pinned : RangeReader → RangeResponse → RangeReader
pinned r resp =
    if r.fetched
    then r
    else record r { etag = strong_etag resp.etag; representation_url = resp.url; fetched = true }

-- the end of openResponse, where `ctx` is the error of the context
abbrev pub installed : Option Error → RangeReader → RangeResponse → ℕ → Option Error × RangeReader
installed ctx r resp last = if r.closed then (some closed, r) else elim ctx [
  | some e ↦ (some e, r)
  | none ↦ (none, record r { body = some resp.body; response_end = last })
]

abbrev pub settle :
    Option Error → RangeReader → RangeResponse → Result ℕ → Option Error × RangeReader
settle ctx r resp (err e) = (some e, r)
settle ctx r resp (ok last) = installed ctx (pinned r resp) resp last

abbrev pub answered : Option Error → RangeReader → Result RangeResponse → Option Error × RangeReader
answered ctx r (err e) = (some e, r)
answered ctx r (ok resp) = settle ctx r resp (accept r resp)

-- the URL and the ETag that openResponse asks for
abbrev pub target_of : RangeReader → Text
target_of r = if r.fetched then r.representation_url else r.get_url

abbrev pub condition_of : RangeReader → Text
condition_of r = if r.fetched then r.etag else if r.conditional_first then r.etag else codes ""

abbrev pub cannot_reopen : Error
cannot_reopen = other 3002

-- openResponse
unfoldable pub open_response : Fetch → Option Error → RangeReader → Option Error × RangeReader
unfolding accept
open_response fetch ctx r =
    if r.fetched && is_empty r.etag
    then (some cannot_reopen, r)
    else answered ctx r (fetch (target_of r) r.offset (condition_of r))

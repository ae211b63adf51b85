-- ===== src/Http/Accepted.antt =====
-- The responses that openResponse of http.go accepts.
use flob.Prelude.{
  ℕ, ◌+◌, ◌-◌, ◌≤◌, ◌<◌, ◌≡◌, ◌≢◌, refl, Bool, true, false, not, ◌&&◌, Option, none, some, arith,
  ltb, ◌==◌, by_test, if◌then◌else◌, Bool-cases, inl, inr, ◌⊎◌,
}
use flob.Http.Paths.{cut_slash}
use flob.Prelude.Text.{Text, codes, cut_prefix, is_empty}
use flob.Prelude.Int.{pos, ltb_ℤ, eq_ℤ}
use flob.Errors.{Error, eof, not_exist}
use flob.Mem.Staging.{Result, ok, err}
use flob.Http.Ranges.{RangeReader, is_identity}
use flob.Http.Opening.{
  RangeResponse, ContentRange, accept, parse_content_range, ordered, response_last, range_end,
  checked_last, same_representation, bad_response, parse_range_parts, parse_bounds, parse_bound,
  cut_byte,
}

-- The last byte of an accepted response is one of the blob, not before the offset.
range_end_within :
    (r : RangeReader) (o : Option ContentRange) {last : ℕ}
    → ((range : ContentRange) → o ≡ some range → range.first ≤ range.last)
    → range_end r o ≡ ok last
    → (r.offset ≤ last) × (last < r.size)
range_end_within r none within h = absurd (cc h)
range_end_within r (some range) within h = ground (arith, h, within range refl)

ordered_within :
    (a b n : Option ℕ) (range : ContentRange)
    → ordered a b n ≡ some range
    → range.first ≤ range.last
ordered_within (some a) (some b) (some n) range h = ground (arith, h)
ordered_within (some a) (some b) none range h = absurd (cc h)
ordered_within (some a) none n range h = absurd (cc h)
ordered_within none b n range h = absurd (cc h)

bounds_within :
    (size : Text) (p : Text × Option Text) (range : ContentRange)
    → parse_bounds size p ≡ some range
    → range.first ≤ range.last
bounds_within size (first, none) range h = absurd (cc h)
bounds_within size (first, some last) range h =
    ordered_within (parse_bound first) (parse_bound last) (parse_bound size) range h

parts_within :
    (p : Text × Option Text) (range : ContentRange)
    → parse_range_parts p ≡ some range
    → range.first ≤ range.last
parts_within (bounds, none) range h = absurd (cc h)
parts_within (bounds, some size) range h = bounds_within size (cut_byte b'-' bounds) range h

range_within :
    (value : Text) (range : ContentRange)
    → parse_content_range value ≡ some range
    → range.first ≤ range.last
unfolding parse_content_range
range_within value range h = go (cut_prefix (codes "bytes ") value) h
  where
    go :
        (o : Option Text)
        → (elim o [ none ↦ none | some rest ↦ parse_range_parts (cut_slash rest) ]) ≡ some range
        → range.first ≤ range.last
    go none h' = absurd (cc h')
    go (some rest) h' = parts_within (cut_slash rest) range h'

last_within :
    (r : RangeReader) (resp : RangeResponse) {last : ℕ}
    → r.offset < r.size
    → response_last r resp ≡ ok last
    → (r.offset ≤ last) × (last < r.size)
last_within r resp {last} inside h = elim (Bool-cases (resp.status == 206)) [
  | inl partial ↦
      range_end_within r (parse_content_range resp.content_range)
        (λ range e. range_within resp.content_range range e) (ground (arith, partial, h))
  | inr whole ↦ ground (arith, whole, h)
]

passed : (b : Bool) (e : Error) (x : Result ℕ) {n : ℕ} → (if b then err e else x) ≡ ok n → x ≡ ok n
passed true e x h = absurd (cc h)
passed false e x h = h

kept_ok : (b : Bool) (n : ℕ) {m : ℕ} → (if b then ok n else err bad_response) ≡ ok m → ok n ≡ ok m
kept_ok true n h = h
kept_ok false n h = absurd (cc h)

checked_within :
    (r : RangeReader) (resp : RangeResponse) (o : Result ℕ) {last : ℕ}
    → checked_last r resp o ≡ ok last
    → o ≡ ok last
checked_within r resp (err e) h = h
checked_within r resp (ok n) h = kept_ok (same_representation r resp) n (
    passed (not (ltb_ℤ resp.length (pos 0)) && not (eq_ℤ resp.length (pos (n - r.offset + 1))))
      bad_response (if same_representation r resp then ok n else err bad_response) h)

pub accept_within :
    (r : RangeReader) (resp : RangeResponse) (last : ℕ)
    → r.offset < r.size
    → accept r resp ≡ ok last
    → (r.offset ≤ last) × (last < r.size)
unfolding accept
accept_within r resp last inside h = last_within r resp inside (
    checked_within r resp (response_last r resp) (
      passed (not (is_identity resp.uncompressed resp.encoding)) bad_response
        (checked_last r resp (response_last r resp)) (passed (resp.status == 404) not_exist _ h)))

last-answered :
    (r : RangeReader) (resp : RangeResponse) {last : ℕ}
    → response_last r resp ≡ ok last
    → (resp.status ≡ 206) ⊎ ((resp.status ≡ 200) × (r.offset ≡ 0))
last-answered r resp h = elim (Bool-cases (resp.status == 206)) [
  | inl partial ↦ inl (ground (arith, partial))
  | inr whole ↦ inr (ground (arith, whole, h))
]

-- An accepted response has a range, or is of the whole blob that is asked for from its start.
pub accept-answered :
    (r : RangeReader) (resp : RangeResponse) (last : ℕ)
    → accept r resp ≡ ok last
    → (resp.status ≡ 206) ⊎ ((resp.status ≡ 200) × (r.offset ≡ 0))
unfolding accept
accept-answered r resp last h = last-answered r resp (
    checked_within r resp (response_last r resp) (
      passed (not (is_identity resp.uncompressed resp.encoding)) bad_response
        (checked_last r resp (response_last r resp)) (passed (resp.status == 404) not_exist _ h)))

-- A refusal is not io.EOF.
abbrev NotEnd : Result ℕ → Type 0
NotEnd o = o ≢ err eof

range_end-NotEnd : (r : RangeReader) (o : Option ContentRange) → NotEnd (range_end r o)
range_end-NotEnd r none = λ k. cc k
range_end-NotEnd r (some range) =
    by_test NotEnd (range.first == r.offset && ltb range.last r.size && range.total == r.size)
      (λ h k. cc k) (λ h k. cc k)

response_last-NotEnd : (r : RangeReader) (resp : RangeResponse) → NotEnd (response_last r resp)
response_last-NotEnd r resp =
    by_test NotEnd (resp.status == 206)
      (λ h. range_end-NotEnd r (parse_content_range resp.content_range))
      (λ h.
        by_test NotEnd (resp.status == 200)
          (λ h.
            by_test NotEnd (not (r.offset == 0)) (λ h k. cc k)
              (λ h. by_test NotEnd (not (is_empty resp.content_range)) (λ h k. cc k) (λ h k. cc k)))
          (λ h k. cc k))

checked-NotEnd :
    (r : RangeReader) (resp : RangeResponse) (o : Result ℕ)
    → NotEnd o
    → NotEnd (checked_last r resp o)
checked-NotEnd r resp (err e) h = h
checked-NotEnd r resp (ok n) h =
    by_test NotEnd
      (not (ltb_ℤ resp.length (pos 0)) && not (eq_ℤ resp.length (pos (n - r.offset + 1))))
      (λ h k. cc k) (λ h. by_test NotEnd (same_representation r resp) (λ h k. cc k) (λ h k. cc k))

pub accept-NotEnd : (r : RangeReader) (resp : RangeResponse) → accept r resp ≢ err eof
unfolding accept
accept-NotEnd r resp =
    by_test NotEnd (resp.status == 404) (λ h k. cc k)
      (λ h.
        by_test NotEnd (not (is_identity resp.uncompressed resp.encoding)) (λ h k. cc k)
          (λ h. checked-NotEnd r resp (response_last r resp) (response_last-NotEnd r resp)))

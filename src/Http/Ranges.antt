-- ===== src/Http/Ranges.antt =====
-- httpRangeReader of http.go: a blob that is read over ranged GETs of one representation.
use flob.Prelude.{ℕ, Bool, false, not, ◌&&◌, ◌||◌, Option, none, [], ◌∷◌, ltb, ◌==◌, if◌then◌else◌}
use flob.Prelude.Text.{Text, codes, text_eq, is_empty}
use flob.Errors.{Error}
use flob.Hashing.{to_lower}
use flob.Meta.{Source}

-- strings.EqualFold on ASCII
abbrev pub equal_fold : Text → Text → Bool
equal_fold a b = text_eq (to_lower a) (to_lower b)

-- identityResponse, of Response.Uncompressed and Content-Encoding
unfoldable pub is_identity : Bool → Text → Bool
is_identity uncompressed encoding =
    not uncompressed && (is_empty encoding || equal_fold encoding (codes "identity"))

-- the characters of a strong ETag up to the quote that ends it
unfoldable pub quoted_tail : Text → Bool
quoted_tail [] = false
quoted_tail (c ∷ []) = c == b'"'
quoted_tail (c ∷ d ∷ s) = if ltb c b'!' || c == b'"' || c == 127 then false else quoted_tail (d ∷ s)

-- strongETag: the empty text for what is no strong ETag
unfoldable pub strong_etag : Text → Text
unfolding quoted_tail
strong_etag [] = []
strong_etag (c ∷ s) = if c == b'"' && quoted_tail s then c ∷ s else []

-- httpRangeReader, less its locks and its context. `body` is what is left of the open response.
pub record RangeReader : Type 0 where
  pub size : ℕ
  pub get_url : Text
  pub head_url : Text
  pub etag : Text
  pub conditional_first : Bool
  pub offset : ℕ
  pub fetched : Bool
  pub representation_url : Text
  pub body : Option Source
  pub response_end : ℕ
  pub closed : Bool
  pub read_error : Option Error

-- newHTTPRangeReader
unfoldable pub new_range_reader : ℕ → Text → Text → Text → Bool → RangeReader
unfolding strong_etag
new_range_reader size get_url head_url etag conditional_first = record {
  size = size;
  get_url = get_url;
  head_url = head_url;
  etag = strong_etag etag;
  conditional_first = conditional_first;
  offset = 0;
  fetched = false;
  representation_url = [];
  body = none;
  response_end = 0;
  closed = false;
  read_error = none;
}

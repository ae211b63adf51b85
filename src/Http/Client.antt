-- ===== src/Http/Client.antt =====
-- HttpStore of http.go: what it sends, and what it makes of a response.
use flob.Prelude.{ℕ, ◌&&◌, ◌||◌, Option, none, some, List, [], ◌∷◌, ◌++◌, ◌==◌, if◌then◌else◌}
use flob.Prelude.Text.{Text, codes, is_empty, contains, text_eq}
use flob.Prelude.Int.{ℤ}
use flob.Errors.{Error, not_exist, already_exists, digest_mismatch, other}
use flob.Meta.{Meta, Labels, Header}
use flob.Namespace.{namespace_segment}

-- What HttpStore.url appends to the base. It is text of a URL, from which net/http makes the
-- path that a handler sees.
unfoldable pub url_path : Text → Text → Text
url_path id d =
    if is_empty d
    then codes "/" ++ namespace_segment id
    else codes "/" ++ namespace_segment id ++ codes "/" ++ d

-- the switch of HttpStore.Add
unfoldable pub add_error : ℕ → Option Error
add_error status =
    if status == 200
    then some already_exists
    else if status == 201
    then none
    else if status == 422
    then some digest_mismatch
    else if status == 404
    then some not_exist
    else some (other status)

-- parseErr
unfoldable pub parse_err : ℕ → Option Error
parse_err status =
    if status == 200 || status == 201 || status == 204 || status == 206
    then none
    else if status == 404
    then some not_exist
    else if status == 422
    then some digest_mismatch
    else some (other status)

-- strings.Trim(etag, `"`)
unfoldable pub trim_left : Text → Text
trim_left [] = []
trim_left (c ∷ s) = if c == b'"' then trim_left s else c ∷ s

-- without the quotes at the end
unfoldable pub trim_right : Text → Text
trim_right [] = []
trim_right (c ∷ s) = let rest = trim_right s in if c == b'"' && is_empty rest then [] else c ∷ rest

unfoldable pub trim_quotes : Text → Text
unfolding trim_left trim_right
trim_quotes s = trim_right (trim_left s)

-- meta_headers_to_skip
abbrev pub skipped_headers : List Text
skipped_headers =
    codes "Etag"
    ∷ codes "Content-Length"
    ∷ codes "Content-Type"
    ∷ codes "Transfer-Encoding"
    ∷ codes "Content-Encoding"
    ∷ codes "Date"
    ∷ codes "Server"
    ∷ codes "Connection"
    ∷ codes "Location"
    ∷ codes "Cache-Control"
    ∷ codes "Vary"
    ∷ codes "Accept-Ranges"
    ∷ codes "Content-Range"
    ∷ codes "Last-Modified"
    ∷ []

unfoldable pub kept_labels : Header → Header
unfolding contains text_eq
kept_labels [] = []
kept_labels ((k, vs) ∷ h) =
    if contains skipped_headers k then kept_labels h else (k, vs) ∷ kept_labels h

abbrev labels_of : Header → Labels
labels_of [] = none
labels_of (x ∷ h) = some (x ∷ h)

-- parseMeta: `headers` are all headers of the response, `etag` the ETag, empty if missing, and
-- `length` the response's ContentLength, which is -1 where it is unknown.
unfoldable pub parse_meta : Text → ℤ → Header → Meta
unfolding trim_quotes kept_labels
parse_meta etag length headers = record {
  digest = trim_quotes etag;
  labels = labels_of (kept_labels headers);
  size = length;
}

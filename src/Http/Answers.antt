-- ===== src/Http/Answers.antt =====
-- The client of http.go against the handler of http.go: paths, labels, digests and errors.
use flob.Prelude.{
  ℕ, ◌≡◌, ◌≢◌, refl, ap, true, false, none, some, [], ◌∷◌, ◌++◌, arith, if◌then◌else◌, inl, inr,
  All, Bool, ◌||◌, ◌==◌, ◌∙◌,
}
use mathlib.Core.Option
use flob.Prelude.Int.{ℤ}
use flob.Prelude.Text.{Text, codes}
use flob.Errors.{Error, not_exist, already_exists, digest_mismatch, is}
use flob.Meta.{Meta, Header}
use flob.Namespace.{namespace_segment, is_plain_byte}
use flob.Namespace.Base64.{AllBytes}
use flob.Namespace.RoundTrip.{namespace_id-segment, namespace_segment-IsSafe, AllSegment}
use flob.Http.Paths.{trim_slash, cut_slash, has_slash, path_unescape, decode_parts, parse_path}
use flob.Http.Handler.{post_answer, read_error, label_answer, change_answer, set_meta_headers}
use flob.Http.Client.{url_path, add_error, parse_err, trim_quotes, trim_right, parse_meta}

-- bytes that stand for themselves in a path segment and in the path of a URL
unfoldable pub is_literal : ℕ → Bool
unfolding is_plain_byte
is_literal c = is_plain_byte c || c == b'~' || c == b':' || c == b'+' || c == b'='

abbrev IsLiteral : ℕ → Type 0
IsLiteral c = is_literal c ≡ true

abbrev IsPathByte : ℕ → Type 0
IsPathByte c = (is_literal c || c == b'/') ≡ true

-- What net/http gives the handler for the path in a request's URL, url.Parse and EscapedPath: a path
-- of such bytes and slashes comes through as it is.
abbrev pub KeepsPaths : (Text → Text) → Type 0
KeepsPaths escaped = (p : Text) → All IsPathByte p → escaped p ≡ p

slash : (is_literal b'/' || b'/' == b'/') ≡ true
unfolding is_literal is_plain_byte
slash = refl

All-append : (s t : Text) → All IsPathByte s → All IsPathByte t → All IsPathByte (s ++ t)
All-append [] t hs ht = ht
All-append (c ∷ s) t (hc, hs) ht = (hc, All-append s t hs ht)

All-slash : (s : Text) → All IsLiteral s → All IsPathByte s
All-slash [] hs = tt
All-slash (c ∷ s) (hc, hs) = (ground (arith, hc), All-slash s hs)

path_unescape_literal : (s : Text) → All IsLiteral s → path_unescape s ≡ some s
unfolding path_unescape is_literal is_plain_byte
path_unescape_literal [] h = refl
path_unescape_literal (c ∷ []) h = ground arith
path_unescape_literal (c ∷ x ∷ []) h = ground arith
path_unescape_literal (c ∷ x ∷ y ∷ s) (hc, h) = ground (arith, path_unescape_literal (x ∷ y ∷ s) h)

has_slash_literal : (s : Text) → All IsLiteral s → has_slash s ≡ false
unfolding has_slash is_literal is_plain_byte
has_slash_literal [] h = refl
has_slash_literal (c ∷ s) (hc, h) = ground (arith, has_slash_literal s h)

cut_slash_literal : (s : Text) → All IsLiteral s → cut_slash s ≡ (s, none)
unfolding cut_slash is_literal is_plain_byte
cut_slash_literal [] h = refl
cut_slash_literal (c ∷ s) (hc, h) = ground (arith, cut_slash_literal s h)

cut_slash_append : (s t : Text) → All IsLiteral s → cut_slash (s ++ codes "/" ++ t) ≡ (s, some t)
unfolding cut_slash is_literal is_plain_byte
cut_slash_append [] t h = refl
cut_slash_append (c ∷ s) t (hc, h) = ground (arith, cut_slash_append s t h)

plain-IsLiteral : (c : ℕ) → is_plain_byte c ≡ true → IsLiteral c
unfolding is_literal
plain-IsLiteral c h = rw h refl

segment-IsLiteral : (s : Text) → AllSegment s → All IsLiteral s
unfolding is_literal is_plain_byte
segment-IsLiteral [] h = tt
segment-IsLiteral (c ∷ s) (inl plain, h) = (plain-IsLiteral c plain, segment-IsLiteral s h)
segment-IsLiteral (c ∷ s) (inr mark, h) = (ground arith, segment-IsLiteral s h)

parse_path-url_literal :
    (id d : Text) → AllBytes id → All IsLiteral d → parse_path (url_path id d) ≡ some (id, d)
unfolding parse_path url_path decode_parts trim_slash
parse_path-url_literal id [] hid hd =
    let (full, safe, _) = namespace_segment-IsSafe id hid in
    let literal = segment-IsLiteral (namespace_segment id) safe in
    ground (
      arith,
      cut_slash_literal (namespace_segment id) literal,
      full,
      path_unescape_literal (namespace_segment id) literal,
      namespace_id-segment id hid,
    )
parse_path-url_literal id (c ∷ d) hid hd =
    let (full, safe, _) = namespace_segment-IsSafe id hid in
    let literal = segment-IsLiteral (namespace_segment id) safe in
    ground (
      arith,
      cut_slash_append (namespace_segment id) (c ∷ d) literal,
      full,
      has_slash_literal (c ∷ d) hd,
      path_unescape_literal (namespace_segment id) literal,
      namespace_id-segment id hid,
      path_unescape_literal (c ∷ d) hd,
    )

url_path_literal : (id d : Text) → AllBytes id → All IsLiteral d → All IsPathByte (url_path id d)
unfolding url_path
url_path_literal id [] hid hd =
    let (full, safe, _) = namespace_segment-IsSafe id hid in
    (slash, All-slash (namespace_segment id) (segment-IsLiteral (namespace_segment id) safe))
url_path_literal id (c ∷ d) hid hd =
    let (full, safe, _) = namespace_segment-IsSafe id hid in
    (
      slash,
      All-append (namespace_segment id ++ codes "/") (c ∷ d)
          (All-append (namespace_segment id) (codes "/")
            (All-slash (namespace_segment id) (segment-IsLiteral (namespace_segment id) safe))
            (slash, tt))
          (All-slash (c ∷ d) hd),
    )

-- The URL that the client asks for names the namespace and the digest that it means: parsePath of
-- the handler gives both back from the path that net/http makes of it, for every namespace of bytes
-- and every digest of letters, digits and `-`, `.`, `_`, `~`, `:`, `+`, `=`. Of net/http it is
-- assumed that it keeps a path of these bytes and slashes.
pub parse_path-url_path :
    (escaped : Text → Text) (id d : Text)
    → KeepsPaths escaped
    → AllBytes id
    → All IsLiteral d
    → parse_path (escaped (url_path id d)) ≡ some (id, d)
parse_path-url_path escaped id d keeps hid hd =
    ap parse_path (keeps (url_path id d) (url_path_literal id d hid hd))
    ∙ parse_path-url_literal id d hid hd

-- What the client makes of the handler's answer to an Add is the store's own outcome: success,
-- the three errors that callers tell apart, and for any other error an error that is none of
-- these.
pub add_error-post_answer :
    (id : Text) (m : Meta) (e : Error)
    → (add_error (post_answer id (m, none)).status ≡ none)
      × (add_error (post_answer id (m, some e)).status ≡ (
          if is e not_exist
          then some not_exist
          else if is e already_exists
          then some already_exists
          else if is e digest_mismatch
          then some digest_mismatch
          else some (Error.other 500)))
unfolding add_error post_answer
add_error-post_answer id m e = (refl, ground arith)

-- What the client makes of the handler's answers: ErrNotExist of a failing read or Label, another
-- error of any other failure, success of a Label or an Erase that succeeds, and an error of an
-- Erase that fails.
parse_err-answers :
    (e : Error)
    → (parse_err (read_error e).status
        ≡ (if is e not_exist then some not_exist else some (Error.other 500)))
      × (parse_err (label_answer none).status ≡ none)
      × (parse_err (change_answer none).status ≡ none)
      × (parse_err (change_answer (some e)).status ≡ some (Error.other 500))
unfolding parse_err
parse_err-answers e = (ground arith, refl, refl, refl)

abbrev IsUnquoted : ℕ → Type 0
IsUnquoted c = c ≢ b'"'

trim_right_quoted : (s : Text) → All IsUnquoted s → trim_right (s ++ codes "\"") ≡ s
unfolding trim_right
trim_right_quoted [] h = refl
trim_right_quoted (c ∷ s) (hc, h) = ground (arith, trim_right_quoted s h)

trim_quotes_quoted : (s : Text) → All IsUnquoted s → trim_quotes (codes "\"" ++ s ++ codes "\"") ≡ s
unfolding trim_quotes
trim_quotes_quoted [] h = refl
trim_quotes_quoted (c ∷ s) (hc, h) = ground (arith, trim_right_quoted (c ∷ s) (hc, h))

-- The digest that the client reads from the ETag of a response is the digest of the blob, for
-- every digest that is free of quotes.
pub parse_meta-digest :
    (status : ℕ) (m : Meta) (length : ℤ) (headers : Header)
    → All IsUnquoted m.digest
    → Option.map (λ etag. (parse_meta etag length headers).digest) (set_meta_headers status m).etag
      ≡ some m.digest
unfolding parse_meta set_meta_headers
parse_meta-digest status m length headers h = ap some (trim_quotes_quoted m.digest h)

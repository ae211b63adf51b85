-- ===== src/S3/Markers.antt =====
-- The metadata of a reference in s3.go: its labels and the size of its blob.
use flob.Prelude.{
  ℕ, Bool, true, false, not, ◌&&◌, none, some, List, [], ◌∷◌, ◌++◌, leb, ◌==◌, if◌then◌else◌,
}
use flob.Prelude.Text.{Text, codes, text_eq, is_empty, cut_prefix}
use flob.Prelude.Int.{ℤ, pos}
use flob.Prelude.Decimal.{format_int, parse_int}
use flob.Hashing.{lower}
use flob.Namespace.{upper}
use flob.Meta.{Header, Labels}
use flob.Http.Ranges.{equal_fold}

-- A letter of a header's name: in upper case at the start and after a dash.
abbrev cased : Bool → ℕ → ℕ
cased true c = upper c
cased false c = lower c

unfoldable pub case_words : Bool → Text → Text
case_words first [] = []
case_words first (c ∷ s) = cased first c ∷ case_words (c == b'-') s

unfoldable pub member : ℕ → Text → Bool
member c [] = false
member c (x ∷ s) = if x == c then true else member c s

-- every character may stand in a token
unfoldable pub is_token : Text → Bool
unfolding member
is_token [] = true
is_token (c ∷ s) =
    if leb b'!' c && leb c b'~' && not (member c (codes "\"(),/:;<=>?@[\\]{}"))
    then is_token s
    else false

-- textproto.CanonicalMIMEHeaderKey
unfoldable pub canonical_name : Text → Text
unfolding is_token case_words
canonical_name name = if is_token name then case_words true name else name

-- Header.Set: the values of a name are replaced, and a new name comes last.
unfoldable pub put_header : Text → List Text → Header → Header
put_header name values [] = (name, values) ∷ []
put_header name values ((k, vs) ∷ h) =
    if text_eq k name then (name, values) ∷ h else (k, vs) ∷ put_header name values h

unfoldable pub set_header : Text → Text → Header → Header
unfolding put_header canonical_name
set_header name value h = put_header (canonical_name name) (value ∷ []) h

-- strings.Join(values, ",")
unfoldable pub join_commas : List Text → Text
join_commas [] = []
join_commas (v ∷ []) = v
join_commas (v ∷ w ∷ vs) = v ++ codes "," ++ join_commas (w ∷ vs)

abbrev pub meta_prefix : Text
meta_prefix = codes "X-Amz-Meta-"

abbrev pub meta_size_key : Text
meta_size_key = codes "Flob-Size"

-- setLabelMeta
unfoldable pub set_label_meta : Header → Header → Header
unfolding set_header join_commas
set_label_meta [] h = h
set_label_meta ((key, values) ∷ labels) h =
    if is_empty key
    then set_label_meta labels h
    else set_label_meta labels (set_header (meta_prefix ++ key) (join_commas values) h)

abbrev pub entries : Labels → Header
entries none = []
entries (some labels) = labels

-- The metadata headers that putRef and Link send.
unfoldable pub marker : Labels → ℤ → Header
unfolding set_header set_label_meta
marker labels size =
    set_header (meta_prefix ++ meta_size_key) (format_int size) (set_label_meta (entries labels) [])

abbrev pub first_size : List Text → ℤ → ℤ
first_size [] size = size
first_size (v ∷ vs) size = (parse_int v).0

abbrev pub label_with : Text → List Text → Labels → Labels
label_with k vs none = some ((k, vs) ∷ [])
label_with k vs (some labels) = some ((k, vs) ∷ labels)

-- metaToLabels: names are unique in a header, so that no label is found twice
unfoldable pub meta_to_labels : Header → Labels × ℤ
meta_to_labels [] = (none, pos 0)
meta_to_labels ((name, values) ∷ h) =
    let (labels, size) = meta_to_labels h in
    elim (cut_prefix meta_prefix name) [
      | none ↦ (labels, size)
      | some rest ↦
          if equal_fold rest meta_size_key
          then (labels, first_size values size)
          else (label_with rest values labels, size)
    ]

-- ===== src/Http/Paths.antt =====
-- HttpHandler.parsePath of http.go, with url.PathUnescape.
use flob.Prelude.{
  ℕ, ◌+◌, ◌-◌, ◌*◌, Bool, true, false, ◌&&◌, ◌||◌, Option, none, some, [], ◌∷◌, leb, ◌==◌,
  if◌then◌else◌,
}
use flob.Prelude.Text.{Text, codes, is_empty}
use flob.Namespace.{namespace_id}

-- strings.TrimPrefix(path, "/")
unfoldable pub trim_slash : Text → Text
trim_slash [] = []
trim_slash (c ∷ s) = if c == b'/' then s else c ∷ s

-- the text before the first slash, and the text after it if there is one
unfoldable pub cut_slash : Text → Text × Option Text
cut_slash [] = ([], none)
cut_slash (c ∷ s) =
    let (before, after) = cut_slash s in if c == b'/' then ([], some s) else (c ∷ before, after)

unfoldable pub has_slash : Text → Bool
has_slash [] = false
has_slash (c ∷ s) = if c == b'/' then true else has_slash s

unfoldable pub hex_value : ℕ → Option ℕ
hex_value c =
    if leb b'0' c && leb c b'9'
    then some (c - b'0')
    else if leb b'a' c && leb c b'f'
    then some (c - b'a' + 10)
    else if leb b'A' c && leb c b'F'
    then some (c - b'A' + 10)
    else none

-- url.PathUnescape: `none` is a malformed escape
unfoldable pub path_unescape : Text → Option Text
unfolding hex_value
path_unescape [] = some []
path_unescape (c ∷ []) = if c == b'%' then none else some (c ∷ [])
path_unescape (c ∷ x ∷ []) =
    if c == b'%' then none else if x == b'%' then none else some (c ∷ x ∷ [])
path_unescape (c ∷ x ∷ y ∷ s) =
    let plain = path_unescape (x ∷ y ∷ s) in
    let coded = path_unescape s in
    if c == b'%'
    then (elim (hex_value x) [
      | none ↦ none
      | some hi ↦ elim (hex_value y) [
        | none ↦ none
        | some lo ↦ elim coded [ none ↦ none | some rest ↦ some ((hi * 16 + lo) ∷ rest) ]
      ]
    ])
    else (elim plain [ none ↦ none | some rest ↦ some (c ∷ rest) ])

-- The rest of `parsePath` once the path is split: the namespace, and the digest or the empty text.
unfoldable pub decode_parts : Text → Option Text → Option (Text × Text)
decode_parts first rest = elim (path_unescape first) [
  | none ↦ none
  | some segment ↦ elim (namespace_id segment) [
    | none ↦ none
    | some id ↦ elim rest [
      | none ↦ some (id, codes "")
      | some raw ↦ elim (path_unescape raw) [ none ↦ none | some digest ↦ some (id, digest) ]
    ]
  ]
]

abbrev too_deep : Option Text → Bool
too_deep none = false
too_deep (some rest) = has_slash rest

-- parsePath: /{store-id} or /{store-id}/{digest}
unfoldable pub parse_path : Text → Option (Text × Text)
parse_path path =
    let (first, rest) = cut_slash (trim_slash path) in
    if too_deep rest || is_empty first then none else decode_parts first rest

-- ===== src/S3/Encoding.antt =====
-- awsURIEncode of sigv4.go and canonicalQuery of s3.go: how a request is spelled where it is signed.
use flob.Prelude.{
  ℕ, ◌+◌, ◌-◌, not, ◌/◌, ◌%◌, Bool, true, false, ◌&&◌, ◌||◌, List, [], ◌∷◌, ◌++◌, leb, ltb, ◌==◌,
  map, if◌then◌else◌,
}
use flob.Prelude.Text.{Text, codes, text_eq}

-- hexUpper[n]
abbrev pub hex_upper : ℕ → ℕ
hex_upper n = if ltb n 10 then b'0' + n else b'A' + n - 10

abbrev pub is_unreserved : ℕ → Bool
is_unreserved c =
    leb b'A' c && leb c b'Z'
    || leb b'a' c && leb c b'z'
    || leb b'0' c && leb c b'9'
    || c == b'-'
    || c == b'_'
    || c == b'.'
    || c == b'~'

-- a byte that is written as an escape
abbrev pub escaped : ℕ → Text → Text
escaped c rest = b'%' ∷ hex_upper (c / 16) ∷ hex_upper (c % 16) ∷ rest

-- awsURIEncode; the escape of a slash is %2F
unfoldable pub uri_encode : Bool → Text → Text
uri_encode encode_slash [] = []
uri_encode encode_slash (c ∷ s) =
    let rest = uri_encode encode_slash s in
    if is_unreserved c
    then c ∷ rest
    else if c == b'/' && not encode_slash
    then c ∷ rest
    else escaped c rest

-- the order of strings
unfoldable pub text_ltb : Text → Text → Bool
text_ltb s [] = false
text_ltb [] (d ∷ t) = true
text_ltb (c ∷ s) (d ∷ t) = let rest = text_ltb s t in if c == d then rest else ltb c d

abbrev pub Pair : Type 0
Pair = Text × Text

-- the order of canonicalQuery: by key, then by value
unfoldable pub pair_ltb : Pair → Pair → Bool
unfolding text_ltb
pair_ltb (k, v) (k', v') = if text_eq k k' then text_ltb v v' else text_ltb k k'

-- sort.Slice, on pairs of which two that are not ordered are the same
unfoldable pub insert_pair : Pair → List Pair → List Pair
insert_pair p [] = p ∷ []
insert_pair p (q ∷ ps) =
    let rest = insert_pair p ps in if pair_ltb q p then q ∷ rest else p ∷ q ∷ ps

unfoldable pub sort_pairs : List Pair → List Pair
unfolding insert_pair
sort_pairs [] = []
sort_pairs (p ∷ ps) = insert_pair p (sort_pairs ps)

abbrev pub key_pairs : Text → List Text → List Pair
key_pairs k vs = map (λ v. (uri_encode true k, uri_encode true v)) vs

-- the pairs of a query, encoded
unfoldable pub query_pairs : List (Text × List Text) → List Pair
query_pairs [] = []
query_pairs ((k, vs) ∷ q) = key_pairs k vs ++ query_pairs q

abbrev pub rendered : Pair → Text
rendered (k, v) = k ++ codes "=" ++ v

unfoldable pub render_pairs : List Pair → Text
render_pairs [] = []
render_pairs (p ∷ []) = rendered p
render_pairs (p ∷ q ∷ ps) = rendered p ++ codes "&" ++ render_pairs (q ∷ ps)

-- canonicalQuery of a query, in whatever order its map is read
unfoldable pub canonical_query : List (Text × List Text) → Text
unfolding sort_pairs query_pairs render_pairs
canonical_query q = render_pairs (sort_pairs (query_pairs q))

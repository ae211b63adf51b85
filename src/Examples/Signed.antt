-- ===== src/Examples/Signed.antt =====
-- Requests as they are spelled for their signature.
use mathlib.Core.List.Perm
use flob.Prelude.{refl, ◌⊎◌, ◌≡◌, true, some, [], ◌∷◌, arith, ◌≤◌, ◌<◌, ◌+◌}
use flob.Prelude.Text.{codes, text_eq}
use flob.Hashing.{to_lower}
use flob.Namespace.{upper}
use flob.Prelude.Int.{pos}
use flob.Http.Paths.{path_unescape}
use flob.S3.Encoding.{uri_encode, canonical_query}
use flob.S3.Encoded.{path_unescape-uri_encode}
use flob.S3.Sorted.{Query, canonical_query-Perm}
use flob.Meta.{Labels}
use flob.S3.Markers.{canonical_name, is_token, case_words, member, marker, meta_to_labels}
use flob.S3.Marked.{meta_to_labels-marker}
use flob.Mem.Staging.{ok}
use flob.S3.Signing.{Signer, retrieve, Credentials}
use flob.S3.Presigning.{second, max_expiry, presign_expiry, presign_expiry-bounded}

path_unescape-uri_encode_example :
    path_unescape (uri_encode true (codes "a b/c")) ≡ some (codes "a b/c")
path_unescape-uri_encode_example = path_unescape-uri_encode true (codes "a b/c") (omega arith)

abbrev prefix_first : Query
prefix_first = (codes "prefix", codes "refs/" ∷ []) ∷ (codes "list-type", codes "2" ∷ []) ∷ []

abbrev type_first : Query
type_first = (codes "list-type", codes "2" ∷ []) ∷ (codes "prefix", codes "refs/" ∷ []) ∷ []

canonical_query-Perm_example : canonical_query prefix_first ≡ canonical_query type_first
canonical_query-Perm_example = canonical_query-Perm prefix_first type_first (Perm.swap _ _ [])

-- ten seconds before they expire
abbrev credentials : Credentials
credentials = record {
  access_key = codes "key";
  secret_key = codes "secret";
  session_token = [];
  expires = 20000000000;
}

abbrev signer : Signer
signer = record {
  creds = some (ok credentials);
  region = codes "here";
  service = codes "s3";
  now = 10000000000;
}

presign_expiry-bounded_example :
    (second ≤ presign_expiry credentials 10000000000 (pos 60000000000))
    × (presign_expiry credentials 10000000000 (pos 60000000000) ≤ max_expiry)
    × ((credentials.expires ≡ 0)
        ⊎ (10000000000 + presign_expiry credentials 10000000000 (pos 60000000000)
            < credentials.expires + second))
unfolding retrieve
presign_expiry-bounded_example = presign_expiry-bounded signer credentials (pos 60000000000) refl

abbrev red : Labels
red = some ((codes "Color", codes "red" ∷ []) ∷ [])

meta_to_labels-marker_example : meta_to_labels (marker red (pos 7)) ≡ (red, pos 7)
unfolding canonical_name is_token case_words member to_lower text_eq upper
meta_to_labels-marker_example =
    meta_to_labels-marker red (pos 7)
      (refl, (((refl, refl, refl), (_, refl), tt, tt)), (7, refl, omega arith))

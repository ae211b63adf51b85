-- ===== src/S3/Keys.antt =====
-- The keys of s3.go and reclaim.go, and reading them back.
use flob.Prelude.{Option, none, some, ◌++◌, if◌then◌else◌}
use flob.Prelude.Text.{Text, codes, text_eq, cut_prefix}
use flob.Errors.{Error}
use flob.Hashing.{Hashing, sanitize}
use flob.Namespace.{namespace_segment, namespace_id}
use flob.Http.Paths.{cut_slash, has_slash}

-- refNamespace
unfoldable pub ref_namespace : Text → Option Text
ref_namespace segment = elim (namespace_id segment) [
  | none ↦ none
  | some id ↦ if text_eq (namespace_segment id) segment then some id else none
]

-- S3Stores.refPrefix
unfoldable pub ref_prefix : Text → Text → Text
ref_prefix prefix id = (prefix ++ codes "refs/") ++ namespace_segment id ++ codes "/"

module _ (h : Hashing) where
  -- algorithm/encoded, with which every key of a digest ends
  abbrev pub digest_path : Text → Text
  digest_path d = h.algorithm d ++ codes "/" ++ h.encoded d

  -- a digest that is written the way that Sanitize leaves it
  abbrev pub unchanged : Text → Option Error × Text → Option Text
  unchanged raw (some e, d) = none
  unchanged raw (none, d) = if text_eq d raw then some d else none

  -- the digest that two path segments name
  unfoldable pub named_digest : Text × Option Text → Option Text
  named_digest (algo, none) = none
  named_digest (algo, some encoded) =
      let raw = algo ++ codes ":" ++ encoded in unchanged raw (sanitize h raw)

  -- the segments of a reference: a namespace, then exactly two of the digest
  abbrev pub ref_of : Text → Text × Option Text → Option (Text × Text)
  ref_of segment (algo, none) = none
  ref_of segment (algo, some encoded) =
      if has_slash encoded then none else elim (ref_namespace segment) [
        | none ↦ none
        | some id ↦ elim (named_digest (algo, some encoded)) [ none ↦ none | some d ↦ some (d, id) ]
      ]

  abbrev pub named_ref : Text × Option Text → Option (Text × Text)
  named_ref (segment, none) = none
  named_ref (segment, some path) = ref_of segment (cut_slash path)

module _ (h : Hashing) (prefix : Text) where
  -- S3Stores.blobKey
  unfoldable pub blob_key : Text → Text
  blob_key d = (prefix ++ codes "blob/") ++ digest_path h d

  -- S3Stores.trashKey
  unfoldable pub trash_key : Text → Text
  trash_key d = (prefix ++ codes "trash/") ++ digest_path h d

  -- S3Stores.refKey
  unfoldable pub ref_key : Text → Text → Text
  ref_key d id = (prefix ++ codes "refs/") ++ (namespace_segment id ++ codes "/" ++ digest_path h d)

  -- S3Stores.parseKey
  unfoldable pub parse_key : Text → Text → Option Text
  parse_key key under = elim (cut_prefix (prefix ++ under) key) [
    | none ↦ none
    | some rest ↦ named_digest h (cut_slash rest)
  ]

  -- S3Stores.parseRefKey
  unfoldable pub parse_ref_key : Text → Option (Text × Text)
  parse_ref_key key = elim (cut_prefix (prefix ++ codes "refs/") key) [
    | none ↦ none
    | some rest ↦ named_ref h (cut_slash rest)
  ]

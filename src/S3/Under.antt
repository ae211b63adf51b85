-- ===== src/S3/Under.antt =====
-- parseRefKey of s3.go on the keys under the prefix of one store.
use mathlib.Core.List.{append_assoc}
use flob.Prelude.{◌≡◌, sym, ap, ◌∙◌, Option, none, some, ◌++◌, inl, inr, arith, Option-cases}
use flob.Prelude.Text.{Text, codes, cut_prefix-append}
use flob.Hashing.{Hashing}
use flob.Namespace.{namespace_segment}
use flob.Namespace.Base64.{AllBytes}
use flob.Namespace.RoundTrip.{namespace_segment-IsSafe}
use flob.Http.Paths.{cut_slash}
use flob.S3.Keys.{ref_prefix, ref_key, parse_ref_key, digest_path, named_digest, named_ref, ref_of}
use flob.S3.Named.{DigestLaws, cut_slash-plain, segment_plain, ref_namespace-segment}
use flob.S3.Parsed.{path_of, uncut-cut_slash}

module _ (h : Hashing) (names : DigestLaws h) (prefix id : Text) (bytes : AllBytes id) where
  ref_prefix-append :
      (rest : Text)
      → ref_prefix prefix id ++ rest
        ≡ (prefix ++ codes "refs/") ++ (namespace_segment id ++ codes "/" ++ rest)
  unfolding ref_prefix
  ref_prefix-append rest =
      let under = prefix ++ codes "refs/" in
      append_assoc (under ++ namespace_segment id) (codes "/") rest
      ∙ append_assoc under (namespace_segment id) (codes "/" ++ rest)
      ∙ ap (λ t. under ++ t) (sym (append_assoc (namespace_segment id) (codes "/") rest))

  pub ref_prefix-path : (d : Text) → ref_prefix prefix id ++ digest_path h d ≡ ref_key h prefix d id
  unfolding ref_key
  ref_prefix-path d = ref_prefix-append (digest_path h d)

  named_by :
      (p : Text × Option Text) (d id' : Text)
      → ref_of h (namespace_segment id) p ≡ some (d, id')
      → named_digest h p ≡ some d
  named_by (algo, none) d id' k = cc
  named_by (algo, some encoded) d id' k =
      elim (Option-cases (named_digest h (algo, some encoded))) [
        | inl unnamed ↦
            absurd (ground (arith, k, unnamed, ref_namespace-segment h names prefix id bytes))
        | inr (e, named) ↦
            named
            ∙ ap some {x = e} {y = d}
                (ground (arith, k, named, ref_namespace-segment h names prefix id bytes))
      ]

  -- What parseRefKey reads under the prefix of a store is one of its references.
  pub parse_ref_key-under :
      (rest d id' : Text)
      → parse_ref_key h prefix (ref_prefix prefix id ++ rest) ≡ some (d, id')
      → (h.validate d ≡ none) × (ref_prefix prefix id ++ rest ≡ ref_key h prefix d id)
  unfolding parse_ref_key
  parse_ref_key-under rest d id' parsed =
      let (_, safe, _) = namespace_segment-IsSafe id bytes in
      let at = namespace_segment id ++ codes "/" ++ rest in
      let (valid, path) = path_of h names prefix (cut_slash rest) d (
        named_by (cut_slash rest) d id' (
          sym (
            rw
              (
                ref_prefix-append rest,
                parse_ref_key,
                cut_prefix-append (prefix ++ codes "refs/") at,
              )
              (ap (named_ref h) (
                cut_slash-plain (namespace_segment id) rest
                  (segment_plain (namespace_segment id) safe))))
          ∙ parsed)) in
      (
        valid,
        ap (λ t. ref_prefix prefix id ++ t) (sym (uncut-cut_slash rest) ∙ path) ∙ ref_prefix-path d,
      )

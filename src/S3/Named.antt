-- ===== src/S3/Named.antt =====
-- The keys of s3.go by what they name.
use flob.Prelude.{
  ℕ, ◌≡◌, ◌≢◌, refl, sym, ap, ◌∙◌, true, false, none, some, List, [], ◌∷◌, ◌++◌, arith, inl, inr,
}
use mathlib.Core.List.{append_assoc}
use flob.Prelude.Text.{Text, codes, text_eq_refl, is_empty, cut_prefix, cut_prefix-append}
use flob.Errors.{Error}
use flob.Hashing.{Hashing, sanitize, to_lower, from_bytes}
use flob.Namespace.{namespace_segment, namespace_id}
use flob.Namespace.Base64.{AllBytes}
use flob.Namespace.RoundTrip.{namespace_id-segment, namespace_segment-IsSafe, AllSegment}
use flob.Http.Paths.{cut_slash, has_slash}
use flob.S3.Adding.{hex_decode}
use flob.S3.Keys.{
  digest_path, blob_key, trash_key, ref_key, named_digest, named_ref, ref_of, unchanged, parse_key,
  ref_namespace, parse_ref_key,
}

-- What the code relies on of the digest library: a digest that Validate accepts is its algorithm and
-- its encoding with a colon between, both free of slashes and in lower case.
pub record DigestLaws (h : Hashing) : Type 0 where
  pub split : (d : Text) → h.validate d ≡ none → h.algorithm d ++ codes ":" ++ h.encoded d ≡ d
  pub algorithm_plain : (d : Text) → h.validate d ≡ none → has_slash (h.algorithm d) ≡ false
  pub encoded_plain : (d : Text) → h.validate d ≡ none → has_slash (h.encoded d) ≡ false
  pub lowered : (d : Text) → h.validate d ≡ none → to_lower d ≡ d
  pub nonempty : (d : Text) → h.validate d ≡ none → is_empty d ≢ true
  pub computed : (bytes : List ℕ) → h.validate (from_bytes h h.canonical bytes) ≡ none
  pub computed_algorithm :
      (bytes : List ℕ) → h.algorithm (from_bytes h h.canonical bytes) ≡ h.canonical
  -- there is no other colon in it
  pub unique :
      (a b : Text)
      → h.validate (a ++ codes ":" ++ b) ≡ none
      → (h.algorithm (a ++ codes ":" ++ b) ≡ a) × (h.encoded (a ++ codes ":" ++ b) ≡ b)
  -- SHA-256 is what digest.SHA256 hashes with, and an encoding is its hexadecimal form
  pub summed :
      (d : Text) (bytes : List ℕ)
      → h.validate d ≡ none
      → h.algorithm d ≡ codes "sha256"
      → hex_decode (h.encoded d) ≡ some (h.sum256 bytes)
      → from_bytes h (codes "sha256") bytes ≡ d

pub cut_slash-plain :
    (s t : Text) → has_slash s ≡ false → cut_slash (s ++ codes "/" ++ t) ≡ (s, some t)
unfolding cut_slash has_slash
cut_slash-plain [] t h = refl
cut_slash-plain (c ∷ s) t h = ground (arith, cut_slash-plain s t)

pub segment_plain : (s : Text) → AllSegment s → has_slash s ≡ false
unfolding has_slash flob.Namespace.is_plain_byte
segment_plain [] h = refl
segment_plain (c ∷ s) (inl plain, h) = ground (arith, plain, segment_plain s h)
segment_plain (c ∷ s) (inr mark, h) = ground (arith, mark, segment_plain s h)

pub sanitize-invalid :
    (h : Hashing) (d : Text) (e : Error) → h.validate d ≡ some e → sanitize h d ≡ (some e, codes "")
unfolding sanitize
sanitize-invalid h d e bad = rw (bad, sanitize) refl

module _ (h : Hashing) (laws : DigestLaws h) (prefix : Text) where
  pub sanitize-valid : (d : Text) → h.validate d ≡ none → sanitize h d ≡ (none, d)
  unfolding sanitize
  sanitize-valid d valid = rw (valid, sanitize) (ap (λ x. (none, x)) (laws.lowered d valid))

  named_digest-parts :
      (d : Text) → h.validate d ≡ none → named_digest h (h.algorithm d, some (h.encoded d)) ≡ some d
  unfolding named_digest
  named_digest-parts d valid =
      ap (λ raw. unchanged h raw (sanitize h raw)) (laws.split d valid)
      ∙ ap (unchanged h d) (sanitize-valid d valid)
      ∙ rw (text_eq_refl d) refl

  named_digest-path :
      (d : Text) → h.validate d ≡ none → named_digest h (cut_slash (digest_path h d)) ≡ some d
  named_digest-path d valid =
      ap (named_digest h)
        (cut_slash-plain (h.algorithm d) (h.encoded d) (laws.algorithm_plain d valid))
      ∙ named_digest-parts d valid

  -- The digest in a key of a blob is read back.
  pub parse_key-blob_key :
      (d : Text)
      → h.validate d ≡ none
      → parse_key h prefix (blob_key h prefix d) (codes "blob/") ≡ some d
  unfolding parse_key blob_key
  parse_key-blob_key d valid =
      rw (parse_key, cut_prefix-append (prefix ++ codes "blob/") (digest_path h d))
        (named_digest-path d valid)

  pub parse_key-trash_key :
      (d : Text)
      → h.validate d ≡ none
      → parse_key h prefix (trash_key h prefix d) (codes "trash/") ≡ some d
  unfolding parse_key trash_key
  parse_key-trash_key d valid =
      rw (parse_key, cut_prefix-append (prefix ++ codes "trash/") (digest_path h d))
        (named_digest-path d valid)

  pub ref_namespace-segment :
      (id : Text) → AllBytes id → ref_namespace (namespace_segment id) ≡ some id
  unfolding ref_namespace
  ref_namespace-segment id bytes =
      rw (ref_namespace, namespace_id-segment id bytes, text_eq_refl (namespace_segment id)) refl

  -- The key of a reference names its digest and its namespace: parseRefKey gives both back, for
  -- every valid digest and every namespace of bytes. The laws of the digest library are assumed.
  pub parse_ref_key-ref_key :
      (d id : Text)
      → h.validate d ≡ none
      → AllBytes id
      → parse_ref_key h prefix (ref_key h prefix d id) ≡ some (d, id)
  unfolding parse_ref_key ref_key
  parse_ref_key-ref_key d id valid bytes =
      let (_, safe, _) = namespace_segment-IsSafe id bytes in
      rw
        (
          parse_ref_key,
          cut_prefix-append (prefix ++ codes "refs/")
              (namespace_segment id ++ codes "/" ++ digest_path h d),
        )
        (ap (named_ref h) (
            cut_slash-plain (namespace_segment id) (digest_path h d)
              (segment_plain (namespace_segment id) safe))
          ∙ ap (ref_of h (namespace_segment id))
              (cut_slash-plain (h.algorithm d) (h.encoded d) (laws.algorithm_plain d valid))
          ∙ rw
              (
                laws.encoded_plain d valid,
                ref_namespace-segment id bytes,
                named_digest-parts d valid,
              )
              refl)

  pub blob_key-injective :
      (d e : Text)
      → h.validate d ≡ none
      → h.validate e ≡ none
      → blob_key h prefix d ≡ blob_key h prefix e
      → d ≡ e
  blob_key-injective d e vd ve same = cc (parse_key-blob_key d vd, parse_key-blob_key e ve, same)

  pub trash_key-injective :
      (d e : Text)
      → h.validate d ≡ none
      → h.validate e ≡ none
      → trash_key h prefix d ≡ trash_key h prefix e
      → d ≡ e
  trash_key-injective d e vd ve same = cc (parse_key-trash_key d vd, parse_key-trash_key e ve, same)

  pub ref_key-injective :
      (d e id id' : Text)
      → h.validate d ≡ none
      → h.validate e ≡ none
      → AllBytes id
      → AllBytes id'
      → ref_key h prefix d id ≡ ref_key h prefix e id'
      → (d ≡ e) × (id ≡ id')
  ref_key-injective d e id id' vd ve bid bid' same =
      let k : some (d, id) ≡ some (e, id') =
        sym (parse_ref_key-ref_key d id vd bid)
        ∙ ap (parse_ref_key h prefix) same
        ∙ parse_ref_key-ref_key e id' ve bid' in
      (cc k, cc k)

-- Keys of different kinds.
module _ (prefix : Text) where
  cut_prefix-same : (p a b : Text) → cut_prefix (p ++ a) (p ++ b) ≡ cut_prefix a b
  unfolding cut_prefix
  cut_prefix-same [] a b = refl
  cut_prefix-same (c ∷ p) a b = ground (arith, cut_prefix-same p a b)

  -- keys under two directories, of which neither starts with the other
  pub apart :
      (a b s t : Text) → cut_prefix a (b ++ t) ≡ none → (prefix ++ a) ++ s ≢ (prefix ++ b) ++ t
  apart a b s t differ same =
      let k : some s ≡ none =
        sym (cut_prefix-append (prefix ++ a) s)
        ∙ ap (cut_prefix (prefix ++ a)) (same ∙ append_assoc prefix b t)
        ∙ cut_prefix-same prefix a (b ++ t)
        ∙ differ in
      cc k

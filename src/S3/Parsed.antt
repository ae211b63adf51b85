-- ===== src/S3/Parsed.antt =====
-- parseKey of reclaim.go against the keys of s3.go.
use mathlib.Core.Path.{subst}
use flob.Prelude.{
  ℕ, by_test, ==_iff, ◌≡◌, refl, sym, ap, ◌∙◌, Option, none, some, [], ◌∷◌, ◌++◌, arith,
  Option-cases, inl, inr, ◌==◌,
}
use flob.Prelude.Text.{Text, codes, text_eq_refl, cut_prefix}
use flob.Hashing.{Hashing}
use flob.Http.Paths.{cut_slash}
use flob.S3.Keys.{blob_key, trash_key, parse_key, named_digest, unchanged, digest_path}
use flob.S3.Named.{DigestLaws, sanitize-valid, sanitize-invalid}

pub cut_prefix-eq-some : (p s : Text) {r : Text} → cut_prefix p s ≡ some r → s ≡ p ++ r
unfolding cut_prefix
cut_prefix-eq-some [] s h = ground (arith, h)
cut_prefix-eq-some (c ∷ p) [] h = cc
cut_prefix-eq-some (c ∷ p) (x ∷ s) {r} h = ground (arith, h, cut_prefix-eq-some p s {r = r})

-- the text that was cut
abbrev uncut : Text × Option Text → Text
uncut (a, none) = a
uncut (a, some b) = a ++ codes "/" ++ b

uncut-cons : (c : ℕ) (p : Text × Option Text) → uncut (c ∷ p.0, p.1) ≡ c ∷ uncut p
uncut-cons c (a, none) = refl
uncut-cons c (a, some b) = refl

pub uncut-cut_slash : (s : Text) → uncut (cut_slash s) ≡ s
unfolding cut_slash
uncut-cut_slash [] = refl
uncut-cut_slash (c ∷ s) =
    by_test (λ p. uncut p ≡ c ∷ s) (c == b'/')
      (λ slash. ap (λ x. x ∷ s) (sym ((==_iff c b'/').0 slash)))
      (λ plain. uncut-cons c (cut_slash s) ∙ ap (λ t. c ∷ t) (uncut-cut_slash s))

module _ (h : Hashing) (laws : DigestLaws h) (prefix : Text) where
  -- a digest that two segments name
  named_digest-eq-some :
      (algo encoded : Text) (d : Text)
      → named_digest h (algo, some encoded) ≡ some d
      → (h.validate d ≡ none) × (d ≡ algo ++ codes ":" ++ encoded)
  unfolding named_digest
  named_digest-eq-some algo encoded d h' =
      let raw = algo ++ codes ":" ++ encoded in
      elim (Option-cases (h.validate raw)) [
        | inr (e, invalid) ↦ cc (sym (ap (unchanged h raw) (sanitize-invalid h raw e invalid)), h')
        | inl valid ↦
            let k : some raw ≡ some d =
              sym (rw (text_eq_refl raw) refl)
              ∙ sym (ap (unchanged h raw) (sanitize-valid h laws prefix raw valid))
              ∙ h' in
            let e : raw ≡ d = ground (arith, k) in (subst (λ x. h.validate x ≡ none) e valid, sym e)
      ]

  pub path_of :
      (p : Text × Option Text) (d : Text)
      → named_digest h p ≡ some d
      → (h.validate d ≡ none) × (uncut p ≡ digest_path h d)
  unfolding named_digest
  path_of (algo, none) d k = cc
  path_of (algo, some encoded) d k =
      let (valid, e) = named_digest-eq-some algo encoded d k in
      let (a, b) = laws.unique algo encoded (subst (λ x. h.validate x ≡ none) e valid) in
      (valid, cc (ap h.algorithm e ∙ a, ap h.encoded e ∙ b))

  key_of :
      (key under : Text) (d : Text)
      → parse_key h prefix key under ≡ some d
      → (h.validate d ≡ none) × (key ≡ (prefix ++ under) ++ digest_path h d)
  unfolding parse_key
  key_of key under d k = elim (Option-cases (cut_prefix (prefix ++ under) key)) [
    | inl other ↦ absurd (ground (arith, k, other))
    | inr (rest, cut) ↦
        let (valid, e) = path_of (cut_slash rest) d (ground (arith, k, cut)) in
        (
          valid,
          cut_prefix-eq-some (prefix ++ under) key cut
              ∙ ap (λ t. (prefix ++ under) ++ t) (sym (uncut-cut_slash rest) ∙ e),
        )
  ]

  pub parse_key-blob :
      (key : Text) (d : Text)
      → parse_key h prefix key (codes "blob/") ≡ some d
      → (h.validate d ≡ none) × (key ≡ blob_key h prefix d)
  unfolding blob_key
  parse_key-blob key d k = key_of key (codes "blob/") d k

  pub parse_key-trash :
      (key : Text) (d : Text)
      → parse_key h prefix key (codes "trash/") ≡ some d
      → (h.validate d ≡ none) × (key ≡ trash_key h prefix d)
  unfolding trash_key
  parse_key-trash key d k = key_of key (codes "trash/") d k

-- ===== src/S3/Sound.antt =====
-- What the bucket of an S3Stores holds, and the steps that keep it sound.
use mathlib.Core.Path.{subst}
use flob.Prelude.{
  ◌≡◌, ◌≢◌, refl, sym, ap, ◌∙◌, true, Option, none, some, ◌++◌, is_some, Bool-cases, ◌⊎◌, inl, inr,
  arith,
}
use flob.Prelude.Text.{Text, codes, text_eq, text_eq_iff, cut_prefix}
use flob.Hashing.{Hashing, from_bytes}
use flob.Namespace.Base64.{AllBytes}
use flob.S3.Keys.{digest_path, blob_key, trash_key, ref_key}
use flob.S3.Named.{DigestLaws, apart, blob_key-injective, ref_key-injective}
use flob.S3.Service.{Object}

-- An object has the content of a digest, if there is one.
unfoldable pub IsRight : Hashing → Text → Option Object → Type 0
IsRight h d none = Unit
IsRight h d (some o) = from_bytes h (h.algorithm d) o.bytes ≡ d

pub same_or_other : (a b : Text) → (a ≡ b) ⊎ (a ≢ b)
same_or_other a b = elim (Bool-cases (text_eq a b)) [
  | inl same ↦ inl ((text_eq_iff a b).0 same)
  | inr differ ↦ inr (λ same. absurd (ground (arith, differ, (text_eq_iff a b).1 same)))
]

module _ (h : Hashing) (laws : DigestLaws h) (prefix : Text) where
  abbrev pub Bucket : Type 0
  Bucket = Text → Option Object

  -- The bytes of a digest are in the bucket, in use or put aside.
  abbrev pub IsHeld : Text → Bucket → Type 0
  IsHeld d w =
      (is_some (w (blob_key h prefix d)) ≡ true) ⊎ (is_some (w (trash_key h prefix d)) ≡ true)

  -- Every blob has the content of its digest, also one that was put aside, and the bytes of every
  -- reference are there.
  unfoldable pub IsSound : Bucket → Type 0
  IsSound w =
      (d : Text)
      → h.validate d ≡ none
      → IsRight h d (w (blob_key h prefix d))
        × IsRight h d (w (trash_key h prefix d))
        × ((id : Text) → AllBytes id → is_some (w (ref_key h prefix d id)) ≡ true → IsHeld d w)

  -- What a step may do to a digest: store its bytes, and add references to what is there.
  abbrev Keeps : Text → Bucket → Bucket → Type 0
  Keeps d w w' =
      ((w' (blob_key h prefix d) ≡ w (blob_key h prefix d))
        ⊎ (is_some (w' (blob_key h prefix d)) ≡ true) × IsRight h d (w' (blob_key h prefix d)))
      × (w' (trash_key h prefix d) ≡ w (trash_key h prefix d))
      × ((id : Text)
          → AllBytes id
          → is_some (w' (ref_key h prefix d id)) ≡ true
          → (is_some (w (ref_key h prefix d id)) ≡ true) ⊎ IsHeld d w)

  Keeps-IsHeld : (d : Text) (w w' : Bucket) → Keeps d w w' → IsHeld d w → IsHeld d w'
  Keeps-IsHeld d w w' (inl same, _, _) (inl present) = inl (ap is_some same ∙ present)
  Keeps-IsHeld d w w' (inr (present', _), _, _) (inl present) = inl present'
  Keeps-IsHeld d w w' (_, same, _) (inr aside) = inr (ap is_some same ∙ aside)

  Keeps-IsSound :
      (w w' : Bucket) → ((d : Text) → h.validate d ≡ none → Keeps d w w') → IsSound w → IsSound w'
  unfolding IsSound
  Keeps-IsSound w w' step sound d valid =
      let (right, aside, refs) = sound d valid in
      let keeps = step d valid in
      let (blob, trash, added) = keeps in
      (
        elim blob [ inl same ↦ subst (IsRight h d) (sym same) right | inr (_, new) ↦ new ],
        subst (IsRight h d) (sym trash) aside,
        λ id bytes present.
            Keeps-IsHeld d w w' keeps
              (elim (added id bytes present) [ inl old ↦ refs id bytes old | inr held ↦ held ]),
      )

  -- Only one key may have changed.
  abbrev pub IsOnly : Text → Bucket → Bucket → Type 0
  IsOnly k w w' = (k' : Text) → k' ≢ k → w' k' ≡ w k'

  pub same-IsSound : (w w' : Bucket) → ((k : Text) → w' k ≡ w k) → IsSound w → IsSound w'
  same-IsSound w w' same = Keeps-IsSound w w' (λ d valid. (
    inl (same (blob_key h prefix d)),
    same (trash_key h prefix d),
    λ id bytes present. inl (ap is_some (sym (same (ref_key h prefix d id))) ∙ present),
  ))

  -- A key under another directory.
  pub aside-IsSound :
      (a t : Text) (w w' : Bucket)
      → cut_prefix (codes "blob/") (a ++ t) ≡ none
      → cut_prefix (codes "trash/") (a ++ t) ≡ none
      → cut_prefix (codes "refs/") (a ++ t) ≡ none
      → IsOnly ((prefix ++ a) ++ t) w w'
      → IsSound w
      → IsSound w'
  unfolding blob_key trash_key ref_key
  aside-IsSound a t w w' blob trash refs only = Keeps-IsSound w w' (λ d valid. (
    inl (only (blob_key h prefix d) (apart prefix (codes "blob/") a _ t blob)),
    only (trash_key h prefix d) (apart prefix (codes "trash/") a _ t trash),
    λ id bytes present. inl (
        ap is_some (sym (only (ref_key h prefix d id) (apart prefix (codes "refs/") a _ t refs)))
        ∙ present),
  ))

  -- A blob is stored.
  pub blob-IsSound :
      (e : Text) (w w' : Bucket)
      → h.validate e ≡ none
      → IsOnly (blob_key h prefix e) w w'
      → (w' (blob_key h prefix e) ≡ w (blob_key h prefix e))
        ⊎ (o : Object) × (w' (blob_key h prefix e) ≡ some o) × IsRight h e (some o)
      → IsSound w
      → IsSound w'
  unfolding blob_key trash_key ref_key cut_prefix
  blob-IsSound e w w' valid only either = Keeps-IsSound w w' (λ d valid'. (
    blob_changes d valid' (same_or_other (blob_key h prefix d) (blob_key h prefix e)),
    only (trash_key h prefix d)
        (apart prefix (codes "trash/") (codes "blob/") (digest_path h d) (digest_path h e) refl),
    λ id bytes present. inl (
        ap is_some (
          sym (
            only (ref_key h prefix d id)
              (apart prefix (codes "refs/") (codes "blob/") _ (digest_path h e) refl)))
        ∙ present),
  ))
    where
      blob_changes :
          (d : Text)
          → h.validate d ≡ none
          → (blob_key h prefix d ≡ blob_key h prefix e)
            ⊎ (blob_key h prefix d ≢ blob_key h prefix e)
          → (w' (blob_key h prefix d) ≡ w (blob_key h prefix d))
            ⊎ (is_some (w' (blob_key h prefix d)) ≡ true) × IsRight h d (w' (blob_key h prefix d))
      blob_changes d valid' (inr differ) = inl (only (blob_key h prefix d) differ)
      blob_changes d valid' (inl same) =
          let k : e ≡ d = sym (blob_key-injective h laws prefix d e valid' valid same) in
          elim either [
            | inl kept ↦
                inl (subst (λ x. w' (blob_key h prefix x) ≡ w (blob_key h prefix x)) k kept)
            | inr (o, stored, right) ↦ inr (
                subst
                  (λ x.
                    (is_some (w' (blob_key h prefix x)) ≡ true)
                    × IsRight h x (w' (blob_key h prefix x)))
                  k (ap is_some stored, subst (IsRight h e) (sym stored) right))
          ]

  -- A reference is written to bytes that are there, or removed.
  pub ref-IsSound :
      (e id : Text) (w w' : Bucket)
      → h.validate e ≡ none
      → AllBytes id
      → IsOnly (ref_key h prefix e id) w w'
      → (is_some (w' (ref_key h prefix e id)) ≡ true
          → is_some (w (ref_key h prefix e id)) ≡ true ⊎ IsHeld e w)
      → IsSound w
      → IsSound w'
  unfolding blob_key trash_key ref_key cut_prefix
  ref-IsSound e id w w' valid bytes only either = Keeps-IsSound w w' (λ d valid'. (
    inl (
        only (blob_key h prefix d)
          (apart prefix (codes "blob/") (codes "refs/") (digest_path h d) _ refl)),
    only (trash_key h prefix d)
        (apart prefix (codes "trash/") (codes "refs/") (digest_path h d) _ refl),
    λ id' bytes' present.
        ref_changes d id' valid' bytes' present
          (same_or_other (ref_key h prefix d id') (ref_key h prefix e id)),
  ))
    where
      ref_changes :
          (d id' : Text)
          → h.validate d ≡ none
          → AllBytes id'
          → is_some (w' (ref_key h prefix d id')) ≡ true
          → (ref_key h prefix d id' ≡ ref_key h prefix e id)
            ⊎ (ref_key h prefix d id' ≢ ref_key h prefix e id)
          → (is_some (w (ref_key h prefix d id')) ≡ true) ⊎ IsHeld d w
      ref_changes d id' valid' bytes' present (inr differ) =
          inl (ap is_some (sym (only (ref_key h prefix d id') differ)) ∙ present)
      ref_changes d id' valid' bytes' present (inl same) =
          let (k, _) = ref_key-injective h laws prefix d e id' id valid' valid bytes' bytes same in
          elim (either (ap (λ x. is_some (w' x)) (sym same) ∙ present)) [
            | inl old ↦ inl (ap (λ x. is_some (w x)) same ∙ old)
            | inr held ↦ inr (subst (λ x. IsHeld x w) (sym k) held)
          ]

-- ===== src/S3/Removed.antt =====
-- Removing the bytes of a digest, or putting them aside, in a sound bucket.
use mathlib.Core.Path.{subst}
use flob.Prelude.{◌≡◌, refl, sym, ap, ◌∙◌, true, Option, none, some, is_some, ◌⊎◌, inl, inr}
use flob.Prelude.Text.{Text, codes, cut_prefix}
use flob.Hashing.{Hashing}
use flob.Namespace.Base64.{AllBytes}
use flob.S3.Keys.{digest_path, blob_key, trash_key, ref_key}
use flob.S3.Named.{DigestLaws, apart, blob_key-injective, trash_key-injective}
use flob.S3.Service.{Object}
use flob.S3.Sound.{IsRight, IsSound, IsOnly, Bucket, same_or_other}

module _ (h : Hashing) (laws : DigestLaws h) (prefix : Text) where
  -- No store refers to a digest.
  abbrev pub IsFree : Text → Bucket h laws prefix → Type 0
  IsFree d w = (id : Text) → AllBytes id → is_some (w (ref_key h prefix d id)) ≡ true → ⊥

  -- What becomes of the bytes under a key: they stay, go, or are others of the same digest.
  abbrev pub Becomes : Text → Option Object → Option Object → Type 0 → Type 0
  Becomes d old new may_go =
      (new ≡ old) ⊎ ((new ≡ none) × may_go) ⊎ ((o : Object) × (new ≡ some o) × IsRight h d (some o))

  Becomes-IsRight :
      (d : Text) (old new : Option Object) {G : Type 0}
      → Becomes d old new G
      → IsRight h d old
      → IsRight h d new
  unfolding IsRight
  Becomes-IsRight d old new (inl same) right = subst (IsRight h d) (sym same) right
  Becomes-IsRight d old new (inr (inl (gone, _))) right = subst (IsRight h d) (sym gone) tt
  Becomes-IsRight d old new (inr (inr (o, there, new_right))) right =
      subst (IsRight h d) (sym there) new_right

  Becomes-is_some :
      (d : Text) (old new : Option Object) {G : Type 0}
      → Becomes d old new G
      → is_some old ≡ true
      → (is_some new ≡ true) ⊎ G
  Becomes-is_some d old new (inl same) there = inl (ap is_some same ∙ there)
  Becomes-is_some d old new (inr (inl (gone, free))) there = inr free
  Becomes-is_some d old new (inr (inr (o, now, _))) there = inl (ap is_some now)

  -- The bytes that are put aside.
  module _ (e : Text) (w w' : Bucket h laws prefix) (valid : h.validate e ≡ none)
      (only : IsOnly h laws prefix (trash_key h prefix e) w w')
      (change : Becomes e
        (w (trash_key h prefix e))
        (w' (trash_key h prefix e))
        ((is_some (w (blob_key h prefix e)) ≡ true) ⊎ IsFree e w)) where
    trash_blob : (d : Text) → w' (blob_key h prefix d) ≡ w (blob_key h prefix d)
    unfolding blob_key trash_key cut_prefix
    trash_blob d =
        only (blob_key h prefix d)
          (apart prefix (codes "blob/") (codes "trash/") (digest_path h d) (digest_path h e) refl)

    trash_ref : (d id : Text) → w' (ref_key h prefix d id) ≡ w (ref_key h prefix d id)
    unfolding ref_key trash_key cut_prefix
    trash_ref d id =
        only (ref_key h prefix d id)
          (apart prefix (codes "refs/") (codes "trash/") _ (digest_path h e) refl)

    trash_change :
        (d : Text)
        → h.validate d ≡ none
        → Becomes d
            (w (trash_key h prefix d))
            (w' (trash_key h prefix d))
            ((is_some (w (blob_key h prefix d)) ≡ true) ⊎ IsFree d w)
    trash_change d valid' = elim (same_or_other (trash_key h prefix d) (trash_key h prefix e)) [
      | inr differ ↦ inl (only (trash_key h prefix d) differ)
      | inl same ↦
          subst
            (λ x.
              Becomes x (w (trash_key h prefix x)) (w' (trash_key h prefix x))
                ((is_some (w (blob_key h prefix x)) ≡ true) ⊎ IsFree x w))
            (sym (trash_key-injective h laws prefix d e valid' valid same)) change
    ]

    pub trash-IsSound : IsSound h laws prefix w → IsSound h laws prefix w'
    unfolding IsSound
    trash-IsSound sound d valid' =
        let (right, aside, refs) = sound d valid' in
        (
          subst (IsRight h d) (sym (trash_blob d)) right,
          Becomes-IsRight d _ _ (trash_change d valid') aside,
          λ id bytes present.
              let before = ap is_some (sym (trash_ref d id)) ∙ present in
              elim (refs id bytes before) [
                | inl blob ↦ inl (ap is_some (trash_blob d) ∙ blob)
                | inr trash ↦ elim (Becomes-is_some d _ _ (trash_change d valid') trash) [
                  | inl still ↦ inr still
                  | inr (inl blob) ↦ inl (ap is_some (trash_blob d) ∙ blob)
                  | inr (inr free) ↦ absurd (free id bytes before)
                ]
              ],
        )

  -- The bytes in use, of a digest that nothing refers to.
  module _ (e : Text) (w w' : Bucket h laws prefix) (valid : h.validate e ≡ none)
      (only : IsOnly h laws prefix (blob_key h prefix e) w w')
      (change : Becomes e (w (blob_key h prefix e)) (w' (blob_key h prefix e)) (IsFree e w)) where
    blob_trash : (d : Text) → w' (trash_key h prefix d) ≡ w (trash_key h prefix d)
    unfolding blob_key trash_key cut_prefix
    blob_trash d =
        only (trash_key h prefix d)
          (apart prefix (codes "trash/") (codes "blob/") (digest_path h d) (digest_path h e) refl)

    blob_ref : (d id : Text) → w' (ref_key h prefix d id) ≡ w (ref_key h prefix d id)
    unfolding ref_key blob_key cut_prefix
    blob_ref d id =
        only (ref_key h prefix d id)
          (apart prefix (codes "refs/") (codes "blob/") _ (digest_path h e) refl)

    blob_change :
        (d : Text)
        → h.validate d ≡ none
        → Becomes d (w (blob_key h prefix d)) (w' (blob_key h prefix d)) (IsFree d w)
    blob_change d valid' = elim (same_or_other (blob_key h prefix d) (blob_key h prefix e)) [
      | inr differ ↦ inl (only (blob_key h prefix d) differ)
      | inl same ↦
          subst (λ x. Becomes x (w (blob_key h prefix x)) (w' (blob_key h prefix x)) (IsFree x w))
            (sym (blob_key-injective h laws prefix d e valid' valid same)) change
    ]

    pub blob_change-IsSound : IsSound h laws prefix w → IsSound h laws prefix w'
    unfolding IsSound
    blob_change-IsSound sound d valid' =
        let (right, aside, refs) = sound d valid' in
        (
          Becomes-IsRight d _ _ (blob_change d valid') right,
          subst (IsRight h d) (sym (blob_trash d)) aside,
          λ id bytes present.
              let before = ap is_some (sym (blob_ref d id)) ∙ present in
              elim (refs id bytes before) [
                | inr trash ↦ inr (ap is_some (blob_trash d) ∙ trash)
                | inl blob ↦ elim (Becomes-is_some d _ _ (blob_change d valid') blob) [
                  | inl still ↦ inl still
                  | inr free ↦ absurd (free id bytes before)
                ]
              ],
        )

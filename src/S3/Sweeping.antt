-- ===== src/S3/Sweeping.antt =====
-- The steps of the two sweeps of Reclaim in reclaim.go.
use mathlib.Core.Path.{subst}
use flob.Prelude.{ℕ, ◌<◌, ◌≡◌, refl, sym, ap, ◌∙◌, true, Option, none, is_some, ◌⊎◌, inl, inr}
use flob.Prelude.Text.{Text, codes, cut_prefix}
use flob.Hashing.{Hashing}
use flob.S3.Keys.{digest_path, blob_key, trash_key, ref_key}
use flob.S3.Named.{DigestLaws, apart}
use flob.S3.Service.{Service, ServiceLaws, Object}
use flob.S3.Requests.{State, delete_key_if}
use flob.S3.Told.{tries-rule, IsOnlyAt, IsCut, IsDeleted, delete_key_if-IsDeleted}
use flob.S3.Probe.{Config}
use flob.S3.Sound.{IsSound, same_or_other}
use flob.S3.Removed.{IsFree, trash-IsSound, blob_change-IsSound}
use flob.S3.Copied.{CopyingLaws}
use flob.S3.Listing.{Flow, next, stop}
use flob.S3.Reclaiming.{Reclaimed, Sweep, drop_key}

module _ {W : Type 0} (svc : Service W) (object : W → Text → Option Object)
    (laws : ServiceLaws svc object) (copying : CopyingLaws svc object) (h : Hashing)
    (names : DigestLaws h) (c : Config) (some_part : 0 < c.copy_part) where
  abbrev pub Sound : State W → Type 0
  Sound s = IsSound h names c.prefix (object s.world)

  abbrev pub SameRefs : State W → State W → Type 0
  SameRefs s t =
      (d id : Text)
      → object t.world (ref_key h c.prefix d id) ≡ object s.world (ref_key h c.prefix d id)

  -- The objects under some keys stay or go.
  abbrev pub Thin : (Text → Text) → State W → State W → Type 0
  Thin key s t =
      (d : Text)
      → (object t.world (key d) ≡ object s.world (key d)) ⊎ (object t.world (key d) ≡ none)

  abbrev pub Step : (Text → Text) → State W → State W → Type 0
  Step key s t = Sound t × SameRefs s t × Thin key s t

  -- What the body of a sweep does with an entry.
  abbrev pub FlowIs : (Text → Text) → State W → Flow (Sweep W) (Reclaimed × State W) → Type 0
  FlowIs key s (next x) = Step key s x.state
  FlowIs key s (stop (r, t)) = Sound t × SameRefs s t

  abbrev pub blob : Text → Text
  blob d = blob_key h c.prefix d

  abbrev pub trash : Text → Text
  trash d = trash_key h c.prefix d

  pub Thin-of :
      (key : Text → Text) (e : Text) (s t : State W)
      → IsCut svc object laws (key e) s t
      → Thin key s t
  Thin-of key e s t (only, either) d = elim (same_or_other (key d) (key e)) [
    | inr differ ↦ inl (only (key d) differ)
    | inl same ↦ elim either [
      | inl kept ↦ inl (ap (object t.world) same ∙ kept ∙ ap (object s.world) (sym same))
      | inr gone ↦ inr (ap (object t.world) same ∙ gone)
    ]
  ]

  pub trash_refs :
      (e : Text) (s t : State W) → IsOnlyAt svc object laws (trash e) s t → SameRefs s t
  unfolding ref_key trash_key cut_prefix
  trash_refs e s t only d id =
      only (ref_key h c.prefix d id)
        (apart c.prefix (codes "refs/") (codes "trash/") _ (digest_path h e) refl)

  pub blob_refs : (e : Text) (s t : State W) → IsOnlyAt svc object laws (blob e) s t → SameRefs s t
  unfolding ref_key blob_key cut_prefix
  blob_refs e s t only d id =
      only (ref_key h c.prefix d id)
        (apart c.prefix (codes "refs/") (codes "blob/") _ (digest_path h e) refl)

  pub blob-Thin :
      (e : Text) (s t : State W) → IsOnlyAt svc object laws (blob e) s t → Thin trash s t
  unfolding trash_key blob_key cut_prefix
  blob-Thin e s t only d = inl (
      only (trash d)
        (apart c.prefix (codes "trash/") (codes "blob/") (digest_path h d) (digest_path h e) refl))

  pub trash-Thin :
      (e : Text) (s t : State W) → IsOnlyAt svc object laws (trash e) s t → Thin blob s t
  unfolding trash_key blob_key cut_prefix
  trash-Thin e s t only d = inl (
      only (blob d)
        (apart c.prefix (codes "blob/") (codes "trash/") (digest_path h d) (digest_path h e) refl))

  Thin-trans : (key : Text → Text) (s t u : State W) → Thin key s t → Thin key t u → Thin key s u
  Thin-trans key s t u first second d = elim (second d) [
    | inr gone ↦ inr gone
    | inl same ↦ elim (first d) [ inl before ↦ inl (same ∙ before) | inr gone ↦ inr (same ∙ gone) ]
  ]

  -- What comes after a step.
  pub FlowIs-after :
      (key : Text → Text) (s t : State W) (f : Flow (Sweep W) (Reclaimed × State W))
      → SameRefs s t
      → Thin key s t
      → FlowIs key t f
      → FlowIs key s f
  FlowIs-after key s t (next x) refs thin (sound, refs', thin') =
      (sound, (λ d id. refs' d id ∙ refs d id), Thin-trans key s t x.state thin thin')
  FlowIs-after key s t (stop (r, u)) refs thin (sound, refs') =
      (sound, λ d id. refs' d id ∙ refs d id)

  -- A blob that was put aside is removed.
  pub drop_trash :
      (d key : Text) (failed n : ℕ) (s : State W)
      → h.validate d ≡ none
      → key ≡ trash d
      → Sound s
      → (is_some (object s.world (blob d)) ≡ true) ⊎ IsFree h names c.prefix d (object s.world)
      → FlowIs trash s (drop_key svc h c key failed n s)
  drop_trash d key failed n s valid named sound may_go =
      let cut : IsDeleted svc object laws (trash d) s (delete_key_if svc key (codes "") s) =
        subst (λ k. IsDeleted svc object laws (trash d) s (delete_key_if svc k (codes "") s))
          (sym named) (delete_key_if-IsDeleted svc object laws (trash d) (codes "") s) in
      tries-rule (IsDeleted svc object laws (trash d) s) (FlowIs trash s)
        (delete_key_if svc key (codes "") s) cut
        (λ e t (only, either). (kept t only either, trash_refs d s t only))
        (λ t (only, either).
          (kept t only either, trash_refs d s t only, Thin-of trash d s t (only, either)))
    where
      kept :
          (t : State W)
          → IsOnlyAt svc object laws (trash d) s t
          → (object t.world (trash d) ≡ object s.world (trash d))
            ⊎ (object t.world (trash d) ≡ none)
          → Sound t
      kept t only either =
          trash-IsSound h names c.prefix d (object s.world) (object t.world) valid only
            (elim either [ inl same ↦ inl same | inr gone ↦ inr (inl (gone, may_go)) ]) sound

  -- A blob in use that nothing refers to is removed.
  pub drop_blob :
      (d key : Text) (failed n : ℕ) (s : State W)
      → h.validate d ≡ none
      → key ≡ blob d
      → Sound s
      → IsFree h names c.prefix d (object s.world)
      → FlowIs blob s (drop_key svc h c key failed n s)
  drop_blob d key failed n s valid named sound free =
      let cut : IsDeleted svc object laws (blob d) s (delete_key_if svc key (codes "") s) =
        subst (λ k. IsDeleted svc object laws (blob d) s (delete_key_if svc k (codes "") s))
          (sym named) (delete_key_if-IsDeleted svc object laws (blob d) (codes "") s) in
      tries-rule (IsDeleted svc object laws (blob d) s) (FlowIs blob s)
        (delete_key_if svc key (codes "") s) cut
        (λ e t (only, either). (kept t only either, blob_refs d s t only))
        (λ t (only, either).
          (kept t only either, blob_refs d s t only, Thin-of blob d s t (only, either)))
    where
      kept :
          (t : State W)
          → IsOnlyAt svc object laws (blob d) s t
          → (object t.world (blob d) ≡ object s.world (blob d)) ⊎ (object t.world (blob d) ≡ none)
          → Sound t
      kept t only either =
          blob_change-IsSound h names c.prefix d (object s.world) (object t.world) valid only
            (elim either [ inl same ↦ inl same | inr gone ↦ inr (inl (gone, free)) ]) sound

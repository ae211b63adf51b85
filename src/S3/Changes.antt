-- ===== src/S3/Changes.antt =====
-- Label, Erase and Link of an S3Store in s3.go, on a sound bucket.
use mathlib.Core.Path.{subst}
use flob.Prelude.{
  ◌≡◌, refl, sym, ap, ◌∙◌, Option, none, some, is_some, inl, inr, arith, Option-cases,
}
use flob.Prelude.Text.{Text, codes}
use flob.Prelude.Int.{ℤ}
use flob.Errors.{Error, not_exist}
use flob.Hashing.{Hashing, sanitize}
use flob.Namespace.Base64.{AllBytes}
use flob.Meta.{Labels, no_meta}
use flob.Mem.Staging.{ok}
use flob.S3.Keys.{ref_key}
use flob.S3.Named.{DigestLaws, sanitize-valid, sanitize-invalid}
use flob.S3.Markers.{meta_to_labels}
use flob.S3.Service.{Service, ServiceLaws, Object, Response}
use flob.S3.Requests.{State, halts, ask_put, head, delete_key_if, put_ref}
use flob.S3.Told.{asks-rule, halts-rule, IsFound, head-IsFound, delete_key_if-IsDeleted}
use flob.S3.Sound.{IsSound, ref-IsSound}
use flob.S3.Probe.{Config}
use flob.S3.Store.{label, label_named, erase, link, link_named, link_put}
use flob.S3.Keeping.{Sound, Held, Refers, same-Sound, put_ref-Sound}

module _ {W : Type 0} (svc : Service W) (object : W → Text → Option Object)
    (laws : ServiceLaws svc object) (h : Hashing) (names : DigestLaws h) (c : Config) (id : Text)
    (bytes : AllBytes id) where
  abbrev IsKept : State W → Type 0
  IsKept s = Sound svc object laws h names c id bytes s

  abbrev Ends : {A : Type 0} → A × State W → Type 0
  Ends (a, s) = IsKept s

  IsKept-by :
      (s t : State W) → ((k : Text) → object t.world k ≡ object s.world k) → IsKept s → IsKept t
  IsKept-by s t same = same-Sound svc object laws h names c id bytes s t same

  -- A reference that a HEAD found has its bytes.
  found-IsHeld :
      (d from : Text) (s t : State W) (res : Response)
      → h.validate d ≡ none
      → AllBytes from
      → IsKept s
      → IsFound svc object laws (ref_key h c.prefix d from) s (ok res, t)
      → Held svc object laws h names c id bytes d t
  unfolding IsSound
  found-IsHeld d from s t res valid named sound (same, o, there, metadata, size) =
      (IsKept-by s t same sound d valid).2 from named
        (ap is_some (same (ref_key h c.prefix d from) ∙ there))

  -- An operation that ends at once unless its digest is valid.
  by_digest :
      {A : Type 0} (raw : Text) (failed : Error → A × State W) (next : Text → A × State W)
      → ((e : Error) → Ends (failed e))
      → (h.validate raw ≡ none → Ends (next raw))
      → Ends (halts (sanitize h raw).0 failed (next (sanitize h raw).1))
  by_digest raw failed next bad good = elim (Option-cases (h.validate raw)) [
    | inr (e, invalid) ↦
        subst (λ v. Ends (halts v.0 failed (next v.1))) (sym (sanitize-invalid h raw e invalid))
          (bad e)
    | inl valid ↦
        subst (λ v. Ends (halts v.0 failed (next v.1)))
          (sym (sanitize-valid h names c.prefix raw valid)) (good valid)
  ]

  Refers-IsKept :
      (d : Text) (labels : Labels) (size : ℤ) (r : Option Error × State W)
      → Refers svc object laws h names c id bytes d labels size r
      → Ends r
  Refers-IsKept d labels size (some e, t) after = after
  Refers-IsKept d labels size (none, t) after = after.0

  label_named-IsKept :
      (d : Text) (labels : Labels) (s : State W)
      → h.validate d ≡ none
      → IsKept s
      → Ends (label_named svc h c.prefix id d labels s)
  label_named-IsKept d labels s valid sound =
      let key = ref_key h c.prefix d id in
      asks-rule (IsFound svc object laws key s) Ends (head svc key s)
        (head-IsFound svc object laws key s) (λ e t same. IsKept-by s t same sound)
        (λ ref t found.
          Refers-IsKept d labels (meta_to_labels ref.headers).1
            (put_ref svc h c.prefix d id labels (meta_to_labels ref.headers).1 t)
            (put_ref-Sound svc object laws h names c id bytes d labels
              (meta_to_labels ref.headers).1 t valid
              (found-IsHeld d id s t ref valid bytes sound found) (IsKept-by s t found.0 sound)))

  pub label-IsSound :
      (raw : Text) (labels : Labels) (s : State W)
      → IsKept s
      → IsKept (label svc h c.prefix id raw labels s).1
  unfolding label
  label-IsSound raw labels s sound =
      by_digest raw (λ e. (some not_exist, s)) (λ d. label_named svc h c.prefix id d labels s)
        (λ e. sound) (λ valid. label_named-IsKept raw labels s valid sound)

  erase_named-IsKept :
      (d : Text) (s : State W)
      → h.validate d ≡ none
      → IsKept s
      → Ends (delete_key_if svc (ref_key h c.prefix d id) (codes "") s)
  erase_named-IsKept d s valid sound =
      let (only, either) =
        delete_key_if-IsDeleted svc object laws (ref_key h c.prefix d id) (codes "") s in
      ref-IsSound h names c.prefix d id (object s.world) _ valid bytes only
        (λ present. elim either [
          | inl same ↦ inl (ap is_some (sym same) ∙ present)
          | inr gone ↦ absurd (ground (arith, gone, present))
        ])
        sound

  pub erase-IsSound :
      (raw : Text) (s : State W) → IsKept s → IsKept (erase svc h c.prefix id raw s).1
  unfolding erase
  erase-IsSound raw s sound =
      by_digest raw (λ e. (none, s)) (λ d. delete_key_if svc (ref_key h c.prefix d id) (codes "") s)
        (λ e. sound) (λ valid. erase_named-IsKept raw s valid sound)

  link_named-IsKept :
      (d : Text) (source : Option Text) (s : State W)
      → h.validate d ≡ none
      → ((from : Text) → source ≡ some from → AllBytes from)
      → IsKept s
      → Ends (link_named svc h c.prefix id d source s)
  link_named-IsKept d none s valid named sound = sound
  link_named-IsKept d (some from) s valid named sound =
      let key = ref_key h c.prefix d from in
      asks-rule (IsFound svc object laws key s) Ends (head svc key s)
        (head-IsFound svc object laws key s) (λ e t same. IsKept-by s t same sound)
        (λ ref t found.
          let p = link_put svc h c.prefix id d ref in
          asks-rule (λ r. IsKept r.1) Ends (ask_put svc p t)
            (ref-IsSound h names c.prefix d id (object t.world) (object (svc.put p t.world).1) valid
              bytes (λ k. laws.put_others p t.world k)
              (λ present. inr (found-IsHeld d from s t ref valid (named from refl) sound found))
              (IsKept-by s t found.0 sound))
            (λ e u after. after) (λ res u after. after))

  pub link-IsSound :
      (ctx_err : Option Error) (raw : Text) (source : Option Text) (s : State W)
      → ((from : Text) → source ≡ some from → AllBytes from)
      → IsKept s
      → IsKept (link svc h c.prefix id ctx_err raw source s).1
  unfolding link
  link-IsSound ctx_err raw source s named sound =
      halts-rule Ends ctx_err (λ e. sound)
        (by_digest raw (λ e. ((no_meta, some e), s)) (λ d. link_named svc h c.prefix id d source s)
          (λ e. sound) (λ valid. link_named-IsKept raw source s valid named sound))

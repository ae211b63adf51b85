-- ===== src/S3/Keeping.antt =====
-- The operations of an S3Store in s3.go on a sound bucket: what Add, its upload and its reference
-- leave.
use mathlib.Core.Path.{subst}
use flob.Prelude.{
  ℕ, ◌≡◌, refl, sym, ap, ◌∙◌, Bool, true, false, not, Option, none, some, List, is_some, by_test,
  if◌then◌else◌, ◌⊎◌, inl, inr, arith, length, take_all,
}
use flob.Prelude.Text.{Text, text_eq, text_eq_iff, is_empty}
use flob.Prelude.Int.{ℤ, pos}
use flob.Errors.{Error, already_exists}
use flob.Hashing.{Hashing, from_bytes}
use flob.Namespace.Base64.{AllBytes}
use flob.Meta.{Meta, Labels, Source, Added}
use flob.Mem.Staging.{Result, ok, err}
use flob.S3.Keys.{blob_key, ref_key}
use flob.S3.Named.{DigestLaws}
use flob.S3.Markers.{marker, meta_to_labels}
use flob.S3.Marked.{FitsHeader, meta_to_labels-marker}
use flob.S3.Service.{Service, ServiceLaws, Object, Put, is_success, stored}
use flob.S3.Requests.{State, moved, ask_put, exists, put_ref, ref_put}
use flob.S3.Told.{
  asks-rule, tries-rule, halts-rule, IsSame, IsTold, exists-IsTold, IsStored, put-IsStored,
}
use flob.S3.Sound.{IsRight, IsSound, IsHeld, same-IsSound, blob-IsSound, ref-IsSound}
use flob.S3.Probe.{Config}
use flob.S3.Adding.{
  add_ref, blob_put, put_blob, spooled_put, upload_absent, upload_spooled, spooled, spool,
}

module _ {W : Type 0} (svc : Service W) (object : W → Text → Option Object)
    (laws : ServiceLaws svc object) (h : Hashing) (names : DigestLaws h) (c : Config) (id : Text)
    (bytes : AllBytes id) where
  -- The bucket of a state is sound.
  abbrev pub Sound : State W → Type 0
  Sound s = IsSound h names c.prefix (object s.world)

  abbrev pub Held : Text → State W → Type 0
  Held d s = IsHeld h names c.prefix d (object s.world)

  -- A reference as putRef writes it, from which its labels and its size are read back.
  abbrev pub HasRef : Text → Labels → ℤ → State W → Type 0
  HasRef d labels size s =
      (o : Object) × (object s.world (ref_key h c.prefix d id) ≡ some o)
      × (o.metadata ≡ marker labels size)
      × (FitsHeader labels size → meta_to_labels o.metadata ≡ (labels, size))

  -- What an Add leaves: a sound bucket, with the reference that a success reports.
  abbrev pub Leaves : Added × State W → Type 0
  Leaves ((m, some e), s) = Sound s
  Leaves ((m, none), s) = Sound s × HasRef m.digest m.labels m.size s

  -- The same of putRef.
  abbrev pub Refers : Text → Labels → ℤ → Option Error × State W → Type 0
  Refers d labels size (some e, s) = Sound s
  Refers d labels size (none, s) = Sound s × HasRef d labels size s

  pub same-Sound : (s t : State W) → IsSame svc object laws s t → Sound s → Sound t
  same-Sound s t same = same-IsSound h names c.prefix (object s.world) (object t.world) same

  -- A reference to bytes that are there.
  pub put_ref-Sound :
      (d : Text) (labels : Labels) (size : ℤ) (s : State W)
      → h.validate d ≡ none
      → Held d s
      → Sound s
      → Refers d labels size (put_ref svc h c.prefix d id labels size s)
  unfolding put_ref
  put_ref-Sound d labels size s valid held sound =
      let p = ref_put svc h c.prefix d id labels size false in
      asks-rule (IsStored svc object laws p s) (Refers d labels size) (ask_put svc p s)
        (put-IsStored svc object laws p s)
        (λ e t (only, either).
          ref-IsSound h names c.prefix d id (object s.world) (object t.world) valid bytes only
            (λ present. inr held) sound)
        (λ res t (only, either, success).
          let after : Sound t =
            ref-IsSound h names c.prefix d id (object s.world) (object t.world) valid bytes only
              (λ present. inr held) sound in
          by_test (Refers d labels size) (is_success res)
            (λ yes. (after, (_, success yes, refl, meta_to_labels-marker labels size)))
            (λ no. after))

  pub add_ref-Sound :
      (m : Meta) (size : ℤ) (s : State W)
      → h.validate m.digest ≡ none
      → Held m.digest s
      → Sound s
      → Leaves (add_ref svc h c id m size s)
  unfolding add_ref
  add_ref-Sound m size s valid held sound =
      tries-rule (Refers m.digest m.labels size) Leaves
        (put_ref svc h c.prefix m.digest id m.labels size s)
        (put_ref-Sound m.digest m.labels size s valid held sound) (λ e t after. after)
        (λ t after. after)

  -- A PUT that leaves the blob of a digest, or stores one with its content.
  abbrev pub IsGood : Text → Put → State W → Type 0
  IsGood d p s =
      (object (svc.put p s.world).1 (blob_key h c.prefix d)
        ≡ object s.world (blob_key h c.prefix d))
      ⊎ (o : Object) × (object (svc.put p s.world).1 (blob_key h c.prefix d) ≡ some o)
        × IsRight h d (some o)

  -- The bucket stays sound, and after a success it has the bytes, and what else the success tells.
  unfoldable pub IsUploaded : {A : Type 0} → Type 0 → Text → Result A × State W → Type 0
  IsUploaded E d (err e, t) = Sound t
  IsUploaded E d (ok a, t) = Sound t × Held d t × E

  -- what a success tells of a PUT
  abbrev pub Tells : Type 0 → Put → State W → Type 0
  Tells E p s =
      (res : flob.S3.Service.Response)
      → (svc.put p s.world).0.0 ≡ ok res
      → is_success res ≡ true
      → E

  abbrev Answered : Type 0 → Text → Result flob.S3.Service.Response × State W → Type 0
  Answered E d (err e, t) = Sound t
  Answered E d (ok res, t) = Sound t × (is_success res ≡ true → Held d t × E)

  module _ (E : Type 0) (d : Text) (r : Source) (size : ℤ) (hash : Text) (sum : Option (List ℕ))
      (s : State W) where
    abbrev the_put : Put
    the_put = blob_put svc h c id d r size hash sum

    Answered-at :
        (a : Result flob.S3.Service.Response)
        → (svc.put the_put s.world).0.0 ≡ a
        → Sound (moved svc s (svc.put the_put s.world).1)
        → Tells E the_put s
        → Answered E d (a, moved svc s (svc.put the_put s.world).1)
    Answered-at (err e) eq after tells = after
    Answered-at (ok res) eq after tells = (
      after,
      λ yes. (inl (ap is_some (laws.put_stored the_put s.world res eq yes).0), tells res eq yes),
    )

    pub put_blob-IsUploaded :
        h.validate d ≡ none
        → IsGood d the_put s
        → Tells E the_put s
        → Sound s
        → IsUploaded E d (put_blob svc h c id the_put s)
    unfolding put_blob IsUploaded
    put_blob-IsUploaded valid good tells sound =
        asks-rule (Answered E d) (IsUploaded E d) (ask_put svc the_put s)
          (Answered-at _ refl
            (blob-IsSound h names c.prefix d (object s.world) (object (svc.put the_put s.world).1)
              valid (λ k. laws.put_others the_put s.world k) good sound)
            tells)
          (λ e t after. after)
          (λ res t after.
            by_test (IsUploaded E d) (is_success res)
              (λ yes. let (held, told) = after.1 yes in (after.0, held, told)) (λ no. after.0))

  upload_absent-Sound :
      (m : Meta) (b : List ℕ) (s : State W)
      → h.validate m.digest ≡ none
      → from_bytes h (h.algorithm m.digest) b ≡ m.digest
      → Sound s
      → Leaves (upload_absent svc h c id m m.digest b s)
  unfolding IsRight IsUploaded
  upload_absent-Sound m b s valid right sound =
      let p = spooled_put svc h c id m.digest b in
      halts-rule Leaves c.seek_temp (λ e. sound)
        (asks-rule (IsUploaded Unit m.digest) Leaves (put_blob svc h c id p s)
          (put_blob-IsUploaded Unit m.digest _ _ _ _ s valid
            (elim (laws.put_either p s.world) [
              | inl same ↦ inl same
              | inr new ↦ inr (
                stored p,
                new,
                ap (from_bytes h (h.algorithm m.digest)) (take_all (length b) b (omega arith))
                    ∙ right,
              )
            ])
            (λ res answer yes. tt) sound)
          (λ e t after. after)
          (λ etag t (after, held, told). add_ref-Sound m m.size t valid held after))

  -- The blob may be found in the bucket.
  pub found-Held :
      (d : Text) (s t : State W)
      → IsTold svc object laws (blob_key h c.prefix d) s (ok true, t)
      → Held d t
  found-Held d s t (same, there) = inl (ap is_some (same (blob_key h c.prefix d)) ∙ there)

  -- The end of a spooled Add.
  upload_spooled-Sound :
      (m : Meta) (b : List ℕ) (s : State W)
      → h.validate m.digest ≡ none
      → from_bytes h (h.algorithm m.digest) b ≡ m.digest
      → Sound s
      → Leaves (upload_spooled svc h c id m m.digest b s)
  upload_spooled-Sound m b s valid right sound =
      asks-rule (IsTold svc object laws key s) Leaves (exists svc key s)
        (exists-IsTold svc object laws key s) (λ e t same. same-Sound s t same sound) go
    where
      key : Text
      key = blob_key h c.prefix m.digest

      go :
          (found : Bool) (t : State W)
          → IsTold svc object laws key s (ok found, t)
          → Leaves (
              if found
              then add_ref svc h c id m m.size t
              else upload_absent svc h c id m m.digest b t)
      go true t told =
          add_ref-Sound m m.size t valid (found-Held m.digest s t told)
            (same-Sound s t told.0 sound)
      go false t same = upload_absent-Sound m b t valid right (same-Sound s t same sound)

  -- Content that was spooled and has the digest `d`.
  spooled-Sound :
      (m : Meta) (d : Text) (b : List ℕ) (s : State W)
      → ((is_empty m.digest ≡ true) ⊎ (m.digest ≡ d)
          → (h.validate d ≡ none) × (from_bytes h (h.algorithm d) b ≡ d))
      → Sound s
      → Leaves (spooled svc h c id m d b s)
  spooled-Sound m d b s good sound =
      by_test Leaves (is_empty m.digest)
        (λ unnamed.
          asks-rule (IsTold svc object laws (ref_key h c.prefix d id) s) Leaves
            (exists svc (ref_key h c.prefix d id) s)
            (exists-IsTold svc object laws (ref_key h c.prefix d id) s)
            (λ e t same. same-Sound s t same sound) (go (good (inl unnamed))))
        (λ named.
          by_test Leaves (not (text_eq m.digest d)) (λ other. sound)
            (λ found.
              let k : d ≡ m.digest = sym ((text_eq_iff m.digest d).0 (ground (arith, found))) in
              let (valid, right) = good (inr (sym k)) in
              subst (λ x. Leaves (upload_spooled svc h c id m x b s)) (sym k)
                (upload_spooled-Sound m b s (subst (λ x. h.validate x ≡ none) k valid)
                  (subst (λ x. from_bytes h (h.algorithm x) b ≡ x) k right) sound)))
    where
      go :
          (h.validate d ≡ none) × (from_bytes h (h.algorithm d) b ≡ d)
          → (found : Bool) (t : State W)
          → IsTold svc object laws (ref_key h c.prefix d id) s (ok found, t)
          → Leaves (
              if found
              then ((record m { digest = d }, some already_exists), t)
              else upload_spooled svc h c id (record m { digest = d }) d b t)
      go (valid, right) true t told = same-Sound s t told.0 sound
      go (valid, right) false t same =
          upload_spooled-Sound (record m { digest = d }) b t valid right (same-Sound s t same sound)

  pub spool-Sound :
      (m : Meta) (algo : Text) (r : Source) (s : State W)
      → ((is_empty m.digest ≡ true) ⊎ (m.digest ≡ from_bytes h algo r.bytes)
          → (h.validate (from_bytes h algo r.bytes) ≡ none)
            × (from_bytes h (h.algorithm (from_bytes h algo r.bytes)) r.bytes
                ≡ from_bytes h algo r.bytes))
      → Sound s
      → Leaves (spool svc h c id m algo r s)
  unfolding spool
  spool-Sound m algo r s good sound =
      halts-rule Leaves c.create_temp (λ e. sound)
        (halts-rule Leaves r.failure (λ e. sound)
          (halts-rule Leaves c.write_temp (λ e. sound)
            (spooled-Sound (record m { size = pos (length r.bytes) }) (from_bytes h algo r.bytes)
              r.bytes s good sound)))

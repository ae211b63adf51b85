-- ===== src/S3/Adds.antt =====
-- Add of an S3Store in s3.go, as a whole.
use mathlib.Core.Path.{subst}
use flob.Prelude.{
  ℕ, ◌≡◌, refl, sym, ap, Bool, true, false, not, Option, none, some, List, by_test, inl, inr, arith,
  length, ◌&&◌, if◌then◌else◌,
}
use flob.Prelude.Text.{Text, text_eq, text_eq_iff, is_empty}
use flob.Prelude.Int.{pos, ltb_ℤ}
use flob.Errors.{Error, already_exists}
use flob.Hashing.{Hashing, from_bytes, sanitize}
use flob.Namespace.Base64.{AllBytes}
use flob.Meta.{Meta, Source, Added}
use flob.Mem.Staging.{ok}
use flob.S3.Keys.{blob_key, ref_key}
use flob.S3.Named.{DigestLaws, sanitize-valid, sanitize-invalid}
use flob.S3.Service.{Service, ServiceLaws, CheckingLaws, Object}
use flob.S3.Requests.{State, asks, halts, exists}
use flob.S3.Trusting.{SameFlags, Trusts, Trusts-after, exists-SameFlags}
use flob.S3.Told.{asks-rule, halts-rule, IsSame, IsTold, exists-IsTold}
use flob.S3.Probe.{Config, streams}
use flob.S3.Adding.{spool, verify_present, upload, upload_by, add_named, add, sha256}
use flob.S3.Streams.{stream-IsKept, streams-IsKept, Finishes}
use flob.S3.Keeping.{Sound, Held, Leaves, same-Sound, add_ref-Sound, found-Held, spool-Sound}

module _ {W : Type 0} (svc : Service W) (object : W → Text → Option Object)
    (laws : ServiceLaws svc object) (h : Hashing) (checking : CheckingLaws svc object h)
    (names : DigestLaws h) (c : Config) (id : Text) (bytes : AllBytes id) where
  abbrev IsKept : State W → Type 0
  IsKept s = Sound svc object laws h names c id bytes s

  abbrev pub Trusted : State W → Type 0
  Trusted s = Trusts svc object h checking c.direct_add s

  Trusted-after : (s t : State W) → SameFlags s t → Trusted s → Trusted t
  Trusted-after s t same trusts = Trusts-after svc object h checking c.direct_add s t same trusts

  abbrev Ends : Added × State W → Type 0
  Ends a = Leaves svc object laws h names c id bytes a

  -- Of an Add whose digest Sanitize accepts, every end but that of a stream.
  module _ (m : Meta) (r : Source) (valid : h.validate m.digest ≡ none) where
    named_spool-IsKept :
        (s : State W) → IsKept s → Ends (spool svc h c id m (h.algorithm m.digest) r s)
    named_spool-IsKept s sound =
        spool-Sound svc object laws h names c id bytes m (h.algorithm m.digest) r s
          (λ either. elim either [
            | inl empty ↦ absurd (names.nonempty m.digest valid empty)
            | inr same ↦ (
              subst (λ x. h.validate x ≡ none) same valid,
              ap (λ x. from_bytes h (h.algorithm x) r.bytes) (sym same),
            )
          ])
          sound

    upload_by-IsKept :
        h.algorithm m.digest ≡ sha256
        → (a : Bool × State W) → Finishes svc object laws h checking names c id bytes a
        → Ends (upload_by svc h c id m r a)
    upload_by-IsKept algo (true, s) (sound, enforced) =
        stream-IsKept svc object laws h checking names c id bytes m r s valid algo enforced sound
    upload_by-IsKept algo (false, s) sound = named_spool-IsKept s sound

    upload-IsKept : (s : State W) → IsKept s → Trusted s → Ends (upload svc h c id m r s)
    upload-IsKept s sound trusts =
        by_test Ends (text_eq (h.algorithm m.digest) sha256 && ltb_ℤ (pos 0) m.size)
          (λ yes.
            upload_by-IsKept ((text_eq_iff (h.algorithm m.digest) sha256).0 (ground (arith, yes)))
              (streams svc h c s)
              (streams-IsKept svc object laws h checking names c id bytes s sound trusts))
          (λ no. named_spool-IsKept s sound)

    verify_present-IsKept :
        (s : State W)
        → Held svc object laws h names c id bytes m.digest s
        → IsKept s
        → Ends (verify_present svc h c id m r s)
    verify_present-IsKept s held sound =
        halts-rule Ends r.failure (λ e. sound)
          (by_test Ends (not (text_eq (from_bytes h (h.algorithm m.digest) r.bytes) m.digest))
            (λ other. sound)
            (λ same.
              add_ref-Sound svc object laws h names c id bytes m (pos (length r.bytes)) s valid held
                sound))

    abbrev named_ref : Text
    named_ref = ref_key h c.prefix m.digest id

    abbrev named_blob : Text
    named_blob = blob_key h c.prefix m.digest

    IsKept-by : (s t : State W) → IsSame svc object laws s t → IsKept s → IsKept t
    IsKept-by s t same = same-Sound svc object laws h names c id bytes s t same

    present-IsKept :
        (s : State W)
        → IsKept s
        → Trusted s
        → (present : Bool) (t : State W) → IsTold svc object laws named_blob s (ok present, t)
        → SameFlags s t
        → Ends (if present then verify_present svc h c id m r t else upload svc h c id m r t)
    present-IsKept s sound trusts true t told flags =
        verify_present-IsKept t (found-Held svc object laws h names c id bytes m.digest s t told)
          (IsKept-by s t told.0 sound)
    present-IsKept s sound trusts false t same flags =
        upload-IsKept t (IsKept-by s t same sound) (Trusted-after s t flags trusts)

    referenced-IsKept :
        (s : State W)
        → IsKept s
        → Trusted s
        → (found : Bool) (t : State W) → IsTold svc object laws named_ref s (ok found, t)
        → SameFlags s t
        → Ends (
            if found
            then ((m, some already_exists), t)
            else asks
                (exists svc named_blob t)
                (λ e u. ((m, some e), u))
                (λ present u.
                  if present then verify_present svc h c id m r u else upload svc h c id m r u))
    referenced-IsKept s sound trusts true t told flags = IsKept-by s t told.0 sound
    referenced-IsKept s sound trusts false t same flags =
        let after = IsKept-by s t same sound in
        let still = Trusted-after s t flags trusts in
        asks-rule (λ a. IsTold svc object laws named_blob t a × SameFlags t a.1) Ends
          (exists svc named_blob t)
          (exists-IsTold svc object laws named_blob t, exists-SameFlags svc named_blob t)
          (λ e u told. IsKept-by t u told.0 after)
          (λ present u told. present-IsKept t after still present u told.0 told.1)

    add_named-IsKept : (s : State W) → IsKept s → Trusted s → Ends (add_named svc h c id m r s)
    add_named-IsKept s sound trusts =
        asks-rule (λ a. IsTold svc object laws named_ref s a × SameFlags s a.1) Ends
          (exists svc named_ref s)
          (exists-IsTold svc object laws named_ref s, exists-SameFlags svc named_ref s)
          (λ e t told. IsKept-by s t told.0 sound)
          (λ found t told. referenced-IsKept s sound trusts found t told.0 told.1)

  canonical_right :
      (b : List ℕ)
      → (h.validate (from_bytes h h.canonical b) ≡ none)
        × (from_bytes h (h.algorithm (from_bytes h h.canonical b)) b ≡ from_bytes h h.canonical b)
  canonical_right b = (names.computed b, ap (λ a. from_bytes h a b) (names.computed_algorithm b))

  add-IsKept_at :
      (m : Meta) (r : Source) (s : State W) (verdict : Option Error)
      → h.validate m.digest ≡ verdict
      → IsKept s
      → Trusted s
      → Ends (
          halts
            (sanitize h m.digest).0
            (λ e. ((m, some e), s))
            (add_named svc h c id (record m { digest = (sanitize h m.digest).1 }) r s))
  add-IsKept_at m r s (some e) bad sound trusts =
      subst
        (λ a. Ends (
          halts a.0 (λ e. ((m, some e), s)) (add_named svc h c id (record m { digest = a.1 }) r s)))
        (sym (sanitize-invalid h m.digest e bad)) sound
  add-IsKept_at m r s none valid sound trusts =
      subst
        (λ a. Ends (
          halts a.0 (λ e. ((m, some e), s)) (add_named svc h c id (record m { digest = a.1 }) r s)))
        (sym (sanitize-valid h names c.prefix m.digest valid))
        (add_named-IsKept m r valid s sound trusts)

  pub add-Leaves :
      (m : Meta) (r : Source) (s : State W) → IsKept s → Trusted s → Ends (add svc h c id m r s)
  unfolding add
  add-Leaves m r s sound trusts =
      by_test Ends (is_empty m.digest)
        (λ unnamed.
          spool-Sound svc object laws h names c id bytes m h.canonical r s
            (λ either. canonical_right r.bytes) sound)
        (λ named. add-IsKept_at m r s (h.validate m.digest) refl sound trusts)

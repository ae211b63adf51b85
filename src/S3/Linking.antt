-- ===== src/S3/Linking.antt =====
-- Link of an S3Store in s3.go.
use mathlib.Core.Path.{subst}
use flob.Prelude.{
  ◌≡◌, refl, sym, ap, ◌∙◌, true, not, Option, none, some, [], is_some, by_test, Option-cases, ◌==◌,
  arith, inl, inr,
}
use flob.Prelude.Text.{Text}
use flob.Errors.{Error, incompatible_store}
use flob.Hashing.{Hashing}
use flob.Meta.{Meta, Added, no_meta}
use flob.Mem.Staging.{Result, ok, err}
use flob.S3.Keys.{ref_key}
use flob.S3.Named.{DigestLaws, sanitize-valid, sanitize-invalid}
use flob.S3.Markers.{marker}
use flob.S3.Service.{Service, ServiceLaws, Object, Put, Response, is_success, stored}
use flob.S3.Requests.{State, halts, ask_put, moved, head}
use flob.S3.Told.{asks-rule, halts-rule, IsFound, head-IsFound, IsOnlyAt, IsSame}
use flob.S3.Store.{link, link_named, link_put, link_answer, linked_meta}

module _ {W : Type 0} (svc : Service W) (object : W → Text → Option Object)
    (laws : ServiceLaws svc object) (h : Hashing) (names : DigestLaws h) (prefix : Text)
    (id : Text) where
  -- What Link does under the key of its reference: nothing else changes, a reference that is there
  -- stays, and a success found none there, found the source's, and has written the labels and the
  -- size that it reports.
  unfoldable pub IsLinked : Text → Option Text → State W → Added × State W → Type 0
  IsLinked d source s ((m, e), t) =
      IsOnlyAt svc object laws (ref_key h prefix d id) s t
      × ((o : Object)
          → object s.world (ref_key h prefix d id) ≡ some o
          → object t.world (ref_key h prefix d id) ≡ some o)
      × (e ≡ none
          → (from : Text) × (source ≡ some from)
            × (is_some (object s.world (ref_key h prefix d from)) ≡ true)
            × (object s.world (ref_key h prefix d id) ≡ none)
            × (m.digest ≡ d)
            × (object t.world (ref_key h prefix d id)
                ≡ some (record { bytes = []; metadata = marker m.labels m.size })))

  unchanged-IsLinked :
      (d : Text) (source : Option Text) (s t : State W) (m : Meta) (e : Error)
      → IsSame svc object laws s t
      → IsLinked d source s ((m, some e), t)
  unfolding IsLinked
  unchanged-IsLinked d source s t m e same =
      (λ k differ. same k, λ o there. same _ ∙ there, λ fine. absurd (ground (arith, fine)))

  -- What the PUT of Link did.
  abbrev Tried : Put → State W → Result Response × State W → Type 0
  Tried p t (err e, u) =
      IsOnlyAt svc object laws p.key t u
      × ((o : Object) → object t.world p.key ≡ some o → object u.world p.key ≡ some o)
  Tried p t (ok res, u) =
      IsOnlyAt svc object laws p.key t u
      × ((o : Object) → object t.world p.key ≡ some o → object u.world p.key ≡ some o)
      × (is_success res ≡ true
          → (object t.world p.key ≡ none) × (object u.world p.key ≡ some (stored p)))

  Tried-at :
      (p : Put) (t : State W) (r : Result Response)
      → p.only_new ≡ true
      → (svc.put p t.world).0.0 ≡ r
      → Tried p t (r, moved svc t (svc.put p t.world).1)
  Tried-at p t (err e) new eq =
      (λ k. laws.put_others p t.world k, λ o there. laws.put_new p t.world o new there)
  Tried-at p t (ok res) new eq = (
    λ k. laws.put_others p t.world k,
    λ o there. laws.put_new p t.world o new there,
    λ success. (
      laws.put_created p t.world res new eq success,
      (laws.put_stored p t.world res eq success).0,
    ),
  )

  answer-IsLinked :
      (d from : Text) (s t u : State W) (ref res : Response)
      → IsSame svc object laws s t
      → is_some (object s.world (ref_key h prefix d from)) ≡ true
      → Tried (link_put svc h prefix id d ref) t (ok res, u)
      → IsLinked d
          (some from)
          s
          (link_answer svc h prefix id (linked_meta svc h prefix id d ref) res, u)
  unfolding IsLinked
  answer-IsLinked d from s t u ref res same there (only, stays, success) =
      let key = ref_key h prefix d id in
      let others : IsOnlyAt svc object laws key s u = λ k differ. only k differ ∙ same k in
      let kept : (o : Object) → object s.world key ≡ some o → object u.world key ≡ some o =
        λ o old. stays o (same key ∙ old) in
      by_test (λ a. IsLinked d (some from) s (a, u)) (res.status == 412)
        (λ taken. (others, kept, λ fine. absurd (ground (arith, fine))))
        (λ fresh.
          by_test (λ a. IsLinked d (some from) s (a, u)) (not (is_success res))
            (λ failed. (others, kept, λ fine. absurd (ground (arith, fine))))
            (λ fine.
              let (new, now) = success (ground (arith, fine)) in
              (others, kept, λ _. (from, refl, there, sym (same key) ∙ new, refl, now))))

  link_named-IsLinked :
      (d : Text) (source : Option Text) (s : State W)
      → IsLinked d source s (link_named svc h prefix id d source s)
  unfolding IsLinked
  link_named-IsLinked d none s =
      unchanged-IsLinked d none s s no_meta incompatible_store (λ k. refl)
  link_named-IsLinked d (some from) s =
      let key = ref_key h prefix d from in
      asks-rule (IsFound svc object laws key s) (IsLinked d (some from) s) (head svc key s)
        (head-IsFound svc object laws key s)
        (λ e t same. unchanged-IsLinked d (some from) s t no_meta e same)
        (λ ref t (same, o, there, metadata, size).
          let p = link_put svc h prefix id d ref in
          asks-rule (Tried p t) (IsLinked d (some from) s) (ask_put svc p t)
            (Tried-at p t _ refl refl) (λ e u (only, stays). failed e t u ref same only stays)
            (λ res u tried. answer-IsLinked d from s t u ref res same (ap is_some there) tried))
    where
      failed :
          (e : Error) (t u : State W) (ref : Response)
          → IsSame svc object laws s t
          → IsOnlyAt svc object laws (ref_key h prefix d id) t u
          → ((o : Object)
              → object t.world (ref_key h prefix d id) ≡ some o
              → object u.world (ref_key h prefix d id) ≡ some o)
          → IsLinked d (some from) s ((linked_meta svc h prefix id d ref, some e), u)
      failed e t u ref same only stays = (
        λ k differ. only k differ ∙ same k,
        λ o old. stays o (same _ ∙ old),
        λ fine. absurd (ground (arith, fine)),
      )

  -- Link changes nothing but the reference of its own store, and never one that is there, whatever
  -- it answers and whatever the service does. A success found none there, found the reference of the
  -- source, and has written the labels and the size that it returns. The laws of S3 and of the
  -- digests are assumed.
  pub link-IsLinked :
      (ctx_err : Option Error) (raw : Text) (source : Option Text) (s : State W)
      → IsLinked raw source s (link svc h prefix id ctx_err raw source s)
  unfolding link
  link-IsLinked ctx_err raw source s =
      halts-rule (IsLinked raw source s) ctx_err
        (λ e. unchanged-IsLinked raw source s s no_meta e (λ k. refl))
        (elim (Option-cases (h.validate raw)) [
          | inr (e, invalid) ↦
              subst
                (λ v. IsLinked raw source s (
                  halts v.0 (λ e. ((no_meta, some e), s))
                    (link_named svc h prefix id v.1 source s)))
                (sym (sanitize-invalid h raw e invalid))
                (unchanged-IsLinked raw source s s no_meta e (λ k. refl))
          | inl valid ↦
              subst
                (λ v. IsLinked raw source s (
                  halts v.0 (λ e. ((no_meta, some e), s))
                    (link_named svc h prefix id v.1 source s)))
                (sym (sanitize-valid h names prefix raw valid)) (link_named-IsLinked raw source s)
        ])

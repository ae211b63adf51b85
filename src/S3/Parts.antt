-- ===== src/S3/Parts.antt =====
-- copyParts of reclaim.go.
use mathlib.Core.List.{append_assoc}
use flob.Prelude.{
  ℕ, zero, suc, ◌+◌, ◌-◌, ◌/◌, ◌≤◌, ◌<◌, ◌≡◌, ◌≢◌, refl, sym, ap, ◌∙◌, true, Option, none, some,
  List, [], ◌∷◌, ◌++◌, inl, inr, arith, length, length-append, take, drop, take_all, min, ltb, ◌==◌,
  by_test, All, Option-cases,
}
use flob.Prelude.Text.{Text, is_empty}
use flob.Prelude.Int.{ℤ, pos, negsuc, pos_part, ltb_ℤ}
use flob.Errors.{Error, other}
use flob.Meta.{Source}
use flob.Mem.Staging.{Result, ok, err}
use flob.S3.Service.{Service, Response, Object, is_success}
use flob.S3.Requests.{State, moved}
use flob.S3.Told.{asks-rule}
use flob.S3.Probe.{Config}
use flob.S3.Copying.{
  copy_result, aborted, decoded, ask_complete, complete_copy, ask_part, reads, copy_ranges,
  ask_create, copy_parts, copy_object,
}
use flob.S3.Copied.{
  CopyingLaws, joined, put_before, HasCopy, Targets, IsCopied, judged, slice-append,
  copy_whole-IsCopied,
}

-- the parts that are there have the numbers up to a bound
abbrev pub Numbered : ℕ → List (ℕ × Text) → Type 0
Numbered n parts = All (λ p. p.0 ≤ n) parts

Numbered-more :
    (n : ℕ) (etag : Text) (parts : List (ℕ × Text))
    → Numbered n parts
    → Numbered (n + 1) (parts ++ (n + 1, etag) ∷ [])
Numbered-more n etag [] h = (omega arith, tt)
Numbered-more n etag (p ∷ parts) (h, rest) = (omega arith, Numbered-more n etag parts rest)

put_before-eq-some :
    (x y : Option (List ℕ)) {a : List ℕ}
    → put_before x y ≡ some a
    → (u : List ℕ) × (v : List ℕ) × (x ≡ some u) × (y ≡ some v) × (a ≡ u ++ v)
put_before-eq-some none y h = cc
put_before-eq-some (some u) none h = cc
put_before-eq-some (some u) (some v) h = (u, v, refl, refl, cc)

-- A part with a new number comes behind those that were joined.
joined-more :
    (f g : ℕ → Text → Option (List ℕ)) (n : ℕ) (etag : Text) (parts : List (ℕ × Text))
    (a b : List ℕ)
    → ((m : ℕ) (e : Text) → m ≢ n + 1 → g m e ≡ f m e)
    → Numbered n parts
    → joined f parts ≡ some a
    → g (n + 1) etag ≡ some b
    → joined g (parts ++ (n + 1, etag) ∷ []) ≡ some (a ++ b)
joined-more f g n etag [] a b same h start new =
    rw new (ap some (append_nil b ∙ ground (arith, start)))
  where
    append_nil : (xs : List ℕ) → xs ++ [] ≡ xs
    append_nil [] = refl
    append_nil (x ∷ xs) = ap (λ t. x ∷ t) (append_nil xs)
joined-more f g n etag ((m, e) ∷ parts) a b same (h, rest) start new =
    let (u, v, first, others, whole) = put_before-eq-some (f m e) (joined f parts) start in
    ap (λ x. put_before x (joined g (parts ++ (n + 1, etag) ∷ []))) (same m e (omega arith) ∙ first)
    ∙ ap (put_before (some u)) (joined-more f g n etag parts v b same rest others new)
    ∙ ap some (sym (append_assoc u v b) ∙ ap (λ t. t ++ b) (sym whole))

module _ {W : Type 0} (svc : Service W) (object : W → Text → Option Object)
    (laws : CopyingLaws svc object) (c : Config) (dst src : Text) (s : State W) where
  abbrev Ends : Option Error × State W → Type 0
  Ends r = IsCopied svc object laws c dst src s r

  abbrev SameAs : State W → Type 0
  SameAs t = (k : Text) → object t.world k ≡ object s.world k

  Targets-of : (t : State W) → SameAs t → Targets svc object laws c dst src s t
  Targets-of t same = (λ k differ. same k, inl (same dst))

  -- an upload that is given up
  aborted-Ends :
      (upload : Text) (e : Error) (t : State W)
      → Targets svc object laws c dst src s t
      → Ends (aborted svc c dst upload e t)
  aborted-Ends upload e t (only, either) =
      let same : (k : Text) → object (svc.abort_upload dst upload t.world) k ≡ object t.world k =
        λ k. laws.abort_same dst upload t.world k in
      (
        λ k differ. same k ∙ only k differ,
        elim either [
          | inl kept ↦ inl (same dst ∙ kept)
          | inr (o, o', there, copy, bytes) ↦ inr (o, o', there, same dst ∙ copy, bytes)
        ],
      )

  -- what completing an upload does whose parts are the source
  module _ (o : Object) (there : object s.world src ≡ some o) (upload : Text)
      (parts : List (ℕ × Text)) (t : State W) (same : SameAs t)
      (whole : joined (laws.staged t.world upload) parts ≡ some o.bytes) where
    abbrev Completed : Result (Response × Source) × State W → Type 0
    Completed (err e, u) = Targets svc object laws c dst src s u
    Completed (ok (res, body), u) =
        Targets svc object laws c dst src s u
        × (is_success res ≡ true → copy_result body ≡ none → HasCopy svc object laws c dst src s u)

    abbrev after : State W
    after = moved svc t (svc.complete_upload dst upload parts t.world).1

    copied_of :
        (o' : Object)
        → joined (laws.staged t.world upload) parts ≡ some o'.bytes
        → object after.world dst ≡ some o'
        → HasCopy svc object laws c dst src s after
    copied_of o' bytes copy = (o, o', there, copy, ground (arith, bytes, whole))

    Completed-at :
        (r : Result (Response × Source))
        → (svc.complete_upload dst upload parts t.world).0 ≡ r
        → Completed (r, after)
    Completed-at r eq = go r eq
      where
        targets : Targets svc object laws c dst src s after
        targets = (
          λ k differ. laws.complete_others dst upload parts t.world k differ ∙ same k,
          elim (laws.complete_either dst upload parts t.world) [
            | inl kept ↦ inl (kept ∙ same dst)
            | inr (o', bytes, copy) ↦ inr (copied_of o' bytes copy)
          ],
        )

        go :
            (r : Result (Response × Source))
            → (svc.complete_upload dst upload parts t.world).0 ≡ r
            → Completed (r, after)
        go (err e) eq = targets
        go (ok (res, body)) eq = (
          targets,
          λ success fine.
              let (o', bytes, copy) =
                laws.complete_done dst upload parts t.world res body eq success fine in
              copied_of o' bytes copy,
        )

    complete_copy-Ends : Ends (complete_copy svc c dst upload parts t)
    unfolding complete_copy
    complete_copy-Ends =
        asks-rule Completed Ends (ask_complete svc c dst upload parts t) (Completed-at _ refl)
          (λ e u targets. aborted-Ends upload e u targets)
          (λ answer u told.
            by_test Ends (is_success answer.0)
              (λ success. judged svc object laws c dst src s u answer.1 told.0 (told.1 success))
              (λ failed. aborted-Ends upload (other answer.0.status) u told.0))

  reads_rule :
      (P : Option Error × State W → Type 0) (r : Result Text)
      {failed : Error → Option Error × State W} {next : Text → Option Error × State W}
      → ((e : Error) → r ≡ err e → P (failed e))
      → ((text : Text) → r ≡ ok text → P (next text))
      → P (reads svc c r failed next)
  reads_rule P (err e) on_err on_ok = on_err e refl
  reads_rule P (ok text) on_err on_ok = on_ok text refl

  decoded_status :
      (status : ℕ) (r : Result Text) (text : Text)
      → decoded svc c (status, r) ≡ ok text
      → ((status / 100 == 2) ≡ true) × (r ≡ ok text)
  decoded_status status r text h = ground (arith, h)

  -- the loop over a source that is there
  module _ (o : Object) (there : object s.world src ≡ some o) (upload : Text) (size : ℕ)
      (sized : size ≡ length o.bytes) (some_part : 0 < c.copy_part) where
    -- what is staged is the source up to an offset
    abbrev Staged : ℕ → List (ℕ × Text) → State W → Type 0
    Staged offset parts t =
        SameAs t
        × Numbered (length parts) parts
        × (joined (laws.staged t.world upload) parts ≡ some (take offset o.bytes))

    module _ (offset : ℕ) (parts : List (ℕ × Text)) (t : State W) (more : offset < size)
        (before : Staged offset parts t) where
      abbrev number : ℕ
      number = length parts + 1

      abbrev last : ℕ
      last = min (offset + c.copy_part) size - 1

      abbrev after_part : State W
      after_part = moved svc t (svc.copy_part dst upload number src offset last t.world).1

      abbrev Parted : Result (ℕ × Result Text) × State W → Type 0
      Parted (err e, u) = SameAs u
      Parted (ok answer, u) =
          SameAs u
          × ((etag : Text)
              → decoded svc c answer ≡ ok etag
              → Staged (offset + c.copy_part) (parts ++ (number, etag) ∷ []) u)

      same_after : SameAs after_part
      same_after k = laws.part_same dst upload number src offset last t.world k ∙ before.0 k

      Staged-after :
          (status : ℕ) (r : Result Text) (etag : Text)
          → (svc.copy_part dst upload number src offset last t.world).0 ≡ ok (status, r)
          → decoded svc c (status, r) ≡ ok etag
          → Staged (offset + c.copy_part) (parts ++ (number, etag) ∷ []) after_part
      Staged-after status r etag eq fine =
          let (_, numbered, start) = before in
          let (success, text) = decoded_status status r etag fine in
          let (o', there', new) =
            laws.part_staged dst upload number src offset last t.world status etag
              (eq ∙ ap (λ x. ok (status, x)) text) success in
          let bytes : o'.bytes ≡ o.bytes =
            ap (λ (x : Option Object). elim x [ none ↦ [] | some y ↦ y.bytes ])
              (sym there' ∙ before.0 src ∙ there) in
          (
            same_after,
            rw (length-append parts ((number, etag) ∷ []))
                (Numbered-more (length parts) etag parts numbered),
            joined-more (laws.staged t.world upload) (laws.staged after_part.world upload)
                  (length parts) etag parts (take offset o.bytes)
                  (take (last + 1 - offset) (drop offset o.bytes))
                  (λ m e differ.
                    laws.part_others dst upload number src offset last t.world m e differ)
                  numbered start
                  (new ∙ ap (λ b. some (take (last + 1 - offset) (drop offset b))) bytes)
                ∙ ap some (slice-append offset c.copy_part size o.bytes sized more some_part),
          )

      Parted-at :
          (r : Result (ℕ × Result Text))
          → (svc.copy_part dst upload number src offset last t.world).0 ≡ r
          → Parted (r, after_part)
      Parted-at (err e) eq = same_after
      Parted-at (ok (status, r)) eq = (same_after, λ etag fine. Staged-after status r etag eq fine)

    copy_ranges-Ends :
        (rounds offset : ℕ) (parts : List (ℕ × Text)) (t : State W)
        → size ≤ offset + rounds
        → Staged offset parts t
        → Ends (copy_ranges svc c rounds dst upload src size offset parts t)
    unfolding copy_ranges
    copy_ranges-Ends zero offset parts t enough (same, numbered, start) =
        complete_copy-Ends o there upload parts t same
          (start ∙ ap some (take_all offset o.bytes (omega (arith, enough, sized))))
    copy_ranges-Ends (suc rounds) offset parts t enough before =
        by_test Ends (ltb offset size)
          (λ more.
            let lt : offset < size = ground (arith, more) in
            asks-rule (Parted offset parts t lt before) Ends
              (ask_part svc c dst upload (length parts + 1) src offset
                (min (offset + c.copy_part) size - 1) t)
              (Parted-at offset parts t lt before _ refl)
              (λ e u same. aborted-Ends upload e u (Targets-of u same))
              (λ answer u (same, staged).
                reads_rule Ends (decoded svc c answer)
                  (λ e bad. aborted-Ends upload e u (Targets-of u same))
                  (λ etag fine.
                    copy_ranges-Ends rounds (offset + c.copy_part)
                      (parts ++ (length parts + 1, etag) ∷ []) u (omega arith) (staged etag fine))))
          (λ end.
            complete_copy-Ends o there upload parts t before.0
              (before.2 ∙ ap some (take_all offset o.bytes (ground (arith, end, sized)))))

  -- a source that is not there, of a size above nothing
  module _ (gone : object s.world src ≡ none) (upload : Text) (t : State W) (same : SameAs t)
      (last : ℕ) where
    abbrev Missing : Result (ℕ × Result Text) × State W → Type 0
    Missing (err e, u) = SameAs u
    Missing (ok answer, u) = SameAs u × ((etag : Text) → decoded svc c answer ≡ ok etag → ⊥)

    Missing-at :
        (r : Result (ℕ × Result Text))
        → (svc.copy_part dst upload 1 src 0 last t.world).0 ≡ r
        → Missing (r, moved svc t (svc.copy_part dst upload 1 src 0 last t.world).1)
    Missing-at (err e) eq = λ k. laws.part_same dst upload 1 src 0 last t.world k ∙ same k
    Missing-at (ok (status, r)) eq = (
      λ k. laws.part_same dst upload 1 src 0 last t.world k ∙ same k,
      λ etag fine.
          let (success, text) = decoded_status status r etag fine in
          let (o, there, _) =
            laws.part_staged dst upload 1 src 0 last t.world status etag
              (eq ∙ ap (λ x. ok (status, x)) text) success in
          cc (there, same src, gone),
    )

  missing-Ends :
      (upload : Text) (size : ℕ) (t : State W)
      → object s.world src ≡ none
      → 0 < size
      → SameAs t
      → Ends (copy_ranges svc c size dst upload src size 0 [] t)
  unfolding copy_ranges
  missing-Ends upload zero t gone some_size same = absurd (omega arith)
  missing-Ends upload (suc size) t gone some_size same =
      by_test Ends (ltb 0 (suc size))
        (λ more.
          let last = min (0 + c.copy_part) (suc size) - 1 in
          asks-rule (Missing gone upload t same last) Ends
            (ask_part svc c dst upload (length {A = ℕ × Text} [] + 1) src 0 last t)
            (Missing-at gone upload t same last _ refl)
            (λ e u same'. aborted-Ends upload e u (Targets-of u same'))
            (λ answer u (same', none_staged).
              reads_rule Ends (decoded svc c answer)
                (λ e bad. aborted-Ends upload e u (Targets-of u same'))
                (λ etag fine. absurd (none_staged etag fine))))
        (λ end. absurd (ground (arith, end)))

  -- The size that a listing reported is that of the object, if it is there.
  abbrev pub Sized : ℤ → Type 0
  Sized size = (o : Object) → object s.world src ≡ some o → size ≡ pos (length o.bytes)

  ranges-Ends :
      (upload : Text) (size : ℕ) (t : State W)
      → Sized (pos size)
      → 0 < c.copy_part
      → 0 < size
      → SameAs t
      → Ends (copy_ranges svc c size dst upload src size 0 [] t)
  ranges-Ends upload size t sized some_part some_size same =
      elim (Option-cases (object s.world src)) [
        | inl gone ↦ missing-Ends upload size t gone some_size same
        | inr (o, there) ↦
            copy_ranges-Ends o there upload size (ap pos_part (sized o there)) some_part size 0 [] t
              (omega arith) (same, tt, refl)
      ]

  abbrev Created : Result (ℕ × Result Text) × State W → Type 0
  Created (r, t) = SameAs t

  copy_parts-IsCopied :
      (size : ℕ)
      → Sized (pos size)
      → 0 < c.copy_part
      → 0 < size
      → Ends (copy_parts svc c dst src size s)
  unfolding copy_parts
  copy_parts-IsCopied size sized some_part some_size =
      asks-rule Created Ends (ask_create svc c dst s) (λ k. laws.create_same dst s.world k)
        (λ e t same. Targets-of t same)
        (λ answer t same.
          reads_rule Ends (decoded svc c answer) (λ e bad. Targets-of t same)
            (λ upload fine.
              by_test Ends (is_empty upload) (λ empty. Targets-of t same)
                (λ named. ranges-Ends upload size t sized some_part some_size same)))

  sized_case :
      (size : ℤ)
      → Sized size
      → 0 < c.copy_part
      → ltb_ℤ (pos c.copy_limit) size ≡ true
      → Ends (copy_parts svc c dst src (pos_part size) s)
  sized_case (pos n) sized some_part large =
      copy_parts-IsCopied n sized some_part (ground (arith, large))
  sized_case (negsuc n) sized some_part large = absurd (ground (arith, large))

  -- A copy of an object of the size that was reported for it, whether in one request or in parts
  -- that are not empty: no other key changes, and the target stays or has the source's bytes,
  -- whatever is answered; with no error it has them. The laws of S3 on copies are assumed.
  pub copy_object-IsCopied :
      (size : ℤ) → Sized size → 0 < c.copy_part → Ends (copy_object svc c dst src size s)
  unfolding copy_object
  copy_object-IsCopied size sized some_part =
      by_test Ends (ltb_ℤ (pos c.copy_limit) size) (sized_case size sized some_part)
        (λ small. copy_whole-IsCopied svc object laws c dst src s)

-- ===== src/Fill/Release.antt =====
-- Runs of the operations of fill.go on a fill, and Commit of memFill of mem.go.
use flob.Prelude.{
  ℕ, suc, ◌+◌, ◌-◌, ◌≡◌, refl, sym, ◌∙◌, Bool, true, false, not, ◌&&◌, Option, none, some, List, [],
  ◌∷◌, length, length-take, take, arith, ◌==◌, if◌then◌else◌, Bool-cases, inl, inr, is_some,
}
use flob.Prelude.Text.{Text}
use flob.Prelude.Int.{pos}
use flob.Errors.{Error}
use flob.Hashing.{Hashing, HashingLaws, from_bytes}
use flob.Meta.{Meta}
use flob.Mem.State.{Pool, IsValid, view}
use flob.Mem.Views.{stored, same_key, publish-IsPublished}
use flob.Fill.{
  aborted, Fill, Progress, expecting, verified, broken, verify, new_fill, take_in, write, abort,
  end, follow, close, maybe_release, commit, Reader,
}
use flob.Fill.Tracking.{
  IsFilling, IsReleased, new_fill-IsFilling, write-IsFilling, take_in-IsFilling,
}

-- What a writer or a reader does to a fill. `records` is the second half of a Write whose first half
-- has found room for the bytes, and after which other operations came.
pub data Operation : Type 0 where
  writes : List ℕ → Operation
  records : List ℕ → Operation
  aborts : Option Error → Operation
  ends : Operation
  follows : Operation
  closes : Reader → Operation

aborted_over : (s : Progress) (e : Option Error) → aborted s e ≡ expecting → ⊥
aborted_over expecting none x = ground (arith, x)
aborted_over expecting (some e) x = ground (arith, x)
aborted_over verified e x = ground (arith, x)
aborted_over (broken b) e x = ground (arith, x)

aborted_kept : (s : Progress) (e : Option Error) → aborted s e ≡ verified → s ≡ verified
aborted_kept expecting none x = cc x
aborted_kept expecting (some e) x = cc x
aborted_kept verified e x = refl
aborted_kept (broken b) e x = cc x

module _ (h : Hashing) where
  abbrev pub step : Operation → Fill h → Fill h
  step (writes q) f = (write h f f.progress q).1
  step (records q) f = take_in h f (take (f.size - f.written) q)
  step (aborts e) f = abort h e f
  step ends f = end h f
  step follows f = (follow h f).1
  step (closes r) f = (close h r f).1

  abbrev pub run : List Operation → Fill h → Fill h
  run [] f = f
  run (o ∷ os) f = run os (step o f)

  new_fill-IsReleased : (m : Meta) (size : ℕ) → IsReleased h (new_fill h m size)
  unfolding new_fill verify
  new_fill-IsReleased m size = ground arith

  write-IsReleased :
      (f : Fill h) (s : Progress) (q : List ℕ) → IsReleased h f → IsReleased h (write h f s q).1
  unfolding write take_in verify
  write-IsReleased f verified q k = k
  write-IsReleased f (broken e) q k = k
  write-IsReleased f expecting q k = ground (arith, k)

  take_in-IsReleased : (f : Fill h) (q : List ℕ) → IsReleased h f → IsReleased h (take_in h f q)
  unfolding take_in verify
  take_in-IsReleased f q k = ground (arith, k)

  release-IsReleased :
      (f : Fill h)
      → (f.released ≡ true → (f.ended ≡ true) × (f.readers ≡ 0))
      → IsReleased h (maybe_release h f)
  unfolding maybe_release
  release-IsReleased f k = ground (arith, k)

  step-IsReleased : (o : Operation) (f : Fill h) → IsReleased h f → IsReleased h (step o f)
  unfolding abort end follow close
  step-IsReleased (writes q) f k = write-IsReleased f f.progress q k
  step-IsReleased (records q) f k = take_in-IsReleased f (take (f.size - f.written) q) k
  step-IsReleased (aborts e) f k = release-IsReleased _ (λ x. (refl, (k.0 x).1))
  step-IsReleased ends f k = release-IsReleased _ (λ x. (refl, (k.0 x).1))
  step-IsReleased follows f k = ground (arith, k)
  step-IsReleased (closes r) f k = elim (Bool-cases r.is_open) [
    | inr shut ↦ rw shut k
    | inl live ↦ rw live (
        release-IsReleased (record f { readers = f.readers - 1 })
          (λ x. ((k.0 x).0, omega (arith, (k.0 x).1))))
  ]

  IsFilling_flags :
      (f : Fill h) (ended : Bool) (readers : ℕ) (released : Bool)
      → IsFilling h f
      → IsFilling h (record f { ended = ended; readers = readers; released = released })
  IsFilling_flags f ended readers released t = record {
    written = t.written;
    bounded = t.bounded;
    hash = t.hash;
    expects = t.expects;
    verifies = t.verifies;
  }

  release-IsFilling : (f : Fill h) → IsFilling h f → IsFilling h (maybe_release h f)
  unfolding maybe_release
  release-IsFilling f t = elim (Bool-cases (f.ended && f.readers == 0 && not f.released)) [
    | inl now ↦ rw now (IsFilling_flags f f.ended f.readers true t)
    | inr later ↦ rw later t
  ]

  abort-IsFilling : (e : Option Error) (f : Fill h) → IsFilling h f → IsFilling h (abort h e f)
  unfolding abort
  abort-IsFilling e f t =
      release-IsFilling (record f { progress = aborted f.progress e; ended = true })
        (record {
          written = t.written;
          bounded = t.bounded;
          hash = t.hash;
          expects = λ x. absurd (aborted_over f.progress e x);
          verifies = λ x. t.verifies (aborted_kept f.progress e x);
        })

  module _ (laws : HashingLaws h) where
    step-IsFilling : (o : Operation) (f : Fill h) → IsFilling h f → IsFilling h (step o f)
    unfolding end follow close
    step-IsFilling (writes q) f t = write-IsFilling h laws f q t
    step-IsFilling (records q) f t =
        take_in-IsFilling h laws f (take (f.size - f.written) q) t
          (omega (arith, length-take (f.size - f.written) q, t.bounded))
    step-IsFilling (aborts e) f t = abort-IsFilling e f t
    step-IsFilling ends f t = release-IsFilling _ (IsFilling_flags f true f.readers f.released t)
    step-IsFilling follows f t = elim (Bool-cases f.released) [
      | inl gone ↦ rw gone (IsFilling_flags f f.ended f.readers true t)
      | inr here ↦ rw here (IsFilling_flags f f.ended (f.readers + 1) false t)
    ]
    step-IsFilling (closes r) f t = elim (Bool-cases r.is_open) [
      | inr shut ↦ rw shut t
      | inl live ↦
          rw live (release-IsFilling _ (IsFilling_flags f f.ended (f.readers - 1) f.released t))
    ]

    run-both :
        (os : List Operation) (f : Fill h)
        → IsFilling h f
        → IsReleased h f
        → IsFilling h (run os f) × IsReleased h (run os f)
    run-both [] f t k = (t, k)
    run-both (o ∷ os) f t k = run-both os (step o f) (step-IsFilling o f t) (step-IsReleased o f k)

    -- However writes, halves of writes, aborts, ends and readers that come and go interleave on a
    -- new fill, it holds, counts and hashes the same bytes, is verified only with all bytes of its digest, and
    -- is released exactly when it has ended and nobody reads it. The laws of the hash library are
    -- assumed.
    pub run-IsFilling :
        (os : List Operation) (m : Meta) (size : ℕ)
        → IsFilling h (run os (new_fill h m size)) × IsReleased h (run os (new_fill h m size))
    run-IsFilling os m size =
        run-both os (new_fill h m size) (new_fill-IsFilling h laws m size)
          (new_fill-IsReleased m size)

  -- What a Commit that answers no error has published: the bytes of the fill, which are all of its
  -- digest and its size.
  abbrev pub Publishes : ℕ → Text → Fill h → Pool → Pool → Type 0
  Publishes now id f p p' =
      (from_bytes h (h.algorithm f.meta.digest) f.bytes ≡ f.meta.digest)
      × (length f.bytes ≡ f.size)
      × ((id' d' : Text)
          → view p' id' d' ≡ (
              if same_key id f.meta.digest id' d'
              then some (record {
                bytes = stored f.meta.digest f.bytes p;
                labels = f.meta.labels;
                added = now;
              })
              else view p id' d'))

  commit_at :
      (fuel : ℕ) (id : Text) (now : ℕ) (f : Fill h) (s : Progress) (p p' : Pool) (m : Meta)
      (f' : Fill h)
      → IsValid p
      → IsFilling h f
      → f.progress ≡ s
      → commit h (suc fuel) id now f p ≡ some ((m, none), (f', p'))
      → Publishes now id f p p'
  unfolding commit
  commit_at fuel id now f expecting p p' m f' v t e k = absurd (cc (rw (e, commit) at k))
  commit_at fuel id now f (broken x) p p' m f' v t e k = absurd (cc (rw (e, commit) at k))
  commit_at fuel id now f verified p p' m f' v t e k =
      let (full, named) = t.verifies e in
      let m' : Meta = record (f.meta) { size = pos (length f.bytes) } in
      let (q, returned, shows) = publish-IsPublished fuel id m' now f.bytes p v in
      let k' = rw (e, commit, returned) at k in
      elim (Bool-cases (is_some (view p id f.meta.digest))) [
        | inl there ↦ absurd (cc (rw there at k'))
        | inr absent ↦
            let same : q ≡ p' = cc (rw absent at k') in
            (
              named,
              sym t.written ∙ full,
              λ id' d'. rw (← same) (ground (arith, shows id' d', absent)),
            )
      ]

  -- On a valid pool, a Commit of a fill that answers no error has published exactly the bytes of
  -- the fill's digest, as many as its size, in its store; every other store and digest stays as
  -- it was. If the pool had the digest, the bytes shown are those that it had.
  pub commit-Publishes :
      (fuel : ℕ) (id : Text) (now : ℕ) (f : Fill h) (p p' : Pool) (m : Meta) (f' : Fill h)
      → IsValid p
      → IsFilling h f
      → commit h (suc fuel) id now f p ≡ some ((m, none), (f', p'))
      → Publishes now id f p p'
  commit-Publishes fuel id now f p p' m f' v t k =
      commit_at fuel id now f f.progress p p' m f' v t refl k

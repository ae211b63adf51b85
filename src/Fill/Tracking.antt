-- ===== src/Fill/Tracking.antt =====
-- The invariant of the fills of fill.go.
use flob.Prelude.{
  ℕ, ◌+◌, ◌-◌, ◌≤◌, ◌<◌, ◌≡◌, ◌↔◌, refl, sym, ap, ◌∙◌, true, List, ◌++◌, length, length-append,
  length-take, take, arith, ltb, ◌==◌, Bool-cases, inl, inr,
}
use flob.Prelude.Text.{text_eq_iff}
use flob.Hashing.{Hashing, HashingLaws, render, from_bytes}
use flob.Meta.{Meta}
use flob.Fill.{
  Fill, Progress, expecting, verified, broken, verify, new_fill, take_in, write, untouched, grown,
}

module _ (h : Hashing) where
  -- What a fill holds: the bytes it was given, hashed and counted, within its size. It expects more
  -- only below its size, and is verified only with all bytes of its digest.
  pub record IsFilling (f : Fill h) : Type 0 where
    pub written : f.written ≡ length f.bytes
    pub bounded : f.written ≤ f.size
    pub hash : f.hash ≡ h.write (h.start (h.algorithm f.meta.digest)) f.bytes
    pub expects : f.progress ≡ expecting → f.written < f.size
    pub verifies :
        f.progress ≡ verified
        → (f.written ≡ f.size) × (from_bytes h (h.algorithm f.meta.digest) f.bytes ≡ f.meta.digest)

  -- A fill is released exactly when it has ended and has no reader.
  abbrev pub IsReleased : Fill h → Type 0
  IsReleased f = (f.released ≡ true) ↔ ((f.ended ≡ true) × (f.readers ≡ 0))

  pub settled :
      (f : Fill h)
      → f.written ≡ length f.bytes
      → f.written ≡ f.size
      → f.hash ≡ h.write (h.start (h.algorithm f.meta.digest)) f.bytes
      → IsFilling (verify h f)
  unfolding verify from_bytes
  settled f counted full hashed = record {
    written = counted;
    bounded = omega (arith, full);
    hash = hashed;
    expects = λ e. absurd (ground (arith, e));
    verifies = λ e. (
      full,
      rw (← hashed) (
          ground
            (arith, e, text_eq_iff (render h (h.algorithm f.meta.digest) f.hash) f.meta.digest)),
    );
  }

  module _ (laws : HashingLaws h) where
    -- A new fill.
    pub new_fill-IsFilling : (m : Meta) (size : ℕ) → IsFilling (new_fill h m size)
    unfolding new_fill
    new_fill-IsFilling m size = elim (Bool-cases (size == 0)) [
      | inl empty ↦
          rw empty
            (settled (untouched h m size) refl (ground (arith, empty)) (sym (laws.write_empty _)))
      | inr more ↦ rw more (record {
        written = refl;
        bounded = omega arith;
        hash = sym (laws.write_empty _);
        expects = λ e. ground (arith, more);
        verifies = λ e. absurd (cc e);
      })
    ]

    pub take_in-IsFilling :
        (f : Fill h) (q : List ℕ)
        → IsFilling f
        → f.written + length q ≤ f.size
        → IsFilling (take_in h f q)
    unfolding take_in
    take_in-IsFilling f q t fits =
        let counted : f.written + length q ≡ length (f.bytes ++ q) =
          omega (arith, t.written, length-append f.bytes q) in
        let hashed : h.write f.hash q
            ≡ h.write (h.start (h.algorithm f.meta.digest)) (f.bytes ++ q) =
          ap (λ s. h.write s q) t.hash ∙ laws.write_append _ f.bytes q in
        elim (Bool-cases (f.written + length q == f.size)) [
          | inl full ↦ rw full (settled (grown h f q) counted (ground (arith, full)) hashed)
          | inr more ↦ rw more (record {
            written = counted;
            bounded = fits;
            hash = hashed;
            expects = λ e. ground (arith, more, fits);
            verifies = λ e. absurd (ground (arith, more, fits, (t.verifies e).0));
          })
        ]

    write-IsFilling_at :
        (f : Fill h) (q : List ℕ) (s : Progress)
        → IsFilling f
        → f.progress ≡ s
        → IsFilling (write h f s q).1
    unfolding write
    write-IsFilling_at f q verified t e = t
    write-IsFilling_at f q (broken x) t e = t
    write-IsFilling_at f q expecting t e = elim (Bool-cases (ltb (f.size - f.written) (length q))) [
      | inl long ↦
          rw (long, write)
            (take_in-IsFilling f (take (f.size - f.written) q) t
              (omega (arith, length-take (f.size - f.written) q, t.bounded)))
      | inr short ↦ rw (short, write) (take_in-IsFilling f q t (ground (arith, short, t.bounded)))
    ]

    -- A Write, of however many bytes, leaves a fill that holds and hashes what it was given.
    pub write-IsFilling :
        (f : Fill h) (q : List ℕ) → IsFilling f → IsFilling (write h f f.progress q).1
    write-IsFilling f q t = write-IsFilling_at f q f.progress t refl

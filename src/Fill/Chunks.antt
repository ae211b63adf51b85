-- ===== src/Fill/Chunks.antt =====
-- A fill of fill.go that is written in pieces.
use flob.Prelude.{
  ℕ, ◌+◌, ◌-◌, ◌≡◌, refl, ap, ◌∙◌, true, false, List, [], ◌∷◌, ◌++◌, length, length-append, arith,
  ltb, ◌==◌, Bool-cases, inl, inr, ◌⊎◌,
}
use mathlib.Core.List.{append_assoc}
use flob.Prelude.Text.{text_eq, text_eq_iff}
use flob.Hashing.{Hashing, HashingLaws, render, from_bytes}
use flob.Meta.{Meta}
use flob.Fill.{
  Fill, Progress, expecting, verified, broken, verify, new_fill, take_in, write, untouched, grown,
}
use flob.Fill.Tracking.{IsFilling, new_fill-IsFilling, write-IsFilling}

module _ (h : Hashing) where
  -- the fill after one Write for every chunk
  abbrev pub write_chunks : Fill h → List (List ℕ) → Fill h
  write_chunks f [] = f
  write_chunks f (q ∷ qs) = write_chunks (write h f f.progress q).1 qs

  abbrev pub joined : List (List ℕ) → List ℕ
  joined [] = []
  joined (q ∷ qs) = q ++ joined qs

  -- A fill that lacks exactly these bytes of its content.
  pub record Lacks (content rest : List ℕ) (f : Fill h) : Type 0 where
    pub sound : (f.progress ≡ expecting) ⊎ (f.progress ≡ verified)
    pub whole : f.bytes ++ rest ≡ content
    pub fits : length (f.bytes ++ rest) ≡ f.size
    pub matches : from_bytes h (h.algorithm f.meta.digest) (f.bytes ++ rest) ≡ f.meta.digest

  append_nil : (s : List ℕ) → s ++ [] ≡ s
  append_nil [] = refl
  append_nil (c ∷ s) = ap (λ r. c ∷ r) (append_nil s)

  nil_of_length : (s : List ℕ) → length s ≡ 0 → s ≡ []
  nil_of_length [] k = refl
  nil_of_length (c ∷ s) k = absurd (omega (arith, k))

  module _ (laws : HashingLaws h) where
    -- A full fill that lacks nothing is verified.
    verify-verified :
        (f : Fill h) (q : List ℕ)
        → IsFilling h f
        → from_bytes h (h.algorithm f.meta.digest) (f.bytes ++ q) ≡ f.meta.digest
        → (verify h (grown h f q)).progress ≡ verified
    unfolding verify from_bytes
    verify-verified f q t named =
        let hashed : h.write f.hash q
            ≡ h.write (h.start (h.algorithm f.meta.digest)) (f.bytes ++ q) =
          ap (λ s. h.write s q) t.hash ∙ laws.write_append _ f.bytes q in
        let same : text_eq (render h (h.algorithm f.meta.digest) (h.write f.hash q)) f.meta.digest
            ≡ true =
          rw hashed ((text_eq_iff _ f.meta.digest).1 named) in
        ground (arith, same)

    start-verified :
        (m : Meta) (size : ℕ)
        → from_bytes h (h.algorithm m.digest) [] ≡ m.digest
        → (verify h (untouched h m size)).progress ≡ verified
    unfolding verify from_bytes
    start-verified m size named =
        let same : text_eq (render h (h.algorithm m.digest) (h.start (h.algorithm m.digest)))
              m.digest
            ≡ true =
          rw (← laws.write_empty (h.start (h.algorithm m.digest)))
            ((text_eq_iff _ m.digest).1 named) in
        ground (arith, same)

    take_in-Lacks :
        (content : List ℕ) (f : Fill h) (q rest : List ℕ)
        → IsFilling h f
        → f.progress ≡ expecting
        → Lacks content (q ++ rest) f
        → Lacks content rest (take_in h f q)
    unfolding take_in
    take_in-Lacks content f q rest t going due =
        let whole = append_assoc f.bytes q rest in
        elim (Bool-cases (f.written + length q == f.size)) [
          | inr more ↦ rw more (record {
            sound = inl going;
            whole = whole ∙ due.whole;
            fits = ap length whole ∙ due.fits;
            matches = rw whole due.matches;
          })
          | inl full ↦
              let none_left : rest ≡ [] = nil_of_length rest (
                ground (
                  arith,
                  full,
                  due.fits,
                  t.written,
                  length-append f.bytes (q ++ rest),
                  length-append q rest,
                )) in
              let named : from_bytes h (h.algorithm f.meta.digest) (f.bytes ++ q) ≡ f.meta.digest =
                rw (append_nil q) at (rw none_left at due.matches) in
              rw full (record {
                sound = inr (verify-verified f q t named);
                whole = whole ∙ due.whole;
                fits = ap length whole ∙ due.fits;
                matches = rw whole due.matches;
              })
        ]

    write-Lacks_at :
        (content : List ℕ) (f : Fill h) (q rest : List ℕ) (s : Progress)
        → IsFilling h f
        → f.progress ≡ s
        → Lacks content (q ++ rest) f
        → Lacks content rest (write h f s q).1
    unfolding write
    write-Lacks_at content f q rest (broken e) t at_work due = elim due.sound [
      | inl x ↦ absurd (cc (x, at_work))
      | inr x ↦ absurd (cc (x, at_work))
    ]
    write-Lacks_at content f q rest verified t at_work due =
        let empty : q ≡ [] = nil_of_length q (
          ground (
            arith,
            t.verifies at_work,
            due.fits,
            t.written,
            length-append f.bytes (q ++ rest),
            length-append q rest,
          )) in
        rw empty at due
    write-Lacks_at content f q rest expecting t at_work due =
        let short : ltb (f.size - f.written) (length q) ≡ false =
          ground
            (arith, due.fits, t.written, length-append f.bytes (q ++ rest), length-append q rest) in
        rw (short, write) (take_in-Lacks content f q rest t at_work due)

    chunks-Lacks :
        (content : List ℕ) (f : Fill h) (qs : List (List ℕ))
        → IsFilling h f
        → Lacks content (joined qs) f
        → IsFilling h (write_chunks f qs) × Lacks content [] (write_chunks f qs)
    chunks-Lacks content f [] t due = (t, due)
    chunks-Lacks content f (q ∷ qs) t due =
        chunks-Lacks content (write h f f.progress q).1 qs (write-IsFilling h laws f q t)
          (write-Lacks_at content f q (joined qs) f.progress t refl due)

    Lacks-verified :
        (content : List ℕ) (f : Fill h)
        → IsFilling h f
        → Lacks content [] f
        → (f.progress ≡ verified) × (f.bytes ≡ content)
    Lacks-verified content f t due =
        let full : length f.bytes ≡ f.size = rw (append_nil f.bytes) at due.fits in
        elim due.sound [
          | inl going ↦ absurd (omega (arith, t.expects going, t.written, full))
          | inr done ↦ (done, rw (append_nil f.bytes) at due.whole)
        ]

    new_fill-Lacks :
        (m : Meta) (size : ℕ) (content : List ℕ)
        → length content ≡ size
        → from_bytes h (h.algorithm m.digest) content ≡ m.digest
        → Lacks content content (new_fill h m size)
    unfolding new_fill
    new_fill-Lacks m size content counted named = elim (Bool-cases (size == 0)) [
      | inr more ↦
          rw more (record { sound = inl refl; whole = refl; fits = counted; matches = named })
      | inl none' ↦
          let empty = nil_of_length content (ground (arith, none', counted)) in
          rw none' (record {
            sound = inr (start-verified m size (rw empty at named));
            whole = refl;
            fits = counted;
            matches = named;
          })
    ]

    -- A new fill that is given its whole content, cut into writes in any way, is verified and
    -- holds exactly that content, whenever the content has the size and the digest of the fill.
    -- The laws of the hash library are assumed.
    pub new_fill-chunks :
        (m : Meta) (size : ℕ) (qs : List (List ℕ))
        → length (joined qs) ≡ size
        → from_bytes h (h.algorithm m.digest) (joined qs) ≡ m.digest
        → ((write_chunks (new_fill h m size) qs).progress ≡ verified)
          × ((write_chunks (new_fill h m size) qs).bytes ≡ joined qs)
    new_fill-chunks m size qs counted named =
        let (t, due) =
          chunks-Lacks (joined qs) (new_fill h m size) qs (new_fill-IsFilling h laws m size)
            (new_fill-Lacks m size (joined qs) counted named) in
        Lacks-verified (joined qs) _ t due

-- ===== src/Fill/Reading.antt =====
-- What a reader of fill.go is given.
use flob.Prelude.{
  ℕ, zero, suc, ◌+◌, ◌-◌, ◌≤◌, ◌<◌, ◌≡◌, refl, sym, ap, true, not, Option, none, some, List, [],
  length, length-take, length-drop, take, drop, min, arith, ltb, leb, ◌==◌, if◌then◌else◌,
  Bool-cases, by_test, inl, inr, ◌⊎◌,
}
use flob.Errors.{Error, eof}
use flob.Hashing.{Hashing}
use flob.Fill.{
  Fill, Progress, expecting, verified, broken, Reader, Got, waits, gives, await, read, read_some,
  read_at,
}
use flob.Fill.Tracking.{IsFilling}

module _ (h : Hashing) where
  -- What a Read may answer: that it has to wait, at the end of what is written; the next bytes; or
  -- nothing and an error, which on an open reader is that of the fill, the end of a verified fill, or at
  -- the end of what is written that of the context.
  abbrev pub IsNext : Option Error → Fill h → Reader → ℕ → Got × Reader → Type 0
  IsNext ctx f r n (waits, r') = (r' ≡ r) × (length f.bytes ≤ r.off) × (ctx ≡ none)
  IsNext ctx f r n (gives b none, r') =
      (b ≡ take (min n (length f.bytes - r.off)) (drop r.off f.bytes))
      × (r'.off ≡ r.off + length b)
      × (r'.is_open ≡ true)
      × (n ≡ 0 ⊎ 0 < length b)
  IsNext ctx f r n (gives b (some e), r') =
      (b ≡ [])
      × (r' ≡ r)
      × (r.is_open ≡ true
          → (f.progress ≡ broken e)
            ⊎ (f.progress ≡ verified) × (f.size ≤ r.off) × (e ≡ eof)
            ⊎ (ctx ≡ some e) × (length f.bytes ≤ r.off))

  read_at_within :
      (f : Fill h) (m off : ℕ)
      → off < length f.bytes
      → m ≤ length f.bytes - off
      → read_at h f m off ≡ (take m (drop off f.bytes), none)
  unfolding read_at
  read_at_within f m off inside fits =
      ground (arith, length-take m (drop off f.bytes), length-drop off f.bytes)

  read_some-lem :
      (ctx : Option Error) (f : Fill h) (r : Reader) (n : ℕ)
      → f.written ≡ length f.bytes
      → r.is_open ≡ true
      → r.off < f.written
      → 0 < n
      → IsNext ctx f r n (read_some h f r n)
  unfolding read_some
  read_some-lem ctx f r n counted live more some' =
      let m = min n (f.written - r.off) in
      let read =
        read_at_within f m r.off (omega (arith, counted, more)) (omega (arith, counted, more)) in
      let size : length (take m (drop r.off f.bytes)) ≡ m =
        omega (arith, length-take m (drop r.off f.bytes), length-drop r.off f.bytes, counted) in
      elim (Bool-cases (m == m)) [
        | inl same ↦
            rw (read, read_some, size, same)
              (
                ap (λ k. take (min n (k - r.off)) (drop r.off f.bytes)) counted,
                ap (λ k. r.off + k) (sym size),
                live,
                inr (omega (arith, size, more, some')),
              )
        | inr other ↦
            rw (read, read_some, size, other)
              (
                ap (λ k. take (min n (k - r.off)) (drop r.off f.bytes)) counted,
                ap (λ k. r.off + k) (sym size),
                live,
                inr (omega (arith, size, more, some')),
              )
      ]

  take_none : (n : ℕ) (s : List ℕ) → n ≡ 0 → take n s ≡ []
  take_none zero s k = refl
  take_none (suc n) s k = absurd (omega (arith, k))

  -- the two branches that a live fill shares
  await-IsNext :
      (ctx : Option Error) (f : Fill h) (r : Reader) (n : ℕ)
      → length f.bytes ≤ r.off
      → IsNext ctx f r n (await h ctx r)
  unfolding await
  await-IsNext none f r n past = (refl, past, refl)
  await-IsNext (some e) f r n past = (refl, refl, λ live. inr (inr (refl, past)))

  read_live :
      (ctx : Option Error) (f : Fill h) (r : Reader) (n : ℕ)
      → f.written ≡ length f.bytes
      → r.is_open ≡ true
      → IsNext ctx f r n (
          if ltb r.off f.written
          then (if n == 0 then (gives [] none, r) else read_some h f r n)
          else await h ctx r)
  read_live ctx f r n counted live = elim (Bool-cases (ltb r.off f.written)) [
    | inr behind ↦ rw behind (await-IsNext ctx f r n (ground (arith, behind, counted)))
    | inl more ↦ elim (Bool-cases (n == 0)) [
      | inl nothing ↦
          let z : n ≡ 0 = ground (arith, nothing) in
          rw (more, nothing)
            (
              sym (
                  take_none (min n (length f.bytes - r.off)) (drop r.off f.bytes)
                    (omega (arith, z))),
              omega arith,
              live,
              inl z,
            )
      | inr some' ↦
          rw (more, some')
            (read_some-lem ctx f r n counted live (ground (arith, more)) (ground (arith, some')))
    ]
  ]

  shut_by : (r : Reader) → not r.is_open ≡ true → (A : Type 0) → r.is_open ≡ true → A
  shut_by r k A live = absurd (ground (arith, k, live))

  read-IsNext_at :
      (ctx : Option Error) (f : Fill h) (s : Progress) (r : Reader) (n : ℕ)
      → f.written ≡ length f.bytes
      → f.progress ≡ s
      → IsNext ctx f r n (read h ctx f s r n)
  unfolding read
  read-IsNext_at ctx f (broken e) r n counted at_work =
      by_test (IsNext ctx f r n) (not r.is_open) (λ k. (refl, refl, shut_by r k _))
        (λ k. (refl, refl, λ live. inl at_work))
  read-IsNext_at ctx f expecting r n counted at_work =
      by_test (IsNext ctx f r n) (not r.is_open) (λ k. (refl, refl, shut_by r k _))
        (λ k. read_live ctx f r n counted (ground (arith, k)))
  read-IsNext_at ctx f verified r n counted at_work =
      by_test (IsNext ctx f r n) (not r.is_open) (λ k. (refl, refl, shut_by r k _))
        (λ k.
          by_test (IsNext ctx f r n) (leb f.size r.off)
            (λ l. (refl, refl, λ live. inr (inl (at_work, ground (arith, l), refl))))
            (λ l. read_live ctx f r n counted (ground (arith, k))))

  -- Of a fill that counts its bytes, whatever state it is in and whatever the context answers: a Read
  -- waits only at the end of what is written and while the context is live, gives without an error
  -- exactly the next bytes, at least one unless none were asked for, and moves on by as many. With an
  -- error it gives nothing and stays; on an open reader the error is the fill's own, io.EOF at the
  -- end of a verified fill, or the context's where there is nothing to give.
  pub read-IsNext :
      (ctx : Option Error) (f : Fill h) (r : Reader) (n : ℕ)
      → IsFilling h f
      → IsNext ctx f r n (read h ctx f f.progress r n)
  read-IsNext ctx f r n t = read-IsNext_at ctx f f.progress r n t.written refl

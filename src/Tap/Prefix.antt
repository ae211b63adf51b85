-- ===== src/Tap/Prefix.antt =====
-- What the tap of cache.go has sent to the cache, against the content of the origin.
use flob.Prelude.{
  by_test, ℕ, zero, suc, ◌+◌, ◌-◌, ◌≤◌, ◌<◌, ◌≡◌, refl, sym, ap, ◌∙◌, true, not, ◌&&◌, Option, none,
  some, List, [], ◌∷◌, ◌++◌, length, take, drop, leb, ltb, ◌==◌, arith, if◌then◌else◌, is_some,
  Bool-cases, Option-cases, inl, inr,
}
use flob.Errors.{Error, unexpected_eof}
use flob.Tap.{Tap, stop, Written, forward, tap_read, failed_by, ended_by}

-- The cache was sent the first `forwarded` bytes of the content, and is told that it has every byte
-- only when that is the size.
pub record IsPrefix (content : List ℕ) (t : Tap) : Type 0 where
  pub sent : t.sent ≡ take t.forwarded content
  pub whole : t.verdict ≡ some none → t.forwarded ≡ t.size

take_nil : (n : ℕ) → take {A = ℕ} n [] ≡ []
take_nil zero = refl
take_nil (suc n) = refl

drop_nil : (n : ℕ) → drop {A = ℕ} n [] ≡ []
drop_nil zero = refl
drop_nil (suc n) = refl

take-add : (m n : ℕ) (s : List ℕ) → take (m + n) s ≡ take m s ++ take n (drop m s)
take-add zero n s = let z : 0 + n ≡ n = omega arith in rw z refl
take-add (suc m) n [] = take_nil (suc m + n) ∙ sym (take_nil n)
take-add (suc m) n (c ∷ s) =
    let z : suc m + n ≡ suc (m + n) = omega arith in rw z (ap (λ r. c ∷ r) (take-add m n s))

take-take : (k n : ℕ) (s : List ℕ) → k ≤ n → take k (take n s) ≡ take k s
take-take zero n s fits = refl
take-take (suc k) zero s fits = absurd (omega (arith, fits))
take-take (suc k) (suc n) [] fits = refl
take-take (suc k) (suc n) (c ∷ s) fits = ap (λ r. c ∷ r) (take-take k n s (omega (arith, fits)))

-- a part of a part
take-drop_part :
    (k m n : ℕ) (s : List ℕ) → k + m ≤ n → take k (drop m (take n s)) ≡ take k (drop m s)
take-drop_part k zero n s fits = take-take k n s (omega (arith, fits))
take-drop_part k (suc m) zero s fits = absurd (omega (arith, fits))
take-drop_part k (suc m) (suc n) [] fits = refl
take-drop_part k (suc m) (suc n) (c ∷ s) fits = take-drop_part k m n s (omega (arith, fits))

drop-drop : (m n : ℕ) (s : List ℕ) → drop m (drop n s) ≡ drop (n + m) s
drop-drop m zero s = let z : 0 + m ≡ m = omega arith in rw z refl
drop-drop m (suc n) [] = drop_nil m ∙ sym (drop_nil (suc n + m))
drop-drop m (suc n) (c ∷ s) =
    let z : suc n + m ≡ suc (n + m) = omega arith in rw z (drop-drop m n s)

-- A Read gives the bytes of the content at the tap's position, and the pipe takes no more than it is
-- given, which is what lies beyond the bytes that were forwarded.
abbrev pub Honest : List ℕ → List ℕ → Written → Tap → Type 0
Honest content b w t =
    (b ≡ take (length b) (drop t.offset content)) × (w.count ≤ length b - (t.forwarded - t.offset))

stop-IsPrefix :
    (content : List ℕ) (e : Error) (t : Tap)
    → IsPrefix content t
    → IsPrefix content (stop (some e) t)
unfolding stop
stop-IsPrefix content e t k = elim (Option-cases t.verdict) [
  | inr (v, ended) ↦ rw ended (record { sent = k.sent; whole = λ x. k.whole (ended ∙ x) })
  | inl going ↦ rw going (record { sent = k.sent; whole = λ x. absurd (ground (arith, x)) })
]

finish-IsPrefix :
    (content : List ℕ) (t : Tap)
    → t.sent ≡ take t.forwarded content
    → t.verdict ≡ none
    → IsPrefix content (if t.forwarded == t.size then stop none t else t)
unfolding stop
finish-IsPrefix content t same going = elim (Bool-cases (t.forwarded == t.size)) [
  | inl full ↦ rw (full, going) (record { sent = same; whole = λ x. ground (arith, full) })
  | inr more ↦ rw more (record { sent = same; whole = λ x. absurd (cc (x, going)) })
]

-- the bytes that a forward adds
forward-sent :
    (content b : List ℕ) (w : Written) (t : Tap)
    → IsPrefix content t
    → t.offset ≤ t.forwarded
    → t.forwarded < t.offset + length b
    → Honest content b w t
    → t.sent ++ take w.count (drop (t.forwarded - t.offset) b)
      ≡ take (t.forwarded + w.count) content
forward-sent content b w t k behind more (given, fits) =
    let skip = t.forwarded - t.offset in
    let there : t.offset + skip ≡ t.forwarded = omega (arith, behind) in
    let part : take w.count (drop skip b) ≡ take w.count (drop t.forwarded content) =
      ap (λ x. take w.count (drop skip x)) given
      ∙ take-drop_part w.count skip (length b) (drop t.offset content)
          (omega (arith, behind, more, fits))
      ∙ ap (take w.count) (drop-drop skip t.offset content)
      ∙ ap (λ x. take w.count (drop x content)) there in
    rw (k.sent, part) (sym (take-add t.forwarded w.count content))

moved-IsPrefix :
    (content : List ℕ) (offset : ℕ) (t : Tap)
    → IsPrefix content t
    → IsPrefix content (record t { offset = offset })
moved-IsPrefix content offset t k = record { sent = k.sent; whole = k.whole }

forward-IsPrefix :
    (content b : List ℕ) (offset : ℕ) (w : Written) (t : Tap)
    → IsPrefix content t
    → t.verdict ≡ none
    → t.offset ≤ t.forwarded
    → t.forwarded < t.offset + length b
    → Honest content b w t
    → IsPrefix content (forward t.offset b w (record t { offset = offset }))
unfolding forward
forward-IsPrefix content b offset w t k going behind more honest =
    let t' : Tap = record t {
      offset = offset;
      forwarded = t.forwarded + w.count;
      sent = t.sent ++ take w.count (drop (t.forwarded - t.offset) b);
    } in
    let same = forward-sent content b w t k behind more honest in
    elim (Option-cases w.failure) [
      | inr (e, failed) ↦
          rw failed (
            stop-IsPrefix content e t'
              (record { sent = same; whole = λ x. absurd (cc (x, going)) }))
      | inl fine ↦ rw fine (finish-IsPrefix content t' same going)
    ]

stop_failed-IsPrefix :
    (content : List ℕ) (e : Option Error) (t : Tap)
    → failed_by e ≡ true
    → IsPrefix content t
    → IsPrefix content (stop e t)
stop_failed-IsPrefix content none t bad k = absurd (ground (arith, bad))
stop_failed-IsPrefix content (some e) t bad k = stop-IsPrefix content e t k

-- A Read through the tap that gives the bytes of the content at the tap's position, with a pipe
-- that takes no more than it is given, keeps this: the cache has been sent the first bytes of the
-- content, as many as the tap has counted, and is told that it has all only when their number is
-- the size.
pub tap_read-IsPrefix :
    (content b : List ℕ) (e : Option Error) (w : Written) (t : Tap)
    → IsPrefix content t
    → Honest content b w t
    → IsPrefix content (tap_read b e w t)
unfolding tap_read
tap_read-IsPrefix content b e w t k honest =
    let P = IsPrefix content in
    let moved = moved-IsPrefix content (t.offset + length b) t k in
    let stopped =
      stop-IsPrefix content unexpected_eof (record t { offset = t.offset + length b }) moved in
    by_test P (is_some t.verdict) (λ x. moved)
      (λ going.
        by_test P (failed_by e) (λ x. stop_failed-IsPrefix content e _ x moved)
          (λ x.
            by_test P (not (length b == 0) && ltb t.size (t.offset + length b)) (λ y. stopped)
              (λ y.
                by_test P
                  (ended_by e && leb t.offset t.forwarded && ltb (t.offset + length b) t.size)
                  (λ z. stopped)
                  (λ z.
                    by_test P (not (length b == 0) && ltb t.forwarded t.offset) (λ gap. stopped)
                      (λ near.
                        by_test P (not (length b == 0) && ltb t.forwarded (t.offset + length b))
                          (λ more.
                            forward-IsPrefix content b (t.offset + length b) w t k
                              (ground (arith, going)) (ground (arith, near, more))
                              (ground (arith, more)) honest)
                          (λ none'.
                            finish-IsPrefix content (record t { offset = t.offset + length b })
                              k.sent (ground (arith, going))))))))

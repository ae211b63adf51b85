-- ===== src/Http/Seeking.antt =====
-- Seek of httpRangeReader in http.go.
use flob.Prelude.{ℕ, ◌≤◌, ◌≡◌, refl, false, ◌||◌, Option, none, some, List, arith, ◌==◌, by_test}
use flob.Prelude.Int.{ℤ, pos, negsuc, pos_part, ltb_ℤ, ◌+ℤ◌}
use flob.Prelude.Decimal.{max_int64}
use flob.Errors.{Error}
use flob.Mem.Staging.{Result, ok, err}
use flob.Http.Ranges.{RangeReader}
use flob.Http.Ranging.{Whence, base_of, seek_from, seek_to, seek, state_error}
use flob.Http.Pieces.{IsReading}

-- What a Seek leaves: after an error the reader as it was; otherwise a reader at the offset that is
-- answered, which is the one asked for and fits 64 bits.
abbrev pub IsSought : List ℕ → ℤ → Whence → RangeReader → Result ℕ × RangeReader → Type 0
IsSought blob offset whence r (err e, r') = r' ≡ r
IsSought blob offset whence r (ok n, r') =
    (n ≤ max_int64)
    × (r'.offset ≡ n)
    × IsReading blob r'
    × ((base : ℕ) × (base_of r whence ≡ some base) × (offset +ℤ pos base ≡ pos n))

in_range :
    (z : ℤ)
    → (ltb_ℤ z (pos 0) || ltb_ℤ (pos max_int64) z) ≡ false
    → (z ≡ pos (pos_part z)) × (pos_part z ≤ max_int64)
in_range (pos n) fits = (refl, ground (arith, fits))
in_range (negsuc n) fits = absurd (ground (arith, fits))

seek_to-IsReading :
    (blob : List ℕ) (r : RangeReader) (n : ℕ)
    → IsReading blob r
    → (seek_to r n).offset ≡ n × IsReading blob (seek_to r n)
seek_to-IsReading blob r n reading =
    by_test (λ (t : RangeReader). (t.offset ≡ n) × IsReading blob t) (n == r.offset)
      (λ same. (ground (arith, same), reading)) (λ differ. (refl, (reading.0, (λ k. cc k), tt)))

-- For a reader of a blob and whatever context: a Seek that fails leaves the reader as it was, and one
-- that answers an offset has moved to it; the offset is the one asked for, counted from the start, the
-- place or the end, is not negative, fits 64 bits, and the reader still reads the blob.
pub seek-IsSought :
    (blob : List ℕ) (ctx : Option Error) (offset : ℤ) (whence : Whence) (r : RangeReader)
    → IsReading blob r
    → IsSought blob offset whence r (seek ctx offset whence r)
unfolding seek
seek-IsSought blob ctx offset whence r reading = by_state (state_error r ctx)
  where
    from_base :
        (o : Option ℕ) → base_of r whence ≡ o → IsSought blob offset whence r (seek_from offset r o)
    from_base none eq = refl
    from_base (some base) eq =
        by_test (IsSought blob offset whence r)
          (ltb_ℤ (offset +ℤ pos base) (pos 0) || ltb_ℤ (pos max_int64) (offset +ℤ pos base))
          (λ outside. refl)
          (λ fits.
            let (is, bound) = in_range (offset +ℤ pos base) fits in
            let (moved, right) = seek_to-IsReading blob r (pos_part (offset +ℤ pos base)) reading in
            (bound, moved, right, (base, eq, is)))

    by_state :
        (o : Option Error)
        → IsSought blob offset whence r
            (elim o [ some e ↦ (err e, r) | none ↦ seek_from offset r (base_of r whence) ])
    by_state (some e) = refl
    by_state none = from_base (base_of r whence) refl

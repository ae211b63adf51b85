-- ===== src/Examples/Taps.antt =====
-- A tap on three bytes, of which two were sent, whose reader reads again from the second.
use flob.Prelude.{refl, none, [], ◌∷◌, arith}
use flob.Tap.{Tap, tap_read}
use flob.Tap.Prefix.{IsPrefix, tap_read-IsPrefix}

abbrev tap : Tap
tap = record { offset = 1; forwarded = 2; size = 3; sent = 5 ∷ 6 ∷ []; verdict = none }

tap-IsPrefix : IsPrefix (5 ∷ 6 ∷ 7 ∷ []) tap
tap-IsPrefix = record { sent = refl; whole = λ x. absurd (ground (arith, x)) }

tap_read-IsPrefix_example :
    IsPrefix
      (5 ∷ 6 ∷ 7 ∷ [])
      (tap_read (6 ∷ 7 ∷ []) none (record { count = 1; failure = none }) tap)
tap_read-IsPrefix_example =
    tap_read-IsPrefix (5 ∷ 6 ∷ 7 ∷ []) (6 ∷ 7 ∷ []) none (record { count = 1; failure = none }) tap
      tap-IsPrefix (refl, omega arith)

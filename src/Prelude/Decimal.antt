-- ===== src/Prelude/Decimal.antt =====
-- strconv.FormatInt and strconv.ParseInt in base 10, on 64 bits.
use Prim.Native.Nat.{ℕ, zero, suc, ◌+◌, ◌-◌, ◌*◌, ◌/◌, ◌%◌, ◌<◌, ◌≤◌}
use mathlib.Core.Path.{◌≡◌, ap, ◌∙◌}
use mathlib.Core.Bool.{Bool, true, false, ◌&&◌}
use mathlib.Core.Option.{Option, none, some}
use mathlib.Core.List.{[], ◌∷◌}
use native.Mathlib.Omega.{arith}
use flob.Prelude.Tests.{ltb, leb, ◌==◌, if◌then◌else◌, by_test}
use flob.Prelude.Text.{Text}
use flob.Prelude.Int.{ℤ, pos, negsuc}

-- the digits of a number in front of a text
unfoldable pub digits : ℕ → ℕ → Text → Text
digits zero n s = s
digits (suc fuel) n s =
    let rest = digits fuel (n / 10) ((n % 10 + b'0') ∷ s) in
    if ltb n 10 then (n + b'0') ∷ s else rest

unfoldable pub format_int : ℤ → Text
unfolding digits
format_int (pos n) = digits (suc n) n []
format_int (negsuc n) = b'-' ∷ digits (suc (suc n)) (suc n) []

-- the number that a text of digits continues
unfoldable pub read_digits : ℕ → Text → Option ℕ
read_digits a [] = some a
read_digits a (c ∷ s) =
    let rest = read_digits (a * 10 + (c - b'0')) s in
    if leb b'0' c && leb c b'9' then rest else none

-- one digit at least
unfoldable pub read_number : Text → Option ℕ
unfolding read_digits
read_number [] = none
read_number (c ∷ s) = read_digits 0 (c ∷ s)

abbrev pub max_int64 : ℕ
max_int64 = 9223372036854775807

-- The value that strconv.ParseInt returns and whether it returns no error: 0 for what is no number,
-- and the nearest bound for what does not fit.
abbrev clamp : Option ℕ → ℤ × Bool
clamp none = (pos 0, false)
clamp (some n) = if leb n max_int64 then (pos n, true) else (pos max_int64, false)

abbrev clamp_negative : Option ℕ → ℤ × Bool
clamp_negative none = (pos 0, false)
clamp_negative (some zero) = (pos 0, true)
clamp_negative (some (suc n)) =
    if leb n max_int64 then (negsuc n, true) else (negsuc max_int64, false)

unfoldable pub parse_int : Text → ℤ × Bool
unfolding read_number
parse_int [] = (pos 0, false)
parse_int (c ∷ s) =
    if c == b'-'
    then clamp_negative (read_number s)
    else if c == b'+'
    then clamp (read_number s)
    else clamp (read_number (c ∷ s))

read_digit :
    (a k : ℕ) (s : Text) → k < 10 → read_digits a ((k + b'0') ∷ s) ≡ read_digits (a * 10 + k) s
unfolding read_digits
read_digit a k s h =
    by_test (λ r. r ≡ read_digits (a * 10 + k) s) (leb b'0' (k + b'0') && leb (k + b'0') b'9')
      (λ t. ap (λ m. read_digits (a * 10 + m) s) (omega arith)) (λ t. absurd (ground (arith, t, h)))

read_digits-digits :
    (fuel n : ℕ) (s : Text) → n < fuel → read_digits 0 (digits fuel n s) ≡ read_digits n s
unfolding digits
read_digits-digits zero n s h = absurd (omega (arith, h))
read_digits-digits (suc fuel) n s h =
    by_test (λ t. read_digits 0 t ≡ read_digits n s) (ltb n 10)
      (λ small. read_digit 0 n s (ground (arith, small)) ∙ ap (λ m. read_digits m s) (omega arith))
      (λ large.
        let big : 10 ≤ n = ground (arith, large) in
        read_digits-digits fuel (n / 10) ((n % 10 + b'0') ∷ s) (omega (arith, big, h))
        ∙ read_digit (n / 10) (n % 10) s (omega arith)
        ∙ ap (λ m. read_digits m s) (omega arith))

-- The text of a number starts with a digit.
abbrev IsNumber : Text → Type 0
IsNumber [] = ⊥
IsNumber (c ∷ s) = (b'0' ≤ c) × (c ≤ b'9')

digits-IsNumber : (fuel n : ℕ) (s : Text) → n < fuel → IsNumber (digits fuel n s)
unfolding digits
digits-IsNumber zero n s h = absurd (omega (arith, h))
digits-IsNumber (suc fuel) n s h =
    by_test IsNumber (ltb n 10) (λ small. (omega arith, ground (arith, small)))
      (λ large.
        let big : 10 ≤ n = ground (arith, large) in
        digits-IsNumber fuel (n / 10) ((n % 10 + b'0') ∷ s) (omega (arith, big, h)))

read_number-lem :
    (s : Text) (n : ℕ) → IsNumber s → read_digits 0 s ≡ some n → read_number s ≡ some n
unfolding read_number
read_number-lem [] n number h = elim number [ ]
read_number-lem (c ∷ s) n d h = h

read_number-digits : (fuel n : ℕ) → n < fuel → read_number (digits fuel n []) ≡ some n
unfolding read_digits
read_number-digits fuel n h =
    read_number-lem (digits fuel n []) n (digits-IsNumber fuel n [] h)
      (read_digits-digits fuel n [] h)

parse_int-number : (s : Text) → IsNumber s → parse_int s ≡ clamp (read_number s)
unfolding parse_int
parse_int-number [] number = elim number [ ]
parse_int-number (c ∷ s) (low, high) = ground (arith, low, high)

-- A 64-bit number is read back from its text, without an error.
pub parse_int-format_int : (n : ℕ) → n ≤ max_int64 → parse_int (format_int (pos n)) ≡ (pos n, true)
unfolding format_int
parse_int-format_int n h =
    parse_int-number (digits (suc n) n []) (digits-IsNumber (suc n) n [] (omega arith))
    ∙ ap clamp (read_number-digits (suc n) n (omega arith))
    ∙ ground (arith, h)

-- ===== src/Namespace/Base64.antt =====
-- base64.RawURLEncoding of the standard library, which the namespaces use: no padding, `Strict`.
use flob.Prelude.{
  ℕ, ◌+◌, ◌-◌, ◌*◌, ◌/◌, ◌%◌, ◌<◌, ◌≡◌, refl, Option, none, some, List, [], ◌∷◌, arith, ltb, leb,
  ◌==◌, ◌||◌, ◌&&◌, false, if◌then◌else◌,
}
use flob.Prelude.Text.{Text}

unfoldable pub letter : ℕ → ℕ
letter n =
    if ltb n 26
    then b'A' + n
    else if ltb n 52
    then b'a' + (n - 26)
    else if ltb n 62
    then b'0' + (n - 52)
    else if n == 62
    then b'-'
    else b'_'

unfoldable pub value : ℕ → Option ℕ
value c =
    if leb b'A' c && leb c b'Z'
    then some (c - b'A')
    else if leb b'a' c && leb c b'z'
    then some (c - b'a' + 26)
    else if leb b'0' c && leb c b'9'
    then some (c - b'0' + 52)
    else if c == b'-'
    then some 62
    else if c == b'_'
    then some 63
    else none

unfoldable pub encode : List ℕ → Text
encode [] = []
encode (a ∷ []) = letter (a / 4) ∷ letter (a % 4 * 16) ∷ []
encode (a ∷ b ∷ []) = letter (a / 4) ∷ letter (a % 4 * 16 + b / 16) ∷ letter (b % 16 * 4) ∷ []
encode (a ∷ b ∷ c ∷ rest) =
    letter (a / 4)
    ∷ letter (a % 4 * 16 + b / 16)
    ∷ letter (b % 16 * 4 + c / 64)
    ∷ letter (c % 64)
    ∷ encode rest

-- the decoder skips line ends
unfoldable pub skip_newlines : Text → Text
skip_newlines [] = []
skip_newlines (c ∷ s) = if c == 10 || c == 13 then skip_newlines s else c ∷ skip_newlines s

infixl 5 ◌>>=◌
abbrev pub ◌>>=◌ {ℓ κ} : {A : Type ℓ} {B : Type κ} → Option A → (A → Option B) → Option B
none >>= k = none
some a >>= k = k a

-- `Strict` refuses trailing bits that are not zero.
unfoldable pub quanta : Text → Option (List ℕ)
quanta [] = some []
quanta (p ∷ []) = none
quanta (p ∷ q ∷ []) = do
  x ← value p
  y ← value q
  if y % 16 == 0 then some ((x * 4 + y / 16) ∷ []) else none
quanta (p ∷ q ∷ r ∷ []) = do
  x ← value p
  y ← value q
  z ← value r
  if z % 4 == 0 then some ((x * 4 + y / 16) ∷ (y % 16 * 16 + z / 4) ∷ []) else none
quanta (p ∷ q ∷ r ∷ s ∷ rest) = do
  x ← value p
  y ← value q
  z ← value r
  w ← value s
  more ← quanta rest
  some ((x * 4 + y / 16) ∷ (y % 16 * 16 + z / 4) ∷ (z % 4 * 64 + w) ∷ more)

unfoldable pub decode : Text → Option (List ℕ)
unfolding skip_newlines
decode s = quanta (skip_newlines s)

abbrev pub AllBytes : List ℕ → Type 0
AllBytes [] = Unit
AllBytes (b ∷ bs) = (b < 256) × AllBytes bs

value-letter : (n : ℕ) → n < 64 → value (letter n) ≡ some n
unfolding value letter
value-letter n h = ground arith

letter-ne-newline : (n : ℕ) → n < 64 → ((letter n == 10) || (letter n == 13)) ≡ false
unfolding letter
letter-ne-newline n h = ground arith

abbrev HasNoNewline : Text → Type 0
HasNoNewline [] = Unit
HasNoNewline (c ∷ s) = ((c == 10 || c == 13) ≡ false) × HasNoNewline s

skip_newlines_of_HasNoNewline : (s : Text) → HasNoNewline s → skip_newlines s ≡ s
unfolding skip_newlines
skip_newlines_of_HasNoNewline [] h = refl
skip_newlines_of_HasNoNewline (c ∷ s) (hc, h) = ground (arith, skip_newlines_of_HasNoNewline s h)

encode-HasNoNewline : (bs : List ℕ) → AllBytes bs → HasNoNewline (encode bs)
unfolding encode
encode-HasNoNewline [] h = tt
encode-HasNoNewline (a ∷ []) (ha, _) =
    (letter-ne-newline _ (omega arith), (letter-ne-newline _ (omega arith), tt))
encode-HasNoNewline (a ∷ b ∷ []) (ha, (hb, _)) = (
  letter-ne-newline _ (omega arith),
  (letter-ne-newline _ (omega arith), (letter-ne-newline _ (omega arith), tt)),
)
encode-HasNoNewline (a ∷ b ∷ c ∷ rest) (ha, (hb, (hc, h))) = (
  letter-ne-newline _ (omega arith),
  (
    letter-ne-newline _ (omega arith),
    (
      letter-ne-newline _ (omega arith),
      (letter-ne-newline _ (omega arith), encode-HasNoNewline rest h),
    ),
  ),
)

quanta-encode : (bs : List ℕ) → AllBytes bs → quanta (encode bs) ≡ some bs
unfolding quanta encode
quanta-encode [] h = refl
quanta-encode (a ∷ []) (ha, _) = ground (arith, value-letter (a / 4), value-letter (a % 4 * 16))
quanta-encode (a ∷ b ∷ []) (ha, (hb, _)) =
    ground
      (arith, value-letter (a / 4), value-letter (a % 4 * 16 + b / 16), value-letter (b % 16 * 4))
quanta-encode (a ∷ b ∷ c ∷ rest) (ha, (hb, (hc, h))) = ground (
  arith,
  value-letter (a / 4),
  value-letter (a % 4 * 16 + b / 16),
  value-letter (b % 16 * 4 + c / 64),
  value-letter (c % 64),
  quanta-encode rest h,
)

-- Decoding gives back every byte string that was encoded.
pub decode-encode : (bs : List ℕ) → AllBytes bs → decode (encode bs) ≡ some bs
unfolding decode
decode-encode bs h =
    rw (skip_newlines_of_HasNoNewline (encode bs) (encode-HasNoNewline bs h)) (quanta-encode bs h)

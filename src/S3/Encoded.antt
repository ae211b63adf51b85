-- ===== src/S3/Encoded.antt =====
-- awsURIEncode of sigv4.go against url.PathUnescape.
use flob.Prelude.{
  ℕ, ◌+◌, ◌*◌, ◌<◌, ◌≡◌, refl, ap, ◌∙◌, Bool, false, not, ◌&&◌, Option, none, some, [], ◌∷◌, ◌==◌,
  ◌/◌, ◌%◌, arith, by_test,
}
use mathlib.Core.Option
use flob.Prelude.Text.{Text}
use flob.Namespace.Base64.{AllBytes}
use flob.Http.Paths.{hex_value, path_unescape}
use flob.S3.Encoding.{hex_upper, is_unreserved, escaped, uri_encode}

hex_value-hex_upper : (n : ℕ) → n < 16 → hex_value (hex_upper n) ≡ some n
unfolding hex_value
hex_value-hex_upper n h = ground (arith, h)

abbrev led_by : ℕ → Option Text → Option Text
led_by c o = Option.map (λ s. c ∷ s) o

unescape_plain :
    (c : ℕ) (s : Text) → (c == b'%') ≡ false → path_unescape (c ∷ s) ≡ led_by c (path_unescape s)
unfolding path_unescape
unescape_plain c [] plain = ground (arith, plain)
unescape_plain c (x ∷ []) plain = ground (arith, plain)
unescape_plain c (x ∷ y ∷ s) plain =
    by_test (λ t. t ≡ led_by c (path_unescape (x ∷ y ∷ s))) (c == b'%')
      (λ percent. absurd (ground (arith, percent, plain))) (λ other. refl)

unescape_nil : path_unescape [] ≡ some []
unfolding path_unescape
unescape_nil = refl

escape_step :
    (x y hi lo : ℕ) (s : Text)
    → hex_value x ≡ some hi
    → hex_value y ≡ some lo
    → path_unescape (b'%' ∷ x ∷ y ∷ s) ≡ led_by (hi * 16 + lo) (path_unescape s)
unfolding path_unescape
escape_step x y hi lo s hx hy =
    ap
      (λ o. elim o [
        | none ↦ none
        | some a ↦ elim (hex_value y) [
          | none ↦ none
          | some b ↦ led_by (a * 16 + b) (path_unescape s)
        ]
      ])
      hx
    ∙ ap (λ o. elim o [ none ↦ none | some b ↦ led_by (hi * 16 + b) (path_unescape s) ]) hy

unescape_escaped :
    (c : ℕ) (s : Text) → c < 256 → path_unescape (escaped c s) ≡ led_by c (path_unescape s)
unescape_escaped c s h =
    escape_step (hex_upper (c / 16)) (hex_upper (c % 16)) (c / 16) (c % 16) s
      (hex_value-hex_upper (c / 16) (omega (arith, h))) (hex_value-hex_upper (c % 16) (omega arith))
    ∙ ap (λ n. led_by n (path_unescape s)) {x = c / 16 * 16 + c % 16} {y = c} (omega arith)

-- Every string of bytes is read back by url.PathUnescape from what awsURIEncode makes of it, whether
-- slashes are escaped or not.
pub path_unescape-uri_encode :
    (encode_slash : Bool) (s : Text)
    → AllBytes s
    → path_unescape (uri_encode encode_slash s) ≡ some s
unfolding uri_encode
path_unescape-uri_encode encode_slash [] bytes = unescape_nil
path_unescape-uri_encode encode_slash (c ∷ s) (byte, bytes) =
    let rest = uri_encode encode_slash s in
    let again = ap (led_by c) (path_unescape-uri_encode encode_slash s bytes) in
    by_test (λ t. path_unescape t ≡ some (c ∷ s)) (is_unreserved c)
      (λ plain. unescape_plain c rest (ground (arith, plain)) ∙ again)
      (λ other.
        by_test (λ t. path_unescape t ≡ some (c ∷ s)) (c == b'/' && not encode_slash)
          (λ slash. unescape_plain c rest (ground (arith, slash)) ∙ again)
          (λ coded. unescape_escaped c rest byte ∙ again))

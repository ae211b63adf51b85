-- ===== src/Namespace.antt =====
-- namespace.go: the single path segment that stands for a namespace.
pub mod Base64
pub mod RoundTrip
use flob.Prelude.{
  ℕ, ◌-◌, Bool, true, false, not, ◌&&◌, ◌||◌, Option, none, some, List, [], ◌∷◌, map, leb, ◌==◌,
  length, if◌then◌else◌,
}
use flob.Prelude.Text.{Text, codes, text_eq, is_empty, cut_prefix}
use Base64.{encode, decode}

-- strings.HasSuffix(s, ".")
unfoldable pub ends_in_dot : Text → Bool
ends_in_dot [] = false
ends_in_dot (c ∷ []) = c == b'.'
ends_in_dot (c ∷ d ∷ s) = ends_in_dot (d ∷ s)

unfoldable pub is_plain_byte : ℕ → Bool
is_plain_byte c =
    leb b'a' c && leb c b'z'
    || leb b'A' c && leb c b'Z'
    || leb b'0' c && leb c b'9'
    || c == b'_'
    || c == b'-'
    || c == b'.'

-- The range loop of `plainNamespace`. It walks runes; every byte of a rune past ASCII fails too.
unfoldable pub all_plain : Text → Bool
unfolding is_plain_byte
all_plain [] = true
all_plain (c ∷ s) = if is_plain_byte c then all_plain s else false

-- strings.ToUpper on ASCII
unfoldable pub upper : ℕ → ℕ
upper c = if leb b'a' c && leb c b'z' then c - 32 else c

-- the part before the first dot: strings.Cut(s, ".")
unfoldable pub before_dot : Text → Text
before_dot [] = []
before_dot (c ∷ s) = if c == b'.' then [] else c ∷ before_dot s

-- COM1 to COM9 and LPT1 to LPT9
unfoldable pub is_port : Text → Bool
unfolding text_eq
is_port (a ∷ b ∷ c ∷ n ∷ []) =
    (text_eq (a ∷ b ∷ c ∷ []) (codes "COM") || text_eq (a ∷ b ∷ c ∷ []) (codes "LPT"))
    && leb b'1' n
    && leb n b'9'
is_port _ = false

unfoldable pub is_device : Text → Bool
unfolding text_eq is_port
is_device base =
    text_eq base (codes "CON")
    || text_eq base (codes "PRN")
    || text_eq base (codes "AUX")
    || text_eq base (codes "NUL")
    || is_port base

unfoldable pub plain_namespace : Text → Bool
unfolding ends_in_dot all_plain upper before_dot is_device
plain_namespace id =
    if is_empty id || ends_in_dot id
    then false
    else if not (all_plain id)
    then false
    else not (is_device (before_dot (map upper id)))

unfoldable pub namespace_segment : Text → Text
unfolding plain_namespace
namespace_segment id = if plain_namespace id then id else b'~' ∷ encode id

-- `none` is an error
unfoldable pub namespace_id : Text → Option Text
unfolding namespace_segment
namespace_id segment = elim (cut_prefix (codes "~") segment) [
  | none ↦ some segment
  | some encoded ↦ elim (decode encoded) [
    | none ↦ none
    | some bytes ↦ if text_eq (namespace_segment bytes) segment then some bytes else none
  ]
]

-- ===== src/Namespace/RoundTrip.antt =====
-- namespace.go: from an ID to its segment and back.
use flob.Prelude.{
  ℕ, ◌+◌, ◌*◌, ◌/◌, ◌%◌, ◌<◌, ◌≡◌, ◌≢◌, refl, true, false, ◌⊎◌, inl, inr, none, some, List, [], ◌∷◌,
  arith, Bool-cases,
}
use flob.Prelude.Text.{Text, codes, text_eq_refl, is_empty, cut_prefix}
use flob.Namespace.{
  ends_in_dot, is_plain_byte, all_plain, plain_namespace, namespace_segment, namespace_id,
}
use flob.Namespace.Base64.{encode, letter, AllBytes, decode-encode}

-- A preserved name is not empty and its first byte is not the mark.
cut_prefix_of_plain : (id : Text) → plain_namespace id ≡ true → cut_prefix (codes "~") id ≡ none
unfolding plain_namespace cut_prefix
cut_prefix_of_plain [] h = refl
cut_prefix_of_plain (c ∷ s) h = ground arith

namespace_segment_of_plain : (id : Text) → plain_namespace id ≡ true → namespace_segment id ≡ id
unfolding namespace_segment
namespace_segment_of_plain id h = rw h

namespace_segment_of_other :
    (id : Text) → plain_namespace id ≡ false → namespace_segment id ≡ b'~' ∷ encode id
unfolding namespace_segment
namespace_segment_of_other id h = rw h

-- Every byte string is read back from the segment that stands for it.
pub namespace_id-segment : (id : Text) → AllBytes id → namespace_id (namespace_segment id) ≡ some id
unfolding namespace_id cut_prefix
namespace_id-segment id h = elim (Bool-cases (plain_namespace id)) [
  | inl plain ↦
      rw (namespace_segment_of_plain id plain) (ground (arith, cut_prefix_of_plain id plain))
  | inr other ↦ ground (
    arith,
    namespace_segment_of_other id other,
    decode-encode id h,
    text_eq_refl (namespace_segment id),
  )
]

-- Byte strings with the same segment are the same, so the directories and keys of two namespaces
-- never meet.
pub namespace_segment-injective :
    (a b : Text) → AllBytes a → AllBytes b → namespace_segment a ≡ namespace_segment b → a ≡ b
namespace_segment-injective a b ha hb h = cc (namespace_id-segment a ha, namespace_id-segment b hb)

abbrev SegmentByte : ℕ → Type 0
SegmentByte c = (is_plain_byte c ≡ true) ⊎ (c ≡ b'~')

abbrev pub AllSegment : Text → Type 0
AllSegment [] = Unit
AllSegment (c ∷ s) = SegmentByte c × AllSegment s

all_plain-AllSegment : (s : Text) → all_plain s ≡ true → AllSegment s
unfolding all_plain
all_plain-AllSegment [] h = tt
all_plain-AllSegment (c ∷ s) h = (ground arith, all_plain-AllSegment s (ground arith))

letter-plain : (n : ℕ) → n < 64 → is_plain_byte (letter n) ≡ true
unfolding is_plain_byte letter
letter-plain n h = ground arith

letter-ne-dot : (n : ℕ) → n < 64 → letter n ≢ b'.'
unfolding letter
letter-ne-dot n h = ground arith

-- What `encode` writes: letters of 64 values.
abbrev AllLetters : Text → Type 0
AllLetters [] = Unit
AllLetters (c ∷ s) = ((n : ℕ) × (n < 64) × (c ≡ letter n)) × AllLetters s

encode-AllLetters : (bs : List ℕ) → AllBytes bs → AllLetters (encode bs)
unfolding encode
encode-AllLetters [] h = tt
encode-AllLetters (a ∷ []) (ha, _) =
    ((a / 4, omega arith, refl), ((a % 4 * 16, omega arith, refl), tt))
encode-AllLetters (a ∷ b ∷ []) (ha, (hb, _)) = (
  (a / 4, omega arith, refl),
  ((a % 4 * 16 + b / 16, omega arith, refl), ((b % 16 * 4, omega arith, refl), tt)),
)
encode-AllLetters (a ∷ b ∷ c ∷ rest) (ha, (hb, (hc, h))) = (
  (a / 4, omega arith, refl),
  (
    (a % 4 * 16 + b / 16, omega arith, refl),
    (
      (b % 16 * 4 + c / 64, omega arith, refl),
      ((c % 64, omega arith, refl), encode-AllLetters rest h),
    ),
  ),
)

AllLetters-AllSegment : (s : Text) → AllLetters s → AllSegment s
AllLetters-AllSegment [] h = tt
AllLetters-AllSegment (c ∷ s) ((n, lt, e), h) =
    (inl (rw e (letter-plain n lt)), AllLetters-AllSegment s h)

ends_in_dot_of_AllLetters :
    (c : ℕ) (s : Text) → c ≢ b'.' → AllLetters s → ends_in_dot (c ∷ s) ≡ false
unfolding ends_in_dot
ends_in_dot_of_AllLetters c [] hc h = ground arith
ends_in_dot_of_AllLetters c (d ∷ s) hc ((n, lt, e), h) =
    ends_in_dot_of_AllLetters d s (ground (arith, letter-ne-dot n lt)) h

plain_parts :
    (id : Text)
    → plain_namespace id ≡ true
    → (is_empty id ≡ false) × AllSegment id × (ends_in_dot id ≡ false)
unfolding plain_namespace
plain_parts id h = (ground arith, all_plain-AllSegment id (ground arith), ground arith)

-- A segment of any byte string is one path element: it is not empty, holds only letters, digits,
-- `_`, `-`, `.` and `~`, so no separator, and does not end in a dot, so it is not `.` or `..`.
pub namespace_segment-IsSafe :
    (id : Text)
    → AllBytes id
    → (is_empty (namespace_segment id) ≡ false)
      × AllSegment (namespace_segment id)
      × (ends_in_dot (namespace_segment id) ≡ false)
namespace_segment-IsSafe id h = elim (Bool-cases (plain_namespace id)) [
  | inl plain ↦ rw (namespace_segment_of_plain id plain) (plain_parts id plain)
  | inr other ↦ rw (namespace_segment_of_other id other) (
    refl,
    (inr refl, AllLetters-AllSegment (encode id) (encode-AllLetters id h)),
    ends_in_dot_of_AllLetters b'~' (encode id) (omega arith) (encode-AllLetters id h),
  )
]

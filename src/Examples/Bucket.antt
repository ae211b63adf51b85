-- ===== src/Examples/Bucket.antt =====
-- An S3 service that keeps its bucket in memory and checks every PUT, and a hash that tells content
-- of even from content of odd length: they meet the laws that the theorems on S3Store ask for.
use mathlib.Core.Path.{subst}
use flob.Http.Paths.{has_slash}
use flob.Prelude.{
  drop, ℕ, ◌+◌, ◌%◌, ◌≡◌, ◌≢◌, refl, sym, ap, ◌∙◌, true, false, ◌||◌, none, some, List, [], ◌∷◌,
  ◌++◌, ◌⊎◌, inl, inr, arith, length, ◌==◌, if◌then◌else◌,
}
use flob.Prelude.Text.{Text, codes, text_eq, text_eq_iff, is_empty}
use flob.Errors.{invalid_digest}
use flob.Hashing.{Hashing, from_bytes, to_lower}
use flob.S3.Adding.{hex_decode}
use flob.S3.Markers.{member}
use flob.S3.Named.{DigestLaws}

abbrev pub even_digest : Text
even_digest = codes "sha256:00"

abbrev pub odd_digest : Text
odd_digest = codes "sha256:01"

abbrev pub parity : Hashing
parity = record {
  validate =
      λ d. if text_eq d even_digest || text_eq d odd_digest then none else some invalid_digest;
  algorithm = λ d. codes "sha256";
  encoded = λ d. if text_eq d even_digest then codes "00" else codes "01";
  canonical = codes "sha256";
  State = ℕ;
  start = λ algo. 0;
  write = λ s b. s + length b;
  sum = λ s. if s % 2 == 0 then codes "00" else codes "01";
  marshal = λ s. s ∷ [];
  unmarshal = λ algo c. none;
  sum256 = λ b. (length b % 2) ∷ [];
}

valid_cases : (d : Text) → parity.validate d ≡ none → (d ≡ even_digest) ⊎ (d ≡ odd_digest)
valid_cases d h = ground (arith, h, text_eq_iff d even_digest, text_eq_iff d odd_digest)

from_bytes_cases :
    (b : List ℕ)
    → (from_bytes parity (codes "sha256") b ≡ even_digest) × (length b % 2 ≡ 0)
      ⊎ (from_bytes parity (codes "sha256") b ≡ odd_digest) × (length b % 2 ≡ 1)
unfolding from_bytes
from_bytes_cases b = ground arith

by_digest :
    (P : Text → Type 0) → P even_digest → P odd_digest → (d : Text) → parity.validate d ≡ none → P d
by_digest P even odd d h = elim (valid_cases d h) [
  | inl e ↦ subst P (sym e) even
  | inr e ↦ subst P (sym e) odd
]

member-middle : (c : ℕ) (a b : Text) → member c (a ++ (c ∷ []) ++ b) ≡ true
unfolding member
member-middle c [] b = ground arith
member-middle c (x ∷ a) b = ground (arith, member-middle c a b)

-- A text with one colon is split there in one way.
colon_split :
    (a b d e : Text)
    → member b':' d ≡ false
    → member b':' e ≡ false
    → a ++ codes ":" ++ b ≡ d ++ codes ":" ++ e
    → (a ≡ d) × (b ≡ e)
unfolding member
colon_split [] b [] e hd he same = ground (arith, same)
colon_split [] b (x ∷ d) e hd he same = absurd (ground (arith, same, hd))
colon_split (x ∷ a) b [] e hd he same =
    absurd (ground (arith, member-middle b':' a b, he, ap (drop 1) same))
colon_split (x ∷ a) b (y ∷ d) e hd he same = ground (arith, same, hd, he, colon_split a b d e)

computed_valid : (b : List ℕ) → parity.validate (from_bytes parity (codes "sha256") b) ≡ none
unfolding text_eq
computed_valid b = elim (from_bytes_cases b) [
  | inl (e, _) ↦ subst (λ d. parity.validate d ≡ none) (sym e) refl
  | inr (e, _) ↦ subst (λ d. parity.validate d ≡ none) (sym e) refl
]

one_split :
    (a b : Text)
    → parity.validate (a ++ codes ":" ++ b) ≡ none
    → (parity.algorithm (a ++ codes ":" ++ b) ≡ a) × (parity.encoded (a ++ codes ":" ++ b) ≡ b)
unfolding text_eq member
one_split a b h = elim (valid_cases (a ++ codes ":" ++ b) h) [
  | inl e ↦
      let (x, y) = colon_split a b (codes "sha256") (codes "00") refl refl e in
      (sym x, ap parity.encoded e ∙ sym y)
  | inr e ↦
      let (x, y) = colon_split a b (codes "sha256") (codes "01") refl refl e in
      (sym x, ap parity.encoded e ∙ sym y)
]

summed_digest :
    (b : List ℕ) (d : Text)
    → parity.validate d ≡ none
    → hex_decode (parity.encoded d) ≡ some (parity.sum256 b)
    → from_bytes parity (codes "sha256") b ≡ d
unfolding hex_decode text_eq
summed_digest b =
    by_digest
      (λ d.
        hex_decode (parity.encoded d) ≡ some (parity.sum256 b)
        → from_bytes parity (codes "sha256") b ≡ d)
      (λ k. elim (from_bytes_cases b) [
        | inl (e, _) ↦ e
        | inr (_, odd) ↦ absurd (ground (arith, k, odd))
      ])
      (λ k. elim (from_bytes_cases b) [
        | inr (e, _) ↦ e
        | inl (_, even) ↦ absurd (ground (arith, k, even))
      ])

pub parity-DigestLaws : DigestLaws parity
unfolding has_slash to_lower text_eq
parity-DigestLaws = record {
  split = by_digest (λ d. parity.algorithm d ++ codes ":" ++ parity.encoded d ≡ d) refl refl;
  algorithm_plain = λ d h. refl;
  encoded_plain = by_digest (λ d. has_slash (parity.encoded d) ≡ false) refl refl;
  lowered = by_digest (λ d. to_lower d ≡ d) refl refl;
  nonempty = by_digest (λ d. is_empty d ≢ true) (λ k. cc) (λ k. cc);
  computed = computed_valid;
  computed_algorithm = λ b. refl;
  unique = one_split;
  summed = λ d b valid algo decoded. summed_digest b d valid decoded;
}

-- ===== src/Examples/Toy.antt =====
-- A hash that keeps the bytes themselves, which satisfies the laws that the theorems ask of the
-- library: it shows that they can hold, and it evaluates.
use mathlib.Core.List.{append_assoc}
use flob.Prelude.{
  ℕ, ◌-◌, ◌/◌, ◌%◌, ◌≡◌, refl, ap, none, some, List, [], ◌∷◌, ◌++◌, arith, length, length-append,
  take, drop, if◌then◌else◌,
}
use flob.Prelude.Text.{codes, is_empty}
use flob.Errors.{invalid_digest}
use flob.Hashing.{Hashing, HashingLaws}

-- a number as eight bytes, the most significant first
abbrev big_endian_bytes : ℕ → List ℕ
big_endian_bytes n = 0 ∷ 0 ∷ 0 ∷ 0 ∷ 0 ∷ 0 ∷ (n / 256 % 256) ∷ (n % 256) ∷ []

abbrev pub toy : Hashing
toy = record {
  validate = λ d. if is_empty d then some invalid_digest else none;
  algorithm = λ d. codes "sha256";
  encoded = λ d. drop 7 d;
  canonical = codes "sha256";
  State = List ℕ;
  start = λ algo. [];
  write = λ s b. s ++ b;
  sum = λ s. s;
  marshal = λ s. s ++ big_endian_bytes (length s);
  unmarshal = λ algo c. some (take (length c - 8) c);
  sum256 = λ b. b;
}

take-append : (s t : List ℕ) → take (length s) (s ++ t) ≡ s
take-append [] t = refl
take-append (c ∷ s) t = ap (λ r. c ∷ r) (take-append s t)

length-checkpoint : (s : List ℕ) → length (s ++ big_endian_bytes (length s)) - 8 ≡ length s
length-checkpoint s = omega (arith, length-append s (big_endian_bytes (length s)))

append_empty : (s : List ℕ) → s ++ [] ≡ s
append_empty [] = refl
append_empty (c ∷ s) = ap (λ r. c ∷ r) (append_empty s)

pub toy-laws : HashingLaws toy
toy-laws = record {
  write_append = λ s a b. append_assoc s a b;
  write_empty = λ s. append_empty s;
  resume = λ algo bytes. rw (length-checkpoint bytes) (ap some (take-append bytes _));
}

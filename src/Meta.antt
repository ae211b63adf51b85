-- ===== src/Meta.antt =====
-- store.go: `Meta`, and what an operation is given besides its arguments. labels.go: `Labels`.
use flob.Prelude.{ℕ, Bool, true, false, ◌&&◌, ◌≡◌, ◌↔◌, Option, none, some, List, [], ◌∷◌, arith}
use flob.Prelude.Text.{Text, text_eq, text_eq_iff, codes}
use flob.Prelude.Int.{ℤ, pos}
use flob.Errors.{Error}

-- A header map as its entries in key order, so that equal maps are equal lists. The nil map is
-- `none` in `Labels`; a nil slice of values is not told from an empty one.
abbrev pub Header : Type 0
Header = List (Text × List Text)

abbrev pub Labels : Type 0
Labels = Option Header

pub record Meta : Type 0 where
  pub digest : Text
  pub labels : Labels
  pub size : ℤ

abbrev pub no_meta : Meta
no_meta = record { digest = codes ""; labels = none; size = pos 0 }

-- What an operation observes while it runs: the k-th answer of ctx.Err(), the k-th reading of the
-- pool's clock, and the wall clock. Times are nanoseconds since the zero time.
pub record Call : Type 0 where
  pub ctx_err : ℕ → Option Error
  pub clock : ℕ → ℕ
  pub now : ℕ

-- A reader by what io.ReadAll makes of it: its bytes, and the error that ends it early.
pub record Source : Type 0 where
  pub bytes : List ℕ
  pub failure : Option Error

-- A (Meta, error) result.
abbrev pub Added : Type 0
Added = Meta × Option Error

unfoldable pub texts_eq : List Text → List Text → Bool
texts_eq [] [] = true
texts_eq [] (y ∷ ys) = false
texts_eq (x ∷ xs) [] = false
texts_eq (x ∷ xs) (y ∷ ys) = text_eq x y && texts_eq xs ys

pub texts_eq_iff : (a b : List Text) → (texts_eq a b ≡ true) ↔ (a ≡ b)
unfolding texts_eq
texts_eq_iff [] [] = ground arith
texts_eq_iff [] (y ∷ ys) = ground arith
texts_eq_iff (x ∷ xs) [] = ground arith
texts_eq_iff (x ∷ xs) (y ∷ ys) = ground (arith, text_eq_iff x y, texts_eq_iff xs ys)

unfoldable pub header_eq : Header → Header → Bool
header_eq [] [] = true
header_eq [] (y ∷ ys) = false
header_eq (x ∷ xs) [] = false
header_eq ((k, v) ∷ xs) ((l, w) ∷ ys) = text_eq k l && texts_eq v w && header_eq xs ys

pub header_eq_iff : (a b : Header) → (header_eq a b ≡ true) ↔ (a ≡ b)
unfolding header_eq
header_eq_iff [] [] = ground arith
header_eq_iff [] (y ∷ ys) = ground arith
header_eq_iff (x ∷ xs) [] = ground arith
header_eq_iff ((k, v) ∷ xs) ((l, w) ∷ ys) =
    ground (arith, text_eq_iff k l, texts_eq_iff v w, header_eq_iff xs ys)

-- reflect.DeepEqual on labels
unfoldable pub labels_eq : Labels → Labels → Bool
labels_eq none none = true
labels_eq none (some b) = false
labels_eq (some a) none = false
labels_eq (some a) (some b) = header_eq a b

pub labels_eq_iff : (a b : Labels) → (labels_eq a b ≡ true) ↔ (a ≡ b)
unfolding labels_eq
labels_eq_iff none none = ground arith
labels_eq_iff none (some b) = ground arith
labels_eq_iff (some a) none = ground arith
labels_eq_iff (some a) (some b) = ground (arith, header_eq_iff a b)

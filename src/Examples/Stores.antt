-- ===== src/Examples/Stores.antt =====
-- The in-memory stores on a pool in which the store `a` holds one blob.
use flob.Prelude.{
  zero, suc, ◌≡◌, refl, true, Option, none, some, List, [], ◌∷◌, ◌++◌, arith, if◌then◌else◌,
}
use flob.Prelude.Text.{Text, codes, text_eq, text_eq_iff}
use flob.Prelude.Int.{pos}
use flob.Errors.{digest_mismatch}
use flob.Hashing.{from_bytes, sanitize}
use flob.Meta.{Call, Source, no_meta}
use flob.Stage.{StageConfig}
use flob.Mem.Refs.{find, occurs, holders, length-holders}
use flob.Mem.State.{Pool, IsValid, new_mem_stores, view, load}
use flob.Mem.Store.{add, erase, link}
use flob.Mem.Views.{same_key}
use flob.Mem.Invariant.{HasRoom, Returns, add-Returns}
use flob.Mem.Adds.{Stores, FailsSafe, computed, add-Stores, add-FailsSafe}
use flob.Mem.Effects.{erase_frees, view-erase, link_lem, link_answer, link_shown}
use flob.Examples.Toy.{toy}

abbrev pub config : StageConfig
config = record { ttl = pos 0; retention = pos 60 }

-- the digest of the bytes 1, 2
abbrev pub digest : Text
digest = codes "sha256:" ++ 1 ∷ 2 ∷ []

abbrev pub one_blob : Pool
one_blob = record (new_mem_stores config) {
  heap = λ a. elim a [ zero ↦ some (record { bytes = 1 ∷ 2 ∷ []; refs = 1 }) | suc n ↦ none ];
  next = 1;
  bs = (digest, 0) ∷ [];
  es =
      record {
        store = codes "a";
        digest = digest;
        entry = record { blob = 0; labels = none; added = 7 };
      }
      ∷ [];
}

pub one_blob-IsValid : IsValid one_blob
unfolding occurs find load holders
one_blob-IsValid = record {
  unique = λ id d. ground arith;
  linked = λ id d e h. ground (arith, h, text_eq_iff digest d);
  counted = λ d a h. ground (arith, h, text_eq_iff digest d);
  apart = λ c d a h k. ground (arith, h, k, text_eq_iff digest c, text_eq_iff digest d);
  allocated = λ d a h. ground (arith, h);
}

pub one_blob-HasRoom : HasRoom one_blob
one_blob-HasRoom d = omega (arith, length-holders d one_blob.es)

abbrev hello : Source
hello = record { bytes = 3 ∷ 4 ∷ []; failure = none }

add-Returns_example : Returns (add toy 1 (codes "b") 9 no_meta hello one_blob)
add-Returns_example =
    add-Returns toy 0 (codes "b") 9 no_meta hello one_blob one_blob-IsValid one_blob-HasRoom

abbrev new_digest : Text
new_digest = codes "sha256:" ++ 3 ∷ 4 ∷ []

add-Stores_example :
    Stores
      (codes "b")
      9
      no_meta
      (3 ∷ 4 ∷ [])
      one_blob
      new_digest
      (add toy 1 (codes "b") 9 no_meta hello one_blob)
unfolding from_bytes view find text_eq
add-Stores_example =
    add-Stores toy 0 (codes "b") 9 no_meta hello one_blob new_digest one_blob-IsValid refl
      (computed refl refl) refl

add-FailsSafe_example : FailsSafe one_blob (add toy 1 (codes "a") 9 no_meta hello one_blob)
add-FailsSafe_example = add-FailsSafe toy 0 (codes "a") 9 no_meta hello one_blob one_blob-IsValid

view-erase_example : view (erase (codes "a") digest one_blob) (codes "a") digest ≡ none
unfolding text_eq
view-erase_example = view-erase (codes "a") digest one_blob (codes "a") digest one_blob-IsValid

erase_frees_example : load digest (erase (codes "a") digest one_blob).bs ≡ none
unfolding view find
erase_frees_example =
    erase_frees (codes "a") digest one_blob one_blob-IsValid (λ id' h. ground (arith, h))

abbrev red : Option (List (Text × List Text))
red = some ((codes "Color", codes "red" ∷ []) ∷ [])

abbrev pub quiet : Call
quiet = record { ctx_err = λ k. none; clock = λ k. 10; now = 9 }

link_lem_example :
    ((link toy quiet (codes "b") digest (codes "a") true one_blob).0
      ≡ link_answer digest (view one_blob (codes "a") digest) (view one_blob (codes "b") digest))
    × (view (link toy quiet (codes "b") digest (codes "a") true one_blob).1 (codes "b") digest ≡ (
        if same_key (codes "b") digest (codes "b") digest
        then link_shown 9 (view one_blob (codes "a") digest) (view one_blob (codes "b") digest)
        else view one_blob (codes "b") digest))
unfolding sanitize
link_lem_example =
    link_lem toy quiet (codes "b") digest (codes "a") one_blob digest (codes "b") digest refl refl
      refl refl

-- A given digest that the bytes do not have is refused.
add_mismatch :
    add toy 1 (codes "b") 9 (record no_meta { digest = digest }) hello one_blob
    ≡ some
        ((record { digest = digest; labels = none; size = pos 2 }, some digest_mismatch), one_blob)
unfolding add sanitize from_bytes text_eq find
add_mismatch = refl

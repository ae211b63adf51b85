-- ===== src/Mem/Adds.antt =====
-- MemStore.Add of mem.go by what the stores show before and after.
use flob.Prelude.{
  ℕ, suc, ◌≡◌, sym, ap, true, false, Option, none, some, List, [], ◌∷◌, arith, length,
  if◌then◌else◌, Bool-cases, Option-cases, inl, inr, is_some,
}
use mathlib.Core.Path.{subst}
use flob.Prelude.Text.{Text, text_eq, text_eq_refl, is_empty}
use flob.Prelude.Int.{pos}
use flob.Errors.{Error, already_exists}
use flob.Hashing.{Hashing, sanitize, from_bytes}
use flob.Meta.{Meta, Source, Added}
use flob.Mem.Refs.{find}
use flob.Mem.State.{Pool, IsValid, view}
use flob.Mem.Store.{publish, add_bytes, add}
use flob.Mem.Views.{stored, same_key, publish-IsPublished}

-- The digest that an Add of some bytes stores them under: computed, or asked for and confirmed.
pub data IsTarget (h : Hashing) (m : Meta) (bytes : List ℕ) (d : Text) : Type 0 where
  computed : is_empty m.digest ≡ true → from_bytes h h.canonical bytes ≡ d → IsTarget h m bytes d
  given :
      is_empty m.digest ≡ false
      → (sanitize h m.digest).0 ≡ none
      → (sanitize h m.digest).1 ≡ d
      → from_bytes h (h.algorithm d) bytes ≡ d
      → IsTarget h m bytes d

is_empty-sanitize :
    (h : Hashing) (d : Text)
    → is_empty d ≡ false
    → (sanitize h d).0 ≡ none
    → is_empty (sanitize h d).1 ≡ false
unfolding sanitize
is_empty-sanitize h [] e k = cc
is_empty-sanitize h (b ∷ d) e k = ground arith

view-none_of_find : (p : Pool) (id d : Text) → view p id d ≡ none → find id d p.es ≡ none
unfolding view
view-none_of_find p id d h = ground arith

-- A run that adds: the answer, and what every store shows afterwards.
abbrev pub Stores : Text → ℕ → Meta → List ℕ → Pool → Text → Option (Added × Pool) → Type 0
Stores id now m bytes p d o =
    (p' : Pool) × (o ≡ some ((record m { digest = d; size = pos (length bytes) }, none), p'))
    × ((id' d' : Text)
        → view p' id' d' ≡ (
            if same_key id d id' d'
            then some (record { bytes = stored d bytes p; labels = m.labels; added = now })
            else view p id' d'))

publish-Stores :
    (fuel : ℕ) (id : Text) (now : ℕ) (m : Meta) (bytes : List ℕ) (p : Pool) (d : Text)
    → IsValid p
    → view p id d ≡ none
    → Stores id now m bytes p d
        (publish (suc fuel) id (record m { digest = d; size = pos (length bytes) }) now bytes p)
publish-Stores fuel id now m bytes p d v absent =
    let m' : Meta = record m { digest = d; size = pos (length bytes) } in
    let (p', e, shows) = publish-IsPublished fuel id m' now bytes p v in
    (p', ground (arith, e, absent), λ id' d'. ground (arith, shows id' d', absent))

module _ (h : Hashing) (fuel : ℕ) (id : Text) (now : ℕ) (m : Meta) (r : Source) (p : Pool) where
  add_given :
      IsValid p
      → r.failure ≡ none
      → is_empty m.digest ≡ false
      → (sanitize h m.digest).0 ≡ none
      → from_bytes h (h.algorithm (sanitize h m.digest).1) r.bytes ≡ (sanitize h m.digest).1
      → view p id (sanitize h m.digest).1 ≡ none
      → Stores id now m r.bytes p (sanitize h m.digest).1 (add h (suc fuel) id now m r p)
  unfolding add
  add_given v whole full valid e absent =
      rw
        (
          full,
          valid,
          view-none_of_find p id _ absent,
          whole,
          add_bytes,
          is_empty-sanitize h m.digest full valid,
          e,
          text_eq_refl (sanitize h m.digest).1,
        )
        (publish-Stores fuel id now m r.bytes p _ v absent)

  -- On a valid pool, an Add of readable bytes that match the digest asked for, if any, to a store
  -- that does not show their digest returns the full Meta and makes the blob visible there under
  -- its digest; every other store and digest stays as it was. If the pool had the digest, the
  -- bytes are those that it had.
  pub add-Stores :
      (d : Text)
      → IsValid p
      → r.failure ≡ none
      → IsTarget h m r.bytes d
      → view p id d ≡ none
      → Stores id now m r.bytes p d (add h (suc fuel) id now m r p)
  unfolding add
  add-Stores d v whole (computed empty e) absent =
      rw (empty, whole, add_bytes, empty, e) (publish-Stores fuel id now m r.bytes p d v absent)
  add-Stores d v whole (given full valid same e) absent =
      subst (λ c. Stores id now m r.bytes p c (add h (suc fuel) id now m r p)) same
        (add_given v whole full valid (rw same e) (rw same absent))

abbrev SameViews : Pool → Pool → Type 0
SameViews p p' = (id d : Text) → view p' id d ≡ view p id d

-- If a run that answers an error, then with the same views.
abbrev pub FailsSafe : Pool → Option (Added × Pool) → Type 0
FailsSafe p o = (m : Meta) (e : Error) (p' : Pool) → o ≡ some ((m, some e), p') → SameViews p p'

publish-FailsSafe :
    (fuel : ℕ) (id : Text) (m : Meta) (now : ℕ) (bytes : List ℕ) (p : Pool)
    → IsValid p
    → FailsSafe p (publish (suc fuel) id m now bytes p)
publish-FailsSafe fuel id m now bytes p v m' e p' h id' d' =
    let (p'', returned, shows) = publish-IsPublished fuel id m now bytes p v in
    ground (arith, returned, h, shows id' d')

FailsSafe-unchanged : (p : Pool) (a : Added) → FailsSafe p (some (a, p))
FailsSafe-unchanged p a m e p' h id d = ap (λ (q : Pool). view q id d) (sym (cc))

add_bytes-FailsSafe :
    (h : Hashing) (fuel : ℕ) (algo id : Text) (m : Meta) (now : ℕ) (r : Source) (p : Pool)
    → IsValid p
    → FailsSafe p (add_bytes h (suc fuel) algo id m now r p)
unfolding add_bytes
add_bytes-FailsSafe h fuel algo id m now r p v = elim (Option-cases r.failure) [
  | inr (e, failed) ↦ rw failed (FailsSafe-unchanged p _)
  | inl whole ↦ elim (Bool-cases (is_empty m.digest)) [
    | inl empty ↦ rw (whole, empty) (publish-FailsSafe fuel id _ now r.bytes p v)
    | inr asked ↦ elim (Bool-cases (text_eq m.digest (from_bytes h algo r.bytes))) [
      | inl same ↦ rw (whole, asked, same) (publish-FailsSafe fuel id _ now r.bytes p v)
      | inr other ↦ rw (whole, asked, other) (FailsSafe-unchanged p _)
    ]
  ]
]

-- On a valid pool, an Add that answers an error, whatever it read, leaves what every store shows
-- as it was.
pub add-FailsSafe :
    (h : Hashing) (fuel : ℕ) (id : Text) (now : ℕ) (m : Meta) (r : Source) (p : Pool)
    → IsValid p
    → FailsSafe p (add h (suc fuel) id now m r p)
unfolding add
add-FailsSafe h fuel id now m r p v = elim (Bool-cases (is_empty m.digest)) [
  | inl empty ↦ rw empty (add_bytes-FailsSafe h fuel _ id m now r p v)
  | inr asked ↦ elim (Option-cases (sanitize h m.digest).0) [
    | inr (e, bad) ↦ rw (asked, bad) (FailsSafe-unchanged p _)
    | inl good ↦ elim (Option-cases (find id (sanitize h m.digest).1 p.es)) [
      | inr (found, old) ↦ rw (asked, good, old) (FailsSafe-unchanged p _)
      | inl new ↦ rw (asked, good, new) (add_bytes-FailsSafe h fuel _ id _ now r p v)
    ]
  ]
]

-- With a valid digest given that the store shows already, Add answers ErrAlreadyExists whatever
-- the reader holds, and changes nothing.
pub add_duplicate :
    (h : Hashing) (fuel : ℕ) (id : Text) (now : ℕ) (m : Meta) (r : Source) (p : Pool)
    → is_empty m.digest ≡ false
    → (sanitize h m.digest).0 ≡ none
    → is_some (view p id (sanitize h m.digest).1) ≡ true
    → add h fuel id now m r p
      ≡ some ((record m { digest = (sanitize h m.digest).1 }, some already_exists), p)
unfolding add view
add_duplicate h fuel id now m r p full good there =
    elim (Option-cases (find id (sanitize h m.digest).1 p.es)) [
      | inl new ↦ absurd (ground (arith, new))
      | inr (e, old) ↦ rw (full, good, old)
    ]

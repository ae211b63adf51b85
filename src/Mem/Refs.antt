-- ===== src/Mem/Refs.antt =====
-- The `es` maps of all stores of a pool in one list, each entry with its store and its digest, and
-- the laws of looking up, adding, removing and replacing an entry.
use flob.Prelude.{
  ℕ, ◌+◌, ◌≤◌, ◌≡◌, refl, Bool, true, false, ◌&&◌, Option, none, some, List, [], ◌∷◌, arith,
  if◌then◌else◌, length,
}
use flob.Prelude.Text.{Text, text_eq, text_eq_iff}
use flob.Meta.{Labels}

-- memEntry: a pointer to a shared blob, with the store's own labels
pub record Entry : Type 0 where
  pub blob : ℕ
  pub labels : Labels
  pub added : ℕ

pub record Ref : Type 0 where
  pub store : Text
  pub digest : Text
  pub entry : Entry

abbrev pub names : Text → Text → Ref → Bool
names id d r = text_eq r.store id && text_eq r.digest d

-- es.Load
unfoldable pub find : Text → Text → List Ref → Option Entry
find id d [] = none
find id d (r ∷ es) = if names id d r then some r.entry else find id d es

-- es.Delete
unfoldable pub remove : Text → Text → List Ref → List Ref
remove id d [] = []
remove id d (r ∷ es) = if names id d r then es else r ∷ remove id d es

-- a store into the fields of an entry
unfoldable pub replace : Text → Text → Entry → List Ref → List Ref
replace id d e [] = []
replace id d e (r ∷ es) =
    if names id d r then record r { entry = e } ∷ es else r ∷ replace id d e es

abbrev pub bit : Bool → ℕ
bit true = 1
bit false = 0

-- how many entries hold a digest, over all stores
unfoldable pub holders : Text → List Ref → ℕ
holders d [] = 0
holders d (r ∷ es) = bit (text_eq r.digest d) + holders d es

-- how many entries one store has for a digest
unfoldable pub occurs : Text → Text → List Ref → ℕ
occurs id d [] = 0
occurs id d (r ∷ es) = bit (names id d r) + occurs id d es

module _ (id d : Text) where
  pub occurs-le-holders : (es : List Ref) → occurs id d es ≤ holders d es
  unfolding occurs holders
  occurs-le-holders [] = omega arith
  occurs-le-holders (r ∷ es) = ground (arith, occurs-le-holders es)

  pub occurs_of_find-none : (es : List Ref) → find id d es ≡ none → occurs id d es ≡ 0
  unfolding occurs find
  occurs_of_find-none [] h = refl
  occurs_of_find-none (r ∷ es) h = ground (arith, occurs_of_find-none es)

  pub occurs_of_find-some : (es : List Ref) (e : Entry) → find id d es ≡ some e → 1 ≤ occurs id d es
  unfolding occurs find
  occurs_of_find-some [] e h = ground arith
  occurs_of_find-some (r ∷ es) e h = ground (arith, occurs_of_find-some es e)

  pub holders-remove :
      (c : Text) (es : List Ref) (e : Entry)
      → find id d es ≡ some e
      → holders c (remove id d es) + bit (text_eq d c) ≡ holders c es
  unfolding holders find remove
  holders-remove c [] e h = ground arith
  holders-remove c (r ∷ es) e h = ground (
    arith,
    holders-remove c es e,
    text_eq_iff r.digest d,
    text_eq_iff d c,
    text_eq_iff r.digest c,
  )

  pub occurs-remove_le :
      (id' d' : Text) (es : List Ref) → occurs id' d' (remove id d es) ≤ occurs id' d' es
  unfolding occurs remove
  occurs-remove_le id' d' [] = omega arith
  occurs-remove_le id' d' (r ∷ es) = ground (arith, occurs-remove_le id' d' es)

  pub find_of_occurs-zero : (es : List Ref) → occurs id d es ≡ 0 → find id d es ≡ none
  unfolding occurs find
  find_of_occurs-zero [] h = refl
  find_of_occurs-zero (r ∷ es) h = ground (arith, find_of_occurs-zero es)

  -- With one entry at most for each key, removing a key hides it and leaves the others.
  pub find-remove :
      (id' d' : Text) (es : List Ref)
      → occurs id d es ≤ 1
      → find id' d' (remove id d es)
        ≡ (if text_eq id id' && text_eq d d' then none else find id' d' es)
  unfolding occurs find remove
  find-remove id' d' [] h = ground arith
  find-remove id' d' (r ∷ es) h = ground (
    arith,
    find-remove id' d' es,
    find_of_occurs-zero es,
    text_eq_iff r.store id,
    text_eq_iff r.digest d,
    text_eq_iff r.store id',
    text_eq_iff r.digest d',
    text_eq_iff id id',
    text_eq_iff d d',
  )

  pub find-replace :
      (id' d' : Text) (e e0 : Entry) (es : List Ref)
      → find id d es ≡ some e0
      → find id' d' (replace id d e es)
        ≡ (if text_eq id id' && text_eq d d' then some e else find id' d' es)
  unfolding find replace
  find-replace id' d' e e0 [] h = ground arith
  find-replace id' d' e e0 (r ∷ es) h = ground (
    arith,
    find-replace id' d' e e0 es,
    text_eq_iff r.store id,
    text_eq_iff r.digest d,
    text_eq_iff r.store id',
    text_eq_iff r.digest d',
    text_eq_iff id id',
    text_eq_iff d d',
  )

  pub holders-replace :
      (c : Text) (e : Entry) (es : List Ref) → holders c (replace id d e es) ≡ holders c es
  unfolding holders replace
  holders-replace c e [] = refl
  holders-replace c e (r ∷ es) = ground (arith, holders-replace c e es)

  pub occurs-replace :
      (id' d' : Text) (e : Entry) (es : List Ref)
      → occurs id' d' (replace id d e es) ≡ occurs id' d' es
  unfolding occurs replace
  occurs-replace id' d' e [] = refl
  occurs-replace id' d' e (r ∷ es) = ground (arith, occurs-replace id' d' e es)

-- A digest that no store has an entry for is held by none.
pub holders_of_find-none :
    (d : Text) (es : List Ref) → ((id : Text) → find id d es ≡ none) → holders d es ≡ 0
unfolding holders find
holders_of_find-none d [] h = refl
holders_of_find-none d (r ∷ es) h =
    let rest = holders_of_find-none d es (λ id.
      ground (arith, h id, h r.store, text_eq_iff r.store r.store, text_eq_iff r.digest d)) in
    ground (arith, rest, h r.store, text_eq_iff r.store r.store, text_eq_iff r.digest d)

pub length-holders : (d : Text) (es : List Ref) → holders d es ≤ length es
unfolding holders
length-holders d [] = omega arith
length-holders d (r ∷ es) = ground (arith, length-holders d es)

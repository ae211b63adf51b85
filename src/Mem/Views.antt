-- ===== src/Mem/Views.antt =====
-- What each operation of a store does to what every store of the pool shows.
use flob.Prelude.{
  ℕ, suc, ◌≡◌, Bool, not, ◌&&◌, Option, none, some, List, arith, if◌then◌else◌, Option-cases, inl,
  inr, is_some,
}
use flob.Prelude.Text.{Text, text_eq, text_eq_iff}
use flob.Errors.{already_exists}
use flob.Meta.{Meta, Added}
use flob.Mem.Refs.{find}
use flob.Mem.State.{Pool, load, bytes_at, IsValid, view}
use flob.Mem.Store.{obtain, attach, publish, allocate}

-- The bytes that a publication under a digest leaves: those of the blob that is there, if any.
unfoldable pub stored : Text → List ℕ → Pool → List ℕ
stored d bytes p = elim (load d p.bs) [ none ↦ bytes | some a ↦ bytes_at p a ]

-- What `obtain` comes to on a valid pool.
unfoldable pub obtained : Text → List ℕ → Pool → ℕ × Pool
obtained d bytes p = elim (load d p.bs) [ none ↦ (p.next, allocate d bytes p) | some a ↦ (a, p) ]

module _ (d : Text) (bytes : List ℕ) (p : Pool) (v : IsValid p) where
  pub obtain_lem : (fuel : ℕ) → obtain (suc fuel) d bytes p ≡ some (obtained d bytes p)
  unfolding obtain obtained
  obtain_lem fuel = elim (Option-cases (load d p.bs)) [
    | inl missing ↦ rw (missing, obtain, obtained)
    | inr (a, present) ↦ ground (arith, present, v.counted d a present)
  ]

  view-obtained : (id c : Text) → view (obtained d bytes p).1 id c ≡ view p id c
  unfolding view obtained
  view-obtained id c = elim (Option-cases (load d p.bs)) [
    | inr (a, present) ↦ rw (present, obtained)
    | inl missing ↦ elim (Option-cases (find id c p.es)) [
      | inl absent ↦ ground (arith, missing, absent)
      | inr (e, found) ↦
          ground (arith, missing, found, v.allocated c e.blob (v.linked id c e found))
    ]
  ]

  bytes-obtained : bytes_at (obtained d bytes p).1 (obtained d bytes p).0 ≡ stored d bytes p
  unfolding stored obtained
  bytes-obtained = elim (Option-cases (load d p.bs)) [
    | inr (a, present) ↦ rw (present, obtained, stored)
    | inl missing ↦ ground (arith, missing)
  ]

abbrev pub same_key : Text → Text → Text → Text → Bool
same_key id d id' d' = text_eq id id' && text_eq d d'

-- `attach` shows the blob under the store's new entry, and nothing else.
pub view-attach :
    (id : Text) (m : Meta) (now a : ℕ) (p : Pool) (id' d' : Text)
    → view (attach id m now a p).1 id' d' ≡ (
        if same_key id m.digest id' d' && not (is_some (view p id m.digest))
        then some (record { bytes = bytes_at p a; labels = m.labels; added = now })
        else view p id' d')
unfolding view attach find
view-attach id m now a p id' d' = ground (arith, text_eq_iff id id', text_eq_iff m.digest d')

-- The result of `attach` by what the store shows.
pub added-attach :
    (id : Text) (m : Meta) (now a : ℕ) (p : Pool)
    → (attach id m now a p).0
      ≡ (m, if is_some (view p id m.digest) then some already_exists else none)
unfolding view attach
added-attach id m now a p = ground arith

-- What `publish` answers and what the stores then show, by what they showed.
abbrev pub IsPublished : Text → Meta → ℕ → List ℕ → Pool → Option (Added × Pool) → Type 0
IsPublished id m now bytes p o =
    (p' : Pool) × (o
      ≡ some ((m, if is_some (view p id m.digest) then some already_exists else none), p'))
    × ((id' d' : Text)
        → view p' id' d' ≡ (
            if same_key id m.digest id' d' && not (is_some (view p id m.digest))
            then some (record { bytes = stored m.digest bytes p; labels = m.labels; added = now })
            else view p id' d'))

pub publish-IsPublished :
    (fuel : ℕ) (id : Text) (m : Meta) (now : ℕ) (bytes : List ℕ) (p : Pool)
    → IsValid p
    → IsPublished id m now bytes p (publish (suc fuel) id m now bytes p)
unfolding publish
publish-IsPublished fuel id m now bytes p v =
    let q = obtained m.digest bytes p in
    let shows = view-obtained m.digest bytes p v in
    (
      (attach id m now q.0 q.1).1,
      rw (obtain_lem m.digest bytes p v fuel, publish)
          (cc (added-attach id m now q.0 q.1, shows id m.digest)),
      λ id' d'. cc (
        view-attach id m now q.0 q.1 id' d',
        shows id m.digest,
        shows id' d',
        bytes-obtained m.digest bytes p v,
      ),
    )

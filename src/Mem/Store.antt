-- ===== src/Mem/Store.antt =====
-- The operations of MemStore, each on the whole pool and the store's namespace ID.
use flob.Prelude.{
  ℕ, ◌+◌, Bool, true, false, Option, none, some, List, [], ◌∷◌, length, ◌==◌, zero, suc,
  if◌then◌else◌,
}
use flob.Prelude.Text.{Text, text_eq, is_empty}
use flob.Prelude.Int.{pos}
use flob.Errors.{Error, not_exist, already_exists, digest_mismatch, incompatible_store}
use flob.Hashing.{Hashing, sanitize, from_bytes}
use flob.Meta.{Meta, Labels, Call, Source, Added, no_meta}
use flob.Mem.Refs.{find, remove, replace}
use flob.Mem.State.{
  Pool, update, load, delete, increment, decrement, refs_at, bytes_at, Content, view,
}

abbrev contains_store : Text → List Text → Bool
contains_store id [] = false
contains_store id (s ∷ ss) = if text_eq s id then true else contains_store id ss

-- MemStores.Use
unfoldable pub use_store : Text → Pool → Pool
use_store id p = if contains_store id p.ss then p else record p { ss = id ∷ p.ss }

abbrev pub allocate : Text → List ℕ → Pool → Pool
allocate d bytes p = record p {
  heap = update p.heap p.next (record { bytes = bytes; refs = 0 });
  next = p.next + 1;
  bs = (d, p.next) ∷ p.bs;
}

-- The loop of `publish`: the blob that `bs` has, or a new one, which counts nothing yet. A blob with
-- no reference is being deleted, and the loop tries again; `none` means that the fuel ran out.
unfoldable pub obtain : ℕ → Text → List ℕ → Pool → Option (ℕ × Pool)
obtain zero d bytes p = none
obtain (suc fuel) d bytes p = elim (load d p.bs) [
  | none ↦ some (p.next, allocate d bytes p)
  | some a ↦ elim (refs_at p a == 0) [ true ↦ obtain fuel d bytes p | false ↦ some (a, p) ]
]

abbrev pub bump : (ℕ → ℕ) → ℕ → Pool → Pool
bump f a p = record p {
  heap = update p.heap a (record { bytes = bytes_at p a; refs = f (refs_at p a) });
}

-- The rest of `publish`, under the blob's lock: es.LoadOrStore, then refs++.
unfoldable pub attach : Text → Meta → ℕ → ℕ → Pool → Added × Pool
unfolding increment
attach id m now a p = elim (find id m.digest p.es) [
  | some e ↦ ((m, some already_exists), p)
  | none ↦ (
    (m, none),
    bump increment a (record p {
      es =
          record {
            store = id;
            digest = m.digest;
            entry = record { blob = a; labels = m.labels; added = now };
          }
          ∷ p.es;
    }),
  )
]

unfoldable pub publish : ℕ → Text → Meta → ℕ → List ℕ → Pool → Option (Added × Pool)
unfolding obtain attach
publish fuel id m now bytes p = elim (obtain fuel m.digest bytes p) [
  | none ↦ none
  | some (a, p') ↦ some (attach id m now a p')
]

-- The end of `Add`: the bytes read are hashed and must have the digest that was asked for.
unfoldable pub add_bytes :
    Hashing → ℕ → Text → Text → Meta → ℕ → Source → Pool → Option (Added × Pool)
unfolding publish
add_bytes h fuel algo id m now r p = elim r.failure [
  | some e ↦ some ((m, some e), p)
  | none ↦
      let d = from_bytes h algo r.bytes in
      let sized : Meta = record m { size = pos (length r.bytes) } in
      if is_empty m.digest
      then publish fuel id (record sized { digest = d }) now r.bytes p
      else if text_eq m.digest d
      then publish fuel id sized now r.bytes p
      else some ((sized, some digest_mismatch), p)
]

-- MemStore.Add
unfoldable pub add : Hashing → ℕ → Text → ℕ → Meta → Source → Pool → Option (Added × Pool)
unfolding add_bytes
add h fuel id now m r p =
    if is_empty m.digest
    then add_bytes h fuel h.canonical id m now r p
    else let (e, d) = sanitize h m.digest in
      elim e [
        | some e ↦ some ((m, some e), p)
        | none ↦ elim (find id d p.es) [
          | some found ↦ some ((record m { digest = d }, some already_exists), p)
          | none ↦ add_bytes h fuel (h.algorithm d) id (record m { digest = d }) now r p
        ]
      ]

-- MemStore.Stat, and Open, whose reader is over the same bytes; `none` is ErrNotExist
unfoldable pub open_blob : Text → Text → Pool → Option Content
unfolding view
open_blob id d p = view p id d

-- MemStore.Label
unfoldable pub label : Text → Text → Labels → ℕ → Pool → Option Error × Pool
label id d labels now p = elim (find id d p.es) [
  | none ↦ (some not_exist, p)
  | some e ↦ (none, record p { es = replace id d (record e { labels = labels; added = now }) p.es })
]

-- MemStore.Erase after LoadAndDelete: the count falls, and the last reference takes the blob along.
unfoldable pub release : Text → ℕ → Pool → Pool
release d a p =
    let p' : Pool = bump decrement a p in
    if decrement (refs_at p a) == 0 then record p' { bs = delete d p'.bs } else p'

unfoldable pub erase : Text → Text → Pool → Pool
unfolding release
erase id d p = elim (find id d p.es) [
  | none ↦ p
  | some e ↦ release d e.blob (record p { es = remove id d p.es })
]

-- MemStore.Link once its arguments are checked, under the blob's lock: the source entry, which the
-- lock keeps, is shared with labels of its own. The context is asked again before the write.
unfoldable pub link_entry : Call → Text → Text → Text → Pool → Added × Pool
link_entry call id d from p =
    let m : Meta = record no_meta { digest = d } in
    elim (find from d p.es) [
      | none ↦ ((m, some not_exist), p)
      | some source ↦ elim (find id d p.es) [
        | some found ↦ ((m, some already_exists), p)
        | none ↦
            let linked : Meta = record m {
              size = pos (length (bytes_at p source.blob));
              labels = source.labels;
            } in
            elim (call.ctx_err 1) [
              | some e ↦ ((linked, some e), p)
              | none ↦ attach id linked call.now source.blob p
            ]
      ]
    ]

-- MemStore.Link from the store `from`, if that is a MemStore of the same pool (`same_pool`).
unfoldable pub link : Hashing → Call → Text → Text → Text → Bool → Pool → Added × Pool
unfolding link_entry attach
link h call id d from same_pool p = elim (call.ctx_err 0) [
  | some e ↦ ((no_meta, some e), p)
  | none ↦
      let (e, d') = sanitize h d in
      elim e [
        | some e ↦ ((no_meta, some e), p)
        | none ↦
            if same_pool
            then link_entry call id d' from p
            else ((record no_meta { digest = d' }, some incompatible_store), p)
      ]
]

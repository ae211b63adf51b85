-- ===== src/Mem/Effects.antt =====
-- What Erase, Label and Link of a MemStore show, and what Erase gives back.
use flob.Prelude.{
  ℕ, ◌≡◌, true, false, Option, none, some, [], arith, length, if◌then◌else◌, Option-cases, inl, inr,
  is_some, ◌↔◌,
}
use flob.Prelude.Text.{Text, text_eq, text_eq_iff, text_eq_refl}
use flob.Prelude.Int.{pos}
use flob.Errors.{already_exists, not_exist}
use flob.Hashing.{Hashing, sanitize}
use flob.Meta.{Labels, Call, Added, no_meta}
use flob.Mem.Refs.{find, find-remove, find-replace, holders_of_find-none}
use flob.Mem.State.{Pool, IsValid, view, load, Content}
use flob.Mem.Store.{erase, label, link, link_entry, attach, release}
use flob.Mem.Views.{same_key}
use flob.Mem.Invariant.{no_entry}
use flob.Mem.Keeping.{erase-IsValid}

-- After Erase on a valid pool the store no longer shows the digest; every other store and digest
-- is as it was.
pub view-erase :
    (id d : Text) (p : Pool) (id' d' : Text)
    → IsValid p
    → view (erase id d p) id' d' ≡ (if same_key id d id' d' then none else view p id' d')
unfolding view erase release
view-erase id d p id' d' v =
    ground
      (arith, find-remove id d id' d' p.es (v.unique id d), text_eq_iff id id', text_eq_iff d d')

-- Label replaces the labels and the time of the store's entry, and answers ErrNotExist, changing
-- nothing, exactly if the store does not show the digest; nothing else changes.
pub view-label :
    (id d : Text) (labels : Labels) (now : ℕ) (p : Pool) (id' d' : Text)
    → ((label id d labels now p).0 ≡ (if is_some (view p id d) then none else some not_exist))
      × (view (label id d labels now p).1 id' d' ≡ (elim (view p id d) [
        | none ↦ view p id' d'
        | some c ↦
            if same_key id d id' d'
            then some (record { bytes = c.bytes; labels = labels; added = now })
            else view p id' d'
      ]))
unfolding view label
view-label id d labels now p id' d' = elim (Option-cases (find id d p.es)) [
  | inl missing ↦ (ground (arith, missing), ground (arith, missing))
  | inr (e, found) ↦ (
    ground (arith, found),
    ground (
      arith,
      found,
      find-replace id d id' d' (record e { labels = labels; added = now }) e p.es found,
    ),
  )
]

-- On a valid pool a digest has no blob exactly when no store shows it.
unkept_iff :
    (d : Text) (p : Pool) → IsValid p → (load d p.bs ≡ none) ↔ ((id : Text) → view p id d ≡ none)
unfolding view
unkept_iff d p v = (
  λ missing id. ground (arith, no_entry d [] p v missing id),
  λ hidden. elim (Option-cases (load d p.bs)) [
    | inl missing ↦ missing
    | inr (a, kept) ↦ absurd (
        ground (
          arith,
          v.counted d a kept,
          holders_of_find-none d p.es (λ id. ground (arith, hidden id)),
        ))
  ],
)

-- Erasing the last reference gives the bytes back: on a valid pool in which no other store shows
-- a digest, an Erase leaves no blob for it in the pool.
pub erase_frees :
    (id d : Text) (p : Pool)
    → IsValid p
    → ((id' : Text) → text_eq id id' ≡ false → view p id' d ≡ none)
    → load d (erase id d p).bs ≡ none
erase_frees id d p v others =
    (unkept_iff d (erase id d p) (erase-IsValid id d p v)).1
      λ id'. ground (arith, view-erase id d p id' d v, others id', text_eq_refl d)

-- What Link answers, by what the two stores show of the digest.
abbrev pub link_answer : Text → Option Content → Option Content → Added
link_answer d none there = (record no_meta { digest = d }, some not_exist)
link_answer d (some c) (some c') = (record no_meta { digest = d }, some already_exists)
link_answer d (some c) none =
    (record { digest = d; labels = c.labels; size = pos (length c.bytes) }, none)

-- What the destination then shows of it.
abbrev pub link_shown : ℕ → Option Content → Option Content → Option Content
link_shown now none there = there
link_shown now (some c) (some c') = some c'
link_shown now (some c) none = some (record c { added = now })

module _ (call : Call) (id d from : Text) (p : Pool) (live : call.ctx_err 1 ≡ none) where
  answer-link_entry : (link_entry call id d from p).0 ≡ link_answer d (view p from d) (view p id d)
  unfolding link_entry attach view
  answer-link_entry = ground (arith, live)

  shown-link_entry :
      (id' d' : Text)
      → view (link_entry call id d from p).1 id' d' ≡ (
          if same_key id d id' d'
          then link_shown call.now (view p from d) (view p id d)
          else view p id' d')
  unfolding link_entry attach view find
  shown-link_entry id' d' = ground (arith, live, text_eq_iff id id', text_eq_iff d d')

-- Link within one pool, with a live context and a valid digest: a source that does not show the
-- digest is ErrNotExist even where the destination shows it, a destination that does is
-- ErrAlreadyExists and keeps what it shows, and otherwise it shows the source's bytes and labels.
-- No other store and digest changes.
pub link_lem :
    (h : Hashing) (call : Call) (id d from : Text) (p : Pool) (c id' d' : Text)
    → call.ctx_err 0 ≡ none
    → call.ctx_err 1 ≡ none
    → (sanitize h d).0 ≡ none
    → (sanitize h d).1 ≡ c
    → ((link h call id d from true p).0 ≡ link_answer c (view p from c) (view p id c))
      × (view (link h call id d from true p).1 id' d' ≡ (
          if same_key id c id' d'
          then link_shown call.now (view p from c) (view p id c)
          else view p id' d'))
unfolding link
link_lem h call id d from p c id' d' before live valid same =
    rw (before, valid, link, ← same)
      (
        answer-link_entry call id (sanitize h d).1 from p live,
        shown-link_entry call id (sanitize h d).1 from p live id' d',
      )

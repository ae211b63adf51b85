-- ===== src/Mem/Keeping.antt =====
-- Label, Erase and Link of mem.go on a valid pool.
use flob.Prelude.{
  ℕ, ◌+◌, ◌≤◌, ◌<◌, ◌≡◌, Bool, true, false, some, arith, ◌==◌, Bool-cases, Option-cases, inl, inr,
}
use flob.Prelude.Text.{Text, text_eq, text_eq_iff}
use flob.Hashing.{Hashing, sanitize}
use flob.Meta.{Labels, Call}
use flob.Mem.Refs.{
  Entry, find, remove, bit, holders, occurs, occurs_of_find-some, holders-remove, occurs-remove_le,
  find-remove, find-replace, holders-replace, occurs-replace, occurs-le-holders,
}
use flob.Mem.State.{Pool, decrement, refs_at, word, IsValid, load-delete}
use flob.Mem.Store.{label, release, erase, link_entry, link}
use flob.Mem.Invariant.{IsReady, attach-IsValid, HasRoom}

-- Label keeps a valid pool valid.
pub label-IsValid :
    (id d : Text) (labels : Labels) (now : ℕ) (p : Pool)
    → IsValid p
    → IsValid (label id d labels now p).1
unfolding label
label-IsValid id d labels now p v = elim (Option-cases (find id d p.es)) [
  | inl missing ↦ rw (missing, label) v
  | inr (e, found) ↦
      rw (found, label)
        (record {
          unique = λ id' c. rw occurs-replace (v.unique id' c);
          linked = λ id' c e' h. ground (
            arith,
            v.linked id d e found,
            v.linked id' c e',
            find-replace id d id' c (record e { labels = labels; added = now }) e p.es found,
            text_eq_iff d c,
          );
          counted = λ c x h. rw holders-replace (v.counted c x h);
          apart = v.apart;
          allocated = v.allocated;
        })
]

decrement_pos : (n : ℕ) → 0 < n → n < word → decrement n + 1 ≡ n
unfolding decrement
decrement_pos n h k = omega arith

module _ (id d : Text) (p : Pool) (v : IsValid p) (e : Entry)
    (found : find id d p.es ≡ some e) where
  -- What is left of the entries of a digest after one of them is removed.
  left_over : (c : Text) → holders c (remove id d p.es) + bit (text_eq d c) ≡ holders c p.es
  left_over c = holders-remove id d c p.es e found

  linked_left :
      (id' c : Text) (e' : Entry)
      → find id' c (remove id d p.es) ≡ some e'
      → (find id' c p.es ≡ some e')
  linked_left id' c e' h = ground (arith, find-remove id d id' c p.es (v.unique id d))

  unique_left : (id' c : Text) → occurs id' c (remove id d p.es) ≤ 1
  unique_left id' c = omega (arith, occurs-remove_le id d id' c p.es, v.unique id' c)

  counts : (refs_at p e.blob ≡ holders d p.es) × (0 < refs_at p e.blob) × (refs_at p e.blob < word)
  counts = v.counted d e.blob (v.linked id d e found)

  none_left :
      (decrement (refs_at p e.blob) == 0) ≡ true
      → (c : Text) → text_eq d c ≡ true
      → holders c (remove id d p.es) ≡ 0
  none_left last c same =
      ground (arith, left_over c, counts, decrement_pos (refs_at p e.blob), text_eq_iff d c)

  -- The last reference of a digest takes its blob along.
  release_last :
      (decrement (refs_at p e.blob) == 0) ≡ true
      → IsValid (release d e.blob (record p { es = remove id d p.es }))
  unfolding release
  release_last last = rw last (record {
    unique = unique_left;
    linked = λ id' c e' h. ground (
      arith,
      load-delete d c p.bs,
      v.linked id' c e' (linked_left id' c e' h),
      none_left last c,
      occurs_of_find-some id' c (remove id d p.es) e' h,
      occurs-le-holders id' c (remove id d p.es),
    );
    counted = λ c x h. ground (
      arith,
      load-delete d c p.bs,
      v.counted c x,
      left_over c,
      v.apart c d x,
      v.linked id d e found,
      text_eq_iff d c,
    );
    apart =
        λ c c' x h h'. ground (arith, load-delete d c p.bs, load-delete d c' p.bs, v.apart c c' x);
    allocated = λ c x h. ground (arith, load-delete d c p.bs, v.allocated c x);
  })

  release_more :
      (decrement (refs_at p e.blob) == 0) ≡ false
      → IsValid (release d e.blob (record p { es = remove id d p.es }))
  unfolding release
  release_more more = rw more (record {
    unique = unique_left;
    linked = λ id' c e' h. v.linked id' c e' (linked_left id' c e' h);
    counted = λ c x h. ground (
      arith,
      v.counted c x h,
      left_over c,
      v.apart c d x h,
      counts,
      v.linked id d e found,
      text_eq_iff d c,
      decrement_pos (refs_at p e.blob),
    );
    apart = v.apart;
    allocated = v.allocated;
  })

-- Erase keeps a valid pool valid: the counts stay exact, and a blob goes with its last reference.
pub erase-IsValid : (id d : Text) (p : Pool) → IsValid p → IsValid (erase id d p)
unfolding erase
erase-IsValid id d p v = elim (Option-cases (find id d p.es)) [
  | inl missing ↦ rw (missing, erase) v
  | inr (e, found) ↦
      rw (found, erase)
        (elim (Bool-cases (decrement (refs_at p e.blob) == 0)) [
          | inl last ↦ release_last id d p v e found last
          | inr more ↦ release_more id d p v e found more
        ])
]

-- A blob that an entry of a store points to is ready for one more reference.
found-IsReady :
    (from d : Text) (p : Pool) (e : Entry)
    → IsValid p
    → find from d p.es ≡ some e
    → IsReady d e.blob p
found-IsReady from d p e v found = record {
  unique = v.unique;
  linked = v.linked;
  here = v.linked from d e found;
  counted = λ c x h. ground (arith, v.counted c x h);
  apart = v.apart;
  allocated = v.allocated;
}

link_entry-IsValid :
    (call : Call) (id d from : Text) (p : Pool)
    → IsValid p
    → HasRoom p
    → IsValid (link_entry call id d from p).1
unfolding link_entry
link_entry-IsValid call id d from p v room = elim (Option-cases (find from d p.es)) [
  | inl absent ↦ rw (absent, link_entry) v
  | inr (source, found) ↦ elim (Option-cases (find id d p.es)) [
    | inr (e, old) ↦ rw (found, old, link_entry) v
    | inl new ↦ elim (Option-cases (call.ctx_err 1)) [
      | inr (e, ended) ↦ rw (found, new, ended, link_entry) v
      | inl live ↦
          rw (found, new, live, link_entry)
            (attach-IsValid id _ call.now source.blob p (found-IsReady from d p source v found)
              (room d))
    ]
  ]
]

-- Link keeps a valid pool with room for one more reference to each digest valid, whatever it
-- answers.
pub link-IsValid :
    (h : Hashing) (call : Call) (id d from : Text) (same : Bool) (p : Pool)
    → IsValid p
    → HasRoom p
    → IsValid (link h call id d from same p).1
unfolding link
link-IsValid h call id d from same p v room = elim (Option-cases (call.ctx_err 0)) [
  | inr (e, ended) ↦ rw (ended, link) v
  | inl live ↦ elim (Option-cases (sanitize h d).0) [
    | inr (e, bad) ↦ rw (live, bad, link) v
    | inl good ↦ elim (Bool-cases same) [
      | inl ours ↦
          rw (live, good, ours, link) (link_entry-IsValid call id (sanitize h d).1 from p v room)
      | inr theirs ↦ rw (live, good, theirs, link) v
    ]
  ]
]

-- ===== src/Mem/Invariant.antt =====
-- Add and publish of mem.go on a valid pool.
use flob.Prelude.{
  ℕ, suc, ◌+◌, ◌≤◌, ◌<◌, ◌≡◌, refl, Option, none, some, List, ◌∷◌, arith, Bool-cases, Option-cases,
  inl, inr,
}
use flob.Prelude.Text.{Text, text_eq, text_eq_iff, text_eq_refl, is_empty}
use flob.Hashing.{Hashing, sanitize, from_bytes}
use flob.Meta.{Meta, Source}
use flob.Mem.Refs.{
  Entry, find, bit, holders, occurs, occurs_of_find-none, occurs_of_find-some, holders_of_find-none,
  occurs-le-holders,
}
use flob.Mem.State.{Pool, update, load, refs_at, word, IsValid}
use flob.Mem.Store.{obtain, attach, publish, add_bytes, add}

-- `publish` between its two parts: as `IsValid`, but the blob of `d` is `a`, and may count nothing.
pub record IsReady (d : Text) (a : ℕ) (p : Pool) : Type 0 where
  pub unique : (id c : Text) → occurs id c p.es ≤ 1
  pub linked : (id c : Text) (e : Entry) → find id c p.es ≡ some e → load c p.bs ≡ some e.blob
  pub here : load d p.bs ≡ some a
  pub counted :
      (c : Text) (x : ℕ)
      → load c p.bs ≡ some x
      → (refs_at p x ≡ holders c p.es)
        × (0 < refs_at p x + bit (text_eq c d))
        × (refs_at p x < word)
  pub apart : (c c' : Text) (x : ℕ) → load c p.bs ≡ some x → load c' p.bs ≡ some x → c ≡ c'
  pub allocated : (c : Text) (x : ℕ) → load c p.bs ≡ some x → x < p.next

module _ (d : Text) (bytes : List ℕ) (p : Pool) (v : IsValid p) where
  -- A digest that `bs` does not have has no entry.
  pub no_entry : load d p.bs ≡ none → (id : Text) → find id d p.es ≡ none
  no_entry missing id = elim (Option-cases (find id d p.es)) [
    | inl e ↦ e
    | inr (e, found) ↦ cc (v.linked id d e found)
  ]

  missing-IsReady :
      load d p.bs ≡ none
      → (fuel : ℕ)
      → (p' : Pool) × (obtain (suc fuel) d bytes p ≡ some (p.next, p'))
        × IsReady d p.next p'
        × (p'.es ≡ p.es)
  unfolding obtain load
  missing-IsReady missing fuel = (
    record p {
      heap = update p.heap p.next (record { bytes = bytes; refs = 0 });
      next = p.next + 1;
      bs = (d, p.next) ∷ p.bs;
    },
    rw (missing, obtain),
    record {
      unique = v.unique;
      linked = λ id c e h. ground (arith, v.linked id c e h, text_eq_iff d c);
      here = rw (text_eq_refl d);
      counted = λ c x h. ground (
        arith,
        v.counted c x,
        v.allocated c x,
        text_eq_iff d c,
        text_eq_iff c d,
        holders_of_find-none d p.es (no_entry missing),
      );
      apart = λ c c' x h h'. ground (
        arith,
        v.apart c c' x,
        v.allocated c x,
        v.allocated c' x,
        text_eq_iff d c,
        text_eq_iff d c',
      );
      allocated = λ c x h. ground (arith, v.allocated c x);
    },
    refl,
  )

  present-IsReady :
      (a : ℕ)
      → load d p.bs ≡ some a
      → (fuel : ℕ) → (obtain (suc fuel) d bytes p ≡ some (a, p)) × IsReady d a p
  unfolding obtain
  present-IsReady a present fuel = (
    ground (arith, present, v.counted d a present),
    record {
      unique = v.unique;
      linked = v.linked;
      here = present;
      counted = λ c x h. ground (arith, v.counted c x h);
      apart = v.apart;
      allocated = v.allocated;
    },
  )

  -- With any fuel the loop ends at once, and leaves the entries alone.
  obtain-IsReady :
      (fuel : ℕ)
      → (a : ℕ) × (p' : Pool) × (obtain (suc fuel) d bytes p ≡ some (a, p'))
        × IsReady d a p'
        × (p'.es ≡ p.es)
  obtain-IsReady fuel = elim (Option-cases (load d p.bs)) [
    | inl missing ↦
        let (p', e, ready, same) = missing-IsReady missing fuel in (p.next, p', e, ready, same)
    | inr (a, present) ↦ let (e, ready) = present-IsReady a present fuel in (a, p, e, ready, refl)
  ]

module _ (id : Text) (m : Meta) (now a : ℕ) (p : Pool) (r : IsReady m.digest a p) where
  -- The store has the digest already: its entry is the reference that the blob counts.
  attach_found : (e : Entry) → find id m.digest p.es ≡ some e → IsValid (attach id m now a p).1
  unfolding attach
  attach_found e found =
      rw (found, attach)
        (record {
          unique = r.unique;
          linked = r.linked;
          counted = λ c x h. ground (
            arith,
            r.counted c x h,
            text_eq_iff c m.digest,
            occurs_of_find-some id m.digest p.es e,
            occurs-le-holders id m.digest p.es,
          );
          apart = r.apart;
          allocated = r.allocated;
        })

  attach_new :
      find id m.digest p.es ≡ none
      → holders m.digest p.es + 1 < word
      → IsValid (attach id m now a p).1
  unfolding attach holders occurs find
  attach_new missing room =
      rw (missing, attach)
        (record {
          unique = λ id' c. ground (
            arith,
            r.unique id' c,
            occurs_of_find-none id m.digest p.es missing,
            text_eq_iff id id',
            text_eq_iff m.digest c,
          );
          linked = λ id' c e h.
              ground (arith, r.linked id' c e, r.here, text_eq_iff id id', text_eq_iff m.digest c);
          counted = λ c x h. ground (
            arith,
            r.counted c x h,
            r.here,
            r.counted m.digest a r.here,
            r.apart c m.digest x h,
            text_eq_iff c m.digest,
            text_eq_iff m.digest c,
          );
          apart = r.apart;
          allocated = r.allocated;
        })

pub attach-IsValid :
    (id : Text) (m : Meta) (now a : ℕ) (p : Pool)
    → IsReady m.digest a p
    → holders m.digest p.es + 1 < word
    → IsValid (attach id m now a p).1
attach-IsValid id m now a p r room = elim (Option-cases (find id m.digest p.es)) [
  | inl missing ↦ attach_new id m now a p r missing room
  | inr (e, found) ↦ attach_found id m now a p r e found
]

-- A run that returns, with a valid pool
abbrev pub Returns {ℓ} : {A : Type ℓ} → Option (A × Pool) → Type ℓ
Returns {A} o = (a : A) × (p' : Pool) × (o ≡ some (a, p')) × IsValid p'

pub publish-Returns :
    (fuel : ℕ) (id : Text) (m : Meta) (now : ℕ) (bytes : List ℕ) (p : Pool)
    → IsValid p
    → holders m.digest p.es + 1 < word
    → Returns (publish (suc fuel) id m now bytes p)
unfolding publish
publish-Returns fuel id m now bytes p v room =
    let (a, p', e, ready, same) = obtain-IsReady m.digest bytes p v fuel in
    (
      (attach id m now a p').0,
      (attach id m now a p').1,
      rw (e, publish),
      attach-IsValid id m now a p' ready (rw same room),
    )

-- Room for one more reference to any digest.
abbrev pub HasRoom : Pool → Type 0
HasRoom p = (d : Text) → holders d p.es + 1 < word

add_bytes-Returns :
    (h : Hashing) (fuel : ℕ) (algo id : Text) (m : Meta) (now : ℕ) (r : Source) (p : Pool)
    → IsValid p
    → HasRoom p
    → Returns (add_bytes h (suc fuel) algo id m now r p)
unfolding add_bytes
add_bytes-Returns h fuel algo id m now r p v room = elim (Option-cases r.failure) [
  | inr (e, failed) ↦ rw failed (_, p, refl, v)
  | inl whole ↦ elim (Bool-cases (is_empty m.digest)) [
    | inl empty ↦ rw (whole, empty) (publish-Returns fuel id _ now r.bytes p v (room _))
    | inr given ↦ elim (Bool-cases (text_eq m.digest (from_bytes h algo r.bytes))) [
      | inl same ↦ rw (whole, given, same) (publish-Returns fuel id _ now r.bytes p v (room _))
      | inr other ↦ rw (whole, given, other) (_, p, refl, v)
    ]
  ]
]

-- On a valid pool with room for one more reference to each digest, Add returns whatever it is
-- given, within one round of its loop, and keeps the pool valid.
pub add-Returns :
    (h : Hashing) (fuel : ℕ) (id : Text) (now : ℕ) (m : Meta) (r : Source) (p : Pool)
    → IsValid p
    → HasRoom p
    → Returns (add h (suc fuel) id now m r p)
unfolding add
add-Returns h fuel id now m r p v room = elim (Bool-cases (is_empty m.digest)) [
  | inl empty ↦ rw empty (add_bytes-Returns h fuel _ id m now r p v room)
  | inr given ↦ elim (Option-cases (sanitize h m.digest).0) [
    | inr (e, bad) ↦ rw (given, bad) (_, p, refl, v)
    | inl good ↦ elim (Option-cases (find id (sanitize h m.digest).1 p.es)) [
      | inr (found, old) ↦ rw (given, good, old) (_, p, refl, v)
      | inl new ↦ rw (given, good, new) (add_bytes-Returns h fuel _ id _ now r p v room)
    ]
  ]
]

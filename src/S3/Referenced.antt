-- ===== src/S3/Referenced.antt =====
-- The first loop of Reclaim in reclaim.go, over the references.
use mathlib.Core.Path.{subst}
use flob.Prelude.{
  ℕ, ◌<◌, ◌≡◌, refl, sym, ap, ◌∙◌, true, false, Option, none, some, List, [], ◌∷◌, ◌++◌, is_some,
  ◌⊎◌, inl, inr, arith, Any,
}
use flob.Prelude.Text.{Text, codes, contains, contains-cons, contains_head}
use flob.Hashing.{Hashing}
use flob.Namespace.Base64.{AllBytes}
use flob.Mem.Staging.{ok}
use flob.S3.Keys.{ref_key, parse_ref_key}
use flob.S3.Named.{DigestLaws, parse_ref_key-ref_key}
use flob.S3.Service.{Service, ServiceLaws, Object, Listed, Page, Listing}
use flob.S3.Requests.{State}
use flob.S3.Probe.{Config}
use flob.S3.Copied.{CopyingLaws}
use flob.S3.Listing.{next, decode_key, page_entries}
use flob.S3.Listed.{Any-append, ListingLaws, Holds, Ran, list_refs_rule}
use flob.S3.Reclaiming.{Reclaimed, Seen, see_ref, at_seen, seen_fails, refs_loop}
use flob.S3.Entries.{Known}

module _ {W : Type 0} (svc : Service W) (object : W → Text → Option Object)
    (laws : ServiceLaws svc object) (copying : CopyingLaws svc object)
    (listing : ListingLaws svc object) (h : Hashing) (names : DigestLaws h) (c : Config)
    (some_part : 0 < c.copy_part) where
  abbrev pub Knows : List Text → State W → Type 0
  Knows refs s = Known svc object laws copying h names c some_part refs s

  -- The loop over the references has seen each of them, if it comes to an end.
  module _ (s : State W) where
    abbrev HasRef : Text → Text → Type 0
    HasRef d id = is_some (object s.world (ref_key h c.prefix d id)) ≡ true

    abbrev pub IsAsBefore : State W → Type 0
    IsAsBefore t = (k : Text) → object t.world k ≡ object s.world k

    abbrev Each : (Text → Text → Type 0) → Type 0
    Each P = (d id : Text) → h.validate d ≡ none → AllBytes id → HasRef d id → P d id

    abbrev From : Text → Seen W → Type 0
    From token y =
        IsAsBefore y.state
        × Each (λ d id.
          (contains y.refs d ≡ true) ⊎ (listing.covers token (ref_key h c.prefix d id) ≡ true))

    abbrev ToCome : Page → List Listed → Text → Text → Type 0
    ToCome page es d id =
        Any (λ e. decode_key page.encoding e.key ≡ some (ref_key h c.prefix d id)) es
        ⊎ (page.truncated ≡ true) × (listing.covers page.next (ref_key h c.prefix d id) ≡ true)

    abbrev Rest : Page → List Listed → Seen W → Type 0
    Rest page es y =
        IsAsBefore y.state × Each (λ d id. (contains y.refs d ≡ true) ⊎ ToCome page es d id)

    abbrev pub AllSeen : Seen W → Type 0
    AllSeen y = IsAsBefore y.state × Knows y.refs s

    -- The entry of a reference shows its digest.
    found_ref :
        (page : Page) (entry : Listed) (k d id : Text)
        → h.validate d ≡ none
        → AllBytes id
        → decode_key page.encoding entry.key ≡ some k
        → decode_key page.encoding entry.key ≡ some (ref_key h c.prefix d id)
        → parse_ref_key h c.prefix k ≡ some (d, id)
    found_ref page entry k d id valid bytes decoded named =
        let same : k ≡ ref_key h c.prefix d id = ground (arith, decoded, named) in
        ap (parse_ref_key h c.prefix) same ∙ parse_ref_key-ref_key h names c.prefix d id valid bytes

    saw :
        (page : Page) (entry : Listed) (es : List Listed) (k : Text) (y : Seen W)
        → decode_key page.encoding entry.key ≡ some k
        → Rest page (entry ∷ es) y
        → Holds (Rest page es) (λ r. IsAsBefore r.1) (see_ref svc h c (record entry { key = k }) y)
    unfolding see_ref
    saw page entry es k y decoded (same, each) = go (parse_ref_key h c.prefix k) refl
      where
        go :
            (o : Option (Text × Text))
            → parse_ref_key h c.prefix k ≡ o
            → Holds
                (Rest page es)
                (λ (r : Reclaimed × State W). IsAsBefore r.1)
                (elim o [ none ↦ next y | some (d, id) ↦ next (record y { refs = d ∷ y.refs }) ])
        go none parsed = (
          same,
          λ d id valid bytes there. elim (each d id valid bytes there) [
            | inl seen ↦ inl seen
            | inr (inl (inl here)) ↦
                absurd
                  (ground (arith, parsed, found_ref page entry k d id valid bytes decoded here))
            | inr (inl (inr later)) ↦ inr (inl later)
            | inr (inr further) ↦ inr (inr further)
          ],
        )
        go (some (d', id')) parsed = (
          same,
          λ d id valid bytes there. elim (each d id valid bytes there) [
            | inl seen ↦ inl (contains-cons y.refs d d' seen)
            | inr (inl (inl here)) ↦
                let e : d ≡ d' =
                  ground (arith, parsed, found_ref page entry k d id valid bytes decoded here) in
                inl (subst (λ x. contains (d' ∷ y.refs) x ≡ true) (sym e) (contains_head y.refs d'))
            | inr (inl (inr later)) ↦ inr (inl later)
            | inr (inr further) ↦ inr (inr further)
          ],
        )

    begun :
        (token : Text) (y : Seen W) (answer : Listing) (page : Page)
        → (svc.list (c.prefix ++ codes "refs/") (codes "") token y.state.world).0 ≡ ok answer
        → answer.status ≡ 200
        → answer.page ≡ ok page
        → From token y
        → Rest page (page_entries page) (
            at_seen svc h c
              (svc.list (c.prefix ++ codes "refs/") (codes "") token y.state.world).1
              y)
    unfolding page_entries ref_key
    begun token y answer page eq status eq' (same, each) = (
      λ k. listing.list_same (c.prefix ++ codes "refs/") (codes "") token y.state.world k ∙ same k,
      λ d id valid bytes there. elim (each d id valid bytes there) [
        | inl seen ↦ inl seen
        | inr covered ↦
            elim (listing.list_complete (c.prefix ++ codes "refs/") token y.state.world answer page
              _ eq status eq' (ap is_some (same (ref_key h c.prefix d id)) ∙ there) covered) [
                | inl listed ↦ inr (inl (Any-append _ page.contents _ listed))
                | inr further ↦ inr (inr further)
              ]
      ],
    )

    over : (page : Page) (y : Seen W) → page.truncated ≡ false → Rest page [] y → AllSeen y
    over page y last (same, each) = (
      same,
      λ d id valid bytes there. elim (each d id valid bytes there) [
        | inl seen ↦ seen
        | inr (inl none_left) ↦ elim none_left [ ]
        | inr (inr (more, covered)) ↦ absurd (ground (arith, last, more))
      ],
    )

    turned : (page : Page) (y : Seen W) → page.truncated ≡ true → Rest page [] y → From page.next y
    turned page y more (same, each) = (
      same,
      λ d id valid bytes there. elim (each d id valid bytes there) [
        | inl seen ↦ inl seen
        | inr (inl none_left) ↦ elim none_left [ ]
        | inr (inr (_, covered)) ↦ inr covered
      ],
    )

    pub refs-AllSeen :
        (pages : ℕ)
        → Ran AllSeen
            (λ r. IsAsBefore r.1)
            (λ y. IsAsBefore y.state)
            (refs_loop svc h c pages (record { refs = []; state = s }))
    refs-AllSeen pages =
        list_refs_rule svc (λ y. y.state.world) (at_seen svc h c) (seen_fails svc h c)
          (see_ref svc h c) (c.prefix ++ codes "refs/") (codes "") From Rest AllSeen
          (λ y. IsAsBefore y.state) (λ r. IsAsBefore r.1) (λ page es e y rest. rest.0) saw begun
          (λ token e y from k.
            listing.list_same (c.prefix ++ codes "refs/") (codes "") token y.state.world k
            ∙ from.0 k)
          (λ token e y from. from.0) over turned (λ token y from. from.0) pages (codes "") []
          (record { refs = []; state = s })
          (
            λ k. refl,
            λ d id valid bytes there. inr (listing.covers_first (ref_key h c.prefix d id)),
          )

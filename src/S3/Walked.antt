-- ===== src/S3/Walked.antt =====
-- S3Store.Walk of s3.go, with a consumer that takes down what it is given.
use mathlib.Core.Path.{subst}
use flob.Prelude.{
  ℕ, ◌≡◌, refl, sym, ap, ◌∙◌, true, false, Option, none, some, List, [], ◌∷◌, ◌++◌, is_some, ◌⊎◌,
  inl, inr, arith, Any, All,
}
use flob.Prelude.Text.{Text, codes, contains, contains-cons, contains_head}
use flob.Hashing.{Hashing}
use flob.Namespace.Base64.{AllBytes}
use flob.Mem.Staging.{ok}
use flob.S3.Keys.{ref_prefix, ref_key, parse_ref_key, digest_path}
use flob.S3.Named.{DigestLaws, parse_ref_key-ref_key}
use flob.S3.Service.{Service, Object, Listed, Page, Listing}
use flob.S3.Requests.{State}
use flob.S3.Listing.{Flow, next, decode_key, page_entries}
use flob.S3.Listed.{Any-append, ListingLaws, Holds, Ran, list_refs_rule}
use flob.S3.Walking.{Walked, walk_entry, walk}
use flob.S3.Under.{ref_prefix-path, parse_ref_key-under}

-- A consumer that takes down each digest.
pub record Found (W : Type 0) : Type 0 where
  pub digests : List Text
  pub state : State W

abbrev pub at_found : {W : Type 0} → W → Found W → Found W
at_found w y = record y { state = record y.state { world = w } }

abbrev pub take_down : {W : Type 0} → Walked → Found W → Flow (Found W) (Found W)
take_down w y = next (record y { digests = w.digest ∷ y.digests })

module _ {W : Type 0} (svc : Service W) (object : W → Text → Option Object)
    (listing : ListingLaws svc object) (h : Hashing) (names : DigestLaws h) (prefix id : Text)
    (bytes : AllBytes id) (s : State W) where
  -- The store has a reference to a valid digest.
  abbrev pub IsReferred : Text → Type 0
  IsReferred d = (h.validate d ≡ none) × (is_some (object s.world (ref_key h prefix d id)) ≡ true)

  abbrev pub IsAsBefore : State W → Type 0
  IsAsBefore t = (k : Text) → object t.world k ≡ object s.world k

  -- What was taken down are references of the store, and no object has changed.
  abbrev pub AreReferred : Found W → Type 0
  AreReferred y = IsAsBefore y.state × All IsReferred y.digests

  -- And it is all of them.
  abbrev pub IsExact : Found W → Type 0
  IsExact y = AreReferred y × ((d : Text) → IsReferred d → contains y.digests d ≡ true)

  abbrev Each : (Text → Type 0) → Type 0
  Each P = (d : Text) → IsReferred d → P d

  abbrev From : Text → Found W → Type 0
  From token y =
      AreReferred y
      × Each (λ d.
        (contains y.digests d ≡ true) ⊎ (listing.covers token (ref_key h prefix d id) ≡ true))

  -- A key of the page is of an object under the store's prefix.
  abbrev IsUnder : Page → Listed → Type 0
  IsUnder page e =
      (k : Text)
      → decode_key page.encoding e.key ≡ some k
      → (is_some (object s.world k) ≡ true) × ((rest : Text) × (k ≡ ref_prefix prefix id ++ rest))

  abbrev Rest : Page → List Listed → Found W → Type 0
  Rest page es y =
      AreReferred y
      × All (IsUnder page) es
      × Each (λ d.
        (contains y.digests d ≡ true)
        ⊎ Any (λ e. decode_key page.encoding e.key ≡ some (ref_key h prefix d id)) es
        ⊎ (page.truncated ≡ true) × (listing.covers page.next (ref_key h prefix d id) ≡ true))

  took :
      (page : Page) (entry : Listed) (es : List Listed) (k : Text) (y : Found W)
      → decode_key page.encoding entry.key ≡ some k
      → Rest page (entry ∷ es) y
      → Holds (Rest page es) AreReferred (
          walk_entry svc
            (λ z. z.state.world)
            at_found
            (λ e z. z)
            h
            prefix
            take_down
            (record entry { key = k })
            y)
  unfolding walk_entry
  took page entry es k y decoded ((same, real), (here, under), each) =
      go (parse_ref_key h prefix k) refl
    where
      found_ref :
          (d : Text)
          → h.validate d ≡ none
          → decode_key page.encoding entry.key ≡ some (ref_key h prefix d id)
          → parse_ref_key h prefix k ≡ some (d, id)
      found_ref d valid named =
          let at : k ≡ ref_key h prefix d id = ground (arith, decoded, named) in
          ap (parse_ref_key h prefix) at ∙ parse_ref_key-ref_key h names prefix d id valid bytes

      real_ref : (d id' : Text) → parse_ref_key h prefix k ≡ some (d, id') → IsReferred d
      real_ref d id' parsed =
          let (there, (rest, at)) = here k decoded in
          let (valid, e) =
            parse_ref_key-under h names prefix id bytes rest d id'
              (ap (parse_ref_key h prefix) (sym at) ∙ parsed) in
          (valid, ap (λ j. is_some (object s.world j)) (sym (at ∙ e)) ∙ there)

      go :
          (o : Option (Text × Text))
          → parse_ref_key h prefix k ≡ o
          → Holds (Rest page es) AreReferred (elim o [
            | none ↦ next y
            | some (d, id') ↦ take_down (record { digest = d; listed = entry.modified }) y
          ])
      go none parsed = (
        (same, real),
        under,
        λ d referred. elim (each d referred) [
          | inl seen ↦ inl seen
          | inr (inl (inl here')) ↦ absurd (ground (arith, parsed, found_ref d referred.0 here'))
          | inr (inl (inr later)) ↦ inr (inl later)
          | inr (inr further) ↦ inr (inr further)
        ],
      )
      go (some (d', id')) parsed = (
        (same, (real_ref d' id' parsed, real)),
        under,
        λ d referred. elim (each d referred) [
          | inl seen ↦ inl (contains-cons y.digests d d' seen)
          | inr (inl (inl here')) ↦
              let e : d ≡ d' = ground (arith, parsed, found_ref d referred.0 here') in
              inl (
                subst (λ x. contains (d' ∷ y.digests) x ≡ true) (sym e)
                  (contains_head y.digests d'))
          | inr (inl (inr later)) ↦ inr (inl later)
          | inr (inr further) ↦ inr (inr further)
        ],
      )

  listed :
      (token : Text) (y : Found W)
      → AreReferred y
      → AreReferred (at_found (svc.list (ref_prefix prefix id) (codes "") token y.state.world).1 y)
  listed token y (same, real) = (
    λ k. listing.list_same (ref_prefix prefix id) (codes "") token y.state.world k ∙ same k,
    real,
  )

  IsUnder-before :
      (page : Page) (y : Found W)
      → IsAsBefore y.state
      → (es : List Listed)
      → All
          (λ e.
            (k : Text)
            → decode_key page.encoding e.key ≡ some k
            → (is_some (object y.state.world k) ≡ true)
              × ((rest : Text) × (k ≡ ref_prefix prefix id ++ rest)))
          es
      → All (IsUnder page) es
  IsUnder-before page y same [] all = tt
  IsUnder-before page y same (e ∷ es) (here, all) = (
    λ k decoded. let (there, under) = here k decoded in (ap is_some (sym (same k)) ∙ there, under),
    IsUnder-before page y same es all,
  )

  begun :
      (token : Text) (y : Found W) (answer : Listing) (page : Page)
      → (svc.list (ref_prefix prefix id) (codes "") token y.state.world).0 ≡ ok answer
      → answer.status ≡ 200
      → answer.page ≡ ok page
      → From token y
      → Rest page
          (page_entries page)
          (at_found (svc.list (ref_prefix prefix id) (codes "") token y.state.world).1 y)
  unfolding page_entries
  begun token y answer page eq status eq' ((same, real), each) =
      let under = ref_prefix prefix id in
      (
        listed token y (same, real),
        IsUnder-before page y same (page_entries page)
            (listing.list_present under token y.state.world answer page eq status eq'),
        λ d referred. elim (each d referred) [
          | inl seen ↦ inl seen
          | inr covered ↦
              let at = ref_prefix-path h names prefix id bytes d in
              elim (listing.list_complete under token y.state.world answer page (digest_path h d) eq
                status eq'
                (ap (λ k. is_some (object y.state.world k)) at ∙ ap is_some (same _) ∙ referred.1)
                (ap (listing.covers token) at ∙ covered)) [
                  | inl there ↦ inr (
                      inl (
                        Any-append _ page.contents _ (
                          subst
                            (λ k. Any (λ e. decode_key page.encoding e.key ≡ some k) page.contents)
                            at there)))
                  | inr (more, covers) ↦
                      inr (inr (more, ap (listing.covers page.next) (sym at) ∙ covers))
                ]
        ],
      )

  over : (page : Page) (y : Found W) → page.truncated ≡ false → Rest page [] y → IsExact y
  over page y last (real, _, each) = (
    real,
    λ d referred. elim (each d referred) [
      | inl seen ↦ seen
      | inr (inl none_left) ↦ elim none_left [ ]
      | inr (inr (more, covered)) ↦ absurd (ground (arith, last, more))
    ],
  )

  turned : (page : Page) (y : Found W) → page.truncated ≡ true → Rest page [] y → From page.next y
  turned page y more (real, _, each) = (
    real,
    λ d referred. elim (each d referred) [
      | inl seen ↦ inl seen
      | inr (inl none_left) ↦ elim none_left [ ]
      | inr (inr (_, covered)) ↦ inr covered
    ],
  )

  -- A Walk through a store of a namespace of bytes changes no object, and each digest that it yields,
  -- before an error or its end, is valid and one that the store has a reference to. If it comes to its
  -- end, it has yielded every such digest. The laws of S3's listings and of the digests are assumed.
  pub walk-IsExact :
      (pages : ℕ)
      → Ran IsExact AreReferred AreReferred (
          walk svc
            (λ y. y.state.world)
            at_found
            (λ e y. y)
            h
            prefix
            id
            take_down
            pages
            (record { digests = []; state = s }))
  unfolding walk
  walk-IsExact pages =
      list_refs_rule svc (λ y. y.state.world) at_found (λ e y. y)
        (walk_entry svc (λ y. y.state.world) at_found (λ e y. y) h prefix take_down)
        (ref_prefix prefix id) (codes "") From Rest IsExact AreReferred AreReferred
        (λ page es e y rest. rest.0) took begun (λ token e y from. listed token y from.0)
        (λ token e y from. from.0) over turned (λ token y from. from.0) pages (codes "") []
        (record { digests = []; state = s })
        (((λ k. refl), tt), λ d referred. inr (listing.covers_first (ref_key h prefix d id)))

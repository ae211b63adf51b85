-- ===== src/S3/Listed.antt =====
-- What a loop over a listing does, from what its body does with one entry.
use flob.Prelude.{
  ℕ, zero, suc, ◌≡◌, refl, Bool, true, false, not, ◌&&◌, ◌||◌, Option, none, some, List, [], ◌∷◌,
  ◌++◌, is_some, ◌⊎◌, inl, inr, arith, length, by_test, All, Any, ◌==◌, ==_iff,
}
use flob.Prelude.Text.{Text, codes, text_eq, is_empty, contains}
use flob.Prelude.Int.{pos}
use flob.Errors.{Error, other}
use flob.Mem.Staging.{Result, ok, err}
use flob.S3.Service.{Service, Listed, Page, Listing, Object}
use flob.S3.Told.{asks-rule, halts-rule}
use flob.S3.Listing.{
  Flow, next, stop, Run, done, returned, endless, decode_key, page_entries, flows, visit,
  list_entries, turn, read_page, read_listing, list_refs, bad_key, bad_encoding, bad_token,
}

-- What the S3 API says of listings. A token stands for a place in the order of the keys, and `covers`
-- tells whether a key is at that place or behind it.
pub record ListingLaws {W : Type 0} (s : Service W) (object : W → Text → Option Object)
    : Type 0 where
  pub covers : Text → Text → Bool
  pub covers_first : (k : Text) → covers (codes "") k ≡ true
  pub list_same :
      (prefix delimiter token : Text) (w : W) (k : Text)
      → object (s.list prefix delimiter token w).1 k ≡ object w k
  -- without a delimiter a page names each object under the prefix from its place on, or the page ends
  -- before it
  pub list_complete :
      (prefix token : Text) (w : W) (answer : Listing) (page : Page) (rest : Text)
      → (s.list prefix (codes "") token w).0 ≡ ok answer
      → answer.status ≡ 200
      → answer.page ≡ ok page
      → is_some (object w (prefix ++ rest)) ≡ true
      → covers token (prefix ++ rest) ≡ true
      → Any (λ e. decode_key page.encoding e.key ≡ some (prefix ++ rest)) page.contents
        ⊎ (page.truncated ≡ true) × (covers page.next (prefix ++ rest) ≡ true)
  -- a page names objects that are there, under the prefix
  pub list_present :
      (prefix token : Text) (w : W) (answer : Listing) (page : Page)
      → (s.list prefix (codes "") token w).0 ≡ ok answer
      → answer.status ≡ 200
      → answer.page ≡ ok page
      → All
          (λ e.
            (k : Text)
            → decode_key page.encoding e.key ≡ some k
            → (is_some (object w k) ≡ true) × ((rest : Text) × (k ≡ prefix ++ rest)))
          (page_entries page)
  -- and tells the sizes
  pub list_sizes :
      (prefix token : Text) (w : W) (answer : Listing) (page : Page)
      → (s.list prefix (codes "") token w).0 ≡ ok answer
      → answer.status ≡ 200
      → answer.page ≡ ok page
      → All
          (λ e.
            (k : Text)
            → decode_key page.encoding e.key ≡ some k
            → (o : Object) → object w k ≡ some o
            → e.size ≡ pos (length o.bytes))
          (page_entries page)

pub Any-append : {A : Type 0} (P : A → Type 0) (xs ys : List A) → Any P xs → Any P (xs ++ ys)
Any-append P [] ys h = elim h [ ]
Any-append P (x ∷ xs) ys (inl h) = inl h
Any-append P (x ∷ xs) ys (inr h) = inr (Any-append P xs ys h)

-- A claim on each outcome of the body, and of the whole loop.
abbrev pub Holds : {X R : Type 0} → (X → Type 0) → (R → Type 0) → Flow X R → Type 0
Holds J Q (next x) = J x
Holds J Q (stop r) = Q r

abbrev pub Ran : {X R : Type 0} → (X → Type 0) → (R → Type 0) → (X → Type 0) → Run X R → Type 0
Ran D Q E (done x) = D x
Ran D Q E (returned r) = Q r
Ran D Q E (endless x) = E x

flows-rule :
    {X R B : Type 0} (J : X → Type 0) (Q : R → Type 0) (P : B → Type 0) (f : Flow X R)
    {stopped : R → B} {going : X → B}
    → Holds J Q f
    → ((r : R) → Q r → P (stopped r))
    → ((x : X) → J x → P (going x))
    → P (flows f stopped going)
flows-rule J Q P (stop r) h on_stop on_next = on_stop r h
flows-rule J Q P (next x) h on_stop on_next = on_next x h

-- The loop keeps `I` from page to page and `J` from entry to entry.
module _ {W X R : Type 0} (svc : Service W) (world : X → W) (put : W → X → X) (fail : Error → X → R)
    (body : Listed → X → Flow X R) (prefix delimiter : Text) (I : Text → X → Type 0)
    (J : Page → List Listed → X → Type 0) (D E : X → Type 0) (Q : R → Type 0)
    (keeps_fail : (page : Page) (es : List Listed) (e : Error) (x : X) → J page es x → Q (fail e x))
    (keeps_body : (page : Page) (entry : Listed) (es : List Listed) (key : Text) (x : X)
      → decode_key page.encoding entry.key ≡ some key
      → J page (entry ∷ es) x
      → Holds (J page es) Q (body (record entry { key = key }) x))
    (opens : (token : Text) (x : X) (answer : Listing) (page : Page)
      → (svc.list prefix delimiter token (world x)).0 ≡ ok answer
      → answer.status ≡ 200
      → answer.page ≡ ok page
      → I token x
      → J page (page_entries page) (put (svc.list prefix delimiter token (world x)).1 x))
    (asked : (token : Text) (e : Error) (x : X)
      → I token x
      → Q (fail e (put (svc.list prefix delimiter token (world x)).1 x)))
    (idle : (token : Text) (e : Error) (x : X) → I token x → Q (fail e x))
    (ends : (page : Page) (x : X) → page.truncated ≡ false → J page [] x → D x)
    (turns : (page : Page) (x : X) → page.truncated ≡ true → J page [] x → I page.next x)
    (hangs : (token : Text) (x : X) → I token x → E x) where
  abbrev Runs : Run X R → Type 0
  Runs r = Ran D Q E r

  visit_rule :
      (page : Page) (entry : Listed) (es : List Listed) (x : X) (key : Option Text)
      → decode_key page.encoding entry.key ≡ key
      → J page (entry ∷ es) x
      → Holds (J page es) Q (visit svc world fail body entry key x)
  visit_rule page entry es x none eq j = keeps_fail page (entry ∷ es) bad_key x j
  visit_rule page entry es x (some key) eq j =
      flows-rule (J page es) Q (Holds (J page es) Q) (body (record entry { key = key }) x)
        (keeps_body page entry es key x eq j) (λ r q. q)
        (λ x' j'.
          halts-rule (Holds (J page es) Q) (svc.context (world x'))
            (λ e. keeps_fail page es e x' j') j')

  list_entries_rule :
      (page : Page) (es : List Listed) (x : X)
      → J page es x
      → Holds (J page []) Q (list_entries svc world fail body page.encoding es x)
  unfolding list_entries
  list_entries_rule page [] x j = j
  list_entries_rule page (entry ∷ es) x j =
      halts-rule (Holds (J page []) Q) (svc.context (world x))
        (λ e. keeps_fail page (entry ∷ es) e x j)
        (flows-rule (J page es) Q (Holds (J page []) Q)
          (visit svc world fail body entry (decode_key page.encoding entry.key) x)
          (visit_rule page entry es x (decode_key page.encoding entry.key) refl j) (λ r q. q)
          (λ x' j'. list_entries_rule page es x' j'))

  module _ (seen : List Text) (rest : Text → List Text → X → Run X R)
      (again : (token : Text) (seen' : List Text) (x : X)
        → I token x
        → Runs (rest token seen' x)) where
    turn_rule :
        (page : Page) (truncated : Bool) (x : X)
        → page.truncated ≡ truncated
        → J page [] x
        → Runs (turn svc world fail body truncated page.next seen rest x)
    turn_rule page false x eq j = ends page x eq j
    turn_rule page true x eq j =
        by_test Runs (is_empty page.next || contains seen page.next)
          (λ bad. keeps_fail page [] bad_token x j)
          (λ good. again page.next (page.next ∷ seen) x (turns page x eq j))

    read_page_rule :
        (page : Page) (x : X)
        → J page (page_entries page) x
        → Runs (read_page svc world fail body seen rest page x)
    read_page_rule page x j =
        by_test Runs (not (is_empty page.encoding) && not (text_eq page.encoding (codes "url")))
          (λ bad. keeps_fail page (page_entries page) bad_encoding x j)
          (λ good.
            flows-rule (J page []) Q Runs
              (list_entries svc world fail body page.encoding (page_entries page) x)
              (list_entries_rule page (page_entries page) x j) (λ r q. q)
              (λ x' j'. turn_rule page page.truncated x' refl j'))

    abbrev Answered : Text → X → Result Listing × W → Type 0
    Answered token x (r, w) =
        ((e : Error) → Q (fail e (put w x)))
        × ((answer : Listing) (page : Page)
            → r ≡ ok answer
            → answer.status ≡ 200
            → answer.page ≡ ok page
            → J page (page_entries page) (put w x))

    by_page :
        (answer : Listing) (x : X) (r : Result Page)
        → ((e : Error) → Q (fail e x))
        → ((page : Page) → r ≡ ok page → J page (page_entries page) x)
        → Runs (elim r [
          | err e ↦ returned (fail e x)
          | ok page ↦ read_page svc world fail body seen rest page x
        ])
    by_page answer x (err e) failed opened = failed e
    by_page answer x (ok page) failed opened = read_page_rule page x (opened page refl)

    read_listing_rule :
        (token : Text) (x : X) (answer : Listing) (w : W)
        → Answered token x (ok answer, w)
        → Runs (read_listing svc world fail body seen rest answer (put w x))
    read_listing_rule token x answer w (failed, opened) =
        by_test Runs (not (answer.status == 200)) (λ bad. failed (other answer.status))
          (λ good. by_page answer (put w x) answer.page failed (λ page eq.
            opened answer page refl ((==_iff answer.status 200).0 (ground (arith, good))) eq))

  -- The loop.
  pub list_refs_rule :
      (pages : ℕ) (token : Text) (seen : List Text) (x : X)
      → I token x
      → Runs (list_refs svc world put fail body prefix delimiter pages token seen x)
  unfolding list_refs
  list_refs_rule zero token seen x i = hangs token x i
  list_refs_rule (suc pages) token seen x i =
      let rest = list_refs svc world put fail body prefix delimiter pages in
      let again = λ (token' : Text) (seen' : List Text) (x' : X) (i' : I token' x').
        list_refs_rule pages token' seen' x' i' in
      halts-rule Runs (svc.context (world x)) (λ e. idle token e x i)
        (asks-rule (Answered seen rest again token x) Runs
          (svc.list prefix delimiter token (world x))
          (
            λ e. asked token e x i,
            λ answer page eq status eq'. opens token x answer page eq status eq' i,
          )
          (λ e w (failed, opened). failed e)
          (λ answer w told. read_listing_rule seen rest again token x answer w told))

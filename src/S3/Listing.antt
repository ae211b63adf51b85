-- ===== src/S3/Listing.antt =====
-- S3Stores.listRefs of s3.go. An iterator is the state that its consumer carries from one entry to
-- the next.
use flob.Prelude.{
  ℕ, zero, suc, Bool, true, false, not, ◌&&◌, ◌||◌, Option, none, some, List, [], ◌∷◌, ◌++◌, map,
  ◌==◌, if◌then◌else◌,
}
use flob.Prelude.Text.{Text, codes, text_eq, is_empty, contains}
use flob.Prelude.Int.{pos}
use flob.Errors.{Error, other}
use flob.Mem.Staging.{ok, err}
use flob.Http.Paths.{path_unescape}
use flob.S3.Service.{Service, Listed, Page, Listing}
use flob.S3.Requests.{asks, halts}

-- What a consumer does with an entry: go on, or return.
pub data Flow (X R : Type 0) : Type 0 where
  next : X → Flow X R
  stop : R → Flow X R

-- What becomes of a listing: its consumer has seen all of it, or has returned, or the service has not
-- come to an end within the number of pages allowed.
pub data Run (X R : Type 0) : Type 0 where
  done : X → Run X R
  returned : R → Run X R
  endless : X → Run X R

abbrev pub flows {κ} : {X R : Type 0} {B : Type κ} → Flow X R → (R → B) → (X → B) → B
flows (stop r) stopped going = stopped r
flows (next x) stopped going = going x

abbrev pub bad_key : Error
bad_key = other 2101

abbrev pub bad_encoding : Error
bad_encoding = other 2102

abbrev pub bad_token : Error
bad_token = other 2103

-- the key of an entry as the page encodes it
unfoldable pub decode_key : Text → Text → Option Text
unfolding path_unescape
decode_key encoding key = if text_eq encoding (codes "url") then path_unescape key else some key

-- the entries of a page, its prefixes last
unfoldable pub page_entries : Page → List Listed
page_entries page =
    page.contents ++ map (λ p. record { key = p; size = pos 0; modified = 0 }) page.prefixes

module _ {W X R : Type 0} (svc : Service W) (world : X → W) (fail : Error → X → R)
    (body : Listed → X → Flow X R) where
  -- the body of the consumer, and the check of the context after it
  abbrev pub visit : Listed → Option Text → X → Flow X R
  visit entry none x = stop (fail bad_key x)
  visit entry (some key) x =
      flows (body (record entry { key = key }) x) (λ r. stop r)
        (λ x'. halts (svc.context (world x')) (λ e. stop (fail e x')) (next x'))

  -- the loop over the entries of a page
  unfoldable pub list_entries : Text → List Listed → X → Flow X R
  unfolding decode_key
  list_entries encoding [] x = next x
  list_entries encoding (entry ∷ entries) x =
      let rest = list_entries encoding entries in
      halts (svc.context (world x)) (λ e. stop (fail e x))
        (flows (visit entry (decode_key encoding entry.key) x) (λ r. stop r) (λ x'. rest x'))

  -- what follows a page that was seen whole: the end, a bad token, or the next page
  abbrev pub turn : Bool → Text → List Text → (Text → List Text → X → Run X R) → X → Run X R
  turn false token seen rest x = done x
  turn true token seen rest x =
      if is_empty token || contains seen token
      then returned (fail bad_token x)
      else rest token (token ∷ seen) x

  abbrev pub read_page : List Text → (Text → List Text → X → Run X R) → Page → X → Run X R
  read_page seen rest page x =
      if not (is_empty page.encoding) && not (text_eq page.encoding (codes "url"))
      then returned (fail bad_encoding x)
      else flows (list_entries page.encoding (page_entries page) x) (λ r. returned r)
          (turn page.truncated page.next seen rest)

  abbrev pub read_listing : List Text → (Text → List Text → X → Run X R) → Listing → X → Run X R
  read_listing seen rest answer x =
      if not (answer.status == 200)
      then returned (fail (other answer.status) x)
      else elim answer.page [ err e ↦ returned (fail e x) | ok page ↦ read_page seen rest page x ]

-- listRefs and the loop that consumes it, for at most `pages` pages
unfoldable pub list_refs :
    {W X R : Type 0} (svc : Service W) (world : X → W) (put : W → X → X) (fail : Error → X → R)
    (body : Listed → X → Flow X R) (prefix delimiter : Text)
    → ℕ
    → Text
    → List Text
    → X
    → Run X R
unfolding list_entries page_entries
list_refs svc world put fail body prefix delimiter zero token seen x = endless x
list_refs svc world put fail body prefix delimiter (suc pages) token seen x =
    let rest = list_refs svc world put fail body prefix delimiter pages in
    halts (svc.context (world x)) (λ e. returned (fail e x))
      (asks (svc.list prefix delimiter token (world x)) (λ e w. returned (fail e (put w x)))
        (λ answer w. read_listing svc world fail body seen rest answer (put w x)))

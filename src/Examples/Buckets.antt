-- ===== src/Examples/Buckets.antt =====
-- The S3 store on a bucket that holds one blob, referred to by the store `a`.
use mathlib.Core.Path.{subst}
use mathlib.Core.List.{append-nil}
use flob.Prelude.{
  ℕ, ◌≢◌, ◌≡◌, refl, ap, sym, ◌∙◌, inr, drop, true, false, Option, none, some, List, [], ◌∷◌, arith,
  is_some, length,
}
use flob.Prelude.Text.{Text, codes, text_eq}
use flob.Prelude.Int.{pos}
use flob.Errors.{is}
use flob.Meta.{header_eq, texts_eq}
use flob.S3.Service.{metadata_of}
use flob.Namespace.{upper}
use flob.Hashing.{lower}
use flob.Prelude.Decimal.{format_int}
use flob.Meta.{Source, no_meta}
use flob.Namespace.{namespace_segment}
use flob.S3.Keys.{blob_key, ref_key}
use flob.S3.Markers.{marker}
use flob.S3.Service.{Object}
use flob.S3.Requests.{State}
use flob.S3.Probe.{Config, probe}
use flob.S3.Sound.{IsSound, IsRight}
use flob.S3.Adding.{add}
use flob.S3.Store.{link, open_blob}
use flob.Namespace.Base64.{AllBytes}
use flob.S3.Opening.{IsOpened, GettingLaws, open_blob-IsOpened}
use flob.S3.Service.{Object}
use flob.Http.Opening.{RangeResponse}
use flob.Mem.Staging.{Result, ok, err}
use flob.S3.Store.{RangeGet, Getter}
use flob.Errors.{not_exist, eof}
use flob.S3.Linking.{IsLinked, link-IsLinked}
use flob.S3.Copying.{copy_object}
use flob.S3.Copied.{IsCopied}
use flob.S3.Parts.{copy_object-IsCopied}
use flob.S3.Reclaiming.{reclaim}
use flob.S3.Reclaimed.{Safe, reclaim-IsSafe}
use flob.S3.Walking.{walk}
use flob.S3.Listed.{Ran}
use flob.S3.Walked.{IsExact, AreReferred, at_found, take_down, walk-IsExact}
use flob.S3.Runs.{Op, adds, labels, erases, links, reclaims, perform, perform_all, run-IsSound}
use flob.Examples.Bucket.{parity, even_digest, parity-DigestLaws}
use flob.Examples.Listings.{shelf-ListingLaws}
use flob.Examples.Shelf.{
  Shelf, shelf, object, find, put, shelf-laws, shelf-CheckingLaws, shelf_enforces,
  shelf-CopyingLaws,
}

abbrev pub settings : Config
settings = record {
  prefix = codes "p/";
  copy_limit = 100;
  copy_part = 10;
  direct_add = probe;
  create_temp = none;
  write_temp = none;
  seek_temp = none;
}

abbrev pub at_start : Shelf → State Shelf
at_start w = record { world = w; running = false; known = false; checks = false }

abbrev pub empty_bucket : State Shelf
empty_bucket = at_start []

abbrev two_bytes : Source
two_bytes = record { bytes = 7 ∷ 8 ∷ []; failure = none }

-- An empty bucket is sound.
empty-IsSound : IsSound parity parity-DigestLaws settings.prefix (object [])
unfolding IsSound IsRight object find
empty-IsSound d valid = (tt, tt, λ id bytes there. absurd (ground (arith, there)))

abbrev store_a : AllBytes (codes "a")
store_a = omega arith

abbrev store_b : AllBytes (codes "b")
store_b = omega arith

-- The bucket once that blob is in it, and in a second store.
abbrev operations : List Op
operations =
    adds (codes "a") no_meta two_bytes
    ∷ links (codes "b") none even_digest (some (codes "a"))
    ∷ erases (codes "a") even_digest
    ∷ reclaims 2 100 (pos 10)
    ∷ labels (codes "b") even_digest none
    ∷ []

named_by : (from : Text) → some (codes "a") ≡ some from → AllBytes from
named_by from e = subst AllBytes {x = codes "a"} (ground (arith, e)) store_a

run-IsSound_example :
    IsSound parity parity-DigestLaws settings.prefix
      (object (perform_all shelf parity settings operations empty_bucket).world)
run-IsSound_example =
    run-IsSound shelf object shelf-laws shelf-CopyingLaws shelf-ListingLaws parity
      shelf-CheckingLaws parity-DigestLaws settings (omega arith) (inr shelf_enforces) operations
      empty_bucket (store_a, ((store_b, named_by), (store_a, (tt, (store_b, tt))))) empty-IsSound

abbrev one_blob : Shelf
one_blob = (add shelf parity settings (codes "a") no_meta two_bytes empty_bucket).1.world

one_blob-IsSound : IsSound parity parity-DigestLaws settings.prefix (object one_blob)
unfolding perform_all perform
one_blob-IsSound =
    run-IsSound shelf object shelf-laws shelf-CopyingLaws shelf-ListingLaws parity
      shelf-CheckingLaws parity-DigestLaws settings (omega arith) (inr shelf_enforces)
      (adds (codes "a") no_meta two_bytes ∷ []) empty_bucket (store_a, tt) empty-IsSound

reclaim-IsSafe_example :
    Safe shelf object shelf-laws shelf-CopyingLaws shelf-ListingLaws parity parity-DigestLaws
      settings
      (omega arith)
      (at_start one_blob)
      (reclaim shelf parity settings 2 100 (pos 10) (at_start one_blob))
reclaim-IsSafe_example =
    reclaim-IsSafe shelf object shelf-laws shelf-CopyingLaws shelf-ListingLaws parity
      parity-DigestLaws settings (omega arith) 2 100 (pos 10) (at_start one_blob) one_blob-IsSound

-- The shelf's answers to ranged GETs.
abbrev ranged : RangeGet → Option Object → Result RangeResponse
ranged q none = err not_exist
ranged q (some o) = ok (record {
  status = 206;
  content_range = [];
  length = pos (length (drop q.first o.bytes));
  etag = [];
  url = q.key;
  uncompressed = false;
  encoding = [];
  body = record { bytes = drop q.first o.bytes; failure = none };
})

abbrev get : Getter Shelf
get w q = ranged q (object w q.key)

abbrev body_of : Result RangeResponse → List ℕ
body_of (err e) = []
body_of (ok resp) = resp.body.bytes

abbrev status_of : Result RangeResponse → ℕ
status_of (err e) = 0
status_of (ok resp) = resp.status

get-GettingLaws : GettingLaws get object
get-GettingLaws = record {
  partial = λ w q resp o there answers found.
      ([], append-nil resp.body.bytes ∙ sym (ap body_of (sym (ap (ranged q) there) ∙ answers)));
  whole = λ w q resp o there answers all.
      let k : 206 ≡ resp.status = ap status_of (sym (ap (ranged q) there) ∙ answers) in
      absurd (ground (arith, k, all));
  not_eof = λ w q. refused q (object w q.key);
}
  where
    refused : (q : RangeGet) (o : Option Object) → ranged q o ≢ err eof
    refused q none = λ k. cc k
    refused q (some o) = λ k. cc k

open_blob-IsOpened_example :
    IsOpened shelf object shelf-laws parity parity-DigestLaws settings.prefix
      (codes "a")
      get
      get-GettingLaws
      even_digest
      (at_start one_blob)
      (open_blob shelf parity settings.prefix (codes "a") get even_digest (at_start one_blob))
open_blob-IsOpened_example =
    open_blob-IsOpened shelf object shelf-laws parity parity-DigestLaws settings.prefix (codes "a")
      get get-GettingLaws even_digest (at_start one_blob) one_blob-IsSound

link-IsLinked_example :
    IsLinked shelf object shelf-laws parity parity-DigestLaws settings.prefix
      (codes "b")
      even_digest
      (some (codes "a"))
      (at_start one_blob)
      (link shelf parity settings.prefix
        (codes "b")
        none
        even_digest
        (some (codes "a"))
        (at_start one_blob))
link-IsLinked_example =
    link-IsLinked shelf object shelf-laws parity parity-DigestLaws settings.prefix (codes "b") none
      even_digest (some (codes "a")) (at_start one_blob)

abbrev source : Shelf
source = (codes "p/y", record { bytes = 7 ∷ 8 ∷ []; metadata = [] }) ∷ []

source_sized : (o : Object) → object source (codes "p/y") ≡ some o → pos 2 ≡ pos (length o.bytes)
unfolding object find text_eq metadata_of header_eq
source_sized o there =
    ap (λ (r : Option Object). elim r [ none ↦ pos 0 | some b ↦ pos (length b.bytes) ]) there

copy_object-IsCopied_example :
    IsCopied shelf object shelf-CopyingLaws settings
      (codes "p/x")
      (codes "p/y")
      (at_start source)
      (copy_object shelf settings (codes "p/x") (codes "p/y") (pos 2) (at_start source))
copy_object-IsCopied_example =
    copy_object-IsCopied shelf object shelf-CopyingLaws settings (codes "p/x") (codes "p/y")
      (at_start source) (pos 2) source_sized (omega arith)

walk-IsExact_example :
    Ran
      (IsExact shelf object shelf-ListingLaws parity parity-DigestLaws settings.prefix
        (codes "a")
        store_a
        (at_start one_blob))
      (AreReferred shelf object shelf-ListingLaws parity parity-DigestLaws settings.prefix
        (codes "a")
        store_a
        (at_start one_blob))
      (AreReferred shelf object shelf-ListingLaws parity parity-DigestLaws settings.prefix
        (codes "a")
        store_a
        (at_start one_blob))
      (walk shelf
        (λ y. y.state.world)
        at_found
        (λ e y. y)
        parity
        settings.prefix
        (codes "a")
        take_down
        3
        (record { digests = []; state = at_start one_blob }))
walk-IsExact_example =
    walk-IsExact shelf object shelf-ListingLaws parity parity-DigestLaws settings.prefix (codes "a")
      store_a (at_start one_blob) 3

-- The bytes are there, under the keys that the store uses.
added_blob :
    (find (blob_key parity (codes "p/") even_digest) one_blob
      ≡ some (record { bytes = 7 ∷ 8 ∷ []; metadata = [] }))
    × (is_some (find (ref_key parity (codes "p/") even_digest (codes "a")) one_blob) ≡ true)
unfolding add find put is header_eq metadata_of marker upper lower text_eq texts_eq format_int
    ref_key blob_key namespace_segment
added_blob = (refl, refl)

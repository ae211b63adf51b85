-- ===== src/Examples/Shelf.antt =====
-- An S3 service in memory that checks every PUT: it meets the laws of the S3 API that the theorems
-- ask for, and it evaluates.
use mathlib.Core.Path.{subst}
use flob.Prelude.{
  ℕ, ◌≡◌, ◌≢◌, refl, sym, ap, ◌∙◌, Bool, true, false, not, ◌&&◌, Option, none, some, List, [], ◌∷◌,
  ◌⊎◌, inl, inr, arith, length, ltb, is_some, if◌then◌else◌, by_test,
}
use flob.Prelude.Text.{Text, text_eq, text_eq_iff, text_eq_refl, cut_prefix}
use flob.Prelude.Int.{pos, pos_part}
use flob.Meta.{Source, header_eq, header_eq_iff}
use flob.Mem.Staging.{Result, ok, err}
use flob.S3.Service.{
  Service, ServiceLaws, CheckingLaws, Response, Object, Put, Taken, Listed, Page, metadata_of,
  stored, is_success,
}
use flob.S3.Copied.{CopyingLaws}
use flob.Examples.Bucket.{parity}

abbrev pub Shelf : Type 0
Shelf = List (Text × Object)

unfoldable pub find : Text → Shelf → Option Object
find k [] = none
find k ((j, o) ∷ w) = if text_eq j k then some o else find k w

unfoldable pub remove : Text → Shelf → Shelf
remove k [] = []
remove k ((j, o) ∷ w) = let rest = remove k w in if text_eq j k then rest else (j, o) ∷ rest

find-remove_other : (k j : Text) (w : Shelf) → j ≢ k → find j (remove k w) ≡ find j w
unfolding find remove
find-remove_other k j [] differ = refl
find-remove_other k j ((i, o) ∷ w) differ =
    ground (arith, text_eq_iff i k, text_eq_iff i j, find-remove_other k j w differ)

find-remove : (k : Text) (w : Shelf) → find k (remove k w) ≡ none
unfolding find remove
find-remove k [] = refl
find-remove k ((i, o) ∷ w) = ground (arith, find-remove k w)

-- an object whose metadata is what a HEAD can show
abbrev pub shown : Option Object → Option Object
shown none = none
shown (some o) = if header_eq (metadata_of o.metadata) o.metadata then some o else none

unfoldable pub object : Shelf → Text → Option Object
unfolding find
object w k = shown (find k w)

unfoldable pub store : Text → Object → Shelf → Shelf
unfolding remove
store k o w = (k, o) ∷ remove k w

object-store : (k : Text) (o : Object) (w : Shelf) → object (store k o w) k ≡ shown (some o)
unfolding object store find
object-store k o w = ap (λ b. shown (if b then some o else find k (remove k w))) (text_eq_refl k)

object-store_other :
    (k : Text) (o : Object) (w : Shelf) (j : Text) → j ≢ k → object (store k o w) j ≡ object w j
unfolding object store find
object-store_other k o w j differ =
    ap shown (ground (arith, text_eq_iff k j, find-remove_other k j w differ))

abbrev pub answer : ℕ → Response
answer status = record {
  status = status;
  headers = [];
  etag = [];
  length = pos 0;
  modified = 1;
  uncompressed = false;
  encoding = [];
  url = [];
}

abbrev head_answer : Text → Option Object → Response
head_answer k none = answer 404
head_answer k (some o) = record (answer 200) {
  headers = o.metadata;
  length = pos (length o.bytes);
  url = k;
}

abbrev checks_sum : Option (List ℕ) → List ℕ → Bool
checks_sum none bytes = true
checks_sum (some sum) bytes = text_eq (parity.sum256 bytes) sum

-- whether a PUT is taken: its metadata, its length and its checksum are right
abbrev is_taken : Put → Bool
is_taken p =
    header_eq (metadata_of p.metadata) p.metadata
    && not (ltb (length p.body.bytes) (pos_part p.size))
    && checks_sum p.checksum (stored p).bytes

abbrev taken : Put → Taken
taken p = record { count = pos_part p.size; ended = false }

unfoldable pub put : Put → Shelf → (Result Response × Taken) × Shelf
unfolding store object
put p w =
    if p.only_new && is_some (object w p.key)
    then ((ok (answer 412), taken p), w)
    else if is_taken p
    then ((ok (answer 200), taken p), store p.key (stored p) w)
    else ((ok (answer 400), taken p), w)

-- the names of the objects under a prefix
unfoldable pub entries : Text → Shelf → Shelf → List Listed
entries prefix w [] = []
entries prefix w ((k, o) ∷ rest) =
    if is_some (cut_prefix prefix k) && is_some (object w k)
    then record {
      key = k;
      size = elim (object w k) [ none ↦ pos 0 | some o' ↦ pos (length o'.bytes) ];
      modified = 1;
    }
      ∷ entries prefix w rest
    else entries prefix w rest

abbrev pub page_of : Text → Shelf → Page
page_of prefix w = record {
  encoding = [];
  truncated = false;
  next = [];
  contents = entries prefix w w;
  prefixes = [];
}

abbrev no_body : Source
no_body = record { bytes = []; failure = none }

abbrev copy_at : Text → Shelf → Option Object → Result (Response × Source) × Shelf
copy_at dst w none = (ok (answer 404, no_body), w)
copy_at dst w (some o) = (ok (answer 200, no_body), store dst o w)

abbrev pub shelf : Service Shelf
shelf = record {
  head = λ k w. (ok (head_answer k (object w k)), w);
  put = put;
  delete = λ k etag w. (ok (answer 204), remove k w);
  context = λ w. none;
  list =
      λ prefix delimiter token w. (ok (record { status = 200; page = ok (page_of prefix w) }), w);
  copy = λ dst src w. copy_at dst w (object w src);
  create_upload = λ dst w. (ok (501, ok []), w);
  copy_part = λ dst upload n src first last w. (ok (501, ok []), w);
  abort_upload = λ dst upload w. w;
  complete_upload = λ dst upload parts w. (ok (answer 501, no_body), w);
}

shown-stored : (p : Put) → is_taken p ≡ true → shown (some (stored p)) ≡ some (stored p)
shown-stored p h = ground (arith, h)

shown-metadata :
    (o : Option Object) {a : Object} → shown o ≡ some a → metadata_of a.metadata ≡ a.metadata
shown-metadata none h = cc
shown-metadata (some o) {a} h = ground (
  arith,
  h,
  header_eq_iff (metadata_of o.metadata) o.metadata,
  header_eq_iff (metadata_of a.metadata) a.metadata,
)

shown_again : (o : Object) → metadata_of o.metadata ≡ o.metadata → shown (some o) ≡ some o
shown_again o h = ground (arith, h, header_eq_iff (metadata_of o.metadata) o.metadata)

checked_sum :
    (p : Put) (sum : List ℕ)
    → p.checksum ≡ some sum
    → is_taken p ≡ true
    → parity.sum256 (stored p).bytes ≡ sum
checked_sum p sum eq passed =
    (text_eq_iff _ sum).0
      (subst (λ o. checks_sum o (stored p).bytes ≡ true) eq (ground (arith, passed)))

put_others : (p : Put) (w : Shelf) (k : Text) → k ≢ p.key → object (put p w).1 k ≡ object w k
unfolding put
put_others p w k differ =
    by_test (λ (r : (Result Response × Taken) × Shelf). object r.1 k ≡ object w k)
      (p.only_new && is_some (object w p.key)) (λ there. refl)
      (λ fresh.
        by_test (λ (r : (Result Response × Taken) × Shelf). object r.1 k ≡ object w k) (is_taken p)
          (λ yes. object-store_other p.key (stored p) w k differ) (λ no. refl))

-- What a PUT did: nothing, or it stored its object.
abbrev Did : Put → Shelf → (Result Response × Taken) × Shelf → Type 0
Did p w ((r, n), w') =
    (w' ≡ w) × (r ≡ ok (answer 412) ⊎ r ≡ ok (answer 400))
    ⊎ (p.only_new && is_some (object w p.key) ≡ false)
      × (is_taken p ≡ true)
      × (object w' p.key ≡ some (stored p))
      × (n.count ≡ pos_part p.size)

put-Did : (p : Put) (w : Shelf) → Did p w (put p w)
unfolding put
put-Did p w =
    by_test (Did p w) (p.only_new && is_some (object w p.key)) (λ there. inl (refl, inl refl))
      (λ fresh.
        by_test (Did p w) (is_taken p)
          (λ yes. inr (fresh, yes, object-store p.key (stored p) w ∙ shown-stored p yes, refl))
          (λ no. inl (refl, inr refl)))

abbrev status_of : Result Response → ℕ
status_of (err e) = 0
status_of (ok res) = res.status

refused :
    (r : Result Response) (res : Response)
    → (r ≡ ok (answer 412)) ⊎ (r ≡ ok (answer 400))
    → r ≡ ok res
    → is_success res ≡ true
    → ⊥
refused r res (inl a) b success =
    let k : 412 ≡ res.status = ap status_of (sym a ∙ b) in ground (arith, k, success)
refused r res (inr a) b success =
    let k : 400 ≡ res.status = ap status_of (sym a ∙ b) in ground (arith, k, success)

-- The object that a HEAD found.
abbrev IsHead : Text → Shelf → Response → Type 0
IsHead k w res =
    (o : Object) × (object w k ≡ some o)
    × (metadata_of res.headers ≡ o.metadata)
    × (res.length ≡ pos (length o.bytes))

IsHead-told :
    (k : Text) (w : Shelf) (res : Response) (o : Option Object)
    → object w k ≡ o
    → ok (head_answer k o) ≡ ok res
    → res.status ≡ 200
    → IsHead k w res
unfolding object
IsHead-told k w res none found eq status =
    let e : 404 ≡ res.status = ap status_of eq in absurd (ground (arith, e, status))
IsHead-told k w res (some o) found eq status =
    let e : head_answer k (some o) ≡ res = ap (λ r. elim r [ err e ↦ answer 0 | ok a ↦ a ]) eq in
    subst (IsHead k w) e (o, found, shown-metadata (find k w) found, refl)

head_none :
    (k : Text) (w : Shelf) (res : Response) (o : Option Object)
    → object w k ≡ o
    → ok (head_answer k o) ≡ ok res
    → res.status ≡ 404
    → object w k ≡ none
head_none k w res none found eq status = found
head_none k w res (some o) found eq status =
    let e : 200 ≡ res.status = ap status_of eq in absurd (ground (arith, e, status))

pub shelf-laws : ServiceLaws shelf object
unfolding object
shelf-laws = record {
  head_same = λ k w k'. refl;
  head_found = λ k w res eq status. IsHead-told k w res (object w k) refl eq status;
  head_missing = λ k w res eq status. head_none k w res (object w k) refl eq status;
  put_others = put_others;
  put_either = λ p w. elim (put-Did p w) [
    | inl (same, _) ↦ inl (ap (λ x. object x p.key) same)
    | inr (_, _, now, _) ↦ inr now
  ];
  put_stored = λ p w res eq success. elim (put-Did p w) [
    | inl (_, r) ↦ absurd (refused (put p w).0.0 res r eq success)
    | inr (_, _, now, n) ↦ (now, n)
  ];
  put_new = λ p w o new there. elim (put-Did p w) [
    | inl (same, _) ↦ ap (λ x. object x p.key) same ∙ there
    | inr (fresh, _, _, _) ↦ absurd (ground (arith, fresh, new, there))
  ];
  put_created = λ p w res new eq success. elim (put-Did p w) [
    | inl (_, r) ↦ absurd (refused (put p w).0.0 res r eq success)
    | inr (fresh, _, _, _) ↦ ground (arith, fresh, new)
  ];
  delete_others = λ k etag w k' differ. ap shown (find-remove_other k k' w differ);
  delete_either = λ k etag w. inr (ap shown (find-remove k w));
  delete_gone = λ k w res eq status. ap shown (find-remove k w);
}

pub shelf-CheckingLaws : CheckingLaws shelf object parity
shelf-CheckingLaws = record {
  enforces = true;
  ignored = λ p w sum res no eq whole sized answered. absurd (ground (arith, no));
  checked = λ p w sum yes eq. elim (put-Did p w) [
    | inl (same, _) ↦ inl (ap (λ x. object x p.key) same)
    | inr (_, passed, now, _) ↦ inr (now, checked_sum p sum eq passed)
  ];
  checked_success = λ p w sum res yes eq answered success. elim (put-Did p w) [
    | inl (_, r) ↦ absurd (refused (put p w).0.0 res r answered success)
    | inr (_, passed, _, _) ↦ checked_sum p sum eq passed
  ];
}

pub shelf_enforces : shelf-CheckingLaws.enforces ≡ true
unfolding shelf-CheckingLaws
shelf_enforces = refl

copy_others :
    (dst : Text) (w : Shelf) (o : Option Object) (k : Text)
    → k ≢ dst
    → object (copy_at dst w o).1 k ≡ object w k
copy_others dst w none k differ = refl
copy_others dst w (some o) k differ = object-store_other dst o w k differ

-- What a copy did: nothing, or it stored what there was.
abbrev Copied : Text → Text → Shelf → Result (Response × Source) × Shelf → Type 0
Copied dst src w (r, w') =
    (w' ≡ w) × (r ≡ ok (answer 404, no_body))
    ⊎ (o : Object) × (object w src ≡ some o) × (object w' dst ≡ some o)

copy-Copied :
    (dst src : Text) (w : Shelf) (o : Option Object)
    → object w src ≡ o
    → Copied dst src w (copy_at dst w o)
unfolding object
copy-Copied dst src w none found = inl (refl, refl)
copy-Copied dst src w (some o) found =
    inr (o, found, object-store dst o w ∙ shown_again o (shown-metadata (find src w) found))

copy_status : Result (Response × Source) → ℕ
copy_status (err e) = 0
copy_status (ok (res, body)) = res.status

pub shelf-CopyingLaws : CopyingLaws shelf object
unfolding copy_status
shelf-CopyingLaws = record {
  staged = λ w upload n etag. none;
  copy_others = λ dst src w k differ. copy_others dst w (object w src) k differ;
  copy_either = λ dst src w. elim (copy-Copied dst src w (object w src) refl) [
    | inl (same, _) ↦ inl (ap (λ x. object x dst) same)
    | inr copied ↦ inr copied
  ];
  copy_done = λ dst src w res body eq success fine.
      elim (copy-Copied dst src w (object w src) refl) [
        | inl (_, r) ↦
            let e : 404 ≡ res.status = ap copy_status (sym r ∙ eq) in
            absurd (ground (arith, e, success))
        | inr copied ↦ copied
      ];
  create_same = λ dst w k. refl;
  abort_same = λ dst upload w k. refl;
  part_same = λ dst upload n src first last w k. refl;
  part_staged = λ dst upload n src first last w status etag eq success.
      let e : 501 ≡ status = ap (λ r. elim r [ err e ↦ 0 | ok (s, t) ↦ s ]) eq in
      absurd (ground (arith, e, success));
  part_others = λ dst upload n src first last w m etag differ. refl;
  complete_others = λ dst upload parts w k differ. refl;
  complete_either = λ dst upload parts w. inl refl;
  complete_done = λ dst upload parts w res body eq success fine.
      let e : 501 ≡ res.status = ap copy_status eq in absurd (ground (arith, e, success));
}

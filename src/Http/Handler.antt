-- ===== src/Http/Handler.antt =====
-- HttpHandler of http.go over any Stores, and its gate of http_authorizer.go. A store is what its
-- operations answer; `S` is the state of the backend, which its reads may change too.
use flob.Prelude.{
  ℕ, Bool, true, false, not, ◌&&◌, ◌||◌, Option, none, some, List, [], ◌∷◌, ◌++◌, if◌then◌else◌,
}
use flob.Prelude.Text.{Text, codes, is_empty, cut_prefix, contains}
use flob.Prelude.Int.{ℤ, pos}
use flob.Errors.{Error, not_exist, already_exists, digest_mismatch, unauthenticated, forbidden, is}
use flob.Hashing.{Hashing, sanitize}
use flob.Meta.{Meta, Labels, Header, Source, Added}
use flob.Mem.Staging.{Result, ok, err}
use flob.Info.{Info, info_meta, last_modified}
use flob.Auth.Policy.{Action, read, add, label, erase}
use flob.Namespace.{namespace_segment}
use flob.Http.Paths.{parse_path}

-- Stores and Store of store.go, by namespace ID. `presign` is `none` without that capability.
pub record Backend (S : Type 0) : Type 0 where
  pub add : Text → Meta → Source → S → Added × S
  pub stat : Text → Text → S → Result Info × S
  pub open_blob : Text → Text → S → Result (Info × List ℕ) × S
  pub label : Text → Text → Labels → S → Option Error × S
  pub erase : Text → Text → S → Option Error × S
  pub presign : Text → Text → S → Option (Result (Text × Meta) × S)

pub data Method : Type 0 where
  get head post patch delete other : Method

pub record Request : Type 0 where
  pub method : Method
  pub path : Text
  pub headers : Header
  pub body : Source

-- A response: its status, the headers that the handler sets, and the content that
-- http.ServeContent is given, whose ranges are the standard library's.
pub record Response : Type 0 where
  pub status : ℕ
  pub etag : Option Text
  pub content_length : Option ℤ
  pub labels : Header
  pub location : Option Text
  pub modified : Option ℕ
  pub content : Option (List ℕ)

pub record Handler : Type 0 where
  pub read_only : Bool
  pub allowed_stores : List Text
  pub authorizer : Option (Request → Text → Action → Option Error)
  pub redirect : Bool

-- http.Error and http.NotFound
abbrev pub failure : ℕ → Response
failure code = record {
  status = code;
  etag = none;
  content_length = none;
  labels = [];
  location = none;
  modified = none;
  content = none;
}

abbrev pub values_of : Labels → Header
values_of none = []
values_of (some h) = h

-- setMetaHeaders on a response of a status
unfoldable pub set_meta_headers : ℕ → Meta → Response
set_meta_headers code m = record (failure code) {
  etag = some (codes "\"" ++ m.digest ++ codes "\"");
  content_length = some m.size;
  labels = values_of m.labels;
}

-- parseLabels
unfoldable pub parse_labels : Header → Header
parse_labels [] = []
parse_labels ((key, values) ∷ h) = elim (cut_prefix (codes "Flob-") key) [
  | none ↦ parse_labels h
  | some after ↦ (after, values) ∷ parse_labels h
]

abbrev pub is_empty_list : List Text → Bool
is_empty_list [] = true
is_empty_list (x ∷ xs) = false

abbrev pub is_read : Method → Bool
is_read get = true
is_read head = true
is_read _ = false

abbrev pub is_post : Method → Bool
is_post post = true
is_post _ = false

abbrev pub action_of : Method → Option Action
action_of get = some read
action_of head = some read
action_of post = some add
action_of patch = some label
action_of delete = some erase
action_of other = none

-- HttpHandler.authorize: `none` lets the request on
unfoldable pub authorize : Handler → Request → Text → Option Response
authorize h r id = elim h.authorizer [
  | none ↦ none
  | some check ↦ elim (action_of r.method) [
    | none ↦ some (failure 405)
    | some action ↦ elim (check r id action) [
      | none ↦ none
      | some e ↦
          if is e unauthenticated
          then some (failure 401)
          else if is e forbidden
          then some (failure 403)
          else some (failure 503)
    ]
  ]
]

-- What the handler answers for the error of a read, of Label and of Erase.
abbrev pub read_error : Error → Response
read_error e = if is e not_exist then failure 404 else failure 500

-- POST: the answer by the store's result
unfoldable pub post_answer : Text → Added → Response
unfolding set_meta_headers
post_answer id (m, none) = record (set_meta_headers 201 m) {
  location = some (codes "/" ++ namespace_segment id ++ codes "/" ++ m.digest);
  content_length = none;
}
post_answer id (m, some e) =
    if is e not_exist
    then failure 404
    else if is e already_exists
    then record (set_meta_headers 200 m) { content_length = none }
    else if is e digest_mismatch
    then failure 422
    else failure 500

-- the answer to a read of which Stat or Open gave this Info
unfoldable pub info_answer : Info → Option (List ℕ) → Response
unfolding set_meta_headers info_meta last_modified
info_answer i content = elim (info_meta i) [
  | err e ↦ failure 500
  | ok m ↦ elim (last_modified i) [
    | err e ↦ failure 500
    | ok t ↦ record (set_meta_headers 200 m) { modified = t; content = content }
  ]
]

-- the redirect of GET: the presigned URL, if there is one
unfoldable pub redirect_answer : Result (Text × Meta) → Option Response
unfolding set_meta_headers
redirect_answer (err e) = none
redirect_answer (ok (loc, m)) =
    some (record (set_meta_headers 307 m) { content_length = none; location = some loc })

abbrev pub open_answer : Result (Info × List ℕ) → Response
open_answer (err e) = read_error e
open_answer (ok (i, bytes)) = info_answer i (some bytes)

abbrev pub stat_answer : Result Info → Response
stat_answer (err e) = read_error e
stat_answer (ok i) = info_answer i none

abbrev pub change_answer : Option Error → Response
change_answer none = failure 204
change_answer (some e) = failure 500

abbrev pub label_answer : Option Error → Response
label_answer none = failure 204
label_answer (some e) = read_error e

module _ {S : Type 0} (b : Backend S) where
  -- the answer of GET where it does not redirect
  abbrev pub stream_answer : Text → Text → S → Response × S
  stream_answer id d s = let (o, s') = b.open_blob id d s in (open_answer o, s')

  -- the answer of GET once the store has been asked for a URL, if it can presign
  abbrev pub presign_answer : Text → Text → S → Option (Result (Text × Meta) × S) → Response × S
  presign_answer id d s none = stream_answer id d s
  presign_answer id d s (some (loc, s')) = elim (redirect_answer loc) [
    | some r ↦ (r, s')
    | none ↦ stream_answer id d s'
  ]

  unfoldable pub get_answer : Handler → Text → Text → S → Response × S
  unfolding info_answer redirect_answer
  get_answer h id d s =
      if h.redirect then presign_answer id d s (b.presign id d s) else stream_answer id d s

  -- the switch on the method, after every check
  unfoldable pub dispatch : Handler → Request → Text → Text → S → Method → Response × S
  unfolding post_answer info_answer get_answer parse_labels
  dispatch h r id d s post =
      let m : Meta = record { digest = d; labels = some (parse_labels r.headers); size = pos 0 } in
      let (a, s') = b.add id m r.body s in (post_answer id a, s')
  dispatch h r id d s head = let (o, s') = b.stat id d s in (stat_answer o, s')
  dispatch h r id d s get = get_answer h id d s
  dispatch h r id d s patch =
      let (e, s') = b.label id d (some (parse_labels r.headers)) s in (label_answer e, s')
  dispatch h r id d s delete = let (e, s') = b.erase id d s in (change_answer e, s')
  dispatch h r id d s other = (failure 405, s)

  -- the checks that follow parsePath: the allowed stores, the digest, the authorizer
  unfoldable pub admit : Hashing → Handler → Request → Text → Text → S → Response × S
  unfolding authorize dispatch
  admit hashing h r id raw s =
      let allowed = is_empty_list h.allowed_stores || contains h.allowed_stores id in
      if not allowed
      then (failure 404, s)
      else if is_empty raw
      then (if is_post r.method
          then (elim (authorize h r id) [
            | some refusal ↦ (refusal, s)
            | none ↦ dispatch h r id raw s r.method
          ])
          else (failure 405, s))
      else (let (bad, d) = sanitize hashing raw in
          elim bad [
            | some e ↦ (failure 400, s)
            | none ↦ elim (authorize h r id) [
              | some refusal ↦ (refusal, s)
              | none ↦ dispatch h r id d s r.method
            ]
          ])

  -- HttpHandler.ServeHTTP
  unfoldable pub serve_http : Hashing → Handler → Request → S → Response × S
  unfolding admit
  serve_http hashing h r s =
      if h.read_only && not (is_read r.method) then (failure 405, s) else elim (parse_path r.path) [
        | none ↦ (failure 400, s)
        | some (id, raw) ↦ admit hashing h r id raw s
      ]

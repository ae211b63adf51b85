-- ===== src/Http/Gates.antt =====
-- The checks of ServeHTTP of http.go in front of the stores.
use flob.Prelude.{
  ◌≤◌, ◌≡◌, refl, true, false, not, ◌&&◌, Option, some, arith, if◌then◌else◌, Bool-cases, inl, inr,
  ◌⊎◌, none, ◌||◌, by_test,
}
use flob.Prelude.Text.{Text, contains, is_empty}
use flob.Meta.{Meta}
use flob.Mem.Staging.{Result}
use flob.Errors.{Error, unauthenticated, forbidden, is}
use flob.Hashing.{Hashing, sanitize}
use flob.Auth.Policy.{Action}
use flob.Http.Paths.{parse_path}
use flob.Http.Handler.{
  Backend, Method, get, head, Request, Response, Handler, failure, is_read, is_empty_list,
  action_of, authorize, dispatch, admit, serve_http, is_post, redirect_answer, presign_answer,
  stream_answer, get_answer,
}

-- Stat, Open and PresignOpen keep a property of the state.
pub record ReadsKeep {S : Type 0} (b : Backend S) (P : S → Type 0) : Type 0 where
  pub stat_kept : (id d : Text) (s : S) → P s → P (b.stat id d s).1
  pub open_kept : (id d : Text) (s : S) → P s → P (b.open_blob id d s).1
  pub presign_kept :
      (id d : Text) (s s' : S) (loc : Result (Text × Meta))
      → b.presign id d s ≡ some (loc, s')
      → P s
      → P s'

module _ {S : Type 0} (b : Backend S) (P : S → Type 0) (keep : ReadsKeep b P) where
  presign_answer-kept :
      (id d : Text) (s : S) (o : Option (Result (Text × Meta) × S))
      → ((loc : Result (Text × Meta)) (s' : S) → o ≡ some (loc, s') → P s')
      → P s
      → P (presign_answer b id d s o).1
  presign_answer-kept id d s none kept good = keep.open_kept id d s good
  presign_answer-kept id d s (some (loc, s')) kept good =
      by_redirect (redirect_answer loc) (kept loc s' refl)
    where
      by_redirect :
          (o : Option Response)
          → P s'
          → P (
              let q : Response × S = elim o [ some r ↦ (r, s') | none ↦ stream_answer b id d s' ] in
              q.1)
      by_redirect (some r) good' = good'
      by_redirect none good' = keep.open_kept id d s' good'

  dispatch_kept :
      (h : Handler) (r : Request) (id d : Text) (s : S) (m : Method)
      → is_read m ≡ true
      → P s
      → P (dispatch b h r id d s m).1
  unfolding dispatch get_answer
  dispatch_kept h r id d s get k good =
      by_test (λ (q : Response × S). P q.1) h.redirect
        (λ yes.
          presign_answer-kept id d s (b.presign id d s)
            (λ loc s' eq. keep.presign_kept id d s s' loc eq good) good)
        (λ no. keep.open_kept id d s good)
  dispatch_kept h r id d s head k good = keep.stat_kept id d s good
  dispatch_kept h r id d s _ k good = absurd (cc k)

  admit_kept :
      (hashing : Hashing) (h : Handler) (r : Request) (id raw : Text) (s : S)
      → is_read r.method ≡ true
      → P s
      → P (admit b hashing h r id raw s).1
  unfolding admit
  admit_kept hashing h r id raw s k good =
      by_test (λ (q : Response × S). P q.1)
        (not (is_empty_list h.allowed_stores || contains h.allowed_stores id)) (λ out. good)
        (λ allowed.
          by_test (λ (q : Response × S). P q.1) (is_empty raw)
            (λ unnamed.
              by_test (λ (q : Response × S). P q.1) (is_post r.method)
                (λ post. gated raw (authorize h r id)) (λ not_post. good))
            (λ named. checked (sanitize hashing raw)))
    where
      gated :
          (d : Text) (o : Option Response)
          → P (
              let q : Response × S = elim o [
                | some refusal ↦ (refusal, s)
                | none ↦ dispatch b h r id d s r.method
              ] in
              q.1)
      gated d (some refusal) = good
      gated d none = dispatch_kept h r id d s r.method k good

      checked :
          (v : Option Error × Text)
          → P (
              let (bad, d) = v in
              let q : Response × S = elim bad [
                | some e ↦ (failure 400, s)
                | none ↦ elim (authorize h r id) [
                  | some refusal ↦ (refusal, s)
                  | none ↦ dispatch b h r id d s r.method
                ]
              ] in
              q.1)
      checked (some e, d) = good
      checked (none, d) = gated d (authorize h r id)

-- GET and HEAD, and with ReadOnly every request, reach a store through its reads alone: whatever the
-- configuration, a property of the state that the backend's Stat, Open and PresignOpen keep holds of
-- the state after the request if it holds before.
pub serve_http-read :
    {S : Type 0} (b : Backend S) (P : S → Type 0) (hashing : Hashing) (h : Handler) (r : Request)
    (s : S)
    → ReadsKeep b P
    → (is_read r.method ≡ true) ⊎ (h.read_only ≡ true)
    → P s
    → P (serve_http b hashing h r s).1
unfolding serve_http
serve_http-read {S} b P hashing h r s keep k good =
    by_test (λ (q : Response × S). P q.1) (h.read_only && not (is_read r.method)) (λ closed. good)
      (λ passed.
        by_path (parse_path r.path)
          (elim k [ inl reads ↦ reads | inr only ↦ ground (arith, passed, only) ]))
  where
    by_path :
        (o : Option (Text × Text))
        → is_read r.method ≡ true
        → P (
            let q : Response × S = elim o [
              | none ↦ (failure 400, s)
              | some (id, raw) ↦ admit b hashing h r id raw s
            ] in
            q.1)
    by_path none reads = good
    by_path (some (id, raw)) reads = admit_kept b P keep hashing h r id raw s reads good

-- A refused request: an error status, and the stores as they were.
abbrev pub IsRefused : {S : Type 0} → S → Response × S → Type 0
IsRefused s q = (400 ≤ q.0.status) × (q.1 ≡ s)

module _ {S : Type 0} (b : Backend S) (hashing : Hashing) (h : Handler) (r : Request) (s : S) where
  admit-IsRefused :
      (id raw : Text) (refusal : Response)
      → authorize h r id ≡ some refusal
      → 400 ≤ refusal.status
      → IsRefused s (admit b hashing h r id raw s)
  unfolding admit
  admit-IsRefused id raw refusal k high = ground (arith, k)

  refusal_status :
      (id : Text) (check : Request → Text → Action → Option Error) (a : Action) (e : Error)
      → h.authorizer ≡ some check
      → action_of r.method ≡ some a
      → check r id a ≡ some e
      → (q : Response) × (authorize h r id ≡ some q) × (400 ≤ q.status)
  unfolding authorize
  refusal_status id check a e gate known refused' = (
    if is e unauthenticated
        then failure 401
        else if is e forbidden
        then failure 403
        else failure 503,
    rw (gate, authorize, known, refused') (ground arith),
    ground arith,
  )

  -- A well-formed request that the authorizer refuses never reaches a store: the answer is an
  -- error status and no store changes, whatever else the request is.
  pub serve_http-unauthorized :
      (id raw : Text) (check : Request → Text → Action → Option Error) (a : Action) (e : Error)
      → parse_path r.path ≡ some (id, raw)
      → h.authorizer ≡ some check
      → action_of r.method ≡ some a
      → check r id a ≡ some e
      → IsRefused s (serve_http b hashing h r s)
  unfolding serve_http
  serve_http-unauthorized id raw check a e path gate known refused' =
      let (q, answer, high) = refusal_status id check a e gate known refused' in
      elim (Bool-cases (h.read_only && not (is_read r.method))) [
        | inl closed ↦ rw (closed, serve_http) (omega arith, refl)
        | inr open' ↦ rw (open', serve_http, path) (admit-IsRefused id raw q answer high)
      ]

  -- A request for a namespace that a nonempty list of allowed stores leaves out never reaches a
  -- store: the answer is an error status and no store changes.
  pub serve_http-not_allowed :
      (id raw : Text)
      → parse_path r.path ≡ some (id, raw)
      → is_empty_list h.allowed_stores ≡ false
      → contains h.allowed_stores id ≡ false
      → IsRefused s (serve_http b hashing h r s)
  unfolding serve_http admit
  serve_http-not_allowed id raw path some' out =
      elim (Bool-cases (h.read_only && not (is_read r.method))) [
        | inl closed ↦ rw (closed, serve_http) (omega arith, refl)
        | inr open' ↦ rw (open', serve_http, path, some', admit, out) (omega arith, refl)
      ]

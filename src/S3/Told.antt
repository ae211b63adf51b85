-- ===== src/S3/Told.antt =====
-- What the requests of an S3Stores tell of the bucket, and how they change it.
use flob.Prelude.{
  ◌≡◌, ◌≢◌, refl, ap, Bool, true, false, Option, none, some, is_some, by_test, ◌==◌, ==_iff, ◌||◌,
  ◌⊎◌, arith, length,
}
use flob.Prelude.Text.{Text, codes}
use flob.Prelude.Int.{pos}
use flob.Errors.{Error, not_exist, is}
use flob.Mem.Staging.{Result, ok, err}
use flob.S3.Service.{Service, ServiceLaws, Response, Object, Put, is_success, stored, metadata_of}
use flob.S3.Requests.{
  State, asks, tries, halts, moved, ask_head, ask_put, ask_delete, head, exists, delete_key_if,
}

-- A claim on what becomes of an answer, from one on the answer.
pub asks-rule {ℓ κ} :
    {A : Type ℓ} {B : Type κ} {S : Type 0} (Q : Result A × S → Type 0) (P : B → Type 0)
    (r : Result A × S) {failed : Error → S → B} {answered : A → S → B}
    → Q r
    → ((e : Error) (s : S) → Q (err e, s) → P (failed e s))
    → ((a : A) (s : S) → Q (ok a, s) → P (answered a s))
    → P (asks r failed answered)
asks-rule Q P (err e, s) q on_err on_ok = on_err e s q
asks-rule Q P (ok a, s) q on_err on_ok = on_ok a s q

pub tries-rule {κ} :
    {B : Type κ} {S : Type 0} (Q : Option Error × S → Type 0) (P : B → Type 0)
    (r : Option Error × S) {failed : Error → S → B} {done : S → B}
    → Q r
    → ((e : Error) (s : S) → Q (some e, s) → P (failed e s))
    → ((s : S) → Q (none, s) → P (done s))
    → P (tries r failed done)
tries-rule Q P (some e, s) q on_err on_ok = on_err e s q
tries-rule Q P (none, s) q on_err on_ok = on_ok s q

pub halts-rule {κ} :
    {B : Type κ} (P : B → Type 0) (o : Option Error) {failed : Error → B} {next : B}
    → ((e : Error) → P (failed e))
    → P next
    → P (halts o failed next)
halts-rule P (some e) on_err on_ok = on_err e
halts-rule P none on_err on_ok = on_ok

module _ {W : Type 0} (svc : Service W) (object : W → Text → Option Object)
    (laws : ServiceLaws svc object) where
  -- Two states with the same objects, and the same probe.
  abbrev pub IsSame : State W → State W → Type 0
  IsSame s t = (k : Text) → object t.world k ≡ object s.world k

  -- What a HEAD found under a key.
  abbrev pub IsFound : Text → State W → Result Response × State W → Type 0
  IsFound k s (err e, t) = IsSame s t
  IsFound k s (ok res, t) =
      IsSame s t
      × (o : Object) × (object s.world k ≡ some o)
      × (metadata_of res.headers ≡ o.metadata)
      × (res.length ≡ pos (length o.bytes))

  -- the same of the request alone, whose status is still to be read
  abbrev Asked : Text → State W → Result Response × State W → Type 0
  Asked k s (err e, t) = IsSame s t
  Asked k s (ok res, t) = IsSame s t × (res.status ≡ 200 → IsFound k s (ok res, t))

  Asked-at :
      (k : Text) (s : State W) (r : Result Response)
      → (svc.head k s.world).0 ≡ r
      → Asked k s (r, moved svc s (svc.head k s.world).1)
  Asked-at k s (err e) eq = λ k'. laws.head_same k s.world k'
  Asked-at k s (ok res) eq =
      let same : IsSame s (moved svc s (svc.head k s.world).1) =
        λ k'. laws.head_same k s.world k' in
      (
        same,
        λ found.
            let (o, there, metadata, size) = laws.head_found k s.world res eq found in
            (same, o, there, metadata, size),
      )

  -- HEAD tells what is there, and changes nothing.
  pub head-IsFound : (k : Text) (s : State W) → IsFound k s (head svc k s)
  unfolding head
  head-IsFound k s =
      asks-rule (Asked k s) (IsFound k s) (ask_head svc k s) (Asked-at k s _ refl)
        (λ e t same. same)
        (λ res t told.
          by_test (IsFound k s) (res.status == 200) (λ yes. told.1 ((==_iff res.status 200).0 yes))
            (λ no. by_test (IsFound k s) (res.status == 404) (λ yes. told.0) (λ no'. told.0)))

  -- What `exists` tells.
  abbrev pub IsTold : Text → State W → Result Bool × State W → Type 0
  IsTold k s (err e, t) = IsSame s t
  IsTold k s (ok false, t) = IsSame s t
  IsTold k s (ok true, t) = IsSame s t × (is_some (object s.world k) ≡ true)

  pub exists-IsTold : (k : Text) (s : State W) → IsTold k s (exists svc k s)
  unfolding exists
  exists-IsTold k s =
      asks-rule (IsFound k s) (IsTold k s) (head svc k s) (head-IsFound k s)
        (λ e t same. by_test (IsTold k s) (is e not_exist) (λ missing. same) (λ failed. same))
        (λ res t (same, o, there, metadata, size). (same, ap is_some there))

  -- A DELETE changes its key only.
  abbrev pub IsOnlyAt : Text → State W → State W → Type 0
  IsOnlyAt k s t = (k' : Text) → k' ≢ k → object t.world k' ≡ object s.world k'

  -- It leaves the object or removes it.
  abbrev pub IsCut : Text → State W → State W → Type 0
  IsCut k s t = IsOnlyAt k s t × ((object t.world k ≡ object s.world k) ⊎ (object t.world k ≡ none))

  abbrev pub IsDeleted : {A : Type 0} → Text → State W → A × State W → Type 0
  IsDeleted k s (e, t) = IsCut k s t

  -- A PUT changes its key only.
  abbrev pub IsStored : Put → State W → Result Response × State W → Type 0
  IsStored p s (err e, t) =
      IsOnlyAt p.key s t
      × ((object t.world p.key ≡ object s.world p.key) ⊎ (object t.world p.key ≡ some (stored p)))
  IsStored p s (ok res, t) =
      IsOnlyAt p.key s t
      × ((object t.world p.key ≡ object s.world p.key) ⊎ (object t.world p.key ≡ some (stored p)))
      × (is_success res ≡ true → object t.world p.key ≡ some (stored p))

  IsStored-at :
      (p : Put) (s : State W) (r : Result Response)
      → (svc.put p s.world).0.0 ≡ r
      → IsStored p s (r, moved svc s (svc.put p s.world).1)
  IsStored-at p s (err e) eq = (λ k. laws.put_others p s.world k, laws.put_either p s.world)
  IsStored-at p s (ok res) eq = (
    λ k. laws.put_others p s.world k,
    laws.put_either p s.world,
    λ success. (laws.put_stored p s.world res eq success).0,
  )

  pub put-IsStored : (p : Put) (s : State W) → IsStored p s (ask_put svc p s)
  put-IsStored p s = IsStored-at p s _ refl

  pub delete_key_if-IsDeleted :
      (k etag : Text) (s : State W) → IsDeleted k s (delete_key_if svc k etag s)
  unfolding delete_key_if
  delete_key_if-IsDeleted k etag s =
      asks-rule (IsDeleted k s) (IsDeleted k s) (ask_delete svc k etag s)
        (λ k'. laws.delete_others k etag s.world k', laws.delete_either k etag s.world)
        (λ e t removed. removed)
        (λ res t removed.
          by_test (IsDeleted k s) (res.status == 200 || res.status == 204 || res.status == 404)
            (λ gone. removed) (λ failed. removed))

  abbrev GoneBy : Text → State W → Result Response × State W → Type 0
  GoneBy k s (err e, t) = IsCut k s t
  GoneBy k s (ok res, t) =
      IsCut k s t
      × ((res.status ≡ 200) ⊎ (res.status ≡ 204) ⊎ (res.status ≡ 404) → object t.world k ≡ none)

  gone_at :
      (k : Text) (s : State W) (r : Result Response)
      → (svc.delete k (codes "") s.world).0 ≡ r
      → GoneBy k s (r, moved svc s (svc.delete k (codes "") s.world).1)
  gone_at k s (err e) eq =
      (λ k'. laws.delete_others k (codes "") s.world k', laws.delete_either k (codes "") s.world)
  gone_at k s (ok res) eq = (
    (λ k'. laws.delete_others k (codes "") s.world k', laws.delete_either k (codes "") s.world),
    laws.delete_gone k s.world res eq,
  )

  -- A DELETE with no ETag that answers no error has removed the object.
  abbrev pub IsGone : Text → State W → Option Error × State W → Type 0
  IsGone k s (some e, t) = IsCut k s t
  IsGone k s (none, t) = IsOnlyAt k s t × (object t.world k ≡ none)

  pub delete_key-IsGone : (k : Text) (s : State W) → IsGone k s (delete_key_if svc k (codes "") s)
  unfolding delete_key_if
  delete_key-IsGone k s =
      asks-rule (GoneBy k s) (IsGone k s) (ask_delete svc k (codes "") s) (gone_at k s _ refl)
        (λ e t removed. removed)
        (λ res t removed.
          by_test (IsGone k s) (res.status == 200 || res.status == 204 || res.status == 404)
            (λ gone. (removed.0.0, removed.1 (ground (arith, gone)))) (λ failed. removed.0))

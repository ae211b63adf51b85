-- ===== src/S3/Requests.antt =====
-- The requests of s3.go that its operations are made of, on the state of an S3Stores.
use flob.Prelude.{Bool, true, false, not, Option, none, some, [], ◌==◌, ◌||◌, if◌then◌else◌}
use flob.Prelude.Text.{Text, codes}
use flob.Prelude.Int.{ℤ, pos}
use flob.Errors.{Error, not_exist, other, is}
use flob.Hashing.{Hashing}
use flob.Meta.{Labels}
use flob.Mem.Staging.{Result, ok, err}
use flob.S3.Keys.{blob_key, trash_key, ref_key}
use flob.S3.Markers.{marker}
use flob.S3.Service.{Service, Response, Put, is_success}

-- S3Stores: what the service is in, and the checksumProbe. `running` is set only while a probe runs.
pub record State (W : Type 0) : Type 0 where
  pub world : W
  pub running : Bool
  pub known : Bool
  pub checks : Bool

-- An answer and the state after it, handed on with or without an error.
abbrev pub asks {ℓ κ} :
    {A : Type ℓ} {B : Type κ} {S : Type 0} → Result A × S → (Error → S → B) → (A → S → B) → B
asks (err e, s) failed answered = failed e s
asks (ok a, s) failed answered = answered a s

-- The same for an operation that answers no more than an error.
abbrev pub tries {κ} : {B : Type κ} {S : Type 0} → Option Error × S → (Error → S → B) → (S → B) → B
tries (some e, s) failed done = failed e s
tries (none, s) failed done = done s

-- A step that may fail before anything else happens.
abbrev pub halts {κ} : {B : Type κ} → Option Error → (Error → B) → B → B
halts (some e) failed next = failed e
halts none failed next = next

abbrev pub empty_payload_hash : Text
empty_payload_hash = codes "e3b0c44298fc1c149afbf4c8996fb92427ae41e4649b934ca495991b7852b855"

module _ {W : Type 0} (svc : Service W) where
  abbrev pub moved : State W → W → State W
  moved s w = record s { world = w }

  abbrev pub ask_head : Text → State W → Result Response × State W
  ask_head key s = ((svc.head key s.world).0, moved s (svc.head key s.world).1)

  abbrev pub ask_put : Put → State W → Result Response × State W
  ask_put p s = ((svc.put p s.world).0.0, moved s (svc.put p s.world).1)

  abbrev pub ask_delete : Text → Text → State W → Result Response × State W
  ask_delete key etag s = ((svc.delete key etag s.world).0, moved s (svc.delete key etag s.world).1)

  -- S3Stores.head
  unfoldable pub head : Text → State W → Result Response × State W
  head key s =
      asks (ask_head key s) (λ e s'. (err e, s'))
        (λ res s'.
          if res.status == 200
          then (ok res, s')
          else if res.status == 404
          then (err not_exist, s')
          else (err (other res.status), s'))

  -- S3Stores.exists
  unfoldable pub exists : Text → State W → Result Bool × State W
  unfolding head
  exists key s =
      asks (head key s) (λ e s'. if is e not_exist then (ok false, s') else (err e, s'))
        (λ res s'. (ok true, s'))

  -- S3Stores.deleteKeyIf, and deleteKey with no ETag
  unfoldable pub delete_key_if : Text → Text → State W → Option Error × State W
  delete_key_if key etag s =
      asks (ask_delete key etag s) (λ e s'. (some e, s'))
        (λ res s'.
          if res.status == 200 || res.status == 204 || res.status == 404
          then (none, s')
          else (some (other res.status), s'))

module _ {W : Type 0} (svc : Service W) (h : Hashing) (prefix : Text) where
  -- S3Stores.headBlob
  unfoldable pub head_blob : Text → State W → Result (Text × Response) × State W
  unfolding head
  head_blob d s =
      asks (head svc (blob_key h prefix d) s)
        (λ e s'.
          if not (is e not_exist)
          then (err e, s')
          else asks (head svc (trash_key h prefix d) s') (λ e' t. (err e', t))
              (λ res t. (ok (trash_key h prefix d, res), t)))
        (λ res s'. (ok (blob_key h prefix d, res), s'))

  -- the request of putRef, and of Link with `only_new`
  abbrev pub ref_put : Text → Text → Labels → ℤ → Bool → Put
  ref_put d id labels size only_new = record {
    key = ref_key h prefix d id;
    body = record { bytes = []; failure = none };
    size = pos 0;
    payload_hash = empty_payload_hash;
    checksum = none;
    metadata = marker labels size;
    only_new = only_new;
  }

  -- S3Stores.putRef
  unfoldable pub put_ref : Text → Text → Labels → ℤ → State W → Option Error × State W
  put_ref d id labels size s =
      asks (ask_put svc (ref_put d id labels size false) s) (λ e s'. (some e, s'))
        (λ res s'. if is_success res then (none, s') else (some (other res.status), s'))

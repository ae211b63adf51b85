-- ===== src/S3/Copied.antt =====
-- What the S3 API says of copies, and copyObject of reclaim.go in one request.
use flob.Prelude.{
  ℕ, zero, suc, ◌+◌, ◌-◌, ◌/◌, ◌<◌, ◌≡◌, ◌≢◌, refl, sym, ap, ◌∙◌, true, Option, none, some, List,
  [], ◌∷◌, ◌++◌, ◌⊎◌, inl, inr, arith, length, take, drop, min, ◌==◌, by_test,
}
use flob.Prelude.Text.{Text}
use flob.Errors.{Error}
use flob.Meta.{Source}
use flob.Mem.Staging.{Result, ok, err}
use flob.S3.Service.{Service, Response, Object, is_success}
use flob.S3.Requests.{State, moved}
use flob.S3.Told.{asks-rule}
use flob.S3.Probe.{Config}
use flob.S3.Copying.{copy_result, copy_whole, ask_copy}

-- The bytes of the parts of an upload in a given order.
abbrev pub put_before : Option (List ℕ) → Option (List ℕ) → Option (List ℕ)
put_before none b = none
put_before (some a) none = none
put_before (some a) (some b) = some (a ++ b)

abbrev pub joined : (ℕ → Text → Option (List ℕ)) → List (ℕ × Text) → Option (List ℕ)
joined staged [] = some []
joined staged ((n, etag) ∷ parts) = put_before (staged n etag) (joined staged parts)

-- What the S3 API says of copies. `staged` is the part of an upload that a number and an ETag name.
pub record CopyingLaws {W : Type 0} (s : Service W) (object : W → Text → Option Object)
    : Type 0 where
  pub staged : W → Text → ℕ → Text → Option (List ℕ)
  pub copy_others :
      (dst src : Text) (w : W) (k : Text) → k ≢ dst → object (s.copy dst src w).1 k ≡ object w k
  pub copy_either :
      (dst src : Text) (w : W)
      → (object (s.copy dst src w).1 dst ≡ object w dst)
        ⊎ (o : Object) × (object w src ≡ some o) × (object (s.copy dst src w).1 dst ≡ some o)
  pub copy_done :
      (dst src : Text) (w : W) (res : Response) (body : Source)
      → (s.copy dst src w).0 ≡ ok (res, body)
      → is_success res ≡ true
      → copy_result body ≡ none
      → (o : Object) × (object w src ≡ some o) × (object (s.copy dst src w).1 dst ≡ some o)
  pub create_same :
      (dst : Text) (w : W) (k : Text) → object (s.create_upload dst w).1 k ≡ object w k
  pub abort_same :
      (dst upload : Text) (w : W) (k : Text) → object (s.abort_upload dst upload w) k ≡ object w k
  pub part_same :
      (dst upload : Text) (n : ℕ) (src : Text) (first last : ℕ) (w : W) (k : Text)
      → object (s.copy_part dst upload n src first last w).1 k ≡ object w k
  pub part_staged :
      (dst upload : Text) (n : ℕ) (src : Text) (first last : ℕ) (w : W) (status : ℕ) (etag : Text)
      → (s.copy_part dst upload n src first last w).0 ≡ ok (status, ok etag)
      → (status / 100 == 2) ≡ true
      → (o : Object) × (object w src ≡ some o)
        × (staged (s.copy_part dst upload n src first last w).1 upload n etag
            ≡ some (take (last + 1 - first) (drop first o.bytes)))
  pub part_others :
      (dst upload : Text) (n : ℕ) (src : Text) (first last : ℕ) (w : W) (m : ℕ) (etag : Text)
      → m ≢ n
      → staged (s.copy_part dst upload n src first last w).1 upload m etag ≡ staged w upload m etag
  pub complete_others :
      (dst upload : Text) (parts : List (ℕ × Text)) (w : W) (k : Text)
      → k ≢ dst
      → object (s.complete_upload dst upload parts w).1 k ≡ object w k
  pub complete_either :
      (dst upload : Text) (parts : List (ℕ × Text)) (w : W)
      → (object (s.complete_upload dst upload parts w).1 dst ≡ object w dst)
        ⊎ (o : Object) × (joined (staged w upload) parts ≡ some o.bytes)
          × (object (s.complete_upload dst upload parts w).1 dst ≡ some o)
  pub complete_done :
      (dst upload : Text) (parts : List (ℕ × Text)) (w : W) (res : Response) (body : Source)
      → (s.complete_upload dst upload parts w).0 ≡ ok (res, body)
      → is_success res ≡ true
      → copy_result body ≡ none
      → (o : Object) × (joined (staged w upload) parts ≡ some o.bytes)
        × (object (s.complete_upload dst upload parts w).1 dst ≡ some o)

module _ {A : Type 0} where
  take_nil : (n : ℕ) → take {A = A} n [] ≡ []
  take_nil zero = refl
  take_nil (suc n) = refl

  take-drop : (n k : ℕ) (xs : List A) → take n xs ++ take k (drop n xs) ≡ take (n + k) xs
  take-drop zero k xs = ap (λ m. take m xs) {y = 0 + k} (omega arith)
  take-drop (suc n) k [] = take_nil k ∙ sym (take_nil (suc n + k))
  take-drop (suc n) k (x ∷ xs) =
      ap (λ t. x ∷ t) (take-drop n k xs)
      ∙ ap (λ m. take m (x ∷ xs)) {x = suc (n + k)} {y = suc n + k} (omega arith)

  take-min : (n : ℕ) (xs : List A) → take (min n (length xs)) xs ≡ take n xs
  take-min zero xs = ap (λ m. take m xs) {y = 0} (omega arith)
  take-min (suc n) [] = ap (λ m. take m []) {x = min (suc n) 0} {y = 0} (omega arith)
  take-min (suc n) (x ∷ xs) =
      ap (λ m. take m (x ∷ xs)) {y = suc (min n (length xs))} (omega arith)
      ∙ ap (λ t. x ∷ t) (take-min n xs)

  -- The next slice of a list behind those that were taken.
  pub slice-append :
      (offset part size : ℕ) (xs : List A)
      → size ≡ length xs
      → offset < size
      → 0 < part
      → take offset xs ++ take (min (offset + part) size - 1 + 1 - offset) (drop offset xs)
        ≡ take (offset + part) xs
  slice-append offset part size xs e h p =
      take-drop offset (min (offset + part) size - 1 + 1 - offset) xs
      ∙ ap (λ m. take m xs) {y = min (offset + part) (length xs)} (omega arith)
      ∙ take-min (offset + part) xs

module _ {W : Type 0} (svc : Service W) (object : W → Text → Option Object)
    (laws : CopyingLaws svc object) (c : Config) where
  abbrev pub Same : State W → State W → Type 0
  Same s t = (k : Text) → object t.world k ≡ object s.world k

  -- The target has the bytes of what the source was.
  abbrev pub HasCopy : Text → Text → State W → State W → Type 0
  HasCopy dst src s t =
      (o : Object) × (o' : Object) × (object s.world src ≡ some o)
      × (object t.world dst ≡ some o')
      × (o'.bytes ≡ o.bytes)

  -- No other key changes, and the target stays or has the copy.
  abbrev pub Targets : Text → Text → State W → State W → Type 0
  Targets dst src s t =
      ((k : Text) → k ≢ dst → object t.world k ≡ object s.world k)
      × ((object t.world dst ≡ object s.world dst) ⊎ HasCopy dst src s t)

  -- With no error it has the copy.
  abbrev pub IsCopied : Text → Text → State W → Option Error × State W → Type 0
  IsCopied dst src s (some e, t) = Targets dst src s t
  IsCopied dst src s (none, t) = Targets dst src s t × HasCopy dst src s t

  pub Same-Targets : (dst src : Text) (s t : State W) → Same s t → Targets dst src s t
  Same-Targets dst src s t same = (λ k differ. same k, inl (same dst))

  -- what copyResult makes of a success
  pub judged :
      (dst src : Text) (s t : State W) (body : Source)
      → Targets dst src s t
      → (copy_result body ≡ none → HasCopy dst src s t)
      → IsCopied dst src s (copy_result body, t)
  judged dst src s t body targets has = go (copy_result body) has
    where
      go : (e : Option Error) → (e ≡ none → HasCopy dst src s t) → IsCopied dst src s (e, t)
      go none has = (targets, has refl)
      go (some e) has = targets

  -- CopyObject
  abbrev Asked : Text → Text → State W → Result (Response × Source) × State W → Type 0
  Asked dst src s (err e, t) = Targets dst src s t
  Asked dst src s (ok (res, body), t) =
      Targets dst src s t × (is_success res ≡ true → copy_result body ≡ none → HasCopy dst src s t)

  Asked-at :
      (dst src : Text) (s : State W) (r : Result (Response × Source))
      → (svc.copy dst src s.world).0 ≡ r
      → Asked dst src s (r, moved svc s (svc.copy dst src s.world).1)
  Asked-at dst src s r eq = go r eq
    where
      targets : Targets dst src s (moved svc s (svc.copy dst src s.world).1)
      targets = (
        λ k. laws.copy_others dst src s.world k,
        elim (laws.copy_either dst src s.world) [
          | inl same ↦ inl same
          | inr (o, there, copy) ↦ inr (o, o, there, copy, refl)
        ],
      )

      go :
          (r : Result (Response × Source))
          → (svc.copy dst src s.world).0 ≡ r
          → Asked dst src s (r, moved svc s (svc.copy dst src s.world).1)
      go (err e) eq = targets
      go (ok (res, body)) eq = (
        targets,
        λ success fine.
            let (o, there, copy) = laws.copy_done dst src s.world res body eq success fine in
            (o, o, there, copy, refl),
      )

  pub copy_whole-IsCopied :
      (dst src : Text) (s : State W) → IsCopied dst src s (copy_whole svc c dst src s)
  unfolding copy_whole
  copy_whole-IsCopied dst src s =
      asks-rule (Asked dst src s) (IsCopied dst src s) (ask_copy svc c dst src s)
        (Asked-at dst src s _ refl) (λ e t targets. targets)
        (λ answer t told.
          by_test (IsCopied dst src s) (is_success answer.0)
            (λ success. judged dst src s t answer.1 told.0 (told.1 success)) (λ failed. told.0))

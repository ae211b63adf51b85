-- ===== src/S3/Trusting.antt =====
-- checksumProbe of s3.go: when an S3Stores may take it that the service checks x-amz-checksum-sha256.
use flob.Prelude.{
  ◌≡◌, refl, sym, Bool, true, false, ◌&&◌, ◌||◌, ◌⊎◌, inl, inr, Option, by_test, arith, ◌==◌,
}
use mathlib.Core.Path.{subst}
use flob.Prelude.Text.{Text}
use flob.Errors.{not_exist, is}
use flob.Hashing.{Hashing}
use flob.Mem.Staging.{Result}
use flob.S3.Service.{Service, CheckingLaws, Object}
use flob.S3.Requests.{State, head, exists, delete_key_if, ask_head, ask_delete}
use flob.S3.Told.{asks-rule}
use flob.S3.Probe.{DirectAdd, probe, always, never}

-- What is known of the service is as it was.
abbrev pub SameFlags : {W : Type 0} → State W → State W → Type 0
SameFlags s t = (t.known ≡ s.known) × (t.checks ≡ s.checks)

module _ {W : Type 0} (svc : Service W) where
  head-SameFlags : (k : Text) (s : State W) → SameFlags s (head svc k s).1
  unfolding head
  head-SameFlags k s =
      asks-rule (λ a. SameFlags s a.1) (λ (a : Result _ × State W). SameFlags s a.1)
        (ask_head svc k s) (refl, refl) (λ e t same. same)
        (λ res t same.
          by_test (λ (a : Result _ × State W). SameFlags s a.1) (res.status == 200) (λ yes. same)
            (λ no.
              by_test (λ (a : Result _ × State W). SameFlags s a.1) (res.status == 404)
                (λ yes. same) (λ no'. same)))

  pub exists-SameFlags : (k : Text) (s : State W) → SameFlags s (exists svc k s).1
  unfolding exists
  exists-SameFlags k s =
      asks-rule (λ a. SameFlags s a.1) (λ (a : Result Bool × State W). SameFlags s a.1)
        (head svc k s) (head-SameFlags k s)
        (λ e t same.
          by_test (λ (a : Result Bool × State W). SameFlags s a.1) (is e not_exist) (λ yes. same)
            (λ no. same))
        (λ res t same. same)

  pub delete_key_if-SameFlags :
      (k etag : Text) (s : State W) → SameFlags s (delete_key_if svc k etag s).1
  unfolding delete_key_if
  delete_key_if-SameFlags k etag s =
      asks-rule (λ a. SameFlags s a.1) (λ (a : Option _ × State W). SameFlags s a.1)
        (ask_delete svc k etag s) (refl, refl) (λ e t same. same)
        (λ res t same.
          by_test (λ (a : Option _ × State W). SameFlags s a.1)
            (res.status == 200 || res.status == 204 || res.status == 404) (λ yes. same)
            (λ no. same))

module _ {W : Type 0} (svc : Service W) (object : W → Text → Option Object) (h : Hashing)
    (checking : CheckingLaws svc object h) where
  -- Streaming is safe: it is never done, or the service enforces checksums, as the configuration says
  -- or as the state of the probe has it.
  abbrev pub Trusts : DirectAdd → State W → Type 0
  Trusts always s = checking.enforces ≡ true
  Trusts never s = Unit
  Trusts probe s = ((s.known && s.checks) ≡ false) ⊎ (checking.enforces ≡ true)

  pub Trusts-after :
      (mode : DirectAdd) (s t : State W) → SameFlags s t → Trusts mode s → Trusts mode t
  Trusts-after always s t same trusts = trusts
  Trusts-after never s t same trusts = tt
  Trusts-after probe s t (known, checks) (inr strict) = inr strict
  Trusts-after probe s t (known, checks) (inl idle) = inl (ground (arith, known, checks, idle))

  -- Of a pool that never streams, or whose service enforces checksums, in every state.
  pub Trusts-always :
      (mode : DirectAdd) (s : State W) → (mode ≡ never) ⊎ (checking.enforces ≡ true) → Trusts mode s
  Trusts-always mode s (inl idle) = subst (λ m. Trusts m s) (sym idle) tt
  Trusts-always always s (inr strict) = strict
  Trusts-always never s (inr strict) = tt
  Trusts-always probe s (inr strict) = inr strict

-- ===== src/S3/Streams.antt =====
-- The streamed Add of s3.go, and the probe that decides on it.
use mathlib.Core.Path.{subst}
use mathlib.Core.List.{append_assoc}
use flob.Prelude.{
  ℕ, ◌≡◌, refl, sym, ap, ◌∙◌, Bool, true, not, Option, none, some, List, [], is_some, by_test, inl,
  inr, arith, take, drop, Option-cases, Bool-cases, ==_iff, false, ◌&&◌, ◌||◌, ◌==◌, ◌/◌,
}
use flob.Prelude.Text.{Text, codes, text_eq, text_eq_iff, cut_prefix}
use flob.Prelude.Int.{pos, pos_part, ltb_ℤ, eq_ℤ}
use flob.Errors.{Error}
use flob.Hashing.{Hashing, from_bytes}
use flob.Namespace.Base64.{AllBytes}
use flob.Meta.{Meta, Source, Added}
use flob.Mem.Staging.{Result, ok, err}
use flob.S3.Named.{DigestLaws}
use flob.S3.Service.{
  Service, ServiceLaws, CheckingLaws, Object, Put, Taken, is_success, stored, Response,
}
use flob.S3.Requests.{State, moved, ask_put, delete_key_if}
use flob.S3.Trusting.{SameFlags, Trusts, delete_key_if-SameFlags}
use flob.S3.Told.{asks-rule, halts-rule, IsOnlyAt, delete_key_if-IsDeleted}
use flob.S3.Sound.{IsRight, aside-IsSound}
use flob.S3.Probe.{
  Config, DirectAdd, streams_by, settled, probe_body, probe_key, probe_put, probe_checksums,
  streams, unsigned_payload, probe, always, never,
}
use flob.S3.Adding.{
  blob_put, put_blob, judge_stream, finish_stream, stream, hex_decode, sha256, is_nil,
}
use flob.S3.Keeping.{Sound, Held, Leaves, add_ref-Sound, IsUploaded, put_blob-IsUploaded}

module _ {W : Type 0} (svc : Service W) (object : W → Text → Option Object)
    (laws : ServiceLaws svc object) (h : Hashing) (checking : CheckingLaws svc object h)
    (names : DigestLaws h) (c : Config) (id : Text) (bytes : AllBytes id) where
  abbrev pub IsKept : State W → Type 0
  IsKept s = Sound svc object laws h names c id bytes s

  abbrev Ends : Added × State W → Type 0
  Ends a = Leaves svc object laws h names c id bytes a

  -- An answer whose state is sound.
  abbrev Stays : {A : Type 0} → A × State W → Type 0
  Stays (a, s) = IsKept s

  -- What a success tells of a streamed body: what was read of it has the digest.
  abbrev IsRead : Meta → Source → Taken → Type 0
  IsRead m r taken = text_eq (from_bytes h sha256 (take taken.count r.bytes)) m.digest ≡ true

  finish_stream-IsKept :
      (m : Meta) (r : Source) (count : ℕ) (s : State W)
      → h.validate m.digest ≡ none
      → Held svc object laws h names c id bytes m.digest s
      → IsKept s
      → Ends (finish_stream svc h c id m r count s)
  finish_stream-IsKept m r count s valid held sound =
      by_test Ends (not (is_nil (drop count r.bytes))) (λ longer. sound)
        (λ ended.
          halts-rule Ends r.failure (λ e. sound)
            (add_ref-Sound svc object laws h names c id bytes m m.size s valid held sound))

  Uploaded-IsKept :
      {A : Type 0} (E : Type 0) (d : Text) (a : Result A × State W)
      → IsUploaded svc object laws h names c id bytes E d a
      → IsKept a.1
  unfolding IsUploaded
  Uploaded-IsKept E d (err e, t) after = after
  Uploaded-IsKept E d (ok a, t) (after, held, told) = after

  fails :
      (b : Bool) (m : Meta) (e : Option Error) (s : State W)
      → b && is_some e ≡ true
      → IsKept s
      → Ends ((m, e), s)
  fails b m none s failed kept = absurd (ground (arith, failed))
  fails b m (some e) s failed kept = kept

  judge_stream-IsKept :
      (m : Meta) (r : Source) (taken : Taken) (answer : Result Text × State W)
      → h.validate m.digest ≡ none
      → IsUploaded svc object laws h names c id bytes (IsRead m r taken) m.digest answer
      → Ends (judge_stream svc h c id m r taken answer)
  unfolding judge_stream IsUploaded
  judge_stream-IsKept m r taken answer valid after =
      let read = IsRead m r taken in
      let kept = Uploaded-IsKept read m.digest answer after in
      by_test Ends (taken.ended && is_some r.failure)
        (λ failed. fails taken.ended m r.failure answer.1 failed kept)
        (λ whole.
          by_test Ends (ltb_ℤ (pos taken.count) m.size && taken.ended) (λ short. kept)
            (λ enough.
              asks-rule (IsUploaded svc object laws h names c id bytes read m.digest) Ends answer
                after
                (λ e s sound.
                  by_test Ends
                    (eq_ℤ (pos taken.count) m.size
                      && not (text_eq (from_bytes h sha256 (take taken.count r.bytes)) m.digest))
                    (λ refused. sound) (λ other. sound))
                (λ etag s (sound, held, right).
                  by_test Ends
                    (not (text_eq (from_bytes h sha256 (take taken.count r.bytes)) m.digest))
                    (λ wrong. absurd (ground (arith, wrong, right)))
                    (λ fine. finish_stream-IsKept m r taken.count s valid held sound))))

  -- the PUT of a stream
  abbrev streamed : Meta → Source → List ℕ → Put
  streamed m r sum = blob_put svc h c id m.digest r m.size unsigned_payload (some sum)

  streamed_right :
      (m : Meta) (r : Source) (sum : List ℕ)
      → h.validate m.digest ≡ none
      → h.algorithm m.digest ≡ sha256
      → hex_decode (h.encoded m.digest) ≡ some sum
      → h.sum256 (stored (streamed m r sum)).bytes ≡ sum
      → from_bytes h sha256 (take (pos_part m.size) r.bytes) ≡ m.digest
  streamed_right m r sum valid algo decoded checked =
      names.summed m.digest (take (pos_part m.size) r.bytes) valid algo
        (decoded ∙ ap some (sym checked))

  pub stream-IsKept :
      (m : Meta) (r : Source) (s : State W)
      → h.validate m.digest ≡ none
      → h.algorithm m.digest ≡ sha256
      → checking.enforces ≡ true
      → IsKept s
      → Ends (stream svc h c id m r s)
  unfolding stream IsRight
  stream-IsKept m r s valid algo enforced sound =
      elim (Option-cases (hex_decode (h.encoded m.digest))) [
        | inl bad ↦ rw (stream, bad) sound
        | inr (sum, decoded) ↦
            let p = streamed m r sum in
            let taken = (svc.put p s.world).0.1 in
            rw (stream, decoded)
              (judge_stream-IsKept m r taken (put_blob svc h c id p s) valid (
                put_blob-IsUploaded svc object laws h names c id bytes (IsRead m r taken) m.digest r
                  m.size unsigned_payload (some sum) s valid
                  (elim (checking.checked p s.world sum enforced refl) [
                    | inl same ↦ inl same
                    | inr (new, checked) ↦ inr (
                      stored p,
                      new,
                      ap (λ a. from_bytes h a (take (pos_part m.size) r.bytes)) algo
                          ∙ streamed_right m r sum valid algo decoded checked,
                    )
                  ])
                  (λ res answer yes. (text_eq_iff _ m.digest).1 (
                    ap (λ n. from_bytes h sha256 (take n r.bytes))
                      (laws.put_stored p s.world res answer yes).1
                    ∙ streamed_right m r sum valid algo decoded
                        (checking.checked_success p s.world sum res enforced refl answer yes)))
                  sound))
      ]

  -- The probe touches its own key only.
  probe-IsKept :
      (s t : State W) → IsOnlyAt svc object laws (probe_key svc h c) s t → IsKept s → IsKept t
  unfolding cut_prefix
  probe-IsKept s t only =
      aside-IsSound h names c.prefix (codes "probe/") (codes "checksum") (object s.world)
        (object t.world) refl refl refl
        (subst (λ k. IsOnlyAt svc object laws k s t)
          (sym (append_assoc c.prefix (codes "probe/") (codes "checksum"))) only)

  tidy-IsKept :
      (s : State W) → IsKept s → IsKept (delete_key_if svc (probe_key svc h c) (codes "") s).1
  tidy-IsKept s sound =
      probe-IsKept s (delete_key_if svc (probe_key svc h c) (codes "") s).1
        (delete_key_if-IsDeleted svc object laws (probe_key svc h c) (codes "") s).0 sound

  -- What the probe finds: `true` is that the service enforces checksums.
  abbrev Probed : State W → Result Bool × State W → Type 0
  Probed s (err e, t) = IsKept t × SameFlags s t
  Probed s (ok false, t) = IsKept t × SameFlags s t
  Probed s (ok true, t) = IsKept t × SameFlags s t × (checking.enforces ≡ true)

  abbrev refused_put : Put
  refused_put = probe_put svc h c []

  -- the first PUT of the probe
  abbrev Refused : State W → Result Response × State W → Type 0
  Refused s (err e, t) = IsKept t × SameFlags s t
  Refused s (ok res, t) = IsKept t × SameFlags s t × (res.status ≡ 400 → checking.enforces ≡ true)

  Refused-at :
      (s : State W) (a : Result Response)
      → (svc.put refused_put s.world).0.0 ≡ a
      → IsKept (moved svc s (svc.put refused_put s.world).1)
      → Refused s (a, moved svc s (svc.put refused_put s.world).1)
  Refused-at s (err e) eq kept = (kept, (refl, refl))
  Refused-at s (ok res) eq kept = (
    kept,
    (refl, refl),
    λ bad. elim (Bool-cases checking.enforces) [
      | inl strict ↦ strict
      | inr lax ↦ absurd (checking.ignored refused_put s.world _ res lax refl refl refl eq bad)
    ],
  )

  tidied :
      (s t : State W)
      → IsKept t
      → SameFlags s t
      → IsKept (delete_key_if svc (probe_key svc h c) (codes "") t).1
        × SameFlags s (delete_key_if svc (probe_key svc h c) (codes "") t).1
  tidied s t kept (known, checks) =
      let (known', checks') = delete_key_if-SameFlags svc (probe_key svc h c) (codes "") t in
      (tidy-IsKept t kept, (known' ∙ known, checks' ∙ checks))

  probe_checksums-Probed : (s : State W) → IsKept s → Probed s (probe_checksums svc h c s)
  unfolding probe_checksums
  probe_checksums-Probed s sound =
      asks-rule (Refused s) (Probed s) (ask_put svc refused_put s)
        (Refused-at s _ refl (
          probe-IsKept s (moved svc s (svc.put refused_put s.world).1)
            (λ k. laws.put_others refused_put s.world k) sound))
        (λ e t after. after)
        (λ res t (kept, same, enforced).
          by_test (Probed s) (res.status == 400)
            (λ refused.
              asks-rule (λ r. IsKept r.1 × SameFlags s r.1) (Probed s)
                (ask_put svc (probe_put svc h c probe_body) t)
                (
                  probe-IsKept t (moved svc t (svc.put (probe_put svc h c probe_body) t.world).1)
                      (λ k. laws.put_others (probe_put svc h c probe_body) t.world k) kept,
                  same,
                )
                (λ e u again. again)
                (λ res' u (kept', same').
                  by_test (Probed s) (is_success res')
                    (λ yes.
                      let (clean, same'') = tidied s u kept' same' in
                      (clean, same'', enforced ((==_iff res.status 400).0 refused)))
                    (λ no.
                      by_test (Probed s) (res'.status / 100 == 4) (λ bad. (kept', same'))
                        (λ other. (kept', same')))))
            (λ taken.
              by_test (Probed s) (is_success res) (λ yes. tidied s t kept same)
                (λ no.
                  by_test (Probed s) (res.status / 100 == 4) (λ bad. (kept, same))
                    (λ other. (kept, same)))))

  -- Whether an Add streams: only to a service that enforces checksums.
  abbrev pub Finishes : Bool × State W → Type 0
  Finishes (false, s) = IsKept s
  Finishes (true, s) = IsKept s × (checking.enforces ≡ true)

  abbrev TrustsNow : State W → Type 0
  TrustsNow s = Trusts svc object h checking probe s

  answered :
      (s : State W) (direct : Bool)
      → (s.known && s.checks) ≡ direct
      → TrustsNow s
      → IsKept s
      → Finishes (direct, s)
  answered s false eq trusts kept = kept
  answered s true eq (inl idle) kept = absurd (ground (arith, eq, idle))
  answered s true eq (inr strict) kept = (kept, strict)

  first_answer :
      (s t : State W) (checks : Bool)
      → s.known ≡ false
      → Probed (record s { running = true }) (ok checks, t)
      → Finishes (settled svc h c checks (record t { running = false }))
  first_answer s t false fresh (kept, (known, flag)) =
      by_test (λ (now : State W). Finishes (now.known && now.checks, now)) t.known
        (λ old. absurd (ground (arith, old, known, fresh))) (λ new. kept)
  first_answer s t true fresh (kept, (known, flag), enforced) =
      by_test (λ (now : State W). Finishes (now.known && now.checks, now)) t.known
        (λ old. absurd (ground (arith, old, known, fresh))) (λ new. (kept, enforced))

  pub streams-IsKept :
      (s : State W)
      → IsKept s
      → Trusts svc object h checking c.direct_add s
      → Finishes (streams svc h c s)
  unfolding streams
  streams-IsKept s sound trusted = by_mode c.direct_add trusted
    where
      by_mode :
          (mode : DirectAdd)
          → Trusts svc object h checking mode s
          → Finishes (streams_by svc h c mode s)
      by_mode always trusts = (sound, trusts)
      by_mode never trusts = sound
      by_mode probe trusts =
          by_test Finishes (s.known || s.running)
            (λ asked. answered s (s.known && s.checks) refl trusts sound)
            (λ first.
              asks-rule (Probed (record s { running = true })) Finishes
                (probe_checksums svc h c (record s { running = true }))
                (probe_checksums-Probed (record s { running = true }) sound) (λ e t after. after.0)
                (λ checks t. first_answer s t checks (ground (arith, first))))

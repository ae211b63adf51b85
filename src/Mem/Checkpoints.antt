-- ===== src/Mem/Checkpoints.antt =====
-- The offset and the checkpoint of a stage of mem.go against the bytes appended to it.
use flob.Prelude.{
  ℕ, ◌≡◌, ◌≢◌, refl, ap, ◌∙◌, false, not, none, some, List, [], ◌∷◌, ◌++◌, length, arith,
  Bool-cases, Option-cases, inl, inr,
}
use flob.Prelude.Text.{Text, text_eq_refl}
use flob.Prelude.Int.{ℤ, pos, eq_ℤ, eq_ℤ_iff}
use flob.Hashing.{Hashing, HashingLaws, from_bytes, render, sanitize}
use flob.Meta.{Meta, Call, Source}
use flob.Stage.{
  StageRecord, Restored, bad_hash, hash_of, stage_hash_restore, prepared, prepare_commit, frozen,
  check_digest, validate, Restored-cases,
}
use flob.Mem.State.{Pool, StageEntry, load, store, load-store}
use flob.Mem.Staging.{
  is_active, append_restored, appended, acquire, append, append_to, Result-cases,
}
use flob.Mem.Lifecycle.{acquire-found}
use flob.Mem.Transitions.{acquire-valid}

module _ (h : Hashing) where
  abbrev pub hashed : Text → List ℕ → h.State
  hashed algo bytes = h.write (h.start algo) bytes

  -- The offset counts the bytes, and the checkpoint is the hash of all of them.
  pub record IsTracking (s : StageEntry) : Type 0 where
    pub offset : s.stage.offset ≡ pos (length s.bytes)
    pub hash : s.stage.hash ≡ h.marshal (hashed s.stage.algorithm s.bytes)

  validate-hash : (r : StageRecord) → validate h r ≡ none → r.hash ≢ []
  unfolding validate
  validate-hash r k e = ground (arith, k, e)

  restore-hash :
      (algo : Text) (hash : List ℕ) (q : h.State)
      → hash ≢ []
      → stage_hash_restore h algo hash ≡ hash_of q
      → h.unmarshal algo hash ≡ some q
  unfolding stage_hash_restore
  restore-hash algo [] q full k = absurd (full refl)
  restore-hash algo (b ∷ bs) q full k = ground (arith, k)

check_digest-frozen :
    (h : Hashing) (computed : Text) (r : StageRecord) (m m' : Meta)
    → check_digest h computed r m ≡ prepared m'
    → m' ≡ frozen computed r m
unfolding check_digest sanitize
check_digest-frozen h computed r m m' k = ground arith

module _ (h : Hashing) (laws : HashingLaws h) where
  -- The state that a tracked stage's checkpoint restores is the hash of its bytes.
  restored_state :
      (s : StageEntry) (q : h.State)
      → IsTracking h s
      → s.stage.hash ≢ []
      → stage_hash_restore h s.stage.algorithm s.stage.hash ≡ hash_of q
      → q ≡ hashed h s.stage.algorithm s.bytes
  restored_state s q t full k = cc (
    restore-hash h s.stage.algorithm s.stage.hash q full k,
    laws.resume s.stage.algorithm s.bytes,
    t.hash,
  )

  appended-IsTracking :
      (call : Call) (s : StageEntry) (q : h.State) (r : Source) (p : Pool)
      → q ≡ hashed h s.stage.algorithm s.bytes
      → IsTracking h (appended h call q r s p.config)
  appended-IsTracking call s q r p same = record {
    offset = refl;
    hash = ap h.marshal (
        ap (λ x. h.write x r.bytes) same
        ∙ laws.write_append (h.start s.stage.algorithm) s.bytes r.bytes);
  }

  -- What a successful Append leaves: the bytes one after the other, tracked, and the new offset.
  abbrev pub Extends : Text → StageEntry → List ℕ → ℤ → Pool → Type 0
  Extends stage_id s bytes n p' =
      (s' : StageEntry) × (load stage_id p'.stages ≡ some s')
      × (s'.bytes ≡ s.bytes ++ bytes)
      × (n ≡ pos (length (s.bytes ++ bytes)))
      × IsTracking h s'

  append_restored-Extends :
      (call : Call) (stage_id : Text) (r : Source) (s : StageEntry) (p p' : Pool) (q : Restored h)
      (n : ℤ)
      → IsTracking h s
      → s.stage.hash ≢ []
      → stage_hash_restore h s.stage.algorithm s.stage.hash ≡ q
      → append_restored h call stage_id r s p q ≡ ((n, none), p')
      → Extends stage_id s r.bytes n p'
  unfolding append_restored
  append_restored-Extends call stage_id r s p p' (bad_hash e) n t full k a = absurd (cc a)
  append_restored-Extends call stage_id r s p p' (hash_of q) n t full k a =
      elim (Option-cases r.failure) [
        | inr (e, failed) ↦ absurd (cc (rw (failed, append_restored) at a))
        | inl whole ↦ elim (Option-cases (call.ctx_err 2)) [
          | inr (e, ended) ↦ absurd (cc (rw (whole, ended, append_restored) at a))
          | inl live ↦
              let s' = appended h call q r s p.config in
              let a' : (
                (pos (length (s.bytes ++ r.bytes)), none),
                record p { stages = store stage_id s' p.stages },
              )
                  ≡ ((n, none), p') =
                rw (whole, live, append_restored) at a in
              let same : record p { stages = store stage_id s' p.stages } ≡ p' = cc a' in
              (
                s',
                rw (← same) (rw (load-store stage_id stage_id s' p.stages, text_eq_refl stage_id)),
                refl,
                cc a',
                appended-IsTracking call s q r p (restored_state s q t full k),
              )
        ]
      ]

  -- A successful Append to a stage whose offset and checkpoint are those of its bytes was made at
  -- the stage's offset, adds exactly the bytes of its reader behind those that are there, returns
  -- their number, and leaves the offset and the checkpoint those of all bytes. The laws of the
  -- hash library are assumed.
  pub append-Extends :
      (call : Call) (id stage_id : Text) (offset : ℤ) (r : Source) (s : StageEntry) (p p' : Pool)
      (n : ℤ)
      → load stage_id p.stages ≡ some s
      → IsTracking h s
      → append h call id stage_id offset r p ≡ ((n, none), p')
      → (offset ≡ s.stage.offset) × Extends stage_id s r.bytes n p'
  unfolding append append_to
  append-Extends call id stage_id offset r s p p' n there t k =
      elim (Result-cases (acquire h call id stage_id false p)) [
        | inr (e, refusal) ↦ absurd (cc (rw (refusal, append) at k))
        | inl (s', got) ↦
            let same : s ≡ s' = cc (there, acquire-found h call id stage_id false p s' got) in
            let full = validate-hash h s'.stage (acquire-valid h call id stage_id false p s' got) in
            let k' = rw (got, append) at k in
            elim (Bool-cases (not (is_active s'.stage.state))) [
              | inl closed ↦ absurd (cc (rw (closed, append_to) at k'))
              | inr active ↦ elim (Bool-cases (not (eq_ℤ offset s'.stage.offset))) [
                | inl off ↦ absurd (cc (rw (active, off, append_to) at k'))
                | inr on ↦ (
                  rw same (ground (arith, on, eq_ℤ_iff offset s'.stage.offset)),
                  rw same (
                      append_restored-Extends call stage_id r s' p p' _ n (rw same at t) full refl
                        (rw (active, on, append_to) at k')),
                )
              ]
            ]
      ]

  -- What the commit of a stage whose offset and checkpoint are those of its bytes is frozen to,
  -- if it is accepted: the digest of these bytes under the stage's algorithm, their number, and
  -- the labels that were given. The laws of the hash library are assumed.
  pub prepare_commit-IsDigest :
      (s : StageEntry) (m m' : Meta)
      → IsTracking h s
      → prepare_commit h s.stage m ≡ prepared m'
      → (m'.digest ≡ from_bytes h s.stage.algorithm s.bytes)
        × (m'.size ≡ pos (length s.bytes))
        × (m'.labels ≡ m.labels)
  unfolding prepare_commit
  prepare_commit-IsDigest s m m' t k = elim (Option-cases (validate h s.stage)) [
    | inr (e, bad) ↦ absurd (cc (rw (bad, prepare_commit) at k))
    | inl valid ↦ elim (Restored-cases h (stage_hash_restore h s.stage.algorithm s.stage.hash)) [
      | inl (e, bad) ↦ absurd (cc (rw (valid, bad, prepare_commit) at k))
      | inr (q, good) ↦
          let state = restored_state s q t (validate-hash h s.stage valid) good in
          let digest = ap (render h s.stage.algorithm) state in
          let same =
            check_digest-frozen h (render h s.stage.algorithm q) s.stage m m'
              (rw (valid, good, prepare_commit) at k) in
          rw same (rw digest (unfold from_bytes in refl), t.offset, refl)
    ]
  ]

-- ===== src/Mem/Staging.antt =====
-- The stages of mem.go: Begin, Resume, Stat and Append. A stage's lock is held for the whole of each
-- modelled step, so a step is one operation.
use flob.Prelude.{
  ◌+◌, ◌≡◌, refl, ◌⊎◌, inl, inr, Bool, true, false, not, ◌&&◌, Option, none, some, [], ◌∷◌, ◌++◌,
  length, if◌then◌else◌,
}
use flob.Prelude.Text.{Text, text_eq}
use flob.Prelude.Int.{ℤ, pos, eq_ℤ}
use flob.Errors.{Error, not_exist, stage_expired, stage_closed, stage_conflict, offset_mismatch}
use flob.Hashing.{Hashing}
use flob.Meta.{Call, Source}
use flob.Namespace.{namespace_segment}
use flob.Stage.{
  StageState, StageConfig, normal_ttl, valid_stage_id, expired, Restored, bad_hash, hash_of,
  stage_hash_restore, validate, failed, created, new_stage_record,
}
use flob.Mem.State.{Pool, StageEntry, load, store}

-- A value, or the error of an operation that has none.
pub data Result {ℓ} (A : Type ℓ) : Type ℓ where
  ok : A → Result A
  err : Error → Result A

pub Result-cases {ℓ} :
    {A : Type ℓ} (r : Result A) → ((a : A) × (r ≡ ok a)) ⊎ ((e : Error) × (r ≡ err e))
Result-cases (ok a) = inl (a, refl)
Result-cases (err e) = inr (e, refl)

abbrev pub is_active : StageState → Bool
is_active StageState.active = true
is_active _ = false

abbrev pub is_committing : StageState → Bool
is_committing StageState.committing = true
is_committing _ = false

-- MemStore.Begin: `stage_id` is the random ID in hexadecimal.
unfoldable pub begin : Hashing → Call → Text → Text → Text → Pool → Result Text × Pool
begin h call id algo stage_id p = elim (call.ctx_err 0) [
  | some e ↦ (err e, p)
  | none ↦ elim (new_stage_record h id algo stage_id p.config (call.clock 0)) [
    | failed e ↦ (err e, p)
    | created r ↦ elim (load r.id p.stages) [
      | some s ↦ (err stage_conflict, p)
      | none ↦ (ok r.id, record p { stages = (r.id, record { stage = r; bytes = [] }) ∷ p.stages })
    ]
  ]
]

-- memStage.acquire by the store `id`
unfoldable pub acquire : Hashing → Call → Text → Text → Bool → Pool → Result StageEntry
acquire h call id stage_id allow_expired p = elim (call.ctx_err 0) [
  | some e ↦ err e
  | none ↦ if not (valid_stage_id stage_id) then err not_exist else elim (load stage_id p.stages) [
    | none ↦ err not_exist
    | some s ↦
        if not (text_eq s.stage.namespace (namespace_segment id))
        then err not_exist
        else elim (call.ctx_err 1) [
          | some e ↦ err e
          | none ↦ elim (validate h s.stage) [
            | some e ↦ err e
            | none ↦
                if not (is_committing s.stage.state)
                  && expired s.stage (call.clock 0)
                  && not allow_expired
                then err stage_expired
                else ok s
          ]
        ]
  ]
]

abbrev pub put : Text → StageEntry → Pool → Pool
put stage_id s p = record p { stages = store stage_id s p.stages }

-- the stage that a successful Append leaves
abbrev pub appended :
    (h : Hashing) → Call → h.State → Source → StageEntry → StageConfig → StageEntry
appended h call state r s cfg = record {
  stage = record (s.stage) {
    offset = pos (length (s.bytes ++ r.bytes));
    hash = h.marshal (h.write state r.bytes);
    expires_at = call.clock 1 + normal_ttl cfg;
  };
  bytes = s.bytes ++ r.bytes;
}

-- The part of `Append` that follows stageHashRestore: what was read is hashed and kept, or
-- nothing is.
unfoldable pub append_restored :
    (h : Hashing)
    → Call
    → Text
    → Source
    → StageEntry
    → Pool
    → Restored h
    → (ℤ × Option Error) × Pool
append_restored h call stage_id r s p (bad_hash e) = ((s.stage.offset, some e), p)
append_restored h call stage_id r s p (hash_of state) = elim r.failure [
  | some e ↦ ((s.stage.offset, some e), p)
  | none ↦ elim (call.ctx_err 2) [
    | some e ↦ ((s.stage.offset, some e), p)
    | none ↦ (
      (pos (length (s.bytes ++ r.bytes)), none),
      put stage_id (appended h call state r s p.config) p,
    )
  ]
]

-- The part of `Append` that follows acquire
unfoldable pub append_to :
    Hashing → Call → Text → ℤ → Source → StageEntry → Pool → (ℤ × Option Error) × Pool
unfolding append_restored
append_to h call stage_id offset r s p =
    let current = s.stage.offset in
    if not (is_active s.stage.state)
    then ((current, some stage_closed), p)
    else if not (eq_ℤ offset current)
    then ((current, some offset_mismatch), p)
    else append_restored h call stage_id r s p (stage_hash_restore h s.stage.algorithm s.stage.hash)

-- memStage.Append
unfoldable pub append : Hashing → Call → Text → Text → ℤ → Source → Pool → (ℤ × Option Error) × Pool
unfolding acquire append_to
append h call id stage_id offset r p = elim (acquire h call id stage_id false p) [
  | err e ↦ ((pos 0, some e), p)
  | ok s ↦ append_to h call stage_id offset r s p
]

-- memStage.Stat, and Resume, which is a Stat
unfoldable pub stat : Hashing → Call → Text → Text → Pool → Result StageEntry
unfolding acquire
stat h call id stage_id p = acquire h call id stage_id false p

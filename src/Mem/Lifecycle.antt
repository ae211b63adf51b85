-- ===== src/Mem/Lifecycle.antt =====
-- The life of an upload stage: which states follow which, and what a stage holds.
use flob.Prelude.{
  ℕ, zero, suc, ◌≡◌, refl, Bool, false, none, some, List, [], arith, Bool-cases, Option-cases, inl,
  inr, ◌⊎◌,
}
use flob.Prelude.Text.{Text, text_eq, text_eq_iff, text_eq_refl}
use flob.Prelude.Int.{ℤ}
use flob.Errors.{Error, not_exist, already_exists, is}
use flob.Hashing.{Hashing}
use flob.Meta.{Meta, Call, Source, Added}
use flob.Namespace.{namespace_segment}
use flob.Namespace.Base64.{AllBytes}
use flob.Namespace.RoundTrip.{namespace_segment-injective}
use flob.Stage.{StageState, StageRecord}
use flob.Mem.State.{Pool, StageEntry, load, store, load-store}
use flob.Mem.Store.{publish, obtain, attach, open_blob}
use flob.Mem.Staging.{Result, ok, err, acquire, append, append_to, Result-cases}
use flob.Mem.Settling.{settled, after_publish, complete}

-- The states that may follow a state in one operation.
pub data Moves : StageState → StageState → Type 0 where
  stays : (s : StageState) → Moves s s
  freezes : Moves StageState.active StageState.committing
  completes : Moves StageState.active StageState.committed
  resumes : Moves StageState.committing StageState.committed
  aborts : Moves StageState.active StageState.aborted

append_to_atomic :
    (h : Hashing) (call : Call) (stage_id : Text) (offset : ℤ) (r : Source) (s : StageEntry)
    (p : Pool) (n : ℤ) (e : Error) (p' : Pool)
    → append_to h call stage_id offset r s p ≡ ((n, some e), p')
    → p' ≡ p
unfolding append_to
append_to_atomic h call stage_id offset r s p n e p' k = ground arith

-- Append never keeps part of what it read: if it answers an error, the pool is as it was.
pub append_atomic :
    (h : Hashing) (call : Call) (id stage_id : Text) (offset : ℤ) (r : Source) (p : Pool) (n : ℤ)
    (e : Error) (p' : Pool)
    → append h call id stage_id offset r p ≡ ((n, some e), p')
    → p' ≡ p
unfolding append append_to
append_atomic h call id stage_id offset r p n e p' k =
    elim (Result-cases (acquire h call id stage_id false p)) [
      | inr (e', refused') ↦ cc (rw (refused', append) at k)
      | inl (s, got) ↦ append_to_atomic h call stage_id offset r s p n e p' (rw (got, append) at k)
    ]

-- With a live context, an operation through a store of another namespace than the owner's finds
-- no stage, both namespaces being strings of bytes.
pub acquire_foreign :
    (h : Hashing) (call : Call) (id owner stage_id : Text) (allow : Bool) (p : Pool)
    (s : StageEntry)
    → AllBytes id
    → AllBytes owner
    → load stage_id p.stages ≡ some s
    → s.stage.namespace ≡ namespace_segment owner
    → text_eq owner id ≡ false
    → call.ctx_err 0 ≡ none
    → acquire h call id stage_id allow p ≡ err not_exist
unfolding acquire
acquire_foreign h call id owner stage_id allow p s hid howner there owned other live = ground (
  arith,
  there,
  text_eq_iff s.stage.namespace (namespace_segment id),
  text_eq_iff owner id,
  namespace_segment-injective owner id howner hid,
  live,
)

-- acquire hands out the stage that the pool holds.
pub acquire-found :
    (h : Hashing) (call : Call) (id stage_id : Text) (allow : Bool) (p : Pool) (s : StageEntry)
    → acquire h call id stage_id allow p ≡ ok s
    → load stage_id p.stages ≡ some s
unfolding acquire
acquire-found h call id stage_id allow p s k = elim (Option-cases (load stage_id p.stages)) [
  | inl missing ↦ absurd (ground (arith, missing))
  | inr (s', found) ↦ ground (arith, found)
]

stages-obtain :
    (fuel : ℕ) (d : Text) (bytes : List ℕ) (p p' : Pool) (a : ℕ)
    → obtain fuel d bytes p ≡ some (a, p')
    → p'.stages ≡ p.stages
unfolding obtain
stages-obtain zero d bytes p p' a k = cc
stages-obtain (suc fuel) d bytes p p' a k = ground (arith, stages-obtain fuel d bytes p p' a)

stages-attach :
    (id : Text) (m : Meta) (now a : ℕ) (p : Pool) → (attach id m now a p).1.stages ≡ p.stages
unfolding attach
stages-attach id m now a p = ground arith

stages-publish :
    (fuel : ℕ) (id : Text) (m : Meta) (now : ℕ) (bytes : List ℕ) (p p' : Pool) (r : Added)
    → publish fuel id m now bytes p ≡ some (r, p')
    → p'.stages ≡ p.stages
unfolding publish
stages-publish fuel id m now bytes p p' r k = elim (Option-cases (obtain fuel m.digest bytes p)) [
  | inl out ↦ cc (rw (out, publish) at k)
  | inr ((a, q), got) ↦
      let same : some (attach id m now a q) ≡ some (r, p') = rw (got, publish) at k in
      cc (same, stages-attach id m now a q, stages-obtain fuel m.digest bytes p q a got)
]

-- What an operation leaves of the stages: all as they were, or this one with its receipt.
abbrev pub IsSettled : Text → StageRecord → Pool → Pool → Type 0
IsSettled stage_id r p p' =
    (p'.stages ≡ p.stages)
    ⊎ ((m : Meta) × (t : ℕ) × (p'.stages
          ≡ store stage_id (record { stage = settled m t r; bytes = [] }) p.stages))

after_publish-IsSettled :
    (call : Call) (id stage_id : Text) (s : StageEntry) (a : Added) (p : Pool)
    → IsSettled stage_id s.stage p (after_publish call id stage_id s a p).1
unfolding after_publish
after_publish-IsSettled call id stage_id s (m, none) p = inr (m, _, refl)
after_publish-IsSettled call id stage_id s (m, some e) p = elim (Bool-cases (is e already_exists)) [
  | inr other ↦ rw (other, after_publish) (inl refl)
  | inl dup ↦ elim (Option-cases (open_blob id s.stage.commit.digest p)) [
    | inl hidden ↦ rw (dup, hidden, after_publish) (inl refl)
    | inr (c, shown) ↦ elim (Option-cases (call.ctx_err 3)) [
      | inr (e', ended) ↦ rw (dup, shown, ended, after_publish) (inl refl)
      | inl live ↦ rw (dup, shown, live, after_publish) (inr (_, _, refl))
    ]
  ]
]

pub complete-IsSettled :
    (fuel : ℕ) (call : Call) (id stage_id : Text) (s : StageEntry) (p p' : Pool) (r : Result Meta)
    → complete fuel call id stage_id s p ≡ some (r, p')
    → IsSettled stage_id s.stage p p'
unfolding complete
complete-IsSettled fuel call id stage_id s p p' r k = elim (Option-cases (call.ctx_err 2)) [
  | inr (e, ended) ↦ let k' = rw (ended, complete) at k in inl (cc k')
  | inl live ↦ elim (Option-cases (publish fuel id s.stage.commit call.now s.bytes p)) [
    | inl out ↦ absurd (cc (rw (live, out, complete) at k))
    | inr ((a, q), done) ↦
        let same = stages-publish fuel id s.stage.commit call.now s.bytes p q a done in
        let k' : some (after_publish call id stage_id s a q) ≡ some (r, p') =
          rw (live, done, complete) at k in
        elim (after_publish-IsSettled call id stage_id s a q) [
          | inl e ↦ inl (cc (k', e, same))
          | inr (m, t, e) ↦ inr (m, t, cc (k', e, same))
        ]
  ]
]

-- A stage is in the pool in some state, and an operation has moved it along an allowed edge.
abbrev pub HasMoved : Text → StageState → Pool → Type 0
HasMoved stage_id before p =
    (s : StageEntry) × (load stage_id p.stages ≡ some s) × Moves before s.stage.state

pub HasMoved-same :
    (stage_id : Text) (s : StageEntry) (p p' : Pool)
    → load stage_id p.stages ≡ some s
    → p'.stages ≡ p.stages
    → HasMoved stage_id s.stage.state p'
HasMoved-same stage_id s p p' there same = (s, rw same there, stays s.stage.state)

pub HasMoved-put :
    (stage_id : Text) (before : StageState) (s : StageEntry) (p p' : Pool)
    → p'.stages ≡ store stage_id s p.stages
    → Moves before s.stage.state
    → HasMoved stage_id before p'
HasMoved-put stage_id before s p p' same moves =
    (s, rw same (rw (load-store stage_id stage_id s p.stages, text_eq_refl stage_id)), moves)

pub complete-HasMoved :
    (fuel : ℕ) (call : Call) (id stage_id : Text) (s : StageEntry) (p p' : Pool) (r : Result Meta)
    → s.stage.state ≡ StageState.committing
    → load stage_id p.stages ≡ some s
    → complete fuel call id stage_id s p ≡ some (r, p')
    → HasMoved stage_id StageState.committing p'
complete-HasMoved fuel call id stage_id s p p' r at_work there k =
    elim (complete-IsSettled fuel call id stage_id s p p' r k) [
      | inl same ↦ rw (← at_work) (HasMoved-same stage_id s p p' there same)
      | inr (m, t, e) ↦
          HasMoved-put stage_id StageState.committing _ p p' e (unfold settled in resumes)
    ]

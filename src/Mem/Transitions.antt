-- ===== src/Mem/Transitions.antt =====
-- The states of a stage of mem.go before and after Append, Commit and Abort.
use flob.Prelude.{
  ℕ, ◌+◌, [], ◌≡◌, ◌≢◌, refl, sym, Bool, true, false, not, Option, none, some, arith, Bool-cases,
  Option-cases, inl, inr,
}
use flob.Prelude.Text.{Text}
use flob.Prelude.Int.{ℤ, eq_ℤ}
use flob.Errors.{Error}
use flob.Hashing.{Hashing}
use flob.Meta.{Meta, Call, Source}
use flob.Stage.{
  StageState, StageRecord, Restored, stage_hash_restore, bad_hash, hash_of, validate,
  prepare_commit, stage_commit_matches, Prepared-cases, normal_retention,
}
use flob.Mem.State.{Pool, StageEntry, load, store}
use flob.Mem.Staging.{
  Result, is_active, append_restored, appended, ok, err, acquire, append, append_to, Result-cases,
}
use flob.Mem.Settling.{
  complete, commit_prepared, commit, abort_acquired, settled, abort, is_aborted,
}
use flob.Mem.Lifecycle.{
  stays, freezes, completes, aborts, HasMoved, HasMoved-put, complete-IsSettled, complete-HasMoved,
  acquire-found,
}

-- A record that passes validation is in one of the four known states.
validate-known :
    (h : Hashing) (r : StageRecord) → validate h r ≡ none → r.state ≢ StageState.unknown
unfolding validate
validate-known h r k e = ground (arith, k, e)

pub acquire-valid :
    (h : Hashing) (call : Call) (id stage_id : Text) (allow : Bool) (p : Pool) (s : StageEntry)
    → acquire h call id stage_id allow p ≡ ok s
    → validate h s.stage ≡ none
unfolding acquire
acquire-valid h call id stage_id allow p s k = elim (Option-cases (load stage_id p.stages)) [
  | inl missing ↦ absurd (ground (arith, missing))
  | inr (s', found) ↦ ground (arith, found)
]

restored_HasMoved :
    (h : Hashing) (call : Call) (stage_id : Text) (r : Source) (s : StageEntry) (p : Pool)
    (q : Restored h)
    → load stage_id p.stages ≡ some s
    → HasMoved stage_id s.stage.state (append_restored h call stage_id r s p q).1
unfolding append_restored
restored_HasMoved h call stage_id r s p (bad_hash e) there = (s, there, stays s.stage.state)
restored_HasMoved h call stage_id r s p (hash_of state) there = elim (Option-cases r.failure) [
  | inr (e, failed) ↦ rw (failed, append_restored) (s, there, stays s.stage.state)
  | inl whole ↦ elim (Option-cases (call.ctx_err 2)) [
    | inr (e, ended) ↦ rw (whole, ended, append_restored) (s, there, stays s.stage.state)
    | inl live ↦
        rw (whole, live, append_restored)
          (let s' = appended h call state r s p.config in
            HasMoved-put stage_id s.stage.state s' p
              (record p { stages = store stage_id s' p.stages }) refl (stays s.stage.state))
  ]
]

append_to-HasMoved :
    (h : Hashing) (call : Call) (stage_id : Text) (offset : ℤ) (r : Source) (s : StageEntry)
    (p : Pool)
    → load stage_id p.stages ≡ some s
    → HasMoved stage_id s.stage.state (append_to h call stage_id offset r s p).1
unfolding append_to
append_to-HasMoved h call stage_id offset r s p there =
    elim (Bool-cases (not (is_active s.stage.state))) [
      | inl closed ↦ rw (closed, append_to) (s, there, stays s.stage.state)
      | inr active ↦ elim (Bool-cases (not (eq_ℤ offset s.stage.offset))) [
        | inl off ↦ rw (active, off, append_to) (s, there, stays s.stage.state)
        | inr on ↦
            rw (active, on, append_to)
              (restored_HasMoved h call stage_id r s p
                (stage_hash_restore h s.stage.algorithm s.stage.hash) there)
      ]
    ]

-- Append to a stage that is there leaves it there, whatever it answers, in the same state or
-- moved along one of the edges of a stage's life.
pub append-HasMoved :
    (h : Hashing) (call : Call) (id stage_id : Text) (offset : ℤ) (r : Source) (s : StageEntry)
    (p : Pool)
    → load stage_id p.stages ≡ some s
    → HasMoved stage_id s.stage.state (append h call id stage_id offset r p).1
unfolding append
append-HasMoved h call id stage_id offset r s p there =
    elim (Result-cases (acquire h call id stage_id false p)) [
      | inr (e, refusal) ↦ rw (refusal, append) (s, there, stays s.stage.state)
      | inl (s', got) ↦
          let there' = acquire-found h call id stage_id false p s' got in
          let same : s' ≡ s = cc (there, there') in
          rw (got, append) (rw (← same) (append_to-HasMoved h call stage_id offset r s' p there'))
    ]

commit_prepared-HasMoved :
    (fuel : ℕ) (call : Call) (id stage_id : Text) (m : Meta) (s : StageEntry) (st : StageState)
    (p p' : Pool) (r : Result Meta)
    → st ≡ s.stage.state
    → st ≢ StageState.unknown
    → load stage_id p.stages ≡ some s
    → commit_prepared fuel call id stage_id m s st p ≡ some (r, p')
    → HasMoved stage_id st p'
unfolding commit_prepared
commit_prepared-HasMoved fuel call id stage_id m s StageState.committed p p' r e known there k =
    (s, ground (arith, there), rw (← e) (stays _))
commit_prepared-HasMoved fuel call id stage_id m s StageState.aborted p p' r e known there k =
    (s, ground (arith, there), rw (← e) (stays _))
commit_prepared-HasMoved fuel call id stage_id m s StageState.unknown p p' r e known there k =
    absurd (known refl)
commit_prepared-HasMoved fuel call id stage_id m s StageState.committing p p' r e known there k =
    elim (Bool-cases (stage_commit_matches m s.stage.commit)) [
      | inr other ↦ (s, ground (arith, there, other), rw (← e) (stays _))
      | inl same ↦
          complete-HasMoved fuel call id stage_id s p p' r (sym e) there
            (rw (same, commit_prepared) at k)
    ]
commit_prepared-HasMoved fuel call id stage_id m s StageState.active p p' r e known there k =
    let stage' : StageRecord = record (s.stage) { state = StageState.committing; commit = m } in
    let s' : StageEntry = record { stage = stage'; bytes = s.bytes } in
    let q : Pool = record p { stages = store stage_id s' p.stages } in
    elim (complete-IsSettled fuel call id stage_id s' q p' r k) [
      | inl same ↦ HasMoved-put stage_id StageState.active s' p p' same freezes
      | inr (m', t, e') ↦
          HasMoved-put stage_id StageState.active _ q p' e' (unfold settled in completes)
    ]

-- Commit of a stage that is there, if it returns, leaves it there in the same state or moved
-- along one of the edges from active to committing, committed or aborted, and from committing to
-- committed.
pub commit-HasMoved :
    (h : Hashing) (fuel : ℕ) (call : Call) (id stage_id : Text) (m : Meta) (s : StageEntry)
    (p p' : Pool) (r : Result Meta)
    → load stage_id p.stages ≡ some s
    → commit h fuel call id stage_id m p ≡ some (r, p')
    → HasMoved stage_id s.stage.state p'
unfolding commit
commit-HasMoved h fuel call id stage_id m s p p' r there k =
    elim (Result-cases (acquire h call id stage_id false p)) [
      | inr (e, refusal) ↦ (s, ground (arith, there, refusal, k), stays _)
      | inl (s', got) ↦
          let there' = acquire-found h call id stage_id false p s' got in
          let same : s' ≡ s = cc (there, there') in
          let k' = rw (got, commit) at k in
          rw (← same) (elim (Bool-cases (is_aborted s'.stage.state)) [
            | inl ended ↦ (s', ground (arith, there', ended, k'), stays _)
            | inr open' ↦ elim (Prepared-cases (prepare_commit h s'.stage m)) [
              | inl (e, refusal) ↦ (s', ground (arith, there', open', refusal, k'), stays _)
              | inr (m', frozen') ↦
                  commit_prepared-HasMoved fuel call id stage_id m' s' s'.stage.state p p' r refl
                    (validate-known h s'.stage (acquire-valid h call id stage_id false p s' got))
                    there' (rw (open', frozen') at k')
            ]
          ])
    ]

abort_acquired-HasMoved :
    (fuel : ℕ) (call : Call) (id stage_id : Text) (s : StageEntry) (st : StageState) (p p' : Pool)
    (r : Option Error)
    → st ≡ s.stage.state
    → st ≢ StageState.unknown
    → load stage_id p.stages ≡ some s
    → abort_acquired fuel call id stage_id s st p ≡ some (r, p')
    → HasMoved stage_id st p'
unfolding abort_acquired
abort_acquired-HasMoved fuel call id stage_id s StageState.committed p p' r e known there k =
    (s, ground (arith, there), rw (← e) (stays _))
abort_acquired-HasMoved fuel call id stage_id s StageState.aborted p p' r e known there k =
    (s, ground (arith, there), rw (← e) (stays _))
abort_acquired-HasMoved fuel call id stage_id s StageState.unknown p p' r e known there k =
    absurd (known refl)
abort_acquired-HasMoved fuel call id stage_id s StageState.active p p' r e known there k =
    let stage' : StageRecord = record (s.stage) {
      state = StageState.aborted;
      expires_at = call.clock 1 + normal_retention p.config;
    } in
    let s' : StageEntry = record { stage = stage'; bytes = [] } in
    HasMoved-put stage_id StageState.active s' p p' (ground (arith, k)) aborts
abort_acquired-HasMoved fuel call id stage_id s StageState.committing p p' r e known there k =
    elim (Option-cases (complete fuel call id stage_id s p)) [
      | inl out ↦ absurd (cc (rw (out, abort_acquired) at k))
      | inr ((ok m, q), done) ↦
          let k' : some (none, q) ≡ some (r, p') = rw (done, abort_acquired) at k in
          let same : q ≡ p' = cc k' in
          rw (← same) (complete-HasMoved fuel call id stage_id s p q (ok m) (sym e) there done)
      | inr ((err e', q), done) ↦
          let k' : some (some e', q) ≡ some (r, p') = rw (done, abort_acquired) at k in
          let same : q ≡ p' = cc k' in
          rw (← same) (complete-HasMoved fuel call id stage_id s p q (err e') (sym e) there done)
    ]

-- Abort of a stage that is there, if it returns, leaves it there in the same state or moved along
-- one of the edges from active to committing, committed or aborted, and from committing to
-- committed: an ended stage stays as it ended.
pub abort-HasMoved :
    (h : Hashing) (fuel : ℕ) (call : Call) (id stage_id : Text) (s : StageEntry) (p p' : Pool)
    (r : Option Error)
    → load stage_id p.stages ≡ some s
    → abort h fuel call id stage_id p ≡ some (r, p')
    → HasMoved stage_id s.stage.state p'
unfolding abort
abort-HasMoved h fuel call id stage_id s p p' r there k =
    elim (Result-cases (acquire h call id stage_id true p)) [
      | inr (e, refusal) ↦ (s, ground (arith, there, refusal, k), stays _)
      | inl (s', got) ↦
          let there' = acquire-found h call id stage_id true p s' got in
          let same : s' ≡ s = cc (there, there') in
          rw (← same) (
            abort_acquired-HasMoved fuel call id stage_id s' s'.stage.state p p' r refl
              (validate-known h s'.stage (acquire-valid h call id stage_id true p s' got)) there'
              (rw (got, abort) at k))
    ]

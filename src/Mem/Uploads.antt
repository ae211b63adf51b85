-- ===== src/Mem/Uploads.antt =====
-- Commit of mem.go on a valid pool.
use flob.Prelude.{
  ℕ, suc, ◌≡◌, refl, false, Option, none, some, List, Bool-cases, Option-cases, inl, inr,
}
use flob.Prelude.Text.{Text}
use flob.Errors.{already_exists, is}
use flob.Hashing.{Hashing}
use flob.Meta.{Meta, Call, Added}
use flob.Stage.{StageState, StageRecord, prepare_commit, stage_commit_matches, Prepared-cases}
use flob.Mem.State.{Pool, StageEntry, store, IsValid}
use flob.Mem.Store.{open_blob}
use flob.Mem.Invariant.{publish-Returns, HasRoom}
use flob.Mem.Staging.{Result, acquire, Result-cases}
use flob.Mem.Settling.{after_publish, complete, commit_prepared, commit, is_aborted}

IsValid-stages :
    (p : Pool) (stages : List (Text × StageEntry))
    → IsValid p
    → IsValid (record p { stages = stages })
IsValid-stages p stages v = record {
  unique = v.unique;
  linked = v.linked;
  counted = v.counted;
  apart = v.apart;
  allocated = v.allocated;
}

after_publish-IsValid :
    (call : Call) (id stage_id : Text) (s : StageEntry) (a : Added) (p : Pool)
    → IsValid p
    → IsValid (after_publish call id stage_id s a p).1
unfolding after_publish
after_publish-IsValid call id stage_id s (m, none) p v = IsValid-stages p _ v
after_publish-IsValid call id stage_id s (m, some e) p v = elim (Bool-cases (is e already_exists)) [
  | inr other ↦ rw (other, after_publish) v
  | inl dup ↦ elim (Option-cases (open_blob id s.stage.commit.digest p)) [
    | inl hidden ↦ rw (dup, hidden, after_publish) v
    | inr (c, shown) ↦ elim (Option-cases (call.ctx_err 3)) [
      | inr (e', ended) ↦ rw (dup, shown, ended, after_publish) v
      | inl live ↦ rw (dup, shown, live, after_publish) (IsValid-stages p _ v)
    ]
  ]
]

-- A run that returns, with a valid pool
abbrev pub Completes : Option (Result Meta × Pool) → Type 0
Completes o = (r : Result Meta) × (p' : Pool) × (o ≡ some (r, p')) × IsValid p'

complete-Completes :
    (fuel : ℕ) (call : Call) (id stage_id : Text) (s : StageEntry) (p : Pool)
    → IsValid p
    → HasRoom p
    → Completes (complete (suc fuel) call id stage_id s p)
unfolding complete
complete-Completes fuel call id stage_id s p v room = elim (Option-cases (call.ctx_err 2)) [
  | inr (e, ended) ↦ rw (ended, complete) (_, p, refl, v)
  | inl live ↦
      let (a, q, done, w) =
        publish-Returns fuel id s.stage.commit call.now s.bytes p v (room s.stage.commit.digest) in
      rw (live, done, complete)
        (
          _,
          (after_publish call id stage_id s a q).1,
          refl,
          after_publish-IsValid call id stage_id s a q w,
        )
]

commit_prepared-Completes :
    (fuel : ℕ) (call : Call) (id stage_id : Text) (m : Meta) (s : StageEntry) (st : StageState)
    (p : Pool)
    → IsValid p
    → HasRoom p
    → Completes (commit_prepared (suc fuel) call id stage_id m s st p)
unfolding commit_prepared
commit_prepared-Completes fuel call id stage_id m s StageState.committed p v room =
    elim (Bool-cases (stage_commit_matches m s.stage.commit)) [
      | inl same ↦ rw (same, commit_prepared) (_, p, refl, v)
      | inr other ↦ rw (other, commit_prepared) (_, p, refl, v)
    ]
commit_prepared-Completes fuel call id stage_id m s StageState.committing p v room =
    elim (Bool-cases (stage_commit_matches m s.stage.commit)) [
      | inl same ↦ rw (same, commit_prepared) (complete-Completes fuel call id stage_id s p v room)
      | inr other ↦ rw (other, commit_prepared) (_, p, refl, v)
    ]
commit_prepared-Completes fuel call id stage_id m s StageState.active p v room =
    let stage' : StageRecord = record (s.stage) { state = StageState.committing; commit = m } in
    let s' : StageEntry = record { stage = stage'; bytes = s.bytes } in
    let q : Pool = record p { stages = store stage_id s' p.stages } in
    complete-Completes fuel call id stage_id s' q (IsValid-stages p q.stages v) room
commit_prepared-Completes fuel call id stage_id m s StageState.aborted p v room = (_, p, refl, v)
commit_prepared-Completes fuel call id stage_id m s StageState.unknown p v room =
    complete-Completes fuel call id stage_id s p v room

-- On a valid pool with room for one more reference to each digest, Commit returns, whatever it is
-- asked, and leaves the pool valid.
pub commit-Completes :
    (h : Hashing) (fuel : ℕ) (call : Call) (id stage_id : Text) (m : Meta) (p : Pool)
    → IsValid p
    → HasRoom p
    → Completes (commit h (suc fuel) call id stage_id m p)
unfolding commit
commit-Completes h fuel call id stage_id m p v room =
    elim (Result-cases (acquire h call id stage_id false p)) [
      | inr (e, refusal) ↦ rw (refusal, commit) (_, p, refl, v)
      | inl (s, got) ↦ elim (Bool-cases (is_aborted s.stage.state)) [
        | inl ended ↦ rw (got, ended, commit) (_, p, refl, v)
        | inr open' ↦ elim (Prepared-cases (prepare_commit h s.stage m)) [
          | inl (e, refusal) ↦ rw (got, open', refusal, commit) (_, p, refl, v)
          | inr (m', frozen') ↦
              rw (got, open', frozen', commit)
                (commit_prepared-Completes fuel call id stage_id m' s s.stage.state p v room)
        ]
      ]
    ]

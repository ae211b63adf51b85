-- ===== src/Mem/Settling.antt =====
-- The end of a stage, in mem.go: Commit and Abort.
use flob.Prelude.{ℕ, ◌+◌, Bool, true, false, Option, none, some, [], length, if◌then◌else◌}
use flob.Prelude.Text.{Text}
use flob.Prelude.Int.{pos}
use flob.Errors.{Error, not_exist, already_exists, stage_closed, stage_conflict, is}
use flob.Hashing.{Hashing}
use flob.Meta.{Meta, Call, Added}
use flob.Stage.{
  StageState, StageRecord, normal_retention, refused, prepared, prepare_commit,
  stage_commit_matches,
}
use flob.Mem.State.{Pool, StageEntry, Content}
use flob.Mem.Store.{publish, open_blob}
use flob.Mem.Staging.{Result, ok, err, put, acquire}

-- the receipt that `complete` records
unfoldable pub settled : Meta → ℕ → StageRecord → StageRecord
settled m expires_at r = record r {
  state = StageState.committed;
  expires_at = expires_at;
  result = m;
}

abbrev finish : Call → Text → StageEntry → Meta → Pool → Result Meta × Pool
finish call stage_id s m p = (
  ok m,
  put stage_id
      (record { stage = settled m (call.clock 2 + normal_retention p.config) s.stage; bytes = [] })
      p,
)

-- What the store shows of a digest, as a Meta: infoMeta
abbrev info_meta : Text → Content → Meta
info_meta d c = record { digest = d; labels = c.labels; size = pos (length c.bytes) }

-- The part of `complete` that follows publish: a blob that is there already is success, with what
-- it has. The context is asked by Labels of the blob's Info, in infoMeta.
unfoldable pub after_publish : Call → Text → Text → StageEntry → Added → Pool → Result Meta × Pool
unfolding settled
after_publish call id stage_id s (m, none) p = finish call stage_id s m p
after_publish call id stage_id s (m, some e) p =
    if is e already_exists
    then (elim (open_blob id s.stage.commit.digest p) [
      | none ↦ (err not_exist, p)
      | some c ↦ elim (call.ctx_err 3) [
        | some e ↦ (err e, p)
        | none ↦ finish call stage_id s (info_meta s.stage.commit.digest c) p
      ]
    ])
    else (err e, p)

-- memStage.complete; `none` means that the fuel of `publish` ran out
unfoldable pub complete : ℕ → Call → Text → Text → StageEntry → Pool → Option (Result Meta × Pool)
unfolding after_publish
complete fuel call id stage_id s p = elim (call.ctx_err 2) [
  | some e ↦ some (err e, p)
  | none ↦ elim (publish fuel id s.stage.commit call.now s.bytes p) [
    | none ↦ none
    | some (a, p') ↦ some (after_publish call id stage_id s a p')
  ]
]

-- The part of `Commit` that follows acquire and prepareCommit, by the stage's state. An active
-- stage is frozen first, and stays committing if the rest fails.
unfoldable pub commit_prepared :
    ℕ → Call → Text → Text → Meta → StageEntry → StageState → Pool → Option (Result Meta × Pool)
unfolding complete
commit_prepared fuel call id stage_id m s StageState.committed p =
    if stage_commit_matches m s.stage.commit
    then some (ok s.stage.result, p)
    else some (err stage_conflict, p)
commit_prepared fuel call id stage_id m s StageState.committing p =
    if stage_commit_matches m s.stage.commit
    then complete fuel call id stage_id s p
    else some (err stage_conflict, p)
commit_prepared fuel call id stage_id m s StageState.active p =
    let stage' : StageRecord = record (s.stage) { state = StageState.committing; commit = m } in
    let s' : StageEntry = record { stage = stage'; bytes = s.bytes } in
    complete fuel call id stage_id s' (put stage_id s' p)
commit_prepared fuel call id stage_id m s StageState.aborted p = some (err stage_closed, p)
commit_prepared fuel call id stage_id m s StageState.unknown p = complete fuel call id stage_id s p

-- the test of `Commit` for StageAborted
abbrev pub is_aborted : StageState → Bool
is_aborted StageState.aborted = true
is_aborted _ = false

-- memStage.Commit
unfoldable pub commit : Hashing → ℕ → Call → Text → Text → Meta → Pool → Option (Result Meta × Pool)
unfolding acquire commit_prepared
commit h fuel call id stage_id m p = elim (acquire h call id stage_id false p) [
  | err e ↦ some (err e, p)
  | ok s ↦
      if is_aborted s.stage.state
      then some (err stage_closed, p)
      else elim (prepare_commit h s.stage m) [
        | refused e ↦ some (err e, p)
        | prepared m' ↦ commit_prepared fuel call id stage_id m' s s.stage.state p
      ]
]

-- The part of `Abort` that follows acquire, by the stage's state: a commit in progress is finished,
-- and a stage that ended stays as it is.
unfoldable pub abort_acquired :
    ℕ → Call → Text → Text → StageEntry → StageState → Pool → Option (Option Error × Pool)
unfolding complete
abort_acquired fuel call id stage_id s StageState.committed p = some (none, p)
abort_acquired fuel call id stage_id s StageState.aborted p = some (none, p)
abort_acquired fuel call id stage_id s StageState.committing p =
    elim (complete fuel call id stage_id s p) [
      | none ↦ none
      | some (ok m, p') ↦ some (none, p')
      | some (err e, p') ↦ some (some e, p')
    ]
abort_acquired fuel call id stage_id s _ p =
    let stage' : StageRecord = record (s.stage) {
      state = StageState.aborted;
      expires_at = call.clock 1 + normal_retention p.config;
    } in
    some (none, put stage_id (record { stage = stage'; bytes = [] }) p)

-- memStage.Abort
unfoldable pub abort : Hashing → ℕ → Call → Text → Text → Pool → Option (Option Error × Pool)
unfolding acquire abort_acquired
abort h fuel call id stage_id p = elim (acquire h call id stage_id true p) [
  | err e ↦ some (if is e not_exist then none else some e, p)
  | ok s ↦ abort_acquired fuel call id stage_id s s.stage.state p
]

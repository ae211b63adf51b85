-- ===== src/Mem/Pruning.antt =====
-- PruneStages of mem.go.
use flob.Prelude.{ℕ, ◌+◌, Option, none, some, List, [], ◌∷◌, ◌++◌, if◌then◌else◌}
use flob.Prelude.Text.{Text}
use flob.Errors.{Error, stage_format}
use flob.Meta.{Call}
use flob.Namespace.{namespace_id}
use flob.Stage.{expired}
use flob.Mem.State.{Pool, StageEntry, load, delete}
use flob.Mem.Store.{use_store}
use flob.Mem.Staging.{ok, err, is_committing}
use flob.Mem.Settling.{complete}

-- One stage in the loop of PruneStages: an interrupted commit is finished first, in the stage's own
-- namespace, then an expired stage goes. Returns what to add to the error and to the count.
unfoldable pub prune_expired : Call → Text → Pool → (List Error × ℕ) × Pool
prune_expired call key p = elim (load key p.stages) [
  | none ↦ (([], 0), p)
  | some s ↦
      if expired s.stage (call.clock 1)
      then (([], 1), record p { stages = delete key p.stages })
      else (([], 0), p)
]

unfoldable pub prune_stage : ℕ → Call → Text → StageEntry → Pool → Option ((List Error × ℕ) × Pool)
unfolding complete prune_expired
prune_stage fuel call key s p =
    if is_committing s.stage.state
    then elim (namespace_id s.stage.namespace) [
      | none ↦ some ((stage_format ∷ [], 0), p)
      | some id ↦ elim (complete fuel call id s.stage.id s (use_store id p)) [
        | none ↦ none
        | some (err e, p') ↦ some ((e ∷ [], 0), p')
        | some (ok m, p') ↦ some (prune_expired call key p')
      ]
    ]
    else some (prune_expired call key p)

-- The loop of PruneStages over the keys that Range visits, from the errors that were joined so far;
-- `calls` gives each stage's own context, whose first answer is that of the loop's check. The error of
-- that check ends the loop and stands in place of what was joined.
unfoldable pub prune_loop :
    ℕ → (Text → Call) → List Error → List Text → Pool → Option ((List Error × ℕ) × Pool)
unfolding prune_stage
prune_loop fuel calls es [] p = some ((es, 0), p)
prune_loop fuel calls es (key ∷ keys) p = elim ((calls key).ctx_err 0) [
  | some e ↦ some ((e ∷ [], 0), p)
  | none ↦ elim (load key p.stages) [
    | none ↦ prune_loop fuel calls es keys p
    | some s ↦ elim (prune_stage fuel (calls key) key s p) [
      | none ↦ none
      | some ((es', n), p') ↦ elim (prune_loop fuel calls (es ++ es') keys p') [
        | none ↦ none
        | some ((es'', n'), p'') ↦ some ((es'', n + n'), p'')
      ]
    ]
  ]
]

abbrev keys_of {ℓ} : {V : Type ℓ} → List (Text × V) → List Text
keys_of [] = []
keys_of ((k, v) ∷ m) = k ∷ keys_of m

-- MemStores.PruneStages; `last` is the answer of the context after the loop
unfoldable pub prune_stages :
    ℕ → (Text → Call) → Option Error → Pool → Option ((List Error × ℕ) × Pool)
unfolding prune_loop
prune_stages fuel calls last p = elim (prune_loop fuel calls [] (keys_of p.stages) p) [
  | none ↦ none
  | some ((es, n), p') ↦ elim last [
    | none ↦ some ((es, n), p')
    | some e ↦ some ((es ++ e ∷ [], n), p')
  ]
]

-- ===== src/Examples/Pruning.antt =====
-- PruneStages after the deadline of the one stage of a pool.
use flob.Prelude.{
  ◌≡◌, refl, sym, ap, false, Option, none, some, [], ◌∷◌, arith, Bool-cases, inl, inr,
}
use flob.Prelude.Text.{text_eq}
use flob.Meta.{Call}
use flob.Mem.State.{StageEntry, load}
use flob.Mem.Staging.{is_committing}
use flob.Mem.Pruning.{prune_loop}
use flob.Mem.Pruned.{IsIdle, Prunes, prune_loop-Prunes}
use flob.Examples.Stores.{quiet}
use flob.Examples.Stages.{stage_id, upload, staging}

abbrev late : Call
late = record quiet { clock = λ k. 200 }

staging-IsIdle : IsIdle staging
unfolding load
staging-IsIdle k s there = elim (Bool-cases (text_eq stage_id k)) [
  | inl here ↦
      let same : some upload ≡ some s = rw here at there in
      sym (
        ap
          (λ (o : Option StageEntry). elim o [
            | none ↦ false
            | some x ↦ is_committing x.stage.state
          ])
          same)
  | inr away ↦ ground (arith, there, away)
]

prune_loop-Prunes_example :
    Prunes 200 (stage_id ∷ []) staging (prune_loop 1 (λ k. late) [] (stage_id ∷ []) staging)
prune_loop-Prunes_example =
    prune_loop-Prunes 1 (λ k. late) 200 (stage_id ∷ []) staging (λ k. refl) (λ k. refl)
      staging-IsIdle

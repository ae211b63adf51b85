-- ===== src/Mem/Pruned.antt =====
-- The loop of PruneStages of mem.go by the stages before and after.
use flob.Prelude.{
  ℕ, ◌+◌, ◌≡◌, refl, ap, false, Option, none, some, List, [], ◌∷◌, arith, if◌then◌else◌,
  Option-cases, inl, inr,
}
use flob.Prelude.Text.{Text, text_eq, text_eq_iff, contains}
use flob.Errors.{Error}
use flob.Meta.{Call}
use flob.Stage.{expired}
use flob.Mem.State.{Pool, StageEntry, load, load-delete}
use flob.Mem.Staging.{is_committing}
use flob.Mem.Pruning.{prune_expired, prune_stage, prune_loop}

-- what is left of a stage at a time
abbrev pub unexpired : ℕ → Option StageEntry → Option StageEntry
unexpired t none = none
unexpired t (some s) = if expired s.stage t then none else some s

-- No stage of the pool has a commit that was interrupted.
abbrev pub IsIdle : Pool → Type 0
IsIdle p =
    (k : Text) (s : StageEntry) → load k p.stages ≡ some s → is_committing s.stage.state ≡ false

prune_expired-load :
    (call : Call) (key k : Text) (p : Pool)
    → load k (prune_expired call key p).1.stages
      ≡ (if text_eq key k then unexpired (call.clock 1) (load k p.stages) else load k p.stages)
unfolding prune_expired
prune_expired-load call key k p = elim (Option-cases (load key p.stages)) [
  | inl missing ↦ ground (arith, missing, text_eq_iff key k)
  | inr (s, there) ↦ ground (arith, there, text_eq_iff key k, load-delete key k p.stages)
]

prune_expired-errors : (call : Call) (key : Text) (p : Pool) → (prune_expired call key p).0.0 ≡ []
unfolding prune_expired
prune_expired-errors call key p = ground arith

prune_expired-IsIdle :
    (call : Call) (key : Text) (p : Pool) → IsIdle p → IsIdle (prune_expired call key p).1
prune_expired-IsIdle call key p idle k s there =
    idle k s (ground (arith, there, prune_expired-load call key k p))

prune_stage_idle :
    (fuel : ℕ) (call : Call) (key : Text) (s : StageEntry) (p : Pool)
    → is_committing s.stage.state ≡ false
    → prune_stage fuel call key s p
      ≡ some (([], (prune_expired call key p).0.1), (prune_expired call key p).1)
unfolding prune_stage
prune_stage_idle fuel call key s p idle = rw idle (
    ap (λ es. some ((es, (prune_expired call key p).0.1), (prune_expired call key p).1))
      (prune_expired-errors call key p))

unexpired_twice : (t : ℕ) (o : Option StageEntry) → unexpired t (unexpired t o) ≡ unexpired t o
unexpired_twice t none = refl
unexpired_twice t (some s) = ground arith

-- A run that returns without an error and leaves of the stages of these keys those that have not
-- expired, and every other stage.
abbrev pub Prunes : ℕ → List Text → Pool → Option ((List Error × ℕ) × Pool) → Type 0
Prunes t keys p o =
    (n : ℕ) × (p' : Pool) × (o ≡ some (([], n), p'))
    × ((k : Text)
        → load k p'.stages
          ≡ (if contains keys k then unexpired t (load k p.stages) else load k p.stages))

-- Where no commit was interrupted, the context stays live and the clock reads one time, the loop
-- of PruneStages, with no error so far, returns without an error, removes exactly the expired stages that it visits, and
-- leaves every other stage.
pub prune_loop-Prunes :
    (fuel : ℕ) (calls : Text → Call) (t : ℕ) (keys : List Text) (p : Pool)
    → ((k : Text) → (calls k).ctx_err 0 ≡ none)
    → ((k : Text) → (calls k).clock 1 ≡ t)
    → IsIdle p
    → Prunes t keys p (prune_loop fuel calls [] keys p)
unfolding prune_loop contains
prune_loop-Prunes fuel calls t [] p live now idle = (0, p, refl, λ k. refl)
prune_loop-Prunes fuel calls t (key ∷ keys) p live now idle =
    elim (Option-cases (load key p.stages)) [
      | inl missing ↦
          let (n, p', done, left) = prune_loop-Prunes fuel calls t keys p live now idle in
          (
            n,
            p',
            rw (live key, prune_loop, missing) done,
            λ k. ground (arith, left k, missing, text_eq_iff key k),
          )
      | inr (s, there) ↦
          let q = (prune_expired (calls key) key p).1 in
          let n0 = (prune_expired (calls key) key p).0.1 in
          let (n, p', done, left) =
            prune_loop-Prunes fuel calls t keys q live now
              (prune_expired-IsIdle (calls key) key p idle) in
          (
            n0 + n,
            p',
            rw (
              live key,
              prune_loop,
              there,
              prune_stage_idle fuel (calls key) key s p (idle key s there),
              done,
            ),
            λ k. ground (
              arith,
              left k,
              prune_expired-load (calls key) key k p,
              now key,
              unexpired_twice t (load k p.stages),
            ),
          )
    ]

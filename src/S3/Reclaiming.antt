-- ===== src/S3/Reclaiming.antt =====
-- S3Stores.Reclaim of reclaim.go: the two sweeps, as consumers of three listings.
use flob.Prelude.{ℕ, ◌+◌, not, ◌||◌, Option, none, some, List, [], ◌∷◌, ◌++◌, if◌then◌else◌}
use flob.Prelude.Text.{Text, codes, contains}
use flob.Prelude.Int.{ℤ, pos, neg_part, pos_part, sub_ℕ, ltb_ℤ}
use flob.Errors.{Error, other}
use flob.Hashing.{Hashing}
use flob.S3.Keys.{blob_key, trash_key, parse_key, parse_ref_key}
use flob.S3.Service.{Service, Listed}
use flob.S3.Requests.{State, asks, tries, exists, delete_key_if}
use flob.S3.Probe.{Config}
use flob.S3.Listing.{Flow, next, stop, Run, done, returned, endless, list_refs}
use flob.S3.Copying.{copy_object}

abbrev pub no_grace : Error
no_grace = other 2301

-- The result of Reclaim: the number of blobs that are gone, and the error.
abbrev pub Reclaimed : Type 0
Reclaimed = ℕ × Option Error

-- What the loop over the references carries: the digests that are referenced.
pub record Seen (W : Type 0) : Type 0 where
  pub refs : List Text
  pub state : State W

-- What the loops over trash/ and blob/ carry.
pub record Sweep (W : Type 0) : Type 0 where
  pub count : ℕ
  pub state : State W

-- time.Time.Add(-grace) of the clock
abbrev pub before_grace : ℕ → ℤ → ℤ
before_grace now grace = sub_ℕ (now + neg_part grace) (pos_part grace)

module _ {W : Type 0} (svc : Service W) (h : Hashing) (c : Config) where
  -- the body of the loop over refs/
  unfoldable pub see_ref : Listed → Seen W → Flow (Seen W) (Reclaimed × State W)
  see_ref entry x = elim (parse_ref_key h c.prefix entry.key) [
    | none ↦ next x
    | some (d, id) ↦ next (record x { refs = d ∷ x.refs })
  ]

  abbrev pub fails : ℕ → Error → State W → Flow (Sweep W) (Reclaimed × State W)
  fails n e s = stop ((n, some e), s)

  -- deleteKey, after which the loop goes on with a count
  abbrev pub drop_key : Text → ℕ → ℕ → State W → Flow (Sweep W) (Reclaimed × State W)
  drop_key key failed n s =
      tries (delete_key_if svc key (codes "") s) (λ e t. fails failed e t)
        (λ t. next (record { count = n; state = t }))

  -- a blob in trash/ that is referenced again goes back, unless it is back
  abbrev pub bring_back : Listed → Text → Sweep W → Flow (Sweep W) (Reclaimed × State W)
  bring_back entry d x =
      asks (exists svc (blob_key h c.prefix d) x.state) (λ e s. fails x.count e s)
        (λ found s.
          if found
          then drop_key entry.key x.count x.count s
          else tries (copy_object svc c (blob_key h c.prefix d) entry.key entry.size s)
              (λ e t. fails x.count e t) (λ t. drop_key entry.key x.count x.count t))

  -- a blob in trash/ of a digest that a key names
  abbrev pub judge_trash :
      List Text → ℤ → Listed → Option Text → Sweep W → Flow (Sweep W) (Reclaimed × State W)
  judge_trash refs before entry none x = next x
  judge_trash refs before entry (some d) x =
      if not (ltb_ℤ (pos entry.modified) before)
      then next x
      else if contains refs d
      then bring_back entry d x
      else drop_key entry.key x.count (x.count + 1) x.state

  -- the body of the loop over trash/
  unfoldable pub sweep_trash :
      List Text → ℤ → Listed → Sweep W → Flow (Sweep W) (Reclaimed × State W)
  unfolding delete_key_if copy_object exists
  sweep_trash refs before entry x =
      judge_trash refs before entry (parse_key h c.prefix entry.key (codes "trash/")) x

  abbrev pub judge_blob :
      List Text → ℤ → Listed → Option Text → Sweep W → Flow (Sweep W) (Reclaimed × State W)
  judge_blob refs before entry none x = next x
  judge_blob refs before entry (some d) x =
      if contains refs d || not (ltb_ℤ (pos entry.modified) before)
      then next x
      else tries (copy_object svc c (trash_key h c.prefix d) entry.key entry.size x.state)
          (λ e t. fails x.count e t) (λ t. drop_key entry.key x.count x.count t)

  -- the body of the loop over blob/
  unfoldable pub sweep_blob :
      List Text → ℤ → Listed → Sweep W → Flow (Sweep W) (Reclaimed × State W)
  unfolding delete_key_if copy_object
  sweep_blob refs before entry x =
      judge_blob refs before entry (parse_key h c.prefix entry.key (codes "blob/")) x

  abbrev pub at_seen : W → Seen W → Seen W
  at_seen w x = record x { state = record x.state { world = w } }

  abbrev pub at_sweep : W → Sweep W → Sweep W
  at_sweep w x = record x { state = record x.state { world = w } }

  abbrev pub seen_fails : Error → Seen W → Reclaimed × State W
  seen_fails e x = ((0, some e), x.state)

  abbrev pub sweep_fails : Error → Sweep W → Reclaimed × State W
  sweep_fails e x = ((x.count, some e), x.state)

  -- Reclaim's answer, or the state in which a listing has no end.
  abbrev pub Swept : Type 0
  Swept = Run (State W) (Reclaimed × State W)

  -- from one loop of Reclaim to what comes after it
  abbrev pub goes_on :
      {X : Type 0} → Run X (Reclaimed × State W) → (X → State W) → (X → Swept) → Swept
  goes_on (done x) state after = after x
  goes_on (returned r) state after = returned r
  goes_on (endless x) state after = endless (state x)

  abbrev pub blob_loop : ℕ → List Text → ℤ → Sweep W → Run (Sweep W) (Reclaimed × State W)
  blob_loop pages refs before =
      list_refs svc (λ x. x.state.world) at_sweep sweep_fails (sweep_blob refs before)
        (c.prefix ++ codes "blob/") (codes "") pages (codes "") []

  abbrev pub trash_loop : ℕ → List Text → ℤ → Sweep W → Run (Sweep W) (Reclaimed × State W)
  trash_loop pages refs before =
      list_refs svc (λ x. x.state.world) at_sweep sweep_fails (sweep_trash refs before)
        (c.prefix ++ codes "trash/") (codes "") pages (codes "") []

  abbrev pub refs_loop : ℕ → Seen W → Run (Seen W) (Reclaimed × State W)
  refs_loop pages =
      list_refs svc (λ x. x.state.world) at_seen seen_fails see_ref (c.prefix ++ codes "refs/")
        (codes "") pages (codes "") []

  -- the two sweeps, given the digests that are referenced
  abbrev pub sweeps : ℕ → List Text → ℤ → State W → Swept
  sweeps pages refs before s =
      goes_on (trash_loop pages refs before (record { count = 0; state = s })) (λ x. x.state)
        (λ x.
          goes_on (blob_loop pages refs before x) (λ y. y.state)
            (λ y. returned ((y.count, none), y.state)))

  -- Reclaim: `now` is the clock
  unfoldable pub reclaim : ℕ → ℕ → ℤ → State W → Swept
  unfolding list_refs see_ref sweep_trash sweep_blob
  reclaim pages now grace s =
      if not (ltb_ℤ (pos 0) grace)
      then returned ((0, some no_grace), s)
      else goes_on (refs_loop pages (record { refs = []; state = s })) (λ x. x.state)
          (λ x. sweeps pages x.refs (before_grace now grace) x.state)

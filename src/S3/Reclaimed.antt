-- ===== src/S3/Reclaimed.antt =====
-- S3Stores.Reclaim of reclaim.go as a whole.
use flob.Prelude.{
  ℕ, ◌<◌, ◌≡◌, refl, sym, ap, ◌∙◌, not, Option, none, some, List, [], ◌∷◌, ◌++◌, is_some, inl, inr,
  arith, length, by_test, All,
}
use flob.Prelude.Text.{Text, codes}
use flob.Prelude.Int.{ℤ, pos, ltb_ℤ}
use flob.Hashing.{Hashing}
use flob.Mem.Staging.{ok}
use flob.S3.Keys.{blob_key, trash_key, ref_key}
use flob.S3.Named.{DigestLaws}
use flob.S3.Service.{Service, ServiceLaws, Object, Listed, Page, Listing}
use flob.S3.Requests.{State}
use flob.S3.Probe.{Config}
use flob.S3.Sound.{same-IsSound}
use flob.S3.Copied.{CopyingLaws}
use flob.S3.Listing.{
  Flow, next, stop, Run, done, returned, endless, decode_key, page_entries, list_refs,
}
use flob.S3.Listed.{ListingLaws, Holds, Ran, list_refs_rule}
use flob.S3.Reclaiming.{
  Reclaimed, Seen, Sweep, sweep_trash, sweep_blob, at_sweep, sweep_fails, Swept, goes_on, blob_loop,
  trash_loop, refs_loop, sweeps, before_grace, reclaim,
}
use flob.S3.Sweeping.{Sound, SameRefs, Thin, FlowIs}
use flob.S3.Referenced.{IsAsBefore, AllSeen, refs-AllSeen}
use flob.S3.Entries.{SizedAt, Known, sweep_trash-Flows, sweep_blob-Flows}

module _ {W : Type 0} (svc : Service W) (object : W → Text → Option Object)
    (laws : ServiceLaws svc object) (copying : CopyingLaws svc object)
    (listing : ListingLaws svc object) (h : Hashing) (names : DigestLaws h) (c : Config)
    (some_part : 0 < c.copy_part) where
  abbrev IsKept : State W → Type 0
  IsKept s = Sound svc object laws copying h names c some_part s

  abbrev Refs : State W → State W → Type 0
  Refs s t = SameRefs svc object laws copying h names c some_part s t

  abbrev Knows : List Text → State W → Type 0
  Knows refs s = Known svc object laws copying h names c some_part refs s

  -- The bucket is sound, and has the references that it had.
  abbrev pub IsSafe : State W → State W → Type 0
  IsSafe s t = IsKept t × Refs s t

  at_world : W → State W → State W
  at_world w s = record s { world = w }

  listed-IsSafe :
      (s t : State W) (prefix token : Text)
      → IsSafe s t
      → IsSafe s (record t { world = (svc.list prefix (codes "") token t.world).1 })
  listed-IsSafe s t prefix token (sound, refs) =
      let same = λ (k : Text). listing.list_same prefix (codes "") token t.world k in
      (
        same-IsSound h names c.prefix (object t.world) _ same sound,
        λ d id. same (ref_key h c.prefix d id) ∙ refs d id,
      )

  Knows-after : (refs : List Text) (s t : State W) → Refs s t → Knows refs s → Knows refs t
  Knows-after refs s t same known d id valid bytes there =
      known d id valid bytes (ap is_some (sym (same d id)) ∙ there)

  -- One of the two sweeps, over the keys under a directory.
  module _ (s : State W) (refs : List Text) (known : Knows refs s) (key : Text → Text)
      (body : Listed → Sweep W → Flow (Sweep W) (Reclaimed × State W))
      (body-Flows : (entry : Listed) (x : Sweep W)
        → IsKept x.state
        → Knows refs x.state
        → ((d : Text)
            → entry.key ≡ key d
            → SizedAt svc object laws copying h names c some_part x.state entry)
        → FlowIs svc object laws copying h names c some_part key x.state (body entry x))
      (prefix : Text) where
    -- The size of an entry that is still to come is that of its object, if that is there.
    abbrev SizeOf : Page → State W → Listed → Type 0
    SizeOf page t e =
        (d : Text)
        → decode_key page.encoding e.key ≡ some (key d)
        → (o : Object) → object t.world (key d) ≡ some o
        → e.size ≡ pos (length o.bytes)

    abbrev Left : Page → List Listed → Sweep W → Type 0
    Left page es x = IsSafe s x.state × All (SizeOf page x.state) es

    thinner :
        (page : Page) (es : List Listed) (t u : State W)
        → Thin svc object laws copying h names c some_part key t u
        → All (SizeOf page t) es
        → All (SizeOf page u) es
    thinner page [] t u thin sizes = tt
    thinner page (e ∷ es) t u thin (size, sizes) = (
      λ d decoded o there. elim (thin d) [
        | inl same ↦ size d decoded o (sym same ∙ there)
        | inr gone ↦ absurd (ground (arith, gone, there))
      ],
      thinner page es t u thin sizes,
    )

    stepped :
        (page : Page) (entry : Listed) (es : List Listed) (k : Text) (x : Sweep W)
        → decode_key page.encoding entry.key ≡ some k
        → Left page (entry ∷ es) x
        → Holds (Left page es) (λ r. IsSafe s r.1) (body (record entry { key = k }) x)
    stepped page entry es k x decoded ((sound, same), (size, sizes)) =
        go (body (record entry { key = k }) x) (
          body-Flows (record entry { key = k }) x sound (Knows-after refs s x.state same known)
            (λ d named o there.
              size d (decoded ∙ ap some named) o (sym (ap (object x.state.world) named) ∙ there)))
      where
        go :
            (f : Flow (Sweep W) (Reclaimed × State W))
            → FlowIs svc object laws copying h names c some_part key x.state f
            → Holds (Left page es) (λ r. IsSafe s r.1) f
        go (next y) (sound', same', thin) =
            ((sound', λ d id. same' d id ∙ same d id), thinner page es x.state y.state thin sizes)
        go (stop (r, t)) (sound', same') = (sound', λ d id. same' d id ∙ same d id)

    opened :
        (token : Text) (x : Sweep W) (answer : Listing) (page : Page)
        → (svc.list prefix (codes "") token x.state.world).0 ≡ ok answer
        → answer.status ≡ 200
        → answer.page ≡ ok page
        → IsSafe s x.state
        → Left page
            (page_entries page)
            (at_sweep svc h c (svc.list prefix (codes "") token x.state.world).1 x)
    opened token x answer page eq status eq' safe = (
      listed-IsSafe s x.state prefix token safe,
      weaken (page_entries page)
          (listing.list_sizes prefix token x.state.world answer page eq status eq'),
    )
      where
        weaken :
            (es : List Listed)
            → All
                (λ e.
                  (k : Text)
                  → decode_key page.encoding e.key ≡ some k
                  → (o : Object) → object x.state.world k ≡ some o
                  → e.size ≡ pos (length o.bytes))
                es
            → All
                (SizeOf page
                  (record x.state { world = (svc.list prefix (codes "") token x.state.world).1 }))
                es
        weaken [] sizes = tt
        weaken (e ∷ es) (size, sizes) = (
          λ d decoded o there.
              size (key d) decoded o
                (sym (listing.list_same prefix (codes "") token x.state.world (key d)) ∙ there),
          weaken es sizes,
        )

    sweep-IsSafe :
        (pages : ℕ) (x : Sweep W)
        → IsSafe s x.state
        → Ran
            (λ y. IsSafe s y.state)
            (λ r. IsSafe s r.1)
            (λ y. IsSafe s y.state)
            (list_refs svc
              (λ y. y.state.world)
              (at_sweep svc h c)
              (sweep_fails svc h c)
              body
              prefix
              (codes "")
              pages
              (codes "")
              []
              x)
    sweep-IsSafe pages x safe =
        list_refs_rule svc (λ y. y.state.world) (at_sweep svc h c) (sweep_fails svc h c) body prefix
          (codes "") (λ token y. IsSafe s y.state) Left (λ y. IsSafe s y.state)
          (λ y. IsSafe s y.state) (λ r. IsSafe s r.1) (λ page es e y left. left.0) stepped opened
          (λ token e y safe'. listed-IsSafe s y.state prefix token safe') (λ token e y safe'. safe')
          (λ page y last left. left.0) (λ page y more left. left.0) (λ token y safe'. safe') pages
          (codes "") [] x safe

  -- What Reclaim leaves, however it ends.
  abbrev pub Safe : State W → Swept svc h c → Type 0
  Safe s (done t) = IsSafe s t
  Safe s (returned (answer, t)) = IsSafe s t
  Safe s (endless t) = IsSafe s t

  sweeps-Safe :
      (pages : ℕ) (refs : List Text) (before : ℤ) (s t : State W)
      → Knows refs s
      → IsSafe s t
      → Safe s (sweeps svc h c pages refs before t)
  sweeps-Safe pages refs before s t known safe =
      first (trash_loop svc h c pages refs before (record { count = 0; state = t })) (
        sweep-IsSafe s refs known (trash_key h c.prefix) (sweep_trash svc h c refs before)
          (λ entry x.
            sweep_trash-Flows svc object laws copying h names c some_part refs before entry x)
          (c.prefix ++ codes "trash/") pages (record { count = 0; state = t }) safe)
    where
      second :
          (r : Run (Sweep W) (Reclaimed × State W))
          → Ran
              (λ y. IsSafe s y.state)
              (λ (a : Reclaimed × State W). IsSafe s a.1)
              (λ y. IsSafe s y.state)
              r
          → Safe s (goes_on svc h c r (λ y. y.state) (λ y. returned ((y.count, none), y.state)))
      second (done y) after = after
      second (returned a) after = after
      second (endless y) after = after

      first :
          (r : Run (Sweep W) (Reclaimed × State W))
          → Ran
              (λ y. IsSafe s y.state)
              (λ (a : Reclaimed × State W). IsSafe s a.1)
              (λ y. IsSafe s y.state)
              r
          → Safe s (
              goes_on svc h c r
                (λ x. x.state)
                (λ x.
                  goes_on svc h c
                    (blob_loop svc h c pages refs before x)
                    (λ y. y.state)
                    (λ y. returned ((y.count, none), y.state))))
      first (done x) after = second (blob_loop svc h c pages refs before x) (
          sweep-IsSafe s refs known (blob_key h c.prefix) (sweep_blob svc h c refs before)
            (λ entry y.
              sweep_blob-Flows svc object laws copying h names c some_part refs before entry y)
            (c.prefix ++ codes "blob/") pages x after)
      first (returned a) after = after
      first (endless x) after = after

  -- On a sound bucket, at any time, with any grace, and whatever the service answers within its
  -- laws: however Reclaim ends, and wherever in its sweeps, the bucket is sound and every reference
  -- is as it was, so no reference loses its bytes. The laws of S3, of its copies and its listings
  -- and of the digests are assumed, and parts of a copy that are not empty.
  pub reclaim-IsSafe :
      (pages now : ℕ) (grace : ℤ) (s : State W)
      → IsKept s
      → Safe s (reclaim svc h c pages now grace s)
  unfolding reclaim
  reclaim-IsSafe pages now grace s sound =
      by_test (Safe s) (not (ltb_ℤ (pos 0) grace)) (λ refused. (sound, λ d id. refl))
        (λ graced.
          go (refs_loop svc h c pages (record { refs = []; state = s }))
            (refs-AllSeen svc object laws copying listing h names c some_part s pages))
    where
      as_before : (t : State W) → ((k : Text) → object t.world k ≡ object s.world k) → IsSafe s t
      as_before t same = (
        same-IsSound h names c.prefix (object s.world) (object t.world) same sound,
        λ d id. same (ref_key h c.prefix d id),
      )

      go :
          (r : Run (Seen W) (Reclaimed × State W))
          → Ran
              (AllSeen svc object laws copying listing h names c some_part s)
              (λ (a : Reclaimed × State W).
                IsAsBefore svc object laws copying listing h names c some_part s a.1)
              (λ y. IsAsBefore svc object laws copying listing h names c some_part s y.state)
              r
          → Safe s (
              goes_on svc h c r
                (λ x. x.state)
                (λ x. sweeps svc h c pages x.refs (before_grace now grace) x.state))
      go (done x) (same, known) =
          sweeps-Safe pages x.refs (before_grace now grace) s x.state known (as_before x.state same)
      go (returned (answer, t)) same = as_before t same
      go (endless x) same = as_before x.state same

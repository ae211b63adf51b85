-- ===== src/S3/Runs.antt =====
-- Whole runs of the operations on an S3Stores, by any stores of it.
use flob.Prelude.{ℕ, ◌<◌, ◌≡◌, ◌⊎◌, true, Option, none, some, List, [], ◌∷◌, All}
use flob.Prelude.Text.{Text}
use flob.Prelude.Int.{ℤ}
use flob.Errors.{Error}
use flob.Hashing.{Hashing}
use flob.Namespace.Base64.{AllBytes}
use flob.Meta.{Meta, Labels, Source, Added}
use flob.S3.Named.{DigestLaws}
use flob.S3.Service.{Service, ServiceLaws, CheckingLaws, Object}
use flob.S3.Requests.{State}
use flob.S3.Probe.{Config, never}
use flob.S3.Trusting.{Trusts-always}
use flob.S3.Sound.{IsSound}
use flob.S3.Copied.{CopyingLaws}
use flob.S3.Listing.{done, returned, endless}
use flob.S3.Listed.{ListingLaws}
use flob.S3.Reclaiming.{Swept, reclaim}
use flob.S3.Adding.{add}
use flob.S3.Store.{label, erase, link}
use flob.S3.Keeping.{Leaves}
use flob.S3.Adds.{add-Leaves}
use flob.S3.Changes.{label-IsSound, erase-IsSound, link-IsSound}
use flob.S3.Reclaimed.{Safe, reclaim-IsSafe}

-- An operation that may change the bucket, with the namespace of the store that it is called on. What
-- a Link reads of the context, and the namespace of its source if that is of the same pool, are given.
pub data Op : Type 0 where
  adds : Text → Meta → Source → Op
  labels : Text → Text → Labels → Op
  erases : Text → Text → Op
  links : Text → Option Error → Text → Option Text → Op
  reclaims : ℕ → ℕ → ℤ → Op

-- The namespaces are strings of bytes.
abbrev pub FromBytes : Op → Type 0
FromBytes (adds id m r) = AllBytes id
FromBytes (labels id d ls) = AllBytes id
FromBytes (erases id d) = AllBytes id
FromBytes (links id e d source) = AllBytes id × ((from : Text) → source ≡ some from → AllBytes from)
FromBytes (reclaims pages now grace) = Unit

module _ {W : Type 0} (svc : Service W) (h : Hashing) (c : Config) where
  abbrev pub end_of : Swept svc h c → State W
  end_of (done t) = t
  end_of (returned (answer, t)) = t
  end_of (endless t) = t

  unfoldable pub perform : Op → State W → State W
  perform (adds id m r) s = (add svc h c id m r s).1
  perform (labels id d ls) s = (label svc h c.prefix id d ls s).1
  perform (erases id d) s = (erase svc h c.prefix id d s).1
  perform (links id e d source) s = (link svc h c.prefix id e d source s).1
  perform (reclaims pages now grace) s = end_of (reclaim svc h c pages now grace s)

  unfoldable pub perform_all : List Op → State W → State W
  unfolding perform
  perform_all [] s = s
  perform_all (op ∷ ops) s = perform_all ops (perform op s)

module _ {W : Type 0} (svc : Service W) (object : W → Text → Option Object)
    (laws : ServiceLaws svc object) (copying : CopyingLaws svc object)
    (listing : ListingLaws svc object) (h : Hashing) (checking : CheckingLaws svc object h)
    (names : DigestLaws h) (c : Config) (some_part : 0 < c.copy_part)
    (guarded : (c.direct_add ≡ never) ⊎ (checking.enforces ≡ true)) where
  abbrev IsKept : State W → Type 0
  IsKept s = IsSound h names c.prefix (object s.world)

  left :
      (id : Text) (bytes : AllBytes id) (a : Added × State W)
      → Leaves svc object laws h names c id bytes a
      → IsKept a.1
  left id bytes ((m, some e), t) sound = sound
  left id bytes ((m, none), t) (sound, ref) = sound

  safe :
      (s : State W) (r : Swept svc h c)
      → Safe svc object laws copying listing h names c some_part s r
      → IsKept (end_of svc h c r)
  safe s (done t) (sound, refs) = sound
  safe s (returned (answer, t)) (sound, refs) = sound
  safe s (endless t) (sound, refs) = sound

  perform-IsSound :
      (op : Op) (s : State W) → FromBytes op → IsKept s → IsKept (perform svc h c op s)
  unfolding perform
  perform-IsSound (adds id m r) s bytes sound = left id bytes (add svc h c id m r s) (
      add-Leaves svc object laws h checking names c id bytes m r s sound
        (Trusts-always svc object h checking c.direct_add s guarded))
  perform-IsSound (labels id d ls) s bytes sound =
      label-IsSound svc object laws h names c id bytes d ls s sound
  perform-IsSound (erases id d) s bytes sound =
      erase-IsSound svc object laws h names c id bytes d s sound
  perform-IsSound (links id e d source) s (bytes, named) sound =
      link-IsSound svc object laws h names c id bytes e d source s named sound
  perform-IsSound (reclaims pages now grace) s bytes sound =
      safe s (reclaim svc h c pages now grace s)
        (reclaim-IsSafe svc object laws copying listing h names c some_part pages now grace s sound)

  -- From a sound bucket, any sequence of Adds, Labels, Erases, Links and Reclaims, by stores of any
  -- namespaces that are strings of bytes and with whatever answers of the service, leaves a sound
  -- bucket: each blob has the content of its digest and each reference has its bytes, in use or put
  -- aside. The service enforces checksums, or the pool never streams an Add. The laws of S3 and of
  -- the digests are assumed, and parts of a copy that are not empty.
  pub run-IsSound :
      (ops : List Op) (s : State W)
      → All FromBytes ops
      → IsKept s
      → IsKept (perform_all svc h c ops s)
  unfolding perform_all
  run-IsSound [] s bytes sound = sound
  run-IsSound (op ∷ ops) s (bytes, rest) sound =
      run-IsSound ops (perform svc h c op s) rest (perform-IsSound op s bytes sound)

-- ===== src/S3/Walking.antt =====
-- S3Store.Walk with the lazy Infos that it yields, and S3Stores.Namespaces, both of s3.go, as loops
-- over a listing. Their consumer is a step from the state that it carries.
use flob.Prelude.{ℕ, Option, none, some, [], ◌∷◌, ◌++◌, ◌==◌, if◌then◌else◌}
use flob.Prelude.Text.{Text, codes, cut_prefix}
use flob.Prelude.Int.{ℤ}
use flob.Errors.{Error}
use flob.Hashing.{Hashing}
use flob.Meta.{Labels}
use flob.Info.{Info}
use flob.Mem.Staging.{Result, ok, err}
use flob.S3.Keys.{ref_prefix, ref_namespace, parse_ref_key}
use flob.S3.Service.{Service, Listed}
use flob.S3.Requests.{State, asks}
use flob.S3.Listing.{Flow, next, Run, list_refs}
use flob.S3.Store.{stat}

-- What Walk yields: a digest, and the time that the listing has for it, 0 if it has none.
pub record Walked : Type 0 where
  pub digest : Text
  pub listed : ℕ

module _ {W X R : Type 0} (svc : Service W) (world : X → W) (put : W → X → X) (fail : Error → X → R)
    (h : Hashing) (prefix : Text) where
  -- the body of Walk
  unfoldable pub walk_entry : (Walked → X → Flow X R) → Listed → X → Flow X R
  walk_entry yield entry x = elim (parse_ref_key h prefix entry.key) [
    | none ↦ next x
    | some (d, id) ↦ yield (record { digest = d; listed = entry.modified }) x
  ]

  -- Walk of the store of a namespace, over at most `pages` pages
  unfoldable pub walk : Text → (Walked → X → Flow X R) → ℕ → X → Run X R
  unfolding walk_entry list_refs
  walk id yield pages x =
      list_refs svc world put fail (walk_entry yield) (ref_prefix prefix id) (codes "") pages
        (codes "") [] x

  -- strings.CutSuffix(s, "/")
  unfoldable pub cut_last_slash : Text → Option Text
  cut_last_slash [] = none
  cut_last_slash (c ∷ []) = if c == b'/' then some [] else none
  cut_last_slash (c ∷ d ∷ s) = elim (cut_last_slash (d ∷ s)) [ none ↦ none | some t ↦ some (c ∷ t) ]

  -- the namespace that an entry under refs/ stands for
  unfoldable pub listed_namespace : Text → Option Text
  unfolding cut_last_slash
  listed_namespace key = elim (cut_prefix (prefix ++ codes "refs/") key) [
    | none ↦ none
    | some rest ↦ elim (cut_last_slash rest) [ none ↦ none | some segment ↦ ref_namespace segment ]
  ]

  -- Namespaces, over at most `pages` pages
  unfoldable pub namespaces : (Text → X → Flow X R) → ℕ → X → Run X R
  unfolding listed_namespace list_refs
  namespaces yield pages x =
      list_refs svc world put fail
        (λ entry y. elim (listed_namespace entry.key) [ none ↦ next y | some id ↦ yield id y ])
        (prefix ++ codes "refs/") (codes "/") pages (codes "") [] x

module _ {W : Type 0} (svc : Service W) (h : Hashing) (prefix id : Text) where
  -- What a lazy Info has loaded, and the state of the store.
  abbrev pub Loaded : Type 0
  Loaded = Option Info × State W

  abbrev pub kept : Result Info × State W → Result Info × Loaded
  kept (err e, s) = (err e, (none, s))
  kept (ok info, s) = (ok info, (some info, s))

  -- `load` of lazyInfo: a Stat that succeeded is not asked for again
  unfoldable pub load_info : Text → Loaded → Result Info × Loaded
  unfolding stat
  load_info d (some info, s) = (ok info, (some info, s))
  load_info d (none, s) = kept (stat svc h prefix id d s)

  -- the size, the time and the labels of a lazy Info
  unfoldable pub lazy_size : Text → Loaded → Result ℤ × Loaded
  unfolding load_info
  lazy_size d l = asks (load_info d l) (λ e t. (err e, t)) (λ info t. (info.size, t))

  unfoldable pub lazy_added : Walked → Loaded → Result ℕ × Loaded
  unfolding load_info
  lazy_added w l =
      if w.listed == 0
      then asks (load_info w.digest l) (λ e t. (err e, t)) (λ info t. (info.added, t))
      else (ok w.listed, l)

  unfoldable pub lazy_labels : Text → Loaded → Result Labels × Loaded
  unfolding load_info
  lazy_labels d l = asks (load_info d l) (λ e t. (err e, t)) (λ info t. (info.labels, t))

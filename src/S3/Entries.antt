-- ===== src/S3/Entries.antt =====
-- What the two sweeps of Reclaim do with one entry of a listing.
use mathlib.Core.Path.{subst}
use flob.Prelude.{
  ◌+◌, ◌<◌, ◌≡◌, refl, sym, ap, ◌∙◌, Bool, true, false, not, ◌||◌, Option, none, some, List,
  is_some, inl, inr, arith, length, by_test, Option-cases, if◌then◌else◌,
}
use flob.Prelude.Text.{Text, codes, contains}
use flob.Prelude.Int.{ℤ, pos, ltb_ℤ}
use flob.Hashing.{Hashing, from_bytes}
use flob.Namespace.Base64.{AllBytes}
use flob.Mem.Staging.{ok}
use flob.S3.Keys.{blob_key, trash_key, ref_key, parse_key}
use flob.S3.Named.{DigestLaws}
use flob.S3.Parsed.{parse_key-blob, parse_key-trash}
use flob.S3.Service.{Service, ServiceLaws, Object, Listed}
use flob.S3.Requests.{State, tries, exists}
use flob.S3.Told.{asks-rule, tries-rule, IsSame, IsTold, exists-IsTold}
use flob.S3.Probe.{Config}
use flob.S3.Sound.{IsRight, IsSound, same-IsSound, blob-IsSound}
use flob.S3.Removed.{IsFree, trash-IsSound}
use flob.S3.Copied.{CopyingLaws, IsCopied, HasCopy, Targets}
use flob.S3.Copying.{copy_object}
use flob.S3.Parts.{copy_object-IsCopied}
use flob.S3.Listing.{Flow, next}
use flob.S3.Reclaiming.{
  Reclaimed, Sweep, drop_key, fails, bring_back, judge_trash, sweep_trash, judge_blob, sweep_blob,
}
use flob.S3.Sweeping.{
  Sound, SameRefs, FlowIs, trash_refs, blob_refs, blob-Thin, trash-Thin, FlowIs-after, drop_trash,
  drop_blob,
}

module _ {W : Type 0} (svc : Service W) (object : W → Text → Option Object)
    (laws : ServiceLaws svc object) (copying : CopyingLaws svc object) (h : Hashing)
    (names : DigestLaws h) (c : Config) (some_part : 0 < c.copy_part) where
  abbrev IsKept : State W → Type 0
  IsKept s = Sound svc object laws copying h names c some_part s

  abbrev Flows : (Text → Text) → State W → Flow (Sweep W) (Reclaimed × State W) → Type 0
  Flows key s f = FlowIs svc object laws copying h names c some_part key s f

  abbrev blob : Text → Text
  blob d = blob_key h c.prefix d

  abbrev trash : Text → Text
  trash d = trash_key h c.prefix d

  -- The size of an entry is that of its object, if that is there.
  abbrev pub SizedAt : State W → Listed → Type 0
  SizedAt s entry =
      (o : Object) → object s.world entry.key ≡ some o → entry.size ≡ pos (length o.bytes)

  -- The references that were seen are all that there are.
  abbrev pub Known : List Text → State W → Type 0
  Known refs s =
      (d id : Text)
      → h.validate d ≡ none
      → AllBytes id
      → is_some (object s.world (ref_key h c.prefix d id)) ≡ true
      → contains refs d ≡ true

  IsFree-of :
      (refs : List Text) (d : Text) (s : State W)
      → Known refs s
      → h.validate d ≡ none
      → contains refs d ≡ false
      → IsFree h names c.prefix d (object s.world)
  IsFree-of refs d s known valid unseen id bytes there =
      absurd (ground (arith, known d id valid bytes there, unseen))

  -- The copy of a sound blob has its content.
  copy-IsRight :
      (d dst src : Text) (s t : State W)
      → IsRight h d (object s.world src)
      → HasCopy svc object copying c dst src s t
      → (o : Object) × (object t.world dst ≡ some o) × IsRight h d (some o)
  unfolding IsRight
  copy-IsRight d dst src s t right (o, o', there, copy, bytes) =
      (o', copy, ap (from_bytes h (h.algorithm d)) bytes ∙ subst (IsRight h d) there right)

  -- The blob of a digest is copied back from where it was put aside.
  back-Sound :
      (d src : Text) (s t : State W)
      → h.validate d ≡ none
      → src ≡ trash d
      → IsKept s
      → Targets svc object copying c (blob d) src s t
      → IsKept t
  unfolding IsSound
  back-Sound d src s t valid named sound (only, either) =
      blob-IsSound h names c.prefix d (object s.world) (object t.world) valid only
        (elim either [
          | inl same ↦ inl same
          | inr copy ↦ inr (copy-IsRight d (blob d) src s t right copy)
        ])
        sound
    where
      right : IsRight h d (object s.world src)
      right = subst (λ k. IsRight h d (object s.world k)) (sym named) (sound d valid).1

  bring_back-Flows :
      (entry : Listed) (d : Text) (x : Sweep W)
      → h.validate d ≡ none
      → entry.key ≡ trash d
      → IsKept x.state
      → SizedAt x.state entry
      → Flows trash x.state (bring_back svc h c entry d x)
  bring_back-Flows entry d x valid named sound sized =
      asks-rule (IsTold svc object laws (blob d) x.state) (Flows trash x.state)
        (exists svc (blob d) x.state) (exists-IsTold svc object laws (blob d) x.state)
        (λ e t same. (kept t same, same_refs t same)) by_found
    where
      kept : (t : State W) → IsSame svc object laws x.state t → IsKept t
      kept t same = same-IsSound h names c.prefix (object x.state.world) (object t.world) same sound

      same_refs :
          (t : State W)
          → IsSame svc object laws x.state t
          → SameRefs svc object laws copying h names c some_part x.state t
      same_refs t same d id = same (ref_key h c.prefix d id)

      dropped :
          (t : State W)
          → IsKept t
          → is_some (object t.world (blob d)) ≡ true
          → Flows trash t (drop_key svc h c entry.key x.count x.count t)
      dropped t after there =
          drop_trash svc object laws copying h names c some_part d entry.key x.count x.count t valid
            named after (inl there)

      copied :
          (t : State W)
          → IsSame svc object laws x.state t
          → Flows trash t (
              tries
                (copy_object svc c (blob d) entry.key entry.size t)
                (λ e u. fails svc h c x.count e u)
                (λ u. drop_key svc h c entry.key x.count x.count u))
      copied t same =
          tries-rule (IsCopied svc object copying c (blob d) entry.key t) (Flows trash t)
            (copy_object svc c (blob d) entry.key entry.size t)
            (copy_object-IsCopied svc object copying c (blob d) entry.key t entry.size
              (λ o there. sized o (sym (same entry.key) ∙ there)) some_part)
            (λ e u targets. (
              back-Sound d entry.key t u valid named (kept t same) targets,
              blob_refs svc object laws copying h names c some_part d t u targets.0,
            ))
            (λ u (targets, (o, o', there, copy, bytes)).
              FlowIs-after svc object laws copying h names c some_part trash t u
                (drop_key svc h c entry.key x.count x.count u)
                (blob_refs svc object laws copying h names c some_part d t u targets.0)
                (blob-Thin svc object laws copying h names c some_part d t u targets.0)
                (dropped u (back-Sound d entry.key t u valid named (kept t same) targets)
                  (ap is_some copy)))

      by_found :
          (found : Bool) (t : State W)
          → IsTold svc object laws (blob d) x.state (ok found, t)
          → Flows trash x.state (
              if found
              then drop_key svc h c entry.key x.count x.count t
              else tries
                  (copy_object svc c (blob d) entry.key entry.size t)
                  (λ e u. fails svc h c x.count e u)
                  (λ u. drop_key svc h c entry.key x.count x.count u))
      by_found true t (same, there) =
          FlowIs-after svc object laws copying h names c some_part trash x.state t
            (drop_key svc h c entry.key x.count x.count t) (same_refs t same)
            (λ d'. inl (same (trash d')))
            (dropped t (kept t same) (ap is_some (same (blob d)) ∙ there))
      by_found false t same =
          FlowIs-after svc object laws copying h names c some_part trash x.state t
            (tries (copy_object svc c (blob d) entry.key entry.size t)
              (λ e u. fails svc h c x.count e u)
              (λ u. drop_key svc h c entry.key x.count x.count u))
            (same_refs t same) (λ d'. inl (same (trash d'))) (copied t same)

  stays-Flows : (key : Text → Text) (x : Sweep W) → IsKept x.state → Flows key x.state (next x)
  stays-Flows key x sound = (sound, (λ d id. refl), λ d. inl refl)

  -- An entry of trash/.
  pub sweep_trash-Flows :
      (refs : List Text) (before : ℤ) (entry : Listed) (x : Sweep W)
      → IsKept x.state
      → Known refs x.state
      → ((d : Text) → entry.key ≡ trash d → SizedAt x.state entry)
      → Flows trash x.state (sweep_trash svc h c refs before entry x)
  unfolding sweep_trash
  sweep_trash-Flows refs before entry x sound known sized =
      elim (Option-cases (parse_key h c.prefix entry.key (codes "trash/"))) [
        | inl other ↦
            subst (λ o. Flows trash x.state (judge_trash svc h c refs before entry o x)) (sym other)
              (stays-Flows trash x sound)
        | inr (d, parsed) ↦
            subst (λ o. Flows trash x.state (judge_trash svc h c refs before entry o x))
              (sym parsed)
              (let (valid, named) = parse_key-trash h names c.prefix entry.key d parsed in
                by_test (Flows trash x.state) (not (ltb_ℤ (pos entry.modified) before))
                  (λ young. stays-Flows trash x sound)
                  (λ old.
                    by_test (Flows trash x.state) (contains refs d)
                      (λ seen. bring_back-Flows entry d x valid named sound (sized d named))
                      (λ unseen.
                        drop_trash svc object laws copying h names c some_part d entry.key x.count
                          (x.count + 1) x.state valid named sound
                          (inr (IsFree-of refs d x.state known valid unseen)))))
      ]

  -- A blob that nothing refers to is copied to where it is put aside.
  aside-Sound :
      (d src : Text) (s t : State W)
      → h.validate d ≡ none
      → src ≡ blob d
      → IsKept s
      → Targets svc object copying c (trash d) src s t
      → IsKept t
  unfolding IsSound
  aside-Sound d src s t valid named sound (only, either) =
      trash-IsSound h names c.prefix d (object s.world) (object t.world) valid only
        (elim either [
          | inl same ↦ inl same
          | inr copy ↦ inr (inr (copy-IsRight d (trash d) src s t right copy))
        ])
        sound
    where
      right : IsRight h d (object s.world src)
      right = subst (λ k. IsRight h d (object s.world k)) (sym named) (sound d valid).0

  put_aside-Flows :
      (refs : List Text) (entry : Listed) (d : Text) (x : Sweep W)
      → h.validate d ≡ none
      → entry.key ≡ blob d
      → contains refs d ≡ false
      → IsKept x.state
      → Known refs x.state
      → SizedAt x.state entry
      → Flows blob x.state (
          tries
            (copy_object svc c (trash d) entry.key entry.size x.state)
            (λ e t. fails svc h c x.count e t)
            (λ t. drop_key svc h c entry.key x.count x.count t))
  put_aside-Flows refs entry d x valid named unseen sound known sized =
      tries-rule (IsCopied svc object copying c (trash d) entry.key x.state) (Flows blob x.state)
        (copy_object svc c (trash d) entry.key entry.size x.state)
        (copy_object-IsCopied svc object copying c (trash d) entry.key x.state entry.size sized
          some_part)
        (λ e t targets.
          (aside-Sound d entry.key x.state t valid named sound targets, same_refs t targets))
        (λ t (targets, copy).
          FlowIs-after svc object laws copying h names c some_part blob x.state t
            (drop_key svc h c entry.key x.count x.count t) (same_refs t targets)
            (trash-Thin svc object laws copying h names c some_part d x.state t targets.0)
            (drop_blob svc object laws copying h names c some_part d entry.key x.count x.count t
              valid named (aside-Sound d entry.key x.state t valid named sound targets)
              (λ id bytes there.
                IsFree-of refs d x.state known valid unseen id bytes
                  (ap is_some (sym (same_refs t targets d id)) ∙ there))))
    where
      same_refs :
          (t : State W)
          → Targets svc object copying c (trash d) entry.key x.state t
          → SameRefs svc object laws copying h names c some_part x.state t
      same_refs t targets =
          trash_refs svc object laws copying h names c some_part d x.state t targets.0

  -- An entry of blob/.
  pub sweep_blob-Flows :
      (refs : List Text) (before : ℤ) (entry : Listed) (x : Sweep W)
      → IsKept x.state
      → Known refs x.state
      → ((d : Text) → entry.key ≡ blob d → SizedAt x.state entry)
      → Flows blob x.state (sweep_blob svc h c refs before entry x)
  unfolding sweep_blob
  sweep_blob-Flows refs before entry x sound known sized =
      elim (Option-cases (parse_key h c.prefix entry.key (codes "blob/"))) [
        | inl other ↦
            subst (λ o. Flows blob x.state (judge_blob svc h c refs before entry o x)) (sym other)
              (stays-Flows blob x sound)
        | inr (d, parsed) ↦
            subst (λ o. Flows blob x.state (judge_blob svc h c refs before entry o x)) (sym parsed)
              (let (valid, named) = parse_key-blob h names c.prefix entry.key d parsed in
                by_test (Flows blob x.state)
                  (contains refs d || not (ltb_ℤ (pos entry.modified) before))
                  (λ stays. stays-Flows blob x sound)
                  (λ goes.
                    put_aside-Flows refs entry d x valid named (ground (arith, goes)) sound known
                      (sized d named)))
      ]

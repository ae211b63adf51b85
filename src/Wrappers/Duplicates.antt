-- ===== src/Wrappers/Duplicates.antt =====
-- Duplicates: what the wrappers of util.go and the exit codes of cmd/flob/cmd/exit.go make of them.
use flob.Prelude.{
  ◌↔◌, ℕ, ◌≡◌, ◌≢◌, refl, Bool, true, false, not, Option, none, some, List, arith, if◌then◌else◌,
  Bool-cases, inl, inr, ◌⊎◌,
}
use flob.Prelude.Text.{Text, is_empty}
use flob.Errors.{Error, not_exist, already_exists, is, code}
use flob.Meta.{Meta, Source, Added}
use flob.Mem.Staging.{ok, Result-cases}
use flob.Info.{Info}
use flob.Http.Handler.{Backend, post_answer}
use flob.Http.Client.{add_error}
use flob.Wrappers.{accept, allow_duplicates, existing, check_existence}

-- ExitCode of the command
unfoldable pub exit_code : Option Error → ℕ
unfolding is
exit_code none = 0
exit_code (some e) = if is e already_exists then 3 else if is e not_exist then 4 else 1

-- errors.Is of an outcome
abbrev pub shows : Error → Option Error → Bool
shows sentinel none = false
shows sentinel (some e) = is e sentinel

-- An exit code that tells the outcomes of an Add apart.
abbrev pub TellsApart : Option Error → ℕ → Type 0
TellsApart e n =
    ((n ≡ 0) ↔ (e ≡ none))
    × ((n ≡ 3) ↔ (shows already_exists e ≡ true))
    × ((n ≡ 4) ↔ (shows not_exist e ≡ true))
    × ((n ≡ 0) ⊎ (n ≡ 1) ⊎ (n ≡ 3) ⊎ (n ≡ 4))

-- The exit code of an Add is the same whether the store is asked directly or behind the HTTP handler
-- by the HTTP client, and there it tells the outcomes apart: it is 0 exactly for a success, 3 exactly
-- for a duplicate, 4 exactly for a store that is missing, and otherwise 1.
pub exit_code-post_answer :
    (id : Text) (m : Meta) (e : Option Error)
    → (exit_code (add_error (post_answer id (m, e)).status) ≡ exit_code e)
      × TellsApart e (exit_code (add_error (post_answer id (m, e)).status))
unfolding exit_code add_error post_answer is code
exit_code-post_answer id m none = (refl, ground arith)
exit_code-post_answer id m (some e) = (ground arith, ground arith)

-- A store whose Stat changes nothing, and that refuses to add what its Stat shows, with
-- ErrAlreadyExists and no change.
pub record RefusesDuplicates {S : Type 0} (b : Backend S) : Type 0 where
  pub stat_kept : (id d : Text) (s : S) → (b.stat id d s).1 ≡ s
  pub refuses :
      (id : Text) (m : Meta) (r : Source) (s : S) (i : Info)
      → is_empty m.digest ≡ false
      → (b.stat id m.digest s).0 ≡ ok i
      → ((b.add id m r s).0.1 ≡ some already_exists) × ((b.add id m r s).1 ≡ s)

-- On a store whose Stat changes nothing, and that refuses to add what its Stat shows, by
-- ErrAlreadyExists and without a change, CheckExistence changes neither the error nor the effect of
-- an Add, as long as Stat knows the size of what it shows.
pub check_existence-add :
    {S : Type 0} (b : Backend S) (id : Text) (m : Meta) (r : Source) (s : S)
    → RefusesDuplicates b
    → ((i : Info) → (b.stat id m.digest s).0 ≡ ok i → (n : flob.Prelude.Int.ℤ) × (i.size ≡ ok n))
    → (((check_existence b).add id m r s).0.1 ≡ (b.add id m r s).0.1)
      × (((check_existence b).add id m r s).1 ≡ (b.add id m r s).1)
unfolding check_existence existing
check_existence-add b id m r s honest sized = elim (Bool-cases (is_empty m.digest)) [
  | inl empty ↦ rw empty (refl, refl)
  | inr full ↦ elim (Result-cases (b.stat id m.digest s).0) [
    | inr (e, missing) ↦ rw (full, missing, honest.stat_kept id m.digest s) (refl, refl)
    | inl (i, there) ↦
        let (same, kept) = honest.refuses id m r s i full there in
        let (n, known) = sized i there in
        rw (full, there, honest.stat_kept id m.digest s, known, same, kept) (refl, refl)
  ]
]

duplicate_is : is already_exists already_exists ≡ true
unfolding is code
duplicate_is = refl

-- An outcome that AllowDuplicates takes for a success.
abbrev pub forgiven : Option Error → Bool
forgiven none = true
forgiven (some e) = is e already_exists

accept-lem :
    (a : Added)
    → ((accept a).0 ≡ a.0)
      × (((accept a).1 ≡ none) ↔ (forgiven a.1 ≡ true))
      × (((accept a).1 ≡ none) ⊎ ((accept a).1 ≡ a.1))
      × ((accept a).1 ≢ some already_exists)
unfolding accept
accept-lem (m, none) = ground arith
accept-lem (m, some x) = elim (Bool-cases (is x already_exists)) [
  | inl dup ↦ rw dup (refl, ((λ k. refl), λ k. refl), inl refl, λ k. ground (arith, k))
  | inr apart ↦ rw apart (
    refl,
    ((λ k. absurd (ground (arith, k))), λ k. absurd (ground (arith, k))),
    inr refl,
    λ k. absurd (cc (apart, k, duplicate_is)),
  )
]

-- An Add under AllowDuplicates returns the Meta and has the effect of the store's own Add. It answers
-- no error exactly where the store's own Add has none or a duplicate's, answers the store's own error
-- otherwise, and never ErrAlreadyExists itself.
pub allow_duplicates-add :
    {S : Type 0} (b : Backend S) (id : Text) (m : Meta) (r : Source) (s : S)
    → (((allow_duplicates b).add id m r s).1 ≡ (b.add id m r s).1)
      × (((allow_duplicates b).add id m r s).0.0 ≡ (b.add id m r s).0.0)
      × ((((allow_duplicates b).add id m r s).0.1 ≡ none) ↔ (forgiven (b.add id m r s).0.1 ≡ true))
      × ((((allow_duplicates b).add id m r s).0.1 ≡ none)
          ⊎ (((allow_duplicates b).add id m r s).0.1 ≡ (b.add id m r s).0.1))
      × (((allow_duplicates b).add id m r s).0.1 ≢ some already_exists)
unfolding allow_duplicates
allow_duplicates-add b id m r s =
    let (meta, fine, either, never) = accept-lem (b.add id m r s).0 in
    (refl, meta, fine, either, never)

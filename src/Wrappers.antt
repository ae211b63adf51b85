-- ===== src/Wrappers.antt =====
-- util.go: stores made of other stores, over any backend. A store is a Backend at a namespace.
pub mod Duplicates
use flob.Prelude.{ℕ, Bool, true, false, Option, none, some, List, if◌then◌else◌}
use flob.Prelude.Text.{Text, is_empty, codes}
use flob.Prelude.Int.{pos}
use flob.Errors.{Error, unimplemented, already_exists, is}
use flob.Meta.{Meta, Labels, Source, Added, no_meta}
use flob.Mem.Staging.{Result, ok, err}
use flob.Info.{Info}
use flob.Http.Handler.{Backend}

abbrev or_else {ℓ} : {A : Type ℓ} {S : Type 0} → Result A × S → (S → Result A × S) → Result A × S
or_else (ok a, s) next = (ok a, s)
or_else (err e, s) next = next s

-- the result of an Add without ErrAlreadyExists
unfoldable pub accept : Added → Added
accept (m, none) = (m, none)
accept (m, some e) = if is e already_exists then (m, none) else (m, some e)

-- what checkExistence answers for a blob that is there
unfoldable pub existing : Info → Added
existing i = elim i.size [
  | err e ↦ (record no_meta { digest = i.digest }, some e)
  | ok n ↦ (record { digest = i.digest; labels = none; size = n }, some already_exists)
]

module _ {S : Type 0} where
  -- ErrorStore, which UnimplementedStore is at ErrUnimplemented; neither can presign
  unfoldable pub failing : Error → Backend S
  failing e = record {
    add = λ id m r s. ((no_meta, some e), s);
    stat = λ id d s. (err e, s);
    open_blob = λ id d s. (err e, s);
    label = λ id d ls s. (some e, s);
    erase = λ id d s. (some e, s);
    presign = λ id d s. none;
  }

  -- FallbackStore: reads that the primary store fails go to the secondary one. `Unwrap` exposes the
  -- primary's capabilities.
  unfoldable pub fallback : Backend S → Backend S → Backend S
  fallback primary secondary = record {
    add = primary.add;
    stat = λ id d s. or_else (primary.stat id d s) (secondary.stat id d);
    open_blob = λ id d s. or_else (primary.open_blob id d s) (secondary.open_blob id d);
    label = primary.label;
    erase = primary.erase;
    presign = primary.presign;
  }

  -- AllowDuplicates
  unfoldable pub allow_duplicates : Backend S → Backend S
  unfolding accept
  allow_duplicates b = record b { add = λ id m r s. let (a, s') = b.add id m r s in (accept a, s') }

  -- CheckExistence
  unfoldable pub check_existence : Backend S → Backend S
  unfolding existing
  check_existence b = record b {
    add = λ id m r s.
        if is_empty m.digest
        then b.add id m r s
        else (let (found, s') = b.stat id m.digest s in
            elim found [ err e ↦ b.add id m r s' | ok i ↦ (existing i, s') ]);
  }

-- ===== src/Info.antt =====
-- info.go: what is known of a blob, with what each of its loaders answers.
use flob.Prelude.{ℕ, Bool, Option, none, some}
use flob.Prelude.Text.{Text}
use flob.Prelude.Int.{ℤ}
use flob.Errors.{unsupported, is}
use flob.Meta.{Meta, Labels}
use flob.Mem.Staging.{Result, ok, err}

pub record Info : Type 0 where
  pub digest : Text
  pub size : Result ℤ
  pub added : Result ℕ
  pub labels : Result Labels

-- infoMeta: the size is asked before the labels
unfoldable pub info_meta : Info → Result Meta
info_meta i = elim i.size [
  | err e ↦ err e
  | ok n ↦ elim i.labels [
    | err e ↦ err e
    | ok ls ↦ ok (record { digest = i.digest; labels = ls; size = n })
  ]
]

-- lastModified of http.go: an unknown time is no header
unfoldable pub last_modified : Info → Result (Option ℕ)
last_modified i = elim i.added [
  | ok t ↦ ok (some t)
  | err e ↦ elim (is e unsupported) [ Bool.true ↦ ok none | Bool.false ↦ err e ]
]

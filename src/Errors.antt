-- ===== src/Errors.antt =====
-- error.go and http_authorizer.go: the errors that callers tell apart by `errors.Is`, with those of
-- the standard library that the code compares with. Wrapping by `%w` keeps what `errors.Is` sees, so
-- an error stands here for its sentinel; `other` is any error that matches none of them.
use Prim.Native.Nat.{ℕ, ◌+◌}
use mathlib.Core.Bool.{Bool}
use flob.Prelude.{◌==◌}

pub data Error : Type 0 where
  stage_expired stage_closed stage_conflict stage_format offset_mismatch : Error
  incompatible_store unimplemented not_exist already_exists : Error
  invalid_digest digest_mismatch : Error
  unauthenticated forbidden : Error
  canceled deadline_exceeded : Error
  eof unexpected_eof closed unsupported : Error
  other : ℕ → Error

unfoldable pub code : Error → ℕ
code stage_expired = 0
code stage_closed = 1
code stage_conflict = 2
code stage_format = 3
code offset_mismatch = 4
code incompatible_store = 5
code unimplemented = 6
code not_exist = 7
code already_exists = 8
code invalid_digest = 9
code digest_mismatch = 10
code unauthenticated = 11
code forbidden = 12
code canceled = 13
code deadline_exceeded = 14
code eof = 15
code unexpected_eof = 16
code closed = 17
code unsupported = 18
code (other n) = 19 + n

-- errors.Is(e, target)
unfoldable pub is : Error → Error → Bool
unfolding code
is e target = code e == code target

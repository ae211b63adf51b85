-- ===== src/Tap.antt =====
-- cache.go: blobTap, which copies what a reader takes from the origin into the cache. The pipe is what
-- it has been sent; what its reader makes of a write is an argument.
pub mod Prefix
use flob.Prelude.{
  ℕ, ◌+◌, ◌-◌, Bool, true, false, not, ◌&&◌, Option, none, some, List, [], ◌++◌, length, take, drop,
  leb, ltb, ◌==◌, if◌then◌else◌, is_some,
}
use flob.Errors.{Error, eof, unexpected_eof, is}

-- blobTap. `verdict` is the argument of the one call of `stop` that counts: nil is that the cache has
-- every byte.
pub record Tap : Type 0 where
  pub offset : ℕ
  pub forwarded : ℕ
  pub size : ℕ
  pub sent : List ℕ
  pub verdict : Option (Option Error)

-- blobTap.stop, whose body runs once
unfoldable pub stop : Option Error → Tap → Tap
stop e t = elim t.verdict [ some v ↦ t | none ↦ record t { verdict = some e } ]

-- newBlobTap, for a size that is not negative
unfoldable pub new_tap : ℕ → Tap
unfolding stop
new_tap size =
    let t : Tap = record { offset = 0; forwarded = 0; size = size; sent = []; verdict = none } in
    if size == 0 then stop none t else t

-- what PipeWriter.Write answers: how many bytes were taken, and its error
pub record Written : Type 0 where
  pub count : ℕ
  pub failure : Option Error

-- The write to the pipe of what lies beyond the forwarded prefix, and the end of blobTap.Read.
unfoldable pub forward : ℕ → List ℕ → Written → Tap → Tap
unfolding stop
forward start b w t =
    let t' : Tap = record t {
      forwarded = t.forwarded + w.count;
      sent = t.sent ++ take w.count (drop (t.forwarded - start) b);
    } in
    elim w.failure [
      | some e ↦ stop (some e) t'
      | none ↦ if t.forwarded + w.count == t.size then stop none t' else t'
    ]

abbrev pub failed_by : Option Error → Bool
failed_by none = false
failed_by (some e) = not (is e eof)

abbrev pub ended_by : Option Error → Bool
ended_by none = false
ended_by (some e) = is e eof

-- blobTap.Read once the source has given the bytes `b` and the error `e`
unfoldable pub tap_read : List ℕ → Option Error → Written → Tap → Tap
unfolding forward stop
tap_read b e w t =
    let start = t.offset in
    let t' : Tap = record t { offset = start + length b } in
    if is_some t.verdict
    then t'
    else if failed_by e
    then stop e t'
    else if not (length b == 0) && ltb t.size (start + length b)
    then stop (some unexpected_eof) t'
    else if ended_by e && leb start t.forwarded && ltb (start + length b) t.size
    then stop (some unexpected_eof) t'
    else if not (length b == 0) && ltb t.forwarded start
    then stop (some unexpected_eof) t'
    else if not (length b == 0) && ltb t.forwarded (start + length b)
    then forward start b w t'
    else if t.forwarded == t.size
    then stop none t'
    else t'

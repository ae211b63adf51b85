-- ===== src/Fill.antt =====
-- fill.go: a blob that is read while it is written, as MemStore.Fill of mem.go keeps it. The
-- tracker's lock makes each operation one step, but for its write, which takes the lock twice: `write`
-- is both halves with nothing between, `take_in` the second half. One writer writes at a time. The
-- channel `wake` only wakes blocked readers: a Read that would block answers `waits`.
pub mod Tracking
pub mod Chunks
pub mod Release
pub mod Reading
use flob.Prelude.{
  ℕ, ◌+◌, ◌-◌, ◌≡◌, Bool, true, false, not, ◌&&◌, Option, none, some, List, [], ◌∷◌, ◌++◌, length,
  take, drop, min, leb, ltb, ◌==◌, if◌then◌else◌,
}
use flob.Prelude.Text.{Text, text_eq}
use flob.Prelude.Int.{ℤ, pos, negsuc, ◌+ℤ◌}
use flob.Errors.{Error, other, already_exists, digest_mismatch, eof, unexpected_eof}
use flob.Hashing.{Hashing, sanitize, render}
use flob.Meta.{Meta, Added}
use flob.Mem.Refs.{find}
use flob.Mem.State.{Pool}
use flob.Mem.Store.{publish}

-- the errors that fill.go makes itself
abbrev pub bad_size : Error
bad_size = other 1001

abbrev pub past_size : Error
past_size = other 1002

abbrev pub fill_released : Error
fill_released = other 1003

abbrev pub read_after_close : Error
read_after_close = other 1004

abbrev pub bad_whence : Error
bad_whence = other 1005

abbrev pub negative_position : Error
negative_position = other 1006

-- fillTracker.state: nil, io.EOF, or why the fill failed
pub data Progress : Type 0 where
  expecting : Progress
  verified : Progress
  broken : Error → Progress

-- fillReader
pub record Reader : Type 0 where
  pub off : ℕ
  pub is_open : Bool

-- what a Read answers: the bytes with an error, or that it blocks
pub data Got : Type 0 where
  waits : Got
  gives : List ℕ → Option Error → Got

-- the state that an abort leaves
abbrev pub aborted : Progress → Option Error → Progress
aborted expecting none = broken unexpected_eof
aborted expecting (some e) = broken e
aborted verified e = verified
aborted (broken b) e = broken b

module _ (h : Hashing) where
  -- memFill and its fillTracker
  pub record Fill : Type 0 where
    pub meta : Meta
    pub size : ℕ
    pub hash : h.State
    pub bytes : List ℕ
    pub written : ℕ
    pub progress : Progress
    pub ended : Bool
    pub readers : ℕ
    pub released : Bool

  -- MemStore.Fill makes a slice with the capacity min(m.Size, 1<<20), which panics below zero.
  pub data Started : Type 0 where
    panics : Started
    refuses : Error → Started
    starts : Fill → Started

  -- fillTracker.verify
  unfoldable pub verify : Fill → Fill
  unfolding render
  verify f = record f {
    progress =
        if text_eq (render h (h.algorithm f.meta.digest) f.hash) f.meta.digest
        then verified
        else broken digest_mismatch;
  }

  -- a tracker before its first byte
  abbrev pub untouched : Meta → ℕ → Fill
  untouched m size = record {
    meta = m;
    size = size;
    hash = h.start (h.algorithm m.digest);
    bytes = [];
    written = 0;
    progress = expecting;
    ended = false;
    readers = 0;
    released = false;
  }

  -- newFillTracker, for a size that is not negative
  unfoldable pub new_fill : Meta → ℕ → Fill
  unfolding verify
  new_fill m size = if size == 0 then verify (untouched m size) else untouched m size

  -- MemStore.Fill of the store `id`
  unfoldable pub fill : Text → Meta → Pool → Started
  unfolding new_fill
  fill id m p =
      let (bad, d) = sanitize h m.digest in
      elim bad [
        | some e ↦ refuses e
        | none ↦ elim (find id d p.es) [
          | some e ↦ refuses already_exists
          | none ↦ elim m.size [
            | negsuc n ↦ panics
            | pos n ↦ starts (new_fill (record m { digest = d }) n)
          ]
        ]
      ]

  -- the bytes stored, hashed and counted
  abbrev pub grown : Fill → List ℕ → Fill
  grown f q = record f {
    bytes = f.bytes ++ q;
    hash = h.write f.hash q;
    written = f.written + length q;
  }

  -- The end of fillTracker.write, which settles the fill once it is full.
  unfoldable pub take_in : Fill → List ℕ → Fill
  unfolding verify
  take_in f q = if f.written + length q == f.size then verify (grown f q) else grown f q

  -- memFill.Write: fillTracker.write, whose `store` appends to the slice. On a fill that keeps
  -- `written` within its size, the difference is that of the integers.
  unfoldable pub write : Fill → Progress → List ℕ → (ℕ × Option Error) × Fill
  unfolding take_in
  write f verified q = ((0, some past_size), f)
  write f (broken e) q = ((0, some e), f)
  write f expecting q =
      let room = f.size - f.written in
      if ltb room (length q)
      then ((length (take room q), some past_size), take_in f (take room q))
      else ((length q, none), take_in f q)

  -- fillTracker.complete
  abbrev pub complete : Progress → Option Error
  complete verified = none
  complete expecting = some unexpected_eof
  complete (broken e) = some e

  -- fillTracker.maybeRelease
  unfoldable pub maybe_release : Fill → Fill
  maybe_release f =
      if f.ended && f.readers == 0 && not f.released then record f { released = true } else f

  -- fillTracker.abort
  unfoldable pub abort : Option Error → Fill → Fill
  unfolding maybe_release
  abort e f = maybe_release (record f { progress = aborted f.progress e; ended = true })

  -- fillTracker.end
  unfoldable pub end : Fill → Fill
  unfolding maybe_release
  end f = maybe_release (record f { ended = true })

  -- fillTracker.follow
  unfoldable pub follow : Fill → Option Error × Fill
  follow f =
      if f.released then (some fill_released, f) else (none, record f { readers = f.readers + 1 })

  -- memFill.Commit, which ends the fill whatever it answers
  unfoldable pub commit : ℕ → Text → ℕ → Fill → Pool → Option (Added × (Fill × Pool))
  unfolding end
  commit fuel id now f p = elim (complete f.progress) [
    | some e ↦ some ((f.meta, some e), (end f, p))
    | none ↦
        elim (publish fuel id (record (f.meta) { size = pos (length f.bytes) }) now f.bytes p) [
          | none ↦ none
          | some (a, p') ↦ some (a, (end f, p'))
        ]
  ]

  -- memFill.ReadAt
  unfoldable pub read_at : Fill → ℕ → ℕ → List ℕ × Option Error
  read_at f n off =
      if leb (length f.bytes) off
      then ([], some eof)
      else (let b = take n (drop off f.bytes) in (b, if ltb (length b) n then some eof else none))

  -- the branch of fillReader.Read that reads
  unfoldable pub read_some : Fill → Reader → ℕ → Got × Reader
  unfolding read_at
  read_some f r n =
      let (b, e) = read_at f (min n (f.written - r.off)) r.off in
      let e' : Option Error = if length b == min n (f.written - r.off) then none else e in
      (gives b e', record r { off = r.off + length b })

  -- the end of a round with nothing to give: `ctx` is ctx.Err() if the wait ends by ctx.Done()
  unfoldable pub await : Option Error → Reader → Got × Reader
  await none r = (waits, r)
  await (some e) r = (gives [] (some e), r)

  -- One round of the loop of fillReader.Read into `n` bytes. The error of ReadAt is io.EOF or nil.
  unfoldable pub read : Option Error → Fill → Progress → Reader → ℕ → Got × Reader
  unfolding read_some await
  read ctx f (broken e) r n =
      if not r.is_open then (gives [] (some read_after_close), r) else (gives [] (some e), r)
  read ctx f verified r n =
      if not r.is_open
      then (gives [] (some read_after_close), r)
      else if leb f.size r.off
      then (gives [] (some eof), r)
      else if ltb r.off f.written
      then (if n == 0 then (gives [] none, r) else read_some f r n)
      else await ctx r
  read ctx f expecting r n =
      if not r.is_open
      then (gives [] (some read_after_close), r)
      else if ltb r.off f.written
      then (if n == 0 then (gives [] none, r) else read_some f r n)
      else await ctx r

  -- fillReader.Close
  unfoldable pub close : Reader → Fill → Reader × Fill
  unfolding maybe_release
  close r f =
      if r.is_open
      then (record r { is_open = false }, maybe_release (record f { readers = f.readers - 1 }))
      else (r, f)

pub data Whence : Type 0 where
  start current end_of invalid : Whence

abbrev move_to : Reader → ℤ → (ℤ × Option Error) × Reader
move_to r (negsuc n) = ((pos 0, some negative_position), r)
move_to r (pos n) = ((pos n, none), record r { off = n })

-- fillReader.Seek in a fill of `size` bytes
unfoldable pub seek : ℕ → ℤ → Whence → Reader → (ℤ × Option Error) × Reader
seek size offset start r = move_to r offset
seek size offset current r = move_to r (offset +ℤ pos r.off)
seek size offset end_of r = move_to r (offset +ℤ pos size)
seek size offset invalid r = ((pos 0, some bad_whence), r)

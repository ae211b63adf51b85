-- ===== src/Http/Ranging.antt =====
-- httpRangeReader of http.go: Read, Seek and Close. What a body gives at a time is the environment's
-- choice; `ctx` holds the answers of the reader's context, by the place where they are asked for.
use flob.Prelude.{
  ℕ, ◌+◌, ◌-◌, Bool, true, false, ◌&&◌, ◌||◌, Option, none, some, List, [], ◌∷◌, length, take, drop,
  min, leb, ◌==◌, is_some, if◌then◌else◌,
}
use flob.Prelude.Int.{ℤ, pos, pos_part, ltb_ℤ, ◌+ℤ◌}
use flob.Prelude.Decimal.{max_int64}
use flob.Errors.{Error, eof, unexpected_eof, closed, other, is}
use flob.Meta.{Source}
use flob.Mem.Staging.{Result, ok, err}
use flob.Http.Ranges.{RangeReader}
use flob.Http.Opening.{Fetch, open_response}

-- How a body answers one Read: at most so many bytes, and whether the end comes with the last ones.
pub record Gives : Type 0 where
  pub chunk : ℕ
  pub eager : Bool

-- the error at the end of a body
abbrev pub end_error : Source → Error
end_error src = elim src.failure [ none ↦ eof | some e ↦ e ]

abbrev pub piece_size : ℕ → Gives → Source → ℕ
piece_size n g src = min g.chunk (min n (length src.bytes))

-- io.Reader.Read of a body: its bytes, its error, and what is left of it
abbrev pub read_body : ℕ → Gives → Source → List ℕ × Option Error × Source
read_body n g src =
    let k = piece_size n g src in
    (
      take k src.bytes,
      if length src.bytes == k && (k == 0 || g.eager) then some (end_error src) else none,
      record src { bytes = drop k src.bytes },
    )

abbrev pub is_eof : Option Error → Bool
is_eof none = false
is_eof (some e) = is e eof

-- stateError
abbrev pub state_error : RangeReader → Option Error → Option Error
state_error r ctx = if r.closed then some closed else ctx

-- the error of the state, if there is one, in place of another
abbrev pub instead : Option Error → Option Error → Option Error
instead (some e) old = some e
instead none old = old

abbrev pub overlong : Error
overlong = other 3003

-- io.ReadFull of one more byte behind the end of a response: nothing may come but io.EOF
abbrev pub tail_error : Source → Option Error
tail_error src = elim src.bytes [
  | [] ↦ if is (end_error src) eof then none else some (end_error src)
  | c ∷ rest ↦ some overlong
]

-- the error of a Read that is at the end of its response, and the reader after it
abbrev pub at_end : Source → Option Error → RangeReader → Option Error × RangeReader
at_end rest none r = (tail_error rest, record r { body = none })
at_end rest (some e) r =
    if is e eof then (none, record r { body = none }) else (some e, record r { body = some rest })

-- the end of Read: an error is kept, and closes the body
abbrev pub finish : List ℕ → Option Error × RangeReader → (List ℕ × Option Error) × RangeReader
finish b (none, r) = ((b, none), r)
finish b (some e, r) = ((b, some e), record r { read_error = some e; body = none })

-- the error of the body as Read takes it
abbrev pub cut_short : Option Error → RangeReader → Option Error
cut_short e r = if is_eof e && leb r.offset r.response_end then some unexpected_eof else e

abbrev pub boundary : Source → Option Error → RangeReader → Option Error × RangeReader
boundary rest e r =
    if r.offset == r.response_end + 1 then at_end rest e r else (e, record r { body = some rest })

abbrev pub overruled : Option Error → Option Error × RangeReader → Option Error × RangeReader
overruled ctx (e, r) = (instead (state_error r ctx) e, r)

-- Read once a body is open and has given a piece
unfoldable pub take_piece :
    (ℕ → Option Error)
    → List ℕ × Option Error × Source
    → RangeReader
    → (List ℕ × Option Error) × RangeReader
take_piece ctx (b, e, rest) r =
    let r' : RangeReader = record r { offset = r.offset + length b } in
    finish b
      (overruled (ctx 3) (boundary rest (cut_short (instead (state_error r' (ctx 2)) e) r') r'))

abbrev pub read_open :
    (ℕ → Option Error)
    → Gives
    → ℕ
    → RangeReader
    → Option Source
    → (List ℕ × Option Error) × RangeReader
read_open ctx g n r none = (([], some closed), r)
read_open ctx g n r (some src) =
    take_piece ctx (read_body (min n (r.response_end - r.offset + 1)) g src) r

abbrev pub opened_read :
    (ℕ → Option Error)
    → Gives
    → ℕ
    → Option Error × RangeReader
    → (List ℕ × Option Error) × RangeReader
opened_read ctx g n (some e, r) = (([], some e), r)
opened_read ctx g n (none, r) = read_open ctx g n r r.body

-- Read into a buffer of a length
unfoldable pub read :
    Fetch → (ℕ → Option Error) → Gives → ℕ → RangeReader → (List ℕ × Option Error) × RangeReader
unfolding open_response take_piece
read fetch ctx g n r = elim (state_error r (ctx 0)) [
  | some e ↦ (([], some e), r)
  | none ↦ if n == 0 then (([], none), r) else elim r.read_error [
    | some e ↦ (([], some e), r)
    | none ↦
        if leb r.size r.offset
        then (([], some eof), r)
        else if is_some r.body
        then read_open ctx g n r r.body
        else opened_read ctx g n (open_response fetch (ctx 1) r)
  ]
]

-- io.SeekStart, io.SeekCurrent, io.SeekEnd, and any other
pub data Whence : Type 0 where
  seek_start seek_current seek_end : Whence
  seek_other : ℕ → Whence

abbrev pub bad_whence : Error
bad_whence = other 3004

abbrev pub bad_offset : Error
bad_offset = other 3005

abbrev pub base_of : RangeReader → Whence → Option ℕ
base_of r seek_start = some 0
base_of r seek_current = some r.offset
base_of r seek_end = some r.size
base_of r (seek_other n) = none

abbrev pub seek_to : RangeReader → ℕ → RangeReader
seek_to r next =
    if next == r.offset then r else record r { body = none; offset = next; read_error = none }

-- a base and an offset from it, neither before the start nor beyond 64 bits
abbrev pub seek_from : ℤ → RangeReader → Option ℕ → Result ℕ × RangeReader
seek_from offset r none = (err bad_whence, r)
seek_from offset r (some base) =
    if ltb_ℤ (offset +ℤ pos base) (pos 0) || ltb_ℤ (pos max_int64) (offset +ℤ pos base)
    then (err bad_offset, r)
    else (ok (pos_part (offset +ℤ pos base)), seek_to r (pos_part (offset +ℤ pos base)))

-- Seek
unfoldable pub seek : Option Error → ℤ → Whence → RangeReader → Result ℕ × RangeReader
seek ctx offset whence r = elim (state_error r ctx) [
  | some e ↦ (err e, r)
  | none ↦ seek_from offset r (base_of r whence)
]

-- Close, less the error that closing the body answers
unfoldable pub close : RangeReader → RangeReader
close r = if r.closed then r else record r { closed = true; body = none }

-- ===== src/Examples/Ranges.antt =====
-- A reader over ranged GETs of a blob of five bytes, read from its third byte on.
use flob.Prelude.{
  ℕ, refl, sym, ap, ◌∙◌, Option, none, List, [], ◌∷◌, ◌+◌, ◌-◌, drop, take-append-drop, false,
}
use flob.Prelude.Text.{codes}
use flob.Prelude.Int.{pos, negsuc}
use flob.Errors.{Error}
use flob.Mem.Staging.{Result, ok, err}
use flob.Http.Ranges.{RangeReader, new_range_reader}
use flob.Http.Opening.{Fetch, RangeResponse}
use flob.Http.Seeking.{IsSought, seek-IsSought}
use flob.Http.Ranging.{seek, seek_end, Gives, read}
use flob.Http.Pieces.{Serves, IsReading, IsPiece, read-IsPiece}

abbrev five_bytes : List ℕ
five_bytes = 104 ∷ 101 ∷ 108 ∷ 108 ∷ 111 ∷ []

abbrev origin : Fetch
origin url offset etag = ok (record {
  status = 206;
  content_range = codes "bytes 2-4/5";
  length = pos 3;
  etag = codes "\"t\"";
  url = codes "u";
  uncompressed = false;
  encoding = [];
  body = record { bytes = drop offset five_bytes; failure = none };
})

abbrev third_byte : RangeReader
third_byte = record (new_range_reader 5 (codes "u") (codes "h") (codes "\"t\"") false) {
  offset = 2;
}

abbrev live : ℕ → Option Error
live k = none

abbrev two_at_once : Gives
two_at_once = record { chunk = 2; eager = false }

abbrev served : Result RangeResponse → List ℕ
served (ok resp) = resp.body.bytes
served (err e) = []

serves : Serves five_bytes origin third_byte
serves = (
  λ resp last answers accepted. (
    drop (last + 1 - 2) resp.body.bytes,
    take-append-drop (last + 1 - 2) resp.body.bytes ∙ sym (ap served answers),
  ),
  λ e. cc e,
)

reading : IsReading five_bytes third_byte
unfolding new_range_reader
reading = (refl, (λ k. cc k), tt)

read-IsPiece_example : IsPiece five_bytes third_byte 3 (read origin live two_at_once 3 third_byte)
read-IsPiece_example =
    read-IsPiece five_bytes origin live two_at_once 3 third_byte (λ k e. cc e) serves reading

-- one byte before the end
seek-IsSought_example :
    IsSought five_bytes (negsuc 0) seek_end third_byte (seek none (negsuc 0) seek_end third_byte)
seek-IsSought_example = seek-IsSought five_bytes none (negsuc 0) seek_end third_byte reading

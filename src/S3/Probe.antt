-- ===== src/S3/Probe.antt =====
-- Whether an S3Stores streams a blob: S3DirectAdd and checksumProbe of s3.go.
use flob.Prelude.{
  ℕ, ◌/◌, Bool, true, false, Option, none, some, List, [], ◌++◌, ◌==◌, ◌&&◌, ◌||◌, length,
  if◌then◌else◌,
}
use flob.Prelude.Text.{Text, codes}
use flob.Prelude.Int.{pos}
use flob.Errors.{Error, other}
use flob.Hashing.{Hashing}
use flob.Mem.Staging.{Result, ok, err}
use flob.S3.Service.{Service, Put, is_success}
use flob.S3.Requests.{State, asks, ask_put, delete_key_if}

-- S3DirectAdd
pub data DirectAdd : Type 0 where
  probe always never : DirectAdd

-- S3Stores as it is configured, with s3CopyLimit and s3CopyPart, and what the spool file of an Add
-- answers when it is made, written to and rewound.
pub record Config : Type 0 where
  pub prefix : Text
  pub copy_limit : ℕ
  pub copy_part : ℕ
  pub direct_add : DirectAdd
  pub create_temp : Option Error
  pub write_temp : Option Error
  pub seek_temp : Option Error

abbrev pub sha256 : Text
sha256 = codes "sha256"

abbrev pub unsigned_payload : Text
unsigned_payload = codes "UNSIGNED-PAYLOAD"

-- the body that probeChecksums sends
abbrev pub probe_body : List ℕ
probe_body = codes "flob checksum probe"

module _ {W : Type 0} (svc : Service W) (h : Hashing) (c : Config) where
  -- S3Stores.probeKey
  abbrev pub probe_key : Text
  probe_key = c.prefix ++ codes "probe/checksum"

  -- a PUT of the probe's body with a checksum of some bytes
  abbrev pub probe_put : List ℕ → Put
  probe_put bytes = record {
    key = probe_key;
    body = record { bytes = probe_body; failure = none };
    size = pos (length probe_body);
    payload_hash = unsigned_payload;
    checksum = some (h.sum256 bytes);
    metadata = [];
    only_new = false;
  }

  -- S3Stores.probeChecksums
  unfoldable pub probe_checksums : State W → Result Bool × State W
  unfolding delete_key_if
  probe_checksums s =
      asks (ask_put svc (probe_put []) s) (λ e s'. (err e, s'))
        (λ res s'.
          if res.status == 400
          then (asks (ask_put svc (probe_put probe_body) s') (λ e t. (err e, t))
              (λ again t.
                if is_success again
                then (ok true, (delete_key_if svc probe_key (codes "") t).1)
                else if again.status / 100 == 4
                then (ok false, t)
                else (err (other again.status), t)))
          else if is_success res
          then (ok false, (delete_key_if svc probe_key (codes "") s').1)
          else if res.status / 100 == 4
          then (ok false, s')
          else (err (other res.status), s'))

  -- the answer of the first probe that gets one is kept
  abbrev pub settled : Bool → State W → Bool × State W
  settled checks s =
      let now : State W = if s.known then s else record s { known = true; checks = checks } in
      (now.known && now.checks, now)

  abbrev pub streams_by : DirectAdd → State W → Bool × State W
  streams_by always s = (true, s)
  streams_by never s = (false, s)
  streams_by probe s =
      if s.known || s.running
      then (s.known && s.checks, s)
      else asks (probe_checksums (record s { running = true }))
          (λ e t. (false, record t { running = false }))
          (λ checks t. settled checks (record t { running = false }))

  -- S3Stores.streams
  unfoldable pub streams : State W → Bool × State W
  unfolding probe_checksums
  streams s = streams_by c.direct_add s

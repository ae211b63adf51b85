-- ===== src/Stage.antt =====
-- store.go: the upload stage's record, its configuration and the checks of a commit.
use flob.Prelude.{
  ℕ, ◌+◌, ◌-◌, ◌*◌, ◌≡◌, refl, ◌⊎◌, inl, inr, Bool, true, false, not, ◌&&◌, ◌||◌, Option, none,
  some, List, [], ◌∷◌, leb, ltb, ◌==◌, length, drop, if◌then◌else◌,
}
use flob.Prelude.Text.{Text, codes, text_eq, is_empty}
use flob.Prelude.Int.{ℤ, pos, negsuc, ltb_ℤ, eq_ℤ}
use flob.Errors.{Error, stage_format, invalid_digest, digest_mismatch}
use flob.Hashing.{Hashing, sanitize, render}
use flob.Meta.{Meta, no_meta, labels_eq}
use flob.Namespace.{namespace_segment, namespace_id}

-- `unknown` is a stored state that is none of the four.
pub data StageState : Type 0 where
  active committing committed aborted unknown : StageState

pub record StageRecord : Type 0 where
  pub version : ℕ
  pub id : Text
  pub namespace : Text
  pub algorithm : Text
  pub offset : ℤ
  pub hash : List ℕ
  pub state : StageState
  pub expires_at : ℕ
  pub commit : Meta
  pub result : Meta

-- Durations in nanoseconds; nonpositive ones stand for the defaults.
pub record StageConfig : Type 0 where
  pub ttl : ℤ
  pub retention : ℤ

abbrev pub day : ℕ
day = 86400000000000

unfoldable pub positive_or_day : ℤ → ℕ
positive_or_day (pos n) = if n == 0 then day else n
positive_or_day (negsuc n) = day

-- StageConfig.normalized, a field at a time
unfoldable pub normal_ttl : StageConfig → ℕ
unfolding positive_or_day
normal_ttl c = positive_or_day c.ttl

unfoldable pub normal_retention : StageConfig → ℕ
unfolding positive_or_day
normal_retention c = positive_or_day c.retention

unfoldable pub all_hex : Text → Bool
all_hex [] = true
all_hex (c ∷ s) = if leb b'0' c && leb c b'9' || leb b'a' c && leb c b'f' then all_hex s else false

unfoldable pub valid_stage_id : Text → Bool
unfolding all_hex
valid_stage_id id = length id == 32 && all_hex id

-- stageRecord.expired: not before the deadline
unfoldable pub expired : StageRecord → ℕ → Bool
expired r now = not (ltb now r.expires_at)

-- binary.BigEndian.Uint64 of eight bytes
unfoldable pub big_endian : ℕ → List ℕ → ℕ
big_endian acc [] = acc
big_endian acc (b ∷ bs) = big_endian (acc * 256 + b) bs

-- uint64(offset)
abbrev pub uint64 : ℤ → ℕ
uint64 (pos n) = n
uint64 (negsuc n) = 18446744073709551615 - n

-- The algorithms that a stage may use.
unfoldable pub is_supported : Text → Bool
is_supported algo =
    text_eq algo (codes "sha256") || text_eq algo (codes "sha384") || text_eq algo (codes "sha512")

-- The digests and sizes that a committing or committed record must hold.
unfoldable pub sizes_match : Text → ℤ → Meta → Bool
sizes_match computed offset m = text_eq m.digest computed && eq_ℤ m.size offset

unfoldable pub results_match : StageState → Text → StageRecord → Bool
unfolding sizes_match
results_match active computed r = true
results_match aborted computed r = true
results_match unknown computed r = false
results_match committing computed r = sizes_match computed r.offset r.commit
results_match committed computed r =
    sizes_match computed r.offset r.commit && sizes_match computed r.offset r.result

-- The namespace is canonical: it decodes to an ID whose segment it is.
unfoldable pub canonical_namespace : Text → Bool
canonical_namespace segment = elim (namespace_id segment) [
  | none ↦ false
  | some id ↦ text_eq (namespace_segment id) segment
]

-- newStageRecord: `id` is the hexadecimal form of the random bytes.
pub data Created : Type 0 where
  failed : Error → Created
  created : StageRecord → Created

pub data Prepared : Type 0 where
  refused : Error → Prepared
  prepared : Meta → Prepared

pub Prepared-cases :
    (q : Prepared) → ((e : Error) × (q ≡ refused e)) ⊎ ((m : Meta) × (q ≡ prepared m))
Prepared-cases (refused e) = inl (e, refl)
Prepared-cases (prepared m) = inr (m, refl)

-- the end of `prepareCommit`: the digest and the size are the stage's own
abbrev pub frozen : Text → StageRecord → Meta → Meta
frozen computed r m = record m { digest = computed; size = r.offset }

module _ (h : Hashing) where
  -- stageHashRestore: no checkpoint starts afresh. The left result is the error.
  pub data Restored : Type 0 where
    bad_hash : Error → Restored
    hash_of : h.State → Restored

  unfoldable pub stage_hash_restore : Text → List ℕ → Restored
  unfolding is_supported
  stage_hash_restore algo [] =
      if is_supported algo then hash_of (h.start algo) else bad_hash invalid_digest
  stage_hash_restore algo (b ∷ bs) =
      if is_supported algo
      then (elim (h.unmarshal algo (b ∷ bs)) [ none ↦ bad_hash stage_format | some s ↦ hash_of s ])
      else bad_hash invalid_digest

  -- stageRecord.validate; every refusal matches ErrStageFormat.
  unfoldable pub validate : StageRecord → Option Error
  unfolding canonical_namespace stage_hash_restore results_match
  validate r =
      if not (canonical_namespace r.namespace)
      then some stage_format
      else if not (r.version == 1)
          || not (valid_stage_id r.id)
          || ltb_ℤ r.offset (pos 0)
          || ltb (length r.hash) 8
      then some stage_format
      else elim (stage_hash_restore r.algorithm r.hash) [
        | bad_hash e ↦ some stage_format
        | hash_of s ↦
            if not (big_endian 0 (drop (length r.hash - 8) r.hash) == uint64 r.offset)
              || r.expires_at == 0
            then some stage_format
            else if results_match r.state (render h r.algorithm s) r
            then none
            else some stage_format
      ]

  unfoldable pub new_stage_record : Text → Text → Text → StageConfig → ℕ → Created
  unfolding stage_hash_restore normal_ttl
  new_stage_record namespace algo id cfg clock =
      let algo' : Text = if is_empty algo then h.canonical else algo in
      elim (stage_hash_restore algo' []) [
        | bad_hash e ↦ failed e
        | hash_of s ↦ created (record {
          version = 1;
          id = id;
          namespace = namespace_segment namespace;
          algorithm = algo';
          offset = pos 0;
          hash = h.marshal s;
          state = active;
          expires_at = clock + normal_ttl cfg;
          commit = no_meta;
          result = no_meta;
        })
      ]

  unfoldable pub check_digest : Text → StageRecord → Meta → Prepared
  check_digest computed r m =
      if is_empty m.digest
      then prepared (frozen computed r m)
      else let (e, d) = sanitize h m.digest in
        elim e [
          | some e ↦ refused e
          | none ↦
              if text_eq d computed then prepared (frozen computed r m) else refused digest_mismatch
        ]

  unfoldable pub prepare_commit : StageRecord → Meta → Prepared
  prepare_commit r m = elim (validate r) [
    | some e ↦ refused e
    | none ↦ elim (stage_hash_restore r.algorithm r.hash) [
      | bad_hash e ↦ refused e
      | hash_of s ↦ check_digest (render h r.algorithm s) r m
    ]
  ]

-- stageCommitMatches
unfoldable pub stage_commit_matches : Meta → Meta → Bool
stage_commit_matches a b =
    text_eq a.digest b.digest && eq_ℤ a.size b.size && labels_eq a.labels b.labels

pub Restored-cases :
    (h : Hashing) (q : Restored h)
    → ((e : Error) × (q ≡ bad_hash e)) ⊎ ((s : h.State) × (q ≡ hash_of s))
Restored-cases h (bad_hash e) = inl (e, refl)
Restored-cases h (hash_of s) = inr (s, refl)

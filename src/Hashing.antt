-- ===== src/Hashing.antt =====
-- What the program takes from github.com/opencontainers/go-digest and from the hash functions that
-- it registers. They are parameters: `Hashing` holds the operations, `HashingLaws` the documented
-- behaviour that some theorems rely on. digest.go is modelled on top of them.
use flob.Prelude.{ℕ, ◌+◌, ◌≡◌, Option, none, some, List, [], ◌++◌, ◌&&◌, leb, map, if◌then◌else◌}
use flob.Prelude.Text.{Text, codes}
use flob.Errors.{Error}

pub record Hashing : Type 1 where
  -- digest.Digest.Validate: `none` for a well-formed digest of an available algorithm
  pub validate : Text → Option Error
  -- digest.Digest.Algorithm and Encoded: what stands before and after the colon
  pub algorithm : Text → Text
  pub encoded : Text → Text
  -- digest.Canonical
  pub canonical : Text
  -- hash.Hash with its checkpoints: encoding.BinaryMarshaler and BinaryUnmarshaler
  pub State : Type 0
  pub start : Text → State
  pub write : State → List ℕ → State
  -- the lower-case hexadecimal form of Sum(nil)
  pub sum : State → Text
  pub marshal : State → List ℕ
  pub unmarshal : Text → List ℕ → Option State
  -- sha256.Sum256
  pub sum256 : List ℕ → List ℕ

pub record HashingLaws (h : Hashing) : Type 0 where
  -- writing is streaming
  pub write_append : (s : h.State) (a b : List ℕ) → h.write (h.write s a) b ≡ h.write s (a ++ b)
  pub write_empty : (s : h.State) → h.write s [] ≡ s
  -- a checkpoint resumes hashing where it was taken
  pub resume :
      (algo : Text) (bytes : List ℕ)
      → h.unmarshal algo (h.marshal (h.write (h.start algo) bytes))
        ≡ some (h.write (h.start algo) bytes)

module _ (h : Hashing) where
  -- fmt.Sprintf("%s:%x", algo, state.Sum(nil))
  unfoldable pub render : Text → h.State → Text
  render algo s = algo ++ codes ":" ++ h.sum s

  -- Algorithm.FromBytes: the digest of the bytes under an algorithm
  unfoldable pub from_bytes : Text → List ℕ → Text
  unfolding render
  from_bytes algo bytes = render algo (h.write (h.start algo) bytes)

-- strings.ToLower on ASCII
unfoldable pub lower : ℕ → ℕ
lower c = if leb b'A' c && leb c b'Z' then c + 32 else c

unfoldable pub to_lower : Text → Text
unfolding lower
to_lower s = map lower s

-- Digest.Sanitize: a validated digest holds ASCII only, so its lower case is that of ASCII
unfoldable pub sanitize : Hashing → Text → Option Error × Text
unfolding to_lower
sanitize h d = elim (h.validate d) [ none ↦ (none, to_lower d) | some e ↦ (some e, codes "") ]

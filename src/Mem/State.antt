-- ===== src/Mem/State.antt =====
-- The state of a MemStores pool: the blobs on a heap, since entries of several stores share one, the
-- maps `bs`, `es` and `stages`, and the namespaces that `Use` has made.
use flob.Prelude.{
  ℕ, ◌+◌, ◌-◌, ◌%◌, ◌≤◌, ◌<◌, ◌≡◌, Option, none, some, List, [], ◌∷◌, arith, ◌==◌, if◌then◌else◌,
  ◌^◌,
}
use flob.Prelude.Text.{Text, text_eq, text_eq_iff}
use flob.Stage.{StageRecord, StageConfig}
use flob.Mem.Refs.{Entry, Ref, find, holders, occurs}

-- memBlob; its lock is held for the whole of each modelled step
pub record Blob : Type 0 where
  pub bytes : List ℕ
  pub refs : ℕ

-- memStageEntry
pub record StageEntry : Type 0 where
  pub stage : StageRecord
  pub bytes : List ℕ

pub record Pool : Type 0 where
  pub heap : ℕ → Option Blob
  pub next : ℕ
  pub bs : List (Text × ℕ)
  pub es : List Ref
  pub ss : List Text
  pub stages : List (Text × StageEntry)
  pub config : StageConfig

-- NewMemStores
abbrev pub new_mem_stores : StageConfig → Pool
new_mem_stores cfg = record {
  heap = λ a. none;
  next = 0;
  bs = [];
  es = [];
  ss = [];
  stages = [];
  config = cfg;
}

abbrev pub update {ℓ} : {A : Type ℓ} → (ℕ → Option A) → ℕ → A → ℕ → Option A
update h a v x = if x == a then some v else h x

-- Load and Delete of a map keyed by strings
module _ {ℓ} {V : Type ℓ} where
  unfoldable pub load : Text → List (Text × V) → Option V
  load k [] = none
  load k ((j, v) ∷ m) = if text_eq j k then some v else load k m

  unfoldable pub delete : Text → List (Text × V) → List (Text × V)
  delete k [] = []
  delete k ((j, v) ∷ m) = if text_eq j k then delete k m else (j, v) ∷ delete k m

  -- Store over a key that is there
  unfoldable pub store : Text → V → List (Text × V) → List (Text × V)
  store k v [] = (k, v) ∷ []
  store k v ((j, w) ∷ m) = if text_eq j k then (j, v) ∷ m else (j, w) ∷ store k v m

  pub load-delete :
      (k j : Text) (m : List (Text × V))
      → load j (delete k m) ≡ (if text_eq k j then none else load j m)
  unfolding load delete
  load-delete k j [] = ground arith
  load-delete k j ((i, v) ∷ m) =
      ground (arith, load-delete k j m, text_eq_iff i k, text_eq_iff i j, text_eq_iff k j)

  pub load-store :
      (k j : Text) (v : V) (m : List (Text × V))
      → load j (store k v m) ≡ (if text_eq k j then some v else load j m)
  unfolding load store
  load-store k j v [] = ground arith
  load-store k j v ((i, w) ∷ m) =
      ground (arith, load-store k j v m, text_eq_iff i k, text_eq_iff i j, text_eq_iff k j)

-- refs++ and refs-- on a 64-bit uint
abbrev pub word : ℕ
word = 2 ^ 64

unfoldable pub increment : ℕ → ℕ
increment n = (n + 1) % word

unfoldable pub decrement : ℕ → ℕ
decrement n = (n + word - 1) % word

abbrev pub refs_at : Pool → ℕ → ℕ
refs_at p a = elim (p.heap a) [ none ↦ 0 | some b ↦ b.refs ]

abbrev pub bytes_at : Pool → ℕ → List ℕ
bytes_at p a = elim (p.heap a) [ none ↦ [] | some b ↦ b.bytes ]

-- Every entry's blob is the one that `bs` has for its digest; that blob counts exactly the entries
-- of its digest, at least one and fewer than a word holds; no blob serves two digests; and a store
-- has one entry for a digest.
pub record IsValid (p : Pool) : Type 0 where
  pub unique : (id d : Text) → occurs id d p.es ≤ 1
  pub linked : (id d : Text) (e : Entry) → find id d p.es ≡ some e → load d p.bs ≡ some e.blob
  pub counted :
      (d : Text) (a : ℕ)
      → load d p.bs ≡ some a
      → (refs_at p a ≡ holders d p.es) × (0 < refs_at p a) × (refs_at p a < word)
  pub apart : (c d : Text) (a : ℕ) → load c p.bs ≡ some a → load d p.bs ≡ some a → c ≡ d
  pub allocated : (d : Text) (a : ℕ) → load d p.bs ≡ some a → a < p.next

-- What a store shows of a digest: the bytes, the labels and the time of its entry.
pub record Content : Type 0 where
  pub bytes : List ℕ
  pub labels : Option (List (Text × List Text))
  pub added : ℕ

unfoldable pub view : Pool → Text → Text → Option Content
view p id d = elim (find id d p.es) [
  | none ↦ none
  | some e ↦ some (record { bytes = bytes_at p e.blob; labels = e.labels; added = e.added })
]

-- ===== src/Examples/Stages.antt =====
-- An upload to the store `a`, from a stage that holds two bytes.
use flob.Prelude.{◌≡◌, refl, false, none, some, [], ◌∷◌, ◌++◌}
use flob.Prelude.Text.{Text, codes, text_eq, cut_prefix}
use flob.Prelude.Int.{pos}
use flob.Errors.{offset_mismatch}
use flob.Hashing.{from_bytes, render}
use flob.Meta.{Meta, Source, no_meta}
use flob.Namespace.{namespace_segment, namespace_id}
use flob.Stage.{
  StageState, validate, stage_hash_restore, big_endian, prepare_commit, prepared, check_digest,
  expired, valid_stage_id, normal_retention, is_supported, results_match, sizes_match,
}
use flob.Mem.State.{Pool, StageEntry, IsValid, load, store}
use flob.Mem.Refs.{find}
use flob.Mem.Store.{publish, obtain, attach}
use flob.Mem.State.{increment, update}
use flob.Mem.Staging.{ok, acquire, append, append_to, append_restored, appended}
use flob.Mem.Settling.{
  complete, after_publish, commit_prepared, settled, abort_acquired, commit, abort,
}
use flob.Mem.Lifecycle.{HasMoved, append_atomic}
use flob.Mem.Transitions.{commit-HasMoved}
use flob.Mem.Uploads.{Completes, commit-Completes}
use flob.Mem.Checkpoints.{IsTracking, Extends, append-Extends, prepare_commit-IsDigest}
use flob.Examples.Toy.{toy, toy-laws}
use flob.Examples.Stores.{one_blob, one_blob-IsValid, one_blob-HasRoom, quiet, config}

abbrev pub stage_id : Text
stage_id = codes "0123456789abcdef0123456789abcdef"

abbrev pub upload : StageEntry
upload = record {
  stage = record {
    version = 1;
    id = stage_id;
    namespace = codes "a";
    algorithm = codes "sha256";
    offset = pos 2;
    hash = 5 ∷ 6 ∷ 0 ∷ 0 ∷ 0 ∷ 0 ∷ 0 ∷ 0 ∷ 0 ∷ 2 ∷ [];
    state = StageState.active;
    expires_at = 100;
    commit = no_meta;
    result = no_meta;
  };
  bytes = 5 ∷ 6 ∷ [];
}

abbrev pub staging : Pool
staging = record one_blob { stages = (stage_id, upload) ∷ [] }

acquire-upload : acquire toy quiet (codes "a") stage_id false staging ≡ ok upload
unfolding acquire load text_eq validate namespace_segment namespace_id valid_stage_id big_endian
    expired cut_prefix
acquire-upload = refl

abbrev more : Source
more = record { bytes = 7 ∷ []; failure = none }

-- what an Append of one byte leaves of the stage
abbrev longer : StageEntry
longer = appended toy quiet (5 ∷ 6 ∷ []) more upload config

abbrev extended : Pool
extended = record staging { stages = (stage_id, longer) ∷ [] }

append_upload :
    append toy quiet (codes "a") stage_id (pos 2) more staging ≡ ((pos 3, none), extended)
unfolding append append_to append_restored stage_hash_restore acquire load store text_eq validate
    namespace_segment namespace_id valid_stage_id big_endian expired cut_prefix is_supported
append_upload = refl

append_stale :
    append toy quiet (codes "a") stage_id (pos 1) more staging
    ≡ ((pos 2, some offset_mismatch), staging)
unfolding append append_to acquire load text_eq validate namespace_segment namespace_id
    valid_stage_id big_endian expired cut_prefix
append_stale = refl

append_atomic_example : staging ≡ staging
append_atomic_example =
    append_atomic toy quiet (codes "a") stage_id (pos 1) more staging (pos 2) offset_mismatch
      staging append_stale

upload-IsTracking : IsTracking toy upload
upload-IsTracking = record { offset = refl; hash = refl }

append-Extends_example :
    (pos 2 ≡ pos 2) × Extends toy toy-laws stage_id upload (7 ∷ []) (pos 3) extended
unfolding load text_eq
append-Extends_example =
    append-Extends toy toy-laws quiet (codes "a") stage_id (pos 2) more upload staging extended
      (pos 3) refl upload-IsTracking append_upload

abbrev frozen_meta : Meta
frozen_meta = record { digest = codes "sha256:" ++ 5 ∷ 6 ∷ []; labels = none; size = pos 2 }

upload-digest :
    (prepare_commit toy upload.stage no_meta)
    ≡ prepared (record { digest = codes "sha256:" ++ 5 ∷ 6 ∷ []; labels = none; size = pos 2 })
unfolding prepare_commit validate stage_hash_restore is_supported text_eq namespace_segment
    namespace_id valid_stage_id big_endian cut_prefix check_digest render
upload-digest = refl

prepare_commit-IsDigest_example :
    (codes "sha256:" ++ 5 ∷ 6 ∷ [] ≡ from_bytes toy (codes "sha256") (5 ∷ 6 ∷ []))
    × (pos 2 ≡ pos 2)
    × (frozen_meta.labels ≡ none)
prepare_commit-IsDigest_example =
    prepare_commit-IsDigest toy toy-laws upload no_meta
      (record { digest = codes "sha256:" ++ 5 ∷ 6 ∷ []; labels = none; size = pos 2 })
      upload-IsTracking upload-digest

staging-IsValid : IsValid staging
staging-IsValid = record {
  unique = one_blob-IsValid.unique;
  linked = one_blob-IsValid.linked;
  counted = one_blob-IsValid.counted;
  apart = one_blob-IsValid.apart;
  allocated = one_blob-IsValid.allocated;
}

commit-Completes_example : Completes (commit toy 1 quiet (codes "a") stage_id no_meta staging)
commit-Completes_example =
    commit-Completes toy 0 quiet (codes "a") stage_id no_meta staging staging-IsValid
      one_blob-HasRoom

-- the stage after its commit
abbrev receipt : StageEntry
receipt = record {
  stage =
      settled frozen_meta 70
        (record upload.stage { state = StageState.committing; commit = frozen_meta });
  bytes = [];
}

-- the stage after its abort
abbrev dropped : StageEntry
dropped = record {
  stage = record upload.stage { state = StageState.aborted; expires_at = 70 };
  bytes = [];
}

abort_upload :
    abort toy 1 quiet (codes "a") stage_id staging
    ≡ some (none, record staging { stages = (stage_id, dropped) ∷ [] })
unfolding abort abort_acquired acquire load store text_eq validate namespace_segment namespace_id
    valid_stage_id big_endian expired cut_prefix normal_retention
abort_upload = refl

abbrev blob_digest : Text
blob_digest = codes "sha256:" ++ 5 ∷ 6 ∷ []

abbrev published : Pool
published = record staging {
  heap =
      update (update one_blob.heap 1 (record { bytes = 5 ∷ 6 ∷ []; refs = 0 })) 1
        (record { bytes = 5 ∷ 6 ∷ []; refs = 1 });
  next = 2;
  bs = (blob_digest, 1) ∷ one_blob.bs;
  es =
      record {
        store = codes "a";
        digest = blob_digest;
        entry = record { blob = 1; labels = none; added = 9 };
      }
      ∷ one_blob.es;
  stages = (stage_id, receipt) ∷ [];
}

commit_upload :
    commit toy 1 quiet (codes "a") stage_id no_meta staging ≡ some (ok frozen_meta, published)
unfolding commit commit_prepared complete after_publish publish obtain attach settled prepare_commit
    validate stage_hash_restore is_supported acquire load store text_eq namespace_segment
    namespace_id valid_stage_id big_endian expired cut_prefix check_digest render normal_retention
    find increment
commit_upload = refl

commit-HasMoved_example : HasMoved stage_id StageState.active published
unfolding load text_eq
commit-HasMoved_example =
    commit-HasMoved toy 1 quiet (codes "a") stage_id no_meta upload staging published
      (ok frozen_meta) refl commit_upload

acquire-receipt : acquire toy quiet (codes "a") stage_id false published ≡ ok receipt
unfolding acquire load text_eq validate namespace_segment namespace_id valid_stage_id big_endian
    expired cut_prefix settled results_match stage_hash_restore is_supported render sizes_match
acquire-receipt = refl

receipt-digest : prepare_commit toy receipt.stage no_meta ≡ prepared frozen_meta
unfolding prepare_commit validate stage_hash_restore is_supported text_eq namespace_segment
    namespace_id valid_stage_id big_endian cut_prefix check_digest render settled results_match
    sizes_match
receipt-digest = refl

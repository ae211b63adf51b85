-- ===== src/Examples/Fills.antt =====
-- A fill of two bytes with a reader, and the wrappers over a store that shows every blob.
use flob.Prelude.{
  ◌↔◌, ◌⊎◌, true, ℕ, ◌+◌, ◌≡◌, ◌≢◌, refl, true, false, none, some, [], ◌∷◌, ◌++◌, arith,
  if◌then◌else◌,
}
use flob.Prelude.Text.{codes, text_eq, is_empty}
use flob.Prelude.Int.{pos}
use flob.Errors.{already_exists, not_exist}
use flob.Hashing.{from_bytes}
use flob.Meta.{Meta, Source}
use flob.Mem.State.{Pool}
use flob.Mem.Refs.{find}
use flob.Mem.State.{load, store, increment, update}
use flob.Mem.Store.{publish, obtain, attach}
use flob.Mem.Staging.{ok, err}
use flob.Http.Handler.{Backend, post_answer}
use flob.Http.Client.{add_error}
use flob.Fill.{Fill, verified, expecting, Reader, new_fill, read, commit, end, maybe_release}
use flob.Fill.Tracking.{IsFilling, IsReleased}
use flob.Fill.Chunks.{write_chunks, new_fill-chunks}
use flob.Fill.Release.{
  writes, aborts, follows, closes, run, run-IsFilling, Publishes, commit-Publishes,
}
use flob.Fill.Reading.{IsNext, read-IsNext}
use flob.Wrappers.{allow_duplicates, check_existence}
use flob.Wrappers.Duplicates.{
  TellsApart, forgiven, exit_code, exit_code-post_answer, RefusesDuplicates, check_existence-add,
  allow_duplicates-add,
}
use flob.Examples.Toy.{toy, toy-laws}
use flob.Examples.Stores.{one_blob, one_blob-IsValid}

abbrev named : Meta
named = record { digest = codes "sha256:" ++ 5 ∷ 6 ∷ []; labels = none; size = pos 2 }

new_fill-chunks_example :
    ((write_chunks toy (new_fill toy named 2) ((5 ∷ []) ∷ [] ∷ (6 ∷ []) ∷ [])).progress ≡ verified)
    × ((write_chunks toy (new_fill toy named 2) ((5 ∷ []) ∷ [] ∷ (6 ∷ []) ∷ [])).bytes ≡ 5 ∷ 6 ∷ [])
unfolding from_bytes
new_fill-chunks_example =
    new_fill-chunks toy toy-laws named 2 ((5 ∷ []) ∷ [] ∷ (6 ∷ []) ∷ []) refl refl

abbrev opened : Reader
opened = record { off = 0; is_open = true }

run-IsFilling_example :
    IsFilling toy (
      run toy (follows ∷ writes (5 ∷ []) ∷ aborts none ∷ closes opened ∷ []) (new_fill toy named 2))
    × IsReleased toy (
        run toy
          (follows ∷ writes (5 ∷ []) ∷ aborts none ∷ closes opened ∷ [])
          (new_fill toy named 2))
run-IsFilling_example =
    run-IsFilling toy toy-laws (follows ∷ writes (5 ∷ []) ∷ aborts none ∷ closes opened ∷ []) named
      2

-- half of the content
abbrev half : Fill toy
half = record {
  meta = named;
  size = 2;
  hash = 5 ∷ [];
  bytes = 5 ∷ [];
  written = 1;
  progress = expecting;
  ended = false;
  readers = 1;
  released = false;
}

half-IsFilling : IsFilling toy half
half-IsFilling = record {
  written = refl;
  bounded = omega arith;
  hash = refl;
  expects = λ e. omega arith;
  verifies = λ e. absurd (ground (arith, e));
}

read-IsNext_example : IsNext toy none half opened 4 (read toy none half expecting opened 4)
read-IsNext_example = read-IsNext toy none half opened 4 half-IsFilling

-- all of it
abbrev whole : Fill toy
whole = record half { hash = 5 ∷ 6 ∷ []; bytes = 5 ∷ 6 ∷ []; written = 2; progress = verified }

whole-IsFilling : IsFilling toy whole
unfolding from_bytes
whole-IsFilling = record {
  written = refl;
  bounded = omega arith;
  hash = refl;
  expects = λ e. absurd (ground (arith, e));
  verifies = λ e. (refl, refl);
}

abbrev after_commit : Pool
after_commit = record one_blob {
  heap =
      update (update one_blob.heap 1 (record { bytes = 5 ∷ 6 ∷ []; refs = 0 })) 1
        (record { bytes = 5 ∷ 6 ∷ []; refs = 1 });
  next = 2;
  bs = (named.digest, 1) ∷ one_blob.bs;
  es =
      record {
        store = codes "b";
        digest = named.digest;
        entry = record { blob = 1; labels = none; added = 9 };
      }
      ∷ one_blob.es;
}

commit_whole :
    commit toy 1 (codes "b") 9 whole one_blob
    ≡ some ((named, none), (record whole { ended = true }, after_commit))
unfolding commit publish obtain attach end maybe_release load store find text_eq increment
commit_whole = refl

commit-Publishes_example : Publishes toy 9 (codes "b") whole one_blob after_commit
commit-Publishes_example =
    commit-Publishes toy 0 (codes "b") 9 whole one_blob after_commit named
      (record whole { ended = true }) one_blob-IsValid whole-IsFilling commit_whole

exit_code-post_answer_example :
    (exit_code (add_error (post_answer (codes "a") (named, some already_exists)).status)
      ≡ exit_code (some already_exists))
    × TellsApart
        (some already_exists)
        (exit_code (add_error (post_answer (codes "a") (named, some already_exists)).status))
exit_code-post_answer_example = exit_code-post_answer (codes "a") named (some already_exists)

-- A store that shows every blob and so refuses every Add of a digest; it counts the other Adds.
abbrev full : Backend ℕ
full = record {
  add = λ id m r s. if is_empty m.digest then ((m, none), s + 1) else ((m, some already_exists), s);
  stat =
      λ id d s. (ok (record { digest = d; size = ok (pos 2); added = ok 7; labels = ok none }), s);
  open_blob = λ id d s. (err not_exist, s);
  label = λ id d ls s. (none, s);
  erase = λ id d s. (none, s);
  presign = λ id d s. none;
}

full-RefusesDuplicates : RefusesDuplicates full
full-RefusesDuplicates = record {
  stat_kept = λ id d s. refl;
  refuses = λ id m r s i asked shown. rw asked (refl, refl);
}

abbrev empty_body : Source
empty_body = record { bytes = []; failure = none }

check_existence-add_example :
    (((check_existence full).add (codes "a") named empty_body 3).0.1 ≡ some already_exists)
    × (((check_existence full).add (codes "a") named empty_body 3).1 ≡ 3)
check_existence-add_example =
    check_existence-add full (codes "a") named empty_body 3 full-RefusesDuplicates
      (λ i shown. (pos 2, cc shown))

allow_duplicates-add_example :
    (((allow_duplicates full).add (codes "a") named empty_body 3).1 ≡ 3)
    × (((allow_duplicates full).add (codes "a") named empty_body 3).0.0 ≡ named)
    × ((((allow_duplicates full).add (codes "a") named empty_body 3).0.1 ≡ none)
        ↔ (forgiven (some already_exists) ≡ true))
    × ((((allow_duplicates full).add (codes "a") named empty_body 3).0.1 ≡ none)
        ⊎ (((allow_duplicates full).add (codes "a") named empty_body 3).0.1 ≡ some already_exists))
    × (((allow_duplicates full).add (codes "a") named empty_body 3).0.1 ≢ some already_exists)
allow_duplicates-add_example = allow_duplicates-add full (codes "a") named empty_body 3

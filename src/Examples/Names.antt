-- ===== src/Examples/Names.antt =====
-- Namespaces at concrete IDs.
use flob.Prelude.{ℕ, ◌≡◌, refl, true, false, Option, none, some, List, [], ◌∷◌, arith}
use flob.Prelude.Text.{Text, codes, is_empty}
use flob.Namespace.{namespace_segment, namespace_id, ends_in_dot}
use flob.Namespace.Base64.{encode, decode, letter, value, quanta}
use flob.Namespace.RoundTrip.{namespace_id-segment, namespace_segment-IsSafe, AllSegment}

slash : namespace_segment (codes "a/b") ≡ codes "~YS9i"
unfolding namespace_segment encode letter
slash = refl

dots : namespace_segment (codes "..") ≡ codes "~Li4"
unfolding namespace_segment encode letter
dots = refl

device : namespace_segment (codes "con.txt") ≡ codes "~Y29uLnR4dA"
unfolding namespace_segment encode letter
device = refl

noncanonical : namespace_id (codes "~Zm9v") ≡ none
unfolding namespace_id flob.Prelude.Text.cut_prefix decode quanta value flob.Prelude.Text.text_eq
    encode letter
noncanonical = refl

namespace_id-segment_example : namespace_id (namespace_segment (codes "a/b")) ≡ some (codes "a/b")
namespace_id-segment_example = namespace_id-segment (codes "a/b") (omega arith)

namespace_segment-IsSafe_example :
    (is_empty (namespace_segment (codes "..")) ≡ false)
    × AllSegment (namespace_segment (codes ".."))
    × (ends_in_dot (namespace_segment (codes "..")) ≡ false)
namespace_segment-IsSafe_example = namespace_segment-IsSafe (codes "..") (omega arith)

-- ===== src/S3/Marked.antt =====
-- setLabelMeta and metaToLabels of s3.go: what is read back from the metadata of a reference.
use mathlib.Core.List.{append_assoc, append-nil}
use flob.Prelude.{
  ℕ, ◌≤◌, ◌≡◌, ◌≢◌, refl, sym, ap, ◌∙◌, true, false, none, some, List, [], ◌∷◌, ◌++◌, map, All,
  arith, Bool-cases, inl, inr, if◌then◌else◌,
}
use flob.Prelude.Text.{Text, text_eq, text_eq_iff, is_empty, cut_prefix, cut_prefix-append}
use flob.Prelude.Int.{ℤ, pos}
use flob.Prelude.Decimal.{format_int, max_int64, parse_int-format_int}
use flob.Meta.{Header, Labels}
use flob.Http.Ranges.{equal_fold}
use flob.S3.Markers.{
  meta_prefix, meta_size_key, canonical_name, put_header, set_header, set_label_meta, join_commas,
  marker, meta_to_labels, label_with, first_size, entries, is_token, case_words, member,
}

-- A key that a header keeps as it is.
abbrev pub IsKeyword : Text → Type 0
IsKeyword k =
    (is_empty k ≡ false)
    × (canonical_name (meta_prefix ++ k) ≡ meta_prefix ++ k)
    × (equal_fold k meta_size_key ≡ false)

-- Labels with one value for each of their keys.
abbrev pub AreEntries : Header → Type 0
AreEntries [] = Unit
AreEntries ((k, vs) ∷ ls) =
    IsKeyword k × ((v : Text) × (vs ≡ v ∷ [])) × All (λ e. k ≢ e.0) ls × AreEntries ls

abbrev labels_of : Header → Labels
labels_of [] = none
labels_of (e ∷ ls) = some (e ∷ ls)

-- Labels and a size that the headers of a reference can hold.
abbrev pub FitsHeader : Labels → ℤ → Type 0
FitsHeader labels size =
    (labels_of (entries labels) ≡ labels)
    × AreEntries (entries labels)
    × ((n : ℕ) × (size ≡ pos n) × (n ≤ max_int64))

text_eq-false : (a b : Text) → a ≢ b → text_eq a b ≡ false
text_eq-false a b differ = elim (Bool-cases (text_eq a b)) [
  | inl same ↦ absurd (differ ((text_eq_iff a b).0 same))
  | inr other ↦ other
]

prefix-injective : (p a b : Text) → p ++ a ≡ p ++ b → a ≡ b
prefix-injective p a b same =
    let k : some a ≡ some b =
      sym (cut_prefix-append p a) ∙ ap (cut_prefix p) same ∙ cut_prefix-append p b in
    ground (arith, k)

abbrev header_of : Text × List Text → Text × List Text
header_of (k, vs) = (meta_prefix ++ k, vs)

-- A name that is not in a header.
abbrev IsNew : Text → Header → Type 0
IsNew name h = All (λ e. e.0 ≢ name) h

put_header_new :
    (name : Text) (vs : List Text) (h : Header)
    → IsNew name h
    → put_header name vs h ≡ h ++ (name, vs) ∷ []
unfolding put_header
put_header_new name vs [] new = refl
put_header_new name vs ((k, ws) ∷ h) (other, new) =
    ap (λ b. if b then (name, vs) ∷ h else (k, ws) ∷ put_header name vs h)
      (text_eq-false k name other)
    ∙ ap (λ t. (k, ws) ∷ t) (put_header_new name vs h new)

IsNew-append : (name : Text) (h g : Header) → IsNew name h → IsNew name g → IsNew name (h ++ g)
IsNew-append name [] g new new' = new'
IsNew-append name (e ∷ h) g (other, new) new' = (other, IsNew-append name h g new new')

-- No key is in a header yet.
abbrev AreNew : Header → Header → Type 0
AreNew ls h = All (λ e. IsNew (meta_prefix ++ e.0) h) ls

AreNew-after :
    (k : Text) (vs : List Text) (ls h : Header)
    → All (λ e. k ≢ e.0) ls
    → AreNew ls h
    → AreNew ls (h ++ (meta_prefix ++ k, vs) ∷ [])
AreNew-after k vs [] h differ new = tt
AreNew-after k vs (e ∷ ls) h (other, differ) (fresh, new) = (
  IsNew-append (meta_prefix ++ e.0) h _ fresh
      ((λ same. other (prefix-injective meta_prefix k e.0 same)), tt),
  AreNew-after k vs ls h differ new,
)

set_header_new :
    (k v : Text) (h : Header)
    → canonical_name (meta_prefix ++ k) ≡ meta_prefix ++ k
    → IsNew (meta_prefix ++ k) h
    → set_header (meta_prefix ++ k) v h ≡ h ++ (meta_prefix ++ k, v ∷ []) ∷ []
unfolding set_header
set_header_new k v h canonical new =
    ap (λ name. put_header name (v ∷ []) h) canonical
    ∙ put_header_new (meta_prefix ++ k) (v ∷ []) h new

set_label_meta-append :
    (ls h : Header) → AreEntries ls → AreNew ls h → set_label_meta ls h ≡ h ++ map header_of ls
unfolding set_label_meta join_commas
set_label_meta-append [] h fine new = sym (append-nil h)
set_label_meta-append ((k, vs) ∷ ls) h ((full, canonical, _), (v, one), differ, fine) (fresh, new) =
    ap
      (λ b.
        if b
        then set_label_meta ls h
        else set_label_meta ls (set_header (meta_prefix ++ k) (join_commas vs) h))
      full
    ∙ ap (λ t. set_label_meta ls (set_header (meta_prefix ++ k) (join_commas t) h)) one
    ∙ ap (set_label_meta ls) (set_header_new k v h canonical fresh)
    ∙ set_label_meta-append ls (h ++ (meta_prefix ++ k, v ∷ []) ∷ []) fine
        (AreNew-after k (v ∷ []) ls h differ new)
    ∙ append_assoc h ((meta_prefix ++ k, v ∷ []) ∷ []) (map header_of ls)
    ∙ ap (λ t. h ++ (meta_prefix ++ k, t) ∷ map header_of ls) (sym one)

size_canonical : canonical_name (meta_prefix ++ meta_size_key) ≡ meta_prefix ++ meta_size_key
unfolding canonical_name is_token case_words member flob.Namespace.upper flob.Hashing.lower
size_canonical = refl

size_folds : equal_fold meta_size_key meta_size_key ≡ true
unfolding text_eq flob.Hashing.to_lower flob.Hashing.lower
size_folds = refl

AreNew-nil : (ls : Header) → AreNew ls []
AreNew-nil [] = tt
AreNew-nil (e ∷ ls) = (tt, AreNew-nil ls)

size-IsNew : (ls : Header) → AreEntries ls → IsNew (meta_prefix ++ meta_size_key) (map header_of ls)
size-IsNew [] fine = tt
size-IsNew ((k, vs) ∷ ls) ((_, _, apart), _, _, fine) = (
  λ same.
      let e = prefix-injective meta_prefix k meta_size_key same in
      absurd (ground (arith, apart, ap (λ x. equal_fold x meta_size_key) e, size_folds)),
  size-IsNew ls fine,
)

label_with-labels_of :
    (k : Text) (vs : List Text) (ls : Header) → label_with k vs (labels_of ls) ≡ some ((k, vs) ∷ ls)
label_with-labels_of k vs [] = refl
label_with-labels_of k vs (e ∷ ls) = refl

-- One header of the metadata.
abbrev joined_to : Text → List Text → Labels × ℤ → Labels × ℤ
joined_to k vs (labels, size) =
    if equal_fold k meta_size_key
    then (labels, first_size vs size)
    else (label_with k vs labels, size)

meta_to_labels-cons :
    (k : Text) (vs : List Text) (h : Header)
    → meta_to_labels ((meta_prefix ++ k, vs) ∷ h) ≡ joined_to k vs (meta_to_labels h)
unfolding meta_to_labels
meta_to_labels-cons k vs h =
    ap (λ o. elim o [ none ↦ meta_to_labels h | some rest ↦ joined_to rest vs (meta_to_labels h) ])
      (cut_prefix-append meta_prefix k)

meta_to_labels-nil : meta_to_labels [] ≡ (none, pos 0)
unfolding meta_to_labels
meta_to_labels-nil = refl

meta_to_labels-append :
    (ls : Header) (n : ℕ)
    → AreEntries ls
    → n ≤ max_int64
    → meta_to_labels
        (map header_of ls ++ (meta_prefix ++ meta_size_key, format_int (pos n) ∷ []) ∷ [])
      ≡ (labels_of ls, pos n)
meta_to_labels-append [] n fine fits =
    let value = format_int (pos n) ∷ [] in
    meta_to_labels-cons meta_size_key value []
    ∙ ap (joined_to meta_size_key value) meta_to_labels-nil
    ∙ ap
        (λ b.
          if b
          then (none, first_size value (pos 0))
          else (label_with meta_size_key value none, pos 0))
        size_folds
    ∙ ap (λ p. (none, p.0)) (parse_int-format_int n fits)
meta_to_labels-append ((k, vs) ∷ ls) n ((_, _, apart), _, _, fine) fits =
    meta_to_labels-cons k vs _
    ∙ ap (joined_to k vs) (meta_to_labels-append ls n fine fits)
    ∙ ap
        (λ b.
          if b
          then (labels_of ls, first_size vs (pos n))
          else (label_with k vs (labels_of ls), pos n))
        apart
    ∙ ap (λ l. (l, pos n)) (label_with-labels_of k vs ls)

-- Labels and a size are read back from the metadata that a reference is written with, where these can
-- hold them: each label has a key that is canonical in a header and not that of the size, and one
-- value, no key comes twice, and the size fits 64 bits.
pub meta_to_labels-marker :
    (labels : Labels) (size : ℤ)
    → FitsHeader labels size
    → meta_to_labels (marker labels size) ≡ (labels, size)
unfolding marker
meta_to_labels-marker labels size (shape, fine, (n, sized, fits)) =
    ap (λ z. meta_to_labels (marker labels z)) sized
    ∙ ap (λ g. meta_to_labels (set_header (meta_prefix ++ meta_size_key) (format_int (pos n)) g))
        (set_label_meta-append (entries labels) [] fine (AreNew-nil (entries labels)))
    ∙ ap meta_to_labels (
        set_header_new meta_size_key (format_int (pos n)) (map header_of (entries labels))
          size_canonical (size-IsNew (entries labels) fine))
    ∙ meta_to_labels-append (entries labels) n fine fits
    ∙ cc (shape, sized)

-- ===== src/Examples/Listings.antt =====
-- The listings of the S3 service in memory.
use mathlib.Core.Path.{subst}
use flob.Prelude.{
  ◌≡◌, refl, sym, ap, ◌∙◌, true, ◌&&◌, Option, none, some, List, [], ◌∷◌, ◌++◌, inl, inr, arith,
  length, is_some, Bool-cases, Option-cases, All, Any, by_test,
}
use flob.Prelude.Text.{Text, text_eq, text_eq_iff, cut_prefix, cut_prefix-append}
use flob.Prelude.Int.{pos}
use flob.Mem.Staging.{Result, ok, err}
use flob.S3.Service.{Object, Listed, Page, Listing}
use flob.S3.Listing.{decode_key, page_entries}
use flob.S3.Listed.{ListingLaws}
use flob.S3.Parsed.{cut_prefix-eq-some}
use flob.Examples.Shelf.{Shelf, shelf, object, find, shown, entries, page_of}

abbrev NamesKey : Text → Listed → Type 0
NamesKey k e = decode_key [] e.key ≡ some k

abbrev SizedIn : Shelf → Listed → Type 0
SizedIn w e =
    (k : Text)
    → decode_key [] e.key ≡ some k
    → (o : Object) → object w k ≡ some o
    → e.size ≡ pos (length o.bytes)

entries-Any :
    (prefix rest : Text) (w v : Shelf)
    → is_some (object w (prefix ++ rest)) ≡ true
    → is_some (find (prefix ++ rest) v) ≡ true
    → Any (NamesKey (prefix ++ rest)) (entries prefix w v)
unfolding find entries decode_key text_eq
entries-Any prefix rest w [] seen there = absurd (ground (arith, there))
entries-Any prefix rest w ((k, o) ∷ v) seen there = elim (Bool-cases (text_eq k (prefix ++ rest))) [
  | inl same ↦
      let at : k ≡ prefix ++ rest = (text_eq_iff k (prefix ++ rest)).0 same in
      let under : is_some (cut_prefix prefix k) ≡ true =
        ap is_some (ap (cut_prefix prefix) at ∙ cut_prefix-append prefix rest) in
      let seen' : is_some (object w k) ≡ true = ap (λ j. is_some (object w j)) at ∙ seen in
      by_test (Any (NamesKey (prefix ++ rest)))
        (is_some (cut_prefix prefix k) && is_some (object w k)) (λ listed. inl (ap some at))
        (λ aside. absurd (ground (arith, aside, under, seen')))
  | inr differ ↦
      let later = entries-Any prefix rest w v seen (ground (arith, there, differ)) in
      by_test (Any (NamesKey (prefix ++ rest)))
        (is_some (cut_prefix prefix k) && is_some (object w k)) (λ listed. inr later)
        (λ aside. later)
]

abbrev PresentIn : Text → Shelf → Listed → Type 0
PresentIn prefix w e =
    (k : Text)
    → decode_key [] e.key ≡ some k
    → (is_some (object w k) ≡ true) × ((rest : Text) × (k ≡ prefix ++ rest))

cut_prefix-IsAppend :
    (p s : Text) → is_some (cut_prefix p s) ≡ true → (rest : Text) × (s ≡ p ++ rest)
cut_prefix-IsAppend p s under = elim (Option-cases (cut_prefix p s)) [
  | inl none_left ↦ absurd (ground (arith, under, none_left))
  | inr (rest, cut) ↦ (rest, cut_prefix-eq-some p s cut)
]

entries-All :
    (prefix : Text) (w v : Shelf)
    → All (SizedIn w) (entries prefix w v) × All (PresentIn prefix w) (entries prefix w v)
unfolding entries decode_key text_eq
entries-All prefix w [] = (tt, tt)
entries-All prefix w ((k, o) ∷ v) =
    let (sizes, all) = entries-All prefix w v in
    by_test (λ (es : List Listed). All (SizedIn w) es × All (PresentIn prefix w) es)
      (is_some (cut_prefix prefix k) && is_some (object w k))
      (λ listed.
        let under : is_some (cut_prefix prefix k) ≡ true = ground (arith, listed) in
        let seen : is_some (object w k) ≡ true = ground (arith, listed) in
        (
          (
            λ j same a there.
                ap (λ (r : Option Object). elim r [ none ↦ pos 0 | some b ↦ pos (length b.bytes) ])
                  (ap (object w) (ground (arith, same)) ∙ there),
            sizes,
          ),
          (
            λ j same.
                let e : k ≡ j = ground (arith, same) in
                let (rest, at) = cut_prefix-IsAppend prefix k under in
                (ap (λ i. is_some (object w i)) (sym e) ∙ seen, (rest, sym e ∙ at)),
            all,
          ),
        ))
      (λ aside. (sizes, all))

abbrev page_in : Result Page → Page
page_in (err e) = page_of [] []
page_in (ok page) = page

abbrev page_from : Result Listing → Page
page_from (err e) = page_of [] []
page_from (ok reply) = page_in reply.page

append_nil : {A : Type 0} (xs : List A) → xs ++ [] ≡ xs
append_nil [] = refl
append_nil (x ∷ xs) = ap (λ t. x ∷ t) (append_nil xs)

present : (w : Shelf) (k : Text) → is_some (object w k) ≡ true → is_some (find k w) ≡ true
unfolding object
present w k there = go (find k w) there
  where
    go : (o : Option Object) → is_some (shown o) ≡ true → is_some o ≡ true
    go none h = h
    go (some o) h = refl

pub shelf-ListingLaws : ListingLaws shelf object
unfolding page_entries
shelf-ListingLaws = record {
  covers = λ token k. true;
  covers_first = λ k. refl;
  list_same = λ prefix delimiter token w k. refl;
  list_complete = λ prefix token w reply page rest eq status eq' there covered.
      let e : page_of prefix w ≡ page = ap page_from eq ∙ ap page_in eq' in
      inl (
        subst
          (λ (p : Page). Any (λ e. decode_key p.encoding e.key ≡ some (prefix ++ rest)) p.contents)
          e (entries-Any prefix rest w w there (present w (prefix ++ rest) there)));
  list_present = λ prefix token w reply page eq status eq'.
      let e : page_of prefix w ≡ page = ap page_from eq ∙ ap page_in eq' in
      subst
        (λ (p : Page).
          All
            (λ e.
              (k : Text)
              → decode_key p.encoding e.key ≡ some k
              → (is_some (object w k) ≡ true) × ((r : Text) × (k ≡ prefix ++ r)))
            (page_entries p))
        e
        (subst (All (PresentIn prefix w)) (sym (append_nil (entries prefix w w)))
          (entries-All prefix w w).1);
  list_sizes = λ prefix token w reply page eq status eq'.
      let e : page_of prefix w ≡ page = ap page_from eq ∙ ap page_in eq' in
      subst
        (λ (p : Page).
          All
            (λ e.
              (k : Text)
              → decode_key p.encoding e.key ≡ some k
              → (o : Object) → object w k ≡ some o
              → e.size ≡ pos (length o.bytes))
            (page_entries p))
        e
        (subst (All (SizedIn w)) (sym (append_nil (entries prefix w w)))
          (entries-All prefix w w).0);
}

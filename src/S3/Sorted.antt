-- ===== src/S3/Sorted.antt =====
-- The order of the pairs in canonicalQuery of s3.go.
use flob.Prelude.{
  ◌≡◌, refl, sym, ap, ◌∙◌, true, false, List, [], ◌∷◌, ◌++◌, ◌==◌, arith, if◌then◌else◌, Bool-cases,
  inl, inr,
}
use mathlib.Core.List.{Perm, Permᴰ, is_set}
use native.Mathlib.Nat.{ℕ_set}
use mathlib.Core.Logic.{∥∥₁_elim}
use flob.Prelude.Text.{Text, text_eq, text_eq_iff}
use flob.S3.Encoding.{
  text_ltb, Pair, pair_ltb, insert_pair, sort_pairs, key_pairs, query_pairs, render_pairs,
  canonical_query,
}

-- Of two texts one comes first, or they are the same.
text_ltb-asymmetric : (s t : Text) → text_ltb s t ≡ true → text_ltb t s ≡ false
unfolding text_ltb
text_ltb-asymmetric s [] h = absurd (cc h)
text_ltb-asymmetric [] (d ∷ t) h = refl
text_ltb-asymmetric (c ∷ s) (d ∷ t) h = ground (arith, h, text_ltb-asymmetric s t)

text_ltb-total : (s t : Text) → text_ltb s t ≡ false → text_ltb t s ≡ false → s ≡ t
unfolding text_ltb
text_ltb-total [] [] h k = refl
text_ltb-total [] (d ∷ t) h k = absurd (cc h)
text_ltb-total (c ∷ s) [] h k = absurd (cc k)
text_ltb-total (c ∷ s) (d ∷ t) h k = elim (Bool-cases (c == d)) [
  | inl same ↦
      let e : c ≡ d = ground (arith, same) in
      let rest : s ≡ t = text_ltb-total s t (ground (arith, h, same)) (ground (arith, k, same)) in
      cc (e, rest)
  | inr differ ↦ absurd (ground (arith, h, k, differ))
]

text_ltb-transitive :
    (s t u : Text) → text_ltb s t ≡ true → text_ltb t u ≡ true → text_ltb s u ≡ true
unfolding text_ltb
text_ltb-transitive s [] u h k = absurd (cc h)
text_ltb-transitive s (d ∷ t) [] h k = absurd (cc k)
text_ltb-transitive [] (d ∷ t) (e ∷ u) h k = refl
text_ltb-transitive (c ∷ s) (d ∷ t) (e ∷ u) h k = ground (arith, h, k, text_ltb-transitive s t u)

pair_ltb-asymmetric : (p q : Pair) → pair_ltb p q ≡ true → pair_ltb q p ≡ false
unfolding pair_ltb
pair_ltb-asymmetric (k, v) (k', v') h = ground (
  arith,
  h,
  text_eq_iff k k',
  text_eq_iff k' k,
  text_ltb-asymmetric v v',
  text_ltb-asymmetric k k',
)

pair_ltb-total : (p q : Pair) → pair_ltb p q ≡ false → pair_ltb q p ≡ false → p ≡ q
unfolding pair_ltb
pair_ltb-total (k, v) (k', v') h g = elim (Bool-cases (text_eq k k')) [
  | inl same ↦
      let e : k ≡ k' = (text_eq_iff k k').0 same in
      let rest : v ≡ v' =
        text_ltb-total v v' (ground (arith, h, same))
          (ground (arith, g, (text_eq_iff k' k).1 (sym e))) in
      cc (e, rest)
  | inr differ ↦
      let other : text_eq k' k ≡ false =
        ground (arith, differ, text_eq_iff k k', text_eq_iff k' k) in
      let e : k ≡ k' = text_ltb-total k k' (ground (arith, h, differ)) (ground (arith, g, other)) in
      absurd (ground (arith, differ, (text_eq_iff k k').1 e))
]

pair_ltb-transitive :
    (p q r : Pair) → pair_ltb p q ≡ true → pair_ltb q r ≡ true → pair_ltb p r ≡ true
unfolding pair_ltb
pair_ltb-transitive (k, v) (k', v') (k'', v'') h g = grind (
  arith,
  h,
  g,
  text_eq_iff k k',
  text_eq_iff k' k'',
  text_eq_iff k k'',
  text_ltb-transitive v v' v'',
  text_ltb-transitive k k' k'',
  text_ltb-asymmetric k k',
  text_ltb-asymmetric k' k'',
)

insert_later :
    (p r : Pair) (ps : List Pair)
    → pair_ltb r p ≡ true
    → insert_pair p (r ∷ ps) ≡ r ∷ insert_pair p ps
unfolding insert_pair
insert_later p r ps h = ap (λ b. if b then r ∷ insert_pair p ps else p ∷ r ∷ ps) h

insert_here :
    (p r : Pair) (ps : List Pair) → pair_ltb r p ≡ false → insert_pair p (r ∷ ps) ≡ p ∷ r ∷ ps
unfolding insert_pair
insert_here p r ps h = ap (λ b. if b then r ∷ insert_pair p ps else p ∷ r ∷ ps) h

insert_nil : (p : Pair) → insert_pair p [] ≡ p ∷ []
unfolding insert_pair
insert_nil p = refl

pair_ltb-between : (p q r : Pair) → pair_ltb r q ≡ true → pair_ltb r p ≡ false → pair_ltb p q ≡ true
pair_ltb-between p q r h g = elim (Bool-cases (pair_ltb p r)) [
  | inl before ↦ pair_ltb-transitive p r q before h
  | inr after ↦ ap (λ x. pair_ltb x q) (pair_ltb-total p r after g) ∙ h
]

-- Two pairs at the front, whichever is put there last.
swap_front :
    (p q : Pair) (ps : List Pair)
    → (if pair_ltb q p then q ∷ p ∷ ps else p ∷ q ∷ ps)
      ≡ (if pair_ltb p q then p ∷ q ∷ ps else q ∷ p ∷ ps)
swap_front p q ps = elim (Bool-cases (pair_ltb q p)) [
  | inl before ↦ ground (arith, before, pair_ltb-asymmetric q p before)
  | inr after ↦ elim (Bool-cases (pair_ltb p q)) [
    | inl first ↦ ground (arith, after, first)
    | inr neither ↦ let e : p ≡ q = pair_ltb-total p q neither after in rw (after, neither) (cc e)
  ]
]

insert_front :
    (p q : Pair) (ps : List Pair)
    → insert_pair p ps ≡ p ∷ ps
    → insert_pair p (q ∷ ps) ≡ (if pair_ltb q p then q ∷ p ∷ ps else p ∷ q ∷ ps)
unfolding insert_pair
insert_front p q ps h = ap (λ l. if pair_ltb q p then q ∷ l else p ∷ q ∷ ps) h

insert_front_comm :
    (p q : Pair) (ps : List Pair)
    → insert_pair p ps ≡ p ∷ ps
    → insert_pair q ps ≡ q ∷ ps
    → insert_pair p (insert_pair q ps) ≡ insert_pair q (insert_pair p ps)
insert_front_comm p q ps hp hq =
    ap (insert_pair p) hq
    ∙ insert_front p q ps hp
    ∙ swap_front p q ps
    ∙ sym (insert_front q p ps hq)
    ∙ ap (insert_pair q) (sym hp)

insert_pair_comm :
    (p q : Pair) (ps : List Pair)
    → insert_pair p (insert_pair q ps) ≡ insert_pair q (insert_pair p ps)
insert_pair_comm p q [] = insert_front_comm p q [] (insert_nil p) (insert_nil q)
insert_pair_comm p q (r ∷ ps) = elim (Bool-cases (pair_ltb r q)) [
  | inl rq ↦ elim (Bool-cases (pair_ltb r p)) [
    | inl rp ↦
        ap (insert_pair p) (insert_later q r ps rq)
        ∙ insert_later p r (insert_pair q ps) rp
        ∙ ap (λ l. r ∷ l) (insert_pair_comm p q ps)
        ∙ sym (insert_later q r (insert_pair p ps) rq)
        ∙ ap (insert_pair q) (sym (insert_later p r ps rp))
    | inr rp ↦ passed p q r ps rq rp
  ]
  | inr rq ↦ elim (Bool-cases (pair_ltb r p)) [
    | inl rp ↦ sym (passed q p r ps rp rq)
    | inr rp ↦ insert_front_comm p q (r ∷ ps) (insert_here p r ps rp) (insert_here q r ps rq)
  ]
]
  where
    passed :
        (p q r : Pair) (ps : List Pair)
        → pair_ltb r q ≡ true
        → pair_ltb r p ≡ false
        → insert_pair p (insert_pair q (r ∷ ps)) ≡ insert_pair q (insert_pair p (r ∷ ps))
    passed p q r ps rq rp =
        ap (insert_pair p) (insert_later q r ps rq)
        ∙ insert_here p r (insert_pair q ps) rp
        ∙ ap (λ l. p ∷ l) (sym (insert_later q r ps rq))
        ∙ sym (insert_later q p (r ∷ ps) (pair_ltb-between p q r rq rp))
        ∙ ap (insert_pair q) (sym (insert_here p r ps rp))

abbrev insert_all : List Pair → List Pair → List Pair
insert_all [] ps = ps
insert_all (x ∷ xs) ps = insert_pair x (insert_all xs ps)

sort_pairs-append : (xs ys : List Pair) → sort_pairs (xs ++ ys) ≡ insert_all xs (sort_pairs ys)
unfolding sort_pairs
sort_pairs-append [] ys = refl
sort_pairs-append (x ∷ xs) ys = ap (insert_pair x) (sort_pairs-append xs ys)

insert_pair-insert_all :
    (p : Pair) (xs ps : List Pair)
    → insert_pair p (insert_all xs ps) ≡ insert_all xs (insert_pair p ps)
insert_pair-insert_all p [] ps = refl
insert_pair-insert_all p (x ∷ xs) ps =
    insert_pair_comm p x (insert_all xs ps) ∙ ap (insert_pair x) (insert_pair-insert_all p xs ps)

insert_all_comm :
    (xs ys ps : List Pair) → insert_all xs (insert_all ys ps) ≡ insert_all ys (insert_all xs ps)
insert_all_comm [] ys ps = refl
insert_all_comm (x ∷ xs) ys ps =
    ap (insert_pair x) (insert_all_comm xs ys ps) ∙ insert_pair-insert_all x ys (insert_all xs ps)

abbrev pub Query : Type 0
Query = List (Text × List Text)

abbrev keyed : Text × List Text → List Pair
keyed (k, vs) = key_pairs k vs

sort_two :
    (a b : Text × List Text) (q : Query)
    → sort_pairs (query_pairs (a ∷ b ∷ q))
      ≡ insert_all (keyed a) (insert_all (keyed b) (sort_pairs (query_pairs q)))
unfolding query_pairs
sort_two a b q =
    sort_pairs-append (keyed a) (keyed b ++ query_pairs q)
    ∙ ap (insert_all (keyed a)) (sort_pairs-append (keyed b) (query_pairs q))

reorder : (q r : Query) → Permᴰ q r → sort_pairs (query_pairs q) ≡ sort_pairs (query_pairs r)
unfolding query_pairs
reorder [] [] Permᴰ.nil = refl
reorder ((k, vs) ∷ q) ((k', vs') ∷ r) (Permᴰ.cons e rest) =
    sort_pairs-append (key_pairs k vs) (query_pairs q)
    ∙ ap (λ p. insert_all (key_pairs p.0 p.1) (sort_pairs (query_pairs q))) e
    ∙ ap (insert_all (key_pairs k' vs')) (reorder q r rest)
    ∙ sym (sort_pairs-append (key_pairs k' vs') (query_pairs r))
reorder (a ∷ b ∷ q) (c ∷ d ∷ r) (Permᴰ.swap e f) =
    let sorted = sort_pairs (query_pairs q) in
    sort_two a b q
    ∙ insert_all_comm (keyed a) (keyed b) sorted
    ∙ ap (λ p. insert_all (keyed p) (insert_all (keyed a) sorted)) f
    ∙ ap (λ p. insert_all (keyed c) (insert_all (keyed p) sorted)) e
    ∙ sym (sort_two c d q)
reorder q r (Permᴰ.trans {l₂} s t) = reorder q l₂ s ∙ reorder l₂ r t

-- canonicalQuery gives one text for a query, in whatever order its keys are read.
pub canonical_query-Perm : (q r : Query) → Perm q r → canonical_query q ≡ canonical_query r
unfolding canonical_query
canonical_query-Perm q r same =
    ∥∥₁_elim same (is_set ℕ_set _ _) (λ p. ap render_pairs (reorder q r p))

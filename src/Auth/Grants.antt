-- ===== src/Auth/Grants.antt =====
-- Policy.Authorize of auth/policy.go against the rules of its providers.
use flob.Prelude.{
  ◌≡◌, ◌≢◌, ◌↔◌, ◌⊎◌, inl, inr, refl, Bool, true, false, Option, none, some, List, [], ◌∷◌, arith,
  if◌then◌else◌, Bool-cases, Option-cases, All, Any, ◌≤◌, length, ltb,
}
use flob.Prelude.Text.{Text, codes, text_eq, text_eq_iff, contains}
use flob.Errors.{Error, unauthenticated, forbidden, is}
use flob.Hashing.{to_lower}
use flob.Auth.Policy.{
  Action, action_name, Permission, Claims, Rule, Verified, rejected, claims_of, Provider, claim,
  matches, has_action, grants, rules_grant, decide, authorize, fields,
}

-- A permission allows an action on a store: both are listed, the store by its name or by a star.
abbrev pub Allows : Text → Action → Permission → Type 0
Allows store action g =
    Any (λ a. action_name a ≡ action_name action) g.actions
    × (Any (λ s. s ≡ store) g.stores ⊎ Any (λ s. s ≡ codes "*") g.stores)

-- Claims meet a rule that grants a permission which allows the action.
abbrev pub Grants : Claims → Text → Action → Rule → Type 0
Grants claims store action r =
    All (λ c. claim c.0 claims ≡ some c.1) r.conditions × Any (Allows store action) r.grants

-- A provider vouches for a token with claims that some rule of it grants the action to.
abbrev pub Entitles : Text → Text → Action → Provider → Type 0
Entitles token store action p =
    (claims : Claims) × (p.verify token ≡ claims_of claims)
    × Any (Grants claims store action) p.rules

contains_iff : (xs : List Text) (a : Text) → (contains xs a ≡ true) ↔ Any (λ s. s ≡ a) xs
unfolding contains
contains_iff [] a = ground arith
contains_iff (x ∷ xs) a = ground (arith, text_eq_iff x a, contains_iff xs a)

has_action_iff :
    (a : Action) (xs : List Action)
    → (has_action a xs ≡ true) ↔ Any (λ b. action_name b ≡ action_name a) xs
unfolding has_action
has_action_iff a [] = ground arith
has_action_iff a (x ∷ xs) =
    ground (arith, text_eq_iff (action_name x) (action_name a), has_action_iff a xs)

grants_iff :
    (store : Text) (action : Action) (gs : List Permission)
    → (grants store action gs ≡ true) ↔ Any (Allows store action) gs
unfolding grants
grants_iff store action [] = ground arith
grants_iff store action (g ∷ gs) = ground (
  arith,
  grants_iff store action gs,
  has_action_iff action g.actions,
  contains_iff g.stores store,
  contains_iff g.stores (codes "*"),
)

matches_iff :
    (claims conditions : Claims)
    → (matches claims conditions ≡ true) ↔ All (λ c. claim c.0 claims ≡ some c.1) conditions
unfolding matches
matches_iff claims [] = ground arith
matches_iff claims ((name, want) ∷ conditions) = elim (Option-cases (claim name claims)) [
  | inl missing ↦ ground (arith, missing)
  | inr (got, there) ↦ ground (arith, there, text_eq_iff got want, matches_iff claims conditions)
]

rules_grant_iff :
    (claims : Claims) (store : Text) (action : Action) (rules : List Rule)
    → (rules_grant claims store action rules ≡ true) ↔ Any (Grants claims store action) rules
unfolding rules_grant
rules_grant_iff claims store action [] = ground arith
rules_grant_iff claims store action (r ∷ rs) = ground (
  arith,
  rules_grant_iff claims store action rs,
  matches_iff claims r.conditions,
  grants_iff store action r.grants,
)

Verified-cases :
    (v : Verified) → ((e : Error) × (v ≡ rejected e)) ⊎ ((c : Claims) × (v ≡ claims_of c))
Verified-cases (rejected e) = inl (e, refl)
Verified-cases (claims_of c) = inr (c, refl)

decide_iff :
    (token store : Text) (action : Action) (ps : List Provider) (authenticated : Bool)
    (unavailable : Option Error)
    → (decide token store action ps authenticated unavailable ≡ none)
      ↔ Any (Entitles token store action) ps
unfolding decide
decide_iff token store action [] authenticated unavailable = ground arith
decide_iff token store action (p ∷ ps) authenticated unavailable =
    elim (Verified-cases (p.verify token)) [
      | inl (e, bad) ↦
          let ih =
            decide_iff token store action ps authenticated
              (if is e unauthenticated then unavailable else some e) in
          (
            λ k. inr (ih.0 (rw (bad, decide) at k)),
            λ some'. elim some' [
              | inl (c, said, g) ↦ absurd (cc (bad, said))
              | inr rest ↦ rw (bad, decide) (ih.1 rest)
            ],
          )
      | inr (claims, good) ↦
          let ih = decide_iff token store action ps true unavailable in
          let here = rules_grant_iff claims store action p.rules in
          elim (Bool-cases (rules_grant claims store action p.rules)) [
            | inl yes' ↦ (λ k. inl (claims, good, here.0 yes'), λ some'. rw (good, decide, yes'))
            | inr no' ↦ (
              λ k. inr (ih.0 (rw (good, decide, no') at k)),
              λ some'. elim some' [
                | inl (c, said, g) ↦
                    let same : c ≡ claims = cc (good, said) in
                    absurd (cc (here.1 (rw same at g), no'))
                | inr rest ↦ rw (good, decide, no') (ih.1 rest)
              ],
            )
          ]
    ]

-- A request with one Authorization header of at most 64 KiB and two fields, the first `Bearer` in
-- any case, is let through exactly if some provider vouches for its token with claims that meet a
-- rule of that provider which grants the action on the store.
pub authorize_iff :
    (providers : List Provider) (value scheme token store : Text) (action : Action)
    → length value ≤ 65536
    → fields value ≡ scheme ∷ token ∷ []
    → text_eq (to_lower scheme) (codes "bearer") ≡ true
    → (authorize providers (value ∷ []) store action ≡ none)
      ↔ Any (Entitles token store action) providers
unfolding authorize
authorize_iff providers value scheme token store action short two bearer =
    let fits : ltb 65536 (length value) ≡ false = ground arith in
    rw (fits, authorize, two, bearer) (decide_iff token store action providers false none)

-- When a token is refused, ErrForbidden is answered only if some provider vouched for it.
decide-forbidden :
    (token store : Text) (action : Action) (ps : List Provider) (unavailable : Option Error)
    → unavailable ≢ some forbidden
    → All (λ p. p.verify token ≢ rejected forbidden) ps
    → decide token store action ps false unavailable ≡ some forbidden
    → Any (λ p. (c : Claims) × (p.verify token ≡ claims_of c)) ps
unfolding decide
decide-forbidden token store action [] unavailable fine honest k = ground arith
decide-forbidden token store action (p ∷ ps) unavailable fine (ok', honest) k =
    elim (Verified-cases (p.verify token)) [
      | inr (claims, good) ↦ inl (claims, good)
      | inl (e, bad) ↦ inr (
          decide-forbidden token store action ps _ (λ x. ground (arith, x, ok', bad, fine)) honest
            (rw (bad, decide) at k))
    ]

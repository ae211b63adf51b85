-- ===== src/Auth/Policy.antt =====
-- Policy.Authorize of auth/policy.go. The OIDC verifier is a parameter of a provider: what it makes
-- of a token.
use flob.Prelude.{
  ℕ, zero, suc, ◌-◌, Bool, true, false, not, ◌&&◌, ◌||◌, Option, none, some, List, [], ◌∷◌, ltb,
  leb, ◌==◌, length, if◌then◌else◌,
}
use flob.Prelude.Text.{Text, codes, text_eq, contains}
use flob.Errors.{Error, unauthenticated, forbidden, is}
use flob.Hashing.{to_lower}

-- flob.Action
pub data Action : Type 0 where
  read add label erase : Action
  unknown : Text → Action

unfoldable pub action_name : Action → Text
action_name read = codes "read"
action_name add = codes "add"
action_name label = codes "label"
action_name erase = codes "erase"
action_name (unknown name) = name

pub record Permission : Type 0 where
  pub stores : List Text
  pub actions : List Action

-- claims and conditions: the entries of a map from names to values
abbrev pub Claims : Type 0
Claims = List (Text × Text)

-- `match` of policy.go
pub record Rule : Type 0 where
  pub conditions : Claims
  pub grants : List Permission

-- The verifier's answer to a raw token: its claims, or an error.
pub data Verified : Type 0 where
  rejected : Error → Verified
  claims_of : Claims → Verified

pub record Provider : Type 0 where
  pub verify : Text → Verified
  pub rules : List Rule

unfoldable pub claim : Text → Claims → Option Text
claim name [] = none
claim name ((k, v) ∷ claims) = if text_eq k name then some v else claim name claims

-- matches
unfoldable pub matches : Claims → Claims → Bool
unfolding claim
matches claims [] = true
matches claims ((name, want) ∷ conditions) = elim (claim name claims) [
  | none ↦ false
  | some got ↦ if text_eq got want then matches claims conditions else false
]

unfoldable pub has_action : Action → List Action → Bool
unfolding action_name
has_action a [] = false
has_action a (b ∷ bs) = if text_eq (action_name b) (action_name a) then true else has_action a bs

unfoldable pub grants : Text → Action → List Permission → Bool
unfolding has_action contains
grants store action [] = false
grants store action (g ∷ gs) =
    if has_action action g.actions && (contains g.stores store || contains g.stores (codes "*"))
    then true
    else grants store action gs

-- the loop over a provider's rules
unfoldable pub rules_grant : Claims → Text → Action → List Rule → Bool
unfolding matches grants
rules_grant claims store action [] = false
rules_grant claims store action (m ∷ ms) =
    if not (matches claims m.conditions)
    then rules_grant claims store action ms
    else if grants store action m.grants
    then true
    else rules_grant claims store action ms

-- the loop over the providers; `none` is success
unfoldable pub decide : Text → Text → Action → List Provider → Bool → Option Error → Option Error
unfolding rules_grant
decide token store action [] authenticated unavailable =
    if authenticated
    then some forbidden
    else elim unavailable [ some e ↦ some e | none ↦ some unauthenticated ]
decide token store action (p ∷ ps) authenticated unavailable = elim (p.verify token) [
  | rejected e ↦
      decide token store action ps authenticated
        (if is e unauthenticated then unavailable else some e)
  | claims_of claims ↦
      if rules_grant claims store action p.rules
      then none
      else decide token store action ps true unavailable
]

-- The bytes of the white space that a text begins with, 0 if it begins with none: unicode.IsSpace of
-- its first rune in UTF-8.
abbrev is_space : ℕ → Bool
is_space c = c == 32 || leb 9 c && leb c 13

abbrev is_narrow : ℕ → ℕ → Bool
is_narrow c d = c == 194 && (d == 133 || d == 160)

abbrev is_wide : ℕ → ℕ → ℕ → Bool
is_wide c d e =
    c == 225 && d == 154 && e == 128
    || c == 226 && d == 128 && (leb 128 e && leb e 138 || e == 168 || e == 169 || e == 175)
    || c == 226 && d == 129 && e == 159
    || c == 227 && d == 128 && e == 128

unfoldable pub space_size : Text → ℕ
space_size [] = 0
space_size (c ∷ []) = if is_space c then 1 else 0
space_size (c ∷ d ∷ []) = if is_space c then 1 else if is_narrow c d then 2 else 0
space_size (c ∷ d ∷ e ∷ s) =
    if is_space c then 1 else if is_narrow c d then 2 else if is_wide c d e then 3 else 0

abbrev push_field : Text → List Text → List Text
push_field [] fs = fs
push_field (c ∷ cs) fs = (c ∷ cs) ∷ fs

-- (the field that the text begins with, the fields after it), past so many bytes of white space
unfoldable pub split_fields : ℕ → Text → Text × List Text
unfolding space_size
split_fields skip [] = ([], [])
split_fields (suc skip) (c ∷ s) = split_fields skip s
split_fields zero (c ∷ s) =
    let n = space_size (c ∷ s) in
    let (cur, rest) = split_fields (n - 1) s in
    if n == 0 then (c ∷ cur, rest) else ([], push_field cur rest)

-- strings.Fields: the runs between white space
unfoldable pub fields : Text → List Text
unfolding split_fields
fields s = let (cur, rest) = split_fields 0 s in push_field cur rest

-- Policy.Authorize: `values` are the request's Authorization headers. strings.EqualFold with an
-- ASCII word that has no `k` or `s` is equality of the lower cases.
unfoldable pub authorize : List Provider → List Text → Text → Action → Option Error
unfolding decide fields
authorize providers (value ∷ []) store action =
    if ltb 65536 (length value) then some unauthenticated else elim (fields value) [
      | [] ↦ some unauthenticated
      | scheme ∷ rest ↦ elim rest [
        | [] ↦ some unauthenticated
        | token ∷ more ↦ elim more [
          | x ∷ xs ↦ some unauthenticated
          | [] ↦
              if text_eq (to_lower scheme) (codes "bearer")
              then decide token store action providers false none
              else some unauthenticated
        ]
      ]
    ]
authorize providers _ store action = some unauthenticated

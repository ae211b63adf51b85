-- ===== src/Examples/Web.antt =====
-- The HTTP handler over a store of one blob, its client, and a policy with one provider.
use flob.Prelude.{
  ℕ, ◌+◌, ◌≡◌, ◌↔◌, inl, refl, false, Option, none, some, [], ◌∷◌, arith, Any, true, All, ◌==◌,
  ◌||◌, if◌then◌else◌,
}
use flob.Prelude.Text.{Text, codes, text_eq, cut_prefix}
use flob.Errors.{Error, not_exist, digest_mismatch, forbidden, is}
use flob.Hashing.{to_lower}
use flob.Meta.{Header, no_meta}
use flob.Mem.Staging.{err}
use flob.Namespace.{is_plain_byte, namespace_segment, namespace_id}
use flob.Auth.Policy.{Action, claims_of, Provider, authorize, fields, split_fields, space_size}
use flob.Auth.Grants.{Entitles, authorize_iff}
use flob.Http.Paths.{parse_path, trim_slash, cut_slash, path_unescape, decode_parts, has_slash}
use flob.Http.Handler.{Backend, Method, Request, Handler, post_answer, serve_http}
use flob.Http.Client.{url_path, add_error}
use flob.Http.Gates.{IsRefused, serve_http-read, serve_http-unauthorized}
use flob.Http.Answers.{KeepsPaths, is_literal, parse_path-url_path, add_error-post_answer}
use flob.Examples.Toy.{toy}

-- A backend whose state counts the changes that are asked of it.
abbrev counting : Backend ℕ
counting = record {
  add = λ id m r s. ((m, none), s + 1);
  stat = λ id d s. (err not_exist, s);
  open_blob = λ id d s. (err not_exist, s);
  label = λ id d ls s. (none, s + 1);
  erase = λ id d s. (none, s + 1);
  presign = λ id d s. none;
}

abbrev refuse : Request → Text → Action → Option Error
refuse r id a = some forbidden

abbrev guarded : Handler
guarded = record {
  read_only = false;
  allowed_stores = codes "a" ∷ [];
  authorizer = some refuse;
  redirect = false;
}

abbrev asks : Method → Text → Request
asks m path = record {
  method = m;
  path = path;
  headers = [];
  body = record { bytes = []; failure = none };
}

path_of_a : parse_path (codes "/a/x") ≡ some (codes "a", codes "x")
unfolding parse_path trim_slash cut_slash path_unescape decode_parts has_slash namespace_id
    namespace_segment cut_prefix
path_of_a = refl

path_of_b : parse_path (codes "/b/x") ≡ some (codes "b", codes "x")
unfolding parse_path trim_slash cut_slash path_unescape decode_parts has_slash namespace_id
    namespace_segment cut_prefix
path_of_b = refl

serve_http-read_example : (serve_http counting toy guarded (asks Method.get (codes "/a/x")) 3).1 ≡ 3
serve_http-read_example =
    serve_http-read counting (λ n. n ≡ 3) toy guarded (asks Method.get (codes "/a/x")) 3
      (record {
        stat_kept = λ id d s k. k;
        open_kept = λ id d s k. k;
        presign_kept = λ id d s s' loc eq k. absurd (cc eq);
      })
      (inl refl) refl

serve_http-unauthorized_example :
    IsRefused 3 (serve_http counting toy guarded (asks Method.delete (codes "/a/x")) 3)
serve_http-unauthorized_example =
    serve_http-unauthorized counting toy guarded (asks Method.delete (codes "/a/x")) 3 (codes "a")
      (codes "x") refuse Action.erase forbidden path_of_a refl refl refl

abbrev colors : Header
colors = (codes "Color", codes "red" ∷ []) ∷ []

-- The path of a URL's text without a host: what stands before a query or a fragment.
abbrev before_query : Text → Text
before_query [] = []
before_query (c ∷ p) = let rest = before_query p in if c == b'?' || c == b'#' then [] else c ∷ rest

before_query-KeepsPaths : KeepsPaths before_query
unfolding is_literal is_plain_byte
before_query-KeepsPaths [] h = refl
before_query-KeepsPaths (c ∷ p) (hc, h) = ground (arith, hc, before_query-KeepsPaths p h)

digest_literal : All (λ c. is_literal c ≡ true) (codes "sha256:0f")
unfolding is_literal is_plain_byte
digest_literal = ground arith

parse_path-url_path_example :
    parse_path (before_query (url_path (codes "a/b") (codes "sha256:0f")))
    ≡ some (codes "a/b", codes "sha256:0f")
parse_path-url_path_example =
    parse_path-url_path before_query (codes "a/b") (codes "sha256:0f") before_query-KeepsPaths
      (omega arith) digest_literal

add_error-post_answer_example :
    (add_error (post_answer (codes "a") (no_meta, none)).status ≡ none)
    × (add_error (post_answer (codes "a") (no_meta, some digest_mismatch)).status
        ≡ some digest_mismatch)
unfolding is
add_error-post_answer_example = add_error-post_answer (codes "a") no_meta digest_mismatch

-- A provider that vouches for every token, for readers of every store.
abbrev reader : Provider
reader = record {
  verify = λ token. claims_of ((codes "sub", token) ∷ []);
  rules =
      record {
        conditions = (codes "sub", codes "ci") ∷ [];
        grants = record { stores = codes "*" ∷ []; actions = Action.read ∷ [] } ∷ [];
      }
      ∷ [];
}

authorize_iff_example :
    (authorize (reader ∷ []) (codes "Bearer ci" ∷ []) (codes "a") Action.read ≡ none)
    ↔ Any (Entitles (codes "ci") (codes "a") Action.read) (reader ∷ [])
unfolding fields split_fields space_size to_lower text_eq
authorize_iff_example =
    authorize_iff (reader ∷ []) (codes "Bearer ci") (codes "Bearer") (codes "ci") (codes "a")
      Action.read (omega arith) refl refl

-- ===== src/ControlPlane/Rules.antt =====
-- The route rules of the control plane and the paths that they match,
-- internal/controlplane/rbac/routeguard.go.
use minato.Prelude.{
  ℕ, String, Bool, true, false, not, ◌&&◌, ◌||◌, List, [], ◌∷◌, ◌++◌, ◌==◌, if◌then◌else◌, length,
  codes, Bytes, bytes_eq, ends_with, is_nil, trim, split,
}

-- The byte of `/`.
abbrev pub slash : ℕ
slash = 47

pub record RouteRule : Type 0 where
  pub method : String
  pub pattern : Bytes
  pub roles : List String
  pub cluster_wide : Bool

abbrev rule : String → String → List String → RouteRule
rule method pattern roles = record {
  method = method;
  pattern = codes pattern;
  roles = roles;
  cluster_wide = false;
}

abbrev pub admins : List String
admins = "admin" ∷ []

abbrev pub operators : List String
operators = "operator" ∷ "admin" ∷ []

-- The rules of DefaultRules for paths with a namespace, and those for API keys.
unfoldable pub namespaced_rules : List RouteRule
namespaced_rules =
    rule "POST" "/api/v1/gameservers/{namespace}" admins
    ∷ rule "DELETE" "/api/v1/gameservers/{namespace}/{name}" admins
    ∷ rule "PATCH" "/api/v1/gameservers/{namespace}/{name}" operators
    ∷ rule "GET" "/api/v1/gameservers/{namespace}/{name}/console" operators
    ∷ rule "GET" "/api/v1/gameservers/{namespace}/{name}/sftp" operators
    ∷ rule "POST" "/api/v1/gameservers/{namespace}/{name}/actions/{action}" operators
    ∷ rule "POST" "/api/v1/gameservers/{namespace}/{name}/snapshots" operators
    ∷ rule "POST" "/api/v1/gameserverfleets/{namespace}" admins
    ∷ rule "PATCH" "/api/v1/gameserverfleets/{namespace}/{name}" operators
    ∷ rule "DELETE" "/api/v1/gameserverfleets/{namespace}/{name}" admins
    ∷ []

abbrev pub api_keys_path : Bytes
api_keys_path = codes "/api/v1/apikeys"

abbrev pub api_key_path : Bytes
api_key_path = codes "/api/v1/apikeys/{keyId}"

unfoldable pub api_key_rules : List RouteRule
api_key_rules =
    (record { method = "*"; pattern = api_keys_path; roles = admins; cluster_wide = true })
    ∷ (record { method = "*"; pattern = api_key_path; roles = admins; cluster_wide = true })
    ∷ []

unfoldable pub default_rules : List RouteRule
unfolding namespaced_rules api_key_rules
default_rules = namespaced_rules ++ api_key_rules

abbrev begins_with_brace : Bytes → Bool
begins_with_brace [] = false
begins_with_brace (c ∷ s) = c == 123

-- A segment of the form `{…}`.
unfoldable pub is_template : Bytes → Bool
is_template s = begins_with_brace s && ends_with s 125

-- `strings.Split(strings.Trim(s, "/"), "/")`.
unfoldable pub segments : Bytes → List Bytes
segments s = split slash (trim slash s)

-- The loop of MatchPath, over two lists of one length.
unfoldable pub match_segments : List Bytes → List Bytes → Bool
unfolding is_template
match_segments [] ss = true
match_segments (p ∷ ps) [] = true
match_segments (p ∷ ps) (s ∷ ss) =
    let rest = match_segments ps ss in
    if is_template p
    then (if is_nil s then false else rest)
    else if not (bytes_eq p s)
    then false
    else rest

unfoldable pub match_path : Bytes → Bytes → Bool
unfolding segments match_segments
match_path pattern path =
    if not (length (segments pattern) == length (segments path))
    then false
    else match_segments (segments pattern) (segments path)

-- The namespace among the segments of a path.
unfoldable pub namespace_of : List Bytes → Bytes
namespace_of (a ∷ b ∷ c ∷ d ∷ rest) =
    if bytes_eq a (codes "api")
      && (bytes_eq c (codes "gameservers") || bytes_eq c (codes "gameserverfleets"))
    then d
    else []
namespace_of _ = []

unfoldable pub namespace_from_path : Bytes → Bytes
unfolding namespace_of segments
namespace_from_path path = namespace_of (segments path)

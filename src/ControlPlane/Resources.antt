-- ===== src/ControlPlane/Resources.antt =====
-- The rest of internal/controlplane/rbac/rbac.go: RequireRole, and the mappings of paths and methods.
use minato.Prelude.{
  String, Bool, true, ◌&&◌, ◌||◌, Option, none, some, List, [], ◌∷◌, if◌then◌else◌, str_eq, codes,
  Bytes, bytes_eq, has_prefix, is_nil, not, leb, length,
}
use minato.ControlPlane.Namespaces.{User}
use minato.ControlPlane.Guards.{Verdict, passes, unauthorized, forbidden, contains_role}

unfoldable pub require_role : List String → Option User → Verdict
unfolding contains_role
require_role roles none = unauthorized
require_role roles (some u) = if contains_role roles u.role then passes else forbidden

-- The loop over the positions of the text; past the last one where the other fits it never begins there.
unfoldable pub contains_at : Bytes → Bytes → Bool
unfolding has_prefix
contains_at [] sub = has_prefix [] sub
contains_at (c ∷ s) sub =
    let rest = contains_at s sub in if has_prefix (c ∷ s) sub then true else rest

unfoldable pub contains : Bytes → Bytes → Bool
unfolding contains_at
contains s sub =
    leb (length sub) (length s) && (bytes_eq s sub || (not (is_nil s) && contains_at s sub))

abbrev names : Bytes → String → Bool
names path text = contains path (codes text)

unfoldable pub resource_from_path : Bytes → String
unfolding contains
resource_from_path path =
    if names path "/gameservers/" && names path "/actions"
    then "actions"
    else if names path "/gameservers/" && names path "/snapshots"
    then "snapshots"
    else if names path "/gameservers/" && names path "/console"
    then "console"
    else if names path "/gameservers"
    then "gameservers"
    else if names path "/gameserverfleets"
    then "gameserverfleets"
    else if names path "/profiles"
    then "profiles"
    else if names path "/apikeys"
    then "apikeys"
    else ""

unfoldable pub verb_from_method : String → String
verb_from_method method =
    if str_eq method "GET"
    then "get"
    else if str_eq method "POST"
    then "create"
    else if str_eq method "PUT" || str_eq method "PATCH"
    then "update"
    else if str_eq method "DELETE"
    then "delete"
    else ""

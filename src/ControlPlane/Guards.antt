-- ===== src/ControlPlane/Guards.antt =====
-- The two guards of the control plane, RouteGuard and NamespaceGuard of
-- internal/controlplane/rbac/routeguard.go.
use minato.Prelude.{
  String, Bool, true, false, not, ◌&&◌, Option, none, some, List, [], ◌∷◌, if◌then◌else◌, str_eq,
  Bytes, is_nil,
}
use minato.ControlPlane.Namespaces.{User, cluster_wide, allows_namespace}
use minato.ControlPlane.Rules.{RouteRule, match_path, namespace_from_path}

-- What a guard answers: the next handler, or the status 401 or 403.
pub data Verdict : Type 0 where
  passes unauthorized forbidden : Verdict

unfoldable pub contains_role : List String → String → Bool
contains_role [] r = false
contains_role (q ∷ qs) r = let rest = contains_role qs r in if str_eq q r then true else rest

-- The body of RouteGuard's loop at a rule that matches.
unfoldable pub decide : RouteRule → Option User → Verdict
unfolding contains_role
decide rule none = unauthorized
decide rule (some u) =
    if not (contains_role rule.roles u.role)
    then forbidden
    else if rule.cluster_wide && not (cluster_wide u)
    then forbidden
    else passes

unfoldable pub route_guard : List RouteRule → String → Bytes → Option User → Verdict
route_guard [] method path user = passes
route_guard (rule ∷ rules) method path user =
    let rest = route_guard rules method path user in
    if not (str_eq rule.method "*") && not (str_eq rule.method method)
    then rest
    else if not (match_path rule.pattern path)
    then rest
    else decide rule user

unfoldable pub namespace_guard : Bytes → Option User → Verdict
namespace_guard path user = if is_nil (namespace_from_path path) then passes else elim user [
  | none ↦ passes
  | some u ↦ if allows_namespace u (namespace_from_path path) then passes else forbidden
]

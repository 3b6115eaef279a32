-- ===== src/ControlPlane/Roles.antt =====
-- The table of roles and their permissions, internal/controlplane/rbac/rbac.go.
use minato.Prelude.{
  ◌≡◌, ℕ, zero, suc, String, Bool, true, false, ◌||◌, Option, none, some, List, [], ◌∷◌,
  if◌then◌else◌, str_eq,
}

pub record Permission : Type 0 where
  pub resource : String
  pub verbs : List String
  pub namespaces : List String

pub record Role : Type 0 where
  pub name : String
  pub permissions : List Permission
  pub extends : String

-- The map of roles: the first entry of a name is the one in force.
abbrev pub Roles : Type 0
Roles = List Role

abbrev permission : String → List String → Permission
permission resource verbs = record { resource = resource; verbs = verbs; namespaces = [] }

abbrev reads : List String
reads = "get" ∷ "list" ∷ []

abbrev pub viewer_role : Role
viewer_role = record {
  name = "viewer";
  extends = "";
  permissions =
      permission "gameservers" reads
      ∷ permission "gameserverfleets" reads
      ∷ permission "profiles" reads
      ∷ permission "snapshots" reads
      ∷ permission "actions" reads
      ∷ permission "executions" reads
      ∷ [];
}

abbrev pub operator_role : Role
operator_role = record {
  name = "operator";
  extends = "viewer";
  permissions = permission "actions" ("execute" ∷ []) ∷ permission "snapshots" ("create" ∷ []) ∷ [];
}

abbrev pub admin_role : Role
admin_role = record {
  name = "admin";
  extends = "operator";
  permissions =
      permission "gameservers" ("create" ∷ "delete" ∷ [])
      ∷ permission "gameserverfleets" ("create" ∷ "delete" ∷ [])
      ∷ permission "apikeys" ("create" ∷ "delete" ∷ "list" ∷ [])
      ∷ [];
}

abbrev pub role_map : Roles
role_map = viewer_role ∷ operator_role ∷ admin_role ∷ []

unfoldable pub register_role : Role → Roles → Roles
register_role role roles = role ∷ roles

unfoldable pub get_role : Roles → String → Option Role
get_role [] name = none
get_role (role ∷ roles) name =
    let rest = get_role roles name in if str_eq role.name name then some role else rest

unfoldable pub has_verb : List String → String → Bool
has_verb [] verb = false
has_verb (v ∷ vs) verb =
    let rest = has_verb vs verb in if str_eq v verb || str_eq v "*" then true else rest

-- The loops over the permissions of one role.
unfoldable pub permits : List Permission → String → String → Bool
unfolding has_verb
permits [] resource verb = false
permits (p ∷ ps) resource verb =
    let rest = permits ps resource verb in
    if str_eq p.resource resource || str_eq p.resource "*"
    then (if has_verb p.verbs verb then true else rest)
    else rest

-- Inherited permissions first, then the role's own ones.
unfoldable pub or_own : Option Bool → Bool → Option Bool
or_own none own = none
or_own (some true) own = some true
or_own (some false) own = some own

-- The recursion along the roles that a role extends, which may form a cycle: without fuel left there
-- is no answer.
unfoldable pub has_permission : ℕ → Roles → String → String → String → Option Bool
unfolding or_own
has_permission zero roles name resource verb = none
has_permission (suc fuel) roles name resource verb = elim (get_role roles name) [
  | none ↦ some false
  | some role ↦
      let inherited = has_permission fuel roles role.extends resource verb in
      let own = permits role.permissions resource verb in
      if str_eq role.extends "" then some own else or_own inherited own
]

-- A role grants a permission that it has, or that the role it extends grants.
pub data Grants (roles : Roles) (resource verb : String) : String → Type 0 where
  own :
      {name : String}
      → (role : Role) → get_role roles name ≡ some role
      → permits role.permissions resource verb ≡ true
      → Grants roles resource verb name
  inherited :
      {name : String}
      → (role : Role) → get_role roles name ≡ some role
      → str_eq role.extends "" ≡ false
      → Grants roles resource verb role.extends
      → Grants roles resource verb name

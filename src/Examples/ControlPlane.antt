-- ===== src/Examples/ControlPlane.antt =====
-- The access control of the control plane at concrete inputs.
use minato.Prelude.{
  inr, none, ℕ, suc, ◌≤◌, String, Bool, if◌then◌else◌, str_eq, eq_iff, Bool-cases, arith, sym, ap,
  ◌∙◌, subst, ◌≡◌, refl, ◌↔◌, inl, true, false, some, [], ◌∷◌, codes, ends_with, has_prefix,
  but_last, bytes_eq, trim, trim_left, trim_right, split,
}
use minato.ControlPlane.Namespaces.{
  User, match_namespace_pattern, match_any_namespace, allows_namespace, cluster_wide,
}
use minato.ControlPlane.Roles.{
  Role, get_role, role_map, viewer_role, operator_role, admin_role, has_permission, Grants,
}
use minato.ControlPlane.Permissions.{IsRanked, has_permission_answers}
use minato.ControlPlane.Rules.{segments, namespace_of, namespace_from_path}
use minato.ControlPlane.Guards.{forbidden, namespace_guard}

-- An operator of the tenant, restricted to the namespaces of its own.
abbrev tenant : User
tenant = record {
  id = "1";
  username = "tenant";
  email = "";
  role = "operator";
  source = "apikey";
  namespaces = codes "tenant-*" ∷ [];
}

-- The tenant does not reach the namespace of another one.
other_namespace :
    namespace_guard (codes "/api/v1/gameservers/shop/survival") (some tenant) ≡ forbidden
unfolding segments namespace_guard namespace_from_path namespace_of allows_namespace
    match_any_namespace match_namespace_pattern cluster_wide ends_with has_prefix but_last bytes_eq
    trim trim_left trim_right split
other_namespace = refl

-- Viewer, operator and admin, in this order.
abbrev rank : String → ℕ
rank name = if str_eq "admin" name then 2 else if str_eq "operator" name then 1 else 0

ranked_as :
    (name : String) (r role : Role)
    → get_role role_map name ≡ some role
    → get_role role_map name ≡ some r
    → (str_eq r.extends "" ≡ false → suc (rank r.extends) ≤ rank name)
    → str_eq role.extends "" ≡ false
    → suc (rank role.extends) ≤ rank name
ranked_as name r role e f h =
    subst (λ s. str_eq s.extends "" ≡ false → suc (rank s.extends) ≤ rank name)
      (ap (λ o. elim o [ none ↦ r | some y ↦ y ]) (sym f ∙ e)) h

role_map-IsRanked : IsRanked role_map rank
unfolding get_role
role_map-IsRanked name role e x = elim (Bool-cases (str_eq "viewer" name)) [
  | inl v ↦
      ranked_as name viewer_role role e (ground (arith, v)) (λ h. absurd (ground (arith, h))) x
  | inr v ↦ elim (Bool-cases (str_eq "operator" name)) [
    | inl o ↦
        ranked_as name operator_role role e (ground (arith, v, o))
          (λ h. rw (sym ((eq_iff "operator" name).0 o)) (omega arith)) x
    | inr o ↦ elim (Bool-cases (str_eq "admin" name)) [
      | inl a ↦
          ranked_as name admin_role role e (ground (arith, v, o, a))
            (λ h. rw (sym ((eq_iff "admin" name).0 a)) (omega arith)) x
      | inr a ↦ absurd (ground (arith, v, o, a, e))
    ]
  ]
]

has_permission_answers_example :
    (a : Bool) × (has_permission 3 role_map "admin" "snapshots" "create" ≡ some a)
    × ((a ≡ true) ↔ Grants role_map "snapshots" "create" "admin")
has_permission_answers_example =
    has_permission_answers role_map "snapshots" "create" rank role_map-IsRanked 3 "admin"
      (omega arith)

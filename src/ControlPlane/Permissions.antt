-- ===== src/ControlPlane/Permissions.antt =====
-- What HasPermission of internal/controlplane/rbac/rbac.go answers, and that it does.
use minato.Prelude.{
  ◌≡◌, refl, ◌∙◌, sym, ap, ◌↔◌, ◌⊎◌, inl, inr, ℕ, zero, suc, ◌≤◌, String, Bool, true, false, none,
  some, str_eq, Bool-cases, Option-cases, arith,
}
use minato.ControlPlane.Roles.{
  Role, Roles, get_role, permits, or_own, has_permission, Grants, own, inherited,
}

-- Each role ranks above the role that it extends.
abbrev pub IsRanked : Roles → (String → ℕ) → Type 0
IsRanked roles rank =
    (name : String) (role : Role)
    → get_role roles name ≡ some role
    → str_eq role.extends "" ≡ false
    → suc (rank role.extends) ≤ rank name

module _ (roles : Roles) (resource verb : String) where
  unknown :
      (fuel : ℕ) (name : String)
      → get_role roles name ≡ none
      → has_permission (suc fuel) roles name resource verb ≡ some false
  unfolding has_permission
  unknown fuel name e = rw (has_permission, e) refl

  alone :
      (fuel : ℕ) (name : String) (role : Role)
      → get_role roles name ≡ some role
      → str_eq role.extends "" ≡ true
      → has_permission (suc fuel) roles name resource verb
        ≡ some (permits role.permissions resource verb)
  unfolding has_permission
  alone fuel name role e s = rw (has_permission, e, s) refl

  extended :
      (fuel : ℕ) (name : String) (role : Role)
      → get_role roles name ≡ some role
      → str_eq role.extends "" ≡ false
      → has_permission (suc fuel) roles name resource verb
        ≡ or_own
            (has_permission fuel roles role.extends resource verb)
            (permits role.permissions resource verb)
  unfolding has_permission
  extended fuel name role e s = rw (has_permission, e, s) refl

  same_role :
      (name : String) (r s : Role)
      → get_role roles name ≡ some r
      → get_role roles name ≡ some s
      → r ≡ s
  same_role name r s e f = ap (λ o. elim o [ none ↦ r | some x ↦ x ]) (sym e ∙ f)

  ungranted : (name : String) → get_role roles name ≡ none → Grants roles resource verb name → ⊥
  ungranted name e (own role f p) = ground (arith, sym e ∙ f)
  ungranted name e (inherited role f x g) = ground (arith, sym e ∙ f)

  Grants-cases :
      (name : String) (role : Role)
      → get_role roles name ≡ some role
      → Grants roles resource verb name
      → (permits role.permissions resource verb ≡ true)
        ⊎ ((str_eq role.extends "" ≡ false) × Grants roles resource verb role.extends)
  Grants-cases name role e (own r f p) = inl (rw (same_role name role r e f) p)
  Grants-cases name role e (inherited r f x g) = inr (rw (same_role name role r e f) (x, g))

  or_own-answers :
      (name : String) (role : Role) (b : Bool)
      → get_role roles name ≡ some role
      → str_eq role.extends "" ≡ false
      → ((b ≡ true) ↔ Grants roles resource verb role.extends)
      → (a : Bool) × (or_own (some b) (permits role.permissions resource verb) ≡ some a)
        × ((a ≡ true) ↔ Grants roles resource verb name)
  unfolding or_own
  or_own-answers name role true e x h =
      (true, refl, ((λ t. inherited role e x (h.0 refl)), λ g. refl))
  or_own-answers name role false e x h = (
    permits role.permissions resource verb,
    refl,
    (
      (λ t. own role e t),
      λ g. elim (Grants-cases name role e g) [
        | inl p ↦ p
        | inr (y, later) ↦ absurd (ground (arith, h.1 later))
      ],
    ),
  )

  -- Where each role ranks above the role that it extends, and the fuel is more than the rank of a
  -- role, HasPermission answers, and it answers yes exactly when the role grants the permission,
  -- itself or through the roles that it extends.
  pub has_permission_answers :
      (rank : String → ℕ)
      → IsRanked roles rank
      → (fuel : ℕ) (name : String) → suc (rank name) ≤ fuel
      → (a : Bool) × (has_permission fuel roles name resource verb ≡ some a)
        × ((a ≡ true) ↔ Grants roles resource verb name)
  has_permission_answers rank ranked zero name enough = absurd (omega arith)
  has_permission_answers rank ranked (suc fuel) name enough =
      elim (Option-cases (get_role roles name)) [
        | inl e ↦ (
          false,
          unknown fuel name e,
          ((λ t. absurd (ground (arith, t))), λ g. absurd (ungranted name e g)),
        )
        | inr (role, e) ↦ elim (Bool-cases (str_eq role.extends "")) [
          | inl s ↦ (
            permits role.permissions resource verb,
            alone fuel name role e s,
            (
              (λ t. own role e t),
              λ g. elim (Grants-cases name role e g) [
                | inl p ↦ p
                | inr (x, later) ↦ absurd (ground (arith, x, s))
              ],
            ),
          )
          | inr x ↦
              let below : suc (rank role.extends) ≤ rank name = ranked name role e x in
              let (b, f, h) = has_permission_answers rank ranked fuel role.extends (omega arith) in
              let (a, g, k) = or_own-answers name role b e x h in
              (
                a,
                extended fuel name role e x
                    ∙ ap (λ o. or_own o (permits role.permissions resource verb)) f
                    ∙ g,
                k,
              )
        ]
      ]

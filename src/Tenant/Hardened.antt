-- ===== src/Tenant/Hardened.antt =====
-- When a tenant namespace is hardened and when not, internal/controlplane/tenant/tenant.go.
use minato.Prelude.{
  ◌≡◌, refl, sym, ap, ◌∙◌, ◌⊎◌, inl, inr, true, false, List, [], ◌∷◌, ◌++◌, Option, none, some,
  Bytes, Bool-cases, Option-cases, subst,
}
use minato.Cluster.{ApiErr, is_not_found, is_already_exists, M, pure}
use minato.Tenant.Config.{Config, with_defaults}
use minato.Tenant.Policy.{
  Built, built, panics, ResourceQuota, build_namespace, build_resource_quota, build_network_policy,
}
use minato.Tenant.Provision.{
  World, Call, get_namespace, create_namespace, create_quota, create_policy, Ensured, ensured,
  failed, panicked, after_create, provision_policy, provision_quota, provision, ensure_namespace,
}

-- The server has created the object, or had it already.
abbrev pub Accepts : World → List Call → Call → Type 0
Accepts w t call =
    (w.create t call ≡ none)
    ⊎ ((e : ApiErr) × (w.create t call ≡ some e) × (is_already_exists e ≡ true))

abbrev pub Refuses : World → List Call → Call → ApiErr → Type 0
Refuses w t call e = (w.create t call ≡ some e) × (is_already_exists e ≡ false)

module _ (w : World) where
  pub create-cases :
      (t : List Call) (call : Call) → Accepts w t call ⊎ ((e : ApiErr) × Refuses w t call e)
  create-cases t call = elim (Option-cases (w.create t call)) [
    | inl e ↦ inl (inl e)
    | inr (x, e) ↦ elim (Bool-cases (is_already_exists x)) [
      | inl old ↦ inl (inr (x, e, old))
      | inr new ↦ inr (x, (e, new))
    ]
  ]

  pub after_accepted :
      (call : Call) (next : M Call Ensured) (t : List Call)
      → Accepts w t call
      → after_create w call next t ≡ next (call ∷ t)
  unfolding after_create
  after_accepted call next t (inl e) = rw e refl
  after_accepted call next t (inr (x, e, old)) = rw (e, old) refl

  pub after_refused :
      (call : Call) (next : M Call Ensured) (t : List Call) (e : ApiErr)
      → Refuses w t call e
      → after_create w call next t ≡ (failed e, call ∷ t)
  unfolding after_create
  after_refused call next t x (e, new) = rw (e, new) refl

  pub known :
      (namespace : Bytes) (cfg : Config) (t : List Call)
      → w.found t ≡ none
      → ensure_namespace w namespace cfg t ≡ (ensured, get_namespace namespace ∷ t)
  unfolding ensure_namespace
  known namespace cfg t e = rw e refl

  pub unknown :
      (namespace : Bytes) (cfg : Config) (t : List Call) (e : ApiErr)
      → w.found t ≡ some e
      → is_not_found e ≡ true
      → ensure_namespace w namespace cfg t
        ≡ provision w namespace (with_defaults cfg) (get_namespace namespace ∷ t)
  unfolding ensure_namespace
  unknown namespace cfg t x e f = rw (e, f) refl

  pub barred :
      (namespace : Bytes) (cfg : Config) (t : List Call) (e : ApiErr)
      → w.found t ≡ some e
      → is_not_found e ≡ false
      → ensure_namespace w namespace cfg t ≡ (failed e, get_namespace namespace ∷ t)
  unfolding ensure_namespace
  barred namespace cfg t x e f = rw (e, f) refl

  after-ensured :
      (call : Call) (next : M Call Ensured) (t : List Call)
      → (after_create w call next t).0 ≡ ensured
      → Accepts w t call × (after_create w call next t ≡ next (call ∷ t))
  after-ensured call next t h = elim (create-cases t call) [
    | inl a ↦ (a, after_accepted call next t a)
    | inr (e, r) ↦ absurd (cc (ap (λ p. p.0) (after_refused call next t e r)))
  ]

  abbrev pub quota_calls : Option ResourceQuota → List Call
  quota_calls none = []
  quota_calls (some quota) = create_quota quota ∷ []

  policy_created :
      (namespace : Bytes) (cfg : Config) (t : List Call)
      → (provision_policy w namespace cfg t).0 ≡ ensured
      → Accepts w t (create_policy (build_network_policy namespace cfg))
        × ((provision_policy w namespace cfg t).1
            ≡ create_policy (build_network_policy namespace cfg) ∷ t)
  unfolding provision_policy
  policy_created namespace cfg t h =
      let (a, e) =
        after-ensured (create_policy (build_network_policy namespace cfg)) (pure ensured) t h in
      (a, ap (λ p. p.1) e)

  abbrev pub AcceptsQuota : Option ResourceQuota → List Call → Type 0
  AcceptsQuota none before = Unit
  AcceptsQuota (some quota) before = Accepts w before (create_quota quota)

  -- After these calls the server has the quota, if there is one, and the policy.
  abbrev pub IsFenced : Bytes → Config → List Call → List Call → Type 0
  IsFenced namespace cfg before after =
      (quota : Option ResourceQuota) × (build_resource_quota w.is_quantity namespace cfg
        ≡ built quota)
      × AcceptsQuota quota before
      × Accepts w (quota_calls quota ++ before) (create_policy (build_network_policy namespace cfg))
      × (after ≡ create_policy (build_network_policy namespace cfg) ∷ (quota_calls quota ++ before))

  quota_panics :
      (namespace : Bytes) (cfg : Config) (t : List Call)
      → build_resource_quota w.is_quantity namespace cfg ≡ panics
      → provision_quota w namespace cfg t ≡ (panicked, t)
  unfolding provision_quota
  quota_panics namespace cfg t e = rw (provision_quota, e) refl

  pub quota_none :
      (namespace : Bytes) (cfg : Config) (t : List Call)
      → build_resource_quota w.is_quantity namespace cfg ≡ built none
      → provision_quota w namespace cfg t ≡ provision_policy w namespace cfg t
  unfolding provision_quota
  quota_none namespace cfg t e = rw (provision_quota, e) refl

  pub quota_some :
      (namespace : Bytes) (cfg : Config) (t : List Call) (quota : ResourceQuota)
      → build_resource_quota w.is_quantity namespace cfg ≡ built (some quota)
      → provision_quota w namespace cfg t
        ≡ after_create w (create_quota quota) (provision_policy w namespace cfg) t
  unfolding provision_quota
  quota_some namespace cfg t quota e = rw (provision_quota, e) refl

  quota_created :
      (namespace : Bytes) (cfg : Config) (t : List Call) (b : Built (Option ResourceQuota))
      → build_resource_quota w.is_quantity namespace cfg ≡ b
      → (provision_quota w namespace cfg t).0 ≡ ensured
      → IsFenced namespace cfg t (provision_quota w namespace cfg t).1
  quota_created namespace cfg t panics e h =
      absurd (cc (ap (λ p. p.0) (quota_panics namespace cfg t e)))
  quota_created namespace cfg t (built none) e h =
      let same = quota_none namespace cfg t e in
      let (a, f) = policy_created namespace cfg t (ap (λ p. p.0) (sym same) ∙ h) in
      (none, e, tt, a, ap (λ p. p.1) same ∙ f)
  quota_created namespace cfg t (built (some quota)) e h =
      let same = quota_some namespace cfg t quota e in
      let (b, g) =
        after-ensured (create_quota quota) (provision_policy w namespace cfg) t
          (ap (λ p. p.0) (sym same) ∙ h) in
      let (a, f) =
        policy_created namespace cfg (create_quota quota ∷ t)
          (ap (λ p. p.0) (sym g ∙ sym same) ∙ h) in
      (some quota, e, b, a, ap (λ p. p.1) (same ∙ g) ∙ f)

  -- Where the namespace is not there, EnsureNamespace returns no error only if it asked for the
  -- creation of the namespace, of the quota, unless every constraint is off, and of the network policy,
  -- in this order, and the server has created each of them or had it already.
  pub ensure_namespace-ensured :
      (namespace : Bytes) (cfg : Config) (t : List Call) (e : ApiErr)
      → w.found t ≡ some e
      → is_not_found e ≡ true
      → (ensure_namespace w namespace cfg t).0 ≡ ensured
      → Accepts w (get_namespace namespace ∷ t) (create_namespace (build_namespace namespace))
        × IsFenced namespace
            (with_defaults cfg)
            (create_namespace (build_namespace namespace) ∷ get_namespace namespace ∷ t)
            (ensure_namespace w namespace cfg t).1
  unfolding provision
  ensure_namespace-ensured namespace cfg t x e f h =
      let same = unknown namespace cfg t x e f in
      let (a, g) =
        after-ensured (create_namespace (build_namespace namespace))
          (provision_quota w namespace (with_defaults cfg)) (get_namespace namespace ∷ t)
          (ap (λ p. p.0) (sym same) ∙ h) in
      let before = create_namespace (build_namespace namespace) ∷ get_namespace namespace ∷ t in
      let fenced =
        quota_created namespace (with_defaults cfg) before _ refl
          (ap (λ p. p.0) (sym g ∙ sym same) ∙ h) in
      (
        a,
        subst (IsFenced namespace (with_defaults cfg) before) (ap (λ p. p.1) (sym g ∙ sym same))
            fenced,
      )

-- ===== src/Tenant/Panics.antt =====
-- That a loaded configuration builds no quota that panics, internal/controlplane/tenant/tenant.go.
use minato.Prelude.{
  ◌≡◌, ◌≢◌, refl, sym, ap, ◌∙◌, inl, inr, List, ◌∷◌, Option, none, some, Bytes, Bool-cases,
  Option-cases,
}
use minato.Cluster.{is_not_found, M, pure}
use minato.Tenant.Config.{Config, Environment, load_config, loaded}
use minato.Tenant.Policy.{Built, built, panics, ResourceQuota, build_resource_quota}
use minato.Tenant.Provision.{
  World, Call, get_namespace, create_quota, Ensured, ensured, panicked, after_create,
  provision_policy, provision_quota, provision, ensure_namespace,
}
use minato.Tenant.Loaded.{load_config-IsLoaded, with_defaults_loaded, no_quota_panic}
use minato.Tenant.Hardened.{
  create-cases, after_accepted, after_refused, known, unknown, barred, quota_none, quota_some,
}

module _ (w : World) where
  after-ne-panicked :
      (call : Call) (next : M Call Ensured) (t : List Call)
      → ((t' : List Call) → (next t').0 ≢ panicked)
      → (after_create w call next t).0 ≢ panicked
  after-ne-panicked call next t n h = elim (create-cases w t call) [
    | inl a ↦ n (call ∷ t) (ap (λ p. p.0) (sym (after_accepted w call next t a)) ∙ h)
    | inr (e, r) ↦ cc (ap (λ p. p.0) (after_refused w call next t e r))
  ]

  policy-ne-panicked :
      (namespace : Bytes) (cfg : Config) (t : List Call)
      → (provision_policy w namespace cfg t).0 ≢ panicked
  unfolding provision_policy
  policy-ne-panicked namespace cfg t = after-ne-panicked _ (pure ensured) t (λ t' h. cc)

  quota-ne-panicked :
      (namespace : Bytes) (cfg : Config) (t : List Call) (b : Built (Option ResourceQuota))
      → build_resource_quota w.is_quantity namespace cfg ≡ b
      → b ≢ panics
      → (provision_quota w namespace cfg t).0 ≢ panicked
  quota-ne-panicked namespace cfg t panics e n h = n refl
  quota-ne-panicked namespace cfg t (built none) e n h =
      policy-ne-panicked namespace cfg t (ap (λ p. p.0) (sym (quota_none w namespace cfg t e)) ∙ h)
  quota-ne-panicked namespace cfg t (built (some quota)) e n h =
      after-ne-panicked (create_quota quota) (provision_policy w namespace cfg) t
        (policy-ne-panicked namespace cfg)
        (ap (λ p. p.0) (sym (quota_some w namespace cfg t quota e)) ∙ h)

  provision-ne-panicked :
      (namespace : Bytes) (cfg : Config) (t : List Call)
      → build_resource_quota w.is_quantity namespace cfg ≢ panics
      → (provision w namespace cfg t).0 ≢ panicked
  unfolding provision
  provision-ne-panicked namespace cfg t n =
      after-ne-panicked _ (provision_quota w namespace cfg) t
        (λ t'. quota-ne-panicked namespace cfg t' _ refl n)

  -- A loaded configuration never makes EnsureNamespace panic.
  ensure_namespace-ne-panicked :
      (env : Environment) (namespace : Bytes) (cfg : Config) (t : List Call)
      → load_config w.is_quantity env ≡ loaded cfg
      → (ensure_namespace w namespace cfg t).0 ≢ panicked
  ensure_namespace-ne-panicked env namespace cfg t h =
      let proper = load_config-IsLoaded w.is_quantity env cfg h in
      let plain = no_quota_panic w.is_quantity namespace cfg proper in
      elim (Option-cases (w.found t)) [
        | inl e ↦ λ p. cc (ap (λ q. q.0) (known w namespace cfg t e))
        | inr (x, e) ↦ elim (Bool-cases (is_not_found x)) [
          | inl f ↦ λ p. provision-ne-panicked namespace cfg (get_namespace namespace ∷ t) plain (
              rw (with_defaults_loaded cfg proper.named) at
                (ap (λ q. q.0) (sym (unknown w namespace cfg t x e f)) ∙ p))
          | inr f ↦ λ p. cc (ap (λ q. q.0) (barred w namespace cfg t x e f))
        ]
      ]

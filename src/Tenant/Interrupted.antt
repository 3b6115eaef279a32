-- ===== src/Tenant/Interrupted.antt =====
-- A tenant whose creation is interrupted, internal/controlplane/tenant/tenant.go.
use minato.Prelude.{◌≡◌, refl, sym, ap, ◌∙◌, true, List, [], ◌∷◌, ◌++◌, some, none, Bytes, map}
use mathlib.Core.List.{append_assoc}
use minato.Cluster.{ApiErr, is_not_found, M, pure, ◌>>=◌}
use minato.Tenant.Config.{Config, with_defaults}
use minato.Tenant.Policy.{built, ResourceQuota, build_namespace, build_resource_quota}
use minato.Tenant.Provision.{
  World, Call, get_namespace, create_namespace, create_quota, Ensured, ensured, failed,
  provision_policy, provision_quota, provision, ensure_namespace,
}
use minato.Tenant.Hardened.{
  Accepts, Refuses, after_accepted, after_refused, known, unknown, quota_some,
}

module _ (w : World) where
  interrupted :
      (namespace : Bytes) (cfg : Config) (t : List Call) (e x : ApiErr) (quota : ResourceQuota)
      → w.found t ≡ some e
      → is_not_found e ≡ true
      → Accepts w (get_namespace namespace ∷ t) (create_namespace (build_namespace namespace))
      → build_resource_quota w.is_quantity namespace (with_defaults cfg) ≡ built (some quota)
      → Refuses w
          (create_namespace (build_namespace namespace) ∷ get_namespace namespace ∷ t)
          (create_quota quota)
          x
      → ensure_namespace w namespace cfg t ≡ (
        failed x,
        create_quota quota
            ∷ create_namespace (build_namespace namespace)
            ∷ get_namespace namespace
            ∷ t,
      )
  unfolding provision
  interrupted namespace cfg t e x quota f g a b r =
      let before = create_namespace (build_namespace namespace) ∷ get_namespace namespace ∷ t in
      unknown w namespace cfg t e f g
      ∙ after_accepted w (create_namespace (build_namespace namespace))
          (provision_quota w namespace (with_defaults cfg)) (get_namespace namespace ∷ t) a
      ∙ quota_some w namespace (with_defaults cfg) before quota b
      ∙ after_refused w (create_quota quota) (provision_policy w namespace (with_defaults cfg))
          before x r

  -- Further runs, each with its own configuration, and what they return, the first one first.
  abbrev pub later_runs : Bytes → List Config → M Call (List Ensured)
  later_runs namespace [] = pure []
  later_runs namespace (cfg ∷ cfgs) = do
    result ← ensure_namespace w namespace cfg
    results ← later_runs namespace cfgs
    pure (result ∷ results)

  abbrev pub lookups : Bytes → List Config → List Call
  lookups namespace [] = []
  lookups namespace (cfg ∷ cfgs) = lookups namespace cfgs ++ (get_namespace namespace ∷ [])

  later_runs-lookups :
      (namespace : Bytes) (cfgs : List Config) (u t : List Call)
      → ((v : List Call) → w.found (v ++ t) ≡ none)
      → later_runs namespace cfgs (u ++ t)
        ≡ (map (λ cfg. ensured) cfgs, lookups namespace cfgs ++ (u ++ t))
  later_runs-lookups namespace [] u t found = refl
  later_runs-lookups namespace (cfg ∷ cfgs) u t found =
      let rest = later_runs-lookups namespace cfgs (get_namespace namespace ∷ u) t found in
      ap (λ p. let (rs, t') = later_runs namespace cfgs p.1 in (p.0 ∷ rs, t'))
        (known w namespace cfg (u ++ t) (found u))
      ∙ ap (λ p. (ensured ∷ p.0, p.1)) rest
      ∙ ap (λ l. (map (λ c. ensured) (cfg ∷ cfgs), l))
          (sym (append_assoc (lookups namespace cfgs) (get_namespace namespace ∷ []) (u ++ t)))

  -- Where a run creates the namespace and is then refused the quota, and the namespace is found from
  -- its creation on, every later run, with whatever configuration, only looks the namespace up and
  -- reports success: the network policy is never asked for.
  pub interrupted_stays_open :
      (namespace : Bytes) (cfg : Config) (t : List Call) (e x : ApiErr) (quota : ResourceQuota)
      (later : List Config)
      → w.found t ≡ some e
      → is_not_found e ≡ true
      → Accepts w (get_namespace namespace ∷ t) (create_namespace (build_namespace namespace))
      → build_resource_quota w.is_quantity namespace (with_defaults cfg) ≡ built (some quota)
      → Refuses w
          (create_namespace (build_namespace namespace) ∷ get_namespace namespace ∷ t)
          (create_quota quota)
          x
      → ((v : List Call)
          → w.found
              (v ++ (create_namespace (build_namespace namespace) ∷ get_namespace namespace ∷ t))
            ≡ none)
      → (ensure_namespace w namespace cfg t).0 ≡ failed x
        × (later_runs namespace later (ensure_namespace w namespace cfg t).1 ≡ (
          map (λ c. ensured) later,
          lookups namespace later
              ++ (create_quota quota
                  ∷ create_namespace (build_namespace namespace)
                  ∷ get_namespace namespace
                  ∷ t),
        ))
  interrupted_stays_open namespace cfg t e x quota later f g a b r found =
      let first = interrupted namespace cfg t e x quota f g a b r in
      (
        ap (λ p. p.0) first,
        ap (λ p. later_runs namespace later p.1) first
            ∙ later_runs-lookups namespace later (create_quota quota ∷ [])
                (create_namespace (build_namespace namespace) ∷ get_namespace namespace ∷ t) found,
      )

-- ===== src/Tenant/Provision.antt =====
-- EnsureNamespace of internal/controlplane/tenant/tenant.go, as a program that makes calls.
use minato.Prelude.{Bool, List, ◌∷◌, Option, none, some, if◌then◌else◌, Bytes}
use minato.Cluster.{ApiErr, is_not_found, is_already_exists, M, ◌>>=◌, pure, ask}
use minato.Tenant.Config.{Config, with_defaults}
use minato.Tenant.Policy.{
  Namespace, ResourceQuota, NetworkPolicy, build_namespace, build_resource_quota,
  build_network_policy, built, panics,
}

pub data Call : Type 0 where
  get_namespace : Bytes → Call
  create_namespace : Namespace → Call
  create_quota : ResourceQuota → Call
  create_policy : NetworkPolicy → Call

-- What the API server answers after the calls made so far; `none` is no error.
pub record World : Type 0 where
  pub found : List Call → Option ApiErr
  pub create : List Call → Call → Option ApiErr
  pub is_quantity : Bytes → Bool

-- The error that EnsureNamespace returns, if any, or a panic.
pub data Ensured : Type 0 where
  ensured : Ensured
  failed : ApiErr → Ensured
  panicked : Ensured

module _ (w : World) where
  -- An object that exists already counts as created.
  unfoldable pub create_object : Call → M Call (Option ApiErr)
  create_object call t = (
    elim (w.create t call) [ none ↦ none | some e ↦ if is_already_exists e then none else some e ],
    call ∷ t,
  )

  unfoldable pub after_create : Call → M Call Ensured → M Call Ensured
  unfolding create_object
  after_create call next =
      create_object call >>= λ r. elim r [ none ↦ next | some e ↦ pure (failed e) ]

  unfoldable pub provision_policy : Bytes → Config → M Call Ensured
  unfolding after_create
  provision_policy namespace cfg =
      after_create (create_policy (build_network_policy namespace cfg)) (pure ensured)

  unfoldable pub provision_quota : Bytes → Config → M Call Ensured
  unfolding after_create provision_policy
  provision_quota namespace cfg = elim (build_resource_quota w.is_quantity namespace cfg) [
    | panics ↦ pure panicked
    | built none ↦ provision_policy namespace cfg
    | built (some quota) ↦ after_create (create_quota quota) (provision_policy namespace cfg)
  ]

  unfoldable pub provision : Bytes → Config → M Call Ensured
  unfolding after_create provision_quota
  provision namespace cfg =
      after_create (create_namespace (build_namespace namespace)) (provision_quota namespace cfg)

  unfoldable pub ensure_namespace : Bytes → Config → M Call Ensured
  unfolding provision
  ensure_namespace namespace cfg = ask (get_namespace namespace) w.found >>= λ r. elim r [
    | none ↦ pure ensured
    | some e ↦ if is_not_found e then provision namespace (with_defaults cfg) else pure (failed e)
  ]

-- ===== src/Examples/Tenant.antt =====
-- Tenant namespaces at concrete inputs.
use minato.Prelude.{
  ◌≡◌, ◌≢◌, refl, ◌↔◌, ◌⊎◌, Bool, false, ◌&&◌, inl, Option, some, none, [], ◌∷◌, List, pos, codes,
  Bytes, leb, map, ◌++◌, if◌then◌else◌, bytes_eq, trim_space, trim_space_left, trim_space_right,
  split, atoi, unsigned, of_digits,
}
use minato.Cluster.{ApiErr, not_found, other}
use minato.Tenant.Config.{
  Config, load_config, loaded, with_defaults, env_int, quantity_of, env_quantity, port_of,
  port_part, ports_of, env_ports, non_negative, Environment,
}
use minato.Tenant.Policy.{
  tcp, agent_port, built, build_namespace, build_resource_quota, build_network_policy,
  ResourceQuota, hard_of, max_servers_entry, quantity_entry, number, parsed, tenant_labels,
}
use minato.Tenant.Provision.{
  World, Call, get_namespace, create_namespace, create_quota, create_policy, ensured, failed,
  create_object, after_create, provision_policy, provision_quota, provision, ensure_namespace,
}
use minato.Tenant.Admission.{Admits, IsIntended, build_network_policy-Admits}
use minato.Tenant.Hardened.{Accepts, IsFenced, ensure_namespace-ensured}
use minato.Tenant.Interrupted.{later_runs, lookups, interrupted_stays_open}

-- A text that begins with a digit.
abbrev is_number : Bytes → Bool
is_number [] = false
is_number (c ∷ s) = leb 48 c && leb c 57

-- Only the number of servers and the ports are set.
abbrev env : Environment
env key =
    if bytes_eq key (codes "TENANT_QUOTA_MAX_SERVERS")
    then some (codes "3")
    else if bytes_eq key (codes "TENANT_GAME_PORTS")
    then some (codes "25565, 7777")
    else none

abbrev pub settings : Config
settings = record {
  max_servers = pos 3;
  cpu = codes "8";
  memory = codes "32Gi";
  storage = codes "200Gi";
  game_ports = pos 25565 ∷ pos 7777 ∷ [];
  control_plane_namespace = codes "minato";
}

settings_loaded : load_config is_number env ≡ loaded settings
unfolding load_config env_int quantity_of env_quantity port_of port_part ports_of env_ports
    non_negative atoi unsigned of_digits trim_space trim_space_left trim_space_right split bytes_eq
settings_loaded = refl

build_network_policy-Admits_example :
    Admits
      (build_network_policy (codes "shop") settings)
      (codes "shop")
      (codes "minato")
      tcp
      agent_port
    ↔ ((codes "shop" ≢ codes "shop")
        ⊎ IsIntended (codes "shop") settings (codes "minato") tcp agent_port)
build_network_policy-Admits_example =
    build_network_policy-Admits (codes "shop") settings (codes "shop") (codes "minato") tcp
      agent_port

-- The namespace is there once it was created.
abbrev is_created : List Call → Option ApiErr
is_created [] = some (not_found "shop")
is_created (create_namespace n ∷ calls) = none
is_created (get_namespace n ∷ calls) = is_created calls
is_created (create_quota q ∷ calls) = is_created calls
is_created (create_policy p ∷ calls) = is_created calls

abbrev pub accepting : World
accepting = record { found = is_created; create = λ calls call. none; is_quantity = is_number }

abbrev no_quotas : List Call → Call → Option ApiErr
no_quotas calls (create_quota q) = some (other "quotas are down")
no_quotas calls (get_namespace n) = none
no_quotas calls (create_namespace n) = none
no_quotas calls (create_policy p) = none

abbrev refusing : World
refusing = record accepting { create = no_quotas }

abbrev shop_quota : ResourceQuota
shop_quota = record {
  name = "minato-tenant-quota";
  namespace = codes "shop";
  labels = tenant_labels (codes "shop");
  hard =
      ("count/gameservers.operator.minato.io", number (pos 3))
      ∷ ("requests.cpu", parsed (codes "8"))
      ∷ ("requests.memory", parsed (codes "32Gi"))
      ∷ ("requests.storage", parsed (codes "200Gi"))
      ∷ [];
}

shop_quota_built :
    build_resource_quota is_number (codes "shop") (with_defaults settings) ≡ built (some shop_quota)
unfolding build_resource_quota hard_of max_servers_entry quantity_entry with_defaults
shop_quota_built = refl

ensure_namespace-ensured_example :
    Accepts accepting
      (get_namespace (codes "shop") ∷ [])
      (create_namespace (build_namespace (codes "shop")))
    × IsFenced accepting
        (codes "shop")
        (with_defaults settings)
        (create_namespace (build_namespace (codes "shop")) ∷ get_namespace (codes "shop") ∷ [])
        (ensure_namespace accepting (codes "shop") settings []).1
unfolding ensure_namespace provision provision_quota provision_policy after_create create_object
    build_resource_quota hard_of max_servers_entry quantity_entry with_defaults
ensure_namespace-ensured_example =
    ensure_namespace-ensured accepting (codes "shop") settings [] (not_found "shop") refl refl refl

-- The calls up to the creation of the namespace.
abbrev creation : List Call
creation = create_namespace (build_namespace (codes "shop")) ∷ get_namespace (codes "shop") ∷ []

is_created-creation : (v : List Call) → is_created (v ++ creation) ≡ none
is_created-creation [] = refl
is_created-creation (create_namespace n ∷ v) = refl
is_created-creation (get_namespace n ∷ v) = is_created-creation v
is_created-creation (create_quota q ∷ v) = is_created-creation v
is_created-creation (create_policy p ∷ v) = is_created-creation v

abbrev unlimited : Config
unlimited = record settings { max_servers = pos 0 }

interrupted_stays_open_example :
    ((ensure_namespace refusing (codes "shop") settings []).0 ≡ failed (other "quotas are down"))
    × (later_runs refusing
          (codes "shop")
          (settings ∷ unlimited ∷ [])
          (ensure_namespace refusing (codes "shop") settings []).1
        ≡ (
          map (λ c. ensured) (settings ∷ unlimited ∷ []),
          lookups refusing (codes "shop") (settings ∷ unlimited ∷ [])
              ++ (create_quota shop_quota ∷ creation),
        ))
interrupted_stays_open_example =
    interrupted_stays_open refusing (codes "shop") settings [] (not_found "shop")
      (other "quotas are down") shop_quota (settings ∷ unlimited ∷ []) refl refl (inl refl)
      shop_quota_built (refl, refl) is_created-creation

-- ===== src/Tenant/Policy.antt =====
-- The objects of a new tenant namespace, internal/controlplane/tenant/tenant.go. A quota is built by
-- `resource.MustParse`, which panics on a text that is no quantity.
use minato.Prelude.{
  Bool, true, false, not, List, [], ◌∷◌, ◌++◌, Option, none, some, if◌then◌else◌, ℤ, pos, ltb_ℤ,
  String, codes, Bytes, is_nil,
}
use minato.Tenant.Config.{Config, no_ports}

abbrev pub Labels : Type 0
Labels = List (String × Bytes)

abbrev pub label_tenant : String
label_tenant = "minato.io/tenant"

abbrev pub label_managed_by : String
label_managed_by = "app.kubernetes.io/managed-by"

abbrev pub tenant_labels : Bytes → Labels
tenant_labels namespace =
    (label_tenant, namespace) ∷ (label_managed_by, codes "minato-controlplane") ∷ []

pub record Namespace : Type 0 where
  pub name : Bytes
  pub labels : Labels

unfoldable pub build_namespace : Bytes → Namespace
build_namespace name = record {
  name = name;
  labels =
      tenant_labels name
      ++ (("pod-security.kubernetes.io/enforce", codes "restricted")
          ∷ ("pod-security.kubernetes.io/audit", codes "restricted")
          ∷ ("pod-security.kubernetes.io/warn", codes "restricted")
          ∷ []);
}

-- A number, or a text that `resource.MustParse` accepted.
pub data Quantity : Type 0 where
  number : ℤ → Quantity
  parsed : Bytes → Quantity

pub record ResourceQuota : Type 0 where
  pub name : String
  pub namespace : Bytes
  pub labels : Labels
  pub hard : List (String × Quantity)

-- A value, or a panic.
pub data Built (A : Type 0) : Type 0 where
  built : A → Built A
  panics : Built A

infixl 5 ◌>>=◌
abbrev pub ◌>>=◌ : {A B : Type 0} → Built A → (A → Built B) → Built B
◌>>=◌ m f = elim m [ panics ↦ panics | built value ↦ f value ]

unfoldable pub max_servers_entry : ℤ → List (String × Quantity)
max_servers_entry n =
    if ltb_ℤ (pos 0) n then ("count/gameservers.operator.minato.io", number n) ∷ [] else []

unfoldable pub quantity_entry : (Bytes → Bool) → String → Bytes → Built (List (String × Quantity))
quantity_entry is_quantity name v =
    if is_nil v
    then built []
    else if not (is_quantity v)
    then panics
    else built ((name, parsed v) ∷ [])

unfoldable pub hard_of : (Bytes → Bool) → Config → Built (List (String × Quantity))
hard_of is_quantity cfg = do
  cpu ← quantity_entry is_quantity "requests.cpu" cfg.cpu
  memory ← quantity_entry is_quantity "requests.memory" cfg.memory
  storage ← quantity_entry is_quantity "requests.storage" cfg.storage
  built (max_servers_entry cfg.max_servers ++ (cpu ++ (memory ++ storage)))

abbrev pub no_entries : List (String × Quantity) → Bool
no_entries [] = true
no_entries (e ∷ es) = false

-- `nil`, here `none`, if every constraint is disabled.
unfoldable pub build_resource_quota : (Bytes → Bool) → Bytes → Config → Built (Option ResourceQuota)
build_resource_quota is_quantity namespace cfg = hard_of is_quantity cfg >>= λ hard. built (
    if no_entries hard
    then none
    else some (record {
      name = "minato-tenant-quota";
      namespace = namespace;
      labels = tenant_labels namespace;
      hard = hard;
    }))

pub data Protocol : Type 0 where
  tcp udp sctp : Protocol

pub record PolicyPort : Type 0 where
  pub protocol : Protocol
  pub port : ℤ

-- A peer is the namespaces whose `kubernetes.io/metadata.name` is this. No peers means every source,
-- and no ports means every port.
pub record IngressRule : Type 0 where
  pub from : List Bytes
  pub ports : List PolicyPort

pub record EgressRule : Type 0 where
  pub ports : List PolicyPort

pub data PolicyType : Type 0 where
  ingress_type egress_type : PolicyType

-- The policy selects every pod of its namespace.
pub record NetworkPolicy : Type 0 where
  pub name : String
  pub namespace : Bytes
  pub labels : Labels
  pub policy_types : List PolicyType
  pub ingress : List IngressRule
  pub egress : List EgressRule

abbrev pub agent_port : ℤ
agent_port = pos 9876

abbrev pub on : Protocol → ℤ → PolicyPort
on protocol port = record { protocol = protocol; port = port }

unfoldable pub game_port_rules : List ℤ → List PolicyPort
game_port_rules [] = []
game_port_rules (p ∷ ps) = on tcp p ∷ on udp p ∷ game_port_rules ps

unfoldable pub build_network_policy : Bytes → Config → NetworkPolicy
unfolding game_port_rules
build_network_policy namespace cfg = record {
  name = "minato-tenant-default";
  namespace = namespace;
  labels = tenant_labels namespace;
  policy_types = ingress_type ∷ egress_type ∷ [];
  ingress =
      ((record { from = namespace ∷ []; ports = [] })
        ∷ (record { from = cfg.control_plane_namespace ∷ []; ports = on tcp agent_port ∷ [] })
        ∷ [])
      ++ (if no_ports cfg.game_ports
          then []
          else (record { from = []; ports = game_port_rules cfg.game_ports }) ∷ []);
  egress =
      ((record { ports = on udp (pos 53) ∷ on tcp (pos 53) ∷ [] })
        ∷ (record { ports = on tcp agent_port ∷ [] })
        ∷ [])
      ++ (if no_ports cfg.game_ports
          then []
          else (record { ports = game_port_rules cfg.game_ports }) ∷ []);
}

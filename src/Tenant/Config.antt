-- ===== src/Tenant/Config.antt =====
-- The configuration of tenant namespaces and how it is read from the environment,
-- internal/controlplane/tenant/tenant.go. The environment is a parameter, and so is the test of
-- `resource.ParseQuantity`; the values are ASCII texts.
use minato.Prelude.{
  ℕ, ◌==◌, Bool, true, false, not, ◌&&◌, ◌||◌, List, [], ◌∷◌, Option, none, some, if◌then◌else◌, ℤ,
  pos, negsuc, ltb_ℤ, codes, Bytes, bytes_eq, is_nil, trim_space, split, atoi,
}

-- `os.LookupEnv`.
abbrev pub Environment : Type 0
Environment = Bytes → Option Bytes

pub record Config : Type 0 where
  pub max_servers : ℤ
  pub cpu : Bytes
  pub memory : Bytes
  pub storage : Bytes
  pub game_ports : List ℤ
  pub control_plane_namespace : Bytes

pub data ConfigError : Type 0 where
  invalid_integer : Bytes → ConfigError
  negative : ℤ → ConfigError
  invalid_quantity : Bytes → ConfigError
  invalid_port : Bytes → ConfigError
  out_of_range : ℤ → ConfigError

-- A value that was read, or the error that `LoadConfig` returns.
pub data Loaded (A : Type 0) : Type 0 where
  rejected : ConfigError → Loaded A
  loaded : A → Loaded A

infixl 5 ◌>>=◌
abbrev pub ◌>>=◌ : {A B : Type 0} → Loaded A → (A → Loaded B) → Loaded B
◌>>=◌ m f = elim m [ rejected e ↦ rejected e | loaded value ↦ f value ]

abbrev pub or_unset : Option Bytes → Bytes → Bytes
or_unset none fallback = fallback
or_unset (some v) fallback = v

-- `os.Getenv`.
abbrev pub getenv : Environment → Bytes → Bytes
getenv env key = or_unset (env key) []

abbrev pub comma : ℕ
comma = 44

abbrev pub default_max_servers : ℤ
default_max_servers = pos 10

abbrev pub default_control_plane_namespace : Bytes
default_control_plane_namespace = codes "minato"

abbrev int_of : Bytes → Loaded ℤ
int_of v =
    if is_nil v
    then loaded (pos 0)
    else elim (atoi v) [ none ↦ rejected (invalid_integer v) | some n ↦ loaded n ]

unfoldable pub env_int : Environment → Bytes → ℤ → Loaded ℤ
env_int env key fallback = elim (env key) [
  | none ↦ loaded fallback
  | some v ↦ int_of (trim_space v)
]

-- `resource.ParseQuantity` succeeds.
module _ (is_quantity : Bytes → Bool) where
  unfoldable pub quantity_of : Bytes → Loaded Bytes
  quantity_of v =
      if is_nil v || bytes_eq v (codes "0")
      then loaded []
      else if not (is_quantity v)
      then rejected (invalid_quantity v)
      else loaded v

  unfoldable pub env_quantity : Environment → Bytes → Bytes → Loaded Bytes
  unfolding quantity_of
  env_quantity env key fallback = quantity_of (trim_space (or_unset (env key) fallback))

unfoldable pub port_of : ℤ → Loaded ℤ
port_of n = if ltb_ℤ n (pos 1) || ltb_ℤ (pos 65535) n then rejected (out_of_range n) else loaded n

unfoldable pub port_part : Bytes → Loaded ℤ
unfolding port_of
port_part part = elim (atoi part) [ none ↦ rejected (invalid_port part) | some n ↦ port_of n ]

-- The loop over the parts between the commas.
unfoldable pub ports_of : List Bytes → Loaded (List ℤ)
ports_of [] = loaded []
ports_of (part ∷ parts) =
    let rest = ports_of parts in
    if is_nil (trim_space part)
    then rest
    else (port_part (trim_space part) >>= λ n. rest >>= λ ns. loaded (n ∷ ns))

unfoldable pub env_ports : Environment → Bytes → Bytes → Loaded (List ℤ)
env_ports env key fallback =
    let v = trim_space (or_unset (env key) fallback) in
    if is_nil v then loaded [] else ports_of (split comma v)

abbrev pub or_default : Bytes → Bytes
or_default v = if is_nil v then default_control_plane_namespace else v

unfoldable pub non_negative : ℤ → Loaded ℤ
non_negative n = if ltb_ℤ n (pos 0) then rejected (negative n) else loaded n

unfoldable pub load_config : (Bytes → Bool) → Environment → Loaded Config
load_config is_quantity env = do
  n ← env_int env (codes "TENANT_QUOTA_MAX_SERVERS") default_max_servers
  max_servers ← non_negative n
  cpu ← env_quantity is_quantity env (codes "TENANT_QUOTA_CPU") (codes "8")
  memory ← env_quantity is_quantity env (codes "TENANT_QUOTA_MEMORY") (codes "32Gi")
  storage ← env_quantity is_quantity env (codes "TENANT_QUOTA_STORAGE") (codes "200Gi")
  ports ← env_ports env (codes "TENANT_GAME_PORTS") (codes "25565")
  loaded (record {
    max_servers = max_servers;
    cpu = cpu;
    memory = memory;
    storage = storage;
    game_ports = ports;
    control_plane_namespace = or_default (getenv env (codes "TENANT_CONTROLPLANE_NAMESPACE"));
  })

abbrev pub no_ports : List ℤ → Bool
no_ports [] = true
no_ports (p ∷ ps) = false

abbrev is_zero : ℤ → Bool
is_zero (pos n) = n == 0
is_zero (negsuc n) = false

-- A config whose fields all are zero gets the defaults of `LoadConfig`.
unfoldable pub with_defaults : Config → Config
with_defaults c =
    if is_nil c.cpu
      && (is_nil c.memory
          && (is_nil c.storage
              && (is_zero c.max_servers
                  && (no_ports c.game_ports && is_nil c.control_plane_namespace))))
    then record {
      max_servers = default_max_servers;
      cpu = codes "8";
      memory = codes "32Gi";
      storage = codes "200Gi";
      game_ports = pos 25565 ∷ [];
      control_plane_namespace = default_control_plane_namespace;
    }
    else record c { control_plane_namespace = or_default c.control_plane_namespace }

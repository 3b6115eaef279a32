-- ===== src/Tenant/Loaded.antt =====
-- What a configuration that was loaded satisfies, internal/controlplane/tenant/tenant.go.
use minato.Prelude.{
  ◌≤◌, ◌≡◌, ◌≢◌, refl, sym, ap, ◌⊎◌, inl, inr, Bool, true, false, ◌||◌, List, [], ◌∷◌, ℤ, pos,
  negsuc, codes, Bytes, bytes_eq, is_nil, trim_space, split, atoi, arith, Bool-cases, Option-cases,
  All, String, subst,
}
use minato.Tenant.Config.{
  Environment, Config, Loaded, loaded, rejected, ◌>>=◌, env_int, quantity_of, env_quantity, port_of,
  port_part, ports_of, env_ports, or_default, non_negative, load_config, with_defaults, or_unset,
  comma,
}
use minato.Tenant.Policy.{built, panics, quantity_entry, hard_of, build_resource_quota, Quantity}

abbrev pub IsPort : ℤ → Type 0
IsPort (pos n) = (1 ≤ n) × (n ≤ 65535)
IsPort (negsuc n) = ⊥

abbrev pub IsNonNegative : ℤ → Type 0
IsNonNegative (pos n) = Unit {0}
IsNonNegative (negsuc n) = ⊥

-- Empty, or a quantity.
abbrev pub IsConstraint : (Bytes → Bool) → Bytes → Type 0
IsConstraint is_quantity v = (is_nil v ≡ true) ⊎ (is_quantity v ≡ true)

pub record IsLoaded (is_quantity : Bytes → Bool) (c : Config) : Type 0 where
  pub servers : IsNonNegative c.max_servers
  pub cpu : IsConstraint is_quantity c.cpu
  pub memory : IsConstraint is_quantity c.memory
  pub storage : IsConstraint is_quantity c.storage
  pub ports : All IsPort c.game_ports
  pub named : is_nil c.control_plane_namespace ≡ false

bind-loaded :
    {A B : Type 0} (read : Loaded A) (next : A → Loaded B) {result : B}
    → (read >>= next) ≡ loaded result
    → (value : A) × (read ≡ loaded value) × (next value ≡ loaded result)
bind-loaded (rejected e) next h = absurd (cc h)
bind-loaded (loaded value) next h = (value, refl, h)

loaded_injective : {A : Type 0} (a b : A) → loaded a ≡ loaded b → a ≡ b
loaded_injective a b h = ap (λ r. elim r [ loaded x ↦ x | rejected e ↦ a ]) h

non_negative-IsNonNegative : (n m : ℤ) → non_negative n ≡ loaded m → IsNonNegative m
unfolding non_negative
non_negative-IsNonNegative (pos n) (pos m) h = tt
non_negative-IsNonNegative (pos n) (negsuc m) h = absurd (ground (arith, h))
non_negative-IsNonNegative (negsuc n) m h = absurd (ground (arith, h))

port_of-IsPort : (n m : ℤ) → port_of n ≡ loaded m → IsPort m
unfolding port_of
port_of-IsPort (pos n) (pos m) h = ground (arith, h)
port_of-IsPort (pos n) (negsuc m) h = absurd (ground (arith, h))
port_of-IsPort (negsuc n) m h = absurd (ground (arith, h))

port_part-IsPort : (part : Bytes) (m : ℤ) → port_part part ≡ loaded m → IsPort m
unfolding port_part
port_part-IsPort part m h = elim (Option-cases (atoi part)) [
  | inl e ↦ absurd (cc (rw (port_part, e) at h))
  | inr (n, e) ↦ port_of-IsPort n m (rw (port_part, e) at h)
]

ports_of-IsPort :
    (parts : List Bytes) (ports : List ℤ) → ports_of parts ≡ loaded ports → All IsPort ports
unfolding ports_of
ports_of-IsPort [] ports h = subst (All IsPort) (loaded_injective [] ports h) tt
ports_of-IsPort (part ∷ parts) ports h = elim (Bool-cases (is_nil (trim_space part))) [
  | inl blank ↦ ports_of-IsPort parts ports (rw blank at h)
  | inr full ↦
      let (n, e, f) = bind-loaded (port_part (trim_space part)) _ (rw full at h) in
      let (ns, g, k) = bind-loaded (ports_of parts) _ f in
      subst (All IsPort) (loaded_injective (n ∷ ns) ports k)
        (port_part-IsPort (trim_space part) n e, ports_of-IsPort parts ns g)
]

env_ports-IsPort :
    (env : Environment) (key fallback : Bytes) (ports : List ℤ)
    → env_ports env key fallback ≡ loaded ports
    → All IsPort ports
unfolding env_ports
env_ports-IsPort env key fallback ports h =
    elim (Bool-cases (is_nil (trim_space (or_unset (env key) fallback)))) [
      | inl blank ↦ subst (All IsPort) (loaded_injective [] ports (rw blank at h)) tt
      | inr full ↦
          ports_of-IsPort (split comma (trim_space (or_unset (env key) fallback))) ports
            (rw full at h)
    ]

quantity_of-IsConstraint :
    (q : Bytes → Bool) (v r : Bytes) → quantity_of q v ≡ loaded r → IsConstraint q r
unfolding quantity_of
quantity_of-IsConstraint q v r h = elim (Bool-cases (is_nil v || bytes_eq v (codes "0"))) [
  | inl off ↦ inl (ap is_nil (sym (loaded_injective [] r (rw off at h))))
  | inr on ↦ elim (Bool-cases (q v)) [
    | inl good ↦ inr (rw (sym (loaded_injective v r (rw (on, good) at h))) good)
    | inr bad ↦ absurd (cc (rw (on, bad) at h))
  ]
]

or_default-named : (v : Bytes) → is_nil (or_default v) ≡ false
or_default-named [] = refl
or_default-named (c ∷ v) = refl

-- A configuration that is read from the environment without an error has a number of servers that is
-- not negative, quotas that are empty or quantities, ports from 1 to 65535 and a namespace of the
-- control plane.
pub load_config-IsLoaded :
    (is_quantity : Bytes → Bool) (env : Environment) (cfg : Config)
    → load_config is_quantity env ≡ loaded cfg
    → IsLoaded is_quantity cfg
unfolding load_config env_quantity
load_config-IsLoaded q env cfg h =
    let (n, e0, h0) = bind-loaded (env_int env (codes "TENANT_QUOTA_MAX_SERVERS") (pos 10)) _ h in
    let (servers, e1, h1) = bind-loaded (non_negative n) _ h0 in
    let (cpu, e2, h2) =
      bind-loaded (env_quantity q env (codes "TENANT_QUOTA_CPU") (codes "8")) _ h1 in
    let (memory, e3, h3) =
      bind-loaded (env_quantity q env (codes "TENANT_QUOTA_MEMORY") (codes "32Gi")) _ h2 in
    let (storage, e4, h4) =
      bind-loaded (env_quantity q env (codes "TENANT_QUOTA_STORAGE") (codes "200Gi")) _ h3 in
    let (ports, e5, h5) =
      bind-loaded (env_ports env (codes "TENANT_GAME_PORTS") (codes "25565")) _ h4 in
    subst (IsLoaded q) (loaded_injective _ cfg h5) (record {
      servers = non_negative-IsNonNegative n servers e1;
      cpu = quantity_of-IsConstraint q _ cpu e2;
      memory = quantity_of-IsConstraint q _ memory e3;
      storage = quantity_of-IsConstraint q _ storage e4;
      ports = env_ports-IsPort env _ _ ports e5;
      named = or_default-named (or_unset (env (codes "TENANT_CONTROLPLANE_NAMESPACE")) []);
    })

pub with_defaults_loaded :
    (c : Config) → is_nil c.control_plane_namespace ≡ false → with_defaults c ≡ c
unfolding with_defaults
with_defaults_loaded c h = ground (arith, h)

entry_built :
    (q : Bytes → Bool) (name : String) (v : Bytes)
    → IsConstraint q v
    → (e : List (String × Quantity)) × (quantity_entry q name v ≡ built e)
unfolding quantity_entry
entry_built q name v (inl off) = ([], rw off refl)
entry_built q name v (inr good) = elim (Bool-cases (is_nil v)) [
  | inl off ↦ ([], rw off refl)
  | inr on ↦ ((name, Quantity.parsed v) ∷ [], rw (on, good) refl)
]

pub no_quota_panic :
    (q : Bytes → Bool) (namespace : Bytes) (c : Config)
    → IsLoaded q c
    → build_resource_quota q namespace c ≢ panics
unfolding build_resource_quota hard_of
no_quota_panic q namespace c l =
    let (a, e) = entry_built q "requests.cpu" c.cpu l.cpu in
    let (b, f) = entry_built q "requests.memory" c.memory l.memory in
    let (d, g) = entry_built q "requests.storage" c.storage l.storage in λ h. cc (rw (e, f, g) at h)

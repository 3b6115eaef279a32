-- ===== src/Webhook/GameProfile.antt =====
-- The validation of game profiles, internal/webhook/gameprofile_webhook.go. The quantities of
-- Kubernetes are a parameter: a type, `resource.ParseQuantity` and `Cmp`.
use minato.Prelude.{
  ℕ, suc, Bool, true, false, not, ◌&&◌, ◌||◌, List, [], ◌∷◌, Option, none, some, if◌then◌else◌, ℤ,
  pos, ltb, leb, ltb_ℤ, ◌==◌, String, ◌⧺◌, itoa, quote, codes, Bytes, str_eq, length, is_none,
}
use minato.Api.Meta.{lookup}
use minato.Api.GameProfile.{GameProfile, PortSpec, StorageSpec, ResourcesSpec, ResourceRequirements}

-- A quantity, or the message of the error.
pub data Parsed (Q : Type 0) : Type 0 where
  quantity : Q → Parsed Q
  invalid : String → Parsed Q

pub record Quantities : Type 1 where
  pub Quantity : Type 0
  pub parse : String → Parsed Quantity
  pub cmp : Quantity → Quantity → ℤ

-- An early return: the first error, or what the rest of the function returns.
abbrev pub or_else : Option String → Option String → Option String
or_else none rest = rest
or_else (some e) rest = some e

unfoldable pub required : String → String → Option String
required v field = if str_eq v "" then some (field ⧺ " is required") else none

abbrev port_field : ℕ → String → String
port_field i field = "spec.ports[" ⧺ itoa i ⧺ "]." ⧺ field

unfoldable pub validate_port : ℕ → PortSpec → Option String
unfolding required
validate_port i port = or_else (required port.name (port_field i "name")) (
    if not (ltb_ℤ (pos 0) port.container_port) || ltb_ℤ (pos 65535) port.container_port
    then some (port_field i "containerPort" ⧺ " must be between 1 and 65535")
    else none)

unfoldable pub validate_ports : ℕ → List PortSpec → Option String
validate_ports i [] = none
validate_ports i (port ∷ ports) = or_else (validate_port i port) (validate_ports (suc i) ports)

abbrev pub is_alphanumeric : ℕ → Bool
is_alphanumeric c = (leb b'a' c && leb c b'z') || (leb b'0' c && leb c b'9')

-- `[-a-z0-9]*[a-z0-9]`.
unfoldable pub ends_alphanumeric : Bytes → Bool
ends_alphanumeric [] = false
ends_alphanumeric (c ∷ []) = is_alphanumeric c
ends_alphanumeric (c ∷ d ∷ s) = (c == b'-' || is_alphanumeric c) && ends_alphanumeric (d ∷ s)

-- `^[a-z0-9]([-a-z0-9]*[a-z0-9])?$`.
unfoldable pub tier_name_pattern : Bytes → Bool
unfolding ends_alphanumeric
tier_name_pattern [] = false
tier_name_pattern (c ∷ []) = is_alphanumeric c
tier_name_pattern (c ∷ d ∷ s) = is_alphanumeric c && ends_alphanumeric (d ∷ s)

unfoldable pub tier_name_error : Bytes → Bool
tier_name_error name = ltb 32 (length name) || not (tier_name_pattern name)

-- The loop over the map of tiers, in the order in which Go visits it.
unfoldable pub validate_tier_names : List (String × ResourceRequirements) → Option String
validate_tier_names [] = none
validate_tier_names ((name, r) ∷ tiers) =
    let rest = validate_tier_names tiers in
    if tier_name_error (codes name)
    then some (
        "spec.resources.tiers["
        ⧺ quote name
        ⧺ "]: tier names must be lowercase alphanumeric or dashes, max 32 characters")
    else rest

unfoldable pub validate_default_tier : ResourcesSpec → Option String
validate_default_tier s =
    if str_eq s.default ""
    then some "spec.resources.default is required when spec.resources.tiers is set"
    else if is_none (lookup s.default s.tiers)
    then some ("spec.resources.default " ⧺ quote s.default ⧺ " must name an existing tier")
    else none

unfoldable pub no_tiers : List (String × ResourceRequirements) → Bool
no_tiers [] = true
no_tiers (t ∷ ts) = false

unfoldable pub validate_resource_tiers : ResourcesSpec → Option String
unfolding no_tiers validate_tier_names validate_default_tier
validate_resource_tiers s =
    if no_tiers s.tiers
    then (if not (str_eq s.default "")
        then some (
            "spec.resources.default "
            ⧺ quote s.default
            ⧺ " has no matching tier: spec.resources.tiers is empty")
        else none)
    else or_else (validate_tier_names s.tiers) (validate_default_tier s)

module _ (k : Quantities) where
  open k use {Quantity, parse, cmp}

  abbrev not_a_quantity : String → String → String → String
  not_a_quantity field v e = field ⧺ " " ⧺ quote v ⧺ " is not a valid quantity: " ⧺ e

  unfoldable pub validate_min : Quantity → StorageSpec → Option String
  validate_min size s = if str_eq s.size_min "" then none else elim (parse s.size_min) [
    | invalid e ↦ some (not_a_quantity "spec.storage.sizeMin" s.size_min e)
    | quantity least ↦
        if ltb_ℤ (cmp size least) (pos 0)
        then some (
            "spec.storage.sizeDefault "
            ⧺ quote s.size_default
            ⧺ " is below sizeMin "
            ⧺ quote s.size_min)
        else none
  ]

  -- The minimum was parsed before without an error.
  unfoldable pub validate_range : Quantity → StorageSpec → Option String
  validate_range greatest s = if str_eq s.size_min "" then none else elim (parse s.size_min) [
    | invalid e ↦ none
    | quantity least ↦
        if ltb_ℤ (pos 0) (cmp least greatest)
        then some
            ("spec.storage.sizeMin " ⧺ quote s.size_min ⧺ " exceeds sizeMax " ⧺ quote s.size_max)
        else none
  ]

  unfoldable pub validate_max : Quantity → StorageSpec → Option String
  validate_max size s = if str_eq s.size_max "" then none else elim (parse s.size_max) [
    | invalid e ↦ some (not_a_quantity "spec.storage.sizeMax" s.size_max e)
    | quantity greatest ↦
        if ltb_ℤ (pos 0) (cmp size greatest)
        then some (
            "spec.storage.sizeDefault "
            ⧺ quote s.size_default
            ⧺ " exceeds sizeMax "
            ⧺ quote s.size_max)
        else validate_range greatest s
  ]

  unfoldable pub validate_storage_sizes : StorageSpec → Option String
  validate_storage_sizes s = elim (parse s.size_default) [
    | invalid e ↦ some (not_a_quantity "spec.storage.sizeDefault" s.size_default e)
    | quantity size ↦ or_else (validate_min size s) (validate_max size s)
  ]

  -- The error with which a create or an update is refused, if any.
  unfoldable pub validate_game_profile : GameProfile → Option String
  validate_game_profile profile = or_else (required profile.spec.image "spec.image") (
      or_else (required profile.spec.display_name "spec.displayName") (
        or_else (required profile.spec.storage.mount_path "spec.storage.mountPath") (
          or_else (required profile.spec.storage.size_default "spec.storage.sizeDefault") (
            or_else (required profile.spec.agent.image "spec.agent.image") (
              or_else (validate_ports 0 profile.spec.ports) (
                or_else (validate_resource_tiers profile.spec.resources)
                  (validate_storage_sizes profile.spec.storage)))))))

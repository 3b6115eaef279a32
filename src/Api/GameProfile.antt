-- ===== src/Api/GameProfile.antt =====
-- api/operator/v1/gameprofile_types.go.
use minato.Prelude.{ℤ, String, Bool, Option, none, some, List, str_eq, if◌then◌else◌}
use minato.Api.Meta.{ObjectMeta, Condition, lookup}
use minato.Api.GameServer.{unset_or_true}
use minato.Api.ActionExecution.{ActionDecl}

pub record AgentSpec : Type 0 where
  pub image : String
  pub version : String

pub record PortSpec : Type 0 where
  pub name : String
  pub container_port : ℤ
  pub protocol : String
  pub exposed : Option Bool

-- A port is exposed unless the profile says otherwise.
unfoldable pub exposed_port : PortSpec → Bool
exposed_port p = unset_or_true p.exposed

pub record EnvironmentSpec : Type 0 where
  pub key : String
  pub default : String
  pub required : Bool
  pub description : String

pub record StorageSpec : Type 0 where
  pub mount_path : String
  pub size_default : String
  pub size_min : String
  pub size_max : String

pub record CapabilitiesSpec : Type 0 where
  pub files : Bool
  pub sftp : Bool
  pub backup : Bool
  pub restore_from_snapshot : Bool

pub record AgentMetricsSpec : Type 0 where
  pub port : ℤ
  pub path : String

pub record ServiceMonitorSpec : Type 0 where
  pub enabled : Bool
  pub interval : String

pub record ObservabilitySpec : Type 0 where
  pub agent_metrics : Option AgentMetricsSpec
  pub service_monitor : Option ServiceMonitorSpec

-- Resource requirements are passed through unread: their text stands for them.
abbrev pub ResourceRequirements : Type 0
ResourceRequirements = String

pub record ResourcesSpec : Type 0 where
  pub requirements : ResourceRequirements
  pub tiers : List (String × ResourceRequirements)
  pub default : String

-- The requirements of a tier: those of the named tier, of the default tier where none is named, and
-- the flat ones where there is no such tier.
unfoldable pub for_tier : ResourcesSpec → String → ResourceRequirements
unfolding lookup
for_tier s tier = elim (lookup (if str_eq tier "" then s.default else tier) s.tiers) [
  | none ↦ s.requirements
  | some r ↦ r
]

pub record GameProfileSpec : Type 0 where
  pub display_name : String
  pub category : String
  pub icon : String
  pub description : String
  pub image : String
  pub image_pull_policy : String
  pub ports : List PortSpec
  pub environment : List EnvironmentSpec
  pub resources : ResourcesSpec
  pub storage : StorageSpec
  pub agent : AgentSpec
  pub actions : List ActionDecl
  pub capabilities : Option CapabilitiesSpec
  pub observability : Option ObservabilitySpec

pub record GameProfile : Type 0 where
  pub metadata : ObjectMeta
  pub spec : GameProfileSpec
  pub conditions : List Condition

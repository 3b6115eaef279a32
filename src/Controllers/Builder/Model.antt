-- ===== src/Controllers/Builder/Model.antt =====
-- The parts of a pod specification that internal/controllers/builder fills in.
use minato.Prelude.{ℤ, String, Bool, false, Option, List}
use minato.Api.Meta.{StringMap}
use minato.Api.GameServer.{TopologySpreadConstraint}
use minato.Api.GameProfile.{GameProfile, ResourceRequirements}

pub record ContainerPort : Type 0 where
  pub name : String
  pub container_port : ℤ
  pub protocol : String

pub record VolumeMount : Type 0 where
  pub name : String
  pub mount_path : String
  pub read_only : Bool

pub record SecurityContext : Type 0 where
  pub run_as_non_root : Bool
  pub run_as_user : ℤ
  pub run_as_group : ℤ
  pub allow_privilege_escalation : Bool
  pub read_only_root_filesystem : Bool
  pub dropped_capabilities : List String
  pub seccomp_profile : String

-- None, those of the profile, or requests and limits that are written out.
pub data Resources : Type 0 where
  no_resources : Resources
  of_profile : ResourceRequirements → Resources
  explicit : StringMap → StringMap → Resources

-- The readiness probe is the port of a TCP check.
pub record Container : Type 0 where
  pub name : String
  pub image : String
  pub command : List String
  pub ports : List ContainerPort
  pub working_dir : String
  pub env : StringMap
  pub resources : Resources
  pub security_context : Option SecurityContext
  pub readiness_probe : Option ℤ
  pub volume_mounts : List VolumeMount

-- A secret is mounted with the listed keys, each under its own name.
pub data VolumeSource : Type 0 where
  secret_volume : String → List String → VolumeSource
  empty_dir : VolumeSource
  claim_volume : String → VolumeSource

pub record Volume : Type 0 where
  pub name : String
  pub source : VolumeSource

pub record PodSecurityContext : Type 0 where
  pub fs_group : ℤ
  pub fs_group_change_policy : String

pub record PodSpec : Type 0 where
  pub containers : List Container
  pub volumes : List Volume
  pub image_pull_secrets : List String
  pub priority_class_name : String
  pub topology_spread_constraints : List TopologySpreadConstraint
  pub security_context : Option PodSecurityContext

abbrev pub data_volume_name : String
data_volume_name = "data"

abbrev pub data_mount : GameProfile → VolumeMount
data_mount profile = record {
  name = data_volume_name;
  mount_path = profile.spec.storage.mount_path;
  read_only = false;
}

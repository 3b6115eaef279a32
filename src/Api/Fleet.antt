-- ===== src/Api/Fleet.antt =====
-- api/operator/v1/gameserverfleet_types.go.
use minato.Prelude.{ℤ, String, Option, List}
use minato.Api.Meta.{StringMap, ObjectMeta, Condition}
use minato.Api.GameServer.{TopologySpreadConstraint}

pub record RollingUpdateSpec : Type 0 where
  pub max_unavailable : Option ℤ
  pub max_surge : Option ℤ
  pub drain_timeout_seconds : ℤ

pub record FleetUpdateStrategy : Type 0 where
  pub type : String
  pub rolling_update : Option RollingUpdateSpec

pub record GameServerTemplateMetadata : Type 0 where
  pub labels : StringMap
  pub annotations : StringMap

pub record FleetGameServerSpec : Type 0 where
  pub env : StringMap

pub record GameServerTemplateSpec : Type 0 where
  pub metadata : GameServerTemplateMetadata
  pub spec : FleetGameServerSpec

pub record GameServerFleetSpec : Type 0 where
  pub profile : String
  pub replicas : ℤ
  pub template : GameServerTemplateSpec
  pub update_strategy : FleetUpdateStrategy
  pub priority_class_name : String
  pub topology_spread_constraints : List TopologySpreadConstraint

pub record GameServerFleetStatus : Type 0 where
  pub replicas : ℤ
  pub ready_replicas : ℤ
  pub updated_replicas : ℤ
  pub conditions : List Condition

pub record GameServerFleet : Type 0 where
  pub metadata : ObjectMeta
  pub spec : GameServerFleetSpec
  pub status : GameServerFleetStatus

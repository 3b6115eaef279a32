-- ===== src/Api/GameServer.antt =====
-- api/operator/v1/gameserver_types.go.
use minato.Prelude.{ℕ, ℤ, String, Bool, true, Option, none, some, List}
use minato.Api.Meta.{StringMap, ObjectMeta, Condition}

pub record LifecycleSpec : Type 0 where
  pub idle_timeout_seconds : ℤ
  pub auto_start : Option Bool

-- `*s.AutoStart`, and true where it is unset.
abbrev pub unset_or_true : Option Bool → Bool
unset_or_true none = true
unset_or_true (some b) = b

unfoldable pub auto_start_enabled : LifecycleSpec → Bool
auto_start_enabled s = unset_or_true s.auto_start

pub record SnapshotRef : Type 0 where
  pub name : String
  pub namespace : String

pub record GameServerStorage : Type 0 where
  pub size : String
  pub storage_class : String
  pub snapshot_ref : Option SnapshotRef

-- A topology spread constraint is passed through unread: its text stands for it.
abbrev pub TopologySpreadConstraint : Type 0
TopologySpreadConstraint = String

pub record GameServerSpec : Type 0 where
  pub profile : String
  pub tier : String
  pub env : StringMap
  pub storage : GameServerStorage
  pub lifecycle : LifecycleSpec
  pub priority_class_name : String
  pub topology_spread_constraints : List TopologySpreadConstraint
  pub load_balancer_ip : String

pub record Endpoint : Type 0 where
  pub name : String
  pub address : String
  pub port : ℤ

-- The values of `status.state`: unset, or one that the controller writes.
pub data ServerState : Type 0 where
  unset provisioning running idle stopped error : ServerState

pub record GameServerStatus : Type 0 where
  pub state : ServerState
  pub agent_version : String
  pub players : ℤ
  pub player_capacity : ℤ
  pub last_activity : Option ℕ
  pub endpoints : List Endpoint
  pub conditions : List Condition

pub record GameServer : Type 0 where
  pub metadata : ObjectMeta
  pub spec : GameServerSpec
  pub status : GameServerStatus

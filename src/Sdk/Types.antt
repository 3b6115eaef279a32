-- ===== src/Sdk/Types.antt =====
-- The types of the client, sdk/controlplane/client.go (`Sdk…`), and those of the generated code,
-- sdk/controlplane/gen/client.go (`Gen…`), with the fields that the conversions read or write. A pointer
-- is an option, and so is a map, since Go tells a nil map from an empty one. Times are nanoseconds.
use minato.Prelude.{ℕ, ℤ, String, Bool, Option, List}
use minato.Api.Meta.{StringMap, Entries}

pub record SdkObjectMeta : Type 0 where
  pub name : String
  pub namespace : String
  pub labels : Option StringMap

pub record SdkSnapshotRef : Type 0 where
  pub name : String
  pub namespace : String

pub record SdkStorage : Type 0 where
  pub size : String
  pub storage_class : String
  pub snapshot_ref : Option SdkSnapshotRef

pub record SdkLifecycle : Type 0 where
  pub idle_timeout_seconds : ℤ
  pub auto_start : Bool

pub record SdkGameServerSpec : Type 0 where
  pub profile : String
  pub env : Option StringMap
  pub storage : SdkStorage
  pub lifecycle : SdkLifecycle
  pub load_balancer_ip : String

pub record SdkEndpoint : Type 0 where
  pub name : String
  pub address : String
  pub port : ℤ

pub record SdkGameServerStatus : Type 0 where
  pub state : String
  pub agent_version : String
  pub players : ℤ
  pub player_capacity : ℤ
  pub endpoints : List SdkEndpoint

pub record SdkGameServer : Type 0 where
  pub api_version : String
  pub kind : String
  pub metadata : SdkObjectMeta
  pub spec : SdkGameServerSpec
  pub status : SdkGameServerStatus

pub record ActionParam : Type 0 where
  pub type : String
  pub required : Bool
  pub default : String

pub record SdkAction : Type 0 where
  pub name : String
  pub description : String
  pub concurrency : String
  pub timeout : String
  pub params : Option (Entries ActionParam)

pub record SdkGameProfile : Type 0 where
  pub metadata : SdkObjectMeta
  pub display_name : String
  pub image : String
  pub actions : List SdkAction

pub record SdkFleet : Type 0 where
  pub metadata : SdkObjectMeta
  pub profile : String
  pub replicas : ℤ
  pub status_replicas : ℤ
  pub ready_replicas : ℤ
  pub updated_replicas : ℤ
  pub available_replicas : ℤ

pub record SdkExecution : Type 0 where
  pub metadata : SdkObjectMeta
  pub action_name : String
  pub caller : String
  pub params : Option StringMap
  pub state : String
  pub result : String
  pub error : String
  pub started_at : Option ℕ
  pub completed_at : Option ℕ

pub record SdkSnapshot : Type 0 where
  pub metadata : SdkObjectMeta
  pub game_server_ref : String
  pub schedule : String
  pub state : String
  pub ready_at : Option ℕ
  pub size : String

pub record GenObjectMeta : Type 0 where
  pub labels : Option StringMap
  pub name : Option String
  pub namespace : Option String

pub record GenSnapshotRef : Type 0 where
  pub name : Option String
  pub namespace : Option String

pub record GenStorage : Type 0 where
  pub size : Option String
  pub snapshot_ref : Option GenSnapshotRef
  pub storage_class : Option String

pub record GenLifecycle : Type 0 where
  pub auto_start : Option Bool
  pub idle_timeout_seconds : Option ℤ

pub record GenGameServerSpec : Type 0 where
  pub env : Option StringMap
  pub lifecycle : Option GenLifecycle
  pub load_balancer_ip : Option String
  pub profile : Option String
  pub storage : Option GenStorage

pub record GenEndpoint : Type 0 where
  pub address : Option String
  pub name : Option String
  pub port : Option ℤ

pub record GenGameServerStatus : Type 0 where
  pub agent_version : Option String
  pub endpoints : Option (List GenEndpoint)
  pub player_capacity : Option ℤ
  pub players : Option ℤ
  pub state : Option String

pub record GenGameServer : Type 0 where
  pub api_version : Option String
  pub kind : Option String
  pub metadata : Option GenObjectMeta
  pub spec : Option GenGameServerSpec
  pub status : Option GenGameServerStatus

pub record GenActionParam : Type 0 where
  pub default : Option String
  pub required : Option Bool
  pub type : Option String

pub record GenAction : Type 0 where
  pub concurrency : Option String
  pub description : Option String
  pub name : Option String
  pub params : Option (Entries GenActionParam)
  pub timeout : Option String

pub record GenProfileSpec : Type 0 where
  pub actions : Option (List GenAction)
  pub display_name : Option String
  pub image : Option String

pub record GenGameProfile : Type 0 where
  pub metadata : Option GenObjectMeta
  pub spec : Option GenProfileSpec

pub record GenFleetSpec : Type 0 where
  pub profile : Option String
  pub replicas : Option ℤ

pub record GenFleetStatus : Type 0 where
  pub available_replicas : Option ℤ
  pub ready_replicas : Option ℤ
  pub replicas : Option ℤ
  pub updated_replicas : Option ℤ

pub record GenFleet : Type 0 where
  pub metadata : Option GenObjectMeta
  pub spec : Option GenFleetSpec
  pub status : Option GenFleetStatus

pub record GenExecutionSpec : Type 0 where
  pub action_name : Option String
  pub caller : Option String
  pub params : Option StringMap

pub record GenExecutionStatus : Type 0 where
  pub completed_at : Option ℕ
  pub error : Option String
  pub result : Option String
  pub started_at : Option ℕ
  pub state : Option String

pub record GenExecution : Type 0 where
  pub metadata : Option GenObjectMeta
  pub spec : Option GenExecutionSpec
  pub status : Option GenExecutionStatus

pub record GenSnapshotSpec : Type 0 where
  pub game_server_ref : Option String
  pub schedule : Option String

pub record GenSnapshotStatus : Type 0 where
  pub ready_at : Option ℕ
  pub size : Option String
  pub state : Option String

pub record GenSnapshot : Type 0 where
  pub metadata : Option GenObjectMeta
  pub spec : Option GenSnapshotSpec
  pub status : Option GenSnapshotStatus

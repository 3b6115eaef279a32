-- ===== src/Sdk/Objects.antt =====
-- The conversions of actions, profiles, snapshots, fleets and executions, sdk/controlplane/client.go.
use minato.Prelude.{String, Option, none, some, map}
use minato.Sdk.Types.{
  ActionParam, SdkAction, SdkGameProfile, SdkFleet, SdkExecution, SdkSnapshot, GenActionParam,
  GenAction, GenProfileSpec, GenGameProfile, GenFleetSpec, GenFleetStatus, GenFleet,
  GenExecutionSpec, GenExecutionStatus, GenExecution, GenSnapshotSpec, GenSnapshotStatus,
  GenSnapshot,
}
use minato.Sdk.Convert.{deref, int_or_zero, or_false, or_nil, from_gen_meta, option_map}

unfoldable pub from_gen_param : String × GenActionParam → String × ActionParam
unfolding deref or_false
from_gen_param (key, p) =
    (key, record { type = deref p.type; required = or_false p.required; default = deref p.default })

unfoldable pub from_gen_action : GenAction → SdkAction
unfolding deref from_gen_param
from_gen_action a = record {
  name = deref a.name;
  description = deref a.description;
  concurrency = deref a.concurrency;
  timeout = deref a.timeout;
  params = option_map (map from_gen_param) a.params;
}

-- A spec of which no field is set stands for none.
abbrev spec_of : Option GenProfileSpec → GenProfileSpec
spec_of none = record { actions = none; display_name = none; image = none }
spec_of (some s) = s

unfoldable pub from_gen_profile : GenGameProfile → SdkGameProfile
unfolding deref from_gen_meta from_gen_action
from_gen_profile p = record {
  metadata = from_gen_meta p.metadata;
  display_name = deref (spec_of p.spec).display_name;
  image = deref (spec_of p.spec).image;
  actions = map from_gen_action (or_nil (spec_of p.spec).actions);
}

abbrev snapshot_spec : Option GenSnapshotSpec → GenSnapshotSpec
snapshot_spec none = record { game_server_ref = none; schedule = none }
snapshot_spec (some s) = s

abbrev snapshot_status : Option GenSnapshotStatus → GenSnapshotStatus
snapshot_status none = record { ready_at = none; size = none; state = none }
snapshot_status (some s) = s

unfoldable pub from_gen_snapshot : GenSnapshot → SdkSnapshot
unfolding deref from_gen_meta
from_gen_snapshot s = record {
  metadata = from_gen_meta s.metadata;
  game_server_ref = deref (snapshot_spec s.spec).game_server_ref;
  schedule = deref (snapshot_spec s.spec).schedule;
  state = deref (snapshot_status s.status).state;
  ready_at = (snapshot_status s.status).ready_at;
  size = deref (snapshot_status s.status).size;
}

abbrev fleet_spec : Option GenFleetSpec → GenFleetSpec
fleet_spec none = record { profile = none; replicas = none }
fleet_spec (some s) = s

abbrev fleet_status : Option GenFleetStatus → GenFleetStatus
fleet_status none = record {
  available_replicas = none;
  ready_replicas = none;
  replicas = none;
  updated_replicas = none;
}
fleet_status (some s) = s

unfoldable pub from_gen_fleet : GenFleet → SdkFleet
unfolding deref int_or_zero from_gen_meta
from_gen_fleet f = record {
  metadata = from_gen_meta f.metadata;
  profile = deref (fleet_spec f.spec).profile;
  replicas = int_or_zero (fleet_spec f.spec).replicas;
  status_replicas = int_or_zero (fleet_status f.status).replicas;
  ready_replicas = int_or_zero (fleet_status f.status).ready_replicas;
  updated_replicas = int_or_zero (fleet_status f.status).updated_replicas;
  available_replicas = int_or_zero (fleet_status f.status).available_replicas;
}

abbrev execution_spec : Option GenExecutionSpec → GenExecutionSpec
execution_spec none = record { action_name = none; caller = none; params = none }
execution_spec (some s) = s

abbrev execution_status : Option GenExecutionStatus → GenExecutionStatus
execution_status none = record {
  completed_at = none;
  error = none;
  result = none;
  started_at = none;
  state = none;
}
execution_status (some s) = s

unfoldable pub from_gen_execution : GenExecution → SdkExecution
unfolding deref from_gen_meta
from_gen_execution e = record {
  metadata = from_gen_meta e.metadata;
  action_name = deref (execution_spec e.spec).action_name;
  caller = deref (execution_spec e.spec).caller;
  params = (execution_spec e.spec).params;
  state = deref (execution_status e.status).state;
  result = deref (execution_status e.status).result;
  error = deref (execution_status e.status).error;
  started_at = (execution_status e.status).started_at;
  completed_at = (execution_status e.status).completed_at;
}

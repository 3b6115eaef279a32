-- ===== src/Controllers/Fleet/Template.antt =====
-- What a fleet makes of its template: a new server, and the new version of an outdated one.
use minato.Prelude.{
  ℕ, ℤ, pos, negsuc, String, Bool, not, Option, none, some, [], ◌∷◌, str_eq, ◌⧺◌, itoa,
}
use minato.Api.Meta.{label, copy_into, insert}
use minato.Api.GameServer.{GameServer, ServerState}
use minato.Api.Fleet.{GameServerFleet, RollingUpdateSpec}
use minato.Controllers.Fleet.Model.{fleet_label, fleet_generation_label}

-- `%s-%d` of the fleet's name and the index.
unfoldable pub server_name : GameServerFleet → ℕ → String
server_name fleet index = fleet.metadata.name ⧺ "-" ⧺ itoa index

-- `buildGameServer`.
unfoldable pub build_game_server : GameServerFleet → ℕ → GameServer
unfolding server_name
build_game_server fleet index = record {
  metadata = record {
    name = server_name fleet index;
    namespace = fleet.metadata.namespace;
    generation = 0;
    creation_timestamp = 0;
    deletion_timestamp = 0;
    finalizers = [];
    labels =
        copy_into
          (("app.kubernetes.io/name", "minato")
            ∷ (fleet_label, fleet.metadata.name)
            ∷ ("minato.io/profile", fleet.spec.profile)
            ∷ ("minato.io/managed-by", "gameserverfleet")
            ∷ (fleet_generation_label, itoa fleet.metadata.generation)
            ∷ [])
          fleet.spec.template.metadata.labels;
    annotations = copy_into [] fleet.spec.template.metadata.annotations;
  };
  spec = record {
    profile = fleet.spec.profile;
    tier = "";
    env = fleet.spec.template.spec.env;
    storage = record { size = ""; storage_class = ""; snapshot_ref = none };
    lifecycle = record { idle_timeout_seconds = pos 0; auto_start = none };
    priority_class_name = fleet.spec.priority_class_name;
    topology_spread_constraints = fleet.spec.topology_spread_constraints;
    load_balancer_ip = "";
  };
  status = record {
    state = ServerState.unset;
    agent_version = "";
    players = pos 0;
    player_capacity = pos 0;
    last_activity = none;
    endpoints = [];
    conditions = [];
  };
}

-- A server that does not carry the fleet's generation.
unfoldable pub is_outdated : GameServerFleet → GameServer → Bool
is_outdated fleet server =
    not (
      str_eq (label fleet_generation_label server.metadata.labels) (itoa fleet.metadata.generation))

-- The new version of an outdated server in a rolling update.
unfoldable pub updated_server : GameServerFleet → GameServer → GameServer
updated_server fleet server = record server {
  metadata = record (server.metadata) {
    labels =
        copy_into
          (insert fleet_generation_label (itoa fleet.metadata.generation) server.metadata.labels)
          fleet.spec.template.metadata.labels;
    annotations = copy_into server.metadata.annotations fleet.spec.template.metadata.annotations;
  };
  spec = record (server.spec) {
    profile = fleet.spec.profile;
    env = copy_into server.spec.env fleet.spec.template.spec.env;
  };
}

abbrev pub max_unavailable_of : Option RollingUpdateSpec → ℤ
max_unavailable_of none = pos 1
max_unavailable_of (some r) = elim r.max_unavailable [ none ↦ pos 1 | some n ↦ n ]

unfoldable pub max_unavailable : GameServerFleet → ℤ
max_unavailable fleet = max_unavailable_of fleet.spec.update_strategy.rolling_update

-- The rounds of `for i := 0; i < availableSlots && …; i++`.
abbrev pub rounds : ℤ → ℕ
rounds (pos n) = n
rounds (negsuc n) = 0

-- ===== src/Controllers/GameServer/Status.antt =====
-- What GameServerReconciler writes into the status of a server,
-- internal/controllers/gameserver_controller.go.
use minato.Prelude.{ℕ, ℤ, pos, String, Bool, some, List, [], if◌then◌else◌, ◌⧺◌}
use minato.Cluster.{ApiErr, message}
use minato.Api.Meta.{Condition, ConditionStatus, condition_true, condition_false, condition_unknown}
use minato.Api.GameServer.{
  GameServer, GameServerStatus, Endpoint, ServerState, provisioning, running, stopped,
}
use minato.Controllers.Conditions.{set_condition, bool_to_condition_status}

abbrev condition_of : GameServer → String → ConditionStatus → String → String → ℕ → Condition
condition_of server type status reason text now = record {
  type = type;
  status = status;
  reason = reason;
  message = text;
  observed_generation = server.metadata.generation;
  last_transition_time = now;
}

abbrev pub with_status : GameServer → GameServerStatus → GameServer
with_status server status = record server { status = status }

-- `setProfileMissingCondition`, which leaves the time of the condition zero.
unfoldable pub with_profile_missing : GameServer → ApiErr → GameServer
with_profile_missing server e = with_status server (record (server.status) {
  state = ServerState.error;
  agent_version = "";
  conditions = set_condition server.status.conditions (
      condition_of server "Ready" condition_false "ProfileNotFound"
        ("profile not found: " ⧺ message e) 0);
})

-- `updateStoppedStatus`.
unfoldable pub with_stopped : ℕ → GameServer → GameServer
with_stopped now server = with_status server (record (server.status) {
  state = stopped;
  agent_version = "";
  endpoints = [];
  players = pos 0;
  conditions = set_condition server.status.conditions (
      condition_of server "Ready" condition_false "AutoStartDisabled"
        "server is stopped: spec.lifecycle.autoStart is false" now);
})

-- `updateStatus`, with the endpoints resolved.
unfoldable pub with_readiness : ℕ → Bool → List Endpoint → GameServer → GameServer
with_readiness now is_ready endpoints server =
    let ready =
      condition_of server "Ready" (bool_to_condition_status is_ready) "StatefulSetReady" "" now in
    let agent =
      condition_of server "AgentReachable" condition_unknown "NotProbed"
        "agent reachability not yet implemented" now in
    with_status server (record (server.status) {
      state = if is_ready then running else provisioning;
      agent_version = "";
      endpoints = endpoints;
      conditions = set_condition (set_condition server.status.conditions ready) agent;
    })

-- `updateAgentStatus`.
unfoldable pub with_agent : ℕ → String → Bool → GameServer → GameServer
with_agent now version healthy server =
    let condition =
      if healthy
      then condition_of server "AgentReachable" condition_true "AgentHealthy"
          "agent is reachable and healthy" now
      else condition_of server "AgentReachable" condition_false "AgentUnhealthy"
          "agent is not healthy" now in
    with_status server (record (server.status) {
      agent_version = version;
      conditions = set_condition server.status.conditions condition;
    })

-- The players that `checkIdleTimeout` writes.
unfoldable pub with_players : ℤ × ℤ → GameServer → GameServer
with_players (online, capacity) server =
    with_status server (record (server.status) { players = online; player_capacity = capacity })

unfoldable pub with_activity : ℕ → GameServer → GameServer
with_activity now server = with_status server (record (server.status) { last_activity = some now })

unfoldable pub with_state : ServerState → GameServer → GameServer
with_state state server = with_status server (record (server.status) { state = state })

-- ===== src/Controllers/Fleet/Status.antt =====
-- The status that GameServerFleetReconciler reports, and the drain budget of a fleet:
-- `updateStatus` and `drainServer` of internal/controllers/gameserverfleet_controller.go.
use minato.Prelude.{
  ℕ, ℤ, pos, String, Bool, true, false, not, Option, none, some, List, ◌⧺◌, ltb_ℤ, of_len, itoa_ℤ,
  if◌then◌else◌, length, filterb,
}
use minato.Api.Meta.{ConditionStatus, condition_true, condition_false}
use minato.Api.GameServer.{GameServer, ServerState, running}
use minato.Api.Fleet.{GameServerFleet, RollingUpdateSpec}
use minato.Controllers.Conditions.{set_condition}
use minato.Controllers.Fleet.Model.{default_drain_timeout_seconds}
use minato.Controllers.Fleet.Template.{is_outdated}
use minato.Controllers.Fleet.Selection.{eq_ℤ}

abbrev pub is_running : ServerState → Bool
is_running running = true
is_running _ = false

abbrev drain_timeout_of : Option RollingUpdateSpec → ℤ
drain_timeout_of none = default_drain_timeout_seconds
drain_timeout_of (some r) =
    if ltb_ℤ (pos 0) r.drain_timeout_seconds
    then r.drain_timeout_seconds
    else default_drain_timeout_seconds

-- The budget of a drain: the fleet's, where it is positive, and thirty seconds otherwise.
unfoldable pub drain_timeout : GameServerFleet → ℤ
drain_timeout fleet = drain_timeout_of fleet.spec.update_strategy.rolling_update

-- The status that `updateStatus` writes for the servers that were listed.
unfoldable pub ready_count : List GameServer → ℕ
ready_count servers = length (filterb (λ s. is_running s.status.state) servers)

unfoldable pub updated_count : GameServerFleet → List GameServer → ℕ
updated_count fleet servers = length (filterb (λ s. not (is_outdated fleet s)) servers)

-- Status, reason and message of the fleet's Ready condition: a later test overrides an earlier one.
unfoldable pub ready_verdict : GameServerFleet → List GameServer → ConditionStatus × String × String
unfolding eq_ℤ
ready_verdict fleet servers =
    if ltb_ℤ (of_len (updated_count fleet servers)) (of_len (length servers))
    then (
      condition_false,
      "Updating",
      itoa_ℤ (of_len (updated_count fleet servers))
          ⧺ "/"
          ⧺ itoa_ℤ fleet.spec.replicas
          ⧺ " replicas updated",
    )
    else if not (eq_ℤ (of_len (length servers)) fleet.spec.replicas)
    then (
      condition_false,
      "Scaling",
      "scaling "
          ⧺ itoa_ℤ (of_len (length servers))
          ⧺ " -> "
          ⧺ itoa_ℤ fleet.spec.replicas
          ⧺ " replicas",
    )
    else (
      condition_true,
      "Reconciled",
      itoa_ℤ (of_len (ready_count servers)) ⧺ "/" ⧺ itoa_ℤ fleet.spec.replicas ⧺ " replicas ready",
    )

unfoldable pub with_status : ℕ → GameServerFleet → List GameServer → GameServerFleet
unfolding ready_verdict
with_status now fleet servers =
    let verdict = ready_verdict fleet servers in
    record fleet {
      status = record {
        replicas = of_len (length servers);
        ready_replicas = of_len (ready_count servers);
        updated_replicas = of_len (updated_count fleet servers);
        conditions = set_condition fleet.status.conditions (record {
          type = "Ready";
          status = verdict.0;
          reason = verdict.1;
          message = verdict.2;
          observed_generation = fleet.metadata.generation;
          last_transition_time = now;
        });
      };
    }

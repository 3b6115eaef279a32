-- ===== src/Controllers/Fleet/Model.antt =====
-- The calls of GameServerFleetReconciler, internal/controllers/gameserverfleet_controller.go, the
-- services that answer them, and its constants.
use minato.Prelude.{ℕ, ℤ, pos, String, Option, List}
use minato.Cluster.{Outcome, ApiErr, Key}
use minato.Api.GameServer.{GameServer}
use minato.Api.Fleet.{GameServerFleet}

-- The calls of the reconciler. `drain` is the agent's PrepareShutdown with its budget in seconds, and
-- `warn` the event of a failed drain.
pub data Call : Type 0 where
  get_fleet : Key → Call
  update_fleet : GameServerFleet → Call
  update_fleet_status : GameServerFleet → Call
  list_servers : String → String → Call
  create_server : GameServer → Call
  update_server : GameServer → Call
  delete_server : Key → Call
  dial : Key → Call
  drain : Key → ℤ → Call
  warn : Key → String → Call

pub record World : Type 0 where
  pub fleet : List Call → Key → Outcome GameServerFleet
  pub put_fleet : List Call → GameServerFleet → Option ApiErr
  pub put_status : List Call → GameServerFleet → Option ApiErr
  pub servers : List Call → String → String → Outcome (List GameServer)
  pub own : GameServerFleet → GameServer → Outcome GameServer
  pub create : List Call → GameServer → Option ApiErr
  pub delete : List Call → Key → Option ApiErr
  pub connect : List Call → Key → Option ApiErr
  pub shutdown : List Call → Key → ℤ → Option ApiErr
  pub clock : List Call → ℕ

abbrev pub fleet_finalizer : String
fleet_finalizer = "minato.io/gameserverfleet-finalizer"

abbrev pub fleet_label : String
fleet_label = "minato.io/fleet"

abbrev pub fleet_generation_label : String
fleet_generation_label = "minato.io/fleet-generation"

abbrev pub default_drain_timeout_seconds : ℤ
default_drain_timeout_seconds = pos 30

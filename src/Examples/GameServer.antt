-- ===== src/Examples/GameServer.antt =====
-- The GameServer controller at concrete inputs.
use minato.Prelude.{pos, ◌≡◌, refl, ◌⊎◌, true, false, none, some, [], ◌∷◌, All}
use minato.Cluster.{ApiErr, ok, key}
use minato.Api.GameServer.{GameServer}
use minato.Api.GameProfile.{GameProfile, PortSpec}
use minato.Controllers.Deletions.{IsHeld}
use minato.Controllers.GameServer.Model.{World, delete, Config, StatefulSet, Secret}
use minato.Controllers.GameServer.Agent.{check_idle_timeout}
use minato.Controllers.GameServer.Steps.{resources_of}
use minato.Controllers.GameServer.Loop.{finalize, reconcile}
use minato.Controllers.GameServer.Idle.{scaled, IsIdle, check_idle_timeout-IsIdle}
use minato.Controllers.GameServer.Released.{IsFreed, finalize-released}
use minato.Controllers.GameServer.Quiet.{applied}
use minato.Controllers.GameServer.Replicas.{replicas_for, reconcile-applied}
use minato.Examples.Data.{survival, minecraft}

abbrev game_port : PortSpec
game_port = record { name = "game"; container_port = pos 25565; protocol = ""; exposed = none }

-- A profile with one port, listed twice.
abbrev doubled : GameProfile
doubled = record minecraft {
  spec = record minecraft.spec {
    ports = game_port ∷ (record game_port { name = "again" }) ∷ [];
    capabilities =
        some (record { files = true; sftp = true; backup = false; restore_from_snapshot = false });
  };
}

-- An idle server: its last activity is long ago, and it is scaled down after ten minutes.
abbrev asleep : GameServer
asleep = record survival {
  metadata = record survival.metadata { finalizers = "minato.io/gameserver-finalizer" ∷ [] };
  spec = record survival.spec {
    lifecycle = record { idle_timeout_seconds = pos 600; auto_start = none };
  };
  status = record survival.status { last_activity = some 0 };
}

abbrev one_replica : StatefulSet
one_replica = record {
  name = "survival";
  namespace = "games";
  labels = [];
  replicas = some (pos 1);
  service_name = "survival";
  pod = record {
    containers = [];
    volumes = [];
    image_pull_secrets = [];
    priority_class_name = "";
    topology_spread_constraints = [];
    security_context = none;
  };
  ready_replicas = pos 1;
}

abbrev pull_secret : Secret
pull_secret = record {
  name = "registry";
  namespace = "minato";
  labels = [];
  type = "Opaque";
  content = [];
}

abbrev quiet_world : World
quiet_world = record {
  server = λ t k. ok asleep;
  put = λ t s. none;
  put_status = λ t s. none;
  profile = λ t name. ok doubled;
  secret = λ t k. ok pull_secret;
  create = λ t s. none;
  refresh = λ t s. none;
  set = λ t k. ok one_replica;
  put_set = λ t s. none;
  ingress = λ t k. ok [];
  accept = λ t c. none;
  own = λ s name. none;
  remove_monitor = λ t k. none;
  detection = λ t. record { detected = false; last_checked = 0 };
  detector = λ t. none;
  monitor = λ t k. none;
  store_monitor = λ t s. none;
  remove = λ t r. none;
  connect = λ t k. none;
  check_health = λ t. ok true;
  agent_version = λ t. ok "1.0";
  players = λ t. ok (pos 0, pos 20);
  shutdown = λ t. none;
  clock = λ t. 700000000000;
  parse_quantity = λ s. none;
  password = λ t. ok "secret";
  hash = λ password. ok "hashed";
}

abbrev settings : Config
settings = record {
  operator_namespace = "minato";
  image_pull_secrets = "registry" ∷ [];
  external_dns_zone = "";
  has_recorder = true;
}

check_idle_timeout-IsIdle_example :
    (scaled (check_idle_timeout quiet_world asleep one_replica []).1 ≡ scaled [])
    ⊎ IsIdle quiet_world asleep []
check_idle_timeout-IsIdle_example = check_idle_timeout-IsIdle quiet_world asleep one_replica []

finalize-released_example :
    IsFreed quiet_world settings asleep [] (finalize quiet_world settings asleep []).1
    ⊎ ((e : ApiErr) × IsHeld delete quiet_world.remove
          (resources_of asleep)
          []
          e
          (finalize quiet_world settings asleep []).1)
finalize-released_example = finalize-released quiet_world settings asleep []

reconcile-applied_example :
    All
      (λ s. s.replicas ≡ some (replicas_for asleep))
      (applied (reconcile quiet_world settings (key "survival" "games") []).1)
reconcile-applied_example = reconcile-applied quiet_world settings (key "survival" "games") refl

-- ===== src/Examples/Data.antt =====
-- The objects of the runs: a survival server, its profile, and metadata by name.
use minato.Prelude.{ℕ, pos, String, none, true, [], ◌∷◌}
use minato.Api.Meta.{ObjectMeta}
use minato.Api.GameServer.{GameServer, running}
use minato.Api.GameProfile.{GameProfile}
use minato.Api.ActionExecution.{ActionDecl, serialize}

abbrev pub named : String → ObjectMeta
named name = record {
  name = name;
  namespace = "games";
  generation = 1;
  creation_timestamp = 100;
  deletion_timestamp = 0;
  finalizers = [];
  labels = [];
  annotations = [];
}

-- A running server with some players.
abbrev pub server_of : String → ℕ → ℕ → GameServer
server_of name players age = record {
  metadata = record (named name) { creation_timestamp = age };
  spec = record {
    profile = "minecraft";
    tier = "";
    env = [];
    storage = record { size = ""; storage_class = ""; snapshot_ref = none };
    lifecycle = record { idle_timeout_seconds = pos 0; auto_start = none };
    priority_class_name = "";
    topology_spread_constraints = [];
    load_balancer_ip = "";
  };
  status = record {
    state = running;
    agent_version = "";
    players = pos players;
    player_capacity = pos 20;
    last_activity = none;
    endpoints = [];
    conditions = [];
  };
}

abbrev pub survival : GameServer
survival = server_of "survival" 3 100

abbrev pub announce : ActionDecl
announce = record {
  name = "announce";
  description = "";
  params =
      ("text", record { type = "string"; required = true; description = ""; default = "" }) ∷ [];
  returns = "";
  concurrency = serialize;
  timeout = "";
}

abbrev pub minecraft : GameProfile
minecraft = record {
  metadata = named "minecraft";
  spec = record {
    display_name = "Minecraft";
    category = "";
    icon = "";
    description = "";
    image = "itzg/minecraft-server";
    image_pull_policy = "";
    ports = [];
    environment = [];
    resources = record { requirements = ""; tiers = []; default = "" };
    storage = record { mount_path = "/data"; size_default = ""; size_min = ""; size_max = "" };
    agent = record { image = "minato/agent"; version = "" };
    actions = announce ∷ [];
    capabilities = none;
    observability = none;
  };
  conditions = [];
}

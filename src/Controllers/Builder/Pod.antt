-- ===== src/Controllers/Builder/Pod.antt =====
-- The specification of a server's pod, internal/controllers/builder/podspec.go and sftp.go.
use minato.Prelude.{String, none, List, [], ◌∷◌, ◌++◌, if◌then◌else◌, str_eq}
use minato.Cluster.{Outcome, ok, fail, ApiErr}
use minato.Api.GameServer.{GameServer}
use minato.Api.GameProfile.{GameProfile, PortSpec, ResourceRequirements, for_tier}
use minato.Controllers.Builder.Model.{
  ContainerPort, VolumeMount, no_resources, of_profile, Container, PodSpec, data_mount,
}
use minato.Controllers.Builder.Environment.{build_game_env}
use minato.Controllers.GameServer.Model.{agent_grpc_port}
use minato.Controllers.Builder.Sftp.{apply_sftp_sidecar}
use minato.Controllers.GameServer.Ports.{protocol_of, sftp_enabled}

abbrev pub game_container_name : String
game_container_name = "minato-game"

abbrev pub agent_container_name : String
agent_container_name = "minato-agent"

unfoldable pub resolve_game_resources : GameProfile → GameServer → ResourceRequirements
unfolding for_tier
resolve_game_resources profile server = for_tier profile.spec.resources server.spec.tier

unfoldable pub build_game_ports : List PortSpec → List ContainerPort
unfolding protocol_of
build_game_ports [] = []
build_game_ports (port ∷ ports) =
    (record { name = port.name; container_port = port.container_port; protocol = protocol_of port })
    ∷ build_game_ports ports

-- `buildDataVolumeMounts`.
unfoldable pub build_data_volume_mounts : GameProfile → List VolumeMount
build_data_volume_mounts profile = data_mount profile ∷ []

unfoldable pub game_container : GameProfile → GameServer → Container
unfolding build_game_env build_game_ports build_data_volume_mounts resolve_game_resources
game_container profile server = record {
  name = game_container_name;
  image = profile.spec.image;
  command = [];
  ports = build_game_ports profile.spec.ports;
  working_dir = "";
  env = build_game_env profile server;
  resources = of_profile (resolve_game_resources profile server);
  security_context = none;
  readiness_probe = none;
  volume_mounts = build_data_volume_mounts profile;
}

-- The agent sees the environment of the game, and its own variables after it.
unfoldable pub agent_container : GameProfile → GameServer → Container
unfolding build_game_env build_data_volume_mounts
agent_container profile server = record {
  name = agent_container_name;
  image = profile.spec.agent.image;
  command = [];
  ports = (record { name = "agent"; container_port = agent_grpc_port; protocol = "TCP" }) ∷ [];
  working_dir = "";
  env =
      build_game_env profile server
      ++ (("minato_GAMESERVER_NAME", server.metadata.name)
          ∷ ("minato_GAMESERVER_NAMESPACE", server.metadata.namespace)
          ∷ ("minato_GAME_CONTAINER", game_container_name)
          ∷ []);
  resources = no_resources;
  security_context = none;
  readiness_probe = none;
  volume_mounts = build_data_volume_mounts profile;
}

-- The pod before the sidecar, with what the server and the operator add after it.
unfoldable pub plain_pod : GameProfile → GameServer → List String → PodSpec
unfolding game_container agent_container
plain_pod profile server pull_secrets = record {
  containers = game_container profile server ∷ agent_container profile server ∷ [];
  volumes = [];
  image_pull_secrets = pull_secrets;
  priority_class_name = server.spec.priority_class_name;
  topology_spread_constraints = server.spec.topology_spread_constraints;
  security_context = none;
}

unfoldable pub assembled_pod : GameProfile → GameServer → List String → PodSpec
unfolding plain_pod apply_sftp_sidecar
assembled_pod profile server pull_secrets =
    let pod = plain_pod profile server pull_secrets in
    if sftp_enabled profile then apply_sftp_sidecar pod profile server else pod

-- `BuildGameServerPodSpecWithPullSecrets`.
unfoldable pub build_game_server_pod_spec : GameProfile → GameServer → List String → Outcome PodSpec
unfolding assembled_pod
build_game_server_pod_spec profile server pull_secrets =
    if str_eq profile.spec.storage.mount_path ""
    then fail (ApiErr.other "storage.mountPath is required")
    else if str_eq profile.spec.image ""
    then fail (ApiErr.other "image is required")
    else if str_eq profile.spec.agent.image ""
    then fail (ApiErr.other "agent.image is required")
    else ok (assembled_pod profile server pull_secrets)

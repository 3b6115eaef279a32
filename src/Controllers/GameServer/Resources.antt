-- ===== src/Controllers/GameServer/Resources.antt =====
-- The objects that GameServerReconciler builds for a server, the build functions of
-- internal/controllers/gameserver_controller.go.
use minato.Prelude.{
  ℤ, pos, String, Bool, true, false, not, Option, none, some, List, [], ◌∷◌, ◌++◌, str_eq, ◌⧺◌,
  if◌then◌else◌, ltb_ℤ,
}
use minato.Api.Meta.{StringMap}
use minato.Api.GameServer.{GameServer, SnapshotRef}
use minato.Api.GameProfile.{GameProfile}
use minato.Controllers.Builder.Model.{PodSpec, claim_volume, data_volume_name}
use minato.Controllers.GameServer.Model.{
  World, StatefulSet, Service, ServicePort, number, name_of, Claim, agent_grpc_port,
}
use minato.Controllers.GameServer.Ports.{game_ports, add_agent_metrics_port}

unfoldable pub build_game_server_labels : GameServer → GameProfile → StringMap
build_game_server_labels server profile =
    ("app.kubernetes.io/name", "minato")
    ∷ ("minato.io/gameserver", server.metadata.name)
    ∷ ("minato.io/profile", profile.metadata.name)
    ∷ []

unfoldable pub build_stateful_set : GameServer → PodSpec → StringMap → StatefulSet
build_stateful_set server pod labels = record {
  name = server.metadata.name;
  namespace = server.metadata.namespace;
  labels = labels;
  replicas = some (pos 1);
  service_name = server.metadata.name;
  pod = record pod {
    volumes =
        pod.volumes
        ++ ((record { name = data_volume_name; source = claim_volume server.metadata.name }) ∷ []);
  };
  ready_replicas = pos 0;
}

abbrev service_of_type : GameServer → String → String → StringMap → List ServicePort → Service
service_of_type server name type labels ports = record {
  name = name;
  namespace = server.metadata.namespace;
  labels = labels;
  annotations = [];
  type = type;
  cluster_ip = "";
  selector = labels;
  ports = ports;
  publish_not_ready_addresses = false;
  load_balancer_ip = "";
}

unfoldable pub build_headless_service : GameServer → StringMap → Service
build_headless_service server labels =
    let port : ServicePort = record {
      name = "placeholder";
      port = pos 1;
      target = number (pos 1);
      protocol = "TCP";
    } in
    record (service_of_type server server.metadata.name "ClusterIP" labels (port ∷ [])) {
      cluster_ip = "None";
      publish_not_ready_addresses = true;
    }

unfoldable pub build_game_service : GameServer → GameProfile → StringMap → String → Service
unfolding game_ports
build_game_service server profile labels zone =
    record (service_of_type server (server.metadata.name ⧺ "-game") "LoadBalancer" labels
      (game_ports profile)) {
        load_balancer_ip = server.spec.load_balancer_ip;
        annotations =
            if str_eq zone ""
            then []
            else ("external-dns.alpha.kubernetes.io/hostname", server.metadata.name ⧺ "." ⧺ zone)
              ∷ [];
      }

-- `buildAgentService`, with the port that `addAgentMetricsPort` appends.
unfoldable pub build_agent_service : GameServer → GameProfile → StringMap → Service
unfolding add_agent_metrics_port
build_agent_service server profile labels =
    let port : ServicePort = record {
      name = "agent";
      port = agent_grpc_port;
      target = name_of "agent";
      protocol = "TCP";
    } in
    service_of_type server (server.metadata.name ⧺ "-agent") "ClusterIP" labels
      (add_agent_metrics_port profile (port ∷ []))

abbrev or_else : Option String → String → String
or_else none d = d
or_else (some q) d = q

-- The size: the server's where it is given and parses, else the profile's where it parses, else 1Gi.
unfoldable pub claim_size : World → GameServer → GameProfile → String
claim_size w server profile =
    let default = or_else (w.parse_quantity profile.spec.storage.size_default) "1Gi" in
    if str_eq server.spec.storage.size ""
    then default
    else or_else (w.parse_quantity server.spec.storage.size) default

abbrev source_of : Option SnapshotRef → Option String
source_of none = none
source_of (some r) = some r.name

abbrev namespace_note : Option SnapshotRef → String → StringMap
namespace_note none namespace = []
namespace_note (some r) namespace =
    let of_snapshot = if str_eq r.namespace "" then namespace else r.namespace in
    if str_eq of_snapshot namespace then [] else ("minato.io/snapshot-namespace", of_snapshot) ∷ []

unfoldable pub build_pvc : World → GameServer → GameProfile → Claim
unfolding claim_size
build_pvc w server profile = record {
  name = server.metadata.name;
  namespace = server.metadata.namespace;
  annotations = namespace_note server.spec.storage.snapshot_ref server.metadata.namespace;
  size = claim_size w server profile;
  storage_class =
      if str_eq server.spec.storage.storage_class ""
      then none
      else some server.spec.storage.storage_class;
  source = source_of server.spec.storage.snapshot_ref;
}

abbrev enough_ready : Option ℤ → ℤ → Bool
enough_ready none ready = false
enough_ready (some n) ready = not (ltb_ℤ ready n)

unfoldable pub sts_ready : StatefulSet → Bool
sts_ready sts = enough_ready sts.replicas sts.ready_replicas

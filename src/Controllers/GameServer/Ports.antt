-- ===== src/Controllers/GameServer/Ports.antt =====
-- The ports and endpoints of a game server: `buildGameService`, `addAgentMetricsPort` and the list of
-- `resolveEndpoints`, internal/controllers/gameserver_controller.go and servicemonitor.go.
use minato.Prelude.{
  ℤ, pos, String, Bool, false, not, ◌&&◌, ◌||◌, Option, none, some, List, [], ◌∷◌, ◌++◌, str_eq,
  if◌then◌else◌, ltb_ℤ,
}
use minato.Api.GameServer.{Endpoint}
use minato.Controllers.Fleet.Selection.{eq_ℤ}
use minato.Api.GameProfile.{
  GameProfile, PortSpec, exposed_port, CapabilitiesSpec, ObservabilitySpec, AgentMetricsSpec,
}
use minato.Controllers.GameServer.Model.{ServicePort, number}
use minato.Controllers.Builder.Sftp.{sftp_port}

abbrev wants_sftp : Option CapabilitiesSpec → Bool
wants_sftp none = false
wants_sftp (some c) = c.sftp

-- `SFTPEnabled`.
unfoldable pub sftp_enabled : GameProfile → Bool
sftp_enabled profile = wants_sftp profile.spec.capabilities

-- `protoPort`: what two ports of one service may not share.
abbrev pub ProtoPort : Type 0
ProtoPort = ℤ × String

unfoldable pub same_port : ProtoPort → ProtoPort → Bool
same_port a b = eq_ℤ a.0 b.0 && str_eq a.1 b.1

unfoldable pub seen_port : ProtoPort → List ProtoPort → Bool
unfolding same_port
seen_port k [] = false
seen_port k (j ∷ seen) = same_port j k || seen_port k seen

-- The protocol, TCP where the profile names none.
unfoldable pub protocol_of : PortSpec → String
protocol_of p = if str_eq p.protocol "" then "TCP" else p.protocol

unfoldable pub proto_port : PortSpec → ProtoPort
proto_port p = (p.container_port, protocol_of p)

unfoldable pub service_port : PortSpec → ServicePort
unfolding protocol_of
service_port p = record {
  name = p.name;
  port = p.container_port;
  target = number p.container_port;
  protocol = protocol_of p;
}

-- The loop over the profile's ports; `seen` has the pairs met before. It returns the ports, and the
-- pairs met in the end.
unfoldable pub exposed_ports : List ProtoPort → List PortSpec → List ServicePort × List ProtoPort
exposed_ports seen [] = ([], seen)
exposed_ports seen (p ∷ ps) =
    let skipped = exposed_ports seen ps in
    let added = exposed_ports (proto_port p ∷ seen) ps in
    if not (exposed_port p) || seen_port (proto_port p) seen
    then skipped
    else (service_port p ∷ added.0, added.1)

abbrev pub sftp_service_port : ServicePort
sftp_service_port = record {
  name = "sftp";
  port = sftp_port;
  target = number sftp_port;
  protocol = "TCP";
}

-- The ports of `buildGameService`, with that of the SFTP sidecar.
unfoldable pub game_ports : GameProfile → List ServicePort
game_ports profile =
    let (ports, seen) = exposed_ports [] profile.spec.ports in
    if sftp_enabled profile && not (seen_port (sftp_port, "TCP") seen)
    then ports ++ sftp_service_port ∷ []
    else ports

unfoldable pub exposed_endpoints : String → List PortSpec → List Endpoint
exposed_endpoints address [] = []
exposed_endpoints address (p ∷ ps) =
    let rest = exposed_endpoints address ps in
    if exposed_port p
    then (record { name = p.name; address = address; port = p.container_port }) ∷ rest
    else rest

-- The endpoints of `resolveEndpoints` at an address.
unfoldable pub endpoints_at : String → GameProfile → List Endpoint
endpoints_at address profile =
    if str_eq address ""
    then []
    else exposed_endpoints address profile.spec.ports
      ++ (if sftp_enabled profile
          then (record { name = "sftp"; address = address; port = sftp_port }) ∷ []
          else [])

abbrev pub metrics_of : Option ObservabilitySpec → Option AgentMetricsSpec
metrics_of none = none
metrics_of (some o) = o.agent_metrics

unfoldable pub has_port_named : String → List ServicePort → Bool
has_port_named n [] = false
has_port_named n (p ∷ ps) = str_eq p.name n || has_port_named n ps

-- `addAgentMetricsPort` on the ports of the agent service.
unfoldable pub add_agent_metrics_port : GameProfile → List ServicePort → List ServicePort
unfolding has_port_named
add_agent_metrics_port profile ports = elim (metrics_of profile.spec.observability) [
  | none ↦ ports
  | some spec ↦
      if not (ltb_ℤ (pos 0) spec.port) || has_port_named "metrics" ports
      then ports
      else ports
        ++ (record {
          name = "metrics";
          port = spec.port;
          target = number spec.port;
          protocol = "TCP";
        })
          ∷ []
]

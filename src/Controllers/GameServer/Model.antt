-- ===== src/Controllers/GameServer/Model.antt =====
-- The cluster objects of GameServerReconciler, internal/controllers/gameserver_controller.go, its calls,
-- and the services that answer them.
use minato.Prelude.{ℕ, ℤ, pos, String, Bool, Option, List}
use minato.Cluster.{Outcome, ApiErr, Key}
use minato.Api.Meta.{StringMap}
use minato.Api.GameServer.{GameServer}
use minato.Api.GameProfile.{GameProfile}
use minato.Controllers.Builder.Model.{PodSpec}

pub record StatefulSet : Type 0 where
  pub name : String
  pub namespace : String
  pub labels : StringMap
  pub replicas : Option ℤ
  pub service_name : String
  pub pod : PodSpec
  pub ready_replicas : ℤ

-- `intstr.IntOrString`.
pub data PortTarget : Type 0 where
  number : ℤ → PortTarget
  name_of : String → PortTarget

pub record ServicePort : Type 0 where
  pub name : String
  pub port : ℤ
  pub target : PortTarget
  pub protocol : String

pub record Service : Type 0 where
  pub name : String
  pub namespace : String
  pub labels : StringMap
  pub annotations : StringMap
  pub type : String
  pub cluster_ip : String
  pub selector : StringMap
  pub ports : List ServicePort
  pub publish_not_ready_addresses : Bool
  pub load_balancer_ip : String

-- An address that the load balancer gives a service.
pub record Ingress : Type 0 where
  pub ip : String
  pub hostname : String

-- A claim with its size as a text, its class, and the VolumeSnapshot that it is restored from.
pub record Claim : Type 0 where
  pub name : String
  pub namespace : String
  pub annotations : StringMap
  pub size : String
  pub storage_class : Option String
  pub source : Option String

pub record Secret : Type 0 where
  pub name : String
  pub namespace : String
  pub labels : StringMap
  pub type : String
  pub content : StringMap

-- The only endpoint of the spec is written out.
pub record ServiceMonitor : Type 0 where
  pub name : String
  pub namespace : String
  pub labels : StringMap
  pub selector : StringMap
  pub port : String
  pub path : String
  pub interval : String

-- `NoMatchError` where the cluster does not know the kind of the object.
pub data DeleteError : Type 0 where
  no_match : DeleteError
  refused : ApiErr → DeleteError

-- The variables of prometheus_detection.go: the answer, and when it was found.
pub record Detection : Type 0 where
  pub detected : Bool
  pub last_checked : ℕ

-- The fields of the reconciler.
pub record Config : Type 0 where
  pub operator_namespace : String
  pub image_pull_secrets : List String
  pub external_dns_zone : String
  pub has_recorder : Bool

-- The objects that a reconcile applies.
pub data Child : Type 0 where
  stateful_set : StatefulSet → Child
  service : Service → Child
  claim : Claim → Child

-- What the finalizer deletes, by name.
pub data Resource : Type 0 where
  stateful_set_of : Key → Resource
  service_of : Key → Resource
  claim_of : Key → Resource
  secret_of : Key → Resource

pub data Call : Type 0 where
  get_server : Key → Call
  update_server : GameServer → Call
  update_server_status : GameServer → Call
  get_profile : String → Call
  get_secret : Key → Call
  create_secret : Secret → Call
  update_secret : Secret → Call
  get_set : Key → Call
  update_set : StatefulSet → Call
  get_service : Key → Call
  apply : Child → Call
  delete_monitor : Key → Call
  detect_prometheus : Call
  get_monitor : Key → Call
  put_monitor : ServiceMonitor → Call
  delete : Resource → Call
  dial : Key → Call
  health : Call
  info : Call
  get_players : Call
  prepare_shutdown : ℤ → String → Call
  event : String → String → Call

-- The API server, the agent, the clock and the libraries. `own` is SetControllerReference on an object
-- of that name, `parse_quantity` is resource.ParseQuantity, `detection` is what the last look for the
-- Prometheus Operator left and `detector` the error of a new look, `store_monitor` is the second half of
-- CreateOrUpdate, and `password` and `hash` are the random password and its bcrypt hash.
pub record World : Type 0 where
  pub server : List Call → Key → Outcome GameServer
  pub put : List Call → GameServer → Option ApiErr
  pub put_status : List Call → GameServer → Option ApiErr
  pub profile : List Call → String → Outcome GameProfile
  pub secret : List Call → Key → Outcome Secret
  pub create : List Call → Secret → Option ApiErr
  pub refresh : List Call → Secret → Option ApiErr
  pub set : List Call → Key → Outcome StatefulSet
  pub put_set : List Call → StatefulSet → Option ApiErr
  pub ingress : List Call → Key → Outcome (List Ingress)
  pub accept : List Call → Child → Option ApiErr
  pub own : GameServer → String → Option ApiErr
  pub remove_monitor : List Call → Key → Option DeleteError
  pub detection : List Call → Detection
  pub detector : List Call → Option ApiErr
  pub monitor : List Call → Key → Option ApiErr
  pub store_monitor : List Call → ServiceMonitor → Option ApiErr
  pub remove : List Call → Resource → Option ApiErr
  pub connect : List Call → Key → Option ApiErr
  pub check_health : List Call → Outcome Bool
  pub agent_version : List Call → Outcome String
  pub players : List Call → Outcome (ℤ × ℤ)
  pub shutdown : List Call → Option ApiErr
  pub clock : List Call → ℕ
  pub parse_quantity : String → Option String
  pub password : List Call → Outcome String
  pub hash : String → Outcome String

abbrev pub game_server_finalizer : String
game_server_finalizer = "minato.io/gameserver-finalizer"

-- Thirty seconds in nanoseconds.
abbrev pub agent_health_check_period : ℕ
agent_health_check_period = 30000000000

abbrev pub agent_grpc_port : ℤ
agent_grpc_port = pos 9876

abbrev pub replicated_from : String
replicated_from = "minato.io/replicated-from"

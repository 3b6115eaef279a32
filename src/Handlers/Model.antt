-- ===== src/Handlers/Model.antt =====
-- The calls and the responses of the handlers of cmd/controlplane/main.go. The body of a request is what
-- `json.Decode` makes of it.
use minato.Prelude.{
  ℕ, ◌/◌, ℤ, String, Bool, true, Option, none, some, List, [], ◌++◌, codes, Bytes, map,
}
use minato.Cluster.{ApiErr, message, Outcome, Key, M}
use minato.Api.Meta.{StringMap, ObjectMeta}
use minato.Api.GameServer.{GameServer}
use minato.Api.GameProfile.{GameProfile}
use minato.Api.ActionExecution.{ActionExecution, ActionDecl}
use minato.Api.GameSnapshot.{GameSnapshot}
use minato.Api.Fleet.{GameServerFleet}
use minato.ControlPlane.Namespaces.{User, allows_namespace}
use minato.ControlPlane.Keys.{ApiKeyEntry, KeyStore}
use minato.Tenant.Config.{Config}
use minato.Tenant.Provision.{Ensured, ensure_namespace}
use minato.Tenant.Provision

-- `oapi.SFTPInfo`.
pub record SftpInfo : Type 0 where
  pub host : String
  pub port : ℤ
  pub username : String
  pub password : String

-- What a handler encodes: the envelope of an error with its text, or one of the objects. `refused` is an
-- error whose text is not kept.
pub data Body : Type 0 where
  failure : String → Body
  refused empty : Body
  server : GameServer → Body
  servers : List GameServer → Body
  sftp_info : SftpInfo → Body
  actions : List ActionDecl → Body
  created_name : String → Body
  execution : ActionExecution → Body
  snapshot : GameSnapshot → Body
  snapshots : List GameSnapshot → Body
  fleet : GameServerFleet → Body
  fleets : List GameServerFleet → Body
  profile : GameProfile → Body
  profiles : List GameProfile → Body
  keys : List ApiKeyEntry → Body
  created_key : ApiKeyEntry → Body

-- The status and the body, or a panic.
pub data Response : Type 0 where
  respond : ℕ → Body → Response
  panicked : Response

pub data Call : Type 0 where
  list_servers list_fleets list_profiles : Call
  get_server get_fleet get_execution get_secret : Key → Call
  get_profile : String → Call
  create_server update_server : GameServer → Call
  create_fleet update_fleet : GameServerFleet → Call
  delete_server delete_fleet : Key → Call
  create_execution : ActionExecution → Call
  create_snapshot : GameSnapshot → Call
  find_snapshots : String → String → Call
  list_snapshots : String → Call
  list_api_keys : Call
  generate_api_key : Bytes → String → List Bytes → Option ℕ → Call
  delete_api_key : Bytes → Call
  tenant_call : minato.Tenant.Provision.Call → Call
  log_action : String → Bytes → Option User → Call

-- The answers of the API server and of the store of the keys, and the clock. `tenant` is what
-- EnsureNamespace meets after these calls.
pub record World : Type 0 where
  pub servers : List Call → Outcome (List GameServer)
  pub server : List Call → Key → Outcome GameServer
  pub profile : List Call → String → Outcome GameProfile
  pub profiles : List Call → Outcome (List GameProfile)
  pub fleets : List Call → Outcome (List GameServerFleet)
  pub fleet : List Call → Key → Outcome GameServerFleet
  pub execution : List Call → Key → Outcome ActionExecution
  pub secret : List Call → Key → Outcome StringMap
  pub found_snapshots : List Call → Outcome (List GameSnapshot)
  pub snapshots : List Call → Outcome (List GameSnapshot)
  pub write : List Call → Call → Option ApiErr
  pub store : List Call → KeyStore
  pub tenant : List Call → minato.Tenant.Provision.World
  pub clock : List Call → ℕ

-- `writeError`.
abbrev pub write_error : ℕ → ApiErr → Response
write_error status e = respond status (failure (message e))

abbrev pub bad_request : String → Response
bad_request text = respond 400 (failure text)

-- A user that is missing may see everything.
abbrev pub may_see : Option User → String → Bool
may_see none namespace = true
may_see (some u) namespace = allows_namespace u (codes namespace)

-- EnsureNamespace within a handler.
unfoldable pub ensured_namespace : World → Config → String → M Call Ensured
unfolding ensure_namespace
ensured_namespace w cfg namespace t =
    let (r, calls) = ensure_namespace (w.tenant t) (codes namespace) cfg [] in
    (r, map tenant_call calls ++ t)

abbrev pub new_object : String → String → ObjectMeta
new_object name namespace = record {
  name = name;
  namespace = namespace;
  generation = 0;
  creation_timestamp = 0;
  deletion_timestamp = 0;
  finalizers = [];
  labels = [];
  annotations = [];
}

-- `time.Now().Unix()`.
abbrev pub unix : ℕ → ℕ
unix t = t / 1000000000

-- ===== src/Sdk/Client.antt =====
-- The methods of the client, sdk/controlplane/client.go. What the generated client returns for a request
-- is a parameter: an error, or a reply with the body as text and, where it is JSON, the decoded value.
use minato.Prelude.{
  ℕ, ◌==◌, ℤ, String, Bool, not, Option, none, some, List, map, if◌then◌else◌, str_eq,
}
use minato.Cluster.{ApiErr, Outcome, ok, fail}
use minato.Handlers.Model.{SftpInfo}
use minato.Sdk.Types.{
  SdkGameServer, SdkAction, SdkGameProfile, SdkFleet, SdkExecution, SdkSnapshot, GenLifecycle,
  GenGameServer, GenAction, GenGameProfile, GenFleet, GenExecution, GenSnapshot,
}
use minato.Sdk.Convert.{int32_of, to_gen_game_server, from_gen_game_server}
use minato.Sdk.Objects.{
  from_gen_action, from_gen_profile, from_gen_snapshot, from_gen_fleet, from_gen_execution,
}

pub record Reply (A : Type 0) : Type 0 where
  pub status : ℕ
  pub body : String
  pub decoded : Option A

-- A value, or an error of the transport or of the API; or a panic on a nil pointer.
pub data Answer (A : Type 0) : Type 0 where
  value : A → Answer A
  transport : ApiErr → Answer A
  api_failure : ℕ → String → Answer A
  panicked : Answer A

-- The field `error` of a body that is JSON, and empty where there is none.
module _ (error_field : String → String) where
  unfoldable pub api_error : {A : Type 0} → ℕ → String → Answer A
  api_error status body =
      api_failure status (if not (str_eq (error_field body) "") then error_field body else body)

  -- The tests after a request, and then what is made of the decoded body.
  unfoldable pub checked_reply :
      {A B : Type 0} → ℕ → (Option A → Answer B) → Outcome (Reply A) → Answer B
  unfolding api_error
  checked_reply expected make (fail e) = transport e
  checked_reply expected make (ok r) =
      if not (r.status == expected) then api_error r.status r.body else make r.decoded

  -- `*resp.JSON200`, a panic where the body was not decoded.
  abbrev pub dereferenced : {A B : Type 0} → (A → B) → Option A → Answer B
  dereferenced f none = panicked
  dereferenced f (some a) = value (f a)

  -- `fromGenGameServer(resp.JSON200)` takes a nil pointer.
  abbrev pub decoded_server : Option GenGameServer → Answer SdkGameServer
  decoded_server o = value (from_gen_game_server o)

  -- A method without a value.
  unfoldable pub deletion : Outcome (Reply (Unit {0})) → Answer (Unit {0})
  unfolding checked_reply
  deletion = checked_reply 204 (λ _. value tt)

  unfoldable pub sdk_list_game_servers :
      Outcome (Reply (List GenGameServer)) → Answer (List SdkGameServer)
  unfolding checked_reply from_gen_game_server
  sdk_list_game_servers =
      checked_reply 200 (dereferenced (map (λ gs. from_gen_game_server (some gs))))

  unfoldable pub sdk_get_game_server : Outcome (Reply GenGameServer) → Answer SdkGameServer
  unfolding checked_reply from_gen_game_server
  sdk_get_game_server = checked_reply 200 decoded_server

  abbrev typed : SdkGameServer → SdkGameServer
  typed gs = record gs { api_version = "operator.minato.io/v1"; kind = "GameServer" }

  unfoldable pub sdk_create_game_server :
      (GenGameServer → Outcome (Reply GenGameServer)) → SdkGameServer → Answer SdkGameServer
  unfolding checked_reply to_gen_game_server from_gen_game_server
  sdk_create_game_server send gs =
      checked_reply 201 decoded_server (send (to_gen_game_server (typed gs)))

  unfoldable pub sdk_get_sftp_info : Outcome (Reply SftpInfo) → Answer SftpInfo
  unfolding checked_reply int32_of
  sdk_get_sftp_info =
      checked_reply 200 (dereferenced {A = SftpInfo} (λ i. record i { port = int32_of i.port }))

  unfoldable pub sdk_update_game_server_lifecycle :
      (GenLifecycle → Outcome (Reply GenGameServer)) → Option Bool → Option ℤ → Answer SdkGameServer
  unfolding checked_reply from_gen_game_server
  sdk_update_game_server_lifecycle send auto_start idle_timeout =
      checked_reply 200 decoded_server
        (send (record { auto_start = auto_start; idle_timeout_seconds = idle_timeout }))

  unfoldable pub sdk_list_actions : Outcome (Reply (List GenAction)) → Answer (List SdkAction)
  unfolding checked_reply from_gen_action
  sdk_list_actions = checked_reply 200 (dereferenced (map from_gen_action))

  -- The name of the execution.
  unfoldable pub sdk_execute_action : Outcome (Reply String) → Answer String
  unfolding checked_reply
  sdk_execute_action = checked_reply 201 (dereferenced (λ name. name))

  unfoldable pub sdk_get_action_execution : Outcome (Reply GenExecution) → Answer SdkExecution
  unfolding checked_reply from_gen_execution
  sdk_get_action_execution = checked_reply 200 (dereferenced from_gen_execution)

  unfoldable pub sdk_list_snapshots : Outcome (Reply (List GenSnapshot)) → Answer (List SdkSnapshot)
  unfolding checked_reply from_gen_snapshot
  sdk_list_snapshots = checked_reply 200 (dereferenced (map from_gen_snapshot))

  unfoldable pub sdk_create_snapshot : Outcome (Reply GenSnapshot) → Answer SdkSnapshot
  unfolding checked_reply from_gen_snapshot
  sdk_create_snapshot = checked_reply 201 (dereferenced from_gen_snapshot)

  unfoldable pub sdk_list_profiles :
      Outcome (Reply (List GenGameProfile)) → Answer (List SdkGameProfile)
  unfolding checked_reply from_gen_profile
  sdk_list_profiles = checked_reply 200 (dereferenced (map from_gen_profile))

  unfoldable pub sdk_get_profile : Outcome (Reply GenGameProfile) → Answer SdkGameProfile
  unfolding checked_reply from_gen_profile
  sdk_get_profile = checked_reply 200 (dereferenced from_gen_profile)

  unfoldable pub sdk_list_game_server_fleets :
      Outcome (Reply (List GenFleet)) → Answer (List SdkFleet)
  unfolding checked_reply from_gen_fleet
  sdk_list_game_server_fleets = checked_reply 200 (dereferenced (map from_gen_fleet))

  unfoldable pub sdk_get_game_server_fleet : Outcome (Reply GenFleet) → Answer SdkFleet
  unfolding checked_reply from_gen_fleet
  sdk_get_game_server_fleet = checked_reply 200 (dereferenced from_gen_fleet)

  -- The body that the JSON of the name, the profile and the replicas decodes to.
  abbrev fleet_body : SdkFleet → GenFleet
  fleet_body f = record {
    metadata = some (record { labels = none; name = some f.metadata.name; namespace = none });
    spec = some (record { profile = some f.profile; replicas = some f.replicas });
    status = none;
  }

  unfoldable pub sdk_create_game_server_fleet :
      (GenFleet → Outcome (Reply GenFleet)) → SdkFleet → Answer SdkFleet
  unfolding checked_reply from_gen_fleet
  sdk_create_game_server_fleet send f =
      checked_reply 201 (dereferenced from_gen_fleet) (send (fleet_body f))

  unfoldable pub sdk_scale_game_server_fleet : (ℤ → Outcome (Reply GenFleet)) → ℤ → Answer SdkFleet
  unfolding checked_reply from_gen_fleet
  sdk_scale_game_server_fleet send replicas =
      checked_reply 200 (dereferenced from_gen_fleet) (send replicas)

-- ===== src/Handlers/Details.antt =====
-- The handlers of SFTP, actions, snapshots and profiles, cmd/controlplane/main.go.
use minato.Prelude.{
  ℕ, String, ◌⧺◌, itoa, not, ◌||◌, Option, none, some, List, [], ◌∷◌, if◌then◌else◌, str_eq, codes,
  pos,
}
use minato.Cluster.{Outcome, ok, fail, Key, key, M, ◌>>=◌, ◌>>◌, pure, ask, tell}
use minato.Api.Meta.{StringMap, label}
use minato.Api.GameServer.{GameServer, Endpoint}
use minato.Api.GameProfile.{GameProfile}
use minato.Api.ActionExecution.{ActionExecution, unset}
use minato.Api.GameSnapshot.{GameSnapshot}
use minato.ControlPlane.Namespaces.{User}
use minato.Controllers.Builder.Sftp.{sftp_secret_name}
use minato.Controllers.GameServer.Ports.{sftp_enabled}
use minato.Handlers.Model.{
  failure, sftp_info, actions, created_name, execution, snapshot, snapshots, profile, profiles,
  Response, respond, Call, list_profiles, get_server, get_execution, get_secret, get_profile,
  create_execution, create_snapshot, find_snapshots, list_snapshots, log_action, World, write_error,
  new_object, unix,
}

-- The first endpoint of the name.
unfoldable pub find_endpoint : String → List Endpoint → Option Endpoint
find_endpoint name [] = none
find_endpoint name (e ∷ endpoints) =
    let rest = find_endpoint name endpoints in if str_eq e.name name then some e else rest

abbrev missing : String → Response
missing text = respond 404 (failure text)

abbrev of_server : Key → String
of_server k = "game server " ⧺ k.namespace ⧺ "/" ⧺ k.name

-- The caller of an action: the user, or the header where nobody is authenticated.
unfoldable pub caller_of : Option User → String → String
caller_of user header =
    let claimed = if str_eq header "" then "anonymous" else header in
    elim user [
      | none ↦ claimed
      | some u ↦ if not (str_eq u.source "none") then u.username else claimed
    ]

abbrev given : Outcome StringMap → StringMap
given (ok params) = params
given (fail e) = []

unfoldable pub new_execution : Key → String → Outcome StringMap → String → ℕ → ActionExecution
new_execution k action params caller now = record {
  metadata = new_object (k.name ⧺ "-" ⧺ action ⧺ "-" ⧺ itoa (unix now)) k.namespace;
  spec = record {
    target_ref = record {
      api_version = "operator.minato.io/v1";
      kind = "GameServer";
      name = k.name;
      namespace = k.namespace;
    };
    action_name = action;
    params = given params;
    caller = caller;
  };
  status = record {
    state = unset;
    started_at = none;
    ended_at = none;
    agent_response = "";
    error = "";
    conditions = [];
  };
}

unfoldable pub new_snapshot : Key → ℕ → GameSnapshot
new_snapshot k now = record {
  metadata = new_object (k.name ⧺ "-snap-" ⧺ itoa (unix now)) k.namespace;
  spec = record {
    game_server_ref = k.name;
    schedule = "";
    retention = record { count = pos 0; duration = "" };
  };
  status = record { snapshots = []; last_snapshot_at = none; conditions = [] };
}

-- The loop of the fallback.
unfoldable pub snapshots_of : String → List GameSnapshot → List GameSnapshot
snapshots_of name [] = []
snapshots_of name (s ∷ list) =
    let rest = snapshots_of name list in
    if str_eq s.spec.game_server_ref name then s ∷ rest else rest

module _ (w : World) (user : Option User) where
  -- The profile of a server that is there.
  unfoldable pub with_profile : Key → (GameServer → GameProfile → M Call Response) → M Call Response
  with_profile k next = do
    found ← ask (get_server k) (λ t. w.server t k)
    elim found [
      | fail e ↦ pure (write_error 404 e)
      | ok gs ↦ do
        resolved ← ask (get_profile gs.spec.profile) (λ t. w.profile t gs.spec.profile)
        elim resolved [ fail e ↦ pure (write_error 404 e) | ok p ↦ next gs p ]
    ]

  unfoldable pub check_credentials : Key → Endpoint → StringMap → M Call Response
  unfolding label
  check_credentials k endpoint content =
      if str_eq (label "username" content) "" || str_eq (label "password" content) ""
      then pure (missing ("sftp credentials for " ⧺ of_server k ⧺ " are incomplete"))
      else (do
        tell (log_action "gameserver.sftp-info-read" (codes k.name) user)
        pure (
            respond 200 (
              sftp_info (record {
                host = endpoint.address;
                port = endpoint.port;
                username = label "username" content;
                password = label "password" content;
              }))))

  unfoldable pub read_credentials : Key → Endpoint → M Call Response
  unfolding check_credentials sftp_secret_name
  read_credentials k endpoint = do
    let named = key (sftp_secret_name k.name) k.namespace
    found ← ask (get_secret named) (λ t. w.secret t named)
    elim found [
      | fail e ↦ pure (missing ("sftp credentials for " ⧺ of_server k ⧺ " are not provisioned yet"))
      | ok content ↦ check_credentials k endpoint content
    ]

  unfoldable pub sftp_info_of : Key → GameServer → GameProfile → M Call Response
  unfolding read_credentials find_endpoint
  sftp_info_of k gs p =
      if not (sftp_enabled p)
      then pure (missing ("sftp is not enabled for " ⧺ of_server k))
      else elim (find_endpoint "sftp" gs.status.endpoints) [
        | none ↦ pure (missing ("sftp endpoint for " ⧺ of_server k ⧺ " is not published yet"))
        | some endpoint ↦ read_credentials k endpoint
      ]

  unfoldable pub get_sftp_info : Key → M Call Response
  unfolding with_profile sftp_info_of
  get_sftp_info k = with_profile k (sftp_info_of k)

  unfoldable pub list_actions : Key → M Call Response
  unfolding with_profile
  list_actions k = with_profile k (λ gs p. pure (respond 200 (actions p.spec.actions)))

  -- `header` is X-User.
  unfoldable pub execute_action : Key → String → Outcome StringMap → String → M Call Response
  unfolding caller_of new_execution
  execute_action k action params header t =
      let exec = new_execution k action params (caller_of user header) (w.clock t) in
      let err = w.write t (create_execution exec) in
      (
        elim err [
          | some e ↦ write_error 500 e
          | none ↦ respond 201 (created_name exec.metadata.name)
        ],
        create_execution exec ∷ t,
      )

  unfoldable pub get_action_execution : Key → M Call Response
  get_action_execution k = do
    found ← ask (get_execution k) (λ t. w.execution t k)
    pure (elim found [ fail e ↦ write_error 404 e | ok exec ↦ respond 200 (execution exec) ])

  -- By the index of the field, or else by a loop over all of the namespace.
  unfoldable pub list_game_snapshots : Key → M Call Response
  unfolding snapshots_of
  list_game_snapshots k = do
    indexed ← ask (find_snapshots k.namespace k.name) w.found_snapshots
    elim indexed [
      | ok list ↦ pure (respond 200 (snapshots list))
      | fail e ↦ do
        listed ← ask (list_snapshots k.namespace) w.snapshots
        pure (elim listed [
          | fail e ↦ write_error 500 e
          | ok list ↦ respond 200 (snapshots (snapshots_of k.name list))
        ])
    ]

  unfoldable pub create_game_snapshot : Key → M Call Response
  unfolding new_snapshot
  create_game_snapshot k t =
      let snap = new_snapshot k (w.clock t) in
      (
        elim (w.write t (create_snapshot snap)) [
          | some e ↦ write_error 500 e
          | none ↦ respond 201 (snapshot snap)
        ],
        create_snapshot snap ∷ t,
      )

  unfoldable pub list_game_profiles : M Call Response
  list_game_profiles = do
    listed ← ask list_profiles w.profiles
    pure (elim listed [ fail e ↦ write_error 500 e | ok list ↦ respond 200 (profiles list) ])

  unfoldable pub get_game_profile : String → M Call Response
  get_game_profile name = do
    found ← ask (get_profile name) (λ t. w.profile t name)
    pure (elim found [ fail e ↦ write_error 404 e | ok p ↦ respond 200 (profile p) ])

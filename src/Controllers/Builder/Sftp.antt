-- ===== src/Controllers/Builder/Sftp.antt =====
-- The SFTP sidecar, internal/controllers/builder/sftp.go.
use minato.Prelude.{ℤ, pos, String, ◌⧺◌, quote, true, false, some, [], ◌∷◌, ◌++◌}
use minato.Api.GameServer.{GameServer}
use minato.Api.GameProfile.{GameProfile}
use minato.Controllers.Builder.Model.{
  SecurityContext, explicit, Container, secret_volume, empty_dir, PodSpec, data_mount,
}

-- The port that the sidecar serves.
abbrev pub sftp_port : ℤ
sftp_port = pos 2022

abbrev pub sftp_container_name : String
sftp_container_name = "minato-sftp"

abbrev pub sftp_credentials_volume_name : String
sftp_credentials_volume_name = "sftp-credentials"

abbrev pub sftp_config_volume_name : String
sftp_config_volume_name = "sftpgo-config"

abbrev sftp_credentials_mount_path : String
sftp_credentials_mount_path = "/etc/sftpgo-secrets"

abbrev sftp_config_mount_path : String
sftp_config_mount_path = "/etc/sftpgo"

abbrev sftp_users_key : String
sftp_users_key = "users.json"

unfoldable pub sftp_secret_name : String → String
sftp_secret_name server = "minato-" ⧺ server ⧺ "-sftp"

-- The users dump that the sidecar loads, `SFTPUsersJSON`.
unfoldable pub sftp_users_json : String → String → String
sftp_users_json mount_path password_hash =
    "{\n  \"version\": 17,\n  \"users\": [\n    {\n      \"status\": 1,\n      \"username\": "
    ⧺ quote "minato"
    ⧺ ",\n      \"password\": "
    ⧺ quote password_hash
    ⧺ ",\n      \"home_dir\": "
    ⧺ quote mount_path
    ⧺ ",\n      \"permissions\": {\"/\": [\"*\"]}\n    }\n  ]\n}\n"

abbrev restricted : SecurityContext
restricted = record {
  run_as_non_root = true;
  run_as_user = pos 1000;
  run_as_group = pos 1000;
  allow_privilege_escalation = false;
  read_only_root_filesystem = true;
  dropped_capabilities = "ALL" ∷ [];
  seccomp_profile = "RuntimeDefault";
}

unfoldable pub build_sftp_container : GameProfile → Container
build_sftp_container profile = record {
  name = sftp_container_name;
  image = "drakkan/sftpgo:v2.6.6-alpine";
  command =
      "sftpgo"
      ∷ "serve"
      ∷ "--loaddata-from"
      ∷ (sftp_credentials_mount_path ⧺ "/" ⧺ sftp_users_key)
      ∷ [];
  ports = (record { name = "sftp"; container_port = sftp_port; protocol = "TCP" }) ∷ [];
  working_dir = sftp_config_mount_path;
  env =
      ("SFTPGO_DATA_PROVIDER__DRIVER", "memory")
      ∷ ("SFTPGO_SFTPD__BINDINGS__0__PORT", "2022")
      ∷ ("SFTPGO_HTTPD__BINDINGS__0__PORT", "0")
      ∷ ("SFTPGO_TELEMETRY__ENABLED", "false")
      ∷ [];
  resources =
      explicit (("cpu", "10m") ∷ ("memory", "32Mi") ∷ [])
        (("cpu", "200m") ∷ ("memory", "128Mi") ∷ []);
  security_context = some restricted;
  readiness_probe = some sftp_port;
  volume_mounts =
      data_mount profile
      ∷ (record {
        name = sftp_credentials_volume_name;
        mount_path = sftp_credentials_mount_path;
        read_only = true;
      })
      ∷ (record {
        name = sftp_config_volume_name;
        mount_path = sftp_config_mount_path;
        read_only = false;
      })
      ∷ [];
}

-- The sidecar, its volumes, and the group that owns the files of the pod.
unfoldable pub apply_sftp_sidecar : PodSpec → GameProfile → GameServer → PodSpec
unfolding build_sftp_container sftp_secret_name
apply_sftp_sidecar pod profile server = record pod {
  containers = pod.containers ++ (build_sftp_container profile ∷ []);
  volumes =
      pod.volumes
      ++ ((record {
        name = sftp_credentials_volume_name;
        source = secret_volume (sftp_secret_name server.metadata.name) (sftp_users_key ∷ []);
      })
          ∷ (record { name = sftp_config_volume_name; source = empty_dir })
          ∷ []);
  security_context =
      some (record { fs_group = pos 1000; fs_group_change_policy = "OnRootMismatch" });
}

-- ===== src/Registrar/Settings.antt =====
-- The configuration and the payloads of the registrar, cmd/registrar/main.go. The environment is a
-- function, with the empty text for what is unset, and `time.ParseDuration` is a parameter.
use minato.Prelude.{
  ℕ, ℤ, pos, String, ◌||◌, Option, none, some, ltb_ℤ, if◌then◌else◌, str_eq, codes, atoi,
}

pub record RegistrarConfig : Type 0 where
  pub cloud_url : String
  pub register_token : String
  pub name : String
  pub region : String
  pub control_plane_url : String
  pub control_plane_key : String
  pub capacity_max : ℤ
  pub dedicated_tenant_id : String
  pub cluster_fingerprint : String
  pub heartbeat_interval : ℤ
  pub request_timeout : ℤ

abbrev positive_or : ℤ → Option ℤ → ℤ
positive_or fallback none = fallback
positive_or fallback (some v) = if ltb_ℤ (pos 0) v then v else fallback

abbrev pub second : ℕ
second = 1000000000

module _ (env : String → String) where
  unfoldable pub env_str : String → String → String
  env_str key fallback = if str_eq (env key) "" then fallback else env key

  unfoldable pub positive_int : String → ℤ → ℤ
  positive_int key fallback = positive_or fallback (atoi (codes (env key)))

  unfoldable pub env_duration : (String → Option ℤ) → String → ℤ → ℤ
  env_duration parse_duration key fallback = positive_or fallback (parse_duration (env key))

-- `none` is the error that a required variable is missing.
unfoldable pub load_registrar_config :
    (String → Option ℤ) → (String → String) → Option RegistrarConfig
unfolding env_str positive_int env_duration
load_registrar_config parse_duration env =
    if str_eq (env "CLOUD_URL") ""
      || (str_eq (env "REGISTER_TOKEN") ""
          || (str_eq (env "CLUSTER_NAME") "" || str_eq (env "CONTROLPLANE_API_KEY") ""))
    then none
    else some (record {
      cloud_url = env "CLOUD_URL";
      register_token = env "REGISTER_TOKEN";
      name = env "CLUSTER_NAME";
      region = env "CLUSTER_REGION";
      control_plane_url = env_str env "CONTROLPLANE_URL" "http://minato-controlplane:8080";
      control_plane_key = env "CONTROLPLANE_API_KEY";
      capacity_max = positive_int env "CAPACITY_MAX" (pos 100);
      dedicated_tenant_id = env "DEDICATED_TENANT_ID";
      cluster_fingerprint = env "CLUSTER_FINGERPRINT";
      heartbeat_interval = env_duration env parse_duration "HEARTBEAT_INTERVAL" (pos 30000000000);
      request_timeout = env_duration env parse_duration "REQUEST_TIMEOUT" (pos 10000000000);
    })

pub record RegisterPayload : Type 0 where
  pub name : String
  pub region : String
  pub control_plane_url : String
  pub api_key : String
  pub capacity_max : ℤ
  pub dedicated_tenant_id : String
  pub cluster_fingerprint : String

pub record HeartbeatPayload : Type 0 where
  pub capacity_max : ℤ
  pub cluster_fingerprint : String

unfoldable pub build_register_payload : RegistrarConfig → String → RegisterPayload
build_register_payload cfg fingerprint = record {
  name = cfg.name;
  region = cfg.region;
  control_plane_url = cfg.control_plane_url;
  api_key = cfg.control_plane_key;
  capacity_max = cfg.capacity_max;
  dedicated_tenant_id = cfg.dedicated_tenant_id;
  cluster_fingerprint = fingerprint;
}

unfoldable pub build_heartbeat_payload : RegistrarConfig → String → HeartbeatPayload
build_heartbeat_payload cfg fingerprint = record {
  capacity_max = cfg.capacity_max;
  cluster_fingerprint = fingerprint;
}

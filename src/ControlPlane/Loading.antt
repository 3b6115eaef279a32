-- ===== src/ControlPlane/Loading.antt =====
-- The configuration of the authentication, LoadConfig of internal/controlplane/auth/auth.go, and what
-- GetAuthConfig of cmd/controlplane/main.go shows of it. The environment is a function, with the empty
-- text for what is unset.
use minato.Prelude.{
  String, Bool, true, false, not, ◌&&◌, ◌||◌, Option, none, some, List, [], ◌∷◌, ◌++◌,
  if◌then◌else◌, str_eq, codes, Bytes, bytes_eq, is_nil, to_lower, trim_space, split,
}
use minato.ControlPlane.Namespaces.{comma}
use minato.ControlPlane.Chain.{AuthConfig}

unfoldable pub get_env : (String → String) → String → String → String
get_env env key fallback = if str_eq (env key) "" then fallback else env key

unfoldable pub get_env_bool : (String → String) → String → Bool → Bool
get_env_bool env key fallback =
    if str_eq (env key) ""
    then fallback
    else bytes_eq (to_lower (codes (env key))) (codes "true") || str_eq (env key) "1"

-- The configuration, to which the caller adds whether it has a store of API keys.
unfoldable pub load_auth_config : (String → String) → Bool → AuthConfig
unfolding get_env get_env_bool
load_auth_config env has_key_storage = record {
  mode = codes (get_env env "AUTH_MODE" "none");
  basic = record {
    enabled = get_env_bool env "AUTH_BASIC_ENABLED" false;
    user = get_env env "AUTH_BASIC_USER" "";
    password = codes (get_env env "AUTH_BASIC_PASSWORD" "");
    role = get_env env "AUTH_BASIC_ROLE" "admin";
  };
  oidc = record {
    enabled = get_env_bool env "AUTH_OIDC_ENABLED" false;
    issuer_url = get_env env "AUTH_OIDC_ISSUER_URL" "";
    client_id = get_env env "AUTH_OIDC_CLIENT_ID" "";
    role_claim = get_env env "AUTH_OIDC_ROLE_CLAIM" "groups";
  };
  api_key_enabled = get_env_bool env "AUTH_APIKEY_ENABLED" false;
  has_key_storage = has_key_storage;
}

pub record AuthInfo : Type 0 where
  pub auth_modes : List Bytes
  pub basic_enabled : Bool
  pub oidc_issuer : Option String

-- The loop over the modes.
unfoldable pub named_modes : List Bytes → List Bytes
named_modes [] = []
named_modes (mode ∷ modes) =
    let rest = named_modes modes in
    let name = trim_space (to_lower mode) in if is_nil name then rest else name ∷ rest

abbrev says_nothing : List Bytes → Bool
says_nothing [] = true
says_nothing (mode ∷ []) = bytes_eq mode (codes "none")
says_nothing (mode ∷ next ∷ modes) = false

abbrev when : Bool → String → List Bytes
when b name = if b then codes name ∷ [] else []

-- Without explicit modes they are those of the enabled providers.
unfoldable pub auth_modes_of : AuthConfig → List Bytes
unfolding named_modes
auth_modes_of cfg =
    let modes = named_modes (split comma cfg.mode) in
    if says_nothing modes
    then codes "none"
      ∷ (when cfg.basic.enabled "basic"
          ++ (when cfg.oidc.enabled "oidc" ++ when cfg.api_key_enabled "apikey"))
    else modes

-- `GetAuthConfig`.
unfoldable pub get_auth_config : AuthConfig → AuthInfo
unfolding auth_modes_of
get_auth_config cfg = record {
  auth_modes = auth_modes_of cfg;
  basic_enabled = cfg.basic.enabled;
  oidc_issuer =
      if cfg.oidc.enabled && not (str_eq cfg.oidc.issuer_url "")
      then some cfg.oidc.issuer_url
      else none;
}

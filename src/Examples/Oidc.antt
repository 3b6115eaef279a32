-- ===== src/Examples/Oidc.antt =====
-- A control plane that authenticates by OpenID Connect, and a request with the token of an admin.
use minato.Prelude.{
  refl, true, false, some, none, [], ◌∷◌, codes, bytes_eq, ◌&&◌, if◌then◌else◌, split, trim_space,
  trim_space_left, trim_space_right, to_lower, has_prefix, cut_prefix, ends_with, but_last, trim,
  trim_left, trim_right,
}
use minato.Api.Meta.{lookup}
use minato.Cluster.{ok}
use minato.ControlPlane.Namespaces.{cluster_wide}
use minato.ControlPlane.Rules.{
  api_keys_path, default_rules, namespaced_rules, api_key_rules, segments, match_path,
  match_segments, is_template, namespace_from_path, namespace_of,
}
use minato.ControlPlane.Guards.{decide, contains_role, route_guard, namespace_guard}
use minato.ControlPlane.Oidc.{
  IdToken, OidcProvider, trim_slash, oidc_role, oidc_username, oidc_user, new_oidc_provider,
  authenticate_oidc, text,
}
use minato.ControlPlane.Providers.{
  Request, oidc, Libraries, extract_bearer, authenticate, authenticate_chain,
}
use minato.ControlPlane.Chain.{
  AuthConfig, add_basic, add_oidc, add_mode, add_modes, onto_chain, or_none_provider, build_chain,
  middleware, and_then, serve,
}
use minato.ControlPlane.Verified.{IsVerified, configured, serve-IsVerified}

abbrev admin_token : IdToken
admin_token = record {
  claims = some (record { sub = "7"; email = ""; name = "Ann"; preferred_username = "" });
  all = some (("role", text "admin") ∷ []);
}

abbrev accounts : Libraries
accounts = record {
  hash_password = λ password. none;
  check_password = λ password hash. false;
  openid = record {
    discover = λ issuer. bytes_eq issuer (codes "id.example");
    verify = λ v raw.
        if bytes_eq v.issuer (codes "id.example") && bytes_eq raw (codes "t1")
        then some admin_token
        else none;
  };
  store = record {
    secrets = ok [];
    now = 100;
    create = λ s. none;
    delete = λ n. none;
    random_key = none;
  };
}

abbrev openid_only : AuthConfig
openid_only = record {
  mode = codes "oidc";
  basic = record { enabled = false; user = ""; password = []; role = "" };
  oidc = record {
    enabled = true;
    issuer_url = "id.example/";
    client_id = "minato";
    role_claim = "role";
  };
  api_key_enabled = false;
  has_key_storage = false;
}

abbrev discovered : OidcProvider
discovered = record {
  verifier = record { issuer = codes "id.example"; client_id = "minato" };
  role_claim = "role";
}

abbrev with_token : Request
with_token = record {
  path = api_keys_path;
  api_key = [];
  authorization = codes "Bearer t1";
  basic_auth = none;
}

serve-IsVerified_example :
    IsVerified accounts.openid (configured openid_only.oidc) (extract_bearer with_token)
unfolding serve middleware and_then authenticate_chain authenticate authenticate_oidc oidc_user
    oidc_role oidc_username lookup extract_bearer new_oidc_provider trim_slash build_chain add_modes
    add_mode add_basic add_oidc onto_chain or_none_provider cut_prefix to_lower trim_space
    trim_space_left trim_space_right default_rules namespaced_rules api_key_rules route_guard decide
    contains_role cluster_wide namespace_guard namespace_from_path namespace_of has_prefix but_last
    match_path match_segments is_template segments ends_with bytes_eq trim trim_left trim_right
    split
serve-IsVerified_example =
    serve-IsVerified accounts openid_only (oidc discovered ∷ []) "GET" with_token refl refl refl
      refl refl

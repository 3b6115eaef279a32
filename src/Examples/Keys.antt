-- ===== src/Examples/Keys.antt =====
-- API keys, and requests that carry one, at concrete inputs.
use minato.Prelude.{
  ◌≡◌, refl, ◌↔◌, ◌⊎◌, true, false, inl, inr, some, none, [], ◌∷◌, List, codes, Bytes, Memᴰ, All,
  Any, arith, bytes_eq, split, trim_space, trim_space_left, trim_space_right, to_lower, has_prefix,
  ends_with, but_last, trim, trim_left, trim_right,
}
use minato.Cluster.{ok}
use minato.ControlPlane.Namespaces.{
  User, cluster_wide, parse_namespaces, non_empty_parts, allows_namespace, match_any_namespace,
  match_namespace_pattern,
}
use minato.ControlPlane.Rules.{
  RouteRule, operators, api_keys_path, default_rules, namespaced_rules, api_key_rules, segments,
  match_path, match_segments, is_template, namespace_from_path, namespace_of,
}
use minato.ControlPlane.Guards.{decide, contains_role, route_guard, namespace_guard}
use minato.ControlPlane.Access.{IsAllowed, IsAdmin}
use minato.ControlPlane.Keys.{
  ApiKeyEntry, Secret, unset, to_secret, from_secret, with_key, with_name, with_namespaces,
  with_expiry, expired, find_key, KeyStore, get_key,
}
use minato.ControlPlane.Stored.{IsPattern, IsHeld, from_secret-to_secret, get_key-IsHeld}
use minato.ControlPlane.Blank.{blank_namespaces-cluster_wide}
use minato.ControlPlane.Providers.{
  Request, none_provider, api_key_provider, Libraries, user_of, key_value, authenticate,
  authenticate_api_key, authenticate_chain,
}
use minato.ControlPlane.Chain.{
  AuthConfig, add_basic, add_oidc, add_mode, add_modes, onto_chain, or_none_provider, build_chain,
  middleware, and_then, serve,
}
use minato.ControlPlane.Chained.{serve-IsAdmin, serve-IsAllowed}
use minato.ControlPlane.Open.{IsNone, NamesNone, AddsNothing, build_chain-open}

abbrev tenant_key : ApiKeyEntry
tenant_key = record {
  name = codes "ci";
  key_id = codes "k1";
  user_id = "1";
  username = "tenant";
  role = "operator";
  created_at = 5;
  namespaces = codes "a*" ∷ codes "b" ∷ [];
  expires_at = some 2000000001;
}

abbrev root_key : ApiKeyEntry
root_key = record tenant_key {
  name = codes "root";
  key_id = codes "k2";
  username = "root";
  role = "admin";
  namespaces = [];
  expires_at = none;
}

tenant_patterns : All IsPattern (codes "a*" ∷ codes "b" ∷ [])
unfolding trim_space trim_space_left trim_space_right
tenant_patterns = (
  (refl, ((λ e. omega (arith, e)), ((λ e. omega (arith, e)), tt)), refl),
  ((refl, ((λ e. omega (arith, e)), tt), refl), tt),
)

from_secret-to_secret_example :
    from_secret (to_secret tenant_key) ≡ record tenant_key { expires_at = some 2000000000 }
from_secret-to_secret_example = from_secret-to_secret tenant_key tenant_patterns

abbrev tenant_secret : Secret
tenant_secret = record {
  name = codes "minato-apikey-ci";
  created_by = "tenant";
  key = some (codes "k1");
  metadata = some tenant_key;
  namespaces = codes "a*,b";
  expires_at = unset;
}

abbrev root_secret : Secret
root_secret = record {
  name = codes "minato-apikey-root";
  created_by = "root";
  key = some (codes "k2");
  metadata = some root_key;
  namespaces = [];
  expires_at = unset;
}

abbrev pub store : KeyStore
store = record {
  secrets = ok (tenant_secret ∷ root_secret ∷ []);
  now = 100;
  create = λ secret. none;
  delete = λ name. none;
  random_key = none;
}

get_key-IsHeld_example :
    (secrets : List Secret) × (store.secrets ≡ ok secrets)
    × IsHeld secrets 100 (codes "k2") root_key
unfolding get_key find_key expired from_secret with_key with_name with_namespaces with_expiry
    bytes_eq
get_key-IsHeld_example = get_key-IsHeld store (codes "k2") root_key refl

-- Only a comma and a space.
abbrev blank_secret : Secret
blank_secret = record tenant_secret { namespaces = codes ", " }

blank_namespaces-cluster_wide_example : cluster_wide (user_of (from_secret blank_secret)) ≡ true
blank_namespaces-cluster_wide_example =
    blank_namespaces-cluster_wide blank_secret refl (inl refl, (inr refl, tt))

abbrev no_libraries : Libraries
no_libraries = record {
  hash_password = λ password. none;
  check_password = λ password hash. false;
  openid = record { discover = λ issuer. false; verify = λ v raw. none };
  store = store;
}

-- The mode names OIDC, which is not enabled.
abbrev not_enabled : AuthConfig
not_enabled = record {
  mode = codes "oidc";
  basic = record { enabled = false; user = ""; password = []; role = "" };
  oidc = record { enabled = false; issuer_url = ""; client_id = ""; role_claim = "groups" };
  api_key_enabled = false;
  has_key_storage = false;
}

build_chain-open_example : Any IsNone (none_provider ∷ []) ↔ (
    NamesNone no_libraries not_enabled (codes "oidc" ∷ [])
    ⊎ AddsNothing no_libraries not_enabled (codes "oidc" ∷ []))
unfolding build_chain add_modes add_mode add_basic add_oidc onto_chain or_none_provider split
    trim_space trim_space_left trim_space_right to_lower bytes_eq
build_chain-open_example = build_chain-open no_libraries not_enabled (none_provider ∷ []) refl

abbrev with_key_of : ApiKeyEntry → Bytes → Request
with_key_of key path = record {
  path = path;
  api_key = key.key_id;
  authorization = [];
  basic_auth = none;
}

serve-IsAdmin_example :
    (u : User) × (authenticate_chain no_libraries
        (api_key_provider ∷ [])
        (with_key_of root_key api_keys_path)
      ≡ some u)
    × IsAdmin (some u)
unfolding serve middleware and_then authenticate_chain authenticate authenticate_api_key key_value
    user_of get_key find_key expired from_secret with_key with_name with_namespaces with_expiry
    default_rules namespaced_rules api_key_rules route_guard decide contains_role cluster_wide
    namespace_guard namespace_from_path namespace_of match_path match_segments is_template segments
    ends_with bytes_eq trim trim_left trim_right split
serve-IsAdmin_example =
    serve-IsAdmin no_libraries (api_key_provider ∷ []) "DELETE" (with_key_of root_key api_keys_path)
      (inl refl) refl

abbrev patch_path : Bytes
patch_path = codes "/api/v1/gameservers/alpha/survival"

abbrev patch_rule : RouteRule
patch_rule = record {
  method = "PATCH";
  pattern = codes "/api/v1/gameservers/{namespace}/{name}";
  roles = operators;
  cluster_wide = false;
}

serve-IsAllowed_example :
    (u : User) × (authenticate_chain no_libraries
        (api_key_provider ∷ [])
        (with_key_of tenant_key patch_path)
      ≡ some u)
    × IsAllowed u (segments patch_path)
unfolding serve middleware and_then authenticate_chain authenticate authenticate_api_key key_value
    user_of get_key find_key expired from_secret with_key with_name with_namespaces with_expiry
    parse_namespaces non_empty_parts trim_space trim_space_left trim_space_right default_rules
    namespaced_rules api_key_rules route_guard decide contains_role cluster_wide namespace_guard
    namespace_from_path namespace_of allows_namespace match_any_namespace match_namespace_pattern
    has_prefix but_last match_path match_segments is_template segments ends_with bytes_eq trim
    trim_left trim_right split
serve-IsAllowed_example =
    serve-IsAllowed no_libraries (api_key_provider ∷ []) "PATCH" (with_key_of tenant_key patch_path)
      patch_rule (Memᴰ.tail (Memᴰ.tail (Memᴰ.head refl))) refl refl

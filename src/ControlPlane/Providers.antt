-- ===== src/ControlPlane/Providers.antt =====
-- The providers of authentication, their chain and the middleware, internal/controlplane/auth. A
-- request is what the code reads of it; bcrypt and the OIDC library are parameters.
use minato.Prelude.{
  Bool, not, ◌||◌, Option, none, some, List, [], ◌∷◌, if◌then◌else◌, String, codes, Bytes, str_eq,
  is_nil, cut_prefix, has_prefix, trim_space,
}
use minato.ControlPlane.Namespaces.{User}
use minato.ControlPlane.Oidc.{OidcProvider, OidcLibrary, authenticate_oidc}
use minato.ControlPlane.Keys.{ApiKeyEntry, KeyStore, get_key}

-- The path, the headers, and the user and password of `r.BasicAuth()`.
pub record Request : Type 0 where
  pub path : Bytes
  pub api_key : Bytes
  pub authorization : Bytes
  pub basic_auth : Option (String × Bytes)

pub record BasicConfig : Type 0 where
  pub enabled : Bool
  pub user : String
  pub password : Bytes
  pub role : String

pub record BasicProvider : Type 0 where
  pub user : String
  pub password : Bytes
  pub role : String

pub data Provider : Type 0 where
  none_provider : Provider
  basic : BasicProvider → Provider
  oidc : OidcProvider → Provider
  api_key_provider : Provider

-- What the libraries answer: bcrypt's hash and comparison, and the library of OpenID Connect; and the
-- store of the API keys.
pub record Libraries : Type 0 where
  pub hash_password : Bytes → Option Bytes
  pub check_password : Bytes → Bytes → Bool
  pub openid : OidcLibrary
  pub store : KeyStore

unfoldable pub extract_bearer : Request → Bytes
extract_bearer r = elim (cut_prefix r.authorization (codes "Bearer ")) [
  | none ↦ []
  | some token ↦ trim_space token
]

abbrev pub anonymous : User
anonymous = record {
  id = "anonymous";
  username = "anonymous";
  email = "";
  role = "admin";
  source = "none";
  namespaces = [];
}

unfoldable pub is_bcrypt : Bytes → Bool
is_bcrypt s =
    has_prefix s (codes "$2a$") || (has_prefix s (codes "$2b$") || has_prefix s (codes "$2y$"))

unfoldable pub user_of : ApiKeyEntry → User
user_of entry = record {
  id = entry.user_id;
  username = entry.username;
  email = "";
  role = entry.role;
  source = "apikey";
  namespaces = entry.namespaces;
}

-- The header X-API-Key, or else the bearer token.
unfoldable pub key_value : Request → Bytes
unfolding extract_bearer
key_value r = if is_nil r.api_key then extract_bearer r else r.api_key

module _ (l : Libraries) where
  -- `none` is an error.
  unfoldable pub new_basic_provider : BasicConfig → Option BasicProvider
  new_basic_provider cfg =
      if str_eq cfg.user "" || is_nil cfg.password
      then none
      else if not (is_bcrypt cfg.password)
      then elim (l.hash_password cfg.password) [
        | none ↦ none
        | some hash ↦ some (record { user = cfg.user; password = hash; role = cfg.role })
      ]
      else some (record { user = cfg.user; password = cfg.password; role = cfg.role })

  unfoldable pub authenticate_basic : BasicProvider → Request → Option User
  authenticate_basic p r = elim r.basic_auth [
    | none ↦ none
    | some (user, pass) ↦
        if not (str_eq user p.user)
        then none
        else if not (l.check_password pass p.password)
        then none
        else some (record {
          id = user;
          username = user;
          email = "";
          role = p.role;
          source = "basic";
          namespaces = [];
        })
  ]

  unfoldable pub authenticate_api_key : Request → Option User
  unfolding user_of key_value
  authenticate_api_key r =
      if is_nil (key_value r)
      then none
      else elim (get_key l.store (key_value r)) [ none ↦ none | some entry ↦ some (user_of entry) ]

  -- `Authenticate` of each provider; `none` is an error.
  unfoldable pub authenticate : Provider → Request → Option User
  unfolding authenticate_basic authenticate_api_key authenticate_oidc extract_bearer
  authenticate none_provider r = some anonymous
  authenticate (basic p) r = authenticate_basic p r
  authenticate (oidc p) r = authenticate_oidc l.openid p (extract_bearer r)
  authenticate api_key_provider r = authenticate_api_key r

  unfoldable pub authenticate_chain : List Provider → Request → Option User
  authenticate_chain [] r = none
  authenticate_chain (p ∷ ps) r =
      let rest = authenticate_chain ps r in
      elim (authenticate p r) [ none ↦ rest | some u ↦ some u ]

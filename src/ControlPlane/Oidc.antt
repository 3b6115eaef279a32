-- ===== src/ControlPlane/Oidc.antt =====
-- The provider of OpenID Connect, internal/controlplane/auth/oidc.go. The discovery of an issuer and the
-- verification of a token are parameters.
use minato.Prelude.{
  Bool, not, ◌||◌, Option, none, some, List, [], ◌∷◌, if◌then◌else◌, String, codes, Bytes, str_eq,
  is_nil, ends_with, but_last,
}
use minato.Api.Meta.{lookup}
use minato.ControlPlane.Namespaces.{User}

pub record OidcConfig : Type 0 where
  pub enabled : Bool
  pub issuer_url : String
  pub client_id : String
  pub role_claim : String

-- The verifier of a client at an issuer.
pub record Verifier : Type 0 where
  pub issuer : Bytes
  pub client_id : String

pub record OidcProvider : Type 0 where
  pub verifier : Verifier
  pub role_claim : String

pub record OidcClaims : Type 0 where
  pub sub : String
  pub email : String
  pub name : String
  pub preferred_username : String

-- A claim as JSON: a text, an array of which the texts matter, or anything else.
pub data ClaimValue : Type 0 where
  text : String → ClaimValue
  array : List (Option String) → ClaimValue
  neither : ClaimValue

-- A verified token: its claims as a struct and as a map, where they decode.
pub record IdToken : Type 0 where
  pub claims : Option OidcClaims
  pub all : Option (List (String × ClaimValue))

-- Whether an issuer is found, and the token of a text that a verifier accepts.
pub record OidcLibrary : Type 0 where
  pub discover : Bytes → Bool
  pub verify : Verifier → Bytes → Option IdToken

-- `strings.TrimSuffix(s, "/")`.
unfoldable pub trim_slash : Bytes → Bytes
trim_slash s = if ends_with s 47 then but_last s else s

abbrev role_value : ClaimValue → String
role_value (text v) = v
role_value (array (some s ∷ rest)) = s
role_value (array (none ∷ rest)) = "viewer"
role_value (array []) = "viewer"
role_value neither = "viewer"

abbrev role_in : Option (List (String × ClaimValue)) → String → String
role_in none claim = "viewer"
role_in (some claims) claim = elim (lookup claim claims) [ none ↦ "viewer" | some v ↦ role_value v ]

-- The role that the configured claim names.
unfoldable pub oidc_role : OidcProvider → IdToken → String
unfolding lookup
oidc_role p token =
    if not (str_eq p.role_claim "") then role_in token.all p.role_claim else "viewer"

unfoldable pub oidc_username : OidcClaims → String
oidc_username claims =
    if not (str_eq claims.preferred_username "")
    then claims.preferred_username
    else if not (str_eq claims.name "")
    then claims.name
    else claims.sub

unfoldable pub oidc_user : OidcProvider → IdToken → OidcClaims → User
unfolding oidc_role oidc_username
oidc_user p token claims = record {
  id = claims.sub;
  username = oidc_username claims;
  email = claims.email;
  role = oidc_role p token;
  source = "oidc";
  namespaces = [];
}

module _ (l : OidcLibrary) where
  -- `none` is an error.
  unfoldable pub new_oidc_provider : OidcConfig → Option OidcProvider
  unfolding trim_slash
  new_oidc_provider cfg =
      if str_eq cfg.issuer_url "" || str_eq cfg.client_id ""
      then none
      else if not (l.discover (trim_slash (codes cfg.issuer_url)))
      then none
      else some (record {
        verifier = record { issuer = trim_slash (codes cfg.issuer_url); client_id = cfg.client_id };
        role_claim = cfg.role_claim;
      })

  -- `Authenticate`, from the bearer token of the request.
  unfoldable pub authenticate_oidc : OidcProvider → Bytes → Option User
  unfolding oidc_user
  authenticate_oidc p raw = if is_nil raw then none else elim (l.verify p.verifier raw) [
    | none ↦ none
    | some token ↦ elim token.claims [ none ↦ none | some claims ↦ some (oidc_user p token claims) ]
  ]

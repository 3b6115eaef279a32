-- ===== src/ControlPlane/Chain.antt =====
-- The chain of the providers, the middleware and the order of the guards, internal/controlplane/auth/auth.go
-- and cmd/controlplane/main.go.
use minato.Prelude.{
  Bool, ◌&&◌, ◌||◌, Option, none, some, List, [], ◌∷◌, if◌then◌else◌, String, codes, Bytes,
  bytes_eq, trim_space, to_lower, split,
}
use minato.ControlPlane.Namespaces.{User, comma}
use minato.ControlPlane.Rules.{default_rules}
use minato.ControlPlane.Guards.{
  Verdict, passes, unauthorized, forbidden, route_guard, namespace_guard,
}
use minato.ControlPlane.Oidc.{OidcConfig, new_oidc_provider}
use minato.ControlPlane.Providers.{
  BasicConfig, Provider, none_provider, basic, oidc, api_key_provider, Request, Libraries,
  new_basic_provider, authenticate_chain,
}

-- The configuration, and whether a store of API keys is given.
pub record AuthConfig : Type 0 where
  pub mode : Bytes
  pub basic : BasicConfig
  pub oidc : OidcConfig
  pub api_key_enabled : Bool
  pub has_key_storage : Bool

-- The provider that a step of the loop adds, if it adds one, or an error.
pub data Added : Type 0 where
  nothing : Added
  adds : Provider → Added
  refuses : Added

-- A provider goes before those of the later modes.
unfoldable pub onto_chain : Added → Option (List Provider) → Option (List Provider)
onto_chain refuses rest = none
onto_chain nothing rest = rest
onto_chain (adds p) none = none
onto_chain (adds p) (some ps) = some (p ∷ ps)

-- Without providers everyone is let in.
unfoldable pub or_none_provider : List Provider → List Provider
or_none_provider [] = none_provider ∷ []
or_none_provider (p ∷ ps) = p ∷ ps

module _ (l : Libraries) (cfg : AuthConfig) where
  unfoldable pub add_basic : Added
  add_basic =
      if cfg.basic.enabled
      then elim (new_basic_provider l cfg.basic) [ none ↦ refuses | some p ↦ adds (basic p) ]
      else nothing

  unfoldable pub add_oidc : Added
  add_oidc =
      if cfg.oidc.enabled
      then elim (new_oidc_provider l.openid cfg.oidc) [ none ↦ refuses | some p ↦ adds (oidc p) ]
      else nothing

  -- The switch over the name of a mode.
  unfoldable pub add_mode : Bytes → Added
  unfolding add_basic add_oidc
  add_mode mode =
      if bytes_eq mode (codes "none")
      then adds none_provider
      else if bytes_eq mode (codes "basic")
      then add_basic
      else if bytes_eq mode (codes "oidc")
      then add_oidc
      else if bytes_eq mode (codes "apikey")
      then (if cfg.api_key_enabled && cfg.has_key_storage then adds api_key_provider else nothing)
      else nothing

  -- The loop over the modes; `none` is an error.
  unfoldable pub add_modes : List Bytes → Option (List Provider)
  unfolding onto_chain
  add_modes [] = some []
  add_modes (mode ∷ modes) = onto_chain (add_mode (trim_space (to_lower mode))) (add_modes modes)

  unfoldable pub build_chain : Option (List Provider)
  unfolding add_modes or_none_provider
  build_chain = elim (add_modes (split comma cfg.mode)) [
    | none ↦ none
    | some ps ↦ some (or_none_provider ps)
  ]

-- The answer of the middleware: 401, or the next handler with a user, if there is one.
pub data Handled : Type 0 where
  rejected : Handled
  served : Option User → Handled

abbrev pub is_public : Bytes → Bool
is_public path =
    bytes_eq path (codes "/healthz")
    || (bytes_eq path (codes "/readyz") || bytes_eq path (codes "/auth/config"))

unfoldable pub middleware : Libraries → List Provider → Request → Handled
middleware l chain r =
    if is_public r.path
    then served none
    else elim (authenticate_chain l chain r) [ none ↦ rejected | some u ↦ served (some u) ]

-- The next handler runs only if this one passes.
unfoldable pub and_then : Verdict → Verdict → Verdict
and_then passes next = next
and_then unauthorized next = unauthorized
and_then forbidden next = forbidden

-- The middlewares in the order of cmd/controlplane/main.go: authentication, the guard of the routes and
-- that of the namespaces.
unfoldable pub serve : Libraries → List Provider → String → Request → Verdict
unfolding middleware
serve l chain method r = elim (middleware l chain r) [
  | rejected ↦ unauthorized
  | served user ↦
      and_then (route_guard default_rules method r.path user) (namespace_guard r.path user)
]

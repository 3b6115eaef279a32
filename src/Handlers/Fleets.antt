-- ===== src/Handlers/Fleets.antt =====
-- The handlers of fleets, cmd/controlplane/main.go.
use minato.Prelude.{
  ℤ, pos, String, ◌⧺◌, quote, Option, none, some, List, [], ◌∷◌, if◌then◌else◌, str_eq, codes,
  ltb_ℤ,
}
use minato.Cluster.{message, Outcome, ok, fail, Key, M, ◌>>=◌, ◌>>◌, pure, ask, tell}
use minato.Api.Fleet.{GameServerFleet}
use minato.ControlPlane.Namespaces.{User}
use minato.Tenant.Config.{Config}
use minato.Tenant.Provision.{Ensured, ensured, failed, panicked}
use minato.Handlers.Model.{
  Body, failure, empty, fleet, fleets, Response, respond, Call, list_fleets, get_fleet,
  create_fleet, update_fleet, delete_fleet, get_profile, log_action, World, write_error,
  bad_request, may_see, ensured_namespace,
}
use minato.Handlers.Model

unfoldable pub visible_fleets : Option User → List GameServerFleet → List GameServerFleet
visible_fleets user [] = []
visible_fleets user (f ∷ list) =
    let rest = visible_fleets user list in
    if may_see user f.metadata.namespace then f ∷ rest else rest

abbrev pub fleet_in : String → GameServerFleet → GameServerFleet
fleet_in namespace f = record f { metadata = record (f.metadata) { namespace = namespace } }

abbrev pub with_replicas : ℤ → GameServerFleet → GameServerFleet
with_replicas n f = record f { spec = record (f.spec) { replicas = n } }

module _ (w : World) (user : Option User) where
  unfoldable pub list_game_server_fleets : M Call Response
  unfolding visible_fleets
  list_game_server_fleets = do
    listed ← ask list_fleets w.fleets
    pure (elim listed [
      | fail e ↦ write_error 500 e
      | ok list ↦ respond 200 (fleets (visible_fleets user list))
    ])

  unfoldable pub get_game_server_fleet : Key → M Call Response
  get_game_server_fleet k = do
    found ← ask (get_fleet k) (λ t. w.fleet t k)
    pure (elim found [ fail e ↦ write_error 404 e | ok f ↦ respond 200 (fleet f) ])

  unfoldable pub store_fleet : GameServerFleet → M Call Response
  store_fleet placed = do
    err ← ask (create_fleet placed) (λ t. w.write t (create_fleet placed))
    elim err [
      | some e ↦ pure (write_error 500 e)
      | none ↦ do
        tell (log_action "gameserverfleet.created" (codes placed.metadata.name) user)
        pure (respond 201 (fleet placed))
    ]

  -- From the provisioned namespace on.
  unfoldable pub place_fleet : GameServerFleet → Ensured → M Call Response
  unfolding store_fleet
  place_fleet f (failed e) t = (write_error 500 e, t)
  place_fleet f panicked t = (minato.Handlers.Model.panicked, t)
  place_fleet f ensured t = store_fleet f t

  unfoldable pub create_game_server_fleet :
      Config → String → Outcome GameServerFleet → M Call Response
  unfolding ensured_namespace place_fleet
  create_game_server_fleet cfg namespace (fail e) = pure (write_error 400 e)
  create_game_server_fleet cfg namespace (ok f) =
      if str_eq f.spec.profile ""
      then pure (bad_request "spec.profile is required")
      else if ltb_ℤ f.spec.replicas (pos 0)
      then pure (bad_request "spec.replicas must be >= 0")
      else (do
        found ← ask (get_profile f.spec.profile) (λ t. w.profile t f.spec.profile)
        elim found [
          | fail e ↦
              pure (bad_request ("profile " ⧺ quote f.spec.profile ⧺ " not found: " ⧺ message e))
          | ok p ↦ ensured_namespace w cfg namespace >>= place_fleet (fleet_in namespace f)
        ])

  -- From the checked patch on.
  unfoldable pub scale_fleet : Key → ℤ → M Call Response
  scale_fleet k n = do
    found ← ask (get_fleet k) (λ t. w.fleet t k)
    elim found [
      | fail e ↦ pure (write_error 404 e)
      | ok f ↦ do
        err ←
            ask (update_fleet (with_replicas n f))
              (λ t. w.write t (update_fleet (with_replicas n f)))
        elim err [
          | some e ↦ pure (write_error 500 e)
          | none ↦ do
            tell (log_action "gameserverfleet.scaled" (codes f.metadata.name) user)
            pure (respond 200 (fleet (with_replicas n f)))
        ]
    ]

  -- The patch is its only field.
  unfoldable pub update_game_server_fleet : Key → Outcome (Option ℤ) → M Call Response
  unfolding scale_fleet
  update_game_server_fleet k (fail e) =
      pure (bad_request ("invalid patch: only spec.replicas may be set: " ⧺ message e))
  update_game_server_fleet k (ok none) = pure (bad_request "patch must set spec.replicas")
  update_game_server_fleet k (ok (some n)) =
      if ltb_ℤ n (pos 0) then pure (bad_request "spec.replicas must be >= 0") else scale_fleet k n

  unfoldable pub delete_game_server_fleet : Key → M Call Response
  delete_game_server_fleet k = do
    err ← ask (delete_fleet k) (λ t. w.write t (delete_fleet k))
    elim err [
      | some e ↦ pure (write_error 500 e)
      | none ↦ do
        tell (log_action "gameserverfleet.deleted" (codes k.name) user)
        pure (respond 204 empty)
    ]

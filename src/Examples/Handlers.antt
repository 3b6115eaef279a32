-- ===== src/Examples/Handlers.antt =====
-- The handlers of the control plane at concrete inputs.
use minato.Prelude.{◌≡◌, refl, ◌↔◌, Memᴰ, All, true, false, none, some, pos, [], ◌∷◌, codes, List}
use minato.Cluster.{not_found, ok, fail, key}
use minato.Api.GameServer.{GameServer}
use minato.ControlPlane.Namespaces.{User, allows_namespace}
use minato.Handlers.Model.{World, respond, servers}
use minato.Handlers.Servers.{update_game_server_lifecycle, create_game_server, list_game_servers}
use minato.Handlers.Changes.{
  updated, created, ChangesLifecycle, IsPlaced, updated-update_game_server_lifecycle,
  created-create_game_server, list_game_servers-shown,
}
use minato.Examples.Data.{survival, minecraft}
use minato.Examples.Keys.{store}
use minato.Examples.Tenant.{settings, accepting}

abbrev api : World
api = record {
  servers = λ t. ok (survival ∷ []);
  server = λ t k. ok survival;
  profile = λ t name. ok minecraft;
  profiles = λ t. ok (minecraft ∷ []);
  fleets = λ t. ok [];
  fleet = λ t k. fail (not_found "fleet");
  execution = λ t k. fail (not_found "execution");
  secret = λ t k. fail (not_found "secret");
  found_snapshots = λ t. ok [];
  snapshots = λ t. ok [];
  write = λ t call. none;
  store = λ t. store;
  tenant = λ t. accepting;
  clock = λ t. 5;
}

abbrev player : User
player = record {
  id = "7";
  username = "player";
  email = "";
  role = "viewer";
  source = "apikey";
  namespaces = codes "games" ∷ [];
}

updated-update_game_server_lifecycle_example : All (ChangesLifecycle survival) (
    updated
      (update_game_server_lifecycle api
        (some player)
        (key "survival" "games")
        (ok (record { auto_start = some false; idle_timeout_seconds = some (pos 600) }))
        []).1)
updated-update_game_server_lifecycle_example =
    updated-update_game_server_lifecycle api (some player) (key "survival" "games")
      (ok (record { auto_start = some false; idle_timeout_seconds = some (pos 600) })) survival refl

created-create_game_server_example :
    All
      (IsPlaced api (some player) settings "shop")
      (created (create_game_server api (some player) settings "shop" (ok survival) []).1)
created-create_game_server_example =
    created-create_game_server api (some player) settings "shop" (ok survival)

list_game_servers-shown_example :
    (shown : List GameServer) × ((list_game_servers api (some player) []).0
      ≡ respond 200 (servers shown))
    × (Memᴰ survival shown
        ↔ (Memᴰ survival (survival ∷ []) × (allows_namespace player (codes "games") ≡ true)))
list_game_servers-shown_example = list_game_servers-shown api player (survival ∷ []) survival refl

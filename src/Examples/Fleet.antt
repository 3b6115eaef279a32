-- ===== src/Examples/Fleet.antt =====
-- The fleet controller at concrete inputs.
use minato.Prelude.{
  ℕ, zero, suc, ◌<◌, sym, ap, ◌∙◌, not-Memᴰ-nil, itoa, if◌then◌else◌, str_eq, ◌+◌, ℤ, pos, ◌≡◌,
  refl, ◌≢◌, ◌⊎◌, String, false, none, some, List, [], ◌∷◌, ◌++◌, map, Memᴰ, arith, length, eq_iff,
}
use mathlib.Core.List.{Perm}
use minato.Cluster.{ok, ApiErr, key, errored, message}
use minato.Api.GameServer.{GameServer}
use minato.Api.Fleet.{GameServerFleet}
use minato.Controllers.Fleet.Model.{World, create_server}
use minato.Controllers.Fleet.Template.{build_game_server, server_name}
use minato.Controllers.Fleet.Selection.{before, select_servers_to_delete, servers_to_update}
use minato.Controllers.Fleet.Status.{drain_timeout}
use minato.Controllers.Fleet.Loop.{
  drain_server, delete_one, shut_down, server_key, delete_all, reconcile_servers, finalize,
}
use minato.Controllers.Fleet.Deletion.{select_splits}
use minato.Controllers.Fleet.Rollout.{default_never_updates}
use minato.Controllers.Fleet.Scaling.{created, deleted, delete_all_only}
use minato.Controllers.Fleet.Replicas.{scale_up_reaches}
use minato.Controllers.Fleet.Collision.{key_at, IsTaken, scale_up_collides}
use minato.Controllers.Fleet.Finalizer.{deletion, answer, listing, IsReleased, finalize_releases}
use minato.Controllers.Deletions.{IsHeld}
use minato.Api.Meta.{contains_finalizer}
use minato.Examples.Data.{named, server_of}

abbrev fleet_of : ℤ → String → GameServerFleet
fleet_of replicas strategy = record {
  metadata = record (named "lobby") { finalizers = "minato.io/gameserverfleet-finalizer" ∷ [] };
  spec = record {
    profile = "minecraft";
    replicas = replicas;
    template = record {
      metadata = record { labels = []; annotations = [] };
      spec = record { env = [] };
    };
    update_strategy = record { type = strategy; rolling_update = none };
    priority_class_name = "";
    topology_spread_constraints = [];
  };
  status = record {
    replicas = pos 0;
    ready_replicas = pos 0;
    updated_replicas = pos 0;
    conditions = [];
  };
}

-- Two servers of the fleet: one full and old, one empty and new.
abbrev full : GameServer
full = server_of "lobby-0" 8 10

abbrev empty : GameServer
empty = server_of "lobby-1" 0 50

abbrev pair : List GameServer
pair = full ∷ empty ∷ []

-- A world that accepts everything.
abbrev willing : World
willing = record {
  fleet = λ t k. ok (fleet_of (pos 2) "RollingUpdate");
  put_fleet = λ t f. none;
  put_status = λ t f. none;
  servers = λ t ns name. ok pair;
  own = λ f s. ok s;
  create = λ t s. none;
  delete = λ t k. none;
  connect = λ t k. none;
  shutdown = λ t k n. none;
  clock = λ t. 1000;
}

abbrev rolling : String
rolling = "RollingUpdate"

not_on_delete : rolling ≢ "OnDelete"
not_on_delete = ground (arith, eq_iff rolling "OnDelete")

select_splits_example :
    (chosen : List GameServer) × (kept : List GameServer) × (select_servers_to_delete pair
        (pos 1)
        "RollingUpdate"
      ≡ some chosen)
    × Perm (chosen ++ kept) pair
    × (length kept ≡ 1)
    × ((c k : GameServer) → Memᴰ c chosen → Memᴰ k kept → before k c ≡ false)
select_splits_example =
    select_splits pair 1 "RollingUpdate" not_on_delete (omega arith) (omega arith)

-- Three unavailable servers are allowed, and both servers of the pair are outdated.
abbrev patient : GameServerFleet
patient = record (fleet_of (pos 2) "RollingUpdate") {
  spec = record (fleet_of (pos 2) "RollingUpdate").spec {
    profile = "terraria";
    update_strategy = record {
      type = "RollingUpdate";
      rolling_update = some (record {
        max_unavailable = some (pos 3);
        max_surge = none;
        drain_timeout_seconds = pos 0;
      });
    };
  };
}

default_never_updates_example : servers_to_update (fleet_of (pos 2) "RollingUpdate") pair ≡ []
default_never_updates_example =
    default_never_updates (fleet_of (pos 2) "RollingUpdate") pair refl (omega arith)

delete_all_only_example :
    Memᴰ (key "lobby-1" "games") (map server_key (empty ∷ []))
    ⊎ Memᴰ (key "lobby-1" "games") (deleted [])
unfolding delete_all drain_server delete_one drain_timeout shut_down
delete_all_only_example =
    delete_all_only willing patient (empty ∷ []) [] (key "lobby-1" "games") (Memᴰ.head refl)

abbrev taken : ApiErr
taken = ApiErr.already_exists "gameservers already exists"

-- After the scale-down that deletes lobby-0, a server of the name lobby-1 cannot be created.
abbrev crowded : World
crowded = record willing {
  servers = λ t ns name. ok (empty ∷ []);
  create = λ t s. if str_eq s.metadata.name "lobby-1" then some taken else none;
}

abbrev lobby : GameServerFleet
lobby = fleet_of (pos 2) "RollingUpdate"

key_at-zero : key_at lobby 0 ≡ server_key full
unfolding build_game_server server_name itoa
key_at-zero = refl

key_at-one : key_at lobby 1 ≡ server_key empty
unfolding build_game_server server_name itoa
key_at-one = refl

pair-all : (i : ℕ) → i < 2 → Memᴰ (key_at lobby i) (map server_key ((full ∷ []) ++ (empty ∷ [])))
pair-all zero small = Memᴰ.head key_at-zero
pair-all (suc zero) small = Memᴰ.tail (Memᴰ.head key_at-one)
pair-all (suc (suc i)) small = absurd (omega (arith, small))

one-spared : ¬ Memᴰ (key_at lobby 1) (map server_key (full ∷ []))
one-spared (Memᴰ.head e) =
    ground (arith, ap (λ k. k.name) (sym key_at-one ∙ e), eq_iff "lobby-1" "lobby-0")
one-spared (Memᴰ.tail m) = not-Memᴰ-nil m

one-IsTaken :
    (s : GameServer) → Memᴰ (server_key s) (map server_key (empty ∷ [])) → IsTaken crowded [] s
one-IsTaken s (Memᴰ.head e) =
    (taken, ap (λ k. if str_eq k.name "lobby-1" then some taken else none) e, refl)
one-IsTaken s (Memᴰ.tail m) = absurd (not-Memᴰ-nil m)

scale_up_collides_example :
    (e : ApiErr) × (crowded.create [] (build_game_server lobby 1) ≡ some e)
    × (reconcile_servers crowded lobby (empty ∷ []) []
        ≡ (errored (message e), create_server (build_game_server lobby 1) ∷ []))
scale_up_collides_example =
    scale_up_collides crowded lobby 2 (full ∷ []) (empty ∷ []) (λ s. s) [] pair-all (omega arith)
      one-spared refl (λ s. refl) (λ s. refl) one-IsTaken

scale_up_reaches_example :
    2 + length (created (reconcile_servers willing (fleet_of (pos 5) "RollingUpdate") pair []).1)
    ≡ 5
scale_up_reaches_example =
    scale_up_reaches willing (fleet_of (pos 5) "RollingUpdate") (λ s. refl) (λ t s. refl) pair 5
      refl (omega arith)

finalize_releases_example :
    IsReleased willing pair (listing lobby []) (finalize willing lobby []).1
    ⊎ ((e : ApiErr) × IsHeld deletion
          (answer willing)
          pair
          (listing lobby [])
          e
          (finalize willing lobby []).1)
unfolding contains_finalizer
finalize_releases_example = finalize_releases willing lobby pair [] refl refl

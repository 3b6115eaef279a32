-- ===== src/Controllers/GameServer/Quiet.antt =====
-- The steps of GameServerReconciler that apply no stateful set.
use minato.Prelude.{◌≡◌, refl, String, Option, List, [], ◌∷◌, arith}
use minato.Cluster.{Outcome}
use minato.Api.GameServer.{GameServer}
use minato.Api.GameProfile.{GameProfile}
use minato.Controllers.GameServer.Model.{
  Call, delete, Resource, apply, stateful_set, Secret, StatefulSet, Config, World,
}
use minato.Controllers.GameServer.Secrets.{
  replicate_found, replicate, replicate_all, ensure_image_pull_secrets, ensure_sftp_secret,
  new_sftp_secret, create_sftp_secret,
}
use minato.Controllers.GameServer.Monitor.{
  reconcile_service_monitor, remove_service_monitor, warn_undetected, provide_service_monitor,
  create_or_update,
}
use minato.Api.Meta.{StringMap}
use minato.Controllers.GameServer.Agent.{
  check_agent_health, get_player_count, call_agent_shutdown, update_agent_status, scale_to_zero,
  check_activity, check_players, check_idle_timeout, resolve_endpoints,
}
use minato.Controllers.GameServer.Steps.{
  delete_all, cleanup_resources, update_stopped_status, update_status, stop_running, drain,
  drain_if_stopping, ensure_sftp,
}
use minato.Controllers.GameServer.Loop.{
  watch, finish_status, observe_set, observe, ensure_secrets, put_finalizers, finalize,
}

-- The stateful sets that were applied, newest first.
abbrev pub applied : List Call → List StatefulSet
applied [] = []
applied (apply (stateful_set s) ∷ t) = s ∷ applied t
applied (_ ∷ t) = applied t

module _ (w : World) (config : Config) where
  pub replicate_found-quiet :
      (name namespace : String) (src : Secret) (dst : Outcome Secret) (t : List Call)
      → applied (replicate_found w config name namespace src dst t).1 ≡ applied t
  unfolding replicate_found
  replicate_found-quiet name namespace src dst t = grind arith

  pub replicate-quiet :
      (namespace name : String) (t : List Call)
      → applied (replicate w config namespace name t).1 ≡ applied t
  unfolding replicate
  replicate-quiet namespace name t = grind (arith, replicate_found-quiet)

  pub replicate_all-quiet :
      (namespace : String) (names : List String) (t : List Call)
      → applied (replicate_all w config namespace names t).1 ≡ applied t
  unfolding replicate_all
  replicate_all-quiet namespace [] t = refl
  replicate_all-quiet namespace (name ∷ names) t = grind (
    arith,
    replicate-quiet namespace name t,
    replicate_all-quiet namespace names (replicate w config namespace name t).1,
  )

  pub ensure_secrets-quiet :
      (server : GameServer) (t : List Call)
      → applied (ensure_secrets w config server t).1 ≡ applied t
  unfolding ensure_secrets ensure_image_pull_secrets
  ensure_secrets-quiet server t = grind (arith, replicate_all-quiet)

  pub ensure_sftp-quiet :
      (server : GameServer) (profile : GameProfile) (t : List Call)
      → applied (ensure_sftp w config server profile t).1 ≡ applied t
  unfolding ensure_sftp ensure_sftp_secret new_sftp_secret create_sftp_secret
  ensure_sftp-quiet server profile t = grind arith

  pub monitor-quiet :
      (server : GameServer) (profile : GameProfile) (labels : StringMap) (t : List Call)
      → applied (reconcile_service_monitor w config server profile labels t).1 ≡ applied t
  unfolding reconcile_service_monitor remove_service_monitor warn_undetected provide_service_monitor
      create_or_update
  monitor-quiet server profile labels t = grind arith

  pub drain-quiet :
      (server : GameServer) (t : List Call)
      → applied (drain_if_stopping w config server t).1 ≡ applied t
  unfolding drain_if_stopping drain stop_running call_agent_shutdown
  drain-quiet server t = grind arith

  pub check_activity-quiet :
      (timeout : _) (server : GameServer) (sts : StatefulSet) (last : Option _) (t : List Call)
      → applied (check_activity w timeout server sts last t).1 ≡ applied t
  unfolding check_activity scale_to_zero call_agent_shutdown
  check_activity-quiet timeout server sts last t = grind arith

  pub check_idle_timeout-quiet :
      (server : GameServer) (sts : StatefulSet) (t : List Call)
      → applied (check_idle_timeout w server sts t).1 ≡ applied t
  unfolding check_idle_timeout check_players get_player_count
  check_idle_timeout-quiet server sts t = grind (arith, check_activity-quiet)

  pub watch-quiet :
      (server : GameServer) (sts : StatefulSet) (t : List Call)
      → applied (watch w config server sts t).1 ≡ applied t
  unfolding watch check_agent_health update_agent_status
  watch-quiet server sts t = grind (arith, check_idle_timeout-quiet)

  pub observe-quiet :
      (server : GameServer) (profile : GameProfile) (t : List Call)
      → applied (observe w config server profile t).1 ≡ applied t
  unfolding observe observe_set finish_status update_status resolve_endpoints update_stopped_status
  observe-quiet server profile t = grind (arith, watch-quiet)

  pub delete_all-quiet :
      (rs : List Resource) (t : List Call) → applied (delete_all w config rs t).1 ≡ applied t
  unfolding delete_all
  delete_all-quiet [] t = refl
  delete_all-quiet (r ∷ rest) t = ground (arith, delete_all-quiet rest (delete r ∷ t))

  pub finalize-quiet :
      (server : GameServer) (t : List Call) → applied (finalize w config server t).1 ≡ applied t
  unfolding finalize cleanup_resources put_finalizers
  finalize-quiet server t = grind (arith, delete_all-quiet)

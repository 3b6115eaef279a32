-- ===== src/Controllers/GameServer/Loop.antt =====
-- `Reconcile` of GameServerReconciler, made of its steps, internal/controllers/gameserver_controller.go.
use minato.Prelude.{
  pos, String, true, false, Option, none, some, List, ◌==◌, if◌then◌else◌, ltb, ltb_ℤ,
}
use minato.Cluster.{
  ok, fail, ApiErr, message, Key, M, ◌>>=◌, ◌>>◌, pure, ask, Reconciled, requeue, done, errored,
  unless_not_found, of_error,
}
use minato.Api.Meta.{contains_finalizer, add_finalizer, remove_finalizer}
use minato.Api.GameServer.{GameServer}
use minato.Api.GameProfile.{GameProfile}
use minato.Controllers.Builder.Model.{PodSpec}
use minato.Controllers.Builder.Pod.{build_game_server_pod_spec}
use minato.Controllers.GameServer.Model.{
  StatefulSet, Config, Call, get_server, update_server, get_profile, get_set, World,
  game_server_finalizer, agent_health_check_period,
}
use minato.Controllers.GameServer.Resources.{sts_ready, build_game_server_labels}
use minato.Controllers.GameServer.Monitor.{reconcile_service_monitor}
use minato.Controllers.GameServer.Secrets.{wrapped, ensure_image_pull_secrets}
use minato.Controllers.GameServer.Agent.{
  key_of, check_agent_health, update_agent_status, check_idle_timeout,
}
use minato.Controllers.GameServer.Steps.{
  and_then, is_stopping, children, apply_all, cleanup_resources, set_profile_missing,
  update_stopped_status, update_status, drain_if_stopping, ensure_sftp,
}

abbrev pub with_finalizers : GameServer → List String → GameServer
with_finalizers server fs = record server {
  metadata = record (server.metadata) { finalizers = fs };
}

module _ (w : World) (config : Config) where
  -- The checks of a ready server, and when to look again.
  unfoldable pub watch : GameServer → StatefulSet → M Call Reconciled
  watch server sts = do
    health ← check_agent_health w server
    server' ← update_agent_status w server health.0 health.1
    let timed = ltb_ℤ (pos 0) server.spec.lifecycle.idle_timeout_seconds
    elim timed [
      | false ↦ pure (requeue agent_health_check_period)
      | true ↦ do
        wait ← check_idle_timeout w server' sts
        pure (if ltb 0 wait then requeue wait else requeue agent_health_check_period)
    ]

  unfoldable pub finish_status : StatefulSet → GameServer × Option ApiErr → M Call Reconciled
  finish_status sts (server, some e) = pure (errored (message e))
  finish_status sts (server, none) = if sts_ready sts then watch server sts else pure done

  unfoldable pub observe_set : GameServer → GameProfile → StatefulSet → M Call Reconciled
  observe_set server profile sts =
      if is_stopping server
      then and_then (update_stopped_status w config server) (pure done)
      else (do
        updated ← update_status w config server profile (sts_ready sts)
        finish_status sts updated)

  -- From the applied objects on.
  unfoldable pub observe : GameServer → GameProfile → M Call Reconciled
  observe server profile = do
    found ← ask (get_set (key_of server)) (λ t. w.set t (key_of server))
    elim found [ fail e ↦ pure (errored (message e)) | ok sts ↦ observe_set server profile sts ]

  -- From the pod specification on.
  unfoldable pub build : GameServer → GameProfile → PodSpec → M Call Reconciled
  build server profile pod = and_then (ensure_sftp w config server profile) (
      and_then (drain_if_stopping w config server) (
        and_then (apply_all w config server (children w config server profile pod)) (
          and_then
            (reconcile_service_monitor w config server profile
              (build_game_server_labels server profile))
            (observe server profile))))

  -- From the resolved profile on.
  unfoldable pub provide : GameServer → GameProfile → M Call Reconciled
  provide server profile =
      elim (build_game_server_pod_spec profile server config.image_pull_secrets) [
        | fail e ↦ do set_profile_missing w config server e; pure (errored (message e))
        | ok pod ↦ build server profile pod
      ]

  unfoldable pub ensure_secrets : GameServer → M Call (Option ApiErr)
  ensure_secrets server = do
    err ← ensure_image_pull_secrets w config server.metadata.namespace
    pure (wrapped "ensure image pull secrets: " err)

  -- A live server with its finalizer.
  unfoldable pub sustain : GameServer → M Call Reconciled
  sustain server = do
    found ← ask (get_profile server.spec.profile) (λ t. w.profile t server.spec.profile)
    elim found [
      | fail (ApiErr.not_found m) ↦ do
        set_profile_missing w config server (ApiErr.not_found m)
        pure done
      | fail e ↦ pure (errored (message e))
      | ok profile ↦ and_then (ensure_secrets server) (provide server profile)
    ]

  unfoldable pub put_finalizers : GameServer → List String → M Call Reconciled
  put_finalizers server fs = do
    err ← ask (update_server (with_finalizers server fs)) (λ t. w.put t (with_finalizers server fs))
    pure (of_error err)

  -- A server that is being deleted with its finalizer.
  unfoldable pub finalize : GameServer → M Call Reconciled
  finalize server =
      and_then (cleanup_resources w config server)
        (put_finalizers server (remove_finalizer game_server_finalizer server.metadata.finalizers))

  unfoldable pub dispatch : GameServer → M Call Reconciled
  dispatch server =
      let held = contains_finalizer game_server_finalizer server.metadata.finalizers in
      if server.metadata.deletion_timestamp == 0
      then (if held
          then sustain server
          else put_finalizers server
              (add_finalizer game_server_finalizer server.metadata.finalizers))
      else (if held then finalize server else pure done)

  -- `Reconcile`.
  unfoldable pub reconcile : Key → M Call Reconciled
  reconcile req = do
    got ← ask (get_server req) (λ t. w.server t req)
    elim got [ fail e ↦ pure (unless_not_found e) | ok server ↦ dispatch server ]

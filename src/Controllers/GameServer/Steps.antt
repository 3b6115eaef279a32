-- ===== src/Controllers/GameServer/Steps.antt =====
-- The steps of GameServerReconciler, internal/controllers/gameserver_controller.go: applying and
-- deleting the objects of a server, writing its status, and draining it before a stop.
use minato.Prelude.{
  ℤ, pos, String, Bool, true, false, not, ◌&&◌, Option, none, some, List, [], ◌∷◌, ◌⧺◌,
  if◌then◌else◌, ltb_ℤ,
}
use minato.Cluster.{
  ok, fail, ApiErr, message, key, M, ◌>>=◌, ◌>>◌, pure, ask, tell, read_clock, Reconciled, errored,
}
use minato.Api.Meta.{StringMap}
use minato.Api.GameServer.{GameServer, auto_start_enabled}
use minato.Api.GameProfile.{GameProfile}
use minato.Controllers.Builder.Model.{PodSpec}
use minato.Controllers.Builder.Sftp.{sftp_secret_name}
use minato.Controllers.GameServer.Model.{
  StatefulSet, Config, Child, stateful_set, service, claim, Resource, stateful_set_of, service_of,
  claim_of, secret_of, Call, update_server_status, get_set, apply, delete, event, World,
}
use minato.Controllers.GameServer.Ports.{sftp_enabled}
use minato.Controllers.GameServer.Resources.{
  build_game_server_labels, build_stateful_set, build_headless_service, build_agent_service,
  build_game_service, build_pvc, sts_ready,
}
use minato.Controllers.GameServer.Status.{with_profile_missing, with_stopped, with_readiness}
use minato.Controllers.GameServer.Secrets.{wrapped, ensure_sftp_secret}
use minato.Controllers.GameServer.Agent.{key_of, call_agent_shutdown, resolve_endpoints}

-- `if err := step; err != nil { return ctrl.Result{}, err }`, and the rest.
abbrev pub and_then : M Call (Option ApiErr) → M Call Reconciled → M Call Reconciled
and_then step rest t =
    let (err, t') = step t in elim err [ some e ↦ (errored (message e), t') | none ↦ rest t' ]

abbrev pub child_name : Child → String
child_name (stateful_set s) = s.name
child_name (service s) = s.name
child_name (claim c) = c.name

abbrev pub is_stopping : GameServer → Bool
is_stopping server = not (auto_start_enabled server.spec.lifecycle)

abbrev pub wanted_set : GameServer → PodSpec → StringMap → StatefulSet
wanted_set server pod labels =
    let sts = build_stateful_set server pod labels in
    if is_stopping server then record sts { replicas = some (pos 0) } else sts

-- A set that runs pods, all of them ready.
abbrev pub runs : Option ℤ → Bool
runs none = false
runs (some n) = ltb_ℤ (pos 0) n

-- The objects that `cleanupResources` deletes, in its order.
abbrev pub resources_of : GameServer → List Resource
resources_of server =
    let named = λ (name : String). key name server.metadata.namespace in
    stateful_set_of (named server.metadata.name)
    ∷ service_of (named server.metadata.name)
    ∷ service_of (named (server.metadata.name ⧺ "-agent"))
    ∷ service_of (named (server.metadata.name ⧺ "-game"))
    ∷ claim_of (named server.metadata.name)
    ∷ secret_of (named (sftp_secret_name server.metadata.name))
    ∷ []

module _ (w : World) (config : Config) where
  -- The objects in the order in which they are applied.
  unfoldable pub children : GameServer → GameProfile → PodSpec → List Child
  children server profile pod =
      let labels = build_game_server_labels server profile in
      stateful_set (wanted_set server pod labels)
      ∷ service (build_headless_service server labels)
      ∷ service (build_agent_service server profile labels)
      ∷ service (build_game_service server profile labels config.external_dns_zone)
      ∷ claim (build_pvc w server profile)
      ∷ []

  -- An object gets its owner and is applied; the first error ends the loop.
  unfoldable pub apply_owned : GameServer → Child → M Call (Option ApiErr)
  apply_owned server child = elim (w.own server (child_name child)) [
    | some e ↦ pure (some e)
    | none ↦ ask (apply child) (λ t. w.accept t child)
  ]

  unfoldable pub apply_all : GameServer → List Child → M Call (Option ApiErr)
  apply_all server [] t = (none, t)
  apply_all server (child ∷ rest) t =
      let (err, t') = apply_owned server child t in
      elim err [ none ↦ apply_all server rest t' | some e ↦ (some e, t') ]

  -- `cleanupResources`: a resource that is missing is as good as deleted.
  unfoldable pub delete_all : List Resource → M Call (Option ApiErr)
  delete_all [] t = (none, t)
  delete_all (r ∷ rest) t =
      let next = delete_all rest (delete r ∷ t) in
      elim (w.remove t r) [
        | none ↦ next
        | some (ApiErr.not_found m) ↦ next
        | some e ↦ (some e, delete r ∷ t)
      ]

  unfoldable pub cleanup_resources : GameServer → M Call (Option ApiErr)
  cleanup_resources server = delete_all (resources_of server)

  unfoldable pub set_profile_missing : GameServer → ApiErr → M Call (Unit {0})
  set_profile_missing server e = tell (update_server_status (with_profile_missing server e))

  unfoldable pub update_stopped_status : GameServer → M Call (Option ApiErr)
  update_stopped_status server = do
    now ← read_clock w.clock
    ask (update_server_status (with_stopped now server))
        (λ t. w.put_status t (with_stopped now server))

  unfoldable pub update_status :
      GameServer → GameProfile → Bool → M Call (GameServer × Option ApiErr)
  update_status server profile is_ready = do
    now ← read_clock w.clock
    endpoints ← resolve_endpoints w config server profile
    let server' = with_readiness now is_ready endpoints server
    err ← ask (update_server_status server') (λ t. w.put_status t server')
    pure (server', err)

  -- The agent's shutdown and the event for a server that is being stopped while it runs.
  unfoldable pub stop_running : GameServer → M Call (Option ApiErr)
  stop_running server = do
    call_agent_shutdown w server
    let noted = config.has_recorder
    elim noted [
      | false ↦ pure none
      | true ↦ do
        tell (event "AutoStartDisabled" "stopping server: spec.lifecycle.autoStart is false")
        pure none
    ]

  unfoldable pub drain : GameServer → M Call (Option ApiErr)
  drain server = do
    found ← ask (get_set (key_of server)) (λ t. w.set t (key_of server))
    elim found [
      | fail (ApiErr.not_found m) ↦ pure none
      | fail e ↦ pure (some e)
      | ok sts ↦ if runs sts.replicas && sts_ready sts then stop_running server else pure none
    ]

  -- `if !stopping`: nothing.
  unfoldable pub drain_if_stopping : GameServer → M Call (Option ApiErr)
  drain_if_stopping server = if is_stopping server then drain server else pure none

  unfoldable pub ensure_sftp : GameServer → GameProfile → M Call (Option ApiErr)
  ensure_sftp server profile t =
      let (err, t') = ensure_sftp_secret w config server profile t in
      if sftp_enabled profile then (wrapped "ensure sftp secret: " err, t') else (none, t)

-- ===== src/Controllers/GameServer/Agent.antt =====
-- What GameServerReconciler asks the agent of a server: the health check, the idle timeout and the
-- endpoints, internal/controllers/gameserver_controller.go.
use minato.Prelude.{
  ℕ, ◌-◌, ◌*◌, ℤ, pos, String, Bool, true, false, not, Option, none, some, List, [], ◌∷◌, str_eq,
  ◌⧺◌, if◌then◌else◌, ltb_ℤ, leb, pos_part,
}
use minato.Cluster.{Outcome, ok, fail, Key, key, M, ◌>>=◌, ◌>>◌, pure, ask, tell, read_clock}
use minato.Api.GameServer.{GameServer, Endpoint, running, idle}
use minato.Api.GameProfile.{GameProfile}
use minato.Controllers.Fleet.Selection.{eq_ℤ}
use minato.Controllers.GameServer.Model.{
  StatefulSet, Ingress, Config, Call, update_server_status, update_set, get_service, dial, health,
  info, get_players, prepare_shutdown, World,
}
use minato.Controllers.GameServer.Ports.{endpoints_at}
use minato.Controllers.GameServer.Status.{with_players, with_activity, with_state, with_agent}

abbrev pub key_of : GameServer → Key
key_of server = key server.metadata.name server.metadata.namespace

abbrev pub idle_timeout : GameServer → ℕ
idle_timeout server = pos_part server.spec.lifecycle.idle_timeout_seconds * 1000000000

abbrev pub is_zero : Option ℤ → Bool
is_zero none = false
is_zero (some n) = eq_ℤ n (pos 0)

module _ (w : World) where
  unfoldable pub check_agent_health : GameServer → M Call (String × Bool)
  check_agent_health server = do
    dialled ← ask (dial (key_of server)) (λ t. w.connect t (key_of server))
    elim dialled [
      | some e ↦ pure ("", false)
      | none ↦ do
        answer ← ask health w.check_health
        elim answer [
          | fail e ↦ pure ("", false)
          | ok is_ready ↦ do
            told ← ask info w.agent_version
            elim told [ fail e ↦ pure ("", is_ready) | ok version ↦ pure (version, is_ready) ]
        ]
    ]

  unfoldable pub get_player_count : GameServer → M Call (Outcome (ℤ × ℤ))
  get_player_count server = do
    dialled ← ask (dial (key_of server)) (λ t. w.connect t (key_of server))
    elim dialled [ some e ↦ pure (fail e) | none ↦ ask get_players w.players ]

  -- `callAgentShutdown`, whose error its callers log and drop.
  unfoldable pub call_agent_shutdown : GameServer → M Call (Unit {0})
  call_agent_shutdown server = do
    dialled ← ask (dial (key_of server)) (λ t. w.connect t (key_of server))
    elim dialled [ some e ↦ pure tt | none ↦ tell (prepare_shutdown (pos 30) "idle timeout") ]

  -- `updateAgentStatus`, whose error the caller logs and drops.
  unfoldable pub update_agent_status : GameServer → String → Bool → M Call GameServer
  update_agent_status server version healthy = do
    now ← read_clock w.clock
    let server' = with_agent now version healthy server
    tell (update_server_status server')
    pure server'

  -- The scale-down of an idle server.
  unfoldable pub scale_to_zero : GameServer → StatefulSet → M Call ℕ
  scale_to_zero server sts = do
    call_agent_shutdown server
    let stopped : StatefulSet = record sts { replicas = some (pos 0) }
    err ← ask (update_set stopped) (λ t. w.put_set t stopped)
    elim err [
      | some e ↦ pure 0
      | none ↦ do tell (update_server_status (with_state idle server)); pure 0
    ]

  -- From the last activity on, where no player is online.
  unfoldable pub check_activity : ℕ → GameServer → StatefulSet → Option ℕ → M Call ℕ
  check_activity timeout server sts none = do
    now ← read_clock w.clock
    err ←
        ask (update_server_status (with_activity now server))
          (λ t. w.put_status t (with_activity now server))
    pure (elim err [ none ↦ timeout | some e ↦ 0 ])
  check_activity timeout server sts (some last) = do
    now ← read_clock w.clock
    let is_due = leb timeout (now - last)
    elim is_due [ true ↦ scale_to_zero server sts | false ↦ pure 0 ]

  -- From the answer of the agent on.
  unfoldable pub check_players : GameServer → StatefulSet → ℤ × ℤ → M Call ℕ
  check_players server sts count = do
    now ← read_clock w.clock
    let counted = with_players count server
    let busy = ltb_ℤ (pos 0) count.0
    elim busy [
      | true ↦ do
        tell (update_server_status (with_state running (with_activity now counted)))
        pure 0
      | false ↦ check_activity (idle_timeout server) counted sts server.status.last_activity
    ]

  -- `checkIdleTimeout`: the delay of the requeue; the error is logged and dropped.
  unfoldable pub check_idle_timeout : GameServer → StatefulSet → M Call ℕ
  check_idle_timeout server sts = if is_zero sts.replicas then pure 0 else (do
    count ← get_player_count server
    elim count [ fail e ↦ pure 0 | ok n ↦ check_players server sts n ])

  abbrev address_of : List Ingress → String
  address_of [] = ""
  address_of (i ∷ rest) = if str_eq i.ip "" then i.hostname else i.ip

  unfoldable pub resolve_endpoints : Config → GameServer → GameProfile → M Call (List Endpoint)
  resolve_endpoints config server profile =
      if not (str_eq config.external_dns_zone "")
      then pure (endpoints_at (server.metadata.name ⧺ "." ⧺ config.external_dns_zone) profile)
      else (do
        let k = key (server.metadata.name ⧺ "-game") server.metadata.namespace
        found ← ask (get_service k) (λ t. w.ingress t k)
        elim found [
          | fail e ↦ pure []
          | ok ingress ↦ pure (endpoints_at (address_of ingress) profile)
        ])

-- ===== src/Controllers/Fleet/Loop.antt =====
-- `Reconcile` of GameServerFleetReconciler and the methods that it is made of,
-- internal/controllers/gameserverfleet_controller.go.
use minato.Prelude.{
  ℕ, zero, suc, String, not, ◌||◌, Option, none, some, List, [], ◌∷◌, str_eq, ◌==◌, ltb_ℤ, ◌-ℤ◌,
  of_len, if◌then◌else◌, length,
}
use minato.Cluster.{
  Outcome, ok, fail, ApiErr, is_not_found, Key, key, Reconciled, done, errored, panicked, message,
  unless_not_found, of_error, M, ◌>>=◌, ◌>>◌, pure, ask, tell, read_clock,
}
use minato.Api.Meta.{contains_finalizer, add_finalizer, remove_finalizer}
use minato.Api.GameServer.{GameServer}
use minato.Api.Fleet.{GameServerFleet}
use minato.Controllers.Fleet.Model.{
  Call, get_fleet, update_fleet, update_fleet_status, list_servers, create_server, update_server,
  delete_server, dial, drain, warn, World, fleet_finalizer,
}
use minato.Controllers.Fleet.Template.{build_game_server, updated_server, rounds}
use minato.Controllers.Fleet.Status.{is_running, drain_timeout, with_status}
use minato.Controllers.Fleet.Selection.{select_servers_to_delete, servers_to_update}

abbrev pub server_key : GameServer → Key
server_key server = key server.metadata.name server.metadata.namespace

-- `spec.updateStrategy.type`, and RollingUpdate where it is empty.
abbrev pub strategy_of : GameServerFleet → String
strategy_of fleet =
    if str_eq fleet.spec.update_strategy.type ""
    then "RollingUpdate"
    else fleet.spec.update_strategy.type

abbrev pub with_finalizers : GameServerFleet → List String → GameServerFleet
with_finalizers fleet fs = record fleet { metadata = record (fleet.metadata) { finalizers = fs } }

module _ (w : World) where
  -- The agent's PrepareShutdown; a failure is an event.
  unfoldable pub shut_down : GameServerFleet → Key → M Call (Unit {0})
  shut_down fleet k = do
    answer ← ask (drain k (drain_timeout fleet)) (λ t. w.shutdown t k (drain_timeout fleet))
    elim answer [ none ↦ pure tt | some e ↦ tell (warn k "AgentShutdownFailed") ]

  -- `drainServer`: only a running server with an agent is drained, and no failure stops the caller.
  unfoldable pub drain_server : GameServerFleet → GameServer → M Call (Unit {0})
  unfolding shut_down
  drain_server fleet server =
      if not (is_running server.status.state) || str_eq server.status.agent_version ""
      then pure tt
      else (do
        let k = server_key server
        dialled ← ask (dial k) (λ t. w.connect t k)
        elim dialled [ none ↦ shut_down fleet k | some e ↦ tell (warn k "AgentDialFailed") ])

  -- `r.Delete`, where a server that is gone already is no error.
  unfoldable pub delete_one : Key → M Call (Option ApiErr)
  delete_one k = do
    answer ← ask (delete_server k) (λ t. w.delete t k)
    pure (elim answer [ none ↦ none | some e ↦ if is_not_found e then none else some e ])

  -- The scale-down loop: it stops at the first error.
  unfoldable pub delete_all : GameServerFleet → List GameServer → M Call (Option ApiErr)
  delete_all fleet [] = pure none
  delete_all fleet (server ∷ rest) = do
    drain_server fleet server
    answer ← delete_one (server_key server)
    elim answer [ none ↦ delete_all fleet rest | some e ↦ pure (some e) ]

  -- One round of the scale-up loop: build, own and create the server of an index.
  unfoldable pub create_one : GameServerFleet → ℕ → M Call (Option ApiErr)
  create_one fleet i = elim (w.own fleet (build_game_server fleet i)) [
    | fail e ↦ pure (some e)
    | ok server ↦ ask (create_server server) (λ t. w.create t server)
  ]

  -- The scale-up loop from the index `i`, `n` servers long: it stops at the first error.
  unfoldable pub create_all : GameServerFleet → ℕ → ℕ → M Call (Option ApiErr)
  create_all fleet i zero = pure none
  create_all fleet i (suc n) = do
    answer ← create_one fleet i
    elim answer [ none ↦ create_all fleet (suc i) n | some e ↦ pure (some e) ]

  -- The update loop: an error is logged, and the next server is tried.
  unfoldable pub update_all : GameServerFleet → List GameServer → M Call (Unit {0})
  update_all fleet [] = pure tt
  update_all fleet (server ∷ rest) = do
    tell (update_server (updated_server fleet server))
    update_all fleet rest

  -- `cleanupFleet`.
  unfoldable pub delete_listed : List GameServer → M Call (Option ApiErr)
  delete_listed [] = pure none
  delete_listed (server ∷ rest) = do
    answer ← delete_one (server_key server)
    elim answer [ none ↦ delete_listed rest | some e ↦ pure (some e) ]

  unfoldable pub list_fleet : GameServerFleet → M Call (Outcome (List GameServer))
  list_fleet fleet =
      ask (list_servers fleet.metadata.namespace fleet.metadata.name)
        (λ t. w.servers t fleet.metadata.namespace fleet.metadata.name)

  unfoldable pub cleanup_fleet : GameServerFleet → M Call (Option ApiErr)
  cleanup_fleet fleet = do
    listed ← list_fleet fleet
    elim listed [ fail e ↦ pure (some e) | ok servers ↦ delete_listed servers ]

  -- The scaling step: servers are created up to the wanted number, or the chosen ones are deleted.
  -- The result is the answer that ends the reconcile, or none where it goes on.
  unfoldable pub scale : GameServerFleet → List GameServer → String → M Call (Option Reconciled)
  scale fleet servers strategy =
      if ltb_ℤ (of_len (length servers)) fleet.spec.replicas
      then (do
        err ←
            create_all fleet (length servers)
              (rounds (fleet.spec.replicas -ℤ of_len (length servers)))
        pure (elim err [ none ↦ none | some e ↦ some (errored (message e)) ]))
      else if ltb_ℤ fleet.spec.replicas (of_len (length servers))
      then elim (select_servers_to_delete servers fleet.spec.replicas strategy) [
        | none ↦ pure (some panicked)
        | some chosen ↦ do
          err ← delete_all fleet chosen
          pure (elim err [ none ↦ none | some e ↦ some (errored (message e)) ])
      ]
      else pure none

  -- `updateStatus`, whose error is logged.
  unfoldable pub update_status : GameServerFleet → List GameServer → M Call (Unit {0})
  update_status fleet servers = do
    now ← read_clock w.clock
    tell (update_fleet_status (with_status now fleet servers))

  -- `handleRollingUpdate`, where the strategy asks for it.
  unfoldable pub roll_out : GameServerFleet → List GameServer → M Call (Unit {0})
  roll_out fleet servers =
      if str_eq (strategy_of fleet) "RollingUpdate"
      then update_all fleet (servers_to_update fleet servers)
      else pure tt

  -- From the listed servers on.
  unfoldable pub reconcile_servers : GameServerFleet → List GameServer → M Call Reconciled
  reconcile_servers fleet servers = do
    stop ← scale fleet servers (strategy_of fleet)
    elim stop [
      | some answer ↦ pure answer
      | none ↦ do roll_out fleet servers; update_status fleet servers; pure done
    ]

  -- `r.Update(ctx, fleet)`, the last call of its branch.
  unfoldable pub put_finalizers : GameServerFleet → List String → M Call Reconciled
  put_finalizers fleet fs = do
    err ←
        ask (update_fleet (with_finalizers fleet fs))
          (λ t. w.put_fleet t (with_finalizers fleet fs))
    pure (of_error err)

  -- A fleet that is being deleted: its servers go first, then its finalizer.
  unfoldable pub finalize : GameServerFleet → M Call Reconciled
  finalize fleet =
      if not (contains_finalizer fleet_finalizer fleet.metadata.finalizers) then pure done else (do
        err ← cleanup_fleet fleet
        elim err [
          | some e ↦ pure (errored (message e))
          | none ↦ put_finalizers fleet (remove_finalizer fleet_finalizer fleet.metadata.finalizers)
        ])

  -- A live fleet: the finalizer comes first, and the servers in a later reconcile.
  unfoldable pub sustain : GameServerFleet → M Call Reconciled
  sustain fleet =
      if not (contains_finalizer fleet_finalizer fleet.metadata.finalizers)
      then put_finalizers fleet (add_finalizer fleet_finalizer fleet.metadata.finalizers)
      else (do
        listed ← list_fleet fleet
        elim listed [
          | fail e ↦ pure (errored (message e))
          | ok servers ↦ reconcile_servers fleet servers
        ])

  -- `Reconcile`.
  unfoldable pub reconcile : Key → M Call Reconciled
  reconcile req = do
    got ← ask (get_fleet req) (λ t. w.fleet t req)
    elim got [
      | fail e ↦ pure (unless_not_found e)
      | ok fleet ↦ if fleet.metadata.deletion_timestamp == 0 then sustain fleet else finalize fleet
    ]

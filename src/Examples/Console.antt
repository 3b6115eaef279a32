-- ===== src/Examples/Console.antt =====
-- A console with a command, a log line and a client that leaves.
use minato.Prelude.{none, some, [], ◌∷◌, List}
use minato.Cluster.{ApiErr, ok, fail}
use minato.Handlers.Console.{
  frame, log, response, Event, client_turn, agent_turn, started, proxy_run,
}
use minato.Handlers.Frames.{IsProxied, proxy_run-IsProxied}

abbrev session : List Event
session =
    client_turn (ok (frame "rcon" 0 "" "list")) none
    ∷ agent_turn (ok (log "list", 1000000000)) none
    ∷ client_turn (ok (frame "hello" 0 "" "")) none
    ∷ agent_turn (ok (response "none", 2000000000)) none
    ∷ client_turn (fail (ApiErr.other "closed")) none
    ∷ agent_turn (ok (log "bye", 3000000000)) (some (ApiErr.other "closed"))
    ∷ []

proxy_run-IsProxied_example : IsProxied (proxy_run session started)
proxy_run-IsProxied_example = proxy_run-IsProxied session

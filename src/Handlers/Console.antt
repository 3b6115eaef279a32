-- ===== src/Handlers/Console.antt =====
-- The console of a game server, cmd/controlplane/console.go: a WebSocket of the client and a stream of
-- the agent, and two loops that pass frames from each to the other. A run is the list of the frames that
-- the loops took, in the order in which they took them.
use minato.Prelude.{
  ℕ, String, ◌⧺◌, Bool, true, false, Option, none, some, List, [], ◌∷◌, if◌then◌else◌, str_eq, any,
  last?,
}
use minato.Cluster.{ApiErr, message, Outcome, ok, fail, Key, key}
use minato.Api.GameServer.{GameServer}
use minato.Handlers.Model.{unix}

pub record ConsoleMessage : Type 0 where
  pub type : String
  pub ts : ℕ
  pub line : String
  pub id : String
  pub content : String

-- `ConsoleClientMessage`.
pub data ToAgent : Type 0 where
  command ping : String → ToAgent

-- `ConsoleServerMessage`, which may have no payload.
pub data FromAgent : Type 0 where
  log response status error : String → FromAgent
  no_payload : FromAgent

abbrev pub frame : String → ℕ → String → String → ConsoleMessage
frame type ts line content = record {
  type = type;
  ts = ts;
  line = line;
  id = "";
  content = content;
}

-- A frame of another type is dropped.
unfoldable pub forward : ConsoleMessage → Option ToAgent
forward m =
    if str_eq m.type "rcon"
    then some (command m.content)
    else if str_eq m.type "ping"
    then some (ping m.content)
    else none

-- The frame for a message of the agent, and the time at which it came.
unfoldable pub shown : FromAgent × ℕ → ConsoleMessage
shown (log line, now) = frame "log" (unix now) line ""
shown (response text, now) = frame "rcon-response" 0 "" text
shown (status state, now) = frame "status" 0 "" state
shown (error text, now) = frame "error" 0 "" text
shown (no_payload, now) = frame "" 0 "" ""

-- One of the loops: whether it runs, and what it took and gave, newest first.
pub record Pump (A B : Type 0) : Type 0 where
  pub is_open : Bool
  pub taken : List A
  pub given : List B

-- What a loop does with the frame that it took, where `none` is a frame to drop, and with the error of
-- the write; the error that it sends to the channel before it returns.
abbrev pub pass_frame :
    {A B : Type 0} → A → Option B → Option ApiErr → Pump A B → Pump A B × Option ApiErr
pass_frame a none refused p = (record p { taken = a ∷ p.taken }, none)
pass_frame a (some b) none p = (record p { taken = a ∷ p.taken; given = b ∷ p.given }, none)
pass_frame a (some b) (some e) p = (record p { is_open = false; taken = a ∷ p.taken }, some e)

-- A turn of a loop, with what was read and the error of the write, if there is one.
module _ {A B : Type 0} (translate : A → Option B) where
  unfoldable pub turn : Outcome A → Option ApiErr → Pump A B → Pump A B × Option ApiErr
  turn (fail e) refused p = if p.is_open then (record p { is_open = false }, some e) else (p, none)
  turn (ok a) refused p = if p.is_open then pass_frame a (translate a) refused p else (p, none)

pub record Proxy : Type 0 where
  pub to_agent : Pump ConsoleMessage ToAgent
  pub to_client : Pump (FromAgent × ℕ) ConsoleMessage
  pub errors : List ApiErr

-- A turn of the loop from the client, and of that from the agent.
pub data Event : Type 0 where
  client_turn : Outcome ConsoleMessage → Option ApiErr → Event
  agent_turn : Outcome (FromAgent × ℕ) → Option ApiErr → Event

abbrev pub pushed : Option ApiErr → List ApiErr → List ApiErr
pushed none errors = errors
pushed (some e) errors = e ∷ errors

unfoldable pub proxy_step : Event → Proxy → Proxy
unfolding turn
proxy_step (client_turn r refused) p =
    let (pump, e) = turn forward r refused p.to_agent in
    record p { to_agent = pump; errors = pushed e p.errors }
proxy_step (agent_turn r refused) p =
    let (pump, e) = turn (λ a. some (shown a)) r refused p.to_client in
    record p { to_client = pump; errors = pushed e p.errors }

abbrev pub started : Proxy
started = record {
  to_agent = record { is_open = true; taken = []; given = [] };
  to_client = record { is_open = true; taken = []; given = [] };
  errors = [];
}

-- The turns, the first one first.
unfoldable pub proxy_run : List Event → Proxy → Proxy
unfolding proxy_step
proxy_run [] p = p
proxy_run (e ∷ events) p = proxy_run events (proxy_step e p)

-- What is met before the loops: the server, the upgrade of the connection, the name and namespace of the
-- service, the connection to an address and the stream on it.
pub record ConsoleWorld : Type 0 where
  pub server : Key → Outcome GameServer
  pub upgrade : Option ApiErr
  pub service : Key → Outcome Key
  pub dial : String → Option ApiErr
  pub stream : String → Option ApiErr

abbrev console_address : Key → String
console_address svc = svc.name ⧺ "." ⧺ svc.namespace ⧺ ".svc.cluster.local:9876"

abbrev first_error : List ApiErr → Option String
first_error errors = elim (last? errors) [ none ↦ none | some e ↦ some (message e) ]

-- The text of the error with which `proxyConsole` returns, or `none` while both loops run.
unfoldable pub proxy_console : ConsoleWorld → GameServer → List Event → Option String
unfolding proxy_run
proxy_console w server events =
    elim (w.service (key server.metadata.name server.metadata.namespace)) [
      | fail e ↦ some ("failed to get service: " ⧺ message e)
      | ok svc ↦ elim (w.dial (console_address svc)) [
        | some e ↦ some ("failed to connect to agent: " ⧺ message e)
        | none ↦ elim (w.stream (console_address svc)) [
          | some e ↦ some ("failed to start console stream: " ⧺ message e)
          | none ↦ first_error (proxy_run events started).errors
        ]
      ]
    ]

-- A status without a connection, a last frame before the connection is closed, or a console that runs.
pub data Served : Type 0 where
  answered : ℕ → ApiErr → Served
  last_frame : ConsoleMessage → Served
  running : Served

unfoldable pub serve_console : ConsoleWorld → Key → List Event → Served
unfolding proxy_console
serve_console w k events = elim (w.server k) [
  | fail e ↦ answered 404 e
  | ok server ↦ elim w.upgrade [
    | some e ↦ answered 500 e
    | none ↦ elim (proxy_console w server events) [
      | none ↦ running
      | some text ↦ last_frame (frame "error" 0 "" text)
    ]
  ]
]

-- The origins that may connect; without a restriction all of them.
unfoldable pub check_origin : List String → String → Bool
check_origin [] origin = true
check_origin (o ∷ allowed) origin = any (λ p. str_eq p origin) (o ∷ allowed)

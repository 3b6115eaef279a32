-- ===== src/Lib.antt =====
-- Verification library of minato, a Kubernetes operator for game servers written in Go.
--
-- The program. The operator watches five custom resources (api/operator/v1): a GameProfile describes a
-- game, a GameServer is one server of a profile, a GameServerFleet keeps a number of servers, an
-- ActionExecution runs an action of the profile through the agent beside a server, and a GameSnapshot
-- takes snapshots of a server's volume. One controller for each (internal/controllers) reads an object,
-- makes calls to the API server and to the agent, and writes the object's status back. The controllers
-- meet only in the stored objects: a fleet creates and deletes servers, an execution and a snapshot
-- refer to a server by name, and all of them write conditions with the same setCondition.
-- Admission webhooks (internal/webhook) check profiles and servers before they are stored. The control
-- plane (internal/controlplane) is an HTTP server for the same objects: a chain of providers
-- authenticates a request, two guards decide whether it reaches its handler, and a namespace that a
-- handler needs is created with a quota and a network policy. An agent (sdk/agent) runs beside each
-- game server and talks to it by RCON. A registrar (cmd/registrar) makes a cluster known to the cloud, and
-- a Go client (sdk/controlplane) calls the control plane.
--
-- The files.
--   Prelude: library names and shared lemmas; Int has signed and int32 arithmetic, Lists slices, Texts
--     decimal numbers, Strings functions on bytes, Tests the Boolean tests.
--   Cluster: errors of the API server, the results of a reconcile, and programs that make calls.
--   Api: the records of api/operator/v1, with labels, finalizers and conditions in Meta.
--   Controllers/Conditions: setCondition and boolToConditionStatus of gameserver_controller.go.
--   Controllers/Deletions: what the loops that delete the objects of a server or a fleet have in common.
--   Controllers/Actions: actionexecution_controller.go (Model, Loop) and actionexecution_cleanup.go
--     (Cleanup); Lifecycle, Checks and Completion prove what they do.
--   Controllers/Fleet: gameserverfleet_controller.go (Model, Template, Selection, Status, Loop); Order,
--     Deletion, Rollout, Scaling, Replicas, Collision, Readiness and Finalizer prove what it does.
--   Controllers/Snapshot: gamesnapshot_controller.go (Model, Volume, Retention, Taking, Loop); Kept,
--     Schedule and Recording prove what it does.
--   Controllers/Builder: builder/podspec.go and builder/sftp.go, the specification of a server's pod
--     (Model, Environment, Sftp, Pod); Merged and Mounts prove what it holds.
--   Controllers/GameServer: gameserver_controller.go and sftp.go, with servicemonitor.go and
--     prometheus_detection.go (Model, Ports, Resources, Status, Secrets, Agent, Monitor, Steps, Loop);
--     Service, Idle, Released, Quiet and Replicas prove what it does.
--   ControlPlane: the users of internal/controlplane/auth and the matching of their namespaces
--     (Namespaces), rules and paths (Rules) and the two guards (Guards) of rbac/routeguard.go; Scopes and
--     Access prove what passes the guards. The table of roles and HasPermission of rbac/rbac.go (Roles),
--     and what it answers (Permissions). The API keys of auth/storage.go (Keys), the providers of
--     auth.go, basic.go, apikey.go and none.go (Providers) and that of oidc.go (Oidc), the chain, its
--     middleware and the order of the middlewares in cmd/controlplane/main.go (Chain); Stored and Blank
--     prove what a Secret keeps, Chained who reaches a handler, Open when everyone does, Verified who
--     does with OIDC alone.
--     Loading is LoadConfig and GetAuthConfig, Resources the rest of rbac.go.
--   Handlers: the handlers of cmd/controlplane/main.go (Model, Servers, Details, Fleets, Keys) and the
--     console of console.go (Console); Changes proves what they write and show, Frames what a console
--     passes on.
--   Tenant: internal/controlplane/tenant/tenant.go, its configuration (Config), the objects of a new
--     namespace (Policy) and their creation (Provision); Loaded, Admission, Hardened,
--     Interrupted and Panics prove what they do.
--   Webhook: the validators of internal/webhook (GameProfile, GameServer); Checks, Tiers and Accepted
--     prove what they admit.
--   Rcon: sdk/agent/rcon/minecraft.go and source.go, packets on the wire (Wire) and the clients
--     (Clients); RoundTrip, Login and LoginPacket prove what is read, sent and accepted. Players: the
--     players that palworld.go and source.go read from an answer.
--   Agent: the declared actions of sdk/agent/actions, catalog.go (Catalog) and steps.go (Steps); Order
--     proves in which order they call the runtime.
--   Registrar: cmd/registrar, its configuration and payloads (Settings), the fingerprint of the cluster
--     (Fingerprint) and its loops (Loop); Rounds, Backoff and Protocol prove when it waits, registers and
--     sends heartbeats.
--   Sdk: sdk/controlplane/client.go with the types of gen/client.go (Types), the conversions (Convert,
--     Objects) and the methods (Client); Trips and Answers prove what is kept and what a reply becomes.
--   Examples: the theorems at concrete inputs.
--
-- How the code is modelled. A controller is a program over the list of the calls made so far: it appends
-- its calls, and each answer is a function of that list, so a theorem covers every API server, every
-- agent, every failure and every change that other clients make between two calls. The world of a
-- controller is the record of these answers. A definition has the name of its Go function in snake
-- case, and the parts of a long function are definitions of their own, named for what they do. An
-- object that Go changes in memory is returned. Logging is left out, metrics too.
--
-- Numbers. Times are natural numbers of nanoseconds; two readings of the clock with no call between
-- them are one reading. int32 values are integers whose subtraction wraps; a count of list elements is
-- below 2^31, as a theorem says where it needs that. A panic is a result of its own. Loops are
-- structural on the list or on the number of rounds, so no fuel is needed. The recursion of
-- HasPermission takes fuel, and more than the rank of the role is enough; itoa has one step for each
-- digit and is given more than there are.
-- Texts whose bytes matter are lists of bytes; white space and lower case are those of ASCII.
--
-- Parameters. Answers of the API server, the agent, the cloud and the peer of a connection are functions
-- of what was sent before. So are libraries: cron, durations, the quantities of Kubernetes (a test, or a
-- type with a parser and a comparison), text/template, the strict decoders of an action catalog, bcrypt,
-- the OIDC library, the field of an error body and randomness. The metadata of an API key are the entry
-- that JSON gives back, and its expiry is the time that RFC 3339 gives back.
--
-- Interleavings. The two loops of a console take turns in any order: a run is the list of the turns, each
-- with what was read and whether the write failed. The registrar runs a number of rounds of each loop;
-- every run without an end begins with these.
--
-- Not modelled: sort.Slice is an insertion sort (any sort agrees where the order is total, as it is
-- for deletions); %q adds no escapes; Kubernetes resource requirements and topology constraints are
-- opaque; the registration of controllers, webhooks and types, the random SFTP password and its hash,
-- the text of the errors of the control plane (of a guard only the verdict is kept) and of the store
-- of the keys, the audit log, CatalogFromEnv, the player counts that fmt.Sscanf reads, the clients of
-- the cloud API, the command-line tools and generated code.
pub mod Prelude
pub mod Cluster
pub mod Api
pub mod Controllers
pub mod ControlPlane
pub mod Tenant
pub mod Webhook
pub mod Rcon
pub mod Agent
pub mod Registrar
pub mod Sdk
pub mod Handlers
pub mod Examples

-- ===== src/Controllers/GameServer/Monitor.antt =====
-- The ServiceMonitor of a game server, internal/controllers/servicemonitor.go and
-- prometheus_detection.go.
use minato.Prelude.{
  ℕ, ◌-◌, pos, String, ◌⧺◌, Bool, true, false, not, Option, none, some, is_none, if◌then◌else◌, ltb,
  ltb_ℤ, str_eq, List,
}
use minato.Cluster.{ApiErr, is_not_found, M, ◌>>=◌, ◌>>◌, pure, ask, tell}
use minato.Api.Meta.{StringMap}
use minato.Api.GameServer.{GameServer}
use minato.Api.GameProfile.{GameProfile, ObservabilitySpec, ServiceMonitorSpec, AgentMetricsSpec}
use minato.Controllers.GameServer.Model.{
  Call, delete_monitor, detect_prometheus, get_monitor, put_monitor, event, ServiceMonitor,
  DeleteError, no_match, refused, Detection, Config, World,
}
use minato.Controllers.GameServer.Ports.{metrics_of}
use minato.Controllers.GameServer.Agent.{key_of}

-- Five minutes in nanoseconds.
abbrev pub prometheus_detection_cache_duration : ℕ
prometheus_detection_cache_duration = 300000000000

-- The answer at a time, and what is remembered: the last one for five minutes, and after that whether
-- the definition of ServiceMonitors is found. Any error counts as a no.
unfoldable pub detect_prometheus_operator : ℕ → Option ApiErr → Detection → Bool × Detection
detect_prometheus_operator now err d =
    if ltb (now - d.last_checked) prometheus_detection_cache_duration
    then (d.detected, d)
    else (is_none err, record { detected = is_none err; last_checked = now })

abbrev enabled_in : Option ServiceMonitorSpec → Bool
enabled_in none = false
enabled_in (some s) = s.enabled

abbrev monitor_of : Option ObservabilitySpec → Option ServiceMonitorSpec
monitor_of none = none
monitor_of (some o) = o.service_monitor

unfoldable pub service_monitor_enabled : GameProfile → Bool
service_monitor_enabled profile = enabled_in (monitor_of profile.spec.observability)

abbrev interval_of : Option ServiceMonitorSpec → String
interval_of none = ""
interval_of (some s) = s.interval

-- The object that CreateOrUpdate stores, with the spec of `buildServiceMonitorSpec`.
unfoldable pub build_service_monitor :
    GameServer → GameProfile → StringMap → AgentMetricsSpec → ServiceMonitor
build_service_monitor server profile labels metrics = record {
  name = server.metadata.name;
  namespace = server.metadata.namespace;
  labels = labels;
  selector = labels;
  port = "metrics";
  path = if str_eq metrics.path "" then "/metrics" else metrics.path;
  interval = interval_of (monitor_of profile.spec.observability);
}

-- The metrics endpoint, where the profile declares one with a port.
unfoldable pub scraped : GameProfile → Option AgentMetricsSpec
scraped profile = elim (metrics_of profile.spec.observability) [
  | none ↦ none
  | some m ↦ if not (ltb_ℤ (pos 0) m.port) then none else some m
]

unfoldable pub missing_is_fine : Option DeleteError → Option ApiErr
missing_is_fine none = none
missing_is_fine (some no_match) = none
missing_is_fine (some (refused e)) = if is_not_found e then none else some e

abbrev undetected : GameProfile → Call
undetected profile = event "PrometheusOperatorNotDetected" (
    "GameProfile " ⧺ profile.metadata.name
    ⧺ " enables serviceMonitor but the Prometheus Operator is not installed; skipping ServiceMonitor creation")

module _ (w : World) (config : Config) where
  unfoldable pub has_prometheus : List Call → Bool
  unfolding detect_prometheus_operator
  has_prometheus t = (detect_prometheus_operator (w.clock t) (w.detector t) (w.detection t)).0

  unfoldable pub warn_undetected : GameProfile → M Call (Option ApiErr)
  warn_undetected profile = elim config.has_recorder [
    | false ↦ pure none
    | true ↦ do tell (undetected profile); pure none
  ]

  -- `CreateOrUpdate`: the object is read, gets its owner, and is stored.
  unfoldable pub create_or_update : GameServer → ServiceMonitor → M Call (Option ApiErr)
  create_or_update server monitor = do
    found ← ask (get_monitor (key_of server)) (λ t. w.monitor t (key_of server))
    let stored : M Call (Option ApiErr) = elim (w.own server server.metadata.name) [
      | some e ↦ pure (some e)
      | none ↦ ask (put_monitor monitor) (λ t. w.store_monitor t monitor)
    ]
    elim found [ none ↦ stored | some e ↦ if is_not_found e then stored else pure (some e) ]

  unfoldable pub remove_service_monitor : GameServer → M Call (Option ApiErr)
  unfolding missing_is_fine
  remove_service_monitor server = do
    err ← ask (delete_monitor (key_of server)) (λ t. w.remove_monitor t (key_of server))
    pure (missing_is_fine err)

  -- Where the profile enables it and the Prometheus Operator is there.
  unfoldable pub provide_service_monitor :
      GameServer → GameProfile → StringMap → M Call (Option ApiErr)
  unfolding create_or_update scraped build_service_monitor
  provide_service_monitor server profile labels = elim (scraped profile) [
    | none ↦ pure none
    | some metrics ↦ create_or_update server (build_service_monitor server profile labels metrics)
  ]

  unfoldable pub reconcile_service_monitor :
      GameServer → GameProfile → StringMap → M Call (Option ApiErr)
  unfolding remove_service_monitor has_prometheus warn_undetected provide_service_monitor
  reconcile_service_monitor server profile labels =
      if not (service_monitor_enabled profile) then remove_service_monitor server else (do
        there ← ask detect_prometheus has_prometheus
        elim there [
          | false ↦ warn_undetected profile
          | true ↦ provide_service_monitor server profile labels
        ])

-- ===== src/Registrar/Loop.antt =====
-- The loops of the registrar, cmd/registrar/main.go. A run has at most so many attempts at the first
-- registration, and so many heartbeats; every other run is a beginning of one that is longer.
use minato.Prelude.{
  ℕ, zero, suc, ◌*◌, ltb, ◌==◌, String, ◌⧺◌, Bool, true, false, Option, none, some, List,
  if◌then◌else◌,
}
use minato.Cluster.{M, ◌>>=◌, ◌>>◌, pure, ask}
use minato.Registrar.Settings.{
  RegistrarConfig, RegisterPayload, HeartbeatPayload, second, build_register_payload,
  build_heartbeat_payload,
}

-- The requests, with their URL and token, and the two waits of the loops.
pub data Call : Type 0 where
  post_register : String → String → RegisterPayload → Call
  post_heartbeat : String → String → HeartbeatPayload → Call
  backoff_wait : ℕ → Call
  tick : Call

-- The status that a request is answered with, or `none` for an error; and whether a wait ends since the
-- context is done. Both depend on the calls made before.
pub record World : Type 0 where
  pub status : List Call → Option ℕ
  pub is_done : List Call → Bool

pub data Beat : Type 0 where
  alive unknown failed : Beat

abbrev pub is_ok : Option ℕ → Bool
is_ok none = false
is_ok (some status) = status == 200

abbrev pub beat_of : Option ℕ → Beat
beat_of none = failed
beat_of (some status) = if status == 404 then unknown else if status == 204 then alive else failed

unfoldable pub next_backoff : ℕ → ℕ
next_backoff backoff = if ltb backoff (30 * second) then backoff * 2 else backoff

-- How the first loop ends: after an accepted registration, with the context, or not yet.
pub data Registration : Type 0 where
  registered stopped pending : Registration

module _ (w : World) (cfg : RegistrarConfig) (fingerprint : String) where
  abbrev pub register_call : Call
  register_call =
      post_register (cfg.cloud_url ⧺ "/api/v1/clusters/register") cfg.register_token
        (build_register_payload cfg fingerprint)

  abbrev pub heartbeat_call : Call
  heartbeat_call =
      post_heartbeat (cfg.cloud_url ⧺ "/api/v1/clusters/" ⧺ cfg.name ⧺ "/heartbeat")
        cfg.register_token (build_heartbeat_payload cfg fingerprint)

  -- Whether there was no error.
  unfoldable pub register : M Call Bool
  register = do status ← ask register_call w.status; pure (is_ok status)

  unfoldable pub heartbeat : M Call Beat
  heartbeat = do status ← ask heartbeat_call w.status; pure (beat_of status)

  -- The loop of the first registration.
  unfoldable pub register_loop : ℕ → ℕ → M Call Registration
  unfolding register next_backoff
  register_loop zero backoff = pure pending
  register_loop (suc attempts) backoff = do
    ok ← register
    elim ok [
      | true ↦ pure registered
      | false ↦ do
        cancelled ← ask (backoff_wait backoff) w.is_done
        elim cancelled [
          | true ↦ pure stopped
          | false ↦ register_loop attempts (next_backoff backoff)
        ]
    ]

  -- What follows a heartbeat.
  unfoldable pub after_beat : Beat → M Call (Unit {0})
  unfolding register
  after_beat alive = pure tt
  after_beat unknown = do ok ← register; pure tt
  after_beat failed = pure tt

  -- The loop of the heartbeats.
  unfoldable pub heartbeat_loop : ℕ → M Call (Unit {0})
  unfolding heartbeat after_beat
  heartbeat_loop zero = pure tt
  heartbeat_loop (suc beats) = do
    cancelled ← ask tick w.is_done
    elim cancelled [ true ↦ pure tt | false ↦ do b ← heartbeat; after_beat b; heartbeat_loop beats ]

  unfoldable pub run : ℕ → ℕ → M Call (Unit {0})
  unfolding register_loop heartbeat_loop
  run attempts beats = do
    r ← register_loop attempts second
    elim r [ registered ↦ heartbeat_loop beats | stopped ↦ pure tt | pending ↦ pure tt ]

-- ===== src/Registrar/Rounds.antt =====
-- What one round of each loop of the registrar does, cmd/registrar/main.go.
use minato.Prelude.{ℕ, suc, ◌≡◌, refl, true, false, List, ◌∷◌, String}
use minato.Registrar.Settings.{RegistrarConfig}
use minato.Registrar.Loop.{
  Call, backoff_wait, tick, World, is_ok, beat_of, next_backoff, registered, stopped, register_call,
  heartbeat_call, register, heartbeat, register_loop, after_beat, heartbeat_loop,
}

module _ (w : World) (cfg : RegistrarConfig) (fingerprint : String) where
  pub accepted_round :
      (attempts backoff : ℕ) (t : List Call)
      → is_ok (w.status t) ≡ true
      → register_loop w cfg fingerprint (suc attempts) backoff t
        ≡ (registered, register_call w cfg fingerprint ∷ t)
  unfolding register_loop register
  accepted_round attempts backoff t a = rw (register_loop, a) refl

  pub stopped_round :
      (attempts backoff : ℕ) (t : List Call)
      → is_ok (w.status t) ≡ false
      → w.is_done (register_call w cfg fingerprint ∷ t) ≡ true
      → register_loop w cfg fingerprint (suc attempts) backoff t
        ≡ (stopped, backoff_wait backoff ∷ register_call w cfg fingerprint ∷ t)
  unfolding register_loop register
  stopped_round attempts backoff t a b = rw (register_loop, a, b) refl

  pub refused_round :
      (attempts backoff : ℕ) (t : List Call)
      → is_ok (w.status t) ≡ false
      → w.is_done (register_call w cfg fingerprint ∷ t) ≡ false
      → register_loop w cfg fingerprint (suc attempts) backoff t
        ≡ register_loop w cfg fingerprint attempts
            (next_backoff backoff)
            (backoff_wait backoff ∷ register_call w cfg fingerprint ∷ t)
  unfolding register_loop register
  refused_round attempts backoff t a b = rw (register_loop, a, b) refl

  pub last_beat :
      (beats : ℕ) (t : List Call)
      → w.is_done t ≡ true
      → heartbeat_loop w cfg fingerprint (suc beats) t ≡ (tt, tick ∷ t)
  unfolding heartbeat_loop
  last_beat beats t a = rw (heartbeat_loop, a) refl

  -- The calls after a tick, up to the next one.
  abbrev pub beaten : List Call → List Call
  beaten t =
      (after_beat w cfg fingerprint (beat_of (w.status (tick ∷ t)))
        (heartbeat_call w cfg fingerprint ∷ tick ∷ t)).1

  pub next_beat :
      (beats : ℕ) (t : List Call)
      → w.is_done t ≡ false
      → heartbeat_loop w cfg fingerprint (suc beats) t
        ≡ heartbeat_loop w cfg fingerprint beats (beaten t)
  unfolding heartbeat_loop heartbeat
  next_beat beats t a = rw (heartbeat_loop, a) refl

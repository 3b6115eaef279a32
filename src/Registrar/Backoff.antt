-- ===== src/Registrar/Backoff.antt =====
-- How long the registrar waits between its attempts, cmd/registrar/main.go.
use minato.Prelude.{
  ℕ, zero, suc, ◌*◌, ◌+◌, ◌≡◌, refl, sym, subst, ap, ◌∙◌, ◌⊎◌, inl, inr, true, false, ◌++◌, arith,
  Bool-cases, List, [], ◌∷◌, String,
}
use mathlib.Core.List.{append_assoc}
use minato.Cluster.{M, pure}
use minato.Registrar.Settings.{RegistrarConfig, second}
use minato.Registrar.Loop.{
  Call, post_register, post_heartbeat, backoff_wait, tick, World, Beat, alive, unknown, failed,
  is_ok, beat_of, next_backoff, Registration, registered, stopped, pending, register, register_loop,
  heartbeat_call, after_beat, heartbeat_loop, run, register_call, heartbeat_call,
}
use minato.Registrar.Rounds.{
  accepted_round, stopped_round, refused_round, last_beat, beaten, next_beat,
}

-- 1, 2, 4, 8 and 16 seconds, and then always 32.
abbrev pub delay : ℕ → ℕ
delay zero = second
delay (suc zero) = 2 * second
delay (suc (suc zero)) = 4 * second
delay (suc (suc (suc zero))) = 8 * second
delay (suc (suc (suc (suc zero)))) = 16 * second
delay (suc (suc (suc (suc (suc k))))) = 32 * second

-- The waits of the calls, which stand newest first.
abbrev pub waits : List Call → List ℕ
waits [] = []
waits (backoff_wait d ∷ t) = d ∷ waits t
waits (post_register url token p ∷ t) = waits t
waits (post_heartbeat url token p ∷ t) = waits t
waits (tick ∷ t) = waits t

next_backoff-delay : (k : ℕ) → next_backoff (delay k) ≡ delay (suc k)
unfolding next_backoff
next_backoff-delay zero = refl
next_backoff-delay (suc zero) = refl
next_backoff-delay (suc (suc zero)) = refl
next_backoff-delay (suc (suc (suc zero))) = refl
next_backoff-delay (suc (suc (suc (suc zero)))) = refl
next_backoff-delay (suc (suc (suc (suc (suc k))))) = refl

no_waits-append : (a b : List Call) → waits a ≡ [] → waits b ≡ [] → waits (a ++ b) ≡ []
no_waits-append [] b h g = g
no_waits-append (backoff_wait d ∷ a) b h g = absurd (cc h)
no_waits-append (post_register url token p ∷ a) b h g = no_waits-append a b h g
no_waits-append (post_heartbeat url token p ∷ a) b h g = no_waits-append a b h g
no_waits-append (tick ∷ a) b h g = no_waits-append a b h g

module _ (w : World) (cfg : RegistrarConfig) (fingerprint : String) where
  -- The calls of the first registrations where each is refused and waited for, newest first.
  abbrev pub refused_rounds : ℕ → List Call
  refused_rounds zero = []
  refused_rounds (suc k) =
      backoff_wait (delay k) ∷ register_call w cfg fingerprint ∷ refused_rounds k

  -- Each of the first registrations is refused.
  abbrev pub AreRefused : ℕ → Type 0
  AreRefused zero = Unit
  AreRefused (suc k) = AreRefused k × (is_ok (w.status (refused_rounds k)) ≡ false)

  -- The registrar is told to stop while it waits after the last of them.
  abbrev pub IsStopped : ℕ → Type 0
  IsStopped zero = ⊥
  IsStopped (suc k) = w.is_done (register_call w cfg fingerprint ∷ refused_rounds k) ≡ true

  -- How the first loop ends after so many refusals.
  abbrev LoopEnds : ℕ → ℕ → Registration × List Call → Type 0
  LoopEnds attempts k (registered, t) =
      (is_ok (w.status (refused_rounds k)) ≡ true)
      × (t ≡ register_call w cfg fingerprint ∷ refused_rounds k)
  LoopEnds attempts k (stopped, t) = (t ≡ refused_rounds k) × IsStopped k
  LoopEnds attempts k (pending, t) = (t ≡ refused_rounds k) × (k ≡ attempts)

  -- The registrations of the first loop are refused and each is followed by its wait, until one is
  -- accepted, after which there is no wait, or the registrar stops, or its attempts are used up.
  abbrev pub IsSpaced : ℕ → List Call → Type 0
  IsSpaced attempts t =
      (k : ℕ) × AreRefused k
      × (((t ≡ refused_rounds k) × ((k ≡ attempts) ⊎ IsStopped k))
          ⊎ ((later : List Call) × (is_ok (w.status (refused_rounds k)) ≡ true)
              × (t ≡ later ++ (register_call w cfg fingerprint ∷ refused_rounds k))
              × (waits later ≡ [])))

  register_loop-LoopEnds :
      (attempts left k backoff : ℕ)
      → k + left ≡ attempts
      → backoff ≡ delay k
      → AreRefused k
      → (m : ℕ) × AreRefused m
        × LoopEnds attempts m (register_loop w cfg fingerprint left backoff (refused_rounds k))
  unfolding register_loop
  register_loop-LoopEnds attempts zero k backoff n e h = (k, h, (refl, omega (arith, n)))
  register_loop-LoopEnds attempts (suc left) k backoff n e h =
      let t = refused_rounds k in
      let reg = register_call w cfg fingerprint in
      let waited : backoff_wait backoff ∷ reg ∷ t ≡ refused_rounds (suc k) =
        ap (λ d. backoff_wait d ∷ reg ∷ t) e in
      elim (Bool-cases (is_ok (w.status t))) [
        | inl a ↦ (
          k,
          h,
          subst (LoopEnds attempts k) (sym (accepted_round w cfg fingerprint left backoff t a))
              (a, refl),
        )
        | inr a ↦ elim (Bool-cases (w.is_done (reg ∷ t))) [
          | inl b ↦ (
            suc k,
            (h, a),
            subst (LoopEnds attempts (suc k))
                (sym (stopped_round w cfg fingerprint left backoff t a b)) (waited, b),
          )
          | inr b ↦
              let (m, refused, ends) =
                register_loop-LoopEnds attempts left (suc k) (next_backoff backoff)
                  (omega (arith, n)) (ap next_backoff e ∙ next_backoff-delay k) (h, a) in
              (
                m,
                refused,
                subst (LoopEnds attempts m)
                    (sym (
                      refused_round w cfg fingerprint left backoff t a b
                      ∙ ap (register_loop w cfg fingerprint left (next_backoff backoff)) waited))
                    ends,
              )
        ]
      ]

  -- Calls that do not wait, made after others.
  abbrev OnTop : List Call → List Call → Type 0
  OnTop t t' = (later : List Call) × (t' ≡ later ++ t) × (waits later ≡ [])

  OnTop-trans : {t u v : List Call} → OnTop t u → OnTop u v → OnTop t v
  OnTop-trans {t} (a, e, h) (b, f, g) =
      (b ++ a, f ∙ ap (λ l. b ++ l) e ∙ sym (append_assoc b a t), no_waits-append b a g h)

  beaten-OnTop : (t : List Call) → OnTop t (beaten w cfg fingerprint t)
  unfolding after_beat register
  beaten-OnTop t = on_top (beat_of (w.status (tick ∷ t)))
    where
      on_top :
          (b : Beat)
          → OnTop t (after_beat w cfg fingerprint b (heartbeat_call w cfg fingerprint ∷ tick ∷ t)).1
      on_top alive = (heartbeat_call w cfg fingerprint ∷ tick ∷ [], refl, refl)
      on_top failed = (heartbeat_call w cfg fingerprint ∷ tick ∷ [], refl, refl)
      on_top unknown = (
        register_call w cfg fingerprint ∷ heartbeat_call w cfg fingerprint ∷ tick ∷ [],
        refl,
        refl,
      )

  heartbeat_loop-OnTop :
      (beats : ℕ) (t : List Call) → OnTop t (heartbeat_loop w cfg fingerprint beats t).1
  unfolding heartbeat_loop
  heartbeat_loop-OnTop zero t = ([], refl, refl)
  heartbeat_loop-OnTop (suc beats) t = elim (Bool-cases (w.is_done t)) [
    | inl a ↦ (tick ∷ [], ap (λ r. r.1) (last_beat w cfg fingerprint beats t a), refl)
    | inr a ↦
        subst (λ r. OnTop t r.1) (sym (next_beat w cfg fingerprint beats t a))
          (OnTop-trans (beaten-OnTop t) (heartbeat_loop-OnTop beats (beaten w cfg fingerprint t)))
  ]

  then_beats :
      (attempts beats k : ℕ) (r : Registration) (t : List Call)
      → AreRefused k
      → LoopEnds attempts k (r, t)
      → IsSpaced attempts
          (elim r as (λ _. M Call (Unit {0})) [
            | registered ↦ heartbeat_loop w cfg fingerprint beats
            | stopped ↦ pure tt
            | pending ↦ pure tt
          ]
            t).1
  then_beats attempts beats k registered t h (a, e) =
      let (later, f, g) = heartbeat_loop-OnTop beats t in
      (k, h, inr (later, a, f ∙ ap (λ l. later ++ l) e, g))
  then_beats attempts beats k stopped t h (e, b) = (k, h, inl (e, inr b))
  then_beats attempts beats k pending t h (e, n) = (k, h, inl (e, inl n))

  -- The registrar waits after each refused registration of its first loop, 1, 2, 4, 8 and 16 seconds
  -- after the first ones and 32 seconds after each later one, and tries again. The loop ends only by
  -- an accepted registration, after which nothing is waited for but the ticks of the heartbeats, or
  -- where the registrar is stopped in such a wait, or after the bound on its attempts.
  pub run-IsSpaced :
      (attempts beats : ℕ) → IsSpaced attempts (run w cfg fingerprint attempts beats []).1
  unfolding run
  run-IsSpaced attempts beats =
      let (k, h, ends) = register_loop-LoopEnds attempts attempts 0 second (omega arith) refl tt in
      let (r, t) = register_loop w cfg fingerprint attempts second [] in
      then_beats attempts beats k r t h ends

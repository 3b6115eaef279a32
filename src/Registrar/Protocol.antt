-- ===== src/Registrar/Protocol.antt =====
-- In which order the registrar registers and sends heartbeats, cmd/registrar/main.go.
use minato.Prelude.{
  ℕ, zero, suc, ◌≡◌, refl, sym, subst, ap, inl, inr, true, Bool-cases, Option, none, some, List, [],
  ◌∷◌, String,
}
use minato.Cluster.{M, pure}
use minato.Registrar.Settings.{RegistrarConfig, RegisterPayload, second}
use minato.Registrar.Loop.{
  Call, post_register, post_heartbeat, backoff_wait, tick, World, Beat, alive, unknown, failed,
  is_ok, beat_of, next_backoff, Registration, registered, stopped, pending, register, register_loop,
  after_beat, heartbeat_loop, run, register_call, heartbeat_call,
}
use minato.Registrar.Rounds.{
  accepted_round, stopped_round, refused_round, last_beat, beaten, next_beat,
}

-- What the registrar is about to do: ask for the first registration, wait for a tick, send a heartbeat,
-- register again since the cloud does not know it, or nothing.
data Phase : Type 0 where
  trying resting due forgotten ended : Phase

-- Some registration of the calls, which stand newest first, was accepted.
pub data IsRegistered (w : World) : List Call → Type 0 where
  here :
      (url token : String) (p : RegisterPayload) (t : List Call)
      → is_ok (w.status t) ≡ true
      → IsRegistered w (post_register url token p ∷ t)
  before : (c : Call) (t : List Call) → IsRegistered w t → IsRegistered w (c ∷ t)

abbrev pub IsRegistration : Option Call → Type 0
IsRegistration (some (post_register url token p)) = Unit
IsRegistration _ = ⊥

-- A call is lawful after older calls and before the next newer one: a heartbeat follows a registration
-- that was accepted, and one that is answered with 404 is followed by a registration at once.
abbrev pub IsLawful : World → Option Call → Call → List Call → Type 0
IsLawful w next (post_heartbeat url token p) t =
    IsRegistered w t × (w.status t ≡ some 404 → IsRegistration next)
IsLawful w next (post_register url token p) t = Unit
IsLawful w next (backoff_wait d) t = Unit
IsLawful w next tick t = Unit

abbrev pub AreLawful : World → Option Call → List Call → Type 0
AreLawful w next [] = Unit
AreLawful w next (c ∷ t) = IsLawful w next c t × AreLawful w (some c) t

-- What is known in a phase, whatever call comes next.
abbrev Known : World → Phase → List Call → Type 0
Known w trying t = (next : Option Call) → AreLawful w next t
Known w resting t = IsRegistered w t × ((next : Option Call) → AreLawful w next t)
Known w due t = IsRegistered w t × ((next : Option Call) → AreLawful w next t)
Known w forgotten t =
    IsRegistered w t × ((next : Option Call) → IsRegistration next → AreLawful w next t)
Known w ended t = (next : Option Call) → AreLawful w next t

abbrev beat_phase : Beat → Phase
beat_phase alive = resting
beat_phase unknown = forgotten
beat_phase failed = resting

not_unknown : (s : Option ℕ) → s ≡ some 404 → beat_of s ≡ unknown
not_unknown s e = ap beat_of e

module _ (w : World) (cfg : RegistrarConfig) (fingerprint : String) where
  beat-Known :
      (b : Beat) (t : List Call)
      → b ≡ beat_of (w.status t)
      → Known w due t
      → Known w (beat_phase b) (heartbeat_call w cfg fingerprint ∷ t)
  beat-Known alive t e (r, l) =
      (before _ t r, λ next. ((r, λ q. absurd (cc (e, not_unknown (w.status t) q))), l (some _)))
  beat-Known failed t e (r, l) =
      (before _ t r, λ next. ((r, λ q. absurd (cc (e, not_unknown (w.status t) q))), l (some _)))
  beat-Known unknown t e (r, l) = (before _ t r, λ next reg. ((r, λ q. reg), l (some _)))

  after_beat-Known :
      (b : Beat) (t : List Call)
      → Known w (beat_phase b) t
      → Known w resting (after_beat w cfg fingerprint b t).1
  unfolding after_beat register
  after_beat-Known alive t k = k
  after_beat-Known failed t k = k
  after_beat-Known unknown t (r, l) =
      (before _ t r, λ next. (tt, l (some (register_call w cfg fingerprint)) tt))

  heartbeat_loop-AreLawful :
      (beats : ℕ) (t : List Call)
      → Known w resting t
      → AreLawful w none (heartbeat_loop w cfg fingerprint beats t).1
  unfolding heartbeat_loop
  heartbeat_loop-AreLawful zero t (r, l) = l none
  heartbeat_loop-AreLawful (suc beats) t (r, l) = elim (Bool-cases (w.is_done t)) [
    | inl a ↦
        subst (λ q. AreLawful w none q.1) (sym (last_beat w cfg fingerprint beats t a))
          (tt, l (some tick))
    | inr a ↦
        subst (λ q. AreLawful w none q.1) (sym (next_beat w cfg fingerprint beats t a))
          (heartbeat_loop-AreLawful beats (beaten w cfg fingerprint t) (
            after_beat-Known (beat_of (w.status (tick ∷ t)))
              (heartbeat_call w cfg fingerprint ∷ tick ∷ t)
              (beat-Known (beat_of (w.status (tick ∷ t))) (tick ∷ t) refl
                (before tick t r, λ next. (tt, l (some tick))))))
  ]

  abbrev registration_phase : Registration → Phase
  registration_phase registered = resting
  registration_phase stopped = ended
  registration_phase pending = trying

  -- The phase after the first loop.
  abbrev Registers : Registration × List Call → Type 0
  Registers q = Known w (registration_phase q.0) q.1

  register_loop-Known :
      (attempts backoff : ℕ) (t : List Call)
      → Known w trying t
      → Registers (register_loop w cfg fingerprint attempts backoff t)
  unfolding register_loop
  register_loop-Known zero backoff t l = l
  register_loop-Known (suc attempts) backoff t l =
      let reg = register_call w cfg fingerprint in
      elim (Bool-cases (is_ok (w.status t))) [
        | inl a ↦
            subst Registers (sym (accepted_round w cfg fingerprint attempts backoff t a))
              (here _ _ _ t a, λ next. (tt, l (some reg)))
        | inr a ↦ elim (Bool-cases (w.is_done (reg ∷ t))) [
          | inl b ↦
              subst Registers (sym (stopped_round w cfg fingerprint attempts backoff t a b))
                (λ next. (tt, (tt, l (some reg))))
          | inr b ↦ subst Registers (sym (refused_round w cfg fingerprint attempts backoff t a b)) (
              register_loop-Known attempts (next_backoff backoff) _
                (λ next. (tt, (tt, l (some reg)))))
        ]
      ]

  then_beats :
      (r : Registration) (beats : ℕ) (t : List Call)
      → Known w (registration_phase r) t
      → AreLawful w none
          (elim r as (λ _. M Call (Unit {0})) [
            | registered ↦ heartbeat_loop w cfg fingerprint beats
            | stopped ↦ pure tt
            | pending ↦ pure tt
          ]
            t).1
  then_beats registered beats t k = heartbeat_loop-AreLawful beats t k
  then_beats stopped beats t k = k none
  then_beats pending beats t k = k none

  -- Whatever the cloud answers, the registrar sends a heartbeat only after a registration that was
  -- accepted, and when a heartbeat is answered with 404 its next call is a registration.
  pub run-AreLawful :
      (attempts beats : ℕ) → AreLawful w none (run w cfg fingerprint attempts beats []).1
  unfolding run
  run-AreLawful attempts beats =
      let (r, t) = register_loop w cfg fingerprint attempts second [] in
      then_beats r beats t (register_loop-Known attempts second [] (λ next. tt))

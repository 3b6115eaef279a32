-- ===== src/Controllers/GameServer/Idle.antt =====
-- When GameServerReconciler scales an idle server down.
use minato.Prelude.{
  ℕ, ◌-◌, ◌≤◌, ℤ, pos, ◌≡◌, refl, ◌⊎◌, inl, inr, false, Option, none, some, List, [], ◌∷◌, arith,
  ltb_ℤ, leb, Bool-cases,
}
use minato.Cluster.{ok, fail, ApiErr, Outcome-cases}
use minato.Api.GameServer.{GameServer}
use minato.Controllers.GameServer.Model.{Call, update_set, get_players, dial, StatefulSet, World}
use minato.Controllers.GameServer.Agent.{
  key_of, get_player_count, check_activity, idle_timeout, check_players, check_idle_timeout,
  is_zero,
}

-- The stateful sets that were updated, newest first.
abbrev pub scaled : List Call → List StatefulSet
scaled [] = []
scaled (update_set s ∷ t) = s ∷ scaled t
scaled (_ ∷ t) = scaled t

-- No player was online by the agent's count, and the last activity is the idle timeout or more ago.
abbrev pub IsIdle : World → GameServer → List Call → Type 0
IsIdle w server t =
    let dialled = dial (key_of server) ∷ t in
    (count : ℤ × ℤ) × (last : ℕ) × (w.players dialled ≡ ok count)
    × (ltb_ℤ (pos 0) count.0 ≡ false)
    × (server.status.last_activity ≡ some last)
    × (idle_timeout server ≤ w.clock (get_players ∷ dialled) - last)

module _ (w : World) where
  get_player_count-scaled :
      (server : GameServer) (t : List Call) → scaled (get_player_count w server t).1 ≡ scaled t
  unfolding get_player_count
  get_player_count-scaled server t = ground arith

  get_player_count-asked :
      (server : GameServer) (t : List Call) {count : ℤ × ℤ}
      → (get_player_count w server t).0 ≡ ok count
      → (w.players (dial (key_of server) ∷ t) ≡ ok count)
        × ((get_player_count w server t).1 ≡ get_players ∷ dial (key_of server) ∷ t)
  unfolding get_player_count
  get_player_count-asked server t {count} h = ground arith

  check_activity-scaled :
      (timeout : ℕ) (server : GameServer) (sts : StatefulSet) (last : Option ℕ) (t : List Call)
      → (scaled (check_activity w timeout server sts last t).1 ≡ scaled t)
        ⊎ ((since : ℕ) × (last ≡ some since) × (timeout ≤ w.clock t - since))
  unfolding check_activity
  check_activity-scaled timeout server sts none t = inl refl
  check_activity-scaled timeout server sts (some since) t =
      elim (Bool-cases (leb timeout (w.clock t - since))) [
        | inl old ↦ inr (since, refl, ground arith)
        | inr recent ↦ inl (rw (recent, scaled, check_activity) refl)
      ]

  check_players-scaled :
      (server : GameServer) (sts : StatefulSet) (count : ℤ × ℤ) (t : List Call)
      → (scaled (check_players w server sts count t).1 ≡ scaled t)
        ⊎ ((last : ℕ) × (ltb_ℤ (pos 0) count.0 ≡ false)
            × (server.status.last_activity ≡ some last)
            × (idle_timeout server ≤ w.clock t - last))
  unfolding check_players
  check_players-scaled server sts count t = grind (arith, check_activity-scaled)

  check_idle_timeout-counted :
      (server : GameServer) (sts : StatefulSet) (t : List Call) {count : ℤ × ℤ}
      → is_zero sts.replicas ≡ false
      → (get_player_count w server t).0 ≡ ok count
      → check_idle_timeout w server sts t
        ≡ check_players w server sts count (get_players ∷ dial (key_of server) ∷ t)
  unfolding check_idle_timeout
  check_idle_timeout-counted server sts t on h = ground (arith, get_player_count-asked server t h)

  check_idle_timeout-uncounted :
      (server : GameServer) (sts : StatefulSet) (t : List Call) {e : ApiErr}
      → (get_player_count w server t).0 ≡ fail e
      → scaled (check_idle_timeout w server sts t).1 ≡ scaled t
  unfolding check_idle_timeout
  check_idle_timeout-uncounted server sts t h = ground (arith, get_player_count-scaled server t)

  -- An idle check writes the stateful set only after the agent has counted no player online, at a
  -- reading of the clock when the last activity is at least the idle timeout ago.
  pub check_idle_timeout-IsIdle :
      (server : GameServer) (sts : StatefulSet) (t : List Call)
      → (scaled (check_idle_timeout w server sts t).1 ≡ scaled t) ⊎ IsIdle w server t
  unfolding check_idle_timeout
  check_idle_timeout-IsIdle server sts t = elim (Bool-cases (is_zero sts.replicas)) [
    | inl off ↦ inl (rw (off, scaled, check_idle_timeout) refl)
    | inr on ↦ elim (Outcome-cases (get_player_count w server t).0) [
      | inr (e, h) ↦ inl (check_idle_timeout-uncounted server sts t h)
      | inl (count, h) ↦
          elim (check_players-scaled server sts count (get_players ∷ dial (key_of server) ∷ t)) [
            | inl same ↦ inl (rw (check_idle_timeout-counted server sts t on h) same)
            | inr (last, none_online, active, old) ↦
                inr (count, last, (get_player_count-asked server t h).0, none_online, active, old)
          ]
    ]
  ]

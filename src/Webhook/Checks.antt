-- ===== src/Webhook/Checks.antt =====
-- When the checks of the webhooks return no error, internal/webhook/gameprofile_webhook.go.
use minato.Prelude.{
  ℕ, suc, ◌≤◌, ◌≡◌, ◌≢◌, refl, ◌↔◌, inl, inr, not, ◌||◌, List, [], ◌∷◌, Option, none, some,
  if◌then◌else◌, ℤ, pos, negsuc, ltb_ℤ, String, str_eq, eq_iff, arith, All, Bool-cases,
}
use minato.Cluster.{Outcome, ok, Outcome-cases}
use minato.Api.GameServer.{GameServer, SnapshotRef}
use minato.Api.GameProfile.{GameProfile, PortSpec}
use minato.Webhook.GameProfile.{or_else, required, validate_port, validate_ports}
use minato.Webhook.GameServer.{validate_snapshot_ref, validate_profile_ref, validate_game_server}

-- No error is returned exactly when the condition holds.
abbrev pub Checks : Option String → Type 0 → Type 0
Checks e P = (e ≡ none) ↔ P

pub or_else-Checks :
    {P Q : Type 0} (a b : Option String) → Checks a P → Checks b Q → Checks (or_else a b) (P × Q)
or_else-Checks none b p q = (λ h. (p.0 refl, q.0 h), λ (x, y). q.1 y)
or_else-Checks (some e) b p q = (λ h. absurd (cc h), λ (x, y). absurd (cc (p.1 x)))

pub required-Checks : (v field : String) → Checks (required v field) (◌≢◌ {A = String} v "")
unfolding required
required-Checks v field = (
  λ h e. ground (arith, h, (eq_iff v "").1 e),
  λ h. elim (Bool-cases (str_eq v "")) [
    | inl e ↦ absurd (h ((eq_iff v "").0 e))
    | inr n ↦ rw n refl
  ],
)

-- From 1 to 65535.
abbrev pub IsPort : ℤ → Type 0
IsPort (pos n) = (1 ≤ n) × (n ≤ 65535)
IsPort (negsuc n) = ⊥

range-Checks :
    (n : ℤ) (e : String)
    → Checks (if not (ltb_ℤ (pos 0) n) || ltb_ℤ (pos 65535) n then some e else none) (IsPort n)
range-Checks (pos n) e = ground arith
range-Checks (negsuc n) e = ground arith

abbrev pub IsPortSpec : PortSpec → Type 0
IsPortSpec port = (◌≢◌ {A = String} port.name "") × IsPort port.container_port

pub validate_ports-Checks :
    (i : ℕ) (ports : List PortSpec) → Checks (validate_ports i ports) (All IsPortSpec ports)
unfolding validate_ports validate_port
validate_ports-Checks i [] = (λ h. tt, λ h. refl)
validate_ports-Checks i (port ∷ ports) =
    or_else-Checks (validate_port i port) (validate_ports (suc i) ports)
      (or_else-Checks (required port.name _) _ (required-Checks port.name _)
        (range-Checks port.container_port _))
      (validate_ports-Checks (suc i) ports)

abbrev pub HasName : Option SnapshotRef → Type 0
HasName none = Unit
HasName (some ref) = ◌≢◌ {A = String} ref.name ""

ref-Checks : (ref : Option SnapshotRef) → Checks (validate_snapshot_ref ref) (HasName ref)
unfolding validate_snapshot_ref
ref-Checks none = ((λ h. tt), λ h. refl)
ref-Checks (some ref) = elim (Bool-cases (str_eq ref.name "")) [
  | inl e ↦ ((λ h. absurd (cc (rw e at h))), λ h. absurd (h ((eq_iff ref.name "").0 e)))
  | inr n ↦ ((λ h e. cc (n, (eq_iff ref.name "").1 e)), λ h. rw n refl)
]

profile_ref-Checks :
    (get : String → Outcome GameProfile) (name : String)
    → Checks (validate_profile_ref get name) ((p : GameProfile) × (get name ≡ ok p))
unfolding validate_profile_ref
profile_ref-Checks get name = elim (Outcome-cases (get name)) [
  | inl (p, e) ↦ ((λ h. (p, e)), λ h. rw (validate_profile_ref, e) refl)
  | inr (x, e) ↦
      ((λ h. absurd (cc (rw (validate_profile_ref, e) at h))), λ (p, f). absurd (cc (e, f)))
]

-- The webhook admits a game server exactly when it names a profile, the API server returns that
-- profile, and a snapshot that it refers to has a name.
validate_game_server_iff :
    (get : String → Outcome GameProfile) (server : GameServer)
    → (validate_game_server get server ≡ none) ↔ (
        (◌≢◌ {A = String} server.spec.profile "")
        × ((p : GameProfile) × (get server.spec.profile ≡ ok p))
        × HasName server.spec.storage.snapshot_ref)
unfolding validate_game_server
validate_game_server_iff get server =
    let (sound, complete) =
      or_else-Checks _ _ (required-Checks server.spec.profile "spec.profile") (
        or_else-Checks _ _ (profile_ref-Checks get server.spec.profile)
          (ref-Checks server.spec.storage.snapshot_ref)) in
    ((λ h. let (a, (b, c)) = sound h in (a, b, c)), λ (a, b, c). complete (a, (b, c)))

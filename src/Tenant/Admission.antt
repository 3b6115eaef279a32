-- ===== src/Tenant/Admission.antt =====
-- Which traffic the network policy of a tenant admits, internal/controlplane/tenant/tenant.go.
use minato.Prelude.{
  ◌≡◌, ◌≢◌, refl, sym, ap, ◌↔◌, ◌⊎◌, inl, inr, List, [], ◌∷◌, if◌then◌else◌, ℤ, Bytes, Any,
}
use minato.Tenant.Config.{Config, no_ports}
use minato.Tenant.Policy.{
  Protocol, tcp, udp, sctp, on, ingress_type, IngressRule, NetworkPolicy, agent_port,
  game_port_rules, build_network_policy,
}

abbrev IsEmpty {ℓ} : {A : Type ℓ} → List A → Type 0
IsEmpty [] = Unit
IsEmpty (x ∷ xs) = ⊥

-- How Kubernetes reads a policy for ingress: some rule names the source, or names none, and names the
-- port, or names none.
abbrev AdmitsBy : Bytes → Protocol → ℤ → IngressRule → Type 0
AdmitsBy source protocol port r =
    (IsEmpty r.from ⊎ Any (λ n. source ≡ n) r.from)
    × (IsEmpty r.ports ⊎ Any (λ p. p ≡ on protocol port) r.ports)

-- A policy of kind ingress isolates the pods of its own namespace, and no others.
abbrev pub Isolates : NetworkPolicy → Bytes → Type 0
Isolates policy target =
    (policy.namespace ≡ target) × Any (λ kind. kind ≡ ingress_type) policy.policy_types

-- Traffic to the pods of a namespace passes where they are not isolated or some rule admits it.
abbrev pub Admits : NetworkPolicy → Bytes → Bytes → Protocol → ℤ → Type 0
Admits policy target source protocol port =
    (¬ Isolates policy target) ⊎ Any (AdmitsBy source protocol port) policy.ingress

-- The documented posture: pods of the same namespace, the control plane on the agent's port, and
-- anyone on a game port, by TCP or UDP.
abbrev pub IsIntended : Bytes → Config → Bytes → Protocol → ℤ → Type 0
IsIntended namespace cfg source protocol port =
    (source ≡ namespace)
    ⊎ ((source ≡ cfg.control_plane_namespace) × (protocol ≡ tcp) × (port ≡ agent_port))
    ⊎ ((protocol ≢ sctp) × Any (λ p. p ≡ port) cfg.game_ports)

tcp_or_udp : (protocol : Protocol) → protocol ≢ sctp → (protocol ≡ tcp) ⊎ (protocol ≡ udp)
tcp_or_udp tcp s = inl refl
tcp_or_udp udp s = inr refl
tcp_or_udp sctp s = absurd (s refl)

module _ (protocol : Protocol) (port : ℤ) where
  game_port_sound :
      (ports : List ℤ)
      → Any (λ p. p ≡ on protocol port) (game_port_rules ports)
      → (protocol ≢ sctp) × Any (λ p. p ≡ port) ports
  unfolding game_port_rules
  game_port_sound [] h = absurd h
  game_port_sound (p ∷ ps) (inl e) = ((λ s. cc (ap (λ q. q.protocol) e)), inl (ap (λ q. q.port) e))
  game_port_sound (p ∷ ps) (inr (inl e)) =
      ((λ s. cc (ap (λ q. q.protocol) e)), inl (ap (λ q. q.port) e))
  game_port_sound (p ∷ ps) (inr (inr h)) = let (s, m) = game_port_sound ps h in (s, inr m)

  game_port_complete :
      (ports : List ℤ)
      → (protocol ≢ sctp)
      → Any (λ p. p ≡ port) ports
      → Any (λ p. p ≡ on protocol port) (game_port_rules ports)
  unfolding game_port_rules
  game_port_complete [] s h = absurd h
  game_port_complete (p ∷ ps) s (inr h) = inr (inr (game_port_complete ps s h))
  game_port_complete (p ∷ ps) s (inl e) = elim (tcp_or_udp protocol s) [
    | inl t ↦ inl (cc (t, e))
    | inr u ↦ inr (inl (cc (u, e)))
  ]

  abbrev game_rules : List ℤ → List IngressRule
  game_rules ports =
      if no_ports ports then [] else (record { from = []; ports = game_port_rules ports }) ∷ []

  game_rules_sound :
      (source : Bytes) (ports : List ℤ)
      → Any (AdmitsBy source protocol port) (game_rules ports)
      → (protocol ≢ sctp) × Any (λ p. p ≡ port) ports
  unfolding game_port_rules
  game_rules_sound source [] h = absurd h
  game_rules_sound source (p ∷ ps) (inl (f, inl e)) = absurd e
  game_rules_sound source (p ∷ ps) (inl (f, inr m)) = game_port_sound (p ∷ ps) m
  game_rules_sound source (p ∷ ps) (inr h) = absurd h

  game_rules_complete :
      (source : Bytes) (ports : List ℤ)
      → (protocol ≢ sctp)
      → Any (λ p. p ≡ port) ports
      → Any (AdmitsBy source protocol port) (game_rules ports)
  game_rules_complete source [] s h = absurd h
  game_rules_complete source (p ∷ ps) s h = inl (inl tt, inr (game_port_complete (p ∷ ps) s h))

-- The policy of a tenant's namespace isolates the pods of that namespace and admits to them exactly
-- the traffic that it is meant to admit: from the namespace itself, from the control plane's
-- namespace to the agent's port by TCP, and from anywhere to a game port by TCP or UDP. Traffic to
-- the pods of another namespace it leaves alone.
pub build_network_policy-Admits :
    (namespace : Bytes) (cfg : Config) (target source : Bytes) (protocol : Protocol) (port : ℤ)
    → Admits (build_network_policy namespace cfg) target source protocol port
      ↔ ((target ≢ namespace) ⊎ IsIntended namespace cfg source protocol port)
unfolding build_network_policy
build_network_policy-Admits namespace cfg target source protocol port = (to, back)
  where
    passes : Type 0
    passes = Any (AdmitsBy source protocol port) (build_network_policy namespace cfg).ingress

    sound : passes → IsIntended namespace cfg source protocol port
    sound (inl (inr (inl e), f)) = inl e
    sound (inl (inr (inr h), f)) = absurd h
    sound (inl (inl h, f)) = absurd h
    sound (inr (inl (inr (inl e), inr (inl f)))) =
        inr (inl (e, ap (λ q. q.protocol) (sym f), ap (λ q. q.port) (sym f)))
    sound (inr (inl (inr (inl e), inr (inr h)))) = absurd h
    sound (inr (inl (inr (inl e), inl h))) = absurd h
    sound (inr (inl (inr (inr h), f))) = absurd h
    sound (inr (inl (inl h, f))) = absurd h
    sound (inr (inr h)) = inr (inr (game_rules_sound protocol port source cfg.game_ports h))

    complete : IsIntended namespace cfg source protocol port → passes
    complete (inl e) = inl (inr (inl e), inl tt)
    complete (inr (inl (e, t, a))) = inr (inl (inr (inl e), inr (inl (cc (t, a)))))
    complete (inr (inr (s, m))) =
        inr (inr (game_rules_complete protocol port source cfg.game_ports s m))

    to :
        Admits (build_network_policy namespace cfg) target source protocol port
        → (target ≢ namespace) ⊎ IsIntended namespace cfg source protocol port
    to (inl free) = inl (λ e. free (sym e, inl refl))
    to (inr h) = inr (sound h)

    back :
        (target ≢ namespace) ⊎ IsIntended namespace cfg source protocol port
        → Admits (build_network_policy namespace cfg) target source protocol port
    back (inl other) = inl (λ i. other (sym i.0))
    back (inr h) = inr (complete h)

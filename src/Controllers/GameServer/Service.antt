-- ===== src/Controllers/GameServer/Service.antt =====
-- The ports of the player-facing service of a game server.
use minato.Prelude.{
  ap, pos, negsuc, ℤ, ◌≡◌, refl, ◌⊎◌, inl, inr, true, false, not, ◌&&◌, ◌||◌, List, [], ◌∷◌, ◌++◌,
  arith, All, All-append, All-map, Bool-cases, Memᴰ, Memᴰ-append, eq_iff,
}
use minato.Controllers.Fleet.Selection.{eq_ℤ}
use minato.Api.GameProfile.{GameProfile, PortSpec, exposed_port}
use minato.Controllers.GameServer.Model.{ServicePort}
use minato.Controllers.Builder.Sftp.{sftp_port}
use minato.Controllers.GameServer.Ports.{
  ProtoPort, same_port, seen_port, proto_port, service_port, exposed_ports, game_ports,
  sftp_enabled, sftp_service_port,
}

abbrev pub pair_of : ServicePort → ProtoPort
pair_of s = (s.port, s.protocol)

-- No two ports of the list share number and protocol, which Kubernetes refuses.
abbrev pub IsDistinct : List ServicePort → Type 0
IsDistinct [] = Unit
IsDistinct (s ∷ ss) = All (λ r. same_port (pair_of s) (pair_of r) ≡ false) ss × IsDistinct ss

unseen :
    (seen : List ProtoPort) (ps : List PortSpec)
    → All (λ s. seen_port (pair_of s) seen ≡ false) (exposed_ports seen ps).0
unfolding exposed_ports seen_port service_port proto_port
unseen seen [] = tt
unseen seen (p ∷ ps) = elim (Bool-cases (not (exposed_port p) || seen_port (proto_port p) seen)) [
  | inl skip ↦ rw skip (unseen seen ps)
  | inr take ↦
      rw take (ground arith, All-map _ (λ s h. ground arith) (unseen (proto_port p ∷ seen) ps))
]

distinct : (seen : List ProtoPort) (ps : List PortSpec) → IsDistinct (exposed_ports seen ps).0
unfolding exposed_ports seen_port service_port proto_port
distinct seen [] = tt
distinct seen (p ∷ ps) = elim (Bool-cases (not (exposed_port p) || seen_port (proto_port p) seen)) [
  | inl skip ↦ rw skip (distinct seen ps)
  | inr take ↦ rw take (
    All-map _ (λ s h. ground arith) (unseen (proto_port p ∷ seen) ps),
    distinct (proto_port p ∷ seen) ps,
  )
]

seen_keeps :
    (k : ProtoPort) (seen : List ProtoPort) (ps : List PortSpec)
    → seen_port k seen ≡ true
    → seen_port k (exposed_ports seen ps).1 ≡ true
unfolding exposed_ports seen_port
seen_keeps k seen [] h = h
seen_keeps k seen (p ∷ ps) h =
    ground (arith, seen_keeps k seen ps, seen_keeps k (proto_port p ∷ seen) ps)

same_port_refl : (k : ProtoPort) → same_port k k ≡ true
unfolding same_port eq_ℤ
same_port_refl k = ground (arith, eq_iff k.1 k.1)

eq_ℤ-eq : (a b : ℤ) → eq_ℤ a b ≡ true → a ≡ b
unfolding eq_ℤ
eq_ℤ-eq (pos m) (pos n) h = ground arith
eq_ℤ-eq (pos m) (negsuc n) h = absurd (ground arith)
eq_ℤ-eq (negsuc m) (pos n) h = absurd (ground arith)
eq_ℤ-eq (negsuc m) (negsuc n) h = ground arith

same_port-eq : (a b : ProtoPort) → same_port a b ≡ true → a ≡ b
unfolding same_port
same_port-eq (m, s) (n, t) h = ground (arith, eq_ℤ-eq m n, eq_iff s t)

-- A pair that is met differs from one that is not.
seen_differs :
    (a b : ProtoPort) (seen : List ProtoPort)
    → seen_port a seen ≡ true
    → seen_port b seen ≡ false
    → same_port a b ≡ false
seen_differs a b seen h k = elim (Bool-cases (same_port a b)) [
  | inr differs ↦ differs
  | inl same ↦ absurd (ground (arith, ap (λ j. seen_port j seen) (same_port-eq a b same)))
]

-- The loop remembers every pair that it returns.
remembered :
    (seen : List ProtoPort) (ps : List PortSpec)
    → All (λ s. seen_port (pair_of s) (exposed_ports seen ps).1 ≡ true) (exposed_ports seen ps).0
unfolding exposed_ports service_port proto_port seen_port
remembered seen [] = tt
remembered seen (p ∷ ps) =
    elim (Bool-cases (not (exposed_port p) || seen_port (proto_port p) seen)) [
      | inl skip ↦ rw skip (remembered seen ps)
      | inr take ↦ rw take (
        seen_keeps (proto_port p) (proto_port p ∷ seen) ps
            (rw (same_port_refl (proto_port p), seen_port) refl),
        remembered (proto_port p ∷ seen) ps,
      )
    ]

IsDistinct-concat :
    (ss : List ServicePort) (r : ServicePort)
    → IsDistinct ss
    → All (λ s. same_port (pair_of s) (pair_of r) ≡ false) ss
    → IsDistinct (ss ++ r ∷ [])
IsDistinct-concat [] r d h = (tt, tt)
IsDistinct-concat (s ∷ ss) r d h =
    (All-append _ ss (r ∷ []) d.0 (h.0, tt), IsDistinct-concat ss r d.1 h.1)

-- The ports of the player-facing service are distinct in number and protocol, whatever ports the
-- profile lists, with the SFTP port or without.
game_ports-IsDistinct : (profile : GameProfile) → IsDistinct (game_ports profile)
unfolding game_ports
game_ports-IsDistinct profile =
    let (ports, seen) = exposed_ports [] profile.spec.ports in
    elim (Bool-cases (sftp_enabled profile && not (seen_port (sftp_port, "TCP") seen))) [
      | inr none ↦ rw none (distinct [] profile.spec.ports)
      | inl added ↦ rw added (
          IsDistinct-concat _ sftp_service_port (distinct [] profile.spec.ports) (
            All-map _ (λ s h. seen_differs (pair_of s) (sftp_port, "TCP") seen h (ground arith))
              (remembered [] profile.spec.ports)))
    ]

exposed_ports-covers :
    (seen : List ProtoPort) (ps : List PortSpec) (p : PortSpec)
    → Memᴰ p ps
    → exposed_port p ≡ true
    → (seen_port (proto_port p) seen ≡ true)
      ⊎ ((s : ServicePort) × Memᴰ s (exposed_ports seen ps).0
          × (same_port (pair_of s) (proto_port p) ≡ true))
unfolding exposed_ports seen_port service_port proto_port
exposed_ports-covers seen [] p m e = elim m [ ]
exposed_ports-covers seen (q ∷ ps) p (Memᴰ.head h) e =
    elim (Bool-cases (not (exposed_port q) || seen_port (proto_port q) seen)) [
      | inl skip ↦ inl ground (arith, ap exposed_port h, ap (λ x. seen_port (proto_port x) seen) h)
      | inr take ↦
          rw take (inr (service_port q, Memᴰ.head refl, rw h (same_port_refl (proto_port q))))
    ]
exposed_ports-covers seen (q ∷ ps) p (Memᴰ.tail m) e =
    elim (Bool-cases (not (exposed_port q) || seen_port (proto_port q) seen)) [
      | inl skip ↦ rw skip (exposed_ports-covers seen ps p m e)
      | inr take ↦ rw take (elim (exposed_ports-covers (proto_port q ∷ seen) ps p m e) [
        | inr (s, n, same) ↦ inr (s, Memᴰ.tail n, same)
        | inl met ↦ elim (Bool-cases (same_port (proto_port q) (proto_port p))) [
          | inl same ↦ inr (service_port q, Memᴰ.head refl, same)
          | inr differs ↦ inl (ground arith)
        ]
      ])
    ]

-- Every exposed port of the profile is served: the service has a port of its number and protocol.
game_ports-covers :
    (profile : GameProfile) (p : PortSpec)
    → Memᴰ p profile.spec.ports
    → exposed_port p ≡ true
    → (s : ServicePort) × Memᴰ s (game_ports profile)
      × (same_port (pair_of s) (proto_port p) ≡ true)
unfolding game_ports seen_port
game_ports-covers profile p m e = elim (exposed_ports-covers [] profile.spec.ports p m e) [
  | inl met ↦ absurd (ground arith)
  | inr (s, n, same) ↦
      let (ports, seen) = exposed_ports [] profile.spec.ports in
      elim (Bool-cases (sftp_enabled profile && not (seen_port (sftp_port, "TCP") seen))) [
        | inl added ↦ (s, rw added (Memᴰ-append _ (sftp_service_port ∷ []) n), same)
        | inr none ↦ (s, rw none n, same)
      ]
]
